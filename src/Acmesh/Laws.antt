-- ===== src/Acmesh/Laws.antt =====
-- What the script prints is read back.

use dockerset.Base.{
  ℕ, zero, suc, ◌≤◌, ◌≡◌, ◌≢◌, refl, ap, ◌∙◌, Bool, true, false, ◌&&◌, List, [], ◌∷◌, ◌++◌,
  append_assoc, some, arith, ◌==◌, ◌===◌, if◌then◌else◌, leb, Bytes, length, take-append, codes,
  All, All-append, ok, err,
}
use dockerset.Go.Text.{has_prefix, index_of, split}
use dockerset.Go.Text.Laws.{split_one, split-split}
use dockerset.Acmesh.{
  newline, acme_return_value, read_into, second_item, retval_from, retval_of, read_output, Calls,
  answered, do_dns_api, acme_failed,
}

-- A digit, of which `$?` consists
abbrev pub is_digit : ℕ → Bool
is_digit c = leb b'0' c && leb c b'9'

abbrev pub IsNumber : Bytes → Type 0
IsNumber s = All (λ c. is_digit c ≡ true) s

abbrev zeros : ℕ → Bytes
zeros zero = []
zeros (suc n) = 0 ∷ zeros n

read_into_le : (n : ℕ) (s : Bytes) → length s ≤ n → (k : ℕ) × (read_into n s ≡ s ++ zeros k)
unfolding read_into
read_into_le zero [] h = (0, refl)
read_into_le zero (c ∷ s) h = absurd (omega arith)
read_into_le (suc n) [] h =
    let (k, e) = read_into_le n [] (omega arith) in (suc k, ap (λ (x : Bytes). 0 ∷ x) e)
read_into_le (suc n) (c ∷ s) h =
    let (k, e) = read_into_le n s (omega arith) in (k, ap (λ (x : Bytes). c ∷ x) e)

index_of-acme_return_value :
    (code : Bytes)
    → IsNumber code
    → index_of (code ++ acme_return_value) acme_return_value ≡ some (length code)
unfolding index_of has_prefix
index_of-acme_return_value [] number = refl
index_of-acme_return_value (c ∷ code) (digit, number) =
    let other : (c == b'A') ≡ false = ground (arith, digit) in
    rw (other, index_of-acme_return_value code number) (ap some (omega arith))

second_item-printed :
    (code : Bytes)
    → IsNumber code
    → second_item (acme_return_value ++ (code ++ acme_return_value)) ≡ code
unfolding second_item
second_item-printed code number =
    rw (index_of-acme_return_value code number, second_item)
      (take-append code acme_return_value (length code) refl)

retval_from-append :
    (ls ks : List Bytes) (retval : Bytes)
    → retval_from retval (ls ++ ks) ≡ retval_from (retval_from retval ls) ks
unfolding retval_from
retval_from-append [] ks retval = refl
retval_from-append (l ∷ ls) ks retval =
    retval_from-append ls ks (if has_prefix l acme_return_value then second_item l else retval)

-- The line that the script prints at its end
abbrev pub printed : Bytes → Bytes
printed code = acme_return_value ++ (code ++ acme_return_value)

IsOneLine : Bytes → Type 0
IsOneLine s = All (λ c. (c == newline) ≡ false) s

number-IsOneLine : (code : Bytes) → IsNumber code → IsOneLine code
unfolding IsOneLine
number-IsOneLine [] number = tt
number-IsOneLine (c ∷ code) (digit, number) = (ground (arith, digit), number-IsOneLine code number)

printed-IsOneLine : (code : Bytes) → IsNumber code → IsOneLine (printed code)
unfolding IsOneLine
printed-IsOneLine code number =
    All-append (λ c. (c == newline) ≡ false) acme_return_value (code ++ acme_return_value)
      (search tt)
      (All-append (λ c. (c == newline) ≡ false) code acme_return_value
        (unfold IsOneLine in number-IsOneLine code number) (search tt))

zeros-IsOneLine : (k : ℕ) → IsOneLine (zeros k)
unfolding IsOneLine
zeros-IsOneLine zero = tt
zeros-IsOneLine (suc k) = (refl, zeros-IsOneLine k)

has_prefix-zeros : (k : ℕ) → has_prefix (zeros k) acme_return_value ≡ false
unfolding has_prefix
has_prefix-zeros zero = refl
has_prefix-zeros (suc k) = refl

marked :
    (l retval : Bytes) (ls : List Bytes)
    → has_prefix l acme_return_value ≡ true
    → retval_from retval (l ∷ ls) ≡ retval_from (second_item l) ls
unfolding retval_from
marked l retval ls h = ap (λ (b : Bool). retval_from (if b then second_item l else retval) ls) h

unmarked :
    (l retval : Bytes) (ls : List Bytes)
    → has_prefix l acme_return_value ≡ false
    → retval_from retval (l ∷ ls) ≡ retval_from retval ls
unfolding retval_from
unmarked l retval ls h = ap (λ (b : Bool). retval_from (if b then second_item l else retval) ls) h

retval_from_nil : (retval : Bytes) → retval_from retval [] ≡ retval
unfolding retval_from
retval_from_nil retval = refl

has_prefix-printed : (code : Bytes) → has_prefix (printed code) acme_return_value ≡ true
unfolding has_prefix
has_prefix-printed code = refl

retval_from-last :
    (code retval : Bytes) (k : ℕ)
    → IsNumber code
    → retval_from retval (printed code ∷ zeros k ∷ []) ≡ code
retval_from-last code retval k number =
    marked (printed code) retval (zeros k ∷ []) (has_prefix-printed code)
    ∙ unmarked (zeros k) (second_item (printed code)) [] (has_prefix-zeros k)
    ∙ retval_from_nil (second_item (printed code))
    ∙ second_item-printed code number

retval_of-printed :
    (before code : Bytes) (k : ℕ)
    → IsNumber code
    → retval_of (before ++ (newline ∷ (printed code ++ (newline ∷ zeros k)))) ≡ code
unfolding retval_of
retval_of-printed before code k number =
    let line : split (printed code) newline ≡ printed code ∷ [] =
      split_one (printed code) newline (unfold IsOneLine in printed-IsOneLine code number) in
    let end : split (zeros k) newline ≡ zeros k ∷ [] =
      split_one (zeros k) newline (unfold IsOneLine in zeros-IsOneLine k) in
    let tail : split (printed code ++ (newline ∷ zeros k)) newline ≡ printed code ∷ zeros k ∷ [] =
      split-split (printed code) (zeros k) newline ∙ rw (line, end) refl in
    let lines : split (before ++ (newline ∷ (printed code ++ (newline ∷ zeros k)))) newline
        ≡ split before newline ++ (printed code ∷ zeros k ∷ []) =
      split-split before (printed code ++ (newline ∷ zeros k)) newline
      ∙ ap (λ (x : List Bytes). split before newline ++ x) tail in
    ap (retval_from (codes "0")) lines
    ∙ retval_from-append (split before newline) (printed code ∷ zeros k ∷ []) (codes "0")
    ∙ retval_from-last code (retval_from (codes "0") (split before newline)) k number

-- What the script leaves in its file: lines, and the line of its end
abbrev pub output_of : Bytes → Bytes → Bytes
output_of before code = before ++ (newline ∷ (printed code ++ (newline ∷ [])))

read_output-eq : (n : ℕ) (s : Bytes) → s ≢ [] → read_output n (some s) ≡ ok (read_into n s)
read_output-eq n [] full = absurd (full refl)
read_output-eq n (c ∷ s) full = refl

output_of-ne-nil : (before code : Bytes) → output_of before code ≢ []
output_of-ne-nil [] code = λ e. cc
output_of-ne-nil (c ∷ before) code = λ e. cc

-- Where the calls of `DoDNSAPI` succeed, and the script ends with the line that tells what acme.sh
-- returned, within what the buffer holds, `DoDNSAPI` succeeds if that is 0, and else fails with it.
pub do_dns_api-printed :
    (n : ℕ) (calls : Calls) (before code : Bytes)
    → calls.config ≡ true
    → calls.secret ≡ some (some true)
    → calls.temporary ≡ true
    → calls.started ≡ true
    → calls.content ≡ some (output_of before code)
    → length (output_of before code) ≤ n
    → IsNumber code
    → do_dns_api n calls ≡ (if code === codes "0" then ok tt else err (acme_failed code))
unfolding do_dns_api answered
do_dns_api-printed n calls before code config secret temporary started content fits number =
    let (k, e) = read_into_le n (output_of before code) fits in
    let shape : output_of before code ++ zeros k
        ≡ before ++ (newline ∷ (printed code ++ (newline ∷ zeros k))) =
      append_assoc before (newline ∷ (printed code ++ (newline ∷ []))) (zeros k)
      ∙ ap (λ (x : Bytes). before ++ (newline ∷ x))
          (append_assoc (printed code) (newline ∷ []) (zeros k)) in
    let retval : retval_of (read_into n (output_of before code)) ≡ code =
      ap retval_of (e ∙ shape) ∙ retval_of-printed before code k number in
    let read : read_output n calls.content ≡ ok (read_into n (output_of before code)) =
      ap (read_output n) content
      ∙ read_output-eq n (output_of before code) (output_of-ne-nil before code) in
    rw (config, secret, temporary, started, read) (ap answered retval)
