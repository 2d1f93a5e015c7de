-- ===== src/Acmesh.antt =====
-- The DNS solver acmesh (acmesh/main.go): `DoDNSAPI` runs a script and reads from its output what acme.sh
-- returned. The parts of Kubernetes, the script and the files are given by what they answer.
pub mod Laws
use dockerset.Base.{
  ℕ, zero, suc, ◌*◌, Bool, true, false, List, [], ◌∷◌, ◌++◌, Option, none, some, Outcome, ok, err,
  panic, stuck, ◌>>=◌, if◌then◌else◌, ◌===◌, Bytes, length, take, drop, codes,
}
use dockerset.Go.Text.{has_prefix, index_of, split}

abbrev pub newline : ℕ
newline = 10

-- `acmeReturnValue`
abbrev pub acme_return_value : Bytes
acme_return_value = codes "ACME_RETVAL"

-- The size of `output`
abbrev pub output_size : ℕ
output_size = 1048576

-- `make([]byte, n)` after one Read of a file: what is longer is left, and zeros fill up what is shorter.
unfoldable pub read_into : ℕ → Bytes → Bytes
read_into zero s = []
read_into (suc n) [] = 0 ∷ read_into n []
read_into (suc n) (c ∷ s) = c ∷ read_into n s

-- `items[1]` of a line that begins with the mark: what stands before the next one
unfoldable pub second_item : Bytes → Bytes
unfolding index_of
second_item line =
    let rest = drop (length acme_return_value) line in
    elim (index_of rest acme_return_value) [ none ↦ rest | some i ↦ take i rest ]

-- The loop over the lines, with `retval`
unfoldable pub retval_from : Bytes → List Bytes → Bytes
unfolding has_prefix second_item
retval_from retval [] = retval
retval_from retval (line ∷ lines) =
    retval_from (if has_prefix line acme_return_value then second_item line else retval) lines

unfoldable pub retval_of : Bytes → Bytes
unfolding retval_from split
retval_of output = retval_from (codes "0") (split output newline)

pub data DnsError : Type 0 where
  bad_config no_secret no_env bad_env not_started no_output : DnsError
  acme_failed : Bytes → DnsError

-- What the calls give: the configuration, the secret (`none`: it cannot be read; `some none`: it has no
-- `env`) and whether its `env` is read, the temporary file, the process, and the file's content (`none`: it
-- cannot be opened).
pub record Calls : Type 0 where
  pub config : Bool
  pub secret : Option (Option Bool)
  pub temporary : Bool
  pub started : Bool
  pub content : Option Bytes

abbrev pub env_of : Option (Option Bool) → Outcome DnsError Unit
env_of none = err no_secret
env_of (some none) = err no_env
env_of (some (some false)) = err bad_env
env_of (some (some true)) = ok tt

-- The first Read of an empty file gives io.EOF.
abbrev pub read_output : ℕ → Option Bytes → Outcome DnsError Bytes
read_output n none = err no_output
read_output n (some []) = err no_output
read_output n (some (c ∷ s)) = ok (read_into n (c ∷ s))

abbrev pub checked : Bool → DnsError → Outcome DnsError Unit
checked true e = ok tt
checked false e = err e

-- `defer os.Remove(stdoutFile.Name())`, where the error of CreateTemp is dropped
abbrev pub stdout_file : Bool → Outcome DnsError Unit
stdout_file true = ok tt
stdout_file false = panic

unfoldable pub answered : Bytes → Outcome DnsError Unit
unfolding ◌===◌
answered retval = if retval === codes "0" then ok tt else err (acme_failed retval)

-- `DoDNSAPI`, with the size of its buffer
unfoldable pub do_dns_api : ℕ → Calls → Outcome DnsError Unit
unfolding read_into retval_of answered
do_dns_api n calls = do
  configured ← checked calls.config bad_config
  env ← env_of calls.secret
  file ← stdout_file calls.temporary
  process ← checked calls.started not_started
  output ← read_output n calls.content
  answered (retval_of output)
