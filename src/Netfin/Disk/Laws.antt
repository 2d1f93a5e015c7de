-- ===== src/Netfin/Disk/Laws.antt =====
-- What the operations keep of the backup.
use dockerset.Base.{
  ℕ, ◌≡◌, refl, sym, ◌∙◌, inl, inr, true, List, [], ◌∷◌, Option, none, some, arith, ◌===◌, ===_iff,
  Option-cases, Bytes,
}
use dockerset.Go.Maps.{Map, get, put, get-put}
use dockerset.Netfin.Disk.{Node, dir_node, file_node, make_dirs, make_dir, make_dir_at}

-- Nothing is lost: what stood at a path stands there still.
abbrev pub Grows : Map Node → Map Node → Type 0
Grows fs fs' = (p : Bytes) (n : Node) → get p fs ≡ some n → get p fs' ≡ some n

===-refl : (a : Bytes) → (a === a) ≡ true
===-refl a = (===_iff a a).1 refl

pub get-put_same : (k : Bytes) (n : Node) (fs : Map Node) → get k (put k n fs) ≡ some n
get-put_same k n fs = get-put k k n fs ∙ rw (===-refl k) refl

pub put-Grows : (k : Bytes) (n : Node) (fs : Map Node) → get k fs ≡ none → Grows fs (put k n fs)
put-Grows k n fs h p m e = ground (arith, get-put k p n fs, ===_iff k p)

made_at :
    (rel : Bytes) (mode : ℕ) (fs made : Map Node) (o : Option Node)
    → get rel fs ≡ o
    → make_dir_at rel mode fs o ≡ some made
    → Grows fs made × ((m : ℕ) × (get rel made ≡ some (dir_node m)))
made_at rel mode fs made none e h =
    let same : put rel (dir_node mode) fs ≡ made = cc in
    rw (sym same) (put-Grows rel (dir_node mode) fs e, (mode, get-put_same rel (dir_node mode) fs))
made_at rel mode fs made (some (dir_node m)) e h =
    let same : fs ≡ made = cc in rw (sym same) ((λ p n g. g), (m, e))
made_at rel mode fs made (some (file_node m t c)) e h = absurd cc

-- The directory stands where `make_dir` was asked for it.
pub make_dir-Grows :
    (rel : Bytes) (mode : ℕ) (fs made : Map Node)
    → make_dir rel mode fs ≡ some made
    → Grows fs made × ((m : ℕ) × (get rel made ≡ some (dir_node m)))
unfolding make_dir
make_dir-Grows rel mode fs made h = made_at rel mode fs made (get rel fs) refl h

pub make_dirs-Grows :
    (rels : List Bytes) (mode : ℕ) (fs made : Map Node)
    → make_dirs rels mode fs ≡ some made
    → Grows fs made
unfolding make_dirs
make_dirs-Grows [] mode fs made h p n e = ground arith
make_dirs-Grows (rel ∷ rels) mode fs made h p n e = elim (Option-cases (make_dir rel mode fs)) [
  | inl refused ↦ absurd (ground arith)
  | inr (one, done) ↦
      let rest : make_dirs rels mode one ≡ some made = ground arith in
      make_dirs-Grows rels mode one made rest p n ((make_dir-Grows rel mode fs one done).0 p n e)
]
