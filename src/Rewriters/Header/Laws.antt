-- ===== src/Rewriters/Header/Laws.antt =====
-- What the rewriting leaves in a header.
use dockerset.Base.{Bool, not, ◌&&◌, List, map, ◌===◌, if◌then◌else◌, Bytes, length, ◌==◌}
use dockerset.Rewriters.{Headers, first_value, Detail}

-- The values of a header after a rewriting that finds the values `named` under its name: each of these,
-- rewritten and in order, for a header of that name, and the old ones for another. Nothing is
-- rewritten unless `on`, or where the first of them is empty.
abbrev pub rewritten : Detail → Bool → Bool → List Bytes → List Bytes → List Bytes
rewritten rwt on is_named named old =
    if on && not (length (first_value named) == 0) && is_named
    then map (λ v. rwt.search.replace_all v rwt.replacement) named
    else old

module _ {H : Type 0} (hs : Headers H) where
  -- Whether two names are those of one header
  abbrev pub one_name : Bytes → Bytes → Bool
  one_name j k = hs.canonical j === hs.canonical k
