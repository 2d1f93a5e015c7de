-- ===== src/Netfin/Excluder.antt =====
-- `Excluder` (netfin/internal/filesync/exclude.go). `ToSlash` changes nothing on Unix.

use dockerset.Base.{
  Bool, false, not, ◌&&◌, ◌||◌, List, [], ◌∷◌, ◌++◌, map, ◌==◌, ◌===◌, if◌then◌else◌, Bytes, length,
  codes,
}
use dockerset.Go.Text.{trim_space, has_prefix, has_suffix, trim_suffix, contains}
use dockerset.Go.Path.{clean, dot, slash}
use dockerset.Go.Glob.{match}

pub record Excluder : Type 0 where
  pub patterns : List Bytes

unfoldable pub new_excluder : List Bytes → Excluder
new_excluder patterns = record { patterns = map trim_space patterns }

-- What stands behind the last `/`
unfoldable pub path_base_from : Bytes → Bytes → Bytes
path_base_from base [] = base
path_base_from base (c ∷ s) = path_base_from (if c == b'/' then s else base) s

unfoldable pub path_base : Bytes → Bytes
unfolding path_base_from
path_base path = path_base_from path path

abbrev pub stars : Bytes
stars = codes "/**"

-- One round of the loop over the patterns, for a cleaned path
unfoldable pub pattern_excludes : Bytes → Bytes → Bool
unfolding path_base
pattern_excludes rel pattern =
    if length pattern == 0
    then false
    else if has_suffix pattern stars
    then rel === trim_suffix pattern stars || has_prefix rel (trim_suffix pattern stars ++ slash)
    else not (contains pattern slash) && match pattern (path_base rel) || match pattern rel

unfoldable pub any_excludes : Bytes → List Bytes → Bool
unfolding pattern_excludes
any_excludes rel [] = false
any_excludes rel (p ∷ ps) = pattern_excludes rel p || any_excludes rel ps

unfoldable pub excluded : Excluder → Bytes → Bool
unfolding any_excludes
excluded e path = let rel = clean path in if rel === dot then false else any_excludes rel e.patterns
