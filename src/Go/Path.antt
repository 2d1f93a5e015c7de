-- ===== src/Go/Path.antt =====
-- Package path/filepath on Unix: `Clean`, and the base name as netfin takes it.
use mathlib.Core.List.{reverse}
use dockerset.Base.{
  Bool, true, false, ◌||◌, List, [], ◌∷◌, ◌++◌, ◌==◌, ◌===◌, if◌then◌else◌, Bytes, length, codes,
  Option, none, some, keep, not,
}
use dockerset.Go.Text.{split, join, has_prefix}

abbrev pub slash : Bytes
slash = codes "/"

abbrev pub dot : Bytes
dot = codes "."

abbrev pub dot_dot : Bytes
dot_dot = codes ".."

-- `..` takes the last element away, unless there is none.
abbrev pub up : Bool → List Bytes → List Bytes
up true [] = []
up false [] = dot_dot ∷ []
up rooted (top ∷ stack) = if top === dot_dot then dot_dot ∷ top ∷ stack else stack

-- One element of the path on the stack of those before it
unfoldable pub push_element : Bool → List Bytes → Bytes → List Bytes
push_element rooted stack e =
    if length e == 0 || e === dot
    then stack
    else if e === dot_dot
    then up rooted stack
    else e ∷ stack

unfoldable pub elements : Bool → List Bytes → List Bytes → List Bytes
unfolding push_element
elements rooted stack [] = reverse stack
elements rooted stack (e ∷ es) = elements rooted (push_element rooted stack e) es

abbrev pub or_dot : Bytes → Bytes
or_dot [] = dot
or_dot (c ∷ s) = c ∷ s

-- filepath.Clean
unfoldable pub clean : Bytes → Bytes
unfolding elements
clean path =
    if has_prefix path slash
    then slash ++ join (elements true [] (split path b'/')) b'/'
    else or_dot (join (elements false [] (split path b'/')) b'/')

-- filepath.IsAbs
abbrev pub is_abs : Bytes → Bool
is_abs path = has_prefix path slash

-- filepath.Abs, with the directory that Getwd gives
unfoldable pub abs : Option Bytes → Bytes → Option Bytes
unfolding clean
abs cwd path =
    if is_abs path
    then some (clean path)
    else elim cwd [ none ↦ none | some dir ↦ some (clean (dir ++ slash ++ path)) ]

abbrev pub last_element : List Bytes → Bytes
last_element [] = slash
last_element (e ∷ []) = e
last_element (e ∷ f ∷ es) = last_element (f ∷ es)

-- filepath.Base: the last element that is not empty
unfoldable pub base : Bytes → Bytes
unfolding split keep
base [] = dot
base (c ∷ s) = last_element (keep (λ e. not (length e == 0)) (split (c ∷ s) b'/'))
