-- ===== src/Rewriters.antt =====
-- The two rewriting proxies, rewrite_http_header/rewriter/main.go and
-- rewrite_http_body/rewriter/main.go. Package regexp is an argument, `net/http`'s headers are an
-- interface, and the log is left out.
pub mod Header
pub mod Body
use dockerset.Base.{◌≡◌, ℕ, Bool, List, [], ◌∷◌, ◌++◌, Option, ◌===◌, if◌then◌else◌, Bytes}

-- `http.Header`: names are compared in their canonical form.
pub record Headers (H : Type 0) : Type 0 where
  pub canonical : Bytes → Bytes
  pub values : H → Bytes → List Bytes
  pub del : H → Bytes → H
  pub add : H → Bytes → Bytes → H
  pub values_del :
      (h : H) (k j : Bytes)
      → values (del h k) j ≡ (if canonical j === canonical k then [] else values h j)
  pub values_add :
      (h : H) (k v j : Bytes)
      → values (add h k v) j
        ≡ (if canonical j === canonical k then values h j ++ (v ∷ []) else values h j)

-- `Header.Get`: the first value, or the empty text
unfoldable pub first_value : List Bytes → Bytes
first_value [] = []
first_value (v ∷ vs) = v

-- A compiled pattern: `MatchString`, and `ReplaceAll` with the text first
pub record Regexp : Type 0 where
  pub match_string : Bytes → Bool
  pub replace_all : Bytes → Bytes → Bytes

-- `Detail`, whose patterns are nil before `main` compiles them; `search` is not used before.
pub record Detail : Type 0 where
  pub url : Option Regexp
  pub stage : Bytes
  pub method : Bytes
  pub header : Bytes
  pub search : Regexp
  pub replacement : Bytes
