-- ===== src/Mdns/Hostname.antt =====
-- `normalizeHostname` and `readHostnameFromFile`. A read of the file is a parameter.
pub mod Label
use dockerset.Base.{
  ℕ, Bool, true, ◌&&◌, ◌||◌, List, [], ◌∷◌, leb, ltb, ◌==◌, if◌then◌else◌, Bytes, length, Outcome,
  ok, err, ◌>>=◌,
}
use dockerset.Go.Text.{to_lower, trim_space, split}

pub data HostnameError : Type 0 where
  hostname_empty label_too_long read_failed : HostnameError
  invalid_char : ℕ → HostnameError

unfoldable pub is_label_char : ℕ → Bool
is_label_char r = leb b'a' r && leb r b'z' || leb b'0' r && leb r b'9' || r == b'-'

-- `for _, r := range name`
unfoldable pub check_chars : Bytes → Bytes → Outcome HostnameError Bytes
unfolding is_label_char
check_chars name [] = ok name
check_chars name (r ∷ rest) =
    let later = check_chars name rest in if is_label_char r then later else err (invalid_char r)

unfoldable pub normalize_hostname : Bytes → Outcome HostnameError Bytes
unfolding check_chars
normalize_hostname v =
    let name = trim_space (to_lower v) in
    if length name == 0
    then err hostname_empty
    else if ltb 63 (length name)
    then err label_too_long
    else check_chars name name

-- `strings.SplitN(string(b), "\n", 2)[0]`
abbrev first_line : List Bytes → Bytes
first_line [] = []
first_line (line ∷ rest) = line

-- `file` is what `os.ReadFile(path)` returned.
unfoldable pub read_hostname_from_file : Outcome HostnameError Bytes → Outcome HostnameError Bytes
unfolding normalize_hostname
read_hostname_from_file file = do b ← file; normalize_hostname (first_line (split b b'\n'))
