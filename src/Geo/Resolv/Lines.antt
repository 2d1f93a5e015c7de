-- ===== src/Geo/Resolv/Lines.antt =====
-- The lines of the new `/etc/resolv.conf`.
use dockerset.Base.{ℕ, ◌≡◌, ◌⊎◌, true, false, ◌∷◌, map, ◌==◌, Bytes, All}
use dockerset.Go.Text.{split}
use dockerset.Geo.Resolv.Server.{IsUpstream}
use dockerset.Geo.Resolv.{Etc, newline, local_server, is_server_line, localised}

abbrev HasNo : ℕ → Bytes → Type 0
HasNo sep s = All (λ c. (c == sep) ≡ false) s

-- A line that names a server names this one.
abbrev pub IsLocal : Bytes → Type 0
IsLocal l = is_server_line l ≡ true → l ≡ local_server

-- The new content is the old lines, those of servers replaced, and perhaps the own server before them.
abbrev pub IsLocalised : Bytes → Bytes → Type 0
IsLocalised old new =
    (split new newline ≡ map localised (split old newline))
    ⊎ (split new newline ≡ local_server ∷ map localised (split old newline))

-- A call that ends with the address of the upstream, and that found none in `/etc/hosts`
IsWritten : Etc → Bytes → Etc → Type 0
IsWritten etc address after =
    IsUpstream (split etc.resolv newline) address
    × IsLocalised etc.resolv after.resolv
    × All IsLocal (split after.resolv newline)
