-- ===== src/Tests/Resolv.antt =====
-- The first call on a machine, a later one, and one where `/etc/hosts` lacks its last line end.
use dockerset.Base.{◌≡◌, refl, inr, false, [], ◌∷◌, ◌++◌, none, some, Bytes, codes, ◌===◌, any}
use dockerset.Go.Text.{is_space, trim_space, has_prefix, contains, split, join, index_of}
use dockerset.Geo.Resolv.{
  Etc, Faults, upstream, newline, find_domain, find_upstream, line_address, line_server,
  ensure_hosts_and_resolv, append_line, new_resolv, localised, is_server_line, fields_from,
  passes_over,
}
use dockerset.Geo.Resolv.Hosts.{ensure_hosts_and_resolv-appended}

abbrev line : Bytes → Bytes
line l = l ++ (newline ∷ [])

abbrev etc : Etc
etc = record {
  hosts = line (codes "127.0.0.1 localhost");
  resolv = line (codes "search lan") ++ line (codes " nameserver 10.0.0.1");
}

abbrev no_faults : Faults
no_faults = record {
  hosts_unread = false;
  resolv_unread = false;
  hosts_unappended = none;
  resolv_unwritten = none;
}

-- The write of `/etc/resolv.conf` fails and leaves it empty.
abbrev full_disk : Faults
full_disk = record no_faults { resolv_unwritten = some [] }

abbrev after : Etc
after = record {
  hosts = line (codes "127.0.0.1 localhost") ++ append_line (codes "10.0.0.1");
  resolv = line (codes "search lan") ++ line (codes "nameserver 127.0.0.1");
}

absent : find_domain (split etc.hosts newline) ≡ none
unfolding find_domain split line_address trim_space is_space fields_from has_prefix passes_over
    ◌===◌ any
absent = refl

ensure_hosts_and_resolv-appended_example :
    ensure_hosts_and_resolv no_faults (ensure_hosts_and_resolv full_disk etc).1 ≡ (
      upstream (find_upstream (split etc.resolv newline)),
      (ensure_hosts_and_resolv full_disk etc).1,
    )
unfolding find_upstream split line_server trim_space is_space fields_from has_prefix is_server_line
    passes_over ◌===◌
ensure_hosts_and_resolv-appended_example =
    ensure_hosts_and_resolv-appended full_disk no_faults etc absent
      (inr (codes "127.0.0.1 localhost", refl)) refl refl refl refl refl

-- The later call takes the address of the last line.
open_line :
    ensure_hosts_and_resolv no_faults
      (ensure_hosts_and_resolv no_faults (record etc { hosts = codes "10.9.9.9 nas" })).1
    ≡ (
      upstream (codes "10.9.9.9"),
      record after { hosts = codes "10.9.9.9 nas" ++ append_line (codes "10.0.0.1") },
    )
unfolding ensure_hosts_and_resolv find_domain find_upstream append_line split join contains index_of
    trim_space is_space fields_from has_prefix new_resolv localised is_server_line ◌===◌ any
open_line = refl
