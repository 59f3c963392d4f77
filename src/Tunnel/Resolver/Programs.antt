-- ===== src/Tunnel/Resolver/Programs.antt =====
-- smartguard/src/dns.rs: what `resolvconf` and `scutil` document, and what the functions of Linux and
-- of macOS do by it.
use text.Mathlib.TextLemmas.{append_assoc as text_assoc}
use smartguard.Prelude.{
  String, true, Option, none, some, List, [], ◌∷◌, ◌++◌, ◌<>◌, ◌≡◌, refl, if◌then◌else◌, str_eq,
}
use smartguard.Dns.{
  macos, linux, nameservers, iface_id, piped_ok, apply_platform, set_script, remove_script,
  service_path, server_args, cleanup_dns,
}
use smartguard.Machine.{Machine}
use smartguard.Net.{IpAddr}
use smartguard.Net.Display.{display_ip}
use smartguard.Tunnel.Resolver.{Serving}
use smartguard.Tunnel.Start.{apply_ipv6_addr}

abbrev pub add_args : String → List String
add_args tag = "-a" ∷ tag ∷ "-m" ∷ "0" ∷ "-x" ∷ []

abbrev pub delete_args : String → List String
delete_args tag = "-d" ∷ tag ∷ "-f" ∷ []

-- What `resolvconf` documents: the text that is installed under an interface's tag is that of the last
-- addition that succeeded, and a deletion that succeeds takes it out. The other programs install
-- nothing.
pub record Resolver (m : Machine) : Type 0 where
  pub installed : m.World → String → Option String
  pub route_keeps :
      (args : List String) (w : m.World) (j : String)
      → installed (m.route args w).1 j ≡ installed w j
  pub ip_keeps :
      (args : List String) (w : m.World) (j : String)
      → installed (m.status "ip" args w).1 j ≡ installed w j
  pub added :
      (tag input : String) (w : m.World) (j : String)
      → let (ended, w') = m.pipe "resolvconf" (add_args tag) input w in
        installed w' j ≡ (
          if piped_ok ended
          then if str_eq tag j then some input else installed w j
          else installed w j)
  pub deleted :
      (tag : String) (w : m.World) (j : String)
      → let (ended, w') = m.status "resolvconf" (delete_args tag) w in
        ended ≡ some true → installed w' j ≡ (if str_eq tag j then none else installed w j)

unfoldable pub on_linux : {m : Machine} → Resolver m → Serving linux m
unfolding apply_platform cleanup_dns apply_ipv6_addr
on_linux {m = m} r = record {
  installed = r.installed;
  name_of = iface_id;
  text_of = nameservers;
  Known = λ tun_name ips. Unit;
  TakesOut =
      λ tun_name w. (m.status "resolvconf" (delete_args (iface_id tun_name)) w).0 ≡ some true;
  route_keeps = r.route_keeps;
  address_keeps = λ tun_name cidr w j. r.ip_keeps _ w j;
  applied = λ tun_name ips w j known. r.added (iface_id tun_name) (nameservers ips) w j;
  cleaned = λ d ips w j known out. r.deleted (iface_id d.tun_name) w j out;
}

-- The lines of a script.
abbrev pub unlines : List String → String
unlines [] = ""
unlines (line ∷ lines) = (line <> "\n") <> unlines lines

-- The key of an interface in the store of `scutil`.
abbrev pub service : String → String
service tun_name = "State:/Network/Service/" <> tun_name <> "/DNS"

abbrev words : List IpAddr → String
words [] = ""
words (ip ∷ ips) = " " <> display_ip ip <> words ips

-- The lines that fill a dictionary: the servers, for all domains, and no search domains.
abbrev pub dictionary : List IpAddr → List String
dictionary ips =
    ("d.add ServerAddresses *" <> words ips)
    ∷ "d.add SupplementalMatchDomains * \"\""
    ∷ "d.add SearchDomains *"
    ∷ []

-- What `scutil` documents of the scripts that set and remove the key of an interface: the dictionary
-- under a key is that of the last script that set it with success, and one that removes it with success
-- takes it out, where the name and the servers are texts that a script can have. The other programs set
-- no key.
pub record Scutil (m : Machine) : Type 1 where
  pub Readable : String → List IpAddr → Type 0
  pub stored : m.World → String → Option String
  pub route_keeps :
      (args : List String) (w : m.World) (j : String) → stored (m.route args w).1 j ≡ stored w j
  pub ifconfig_keeps :
      (args : List String) (w : m.World) (j : String)
      → stored (m.status "ifconfig" args w).1 j ≡ stored w j
  pub set :
      (tun_name : String) (ips : List IpAddr) (w : m.World) (j : String)
      → Readable tun_name ips
      → let script =
          unlines (
            "open" ∷ "d.init" ∷ (dictionary ips ++ (("set " <> service tun_name) ∷ "quit" ∷ []))) in
        let (ended, w') = m.pipe "scutil" [] script w in
        stored w' j ≡ (
          if piped_ok ended
          then if str_eq (service tun_name) j then some (unlines (dictionary ips)) else stored w j
          else stored w j)
  pub removed :
      (tun_name : String) (ips : List IpAddr) (w : m.World) (j : String)
      → Readable tun_name ips
      → let script = unlines ("open" ∷ ("remove " <> service tun_name) ∷ "quit" ∷ []) in
        let (ended, w') = m.pipe "scutil" [] script w in
        piped_ok ended ≡ true
        → stored w' j ≡ (if str_eq (service tun_name) j then none else stored w j)

around : (a b c rest : String) → ((a <> b) <> c) <> rest ≡ a <> b <> c <> rest
around a b c rest = rw (text_assoc (a <> b) c rest, text_assoc a b (c <> rest))

server_args-eq : (ips : List IpAddr) → server_args ips ≡ words ips
unfolding server_args
server_args-eq [] = refl
server_args-eq (ip ∷ ips) = rw (server_args-eq ips)

pub set_script-eq :
    (tun_name : String) (ips : List IpAddr)
    → set_script tun_name ips
      ≡ unlines
          ("open" ∷ "d.init" ∷ (dictionary ips ++ (("set " <> service tun_name) ∷ "quit" ∷ [])))
unfolding set_script service_path
set_script-eq tun_name ips =
    rw
      (
        server_args-eq ips,
        around "d.add ServerAddresses *" (words ips) "\n",
        around "set " (service tun_name) "\n",
      )
      refl

pub remove_script-eq :
    (tun_name : String)
    → remove_script tun_name ≡ unlines ("open" ∷ ("remove " <> service tun_name) ∷ "quit" ∷ [])
unfolding remove_script service_path
remove_script-eq tun_name =
    rw (around "remove " (service tun_name) "\n", ← text_assoc "open\n" "remove ") refl

unfoldable pub on_macos : {m : Machine} → Scutil m → Serving macos m
unfolding apply_platform cleanup_dns apply_ipv6_addr
on_macos {m = m} r = record {
  installed = r.stored;
  name_of = service;
  text_of = λ ips. unlines (dictionary ips);
  Known = r.Readable;
  TakesOut = λ tun_name w. piped_ok (m.pipe "scutil" [] (remove_script tun_name) w).0 ≡ true;
  route_keeps = r.route_keeps;
  address_keeps = λ tun_name cidr w j. r.ifconfig_keeps _ w j;
  applied =
      λ tun_name ips w j known. rw (set_script-eq tun_name ips) (r.set tun_name ips w j known);
  cleaned = λ d ips w j known out.
      rw (remove_script-eq d.tun_name)
        (r.removed d.tun_name ips w j known (rw (remove_script-eq d.tun_name) at out));
}
