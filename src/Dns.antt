-- ===== src/Dns.antt =====
-- smartguard/src/dns.rs: the system resolver while the tunnel is up. The three platforms that the
-- source tells apart by `cfg` are an argument; what is printed is left out.
use smartguard.Prelude.{
  String, Bool, true, false, Option, none, some, List, [], ◌∷◌, ◌<>◌, State, ◌>>=◌, ◌>>◌, pure,
}
use smartguard.Machine.{Machine, Piped, spawn_failed, write_failed, wait_failed, exited}
use smartguard.Net.{IpAddr}
use smartguard.Net.Display.{display_ip}

pub data Platform : Type 0 where
  macos linux other : Platform

pub record AppliedDns : Type 0 where
  pub tun_name : String

-- The text that each address adds to a script.
unfoldable pub server_args : List IpAddr → String
server_args [] = ""
server_args (ip ∷ ips) = " " <> display_ip ip <> server_args ips

unfoldable pub service_path : String → String
service_path tun_name = "State:/Network/Service/" <> tun_name <> "/DNS"

unfoldable pub set_script : String → List IpAddr → String
unfolding server_args service_path
set_script tun_name dns_servers =
    "open\n"
    <> "d.init\n"
    <> "d.add ServerAddresses *"
    <> server_args dns_servers
    <> "\n"
    <> "d.add SupplementalMatchDomains * \"\"\n"
    <> "d.add SearchDomains *\n"
    <> "set "
    <> service_path tun_name
    <> "\n"
    <> "quit\n"

unfoldable pub remove_script : String → String
unfolding service_path
remove_script tun_name = "open\nremove " <> service_path tun_name <> "\nquit\n"

unfoldable pub nameservers : List IpAddr → String
nameservers [] = ""
nameservers (ip ∷ ips) = "nameserver " <> display_ip ip <> "\n" <> nameservers ips

abbrev pub iface_id : String → String
iface_id tun_name = "tun." <> tun_name

abbrev pub piped_ok : Piped → Bool
piped_ok spawn_failed = false
piped_ok write_failed = false
piped_ok wait_failed = false
piped_ok (exited success) = success

module _ (m : Machine) where
  open m use {World, pipe, status}

  unfoldable pub run_scutil : String → State World Bool
  run_scutil script = do ended ← pipe "scutil" [] script; pure (piped_ok ended)

  unfoldable pub apply_macos : String → List IpAddr → State World Bool
  unfolding run_scutil set_script
  apply_macos tun_name dns_servers = run_scutil (set_script tun_name dns_servers)

  unfoldable pub cleanup_macos : String → State World (Unit {0})
  unfolding run_scutil remove_script
  cleanup_macos tun_name = run_scutil (remove_script tun_name) >> pure tt

  unfoldable pub apply_linux : String → List IpAddr → State World Bool
  unfolding nameservers
  apply_linux tun_name dns_servers = do
    ended ←
        pipe "resolvconf" ("-a" ∷ iface_id tun_name ∷ "-m" ∷ "0" ∷ "-x" ∷ [])
          (nameservers dns_servers)
    pure (piped_ok ended)

  unfoldable pub cleanup_linux : String → State World (Unit {0})
  cleanup_linux tun_name = status "resolvconf" ("-d" ∷ iface_id tun_name ∷ "-f" ∷ []) >> pure tt

  unfoldable pub apply_platform : Platform → String → List IpAddr → State World Bool
  unfolding apply_macos apply_linux
  apply_platform macos tun_name dns_servers = apply_macos tun_name dns_servers
  apply_platform linux tun_name dns_servers = apply_linux tun_name dns_servers
  apply_platform other tun_name dns_servers = pure false

  abbrev pub applied_if : Bool → String → Option AppliedDns
  applied_if true tun_name = some (record { tun_name = tun_name })
  applied_if false tun_name = none

  unfoldable pub apply_dns : Platform → String → List IpAddr → State World (Option AppliedDns)
  unfolding apply_platform
  apply_dns platform tun_name [] = pure none
  apply_dns platform tun_name (ip ∷ ips) = do
    ok ← apply_platform platform tun_name (ip ∷ ips)
    pure (applied_if ok tun_name)

  unfoldable pub cleanup_dns : Platform → AppliedDns → State World (Unit {0})
  unfolding cleanup_macos cleanup_linux
  cleanup_dns macos applied = cleanup_macos applied.tun_name
  cleanup_dns linux applied = cleanup_linux applied.tun_name
  cleanup_dns other applied = pure tt
