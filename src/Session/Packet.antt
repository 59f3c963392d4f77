-- ===== src/Session/Packet.antt =====
-- smartguard-crypto/src/session/handle.rs: the addresses in an IP packet's header.
use smartguard.Prelude.{
  ℕ, ◌/◌, ◌&&◌, Option, none, some, List, [], ◌∷◌, length, get_or, take, drop, leb, ◌==◌,
  if◌then◌else◌,
}
use smartguard.Net.{IpAddr}

-- `buf[i]`, where the length was tested before.
abbrev octet : List ℕ → ℕ → ℕ
octet buf i = get_or buf i 0

-- The source's two functions read at these offsets: of IPv4 and of IPv6.
unfoldable pub ip_src : List ℕ → Option IpAddr
ip_src [] = none
ip_src (first ∷ rest) =
    let buf = first ∷ rest in
    if first / 16 == 4 && leb 20 (length buf)
    then some (IpAddr.v4 (octet buf 12) (octet buf 13) (octet buf 14) (octet buf 15))
    else if first / 16 == 6 && leb 40 (length buf)
    then some (IpAddr.v6 (take 16 (drop 8 buf)))
    else none

unfoldable pub ip_dst : List ℕ → Option IpAddr
ip_dst [] = none
ip_dst (first ∷ rest) =
    let buf = first ∷ rest in
    if first / 16 == 4 && leb 20 (length buf)
    then some (IpAddr.v4 (octet buf 16) (octet buf 17) (octet buf 18) (octet buf 19))
    else if first / 16 == 6 && leb 40 (length buf)
    then some (IpAddr.v6 (take 16 (drop 24 buf)))
    else none
