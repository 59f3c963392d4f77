-- ===== src/Net/Display.antt =====
-- `Display` of `std::net::IpAddr`, which smartguard/src/route.rs and dns.rs call: dotted decimals,
-- and for IPv6 the hexadecimal segments with the longest run of zeros shortened to "::".
use smartguard.Prelude.{
  ℕ, ◌+◌, ◌*◌, ◌/◌, ◌%◌, String, List, [], ◌∷◌, map, ◌<>◌, ◌≡◌, refl, leb, ltb, ◌==◌, if◌then◌else◌,
  Bool, true, ◌&&◌, join, take, drop, get_or,
}
use smartguard.Net.{IpAddr}

abbrev digits : List String
digits =
    "0" ∷ "1" ∷ "2" ∷ "3" ∷ "4" ∷ "5" ∷ "6" ∷ "7" ∷ "8" ∷ "9" ∷ "a" ∷ "b" ∷ "c" ∷ "d" ∷ "e" ∷ "f"
    ∷ []

abbrev pub digit : ℕ → String
digit n = get_or digits n "?"

-- A digit, left out where it would lead the number.
abbrev digit_from : ℕ → ℕ → ℕ → String
digit_from n weight base = if leb weight n then digit (n / weight % base) else ""

-- An octet in decimal, a segment in hexadecimal.
abbrev show_octet : ℕ → String
show_octet n = digit_from n 100 10 <> digit_from n 10 10 <> digit (n % 10)

abbrev show_segment : ℕ → String
show_segment n = digit_from n 4096 16 <> digit_from n 256 16 <> digit_from n 16 16 <> digit (n % 16)

abbrev segments : List ℕ → List ℕ
segments [] = []
segments (a ∷ []) = []
segments (a ∷ b ∷ bs) = (a * 256 + b) ∷ segments bs

-- A run of zero segments.
record Span : Type 0 where
  start : ℕ
  size : ℕ

abbrev longer : Span → Span → Span
longer current longest = if ltb longest.size current.size then current else longest

abbrev extend : ℕ → Span → Span
extend i current = record {
  start = if current.size == 0 then i else current.start;
  size = current.size + 1;
}

-- The loop over the segments: the index, the run at hand and the longest one so far.
zeroes : ℕ → Span → Span → List ℕ → Span
zeroes i current longest [] = longest
zeroes i current longest (segment ∷ rest) =
    let grown = extend i current in
    let next = if segment == 0 then grown else record { start = 0; size = 0 } in
    zeroes (i + 1) next (if segment == 0 then longer grown longest else longest) rest

all_zero : List ℕ → Bool
all_zero [] = true
all_zero (b ∷ bs) = b == 0 && all_zero bs

-- `Ipv6Addr::to_ipv4_mapped` finds an address of the form ::ffff:a.b.c.d.
is_mapped : List ℕ → Bool
unfolding all_zero
is_mapped bs = all_zero (take 10 bs) && get_or bs 10 0 == 0xff && get_or bs 11 0 == 0xff

abbrev show_segments : List ℕ → String
show_segments ss = join ":" (map show_segment ss)

abbrev shorten : List ℕ → Span → String
shorten ss run =
    if ltb 1 run.size
    then show_segments (take run.start ss) <> "::" <> show_segments (drop (run.start + run.size) ss)
    else show_segments ss

abbrev show_octets : List ℕ → String
show_octets bs = join "." (map show_octet bs)

unfoldable pub display_ip : IpAddr → String
unfolding zeroes is_mapped join
display_ip (IpAddr.v4 a b c d) = show_octets (a ∷ b ∷ c ∷ d ∷ [])
display_ip (IpAddr.v6 bs) =
    if is_mapped bs
    then "::ffff:" <> show_octets (drop 12 bs)
    else shorten (segments bs)
        (zeroes 0 (record { start = 0; size = 0 }) (record { start = 0; size = 0 }) (segments bs))

display_ip_tests :
    (display_ip (IpAddr.v4 203 0 113 2) ≡ "203.0.113.2")
    × (display_ip
          (IpAddr.v6 (0xfd ∷ 0 ∷ 0 ∷ 0 ∷ 0 ∷ 0 ∷ 0 ∷ 0 ∷ 0 ∷ 0 ∷ 0 ∷ 0 ∷ 0 ∷ 0 ∷ 0 ∷ 1 ∷ []))
        ≡ "fd00::1")
    × (display_ip
          (IpAddr.v6 (0 ∷ 0 ∷ 0 ∷ 0 ∷ 0 ∷ 0 ∷ 0 ∷ 0 ∷ 0 ∷ 0 ∷ 0xff ∷ 0xff ∷ 1 ∷ 2 ∷ 3 ∷ 44 ∷ []))
        ≡ "::ffff:1.2.3.44")
    × (display_ip
          (IpAddr.v6 (0x20 ∷ 1 ∷ 0xd ∷ 0xb8 ∷ 0 ∷ 0 ∷ 0 ∷ 1 ∷ 0 ∷ 0 ∷ 0 ∷ 0 ∷ 0 ∷ 0 ∷ 0 ∷ 0 ∷ []))
        ≡ "2001:db8:0:1::")
unfolding display_ip
display_ip_tests = (refl, refl, refl, refl)
