-- ===== src/Tests/Reports.antt =====
-- The theorem on the reports of `route -n get` that smartguard/src/route.rs reads, at a report.
use Prim.Native.Char.{code}
use smartguard.Prelude.{
  is_empty, is_whitespace, ◌&&◌, Bool-cases, ℕ, String, Bool, true, false, some, List, [], ◌∷◌, ◌≡◌,
  refl, arith, All, inl, inr,
}
use smartguard.Prelude.Lines.{Codes, no_break, no_space, no_colon, IsSolid}
use smartguard.Route.Info.{parse_info}
use smartguard.Route.Report.{ReportLine, field, other, report, IsProper, parse_info-report}

abbrev an_answer : List ReportLine
an_answer =
    other "   route to"
    ∷ field 2 "destination" "default"
    ∷ field 4 "gateway" "192.168.1.1"
    ∷ field 2 "interface" "en0"
    ∷ []

abbrev passes : (ℕ → Bool) → String → Bool
passes test String.[] = true
passes test (String.◌∷◌ c s) = test (code c) && passes test s

passes-Codes : (test : ℕ → Bool) (s : String) → passes test s ≡ true → Codes test s
passes-Codes test String.[] e = tt
passes-Codes test (String.◌∷◌ c s) e = elim (Bool-cases (test (code c))) [
  | inl good ↦ (good, passes-Codes test s (rw good at e))
  | inr bad ↦ absurd (cc (rw bad at e))
]

abbrev reads_well : String → String → Bool
reads_well name value = passes no_colon name && passes no_break name && passes no_space value

a_field :
    (indent : ℕ) (name value : String)
    → IsSolid name
    → reads_well name value ≡ true
    → is_empty value ≡ false
    → IsProper (field indent name value)
a_field indent name value solid well there = (
  solid,
  passes-Codes no_colon name (ground (arith, well)),
  passes-Codes no_break name (ground (arith, well)),
  (passes-Codes no_space value (ground (arith, well)), there),
)

an_answer-IsProper : All IsProper an_answer
unfolding is_whitespace
an_answer-IsProper = (
  (passes-Codes no_break "   route to" refl, passes-Codes no_colon "   route to" refl),
  (
    a_field 2 "destination" "default" refl refl refl,
    (
      a_field 4 "gateway" "192.168.1.1" refl refl refl,
      (a_field 2 "interface" "en0" refl refl refl, tt),
    ),
  ),
)

parse_info-report_example :
    parse_info (report an_answer) ≡ record { gateway = some "192.168.1.1"; interface = some "en0" }
parse_info-report_example = parse_info-report an_answer an_answer-IsProper
