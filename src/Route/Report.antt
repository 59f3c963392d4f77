-- ===== src/Route/Report.antt =====
-- smartguard/src/route.rs: `get_route_info` reads back what a report of `route -n get` says.
use smartguard.Prelude.{
  ℕ, String, false, Option, none, some, List, [], ◌∷◌, ◌≡◌, refl, ap, sym, ◌∙◌, inl, inr,
  if◌then◌else◌, ◌<>◌, str_eq, eq_iff, All, Bool-cases, trim, strip_prefix, strip_prefix-append,
  lines, map,
}
use smartguard.Prelude.Lines.{
  Codes, no_break, no_colon, IsSolid, spaces, IsWord, lines-line, trim_word, trim-spaces,
  Codes-trim, Codes-append, no_break-Codes, spaces-Codes, strip_prefix-ne, strip_prefix-no_colon,
}
use text.Mathlib.TextLemmas.{append_assoc, cons-append}
use smartguard.Route.Info.{RouteInfo, read_line, read_lines, parse_info}

-- A line of a report: a field behind spaces, or a line that is no field.
pub data ReportLine : Type 0 where
  field : (indent : ℕ) (name value : String) → ReportLine
  other : String → ReportLine

abbrev pub report_line : ReportLine → String
report_line (field indent name value) = spaces indent <> (name <> ":" <> " " <> value)
report_line (other text) = text

-- The report, a line after the other.
unfoldable pub report : List ReportLine → String
report [] = ""
report (l ∷ ls) = report_line l <> "\n" <> report ls

-- A field has a name that begins with no white space, and a word for its value; no name and no other
-- line has a colon.
abbrev pub IsProper : ReportLine → Type 0
IsProper (field indent name value) =
    IsSolid name × Codes no_colon name × Codes no_break name × IsWord value
IsProper (other text) = Codes no_break text × Codes no_colon text

-- The value of the last field of a name, or the one before.
abbrev pub last_value : String → Option String → List ReportLine → Option String
last_value key found [] = found
last_value key found (field indent name value ∷ ls) =
    last_value key (if str_eq name key then some value else found) ls
last_value key found (other text ∷ ls) = last_value key found ls

field_assoc : (name value : String) → (name <> ": ") <> value ≡ name <> ":" <> " " <> value
field_assoc name value =
    append_assoc name ": " value ∙ ap (λ r. name <> r) (append_assoc ":" " " value)

trim-field :
    (indent : ℕ) (name value : String)
    → IsSolid name
    → IsWord value
    → trim (report_line (field indent name value)) ≡ name <> ":" <> " " <> value
trim-field indent name value h k =
    ap (λ r. trim (spaces indent <> r)) (sym (field_assoc name value))
    ∙ trim-spaces indent (name <> ": ") value (solid_before name h) k
    ∙ field_assoc name value
  where
    solid_before : (name : String) → IsSolid name → IsSolid (name <> ": ")
    solid_before String.[] h = absurd h
    solid_before (String.◌∷◌ c name) h = rw cons-append h

-- Where the field's name is the key, the value is left, behind a space.
strip_prefix-field :
    (key name rest : String)
    → Codes no_colon key
    → Codes no_colon name
    → strip_prefix (key <> ":") (name <> ":" <> rest)
      ≡ (if str_eq name key then some rest else none)
strip_prefix-field key name rest h k = elim (Bool-cases (str_eq name key)) [
  | inl same ↦ rw same (
      ap (λ n. strip_prefix (key <> ":") (n <> ":" <> rest)) ((eq_iff name key).0 same)
      ∙ ap (strip_prefix (key <> ":")) (sym (append_assoc key ":" rest))
      ∙ strip_prefix-append (key <> ":") rest)
  | inr differs ↦
      rw differs
        (strip_prefix-ne key name rest h k (λ e. cc ((eq_iff name key).1 (sym e), differs)))
]

gateway_no_colon : Codes no_colon "gateway"
gateway_no_colon = (refl, (refl, (refl, (refl, (refl, (refl, (refl, tt)))))))

interface_no_colon : Codes no_colon "interface"
interface_no_colon = (refl, (refl, (refl, (refl, (refl, (refl, (refl, (refl, (refl, tt)))))))))

read_field :
    (info : RouteInfo) (name value : String)
    → Codes no_colon name
    → IsWord value
    → read_line info (name <> ":" <> " " <> value) ≡ record {
      gateway = if str_eq name "gateway" then some value else info.gateway;
      interface = if str_eq name "interface" then some value else info.interface;
    }
unfolding read_line
read_field info name value h k = elim (Bool-cases (str_eq name "gateway")) [
  | inl gateway ↦
      let no_interface : str_eq name "interface" ≡ false =
        ap (λ n. str_eq n "interface") ((eq_iff name "gateway").0 gateway) in
      rw (at_gateway, gateway, no_interface, trim_word value k, k.1, read_line) refl
  | inr no_gateway ↦ elim (Bool-cases (str_eq name "interface")) [
    | inl interface ↦
        rw (at_gateway, no_gateway, at_interface, interface, trim_word value k, k.1, read_line) refl
    | inr no_interface ↦ rw (at_gateway, no_gateway, at_interface, no_interface, read_line) refl
  ]
]
  where
    at_gateway :
        strip_prefix "gateway:" (name <> ":" <> " " <> value)
        ≡ (if str_eq name "gateway" then some (" " <> value) else none)
    at_gateway = strip_prefix-field "gateway" name (" " <> value) gateway_no_colon h

    at_interface :
        strip_prefix "interface:" (name <> ":" <> " " <> value)
        ≡ (if str_eq name "interface" then some (" " <> value) else none)
    at_interface = strip_prefix-field "interface" name (" " <> value) interface_no_colon h

read_other :
    (info : RouteInfo) (text : String) → Codes no_colon text → read_line info (trim text) ≡ info
unfolding read_line
read_other info text h = rw (no_gateway, no_interface, read_line) refl
  where
    no_gateway : strip_prefix "gateway:" (trim text) ≡ none
    no_gateway = strip_prefix-no_colon "gateway" (trim text) (Codes-trim no_colon text h)

    no_interface : strip_prefix "interface:" (trim text) ≡ none
    no_interface = strip_prefix-no_colon "interface" (trim text) (Codes-trim no_colon text h)

no_break-report_line : (l : ReportLine) → IsProper l → Codes no_break (report_line l)
no_break-report_line (field indent name value) h =
    Codes-append no_break (spaces indent) _ (spaces-Codes indent) (
      Codes-append no_break name _ h.2 (
        Codes-append no_break ":" _ (refl, tt)
          (Codes-append no_break " " value (refl, tt) (no_break-Codes value h.3.0))))
no_break-report_line (other text) h = h.0

lines-report : (ls : List ReportLine) → All IsProper ls → lines (report ls) ≡ map report_line ls
unfolding report lines
lines-report [] h = refl
lines-report (l ∷ ls) h =
    lines-line (report_line l) (report ls) (no_break-report_line l h.0)
    ∙ ap (◌∷◌ (report_line l)) (lines-report ls h.1)

read_lines-report :
    (ls : List ReportLine) (info : RouteInfo)
    → All IsProper ls
    → read_lines info (map report_line ls) ≡ record {
      gateway = last_value "gateway" info.gateway ls;
      interface = last_value "interface" info.interface ls;
    }
unfolding read_lines
read_lines-report [] info h = refl
read_lines-report (field indent name value ∷ ls) info h =
    ap (λ info'. read_lines info' (map report_line ls))
      (ap (read_line info) (trim-field indent name value h.0.0 h.0.3)
        ∙ read_field info name value h.0.1 h.0.3)
    ∙ read_lines-report ls _ h.1
read_lines-report (other text ∷ ls) info h =
    ap (λ info'. read_lines info' (map report_line ls)) (read_other info text h.0.1)
    ∙ read_lines-report ls info h.1

-- What `route -n get` reports in lines `name: value`, with any indentation and among other lines, is
-- read back: the gateway and the interface are the values of the last lines with these names, and
-- absent where there is none.
pub parse_info-report :
    (ls : List ReportLine)
    → All IsProper ls
    → parse_info (report ls) ≡ record {
      gateway = last_value "gateway" none ls;
      interface = last_value "interface" none ls;
    }
unfolding parse_info
parse_info-report ls h =
    ap (read_lines (record { gateway = none; interface = none })) (lines-report ls h)
    ∙ read_lines-report ls (record { gateway = none; interface = none }) h
