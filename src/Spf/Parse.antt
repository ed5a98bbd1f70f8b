-- ===== src/Spf/Parse.antt =====
-- The text of an SPF record: its tokens and mechanisms, and the names of domains.
use sender_report.Base.{
  ℕ, Bool, false, ◌||◌, [], ◌∷◌, ◌++◌, Option, none, some, ◌==◌, if◌then◌else◌,
}
use sender_report.Text.{
  Bytes, codes, bytes_eq, has_prefix, has_suffix, contains, cut, to_lower, trim, trim_space,
  trim_suffix, atoi,
}

pub data SpfResult : Type 0 where
  pass fail softfail neutral no_result permerror temperror : SpfResult

abbrev pub is_empty_text : Bytes → Bool
is_empty_text s = bytes_eq s []

abbrev pub empty_fallback : Bytes → Bytes → Bytes
empty_fallback v fallback = if is_empty_text (trim_space v) then fallback else v

unfoldable pub qualifier_to_result : ℕ → SpfResult
qualifier_to_result q =
    if q == b'+' then pass else if q == b'-' then fail else if q == b'~' then softfail else neutral

-- `strings.ContainsRune("+-~?", rune(c))`
abbrev pub is_qualifier : ℕ → Bool
is_qualifier c = c == b'+' || c == b'-' || c == b'~' || c == b'?'

abbrev pub parse_cidr_bits : Bytes → Option ℕ
parse_cidr_bits v = atoi (trim_space v)

pub record Mechanism : Type 0 where
  pub name : Bytes
  pub value : Bytes
  pub cidr : Option ℕ

-- What `:` parts, in lower case before it.
abbrev split_value : Bytes → Bytes × Bytes
split_value raw = elim (cut (codes ":") raw) [
  | none ↦ (to_lower raw, [])
  | some (a, b) ↦ (to_lower (trim_space a), trim_space b)
]

-- A length behind the name, then one behind the value, which counts if both are there.
abbrev name_cidr : Bytes → Bytes × Option ℕ
name_cidr name = elim (cut (codes "/") name) [
  | none ↦ (name, none)
  | some (a, b) ↦ (trim_space a, parse_cidr_bits b)
]

abbrev value_cidr : Bytes → Option ℕ → Bytes × Option ℕ
value_cidr value cidr = elim (cut (codes "/") value) [
  | none ↦ (value, cidr)
  | some (a, b) ↦ (a, parse_cidr_bits (trim_space b))
]

unfoldable pub parse_spf_mechanism : Bytes → Mechanism
parse_spf_mechanism mech =
    let (raw_name, raw_value) = split_value (trim_space mech) in
    let (name, first) = name_cidr raw_name in
    let (value, last) = value_cidr raw_value first in
    record { name = name; value = value; cidr = last }

abbrev after_qualifier : Bytes → Bytes
after_qualifier [] = []
after_qualifier (c ∷ s) = if is_qualifier c then s else c ∷ s

unfoldable pub name_or_token : Bytes → Bytes
name_or_token token =
    let t = after_qualifier (trim_space token) in
    elim (cut (codes ":") t) [ none ↦ to_lower t | some (a, b) ↦ to_lower (trim_space a) ]

-- The text behind the last `@`, if there is one and text behind it.
abbrev pub after_last_at : Bytes → Option Bytes
after_last_at [] = none
after_last_at (c ∷ s) = elim (after_last_at s) [
  | some d ↦ some d
  | none ↦ if c == b'@' then some s else none
]

-- `strings.Trim(v, "<>")`
abbrev is_angle : ℕ → Bool
is_angle c = c == b'<' || c == b'>'

unfoldable pub extract_domain : Bytes → Bytes
extract_domain v = elim (after_last_at (trim_space (trim is_angle v))) [
  | none ↦ []
  | some d ↦ to_lower (trim_space d)
]

-- One token of a record, as the loop of `checkSPFDomain` treats it.
pub data Token : Type 0 where
  skip : Token
  redirect_to : Bytes → Token
  mechanism : ℕ → Bytes → Token

abbrev behind_equals : Bytes → Bytes
behind_equals tok = elim (cut (codes "=") tok) [ none ↦ [] | some (a, b) ↦ trim_space b ]

abbrev qualified : Bytes → Token
qualified [] = skip
qualified (c ∷ s) = if is_qualifier c then mechanism c s else mechanism b'+' (c ∷ s)

unfoldable pub read_token : Bytes → Token
read_token raw =
    let tok = trim_space raw in
    if has_prefix (codes "redirect=") (to_lower tok)
    then redirect_to (behind_equals tok)
    else if has_prefix (codes "exp=") (to_lower tok)
    then skip
    else if contains (codes "=") tok
    then skip
    else qualified tok

unfoldable pub ptr_name_under_domain : Bytes → Bytes → Bool
ptr_name_under_domain host domain =
    let h = trim_suffix (codes ".") (to_lower (trim_space host)) in
    let d = trim_suffix (codes ".") (to_lower (trim_space domain)) in
    if is_empty_text h || is_empty_text d
    then false
    else bytes_eq h d || has_suffix (codes "." ++ d) h
