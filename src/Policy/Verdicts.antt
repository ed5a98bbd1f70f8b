-- ===== src/Policy/Verdicts.antt =====
-- The alignment checks and the policy check of internal/analyzer/analyzer.go, without their texts: what
-- a check comes to and the points it asks for, in hundredths.
use sender_report.Base.{
  ℕ, Bool, not, ◌&&◌, ◌||◌, Option, none, some, List, [], ◌∷◌, ◌++◌, ltb, leb, if◌then◌else◌,
}
use sender_report.Text.{Bytes, codes, bytes_eq, contains, to_lower, trim_space, atoi}
use sender_report.Score.{CheckResult, Status, passes, warns, fails, informs, Delta, gain, loss}
use sender_report.Policy.Lookup.{extract_tag_value}

abbrev pub verdict : Bytes → Status → Delta → CheckResult
verdict id status delta = record { id = id; status = status; score_delta = delta }

abbrev pub is_pass : Bytes → Bool
is_pass result = bytes_eq result (codes "pass")

unfoldable pub spf_alignment_check : Bytes → Bytes → Bytes → Bool → CheckResult
spf_alignment_check from_domain envelope_domain spf_result aligned =
    let id = codes "spf_alignment" in
    if bytes_eq from_domain [] || bytes_eq envelope_domain []
    then verdict id warns (loss 40)
    else if is_pass spf_result && aligned
    then verdict id passes (gain 20)
    else if is_pass spf_result
    then verdict id warns (loss 40)
    else verdict id warns (loss 50)

unfoldable pub dkim_alignment_check : Bytes → Bool → CheckResult
dkim_alignment_check dkim_result aligned =
    let id = codes "dkim_alignment" in
    if not (is_pass dkim_result)
    then verdict id warns (loss 50)
    else if aligned
    then verdict id passes (gain 20)
    else verdict id warns (loss 40)

unfoldable pub dmarc_alignment_check : Bytes → Bytes → Bytes → Bool → Bool → CheckResult
dmarc_alignment_check from_domain spf_result dkim_result aligned_spf aligned_dkim =
    let id = codes "dmarc_alignment" in
    if bytes_eq from_domain []
    then verdict id warns (loss 50)
    else if (is_pass spf_result && aligned_spf) || (is_pass dkim_result && aligned_dkim)
    then verdict id passes (gain 20)
    else verdict id fails (loss 90)

abbrev pub joined : List Bytes → Bytes
joined [] = []
joined (r ∷ []) = r
joined (r ∷ q ∷ rs) = r ++ (codes " " ++ joined (q ∷ rs))

-- A share that is not a number from 0 to 100 is 100.
abbrev pub share_of : Option ℕ → ℕ
share_of none = 100
share_of (some n) = if leb n 100 then n else 100

unfoldable pub pct_of : Bytes → ℕ
pct_of text =
    let v = extract_tag_value text (codes "pct") in
    if bytes_eq v [] then 100 else share_of (atoi (trim_space v))

unfoldable pub dmarc_policy_check : List Bytes → Bytes → CheckResult
dmarc_policy_check [] policy = verdict (codes "dmarc_policy") informs (gain 0)
dmarc_policy_check (r ∷ rs) policy =
    let id = codes "dmarc_policy" in
    let p = to_lower (trim_space policy) in
    let text = to_lower (joined (r ∷ rs)) in
    let weak =
      ltb (pct_of text) 100 || bytes_eq (extract_tag_value text (codes "sp")) (codes "none") in
    if bytes_eq p (codes "reject")
    then (if weak then verdict id warns (loss 20) else verdict id passes (gain 30))
    else if bytes_eq p (codes "quarantine")
    then (if weak then verdict id warns (loss 20) else verdict id passes (gain 10))
    else if bytes_eq p (codes "none")
    then verdict id warns (loss 30)
    else verdict id warns (loss 20)

-- The qualifier of `all` in a record in lower case.
unfoldable pub spf_all_qualifier : Bytes → Bytes
spf_all_qualifier record_text =
    if contains (codes "-all") record_text
    then codes "-all"
    else if contains (codes "~all") record_text
    then codes "~all"
    else if contains (codes "?all") record_text
    then codes "?all"
    else if contains (codes "+all") record_text
    then codes "+all"
    else []
