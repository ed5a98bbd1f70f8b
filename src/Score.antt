-- ===== src/Score.antt =====
-- The scoring of internal/analyzer/analyzer.go: checkImportance, scoreFor, the part of
-- enrichCheckResult that settles a check's share, clampScore, essentialsAllPass, ComputeScore and
-- assignLabel. Points are hundredths, added exactly where the code adds floating-point numbers.
use sender_report.Base.{
  ℕ, ◌+◌, ◌-◌, ◌*◌, ◌/◌, Bool, true, false, not, ◌&&◌, ◌||◌, List, [], ◌∷◌, leb, ltb, if◌then◌else◌,
}
use Prim.Native.String.{String}
use sender_report.Text.{Bytes, codes, bytes_eq}
pub mod Bounds
mod Tests

pub data Status : Type 0 where
  passes warns fails informs not_applicable : Status

pub data Importance : Type 0 where
  critical important recommended optional : Importance

-- Points that a check adds or takes.
pub data Delta : Type 0 where
  gain loss : ℕ → Delta

pub record CheckResult : Type 0 where
  pub id : Bytes
  pub status : Status
  pub score_delta : Delta

abbrev is_one_of : Bytes → List String → Bool
is_one_of s [] = false
is_one_of s (t ∷ ts) = bytes_eq s (codes t) || is_one_of s ts

unfoldable pub check_importance : Bytes → Importance
check_importance id =
    if is_one_of id (
      "spf" ∷ "dkim" ∷ "dmarc" ∷ "ptr" ∷ "rbl" ∷ "domain_blocklist" ∷ "link_blocklist"
      ∷ "link_domain_mismatch" ∷ [])
    then critical
    else if is_one_of id (
        "spf_strictness" ∷ "dkim_keylength" ∷ "dmarc_policy" ∷ "spf_alignment" ∷ "dkim_alignment"
        ∷ "dmarc_alignment" ∷ "from_alignment" ∷ "helo" ∷ "mx_records" ∷ "tls_transport"
        ∷ "spamassassin" ∷ "rspamd" ∷ "display_name" ∷ "list_unsub" ∷ "mime_parse" ∷ "mime_ct"
        ∷ "mime_boundary" ∷ "message_id" ∷ "received_chain" ∷ "one_click_unsub" ∷ "harmful_html"
        ∷ [])
    then important
    else if is_one_of id (
        "mta_sts" ∷ "tls_rpt" ∷ "bimi" ∷ "dnssec" ∷ "dane_tlsa" ∷ "arc" ∷ "preheader"
        ∷ "x_google_dkim" ∷ [])
    then optional
    else recommended

unfoldable pub score_for : Importance → Status → Delta
score_for critical fails = loss 260
score_for important fails = loss 130
score_for recommended fails = loss 50
score_for optional fails = loss 0
score_for critical warns = loss 130
score_for important warns = loss 60
score_for recommended warns = loss 25
score_for optional warns = loss 0
score_for i s = loss 0

-- The checks that settle their share themselves.
abbrev keeps_delta : Bytes → Bool
keeps_delta id =
    is_one_of id ("domain_age" ∷ "rbl" ∷ "spamassassin" ∷ "rspamd" ∷ "spf_strictness" ∷ [])

abbrev is_na : Status → Bool
is_na not_applicable = true
is_na s = false

-- `pending` says that the check is a recheck that confirmed a record only.
unfoldable pub enrich_delta : Bool → CheckResult → CheckResult
enrich_delta pending c =
    if is_na c.status
    then record c { score_delta = loss 0 }
    else if pending || keeps_delta c.id
    then c
    else record c { score_delta = score_for (check_importance c.id) c.status }

abbrev pub gain_of : Delta → ℕ
gain_of (gain n) = n
gain_of (loss n) = 0

abbrev pub loss_of : Delta → ℕ
loss_of (gain n) = 0
loss_of (loss n) = n

abbrev pub gains : List CheckResult → ℕ
gains [] = 0
gains (c ∷ cs) = gain_of c.score_delta + gains cs

abbrev pub losses : List CheckResult → ℕ
losses [] = 0
losses (c ∷ cs) = loss_of c.score_delta + losses cs

-- `clampScore` of a sum; a sum below nothing is 0.
unfoldable pub clamp_score : ℕ → ℕ
clamp_score s = if ltb 1000 s then 1000 else (s + 5) / 10 * 10

abbrev pub is_clean : Status → Bool
is_clean passes = true
is_clean s = false

abbrev pub is_essential : Bytes → Bool
is_essential id = is_one_of id ("spf" ∷ "dkim" ∷ "dmarc" ∷ "ptr" ∷ [])

unfoldable pub essentials_all_pass : List CheckResult → Bool
essentials_all_pass [] = true
essentials_all_pass (c ∷ cs) =
    let rest = essentials_all_pass cs in
    if is_essential c.id && not (is_clean c.status) then false else rest

abbrev pub essential_perfect_cap : ℕ
essential_perfect_cap = 950

pub data Label : Type 0 where
  excellent good needs_work high_risk : Label

unfoldable pub assign_label : ℕ → Label
assign_label s =
    if leb 900 s
    then excellent
    else if leb 750 s
    then good
    else if leb 550 s
    then needs_work
    else high_risk

abbrev pub capped : List CheckResult → ℕ → ℕ
capped checks s =
    if ltb essential_perfect_cap s && not (essentials_all_pass checks)
    then essential_perfect_cap
    else s

unfoldable pub score : List CheckResult → ℕ
score checks = capped checks (clamp_score (1000 + gains checks - losses checks))

unfoldable pub compute_score : List CheckResult → ℕ × Label
compute_score checks = (score checks, assign_label (score checks))
