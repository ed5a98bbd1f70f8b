-- ===== src/Spf/Check.antt =====
-- `checkSPFDomain`, `lookupSPFRecord` and `evaluateSPF`. The levels that are left stand for the
-- depth: 11 at depth 0, and none at the depth 11 that the code refuses.
use sender_report.Base.{
  ℕ, zero, suc, ◌+◌, Bool, false, not, ◌||◌, List, [], ◌∷◌, ◌++◌, none, some, ltb, filter,
  if◌then◌else◌,
}
use sender_report.Text.{Bytes, codes, bytes_eq, has_prefix, to_lower, trim_space, fields}
use sender_report.Dns.{Dns, not_found, other_error}
use sender_report.Spf.Parse.{
  SpfResult, neutral, no_result, permerror, temperror, is_empty_text, empty_fallback,
  qualifier_to_result, name_or_token, extract_domain, Token, skip, redirect_to, mechanism,
  read_token,
}
use sender_report.Spf.Mechanism.{
  Match, matched, unmatched, broken, Evaluation, Verdict, spf_lookup_budget, match_spf_mechanism,
}

-- A record, or the status that `lookupSPFRecord` gives instead.
pub data SpfRecord : Type 0 where
  record_text : Bytes → SpfRecord
  status : SpfResult → SpfRecord

-- The records that begin with the version, trimmed.
abbrev pub spf_texts : List Bytes → List Bytes
spf_texts [] = []
spf_texts (r ∷ rs) =
    let rest = spf_texts rs in
    let t = trim_space r in if has_prefix (codes "v=spf1") (to_lower t) then t ∷ rest else rest

abbrev pick_record : List Bytes → SpfRecord
pick_record [] = status no_result
pick_record (r ∷ []) = record_text r
pick_record (r ∷ s ∷ rs) = status permerror

unfoldable pub lookup_spf_record : Dns → Bytes → SpfRecord
lookup_spf_record dns domain =
    let reply = dns.lookup_txt domain in
    elim reply.err [
      | none ↦ pick_record (spf_texts reply.recs)
      | some not_found ↦ status no_result
      | some other_error ↦ status temperror
    ]

abbrev pub is_member : Bytes → List Bytes → Bool
is_member d [] = false
is_member d (x ∷ xs) = bytes_eq d x || is_member d xs

abbrev pub enter : Bytes → Evaluation → Evaluation
enter d ev = record ev { seen = d ∷ ev.seen }

-- The deferred `delete(seen, domain)`.
abbrev pub leave : Bytes → Verdict → Verdict
leave d v = record v {
  after = record (v.after) { seen = filter (λ x. not (bytes_eq d x)) v.after.seen };
}

abbrev pub verdict : SpfResult → Bytes → Evaluation → Verdict
verdict r m ev = record { result = r; mechanism = m; after = ev }

abbrev pub redirected : Verdict → Verdict
redirected v = record v {
  mechanism =
      codes "redirect->" ++ (if is_empty_text v.mechanism then codes "redirect" else v.mechanism);
}

-- What a mechanism's result means; `rest` goes on with the tokens behind it.
abbrev pub settle : (Evaluation → Verdict) → ℕ → Bytes → Match × Evaluation → Verdict
settle rest q tok (matched, ev) = verdict (qualifier_to_result q) (name_or_token tok) ev
settle rest q tok (broken r, ev) = verdict r (name_or_token tok) ev
settle rest q tok (unmatched, ev) = rest ev

module _ (dns : Dns) (parse_ip : Bytes → Bytes) (remote : Bytes) where
  module _ (check : Bytes → Evaluation → Verdict) where
    -- Behind the last token: the redirect, which is counted as a lookup, or the default.
    unfoldable pub finish : Bytes → Evaluation → Verdict
    finish redirect ev =
        let counted = record ev { lookups = ev.lookups + 1 } in
        if is_empty_text redirect
        then verdict neutral (codes "default-neutral") ev
        else if ltb spf_lookup_budget counted.lookups
        then verdict permerror (codes "lookup-limit") counted
        else redirected (check redirect counted)

    abbrev pub on_token :
        (Bytes → Evaluation → Verdict) → Bytes → Bytes → Evaluation → Token → Verdict
    on_token rest domain redirect ev skip = rest redirect ev
    on_token rest domain redirect ev (redirect_to d) = rest d ev
    on_token rest domain redirect ev (mechanism q tok) =
        settle (rest redirect) q tok (match_spf_mechanism dns parse_ip remote check domain tok ev)

    -- The loop over the tokens behind the version.
    unfoldable pub scan_tokens : Bytes → List Bytes → Bytes → Evaluation → Verdict
    scan_tokens domain [] redirect ev = finish redirect ev
    scan_tokens domain (t ∷ ts) redirect ev =
        on_token (scan_tokens domain ts) domain redirect ev (read_token t)

    -- The first token is the version.
    abbrev pub on_tokens : Bytes → Evaluation → List Bytes → Verdict
    on_tokens domain ev [] = verdict no_result (codes "empty-record") ev
    on_tokens domain ev (t ∷ ts) = scan_tokens domain ts [] ev

    abbrev pub on_record : Bytes → Evaluation → SpfRecord → Verdict
    on_record domain ev (status permerror) = verdict permerror (codes "multiple-records") ev
    on_record domain ev (status temperror) = verdict temperror (codes "dns-temporary-error") ev
    on_record domain ev (status other) = verdict no_result (codes "no-record") ev
    on_record domain ev (record_text r) = on_tokens domain ev (fields r)

    unfoldable pub check_domain : Bytes → Evaluation → Verdict
    check_domain raw ev =
        let domain = to_lower (trim_space raw) in
        if is_empty_text domain
        then verdict no_result (codes "empty-domain") ev
        else if is_member domain ev.seen
        then verdict permerror (codes "loop-detected") ev
        else leave domain (on_record domain (enter domain ev) (lookup_spf_record dns domain))

  unfoldable pub check_spf_domain : ℕ → Bytes → Evaluation → Verdict
  check_spf_domain zero domain ev = verdict permerror (codes "depth-limit") ev
  check_spf_domain (suc levels) domain ev = check_domain (check_spf_domain levels) domain ev

abbrev pub start : Evaluation
start = record { seen = []; lookups = 0 }

pub record SpfOutcome : Type 0 where
  pub result : SpfResult
  pub domain : Bytes
  pub detail : Bytes

abbrev pub sender_domain : Bytes → Bytes → Bytes
sender_domain helo envelope_from =
    let d = extract_domain envelope_from in
    if is_empty_text d then to_lower (trim_space helo) else d

unfoldable pub evaluate_spf : Dns → (Bytes → Bytes) → Bytes → Bytes → Bytes → SpfOutcome
evaluate_spf dns parse_ip remote helo envelope_from =
    let d = sender_domain helo envelope_from in
    let v = check_spf_domain dns parse_ip remote 11 d start in
    if is_empty_text d || bytes_eq remote []
    then record {
      result = no_result;
      domain = d;
      detail = codes "missing sender domain or remote ip";
    }
    else record {
      result = v.result;
      domain = d;
      detail =
          codes "domain="
          ++ (d ++ (codes " mechanism=" ++ empty_fallback v.mechanism (codes "none")));
    }
