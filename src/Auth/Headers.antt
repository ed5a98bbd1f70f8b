-- ===== src/Auth/Headers.antt =====
-- The header lines that the receiver writes: `safeAuthValue`, the builders of
-- `Authentication-Results`, `Received` and `Received-SPF`, `prependHeaders` and
-- `enrichWithReceiverAuthHeaders`. The time of receipt is a parameter, as text.
use sender_report.Base.{ℕ, not, ◌&&◌, List, [], ◌∷◌, ◌++◌, none, some, ◌==◌, filter, if◌then◌else◌}
use sender_report.Text.{Bytes, codes, cut, trim_space}
use sender_report.Spf.Parse.{
  SpfResult, pass, fail, softfail, neutral, no_result, permerror, temperror, is_empty_text,
  empty_fallback,
}
use sender_report.Smtp.Session.{ReceivedMail}
use sender_report.Auth.Dkim.{join}

-- `strings.ReplaceAll` of one byte by nothing.
abbrev pub without : ℕ → Bytes → Bytes
without c s = filter (λ x. not (x == c)) s

unfoldable pub safe_auth_value : Bytes → Bytes
safe_auth_value v =
    let t = trim_space v in
    if is_empty_text t then codes "unknown" else without 10 (without 13 (without b';' t))

abbrev pub result_text : SpfResult → Bytes
result_text pass = codes "pass"
result_text fail = codes "fail"
result_text softfail = codes "softfail"
result_text neutral = codes "neutral"
result_text no_result = codes "none"
result_text permerror = codes "permerror"
result_text temperror = codes "temperror"

pub record AuthResults : Type 0 where
  pub spf_result : SpfResult
  pub spf_domain : Bytes
  pub spf_detail : Bytes
  pub dkim_result : SpfResult
  pub dkim_domain : Bytes
  pub dkim_detail : Bytes
  pub dmarc_result : SpfResult
  pub from_domain : Bytes
  pub dmarc_detail : Bytes

-- The parts of a format in order, put together.
unfoldable pub sprint : List Bytes → Bytes
sprint [] = []
sprint (p ∷ ps) = p ++ sprint ps

abbrev pub default_host : Bytes
default_host = codes "sender-report.local"

abbrev pub or_default : Bytes → Bytes
or_default host = if is_empty_text (trim_space host) then default_host else host

abbrev pub safe_or : Bytes → Bytes → Bytes
safe_or fallback v = safe_auth_value (empty_fallback v fallback)

unfoldable pub build_authentication_results_header : Bytes → AuthResults → Bytes
build_authentication_results_header auth_serv_id res = sprint (
    codes "Authentication-Results: "
    ∷ or_default auth_serv_id
    ∷ codes "; spf="
    ∷ safe_auth_value (result_text (res.spf_result))
    ∷ codes " smtp.mailfrom="
    ∷ safe_or (codes "unknown") (res.spf_domain)
    ∷ codes "; dkim="
    ∷ safe_auth_value (result_text (res.dkim_result))
    ∷ codes " header.d="
    ∷ safe_or (codes "unknown") (res.dkim_domain)
    ∷ codes "; dmarc="
    ∷ safe_auth_value (result_text (res.dmarc_result))
    ∷ codes " header.from="
    ∷ safe_or (codes "unknown") (res.from_domain)
    ∷ [])

abbrev pub crlf_tab : Bytes
crlf_tab = 13 ∷ 10 ∷ 9 ∷ []

abbrev pub for_clause : Bytes → Bytes
for_clause rcpt =
    let r = trim_space rcpt in
    if is_empty_text r
    then []
    else sprint (crlf_tab ∷ codes "for <" ∷ safe_auth_value r ∷ codes ">" ∷ [])

unfoldable pub build_received_header : Bytes → Bytes → ReceivedMail → Bytes
build_received_header now receiver rm = sprint (
    codes "Received: from "
    ∷ safe_or (codes "unknown") (rm.helo)
    ∷ codes " (["
    ∷ safe_or (codes "unknown") (rm.remote_ip)
    ∷ codes "])"
    ∷ crlf_tab
    ∷ codes "by "
    ∷ safe_auth_value (or_default receiver)
    ∷ codes " with "
    ∷ (if rm.tls then codes "ESMTPS" else codes "ESMTP")
    ∷ codes ";"
    ∷ for_clause (rm.rcpt_to)
    ∷ crlf_tab
    ∷ now
    ∷ [])

unfoldable pub build_received_spf_header : Bytes → ReceivedMail → SpfResult → Bytes
build_received_spf_header receiver rm spf_result = sprint (
    codes "Received-SPF: "
    ∷ safe_auth_value (result_text spf_result)
    ∷ codes " client-ip="
    ∷ safe_auth_value (rm.remote_ip)
    ∷ codes "; envelope-from="
    ∷ safe_or (codes "<>") (rm.mail_from)
    ∷ codes "; helo="
    ∷ safe_or (codes "unknown") (rm.helo)
    ∷ codes "; receiver="
    ∷ safe_or default_host receiver
    ∷ [])

abbrev pub detail_header : Bytes → Bytes → Bytes
detail_header name detail = name ++ safe_or (codes "none") detail

unfoldable pub receiver_headers : Bytes → Bytes → ReceivedMail → AuthResults → List Bytes
receiver_headers now smtp_domain rm res =
    build_received_header now smtp_domain rm
    ∷ build_authentication_results_header smtp_domain res
    ∷ build_received_spf_header smtp_domain rm (res.spf_result)
    ∷ detail_header (codes "X-Sender-Report-SPF-Detail: ") (res.spf_detail)
    ∷ detail_header (codes "X-Sender-Report-DKIM-Detail: ") (res.dkim_detail)
    ∷ detail_header (codes "X-Sender-Report-DMARC-Detail: ") (res.dmarc_detail)
    ∷ []

-- `strings.ReplaceAll` of CR LF by LF, and back.
unfoldable pub from_crlf : Bytes → Bytes
from_crlf [] = []
from_crlf (c ∷ []) = c ∷ []
from_crlf (c ∷ d ∷ s) =
    let joined = from_crlf s in
    let kept = from_crlf (d ∷ s) in if c == 13 && d == 10 then 10 ∷ joined else c ∷ kept

unfoldable pub to_crlf : Bytes → Bytes
to_crlf [] = []
to_crlf (c ∷ s) = let rest = to_crlf s in if c == 10 then 13 ∷ 10 ∷ rest else c ∷ rest

abbrev pub blank_line : Bytes
blank_line = 10 ∷ 10 ∷ []

-- The two parts of `strings.SplitN(norm, "\n\n", 2)`.
abbrev pub split_message : Bytes → Bytes × Bytes
split_message norm = elim (cut blank_line norm) [ none ↦ (norm, []) | some (h, b) ↦ (h, b) ]

unfoldable pub trimmed_lines : List Bytes → List Bytes
trimmed_lines [] = []
trimmed_lines (h ∷ hs) =
    let rest = trimmed_lines hs in
    let t = trim_space (from_crlf h) in if is_empty_text t then rest else t ∷ rest

unfoldable pub prepend_headers : Bytes → List Bytes → Bytes
prepend_headers raw extra =
    let (head, body) = split_message (from_crlf raw) in
    let own = if is_empty_text (trim_space head) then [] else head ∷ [] in
    to_crlf (join (10 ∷ []) (trimmed_lines extra ++ own) ++ (blank_line ++ body))
