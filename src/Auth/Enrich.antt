-- ===== src/Auth/Enrich.antt =====
-- `evaluateAuthResults`, `enrichWithReceiverAuthHeaders`, `reverifyReceiverAuth` and `fromDomain`:
-- the three checks together, and the message with their results. The libraries that parse a
-- message and verify signatures, the resolvers and the clock are parameters.
use sender_report.Base.{◌||◌, List, [], Option, none, some, if◌then◌else◌}
use sender_report.Text.{Bytes, trim_space}
use sender_report.Dns.{Dns}
use sender_report.Smtp.Session.{ReceivedMail}
use sender_report.Spf.Parse.{is_empty_text, empty_fallback, extract_domain}
use sender_report.Spf.Check.{evaluate_spf}
use sender_report.Auth.Dmarc.{DmarcLibrary, evaluate_dmarc}
use sender_report.Auth.Dkim.{DkimLibrary, Verification, evaluate_dkim}
use sender_report.Auth.Headers.{AuthResults, default_host, receiver_headers, prepend_headers}
use sender_report.Auth.Strip.{strip_receiver_headers}

-- `from_header` is the From field of a message that can be read, and empty if it has none;
-- `parse_address` the address in it, if it is one.
pub record Libraries : Type 1 where
  pub dns : Dns
  pub parse_ip : Bytes → Bytes
  pub dkim : DkimLibrary
  pub verifications : Bytes → List (Option (Verification dkim))
  pub verify_error : Bytes → Option dkim.Err
  pub dmarc : DmarcLibrary
  pub from_header : Bytes → Option Bytes
  pub parse_address : Bytes → Option Bytes

module _ (lib : Libraries) where
  abbrev pub domain_of_from : Bytes → Bytes
  domain_of_from from =
      if is_empty_text from
      then []
      else elim (lib.parse_address from) [ none ↦ extract_domain from | some a ↦ extract_domain a ]

  unfoldable pub from_domain : Bytes → Bytes
  from_domain raw = elim (lib.from_header raw) [
    | none ↦ []
    | some f ↦ domain_of_from (trim_space f)
  ]

  unfoldable pub evaluate_auth_results : ReceivedMail → Bytes → AuthResults
  evaluate_auth_results rm raw =
      let spf =
        evaluate_spf lib.dns lib.parse_ip (lib.parse_ip (trim_space rm.remote_ip)) rm.helo
          rm.mail_from in
      let dkim = evaluate_dkim lib.dkim (lib.verifications raw) (lib.verify_error raw) in
      let from = from_domain raw in
      let dmarc = evaluate_dmarc lib.dmarc from spf.result spf.domain dkim.result dkim.domain in
      record {
        spf_result = spf.result;
        spf_domain = spf.domain;
        spf_detail = spf.detail;
        dkim_result = dkim.result;
        dkim_domain = dkim.domain;
        dkim_detail = dkim.detail;
        dmarc_result = dmarc.result;
        from_domain = from;
        dmarc_detail = dmarc.detail;
      }

  unfoldable pub enrich_with_receiver_auth_headers : Bytes → Bytes → ReceivedMail → Bytes → Bytes
  enrich_with_receiver_auth_headers now smtp_domain rm raw =
      prepend_headers raw (receiver_headers now smtp_domain rm (evaluate_auth_results rm raw))

  unfoldable pub reverify_receiver_auth : Bytes → Bytes → ReceivedMail → Bytes → Bytes
  reverify_receiver_auth now smtp_domain rm raw =
      let host = empty_fallback (trim_space smtp_domain) default_host in
      let (clean, tls) = strip_receiver_headers raw host in
      enrich_with_receiver_auth_headers now smtp_domain
        (record rm { tls = rm.tls || tls; body = clean }) clean
