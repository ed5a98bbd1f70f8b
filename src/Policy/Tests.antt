-- ===== src/Policy/Tests.antt =====
-- Domains with and without policies.
use sender_report.Base.{◌≡◌, refl, true, false, none, some, [], ◌∷◌, if◌then◌else◌}
use sender_report.Text.{
  Bytes, codes, bytes_eq, split, trim, trim_space, trim_suffix, to_lower, atoi,
}
use sender_report.Dns.{Reply, not_found, other_error, dns_ok, dns_unavailable}
use sender_report.Score.{warns, loss}
use sender_report.Policy.Lookup.{
  Names, lookup_txt, dmarc_records_at, lookup_dmarc_record, norm_domain, registrable_domain,
  relaxed_aligned, extract_tag_value,
}
use sender_report.Policy.Absent.{HasReason, lookup_dmarc_record-HasReason}
use sender_report.Policy.Verdicts.{verdict, dmarc_policy_check, pct_of}
use sender_report.Policy.MailType.{bulk, detect_mail_type, is_consumer_webmail, is_ip_literal_helo}

-- Only example.test publishes a policy; a.test does not answer.
abbrev txt : Bytes → Reply Bytes
txt name =
    if bytes_eq name (codes "_dmarc.example.test")
    then record { recs = codes " v=DMARC1; p=none; sp=reject" ∷ []; err = none }
    else if bytes_eq name (codes "_dmarc.a.test")
    then record { recs = []; err = some other_error }
    else record { recs = []; err = some not_found }

abbrev names : Names
names = record {
  ascii_domain = λ d. some d;
  lookup_txt_raw = txt;
  registered = λ d. some (codes "example.test");
}

via_org : lookup_dmarc_record names (codes "Mail.example.test.") ≡ record {
  records = codes "v=DMARC1; p=none; sp=reject" ∷ [];
  policy = codes "reject";
  domain = codes "example.test";
  via_org = true;
  status = dns_ok;
}
unfolding lookup_dmarc_record dmarc_records_at lookup_txt norm_domain registrable_domain
    extract_tag_value split trim_space trim trim_suffix to_lower
via_org = refl

unanswered : (lookup_dmarc_record names (codes "a.test")).status ≡ dns_unavailable
unfolding lookup_dmarc_record dmarc_records_at lookup_txt norm_domain registrable_domain
    extract_tag_value split trim_space trim trim_suffix to_lower
unanswered = refl

lookup_dmarc_record-HasReason_example :
    HasReason names
      (norm_domain (codes "Mail.example.test."))
      (lookup_dmarc_record names (codes "Mail.example.test."))
      (lookup_dmarc_record names (codes "Mail.example.test.")).status
lookup_dmarc_record-HasReason_example =
    lookup_dmarc_record-HasReason names (codes "Mail.example.test.")

siblings : relaxed_aligned names (codes "bounce.example.test") (codes "mail.example.test") ≡ true
unfolding relaxed_aligned norm_domain registrable_domain trim_space trim trim_suffix to_lower
siblings = refl

partial_reject :
    dmarc_policy_check (codes "v=DMARC1; p=reject; pct=10" ∷ []) (codes "reject")
    ≡ verdict (codes "dmarc_policy") warns (loss 20)
unfolding dmarc_policy_check pct_of extract_tag_value split trim_space trim to_lower atoi
partial_reject = refl

-- A name of three labels is never found among the webmail names.
yahoo_uk : is_consumer_webmail (codes "a@yahoo.co.uk") ≡ false
unfolding is_consumer_webmail split
yahoo_uk = refl

gmail : is_consumer_webmail (codes "A <a@mail.gmail.com>") ≡ true
unfolding is_consumer_webmail split
gmail = refl

listed : detect_mail_type (λ h. if bytes_eq h (codes "List-ID") then codes "x" else []) ≡ bulk
unfolding detect_mail_type trim_space trim to_lower
listed = refl

in_brackets : is_ip_literal_helo (λ s. bytes_eq s (codes "::1")) (codes "[IPv6:::1]") ≡ true
unfolding is_ip_literal_helo trim_space trim trim_suffix
in_brackets = refl
