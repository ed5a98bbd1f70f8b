-- ===== src/Auth/Tests.antt =====
-- The results and headers of concrete mails.
use sender_report.Base.{
  ◌≡◌, ◌≢◌, refl, ◌↔◌, inl, inr, Bool, true, false, List, [], drop, ◌∷◌, ◌++◌, none, some, All,
  filter, not, if◌then◌else◌,
}
use sender_report.Text.{Bytes, codes, bytes_eq, trim, trim_space, to_lower, fields, split}
use sender_report.Spf.Parse.{pass, fail, no_result}
use sender_report.Smtp.Session.{ReceivedMail}
use sender_report.Auth.Dmarc.{DmarcLibrary, domain_aligned, evaluate_dmarc}
use sender_report.Auth.Alignment.{IsSupported, evaluate_dmarc-pass_iff}
use sender_report.Auth.Dkim.{DkimLibrary, Verification, evaluate_dkim, find_entry, chunks, join}
use sender_report.Auth.Signatures.{IsBest, evaluate_dkim-IsBest}
use sender_report.Auth.Headers.{
  AuthResults, receiver_headers, prepend_headers, safe_auth_value, from_crlf, to_crlf,
  trimmed_lines, sprint, build_authentication_results_header,
}
use sender_report.Auth.Injection.{IsField, receiver_headers-IsField}
use sender_report.Auth.Strip.{strip_blocks, strip_receiver_headers, field_kind, blocks}
use sender_report.Auth.Kinds.{drop_first, first_says}
use sender_report.Auth.Kept.{is_result, is_own_received, is_encrypted_by, strip_blocks-kept}

-- A policy with relaxed alignment for example.org, and none for any other domain.
abbrev dmarc : DmarcLibrary
dmarc = record {
  Rec = Unit;
  Err = Bool;
  lookup = λ d. if bytes_eq d (codes "example.org") then inl tt else inr true;
  policy = λ r. codes "reject";
  spf_alignment = λ r. codes "r";
  dkim_alignment = λ r. codes "s";
  alignment_strict = codes "s";
  is_no_policy = λ e. e;
  is_temp_fail = λ e. false;
  message = λ e. codes "error";
}

relaxed_spf :
    (evaluate_dmarc dmarc (codes "example.org") pass (codes "Mail.Example.org") fail []).result
    ≡ pass
unfolding evaluate_dmarc domain_aligned trim_space trim to_lower
relaxed_spf = refl

strict_dkim :
    (evaluate_dmarc dmarc (codes "example.org") fail [] pass (codes "mail.example.org")).result
    ≡ fail
unfolding evaluate_dmarc domain_aligned trim_space trim to_lower
strict_dkim = refl

evaluate_dmarc-pass_iff_example :
    ((evaluate_dmarc dmarc (codes "example.org") pass (codes "mail.example.org") fail []).result
      ≡ pass)
    ↔ ((trim_space (codes "example.org") ≢ [])
        × (rec : Unit) × (dmarc.lookup (codes "example.org") ≡ inl rec)
        × IsSupported dmarc rec (codes "example.org") pass (codes "mail.example.org") fail [])
evaluate_dmarc-pass_iff_example =
    evaluate_dmarc-pass_iff dmarc (codes "example.org") pass (codes "mail.example.org") fail []

-- Errors are temporary if they are `true`.
abbrev dkim : DkimLibrary
dkim = record {
  Err = Bool;
  is_temp_fail = λ e. e;
  is_perm_fail = λ e. not e;
  message = λ e. codes "error";
}

abbrev temporary : Verification dkim
temporary = record { domain = codes "a.test"; err = some true }

abbrev good : Verification dkim
good = record { domain = codes "B.test"; err = none }

second_passes :
    evaluate_dkim dkim (some temporary ∷ none ∷ some good ∷ []) none
    ≡ record { result = pass; domain = codes "b.test"; detail = codes "a.test=error, B.test=pass" }
unfolding evaluate_dkim find_entry chunks join trim_space trim to_lower
second_passes = refl

evaluate_dkim-IsBest_example :
    IsBest dkim
      (evaluate_dkim dkim (some temporary ∷ none ∷ some good ∷ []) none)
      (some temporary ∷ none ∷ some good ∷ [])
evaluate_dkim-IsBest_example =
    evaluate_dkim-IsBest dkim (some temporary) (none ∷ some good ∷ []) none

-- A HELO name that tries to start a field of its own.
abbrev mail : ReceivedMail
mail = record {
  remote_ip = codes "192.0.2.1";
  helo = codes "evil" ++ (13 ∷ 10 ∷ codes "X-Forged: yes; spf=pass");
  mail_from = codes "a@example.org";
  rcpt_to = codes "b@host.test";
  body = [];
  tls = true;
}

abbrev results : AuthResults
results = record {
  spf_result = pass;
  spf_domain = codes "example.org; dmarc=pass";
  spf_detail = [];
  dkim_result = no_result;
  dkim_domain = [];
  dkim_detail = [];
  dmarc_result = fail;
  from_domain = codes "example.org";
  dmarc_detail = [];
}

results_header :
    build_authentication_results_header (codes "host.test") results
    ≡ codes
        "Authentication-Results: host.test; spf=pass smtp.mailfrom=example.org dmarc=pass; dkim=none header.d=unknown; dmarc=fail header.from=example.org"
unfolding build_authentication_results_header sprint safe_auth_value trim_space trim
results_header = refl

receiver_headers-IsField_example :
    All IsField (receiver_headers (codes "now") (codes "host.test") mail results)
receiver_headers-IsField_example =
    receiver_headers-IsField (codes "now") (codes "host.test") mail results refl refl

abbrev old_fields : List Bytes
old_fields =
    codes "Received: from a ([1]) by host.test with ESMTPS; x"
    ∷ codes "Authentication-Results: host.test; spf=pass"
    ∷ codes "Authentication-Results: other.test; spf=pass"
    ∷ codes "Received: from b by host.test with SMTP; y"
    ∷ codes "Subject: Hi"
    ∷ []

restored :
    strip_blocks (codes "host.test") false false old_fields
    ≡ record { kept = drop 2 old_fields; tls = true }
unfolding strip_blocks field_kind join fields trim_space trim to_lower
restored = refl

strip_blocks-kept_example :
    ((strip_blocks (codes "host.test") false false old_fields).kept
      ≡ filter
          (λ b. not (is_result (codes "host.test") b))
          (drop_first (is_own_received (codes "host.test")) old_fields))
    × ((strip_blocks (codes "host.test") false false old_fields).tls
        ≡ first_says (is_own_received (codes "host.test")) is_encrypted_by old_fields)
strip_blocks-kept_example = strip_blocks-kept (codes "host.test") old_fields

taken_out :
    strip_receiver_headers
      (codes "X-Sender-Report-A: 1"
        ++ (13 ∷ 10 ∷ codes " more"
            ++ (13 ∷ 10 ∷ codes "Subject: Hi" ++ (13 ∷ 10 ∷ 13 ∷ 10 ∷ codes "body"))))
      (codes "host.test")
    ≡ (codes "Subject: Hi" ++ (13 ∷ 10 ∷ 13 ∷ 10 ∷ codes "body"), false)
unfolding strip_receiver_headers strip_blocks blocks split from_crlf to_crlf field_kind join fields
    trim_space trim to_lower
taken_out = refl

put_before :
    prepend_headers (codes "Subject: Hi" ++ (10 ∷ 10 ∷ codes "body")) (codes "A: 1" ∷ [] ∷ [])
    ≡ codes "A: 1" ++ (13 ∷ 10 ∷ codes "Subject: Hi" ++ (13 ∷ 10 ∷ 13 ∷ 10 ∷ codes "body"))
unfolding prepend_headers trimmed_lines from_crlf to_crlf join trim_space trim
put_before = refl
