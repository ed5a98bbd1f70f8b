-- ===== src/Inbound/Fixtures.antt =====
-- A mail, a mailbox with a key, and small stand-ins for the libraries.
use sender_report.Base.{inr, Bool, true, false, [], ◌∷◌, none, some}
use sender_report.Text.{Bytes, codes}
use sender_report.Dns.{Dns, Reply, not_found}
use sender_report.Smtp.Session.{ReceivedMail}
use sender_report.Auth.Dmarc.{DmarcLibrary}
use sender_report.Auth.Dkim.{DkimLibrary}
use sender_report.Auth.Enrich.{Libraries}
use sender_report.Store.Tables.{Mailbox, Db}
use sender_report.Inbound.Payload.{Engine, Analysis, Times}

abbrev pub absent {ℓ} : {A : Type ℓ} → Reply A
absent = record { recs = []; err = some not_found }

abbrev pub dns : Dns
dns = record {
  lookup_txt = λ h. absent;
  lookup_host = λ h. absent;
  lookup_ip_addr = λ h. absent;
  lookup_addr = λ h. absent;
  lookup_mx = λ h. absent;
}

abbrev pub dkim : DkimLibrary
dkim = record { Err = Bool; is_temp_fail = λ e. e; is_perm_fail = λ e. false; message = λ e. [] }

abbrev pub dmarc : DmarcLibrary
dmarc = record {
  Rec = Bool;
  Err = Bool;
  lookup = λ d. inr true;
  policy = λ r. [];
  spf_alignment = λ r. [];
  dkim_alignment = λ r. [];
  alignment_strict = codes "s";
  is_no_policy = λ e. e;
  is_temp_fail = λ e. false;
  message = λ e. [];
}

abbrev pub libraries : Libraries
libraries = record {
  dns = dns;
  parse_ip = λ s. [];
  dkim = dkim;
  verifications = λ raw. [];
  verify_error = λ raw. none;
  dmarc = dmarc;
  from_header = λ raw. none;
  parse_address = λ s. none;
}

abbrev pub found : Analysis
found = record {
  id = 0;
  message_id = 0;
  created_at = 0;
  score = 700;
  score_label = codes "Needs Work";
  checks =
      record {
        id = codes "spf";
        name = codes "SPF";
        status = codes "pass";
        details = codes "secret";
      }
      ∷ [];
  warnings = [];
  suggestions = [];
  raw_headers = [];
  links = [];
  spam_signals = [];
}

-- A key is its own hexadecimal form, and a sealed text is a letter.
abbrev pub engine : Engine
engine = record {
  auth = libraries;
  now_text = codes "now";
  decode_words = λ s. some s;
  analyze = λ m domain age blocklist broken. found;
  marshal_checks = λ cs. codes "checks";
  decode_hex = λ s. some s;
  format_rfc3339 = λ t. codes "time";
  marshal_payload = λ p. some p.raw_source;
  seal = λ plain key. some (codes "S");
  base64 = λ s. s;
}

abbrev pub key : Bytes
key = codes "0123456789abcdef0123456789abcdef"

abbrev pub box : Mailbox
box = record {
  id = 5;
  token = codes "t";
  address = codes "t@host.test";
  public_key = key;
  created_ip = [];
  created_at = 0;
  expires_at = 100;
  last_seen_at = 0;
  check_domain_age = false;
  check_domain_blocklist = false;
  check_broken_links = false;
}

abbrev pub before : Db
before = record {
  mailboxes = box ∷ [];
  messages = [];
  reports = [];
  tests = [];
  counters = record {
    mailboxes_created = 5;
    messages_received = 7;
    reports_generated = 7;
    score_sum = 900;
  };
  next_mailbox = 6;
  next_message = 8;
  next_report = 8;
  next_test = 1;
  last_rowid = 5;
}

abbrev pub mail : ReceivedMail
mail = record {
  remote_ip = codes "192.0.2.1";
  helo = codes "a.test";
  mail_from = codes "a@a.test";
  rcpt_to = codes "T@Host.test";
  body = codes "Subject: Hi";
  tls = false;
}

abbrev pub times : Times
times = record { at_check = 60; at_receipt = 61; at_save = 62; at_report = 63; at_touch = 64 }
