-- ===== src/Inbound/Payload.antt =====
-- The sealed payload, and what of a mail and its report is stored in clear.
use sender_report.Base.{ℕ, Bool, List, [], Option, none, some, ◌==◌, map, length, if◌then◌else◌}
use sender_report.Text.{Bytes, codes, bytes_eq}
use sender_report.Auth.Enrich.{Libraries}
use sender_report.Store.Tables.{Mailbox, Message, Report}

-- What the code reads of a check result; `details` stands for all its other fields.
pub record Check : Type 0 where
  pub id : Bytes
  pub name : Bytes
  pub status : Bytes
  pub details : Bytes

-- The analysis, with the lists that are only marshalled as their JSON text.
pub record Analysis : Type 0 where
  pub id : ℕ
  pub message_id : ℕ
  pub created_at : ℕ
  pub score : ℕ
  pub score_label : Bytes
  pub checks : List Check
  pub warnings : Bytes
  pub suggestions : Bytes
  pub raw_headers : Bytes
  pub links : Bytes
  pub spam_signals : Bytes

abbrev pub bare_check : Check → Check
bare_check c = record { id = c.id; name = c.name; status = c.status; details = [] }

-- A list that is not set is marshalled to null.
unfoldable pub strip_report_for_storage : Analysis → Analysis
strip_report_for_storage r = record {
  id = r.id;
  message_id = r.message_id;
  created_at = r.created_at;
  score = r.score;
  score_label = r.score_label;
  checks = map bare_check r.checks;
  warnings = codes "null";
  suggestions = codes "null";
  raw_headers = codes "null";
  links = codes "null";
  spam_signals = codes "null";
}

pub record EncryptedPayload : Type 0 where
  pub raw_source : Bytes
  pub header_block : Bytes
  pub subject : Bytes
  pub smtp_from : Bytes
  pub remote_ip : Bytes
  pub helo : Bytes
  pub received_at : Bytes
  pub report : Analysis

-- The times that processInbound asks for, in this order.
pub record Times : Type 0 where
  pub at_check : ℕ
  pub at_receipt : ℕ
  pub at_save : ℕ
  pub at_report : ℕ
  pub at_touch : ℕ

-- `analyze` gets the message, the domain and the three choices of the mailbox;
-- `format_rfc3339` is the text of a time in UTC, cut to whole seconds.
pub record Engine : Type 1 where
  pub auth : Libraries
  pub now_text : Bytes
  pub decode_words : Bytes → Option Bytes
  pub analyze : Message → Bytes → Bool → Bool → Bool → Analysis
  pub marshal_checks : List Check → Bytes
  pub decode_hex : Bytes → Option Bytes
  pub format_rfc3339 : ℕ → Bytes
  pub marshal_payload : EncryptedPayload → Option Bytes
  pub seal : Bytes → Bytes → Option Bytes
  pub base64 : Bytes → Bytes

module _ (engine : Engine) where
  abbrev pub payload_of : Message → Analysis → EncryptedPayload
  payload_of m report = record {
    raw_source = m.raw_source;
    header_block = m.header_block;
    subject = m.subject;
    smtp_from = m.smtp_from;
    remote_ip = m.remote_ip;
    helo = m.helo;
    received_at = engine.format_rfc3339 m.received_at;
    report = report;
  }

  abbrev pub encoded : Option Bytes → Option Bytes
  encoded none = none
  encoded (some blob) = some (engine.base64 blob)

  abbrev pub sealed_text : Option Bytes → Bytes → Option Bytes
  sealed_text none key = none
  sealed_text (some plain) key = encoded (engine.seal plain key)

  unfoldable pub build_encrypted_payload : Message → Analysis → Bytes → Option Bytes
  build_encrypted_payload m report key =
      sealed_text (engine.marshal_payload (payload_of m report)) key

  abbrev pub report_row : Analysis → Report
  report_row r = record {
    id = r.id;
    message_id = r.message_id;
    created_at = r.created_at;
    score = r.score;
    score_label = r.score_label;
    checks = engine.marshal_checks r.checks;
    warnings = r.warnings;
    suggestions = r.suggestions;
    raw_headers = r.raw_headers;
    links = r.links;
    spam_signals = r.spam_signals;
  }

  abbrev pub encrypted : Bytes
  encrypted = codes "[encrypted]"

  -- The zero time stands for the time of receipt.
  abbrev pub sealed_message : Message → Bytes → Message
  sealed_message m payload = record m {
    payload_enc = payload;
    raw_source = encrypted;
    header_block = encrypted;
    subject = encrypted;
    smtp_from = encrypted;
    remote_ip = encrypted;
    helo = encrypted;
    received_at = 0;
  }

  -- Sealed, if the mailbox has a key and the sealing succeeds.
  abbrev seal_with : Option Bytes → Message → Analysis → Message × Analysis
  seal_with none m report = (m, report)
  seal_with (some payload) m report = (sealed_message m payload, strip_report_for_storage report)

  abbrev with_key : Option Bytes → Message → Analysis → Message × Analysis
  with_key none m report = (m, report)
  with_key (some key) m report =
      if length key == 32
      then seal_with (build_encrypted_payload m report key) m report
      else (m, report)

  unfoldable pub for_storage : Mailbox → Message → Analysis → Message × Analysis
  for_storage mb m report =
      if bytes_eq mb.public_key []
      then (m, report)
      else with_key (engine.decode_hex mb.public_key) m report
