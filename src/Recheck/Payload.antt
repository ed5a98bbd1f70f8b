-- ===== src/Recheck/Payload.antt =====
-- `payloadAPI`: the sealed payload of one message.
use sender_report.Base.{ℕ, not, Option, none, some, [], ◌++◌, if◌then◌else◌}
use sender_report.Text.{Bytes, codes, bytes_eq, cut, trim_prefix}
use sender_report.RateLimit.{Limiter}
use sender_report.Store.Tables.{Mailbox, Message, Report, Db, Answer, ok, not_found, constraint}
use sender_report.Store.Mailboxes.{get_mailbox_by_token}
use sender_report.Store.Messages.{list_messages_with_reports}
use sender_report.Recheck.Reference.{Codecs, select_message_with_report, is_encrypted}
use sender_report.Recheck.Persist.{ask_limiter}

pub record PayloadRequest : Type 0 where
  pub method : Bytes
  pub ip : Bytes
  pub path : Bytes

-- The payload is given out with the token.
pub data PayloadReply : Type 0 where
  method_not_allowed rate_limited bad_path : PayloadReply
  no_mailbox not_encrypted_mailbox no_message not_encrypted : PayloadReply
  payload : Bytes → Bytes → PayloadReply

abbrev pub of_selected : Bytes → Option (Message × Option Report) → PayloadReply
of_selected token none = no_message
of_selected token (some (m, r)) =
    if not (is_encrypted m) then not_encrypted else payload m.payload_enc token

module _ (codecs : Codecs) where
  abbrev pub of_mailbox_token : Bytes → Bytes → Db → Answer Mailbox → PayloadReply
  of_mailbox_token token ref d (ok mb) =
      if bytes_eq mb.public_key []
      then not_encrypted_mailbox
      else of_selected token
          (select_message_with_report codecs token (list_messages_with_reports mb.id 100 d) ref)
  of_mailbox_token token ref d not_found = no_mailbox
  of_mailbox_token token ref d constraint = no_mailbox

  abbrev pub of_path : Db → Option (Bytes × Bytes) → PayloadReply
  of_path d none = bad_path
  of_path d (some (token, ref)) = of_mailbox_token token ref d (get_mailbox_by_token token d)

  unfoldable pub payload_api :
      ℕ → PayloadRequest → Option Limiter → Db → PayloadReply × Option Limiter
  payload_api now r limiter d =
      let asked = ask_limiter limiter (codes "payload:" ++ r.ip) now in
      if not (bytes_eq r.method (codes "GET"))
      then (method_not_allowed, limiter)
      else if not asked.1
      then (rate_limited, asked.0)
      else (of_path d (cut (codes "/") (trim_prefix (codes "/api/payload/") r.path)), asked.0)
