-- ===== src/Recheck/Persist.antt =====
-- `recheckPersistAPI`.
use sender_report.Base.{
  ℕ, Bool, true, false, not, ◌&&◌, ◌||◌, Option, none, some, List, [], ◌∷◌, ◌++◌, map, ltb,
  if◌then◌else◌, length, take,
}
use sender_report.Text.{Bytes, codes, bytes_eq, cut, trim_prefix}
use sender_report.RateLimit.{Limiter, allow}
use sender_report.Score.{
  CheckResult, Delta, Status, passes, warns, fails, informs, not_applicable, Label, compute_score,
}
use sender_report.Sealed.{magic}
use sender_report.Store.Tables.{Mailbox, Message, Db, Answer, ok, not_found, constraint}
use sender_report.Store.Mailboxes.{get_mailbox_by_token}
use sender_report.Store.Messages.{
  list_messages_by_mailbox, update_message_payload_enc, update_report_score_checks,
}
use sender_report.Inbound.Payload.{Check}
use sender_report.Recheck.Reference.{Codecs, select_message, is_encrypted}

-- A check that the browser sends, without the fields that are not read.
pub record SentCheck : Type 0 where
  pub id : Bytes
  pub name : Bytes
  pub status : Bytes
  pub score_delta : Delta

pub record PersistBody : Type 0 where
  pub payload_enc : Bytes
  pub checks : List SentCheck

-- `path` is that of the URL; the body is none where it cannot be decoded. Without a limiter all pass.
pub record PersistRequest : Type 0 where
  pub method : Bytes
  pub ip : Bytes
  pub path : Bytes
  pub body : Option PersistBody

pub data Persisted : Type 0 where
  method_not_allowed rate_limited bad_path mailbox_not_found message_not_found : Persisted
  invalid_body invalid_payload no_checks store_error : Persisted
  saved : ℕ → Label → Persisted

-- A status that the program does not know is none of those that the score reads.
abbrev pub status_of : Bytes → Status
status_of s =
    if bytes_eq s (codes "pass")
    then passes
    else if bytes_eq s (codes "warn")
    then warns
    else if bytes_eq s (codes "fail")
    then fails
    else if bytes_eq s (codes "na")
    then not_applicable
    else informs

abbrev pub scored : SentCheck → CheckResult
scored c = record { id = c.id; status = status_of c.status; score_delta = c.score_delta }

abbrev pub stripped : SentCheck → Check
stripped c = record { id = c.id; name = c.name; status = c.status; details = [] }

-- The base64 text of a blob with the mark.
abbrev pub has_magic : Option Bytes → Bool
has_magic none = false
has_magic (some blob) = not (ltb (length blob) 4) && bytes_eq (take 4 blob) magic

abbrev pub no_check : List SentCheck → Bool
no_check [] = true
no_check (c ∷ cs) = false

abbrev pub two_parts : Option (Bytes × Bytes) → Option (Bytes × Bytes)
two_parts none = none
two_parts (some (token, ref)) =
    if bytes_eq token [] || bytes_eq ref [] then none else some (token, ref)

abbrev pub path_parts : Bytes → Option (Bytes × Bytes)
path_parts path = two_parts (cut (codes "/") (trim_prefix (codes "/api/recheck-persist/") path))

unfoldable pub ask_limiter : Option Limiter → Bytes → ℕ → Option Limiter × Bool
ask_limiter none key now = (none, true)
ask_limiter (some l) key now = let asked = allow l key now in (some asked.0, asked.1)

module _ (codecs : Codecs) (marshal_checks : List Check → Bytes) (label_text : Label → Bytes) where
  abbrev pub after_report : ℕ → Label → Answer (Unit {0}) × Db → Persisted × Db
  after_report score label (ok u, d) = (saved score label, d)
  after_report score label (not_found, d) = (store_error, d)
  after_report score label (constraint, d) = (store_error, d)

  abbrev pub after_payload : ℕ → List SentCheck → Answer (Unit {0}) × Db → Persisted × Db
  after_payload k checks (ok u, d) =
      let computed = compute_score (map scored checks) in
      after_report computed.0 computed.1 (
        update_report_score_checks k computed.0 (label_text computed.1)
          (marshal_checks (map stripped checks)) d)
  after_payload k checks (not_found, d) = (store_error, d)
  after_payload k checks (constraint, d) = (store_error, d)

  abbrev pub persist_body : Message → Db → Option PersistBody → Persisted × Db
  persist_body m d none = (invalid_body, d)
  persist_body m d (some b) =
      if not (has_magic (codecs.decode_base64 b.payload_enc))
      then (invalid_payload, d)
      else if no_check b.checks
      then (no_checks, d)
      else after_payload m.id b.checks (update_message_payload_enc m.id b.payload_enc d)

  abbrev pub persist_message : Option PersistBody → Db → Option Message → Persisted × Db
  persist_message body d none = (message_not_found, d)
  persist_message body d (some m) =
      if not (is_encrypted m) then (message_not_found, d) else persist_body m d body

  abbrev pub persist_mailbox :
      Bytes → Bytes → Option PersistBody → Db → Answer Mailbox → Persisted × Db
  persist_mailbox token ref body d (ok mb) =
      persist_message body d
        (select_message codecs token ref (list_messages_by_mailbox mb.id 500 d))
  persist_mailbox token ref body d not_found = (mailbox_not_found, d)
  persist_mailbox token ref body d constraint = (mailbox_not_found, d)

  abbrev pub persist_path : Option PersistBody → Db → Option (Bytes × Bytes) → Persisted × Db
  persist_path body d none = (bad_path, d)
  persist_path body d (some (token, ref)) =
      persist_mailbox token ref body d (get_mailbox_by_token token d)

  unfoldable pub recheck_persist :
      ℕ → PersistRequest → Option Limiter → Db → Persisted × Option Limiter × Db
  recheck_persist now r limiter d =
      let asked = ask_limiter limiter (codes "recheck:" ++ r.ip) now in
      let answer = persist_path r.body d (path_parts r.path) in
      if not (bytes_eq r.method (codes "POST"))
      then (method_not_allowed, limiter, d)
      else if not asked.1
      then (rate_limited, asked.0, d)
      else (answer.0, asked.0, answer.1)
