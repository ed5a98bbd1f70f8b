-- ===== src/Inbound/Owner.antt =====
-- The payload that is stored for a mailbox with a key, and the owner of the secret.
use sender_report.Base.{◌≤◌, ◌≡◌, ap, ◌∙◌, true, false, Option, none, some, [], ◌==◌, length}
use sender_report.Text.{Bytes, bytes_eq}
use sender_report.Smtp.Session.{ReceivedMail}
use sender_report.Sealed.{Crypto, HasLaws, Outcome, done, failed, seal, open_blob}
use sender_report.Sealed.Opening.{open_blob-seal}
use sender_report.Store.Tables.{Mailbox, Message, Db, ok}
use sender_report.Store.Mailboxes.{get_mailbox_by_address}
use sender_report.Inbound.Recipients.{plain_rcpt, matches_configured_domain}
use sender_report.Inbound.Payload.{
  Engine, Analysis, Times, EncryptedPayload, payload_of, sealed_text, encoded,
  build_encrypted_payload,
}
use sender_report.Inbound.Handle.{process_inbound}
use sender_report.Inbound.Rows.{AreStored, clear_row, closed_row, analysis, bare_report, contents}
use sender_report.Inbound.Stored.{process_inbound-sealed}

abbrev sealed_bytes : Outcome Bytes → Option Bytes
sealed_bytes (done blob) = some blob
sealed_bytes (failed e) = none

-- The engine that seals with the box, over the random bytes of one mail.
abbrev pub boxed : Crypto → Bytes → Bytes → Engine → Engine
boxed crypto eph_secret nonce engine = record engine {
  seal = λ plain key. sealed_bytes (seal crypto plain key (some eph_secret) (some nonce));
}

build_encrypted_payload-sealed :
    (engine : Engine) (m : Message) (report : Analysis) (key plain blob : Bytes)
    → engine.marshal_payload (payload_of engine m report) ≡ some plain
    → engine.seal plain key ≡ some blob
    → build_encrypted_payload engine m report key ≡ some (engine.base64 blob)
unfolding build_encrypted_payload
build_encrypted_payload-sealed engine m report key plain blob written seals =
    ap (λ o. sealed_text engine o key) written ∙ ap (encoded engine) seals

-- A mail for a mailbox whose public key belongs to a secret, where the libraries accept both key pairs and the
-- contents of the payload, written out field by field, can be marshalled and read back: the mail is stored
-- closed, and whoever has the secret reads from its row what was received, that is the source with the headers
-- of the receiver, its header block and subject, the sender, the address and name of the client, the time of
-- receipt as text, and the analysis.
pub process_inbound-opens :
    (crypto : Crypto) (engine : Engine) (decode : Bytes → Option Bytes)
    (unmarshal : Bytes → Option EncryptedPayload)
    (secret public eph_secret nonce eph shared plain : Bytes) (times : Times) (smtp_domain : Bytes)
    (rm : ReceivedMail) (mb : Mailbox) (d : Db)
    → HasLaws crypto
    → ((blob : Bytes) → decode (engine.base64 blob) ≡ some blob)
    → engine.marshal_payload (contents engine times smtp_domain rm mb) ≡ some plain
    → unmarshal plain ≡ some (contents engine times smtp_domain rm mb)
    → length secret ≡ 32
    → length eph_secret ≡ 32
    → length nonce ≡ 12
    → crypto.x25519 secret crypto.base_point ≡ some public
    → crypto.x25519 eph_secret crypto.base_point ≡ some eph
    → crypto.x25519 eph_secret public ≡ some shared
    → matches_configured_domain smtp_domain (plain_rcpt rm.rcpt_to) ≡ true
    → get_mailbox_by_address (plain_rcpt rm.rcpt_to) d ≡ ok mb
    → times.at_check ≤ mb.expires_at
    → bytes_eq mb.public_key [] ≡ false
    → engine.decode_hex mb.public_key ≡ some public
    → (length public == 32) ≡ true
    → (text : Bytes) × (blob : Bytes) × (read : Bytes) × AreStored
        (closed_row engine times smtp_domain rm mb d.next_message text)
        (bare_report engine times smtp_domain rm mb d.next_message)
        d
        (process_inbound (boxed crypto eph_secret nonce engine) times smtp_domain rm d)
      × (decode text ≡ some blob)
      × (open_blob crypto blob secret ≡ done read)
      × (unmarshal read ≡ some (contents engine times smtp_domain rm mb))
process_inbound-opens crypto engine decode unmarshal secret public eph_secret nonce eph shared plain
      times smtp_domain rm mb d laws decodes written reads s k n own other joint domain found
      open_until has_key hex size =
    let (blob, sealed, longer, opened) =
      open_blob-seal crypto laws plain secret public eph_secret nonce eph shared s k n own other
        joint in
    let box = boxed crypto eph_secret nonce engine in
    let m = clear_row engine times smtp_domain rm mb 0 times.at_receipt in
    let built =
      build_encrypted_payload-sealed box m (analysis engine times smtp_domain rm mb) public plain
        blob written (ap sealed_bytes sealed) in
    (
      engine.base64 blob,
      blob,
      plain,
      process_inbound-sealed box times smtp_domain rm mb (engine.base64 blob) d domain found
          open_until (public, has_key, hex, size, built),
      decodes blob,
      opened,
      reads,
    )
