-- ===== src/Inbound/Recipients.antt =====
-- The validator of recipients, the greeting's domain, and the fields of a header.
use sender_report.Base.{
  ℕ, Bool, true, false, not, ◌||◌, List, [], ◌∷◌, ◌++◌, Option, none, some, ltb, ◌==◌, length, drop,
  if◌then◌else◌,
}
use sender_report.Text.{
  Bytes, codes, split, bytes_eq, has_prefix, has_suffix, to_lower, trim_space, trim_right,
}
use sender_report.Auth.Headers.{from_crlf, split_message}
use sender_report.Store.Tables.{Mailbox, Db, Answer, ok, not_found, constraint}
use sender_report.Store.Mailboxes.{get_mailbox_by_address}

unfoldable pub matches_configured_domain : Bytes → Bytes → Bool
matches_configured_domain smtp_domain rcpt =
    let domain = to_lower (trim_space smtp_domain) in
    if bytes_eq domain []
    then true
    else has_suffix (codes "@" ++ domain) (to_lower (trim_space rcpt))

abbrev pub plain_rcpt : Bytes → Bytes
plain_rcpt rcpt = to_lower (trim_space rcpt)

abbrev pub receives_at : ℕ → Answer Mailbox → Bool
receives_at now (ok mb) = ltb now mb.expires_at
receives_at now not_found = false
receives_at now constraint = false

unfoldable pub is_allowed_recipient : ℕ → Bytes → Bytes → Db → Bool
is_allowed_recipient now smtp_domain rcpt d =
    if not (matches_configured_domain smtp_domain (plain_rcpt rcpt))
    then false
    else receives_at now (get_mailbox_by_address (plain_rcpt rcpt) d)

unfoldable pub smtp_greeting_domain : Bytes → Bytes
smtp_greeting_domain smtp_domain =
    let domain = trim_space smtp_domain in
    if bytes_eq domain [] then codes "sender-report.local" else domain

unfoldable pub header_block : Bytes → Bytes
header_block raw = trim_space (split_message (from_crlf raw)).0

abbrev without_cr : Bytes → Bytes
without_cr line = trim_right (λ c. c == 13) line

abbrev is_folded : Bytes → Bool
is_folded line = has_prefix (codes " ") line || has_prefix (9 ∷ []) line

-- The value with the folded lines behind it.
unfoldable pub continued : Bytes → List Bytes → Bytes
continued value [] = value
continued value (l ∷ ls) =
    let more = continued (value ++ (codes " " ++ trim_space (without_cr l))) ls in
    if is_folded (without_cr l) then more else value

abbrev decoded : (Bytes → Option Bytes) → Bytes → Bytes
decoded decode value = elim (decode value) [ some t ↦ trim_space t | none ↦ trim_space value ]

-- `prefix` is the name of the field in lower case and a colon.
unfoldable pub field_in : (Bytes → Option Bytes) → Bytes → List Bytes → Bytes
field_in decode prefix [] = []
field_in decode prefix (l ∷ ls) =
    let line = without_cr l in
    let later = field_in decode prefix ls in
    if has_prefix prefix (to_lower (trim_space line))
    then decoded decode (continued (trim_space (drop (length prefix) line)) ls)
    else later

unfoldable pub header_field : (Bytes → Option Bytes) → Bytes → Bytes → Bytes
header_field decode block key = field_in decode (to_lower key ++ codes ":") (split 10 block)
