-- ===== src/Inbound/Tests.antt =====
-- A mail on its way into the store.
use sender_report.Base.{◌≤◌, ◌≡◌, refl, true, false, [], ◌∷◌, ◌++◌, some, arith}
use sender_report.Text.{Bytes, codes, split, trim, trim_space, to_lower}
use sender_report.Store.Tables.{Mailbox, ok}
use sender_report.Store.Mailboxes.{get_mailbox_by_address}
use sender_report.Inbound.Recipients.{
  plain_rcpt, matches_configured_domain, is_allowed_recipient, header_field, field_in, continued,
}
use sender_report.Inbound.Payload.{build_encrypted_payload}
use sender_report.Inbound.Owner.{boxed, process_inbound-opens}
use sender_report.Sealed.{open_blob, done}
use sender_report.Sealed.Tests.{small_crypto, small_laws, copies}
use sender_report.Inbound.Handle.{process_inbound}
use sender_report.Store.Tables.{Db}
use sender_report.Inbound.Rows.{AreStored, clear_row, closed_row, bare_report, analysis, contents}
use sender_report.Inbound.Delivery.{IsDelivered, IsSealable, accepted-IsDelivered}
use sender_report.Inbound.Stored.{process_inbound-sealed}
use sender_report.Inbound.Fixtures.{engine, key, box, before, mail, times}

in_time : is_allowed_recipient 50 (codes "host.test") (codes "T@Host.test") before ≡ true
unfolding is_allowed_recipient matches_configured_domain get_mailbox_by_address trim_space trim
    to_lower
in_time = refl

too_late : is_allowed_recipient 100 (codes "host.test") (codes "T@Host.test") before ≡ false
unfolding is_allowed_recipient matches_configured_domain get_mailbox_by_address trim_space trim
    to_lower
too_late = refl

other_domain : is_allowed_recipient 50 (codes "host.test") (codes "t@evilhost.test") before ≡ false
unfolding is_allowed_recipient matches_configured_domain get_mailbox_by_address trim_space trim
    to_lower
other_domain = refl

folded_subject :
    header_field
      (λ s. some s)
      (codes "X: 1" ++ (10 ∷ codes "subject: A" ++ (10 ∷ codes " b")))
      (codes "Subject")
    ≡ codes "A b"
unfolding header_field field_in continued split trim_space trim to_lower
folded_subject = refl

accepted-IsDelivered_example :
    (mb : Mailbox) × (get_mailbox_by_address (plain_rcpt mail.rcpt_to) before ≡ ok mb)
    × (60 ≤ mb.expires_at
        → IsDelivered engine times
            (codes "host.test")
            mail
            mb
            before
            (process_inbound engine times (codes "host.test") mail before))
accepted-IsDelivered_example =
    accepted-IsDelivered engine times (codes "host.test") mail 50 before in_time

domain_matches : matches_configured_domain (codes "host.test") (plain_rcpt mail.rcpt_to) ≡ true
unfolding matches_configured_domain trim_space trim to_lower
domain_matches = refl

box_found : get_mailbox_by_address (plain_rcpt mail.rcpt_to) before ≡ ok box
unfolding get_mailbox_by_address trim_space trim to_lower
box_found = refl

sealable :
    IsSealable engine box
      (clear_row engine times (codes "host.test") mail box 0 61)
      (analysis engine times (codes "host.test") mail box)
      (codes "S")
unfolding build_encrypted_payload
sealable = (key, refl, refl, refl, refl)

process_inbound-sealed_example :
    AreStored
      (closed_row engine times (codes "host.test") mail box 8 (codes "S"))
      (bare_report engine times (codes "host.test") mail box 8)
      before
      (process_inbound engine times (codes "host.test") mail before)
process_inbound-sealed_example =
    process_inbound-sealed engine times (codes "host.test") mail box (codes "S") before
      domain_matches box_found (omega arith) sealable

-- The same mailbox with a key of the small box.
abbrev owned : Mailbox
owned = record box { public_key = copies 32 5 }

abbrev with_owner : Db
with_owner = record before { mailboxes = owned ∷ [] }

owned_found : get_mailbox_by_address (plain_rcpt mail.rcpt_to) with_owner ≡ ok owned
unfolding get_mailbox_by_address trim_space trim to_lower
owned_found = refl

process_inbound-opens_example :
    (text : Bytes) × (blob : Bytes) × (read : Bytes) × AreStored
      (closed_row engine times (codes "host.test") mail owned 8 text)
      (bare_report engine times (codes "host.test") mail owned 8)
      with_owner
      (process_inbound
        (boxed small_crypto (copies 32 3) (copies 12 9) engine)
        times
        (codes "host.test")
        mail
        with_owner)
    × (some text ≡ some blob)
    × (open_blob small_crypto blob (copies 32 5) ≡ done read)
    × (some (contents engine times (codes "host.test") mail owned)
        ≡ some (contents engine times (codes "host.test") mail owned))
process_inbound-opens_example =
    process_inbound-opens small_crypto engine (λ s. some s)
      (λ s. some (contents engine times (codes "host.test") mail owned)) (copies 32 5) (copies 32 5)
      (copies 32 3) (copies 12 9) (copies 32 3) (copies 32 8)
      (contents engine times (codes "host.test") mail owned).raw_source times (codes "host.test")
      mail owned with_owner small_laws (λ blob. refl) refl refl refl refl refl refl refl refl
      domain_matches owned_found (omega arith) refl refl refl
