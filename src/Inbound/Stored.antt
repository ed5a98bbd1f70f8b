-- ===== src/Inbound/Stored.antt =====
-- What of a mail for a mailbox with a key is stored in clear.
use sender_report.Base.{◌≤◌, ◌≡◌, true}
use sender_report.Text.{Bytes}
use sender_report.Smtp.Session.{ReceivedMail}
use sender_report.Store.Tables.{Mailbox, Db, ok}
use sender_report.Store.Mailboxes.{get_mailbox_by_address}
use sender_report.Inbound.Recipients.{plain_rcpt, matches_configured_domain}
use sender_report.Inbound.Payload.{Engine, Times}
use sender_report.Inbound.Handle.{process_inbound}
use sender_report.Inbound.Rows.{AreStored, clear_row, closed_row, analysis, bare_report}
use sender_report.Inbound.Delivery.{IsSealable, has_mailbox-find_row, not_late, receive_for_sealed}

-- A mail for a mailbox with a key of 32 bytes, whose payload can be sealed: the one row that is added has
-- nothing of the mail but its recipient, its size and the sealed payload, and the report that is found for it
-- has nothing of the analysis but its times, score and label and the id, name and status of each check. The time
-- of receipt in the row is the time of saving, not zero.
pub process_inbound-sealed :
    (engine : Engine) (times : Times) (smtp_domain : Bytes) (rm : ReceivedMail) (mb : Mailbox)
    (payload : Bytes) (d : Db)
    → matches_configured_domain smtp_domain (plain_rcpt rm.rcpt_to) ≡ true
    → get_mailbox_by_address (plain_rcpt rm.rcpt_to) d ≡ ok mb
    → times.at_check ≤ mb.expires_at
    → IsSealable engine mb
        (clear_row engine times smtp_domain rm mb 0 times.at_receipt)
        (analysis engine times smtp_domain rm mb)
        payload
    → AreStored
        (closed_row engine times smtp_domain rm mb d.next_message payload)
        (bare_report engine times smtp_domain rm mb d.next_message)
        d
        (process_inbound engine times smtp_domain rm d)
unfolding process_inbound get_mailbox_by_address
process_inbound-sealed engine times smtp_domain rm mb payload d domain found open_until can =
    rw (domain, found, not_late _ _ open_until)
      (receive_for_sealed engine times smtp_domain rm mb d payload
        (has_mailbox-find_row _ d.mailboxes mb found) can)
