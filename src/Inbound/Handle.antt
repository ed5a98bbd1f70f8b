-- ===== src/Inbound/Handle.antt =====
-- `processInbound`, step by step.
use sender_report.Base.{not, [], ltb, length, if◌then◌else◌}
use sender_report.Text.{Bytes, codes}
use sender_report.Smtp.Session.{ReceivedMail}
use sender_report.Auth.Enrich.{enrich_with_receiver_auth_headers}
use sender_report.Store.Tables.{Mailbox, Message, Db, Answer, ok, not_found, constraint}
use sender_report.Store.Mailboxes.{get_mailbox_by_address, touch_mailbox}
use sender_report.Store.Messages.{save_message, save_report}
use sender_report.Inbound.Recipients.{
  plain_rcpt, matches_configured_domain, header_block, header_field,
}
use sender_report.Inbound.Payload.{Engine, Analysis, Times, report_row, for_storage}

-- A mail that is not for a mailbox, an error of the store, or the row of the mail.
pub data Inbound : Type 0 where
  dropped : Inbound
  store_error : Inbound
  stored : Message → Inbound

module _ (engine : Engine) where
  unfoldable pub received_message : Times → Bytes → ReceivedMail → Mailbox → Message
  received_message times smtp_domain rm mb =
      let raw =
        enrich_with_receiver_auth_headers engine.auth engine.now_text smtp_domain rm rm.body in
      record {
        id = 0;
        mailbox_id = mb.id;
        smtp_from = rm.mail_from;
        rcpt_to = plain_rcpt rm.rcpt_to;
        remote_ip = rm.remote_ip;
        helo = rm.helo;
        received_at = times.at_receipt;
        raw_source = raw;
        header_block = header_block raw;
        subject = header_field engine.decode_words (header_block raw) (codes "Subject");
        size_bytes = length rm.body;
        payload_enc = [];
      }

  -- The report is saved for the message that was; an error of that is only noted.
  abbrev pub save_received : Times → Mailbox → Analysis → Answer Message × Db → Inbound × Db
  save_received times mb report (ok m, d) =
      let d' =
        (save_report times.at_report (record (report_row engine report) { message_id = m.id })
          d).1 in
      (stored m, touch_mailbox times.at_touch mb.id d')
  save_received times mb report (not_found, d) = (store_error, d)
  save_received times mb report (constraint, d) = (store_error, d)

  -- The mail and its report as they are stored.
  unfoldable pub kept_for : Times → Bytes → ReceivedMail → Mailbox → Message × Analysis
  kept_for times smtp_domain rm mb =
      let m = received_message times smtp_domain rm mb in
      for_storage engine mb m (
        engine.analyze m smtp_domain mb.check_domain_age mb.check_domain_blocklist
          mb.check_broken_links)

  unfoldable pub receive_for : Times → Bytes → ReceivedMail → Mailbox → Db → Inbound × Db
  receive_for times smtp_domain rm mb d =
      let kept = kept_for times smtp_domain rm mb in
      save_received times mb kept.1 (save_message times.at_save kept.0 d)

  abbrev pub on_mailbox : Times → Bytes → ReceivedMail → Db → Answer Mailbox → Inbound × Db
  on_mailbox times smtp_domain rm d (ok mb) =
      if ltb mb.expires_at times.at_check
      then (dropped, d)
      else receive_for times smtp_domain rm mb d
  on_mailbox times smtp_domain rm d not_found = (dropped, d)
  on_mailbox times smtp_domain rm d constraint = (store_error, d)

  unfoldable pub process_inbound : Times → Bytes → ReceivedMail → Db → Inbound × Db
  process_inbound times smtp_domain rm d =
      if not (matches_configured_domain smtp_domain (plain_rcpt rm.rcpt_to))
      then (dropped, d)
      else on_mailbox times smtp_domain rm d (get_mailbox_by_address (plain_rcpt rm.rcpt_to) d)
