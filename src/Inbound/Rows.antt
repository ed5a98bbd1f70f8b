-- ===== src/Inbound/Rows.antt =====
-- The rows that a mail for a mailbox leaves, field by field.
use sender_report.Base.{
  ℕ, ◌≡◌, refl, inl, inr, true, List, [], ◌∷◌, ◌++◌, map, arith, ◌==◌, if◌then◌else◌, length,
}
use sender_report.Text.{Bytes, codes}
use sender_report.Smtp.Session.{ReceivedMail}
use sender_report.Auth.Enrich.{enrich_with_receiver_auth_headers}
use sender_report.Store.Tables.{Mailbox, Message, Report, Db, ok, has_mailbox, has_message}
use sender_report.Store.Mailboxes.{touch_mailbox}
use sender_report.Store.Messages.{
  received_now, insert_message, save_message, save_report, created_now, get_report_by_message_id,
}
use sender_report.Store.Reports.{save_report-IsSaved}
use sender_report.Inbound.Recipients.{plain_rcpt, header_block, header_field}
use sender_report.Inbound.Payload.{Engine, Analysis, Check, Times, EncryptedPayload, report_row}
use sender_report.Inbound.Handle.{Inbound, stored, received_message, save_received}

-- One message more, which is returned, and a report that is found for it.
abbrev pub AreStored : Message → Report → Db → Inbound × Db → Type 0
AreStored m r d (res, d') =
    (res ≡ stored m)
    × (d'.messages ≡ d.messages ++ m ∷ [])
    × (k : ℕ) × (get_report_by_message_id m.id d' ≡ ok (record r { id = k }))

has_message-append : (rows : List Message) (m : Message) → has_message m.id (rows ++ m ∷ []) ≡ true
has_message-append [] m = ground arith
has_message-append (x ∷ rows) m = ground (arith, has_message-append rows m)

save_report-messages :
    (now : ℕ) (r : Report) (d : Db) → (save_report now r d).1.messages ≡ d.messages
unfolding save_report
save_report-messages now r d = ground arith

save_message_lem :
    (now : ℕ) (m : Message) (d : Db)
    → has_mailbox m.mailbox_id d.mailboxes ≡ true
    → save_message now m d ≡ (
      ok (record (received_now now m) { id = d.next_message }),
      insert_message (record (received_now now m) { id = d.next_message }) d,
    )
unfolding save_message
save_message_lem now m d e = rw e

-- A report is found for a message that is there once one has been saved for it.
report_found :
    (now : ℕ) (r : Report) (d : Db)
    → has_message r.message_id d.messages ≡ true
    → (k : ℕ) × (get_report_by_message_id r.message_id (save_report now r d).1
        ≡ ok (record (created_now now r) { id = k }))
report_found now r d h = elim (save_report-IsSaved now r d h) [
  | inl s ↦ (s.0.id, s.2.0)
  | inr s ↦ (d.next_report, s.1.0)
]

module _ (engine : Engine) (times : Times) (smtp_domain : Bytes) (rm : ReceivedMail)
    (mb : Mailbox) where
  abbrev pub raw : Bytes
  raw = enrich_with_receiver_auth_headers engine.auth engine.now_text smtp_domain rm rm.body

  abbrev pub subject : Bytes
  subject = header_field engine.decode_words (header_block raw) (codes "Subject")

  -- The row of a mail in clear, with its id and time.
  abbrev pub clear_row : ℕ → ℕ → Message
  clear_row k now = record {
    id = k;
    mailbox_id = mb.id;
    smtp_from = rm.mail_from;
    rcpt_to = plain_rcpt rm.rcpt_to;
    remote_ip = rm.remote_ip;
    helo = rm.helo;
    received_at = now;
    raw_source = raw;
    header_block = header_block raw;
    subject = subject;
    size_bytes = length rm.body;
    payload_enc = [];
  }

  -- A row with nothing of the mail but its recipient, its size, and the sealed payload.
  abbrev pub closed_row : ℕ → Bytes → Message
  closed_row k payload = record {
    id = k;
    mailbox_id = mb.id;
    smtp_from = codes "[encrypted]";
    rcpt_to = plain_rcpt rm.rcpt_to;
    remote_ip = codes "[encrypted]";
    helo = codes "[encrypted]";
    received_at = times.at_save;
    raw_source = codes "[encrypted]";
    header_block = codes "[encrypted]";
    subject = codes "[encrypted]";
    size_bytes = length rm.body;
    payload_enc = payload;
  }

  -- The analysis, of the mail as it was received.
  abbrev pub analysis : Analysis
  analysis =
      engine.analyze (clear_row 0 times.at_receipt) smtp_domain mb.check_domain_age
        mb.check_domain_blocklist mb.check_broken_links

  -- The row of a report in clear, and that of one of which only the score, its label and the id, name and
  -- status of each check are left.
  abbrev pub full_report : ℕ → Report
  full_report k = record {
    id = 0;
    message_id = k;
    created_at = if analysis.created_at == 0 then times.at_report else analysis.created_at;
    score = analysis.score;
    score_label = analysis.score_label;
    checks = engine.marshal_checks analysis.checks;
    warnings = analysis.warnings;
    suggestions = analysis.suggestions;
    raw_headers = analysis.raw_headers;
    links = analysis.links;
    spam_signals = analysis.spam_signals;
  }

  abbrev pub bare_report : ℕ → Report
  bare_report k = record (full_report k) {
    checks = engine.marshal_checks (
        map (λ (c : Check). record { id = c.id; name = c.name; status = c.status; details = [] })
          analysis.checks);
    warnings = codes "null";
    suggestions = codes "null";
    raw_headers = codes "null";
    links = codes "null";
    spam_signals = codes "null";
  }

  -- What the payload holds.
  abbrev pub contents : EncryptedPayload
  contents = record {
    raw_source = raw;
    header_block = header_block raw;
    subject = subject;
    smtp_from = rm.mail_from;
    remote_ip = rm.remote_ip;
    helo = rm.helo;
    received_at = engine.format_rfc3339 times.at_receipt;
    report = analysis;
  }

  -- What is stored of a message and an analysis.
  pub save_received-AreStored :
      (m : Message) (a : Analysis) (d : Db)
      → has_mailbox m.mailbox_id d.mailboxes ≡ true
      → AreStored
          (record (received_now times.at_save m) { id = d.next_message })
          (created_now times.at_report
            (record (report_row engine a) { message_id = d.next_message }))
          d
          (save_received engine times mb a (save_message times.at_save m d))
  unfolding touch_mailbox get_report_by_message_id
  save_received-AreStored m a d here =
      let row = record (received_now times.at_save m) { id = d.next_message } in
      let r = record (report_row engine a) { message_id = d.next_message } in
      let d' = insert_message row d in
      let found = report_found times.at_report r d' (has_message-append d.messages row) in
      rw (save_message_lem times.at_save m d here)
        (refl, save_report-messages times.at_report r d', found.0, found.1)

  pub received_message_lem :
      received_message engine times smtp_domain rm mb ≡ clear_row 0 times.at_receipt
  unfolding received_message
  received_message_lem = refl
