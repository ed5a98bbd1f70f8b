-- ===== src/Recheck/Confined.antt =====
-- What recheckPersistAPI may change.
use sender_report.Base.{
  ℕ, ◌≤◌, ◌≡◌, refl, sym, ◌≢◌, ◌⊎◌, inl, inr, true, Option, none, some, List, [], ◌++◌, map,
  Bool-cases, Option-cases,
}
use sender_report.Text.{Bytes, codes, bytes_eq, bytes_eq_complete}
use sender_report.RateLimit.{Limiter}
use sender_report.Score.{Label, compute_score}
use sender_report.Score.Bounds.{compute_score-bounds}
use sender_report.Store.Tables.{Mailbox, Message, Report, Db, Answer, ok, not_found, constraint}
use sender_report.Store.Sound.{IsSound}
use sender_report.Store.Mailboxes.{get_mailbox_by_token}
use sender_report.Store.Messages.{
  get_message, get_report_by_message_id, list_messages_by_mailbox, update_message_payload_enc,
}
use sender_report.Inbound.Payload.{Check}
use sender_report.Recheck.Reference.{Codecs, select_message, is_encrypted}
use sender_report.Recheck.Persist.{
  SentCheck, PersistBody, PersistRequest, Persisted, saved, store_error, scored, stripped,
  has_magic, no_check, ask_limiter, after_payload, persist_body, persist_message, persist_mailbox,
  path_parts, recheck_persist,
}
use sender_report.Recheck.Listed.{IsRow, selected-IsRow}
use sender_report.Recheck.Frame.{SameElsewhere, SameElsewhere-trans, payload_update, score_update}

module _ (codecs : Codecs) (marshal_checks : List Check → Bytes) (label_text : Label → Bytes) where
  -- The report of a message after its checks were sent: with their score and what is left of them, or
  -- still none.
  abbrev pub ReportIs : ℕ → List SentCheck → Persisted → Db → Db → Type 0
  ReportIs k checks res d d' =
      let computed = compute_score (map scored checks) in
      ((old : Report) × (get_report_by_message_id k d ≡ ok old)
        × (get_report_by_message_id k d'
            ≡ ok (record old {
              score = computed.0;
              score_label = label_text computed.1;
              checks = marshal_checks (map stripped checks);
            }))
        × (res ≡ saved computed.0 computed.1))
      ⊎ ((get_report_by_message_id k d ≡ not_found)
          × (get_report_by_message_id k d' ≡ not_found)
          × (res ≡ store_error))

  -- The change of one sealed message of the named mailbox.
  pub record IsConfined (token ref : Bytes) (b : PersistBody) (res : Persisted) (d d' : Db)
      : Type 0 where
    pub mailbox : Mailbox
    pub message : Message
    pub mailbox_found : get_mailbox_by_token token d ≡ ok mailbox
    pub selected :
        select_message codecs token ref (list_messages_by_mailbox mailbox.id 500 d) ≡ some message
    pub is_row : IsRow d mailbox.id message
    pub was_sealed : message.payload_enc ≢ []
    pub has_mark : has_magic (codecs.decode_base64 b.payload_enc) ≡ true
    pub message_after :
        get_message message.id d' ≡ ok (record message { payload_enc = b.payload_enc })
    pub report_after : ReportIs message.id b.checks res d d'
    pub score_bounded : (compute_score (map scored b.checks)).0 ≤ 1000
    pub elsewhere : SameElsewhere message.id d d'

  abbrev pub IsNoChange : Persisted × Db → Db → Type 0
  IsNoChange r d = (r.1 ≡ d) × ((score : ℕ) (label : Label) → r.0 ≢ saved score label)

  both_updates :
      (k : ℕ) (payload : Bytes) (checks : List SentCheck) (d : Db) (m : Message)
      → get_message k d ≡ ok m
      → let r =
          after_payload codecs marshal_checks label_text k checks
            (update_message_payload_enc k payload d) in
        (get_message k r.1 ≡ ok (record m { payload_enc = payload }))
        × ReportIs k checks r.0 d r.1
        × SameElsewhere k d r.1
  unfolding get_message get_report_by_message_id
  both_updates k payload checks d m h =
      let (d1, set, after, reports, same) = payload_update k payload d m h in
      let computed = compute_score (map scored checks) in
      elim (score_update k computed.0 (label_text computed.1) (marshal_checks (map stripped checks))
        d1) [
          | inl (d2, old, put, found, now_is, messages, same2) ↦
              rw (set, put)
                (
                  rw messages after,
                  inl (old, rw (sym reports) found, now_is, refl),
                  SameElsewhere-trans k d d1 d2 same same2,
                )
          | inr (put, none_there) ↦
              rw (set, put) (after, inr (rw (sym reports) none_there, none_there, refl), same)
        ]

  module _ (d : Db) (sound : IsSound d) (token ref : Bytes) (body : Option PersistBody) where
    -- Nothing, or a confined change by the body that was sent.
    abbrev pub IsSafe : Persisted × Db → Type 0
    IsSafe r =
        IsNoChange r d ⊎ ((b : PersistBody) × (body ≡ some b) × IsConfined token ref b r.0 d r.1)

    persist_body-IsSafe :
        (mb : Mailbox) (m : Message) (o : Option PersistBody)
        → get_mailbox_by_token token d ≡ ok mb
        → select_message codecs token ref (list_messages_by_mailbox mb.id 500 d) ≡ some m
        → m.payload_enc ≢ []
        → body ≡ o
        → IsSafe (persist_body codecs marshal_checks label_text m d o)
    persist_body-IsSafe mb m none found chosen full e = inl (refl, λ s l. cc)
    persist_body-IsSafe mb m (some b) found chosen full e =
        elim (Bool-cases (has_magic (codecs.decode_base64 b.payload_enc))) [
          | inr bad ↦ rw bad (inl (refl, λ s l. cc))
          | inl mark ↦ elim (Bool-cases (no_check b.checks)) [
            | inl none_sent ↦ rw (mark, none_sent) (inl (refl, λ s l. cc))
            | inr some_sent ↦
                let row = selected-IsRow codecs d sound mb.id token ref m chosen in
                let (after, report, same) = both_updates m.id b.payload_enc b.checks d m row.1 in
                rw (mark, some_sent)
                  (inr (
                    b,
                    e,
                    record {
                      mailbox = mb;
                      message = m;
                      mailbox_found = found;
                      selected = chosen;
                      is_row = row;
                      was_sealed = full;
                      has_mark = mark;
                      message_after = after;
                      report_after = report;
                      score_bounded = (compute_score-bounds (map scored b.checks)).0;
                      elsewhere = same;
                    },
                  ))
          ]
        ]

    persist_message-IsSafe :
        (mb : Mailbox) (o : Option Message)
        → get_mailbox_by_token token d ≡ ok mb
        → select_message codecs token ref (list_messages_by_mailbox mb.id 500 d) ≡ o
        → IsSafe (persist_message codecs marshal_checks label_text body d o)
    unfolding is_encrypted
    persist_message-IsSafe mb none found chosen = inl (refl, λ s l. cc)
    persist_message-IsSafe mb (some m) found chosen =
        elim (Bool-cases (bytes_eq m.payload_enc [])) [
          | inl blank ↦ rw blank (inl (refl, λ s l. cc))
          | inr full ↦ rw full (
              persist_body-IsSafe mb m body found chosen
                (λ blank. absurd (cc (full, bytes_eq_complete m.payload_enc [] blank))) refl)
        ]

    persist_mailbox-IsSafe :
        (o : Answer Mailbox)
        → get_mailbox_by_token token d ≡ o
        → IsSafe (persist_mailbox codecs marshal_checks label_text token ref body d o)
    persist_mailbox-IsSafe (ok mb) found = persist_message-IsSafe mb _ found refl
    persist_mailbox-IsSafe not_found found = inl (refl, λ s l. cc)
    persist_mailbox-IsSafe constraint found = inl (refl, λ s l. cc)

  -- A request changes nothing in a sound database, and is not answered as saved; or it names a mailbox and a
  -- sealed message of it, whose payload becomes the text that was sent, a blob with the mark, and whose
  -- report, if it has one, gets the score, at most 1000 hundredths, of the checks that were sent and of
  -- these no more than id, name and status; no other message or report and no mailbox changes.
  pub recheck_persist-IsSafe :
      (now : ℕ) (r : PersistRequest) (limiter : Option Limiter) (d : Db)
      → IsSound d
      → let (res, l', d') = recheck_persist codecs marshal_checks label_text now r limiter d in
        IsNoChange (res, d') d
        ⊎ ((token : Bytes) × (ref : Bytes) × (b : PersistBody) × (path_parts r.path
              ≡ some (token, ref))
            × (r.body ≡ some b)
            × IsConfined token ref b res d d')
  unfolding recheck_persist
  recheck_persist-IsSafe now r limiter d sound =
      elim (Bool-cases (bytes_eq r.method (codes "POST"))) [
        | inr other ↦ rw other (inl (refl, λ s l. cc))
        | inl post ↦ elim (Bool-cases (ask_limiter limiter (codes "recheck:" ++ r.ip) now).1) [
          | inr many ↦ rw (post, many) (inl (refl, λ s l. cc))
          | inl few ↦ elim (Option-cases (path_parts r.path)) [
            | inl bad ↦ rw (post, few, bad) (inl (refl, λ s l. cc))
            | inr ((token, ref), parts) ↦
                elim (persist_mailbox-IsSafe d sound token ref r.body _ refl) [
                  | inl none_changed ↦ rw (post, few, parts) (inl none_changed)
                  | inr (b, sent, confined) ↦
                      rw (post, few, parts) (inr (token, ref, b, refl, sent, confined))
                ]
          ]
        ]
      ]
