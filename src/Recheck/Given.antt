-- ===== src/Recheck/Given.antt =====
-- Which payload is given out.
use sender_report.Base.{
  ℕ, ◌≡◌, refl, sym, ap, ◌∙◌, ◌≢◌, inl, inr, false, Option, none, some, [], ◌++◌, arith, Bool-cases,
}
use mathlib.Core.Path.{subst}
use sender_report.Text.{Bytes, codes, bytes_eq, bytes_eq_complete, cut, trim_prefix, trim_space}
use sender_report.RateLimit.{Limiter}
use sender_report.Store.Tables.{Mailbox, Message, Report, Db, Answer, ok, not_found, constraint}
use sender_report.Store.Sound.{IsSound}
use sender_report.Store.Mailboxes.{get_mailbox_by_token}
use sender_report.Store.Messages.{get_message, list_messages_with_reports}
use sender_report.Recheck.Reference.{
  Codecs, message_reference, select_message_with_report, is_encrypted,
}
use sender_report.Recheck.Persist.{ask_limiter}
use sender_report.Recheck.Payload.{
  PayloadRequest, payload, of_selected, of_mailbox_token, of_path, payload_api,
}
use sender_report.Recheck.Listed.{selected_with_report-IsRow}

-- A payload of a message of the mailbox with this token and of a message with this reference.
pub record IsOwn (codecs : Codecs) (token ref text : Bytes) (d : Db) : Type 0 where
  pub mailbox : Mailbox
  pub message : Message
  pub mailbox_found : get_mailbox_by_token token d ≡ ok mailbox
  pub has_key : mailbox.public_key ≢ []
  pub message_found : get_message message.id d ≡ ok message
  pub message_of : message.mailbox_id ≡ mailbox.id
  pub named : message_reference codecs token message.id ≡ trim_space ref
  pub payload_is : message.payload_enc ≡ text
  pub is_sealed : text ≢ []

module _ (codecs : Codecs) (d : Db) (sound : IsSound d) where
  of_selected-IsOwn :
      (token t ref text : Bytes) (mb : Mailbox) (o : Option (Message × Option Report))
      → get_mailbox_by_token token d ≡ ok mb
      → bytes_eq mb.public_key [] ≡ false
      → select_message_with_report codecs token (list_messages_with_reports mb.id 100 d) ref ≡ o
      → of_selected token o ≡ payload text t
      → IsOwn codecs token ref text d × (t ≡ token)
  unfolding is_encrypted
  of_selected-IsOwn token t ref text mb none found key e h = absurd (cc)
  of_selected-IsOwn token t ref text mb (some (m, r)) found key e h =
      elim (Bool-cases (bytes_eq m.payload_enc [])) [
        | inl blank ↦ absurd (ground (arith, h, blank))
        | inr full ↦
            let (row, named) = selected_with_report-IsRow codecs d sound mb.id token ref m r e in
            let same : m.payload_enc ≡ text = ground (arith, h, full) in
            (
              record {
                mailbox = mb;
                message = m;
                mailbox_found = found;
                has_key =
                    λ none_set. absurd (cc (key, bytes_eq_complete mb.public_key [] none_set));
                message_found = row.1;
                message_of = row.0;
                named = named;
                payload_is = same;
                is_sealed =
                    λ blank. absurd (cc (full, bytes_eq_complete m.payload_enc [] (same ∙ blank)));
              },
              ground (arith, h, full),
            )
      ]

  of_mailbox_token-IsOwn :
      (token t ref text : Bytes) (o : Answer Mailbox)
      → get_mailbox_by_token token d ≡ o
      → of_mailbox_token codecs token ref d o ≡ payload text t
      → IsOwn codecs token ref text d × (t ≡ token)
  of_mailbox_token-IsOwn token t ref text not_found e h = absurd (cc)
  of_mailbox_token-IsOwn token t ref text constraint e h = absurd (cc)
  of_mailbox_token-IsOwn token t ref text (ok mb) e h =
      elim (Bool-cases (bytes_eq mb.public_key [])) [
        | inl blank ↦ absurd (cc (rw blank at h))
        | inr key ↦ of_selected-IsOwn token t ref text mb _ e key refl (rw key at h)
      ]

  of_path-IsOwn :
      (o : Option (Bytes × Bytes)) (t text : Bytes)
      → of_path codecs d o ≡ payload text t
      → (ref : Bytes) × (o ≡ some (t, ref)) × IsOwn codecs t ref text d
  of_path-IsOwn none t text h = absurd (cc)
  of_path-IsOwn (some (token, ref)) t text h =
      let (own, same) = of_mailbox_token-IsOwn token t ref text _ refl h in
      (
        ref,
        ap (λ x. some (x, ref)) (sym same),
        subst (λ x. IsOwn codecs x ref text d) (sym same) own,
      )

  -- In a sound database, a payload is only given out for a path with a token and a reference, and it is the
  -- stored one of a sealed message with that reference, in the mailbox with that token, which has a
  -- key.
  pub payload_api-IsOwn :
      (now : ℕ) (r : PayloadRequest) (limiter : Option Limiter) (token text : Bytes)
      → (payload_api codecs now r limiter d).0 ≡ payload text token
      → (ref : Bytes) × (cut (codes "/") (trim_prefix (codes "/api/payload/") r.path)
          ≡ some (token, ref))
        × IsOwn codecs token ref text d
  unfolding payload_api
  payload_api-IsOwn now r limiter token text h =
      elim (Bool-cases (bytes_eq r.method (codes "GET"))) [
        | inr other ↦ absurd (cc (rw other at h))
        | inl get ↦ elim (Bool-cases (ask_limiter limiter (codes "payload:" ++ r.ip) now).1) [
          | inr many ↦ absurd (cc (rw (get, many) at h))
          | inl few ↦ of_path-IsOwn _ token text (rw (get, few) at h)
        ]
      ]
