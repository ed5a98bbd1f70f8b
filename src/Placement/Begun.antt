-- ===== src/Placement/Begun.antt =====
-- A start that is answered with a token has stored a test for the mailbox that was named.
use sender_report.Base.{
  ℕ, ◌+◌, ◌≡◌, refl, sym, ◌≢◌, inl, inr, Option, none, some, List, [], ◌∷◌, map, arith, Bool-cases,
  filter,
}
use sender_report.Text.{Bytes}
use sender_report.RateLimit.{Limiter, allow}
use sender_report.Seeds.{Account, Provider, SeedInfo, filter_providers, pick}
use sender_report.Store.Tables.{Mailbox, Db, Answer, ok, not_found, constraint}
use sender_report.Store.Mailboxes.{get_mailbox_by_token}
use sender_report.Store.Placements.{create_placement_test}
use sender_report.Placement.Access.{new_placement_token}
use sender_report.Placement.Start.{
  StartInputs, Started, started, is_healthy, after_insert, with_accounts, with_token, with_healthy,
  with_providers, with_body, with_mailbox, with_seeds, limiter_key, ipt_start,
}

pub record Begun (inputs : StartInputs) (now : ℕ) (token : Bytes)
    (picked : List (SeedInfo × Account)) (mb : Mailbox) (d d' : Db) : Type 0 where
  pub seeds_text : Bytes
  pub token_made :
      new_placement_token inputs.encode_hex inputs.random inputs.ipt_token_length ≡ some token
  pub some_picked : picked ≢ []
  pub stored :
      create_placement_test now mb.id token seeds_text (now + inputs.ipt_test_duration) d
      ≡ (ok tt, d')

-- Who picks from some provider gets an account.
pick-some :
    (rand : ℕ → ℕ → ℕ) (p : Provider) (ps : List Provider) (q : List (SeedInfo × Account))
    → pick rand (p ∷ ps) ≡ some q
    → q ≢ []
unfolding pick
pick-some rand p ps q e = λ none_left. ground (arith, e, none_left)

module _ (inputs : StartInputs) (now : ℕ) (token tag : Bytes) (picked : List (SeedInfo × Account))
    (expires : ℕ) (unavailable : List Bytes) (d : Db) where
  abbrev IsStarted : Started × Db → Type 0
  IsStarted r = r.0 ≡ started token tag picked expires unavailable

  after_insert_lem :
      (t : Bytes) (p : List (SeedInfo × Account)) (e : ℕ) (u : List Bytes)
      → (x : Answer (Unit {0}) × Db) → IsStarted (after_insert t p e u x)
      → (t ≡ token) × (p ≡ picked) × (x ≡ (ok tt, (after_insert t p e u x).1))
  after_insert_lem t p e u (ok tt, d') h = (cc, cc, refl)
  after_insert_lem t p e u (not_found, d') h = absurd (cc)
  after_insert_lem t p e u (constraint, d') h = absurd (cc)

  with_accounts-Begun :
      (mb : Mailbox) (t : Bytes) (u : List Bytes) (o : Option (List (SeedInfo × Account)))
      → new_placement_token inputs.encode_hex inputs.random inputs.ipt_token_length ≡ some t
      → ((q : List (SeedInfo × Account)) → o ≡ some q → q ≢ [])
      → IsStarted (with_accounts inputs now mb t u d o)
      → Begun inputs now token picked mb d (with_accounts inputs now mb t u d o).1
  with_accounts-Begun mb t u none made full h = absurd (cc)
  with_accounts-Begun mb t u (some p) made full h =
      let (same, same_picked, stored) = after_insert_lem t p _ u _ h in
      record {
        seeds_text = inputs.marshal_seeds (map (λ s. s.0) p);
        token_made = cc (made, same);
        some_picked = rw (sym same_picked) (full p refl);
        stored = rw (sym same) stored;
      }

  with_token-Begun :
      (mb : Mailbox) (p : Provider) (ps : List Provider) (u : List Bytes) (o : Option Bytes)
      → new_placement_token inputs.encode_hex inputs.random inputs.ipt_token_length ≡ o
      → IsStarted (with_token inputs now mb (p ∷ ps) u d o)
      → Begun inputs now token picked mb d (with_token inputs now mb (p ∷ ps) u d o).1
  with_token-Begun mb p ps u none made h = absurd (cc)
  with_token-Begun mb p ps u (some t) made h =
      with_accounts-Begun mb t u (pick inputs.rand (p ∷ ps)) made (pick-some inputs.rand p ps) h

  with_healthy-Begun :
      (mb : Mailbox) (u : List Bytes) (ps : List Provider)
      → IsStarted (with_healthy inputs now mb u d ps)
      → Begun inputs now token picked mb d (with_healthy inputs now mb u d ps).1
  with_healthy-Begun mb u [] h = absurd (cc)
  with_healthy-Begun mb u (p ∷ ps) h = with_token-Begun mb p ps u _ refl h

  with_providers-Begun :
      (mb : Mailbox) (ps : List Provider)
      → IsStarted (with_providers inputs now mb d ps)
      → Begun inputs now token picked mb d (with_providers inputs now mb d ps).1
  with_providers-Begun mb [] h = absurd (cc)
  with_providers-Begun mb (p ∷ ps) h =
      with_healthy-Begun mb _ (filter (is_healthy inputs.health) (p ∷ ps)) h

  with_body-Begun :
      (seeds : List Provider) (mb : Mailbox) (o : Option (List Bytes))
      → IsStarted (with_body inputs now seeds mb d o)
      → Begun inputs now token picked mb d (with_body inputs now seeds mb d o).1
  with_body-Begun seeds mb none h = absurd (cc)
  with_body-Begun seeds mb (some selected) h =
      with_providers-Begun mb (filter_providers seeds selected) h

  with_mailbox-Begun :
      (seeds : List Provider) (o : Answer Mailbox)
      → IsStarted (with_mailbox inputs now seeds d o)
      → (mb : Mailbox) × (o ≡ ok mb)
        × Begun inputs now token picked mb d (with_mailbox inputs now seeds d o).1
  with_mailbox-Begun seeds (ok mb) h = (mb, refl, with_body-Begun seeds mb inputs.body h)
  with_mailbox-Begun seeds not_found h = absurd (cc)
  with_mailbox-Begun seeds constraint h = absurd (cc)

  with_seeds-Begun :
      (o : Option (List Provider)) (ip mailbox_token : Bytes) (limiter : Limiter)
      → (with_seeds inputs now o ip mailbox_token limiter d).0
        ≡ started token tag picked expires unavailable
      → (mb : Mailbox) × (get_mailbox_by_token mailbox_token d ≡ ok mb)
        × Begun inputs now token picked mb d (with_seeds inputs now o ip mailbox_token limiter d).2
  with_seeds-Begun none ip mailbox_token limiter h = absurd (cc)
  with_seeds-Begun (some seeds) ip mailbox_token limiter h =
      elim (Bool-cases (allow limiter (limiter_key ip) now).1) [
        | inl e ↦ rw e (with_mailbox-Begun seeds (get_mailbox_by_token mailbox_token d) (rw e at h))
        | inr e ↦ absurd (cc (rw e at h))
      ]

  pub ipt_start-Begun :
      (ip mailbox_token : Bytes) (limiter : Limiter)
      → (ipt_start inputs now ip mailbox_token limiter d).0
        ≡ started token tag picked expires unavailable
      → (mb : Mailbox) × (get_mailbox_by_token mailbox_token d ≡ ok mb)
        × Begun inputs now token picked mb d (ipt_start inputs now ip mailbox_token limiter d).2
  unfolding ipt_start
  ipt_start-Begun ip mailbox_token limiter h =
      with_seeds-Begun inputs.seeds ip mailbox_token limiter h
