-- ===== src/Placement/Owned.antt =====
-- Who sees a placement test, for as long as it is stored.
use sender_report.Base.{
  ℕ, ◌+◌, ◌*◌, ◌/◌, ◌≤◌, ◌<◌, ◌≡◌, refl, sym, ap, ◌∙◌, ◌↔◌, inl, inr, true, false, ◌||◌, Option,
  none, some, List, [], ◌∷◌, ◌++◌, arith, ltb, leb, ◌==◌, Bool-cases, length, take, length-take,
  All, All-mono,
}
use mathlib.Core.Path.{subst}
use sender_report.Text.{Bytes, bytes_eq, bytes_eq_sound, bytes_eq_complete}
use sender_report.Store.Tables.{
  Mailbox, PlacementTest, waiting, Db, Answer, ok, not_found, constraint, any_row,
}
use sender_report.Store.Rows.{find_row-some, any_row-none}
use sender_report.Store.Sound.{IsSound, same_mailbox, same_token, test_of}
use sender_report.Store.Mailboxes.{get_mailbox_by_token}
use sender_report.Store.Placements.{create_placement_test, get_placement_test}
use sender_report.Store.Operations.{Request, set_result, start_test, run, run_all}
use sender_report.Store.Counts.{run_all-IsSound}
use sender_report.Placement.Poll.{ProviderResult, Watch}
use sender_report.Placement.Access.{
  min_ipt_token_length, max_ipt_token_length, cut_token, new_placement_token,
  placement_token_accepted, if_open, placement_test_for, shown, shown_test, shown_to, ipt_result,
}
use sender_report.Placement.Start.{StartInputs}
use sender_report.Placement.Life.{Life, starts, arrives, other, status_after, how_many}
use sender_report.Placement.Rows.{Rows, find_row-All, start_test-Rows, run-Rows, own_result-Rows}
use sender_report.Placement.Found.{
  found_any_row, Distinct-unique, same_mailbox_turn, same_token_turn,
}
use sender_report.Placement.Begun.{ipt_start-Begun}

run-IsSound : (q : Request) (d : Db) → IsSound d → IsSound (run q d)
unfolding run_all
run-IsSound q d h = run_all-IsSound (q ∷ []) d h

module _ (marshal : List ProviderResult → Bytes) (n : ℕ) where
  -- What is written of the results that came.
  abbrev pub HasCome : List ProviderResult → PlacementTest → Type 0
  HasCome [] t = t.test_status ≡ waiting
  HasCome (r ∷ rs) t = (t.test_status ≡ status_after n (r ∷ rs)) × (t.results ≡ marshal (r ∷ rs))

  HasCome-append :
      (rs : List ProviderResult) (r : ProviderResult) (t : PlacementTest)
      → t.test_status ≡ status_after n (rs ++ r ∷ [])
      → t.results ≡ marshal (rs ++ r ∷ [])
      → HasCome (rs ++ r ∷ []) t
  HasCome-append [] r t s m = (s, m)
  HasCome-append (x ∷ rs) r t s m = (s, m)

  -- The test of a mailbox, with what came.
  abbrev pub IsTest : ℕ → List ProviderResult → PlacementTest → Type 0
  IsTest k rs t = (t.mailbox_id ≡ k) × HasCome rs t

mailbox_named :
    (token : Bytes) (d : Db) (mb : Mailbox)
    → IsSound d
    → get_mailbox_by_token token d ≡ ok mb
    → (mb.token ≡ token)
      × (mb.id < d.next_mailbox)
      × All (λ (m : Mailbox). m.id ≡ mb.id → m.token ≡ token) d.mailboxes
unfolding get_mailbox_by_token
mailbox_named token d mb sound e =
    let keys = sound.1.mailbox_keys in
    let (small, named) =
      find_row-All (λ (m : Mailbox). m.id < d.next_mailbox) _ d.mailboxes mb keys.0 e in
    let token_is = bytes_eq_sound mb.token token named in
    (
      token_is,
      small,
      All-mono (λ (m : Mailbox). same_mailbox m mb ≡ true → m ≡ mb)
          (λ (m : Mailbox). m.id ≡ mb.id → m.token ≡ token)
          (λ m one same. ap (λ (z : Mailbox). z.token) (one (ground (arith, same))) ∙ token_is)
          d.mailboxes (Distinct-unique same_mailbox same_mailbox_turn _ d.mailboxes mb keys.1 e),
    )

-- No test has the token before the start, so the new one is all there is with it.
begun-Rows :
    (marshal : List ProviderResult → Bytes) (n now : ℕ) (token mailbox_token seeds : Bytes)
    (expires : ℕ) (mb : Mailbox) (d d' : Db)
    → IsSound d
    → get_mailbox_by_token mailbox_token d ≡ ok mb
    → create_placement_test now mb.id token seeds expires d ≡ (ok tt, d')
    → Rows token mb.id mailbox_token (IsTest marshal n mb.id []) d'
unfolding create_placement_test
begun-Rows marshal n now token mailbox_token seeds expires mb d d' sound found made =
    let (token_is, small, named) = mailbox_named mailbox_token d mb sound found in
    elim (Bool-cases (any_row (λ t. bytes_eq t.placement_token token) d.tests)) [
      | inl e ↦ absurd (cc (rw e at made))
      | inr e ↦
          let before : Rows token mb.id mailbox_token (IsTest marshal n mb.id []) d = record {
            tests_are =
                All-mono (λ (t : PlacementTest). bytes_eq t.placement_token token ≡ false)
                  (λ t. bytes_eq t.placement_token token ≡ true → IsTest marshal n mb.id [] t)
                  (λ t no yes. absurd (cc (no, yes))) d.tests (any_row-none _ d.tests e);
            mailbox_is = named;
            id_given = small;
          } in
          subst (Rows token mb.id mailbox_token (IsTest marshal n mb.id [])) (ap (λ r. r.1) made) (
            start_test-Rows token mb.id mailbox_token (IsTest marshal n mb.id []) now mb.id token
              seeds expires d (λ same. (refl, refl)) before)
    ]

module _ (inputs : StartInputs) (marshal : List ProviderResult → Bytes) (spam_folders : List Bytes)
    (since : ℕ) (mailbox_token token : Bytes) (watches : List Watch) where
  -- The test in every state of its life.
  pub Life-Rows :
      {pending collected : List ProviderResult} {d : Db}
      → Life inputs marshal spam_folders since mailbox_token token watches pending collected d
      → IsSound d
        × (k : ℕ) × Rows token k mailbox_token (IsTest marshal (how_many watches) k collected) d
  unfolding create_placement_test run
  Life-Rows (starts now ip limiter d tag picked expires unavailable sound answer w) =
      let (mb, found, b) =
        ipt_start-Begun inputs now token tag picked expires unavailable d ip mailbox_token limiter
          answer in
      (
        subst IsSound (ap (λ r. r.1) b.stored) (
            run-IsSound (start_test now mb.id token b.seeds_text (now + inputs.ipt_test_duration)) d
              sound),
        mb.id,
        begun-Rows marshal (how_many watches) now token mailbox_token b.seeds_text _ mb d _ sound
            found b.stored,
      )
  Life-Rows (arrives {d = d} {collected = rs} pre r post life) =
      let (sound, k, rows) = Life-Rows life in
      (
        run-IsSound
            (set_result token (marshal (rs ++ r ∷ []))
              (status_after (how_many watches) (rs ++ r ∷ [])))
            d sound,
        k,
        own_result-Rows token k mailbox_token (IsTest marshal (how_many watches) k rs)
            (IsTest marshal (how_many watches) k (rs ++ r ∷ [])) _ _ d
            (λ t old. (old.0, HasCome-append marshal (how_many watches) rs r _ refl refl)) rows,
      )
  Life-Rows (other {d = d} q foreign life) =
      let (sound, k, rows) = Life-Rows life in
      (run-IsSound q d sound, k, run-Rows token k mailbox_token _ q d foreign rows)

-- The test that a mailbox is given is the stored one, and is of the mailbox.
placement_test_for-ok :
    (n : ℕ) (mb : Mailbox) (token : Bytes) (now : ℕ) (o : Answer PlacementTest) (t : PlacementTest)
    → if_open n mb token now o ≡ ok t
    → (o ≡ ok t) × (t.mailbox_id ≡ mb.id)
placement_test_for-ok n mb token now not_found t e = absurd (cc)
placement_test_for-ok n mb token now constraint t e = absurd (cc)
placement_test_for-ok n mb token now (ok x) t e = elim (Bool-cases (x.mailbox_id == mb.id)) [
  | inr f ↦ absurd (ground (arith, e, f))
  | inl f ↦ elim (Bool-cases (placement_token_accepted n token x now)) [
    | inr g ↦ absurd (ground (arith, e, f, g))
    | inl g ↦
        let same : x ≡ t = ground (arith, e, f, g) in
        (ap ok same, subst (λ z. z.mailbox_id ≡ mb.id) same (ground (arith, f)))
  ]
]

shown_test-shown :
    (x : Answer PlacementTest) (t : PlacementTest) → shown_test x ≡ shown t → x ≡ ok t
shown_test-shown (ok x) t e = cc
shown_test-shown not_found t e = absurd (cc)
shown_test-shown constraint t e = absurd (cc)

shown_to-shown :
    (n : ℕ) (token : Bytes) (now : ℕ) (d : Db) (o : Answer Mailbox) (t : PlacementTest)
    → shown_to n token now d o ≡ shown t
    → (mb : Mailbox) × (o ≡ ok mb) × (placement_test_for n mb token now d ≡ ok t)
shown_to-shown n token now d (ok mb) t e = (mb, refl, shown_test-shown _ t e)
shown_to-shown n token now d not_found t e = absurd (cc)
shown_to-shown n token now d constraint t e = absurd (cc)

cut_token-length :
    (encode_hex : Bytes → Bytes) (n : ℕ) (o : Option Bytes) (token : Bytes)
    → ((bytes : Bytes) → length (encode_hex bytes) ≡ 2 * length bytes)
    → ((bytes : Bytes) → o ≡ some bytes → length bytes ≡ (n + 1) / 2)
    → cut_token encode_hex n o ≡ some token
    → length token ≡ n
cut_token-length encode_hex n none token two full e = absurd (cc)
cut_token-length encode_hex n (some bytes) token two full e =
    let same : take n (encode_hex bytes) ≡ token = ground (arith, e) in
    let long : n ≤ length (encode_hex bytes) = omega (arith, two bytes, full bytes refl) in
    subst (λ s. length s ≡ n) same (length-take n _ long)

-- What the code relies on of the hex codec and the random bytes.
pub record HasTokenLaws (inputs : StartInputs) : Type 0 where
  pub two_digits : (bytes : Bytes) → length (inputs.encode_hex bytes) ≡ 2 * length bytes
  pub all_filled : (n : ℕ) (bytes : Bytes) → inputs.random n ≡ some bytes → length bytes ≡ n

new_placement_token-length :
    (inputs : StartInputs) (token : Bytes)
    → HasTokenLaws inputs
    → new_placement_token inputs.encode_hex inputs.random inputs.ipt_token_length ≡ some token
    → length token ≡ inputs.ipt_token_length
unfolding new_placement_token
new_placement_token-length inputs token laws e =
    let n = inputs.ipt_token_length in
    elim (Bool-cases (ltb n min_ipt_token_length || ltb max_ipt_token_length n)) [
      | inl out ↦ absurd (cc (rw out at e))
      | inr in_bounds ↦
          cut_token-length inputs.encode_hex n (inputs.random ((n + 1) / 2)) token laws.two_digits
            (λ bytes. laws.all_filled ((n + 1) / 2) bytes) (rw in_bounds at e)
    ]

module _ (inputs : StartInputs) (marshal : List ProviderResult → Bytes) (spam_folders : List Bytes)
    (since : ℕ) (mailbox_token token : Bytes) (watches : List Watch) where
  Life-length :
      {pending collected : List ProviderResult} {d : Db}
      → HasTokenLaws inputs
      → Life inputs marshal spam_folders since mailbox_token token watches pending collected d
      → length token ≡ inputs.ipt_token_length
  Life-length laws (starts now ip limiter d tag picked expires unavailable sound answer w) =
      let (mb, found, b) =
        ipt_start-Begun inputs now token tag picked expires unavailable d ip mailbox_token limiter
          answer in
      new_placement_token-length inputs token laws b.token_made
  Life-length laws (arrives pre r post life) = Life-length laws life
  Life-length laws (other q foreign life) = Life-length laws life

  -- The mailbox that started a stored test is there and is found by its token.
  owner_found :
      (k : ℕ) (P : PlacementTest → Type 0) (d : Db) (t : PlacementTest)
      → IsSound d
      → Rows token k mailbox_token P d
      → get_placement_test token d ≡ ok t
      → t.mailbox_id ≡ k
      → (mb : Mailbox) × (get_mailbox_by_token mailbox_token d ≡ ok mb) × (mb.id ≡ k)
  unfolding get_placement_test get_mailbox_by_token
  owner_found k P d t sound rows found of_k =
      let (referred, named) = find_row-All _ _ d.tests t sound.0.tests_in found in
      let (b, b_found) = find_row-some (test_of t) d.mailboxes referred in
      let (b_token, b_id) = find_row-All _ _ d.mailboxes b rows.mailbox_is b_found in
      let b_is : b.token ≡ mailbox_token = b_token (ground (arith, b_id, of_k)) in
      let (mb, mb_found) =
        find_row-some (λ (m : Mailbox). bytes_eq m.token mailbox_token) d.mailboxes
          (found_any_row (test_of t) (λ m. bytes_eq m.token mailbox_token) d.mailboxes b b_found
            (bytes_eq_complete b.token mailbox_token b_is)) in
      let (one, mb_is) =
        find_row-All (λ (m : Mailbox). m.id < d.next_mailbox) (λ m. bytes_eq m.token mailbox_token)
          d.mailboxes mb sound.1.mailbox_keys.0 mb_found in
      let same_names = bytes_eq_sound mb.token mailbox_token mb_is in
      let (b_mb, still) =
        find_row-All (λ (m : Mailbox). same_token m mb ≡ true → m ≡ mb) (test_of t) d.mailboxes b
          (Distinct-unique same_token same_token_turn _ d.mailboxes mb sound.1.mailbox_keys.2
            mb_found)
          b_found in
      let b_is_mb : b ≡ mb = b_mb (bytes_eq_complete b.token mb.token (cc (b_is, same_names))) in
      (mb, mb_found, subst (λ (m : Mailbox). m.id ≡ k) b_is_mb (ground (arith, b_id, of_k)))

  pub test_row_is :
      (k : ℕ) (P : PlacementTest → Type 0) (d : Db) (t : PlacementTest)
      → Rows token k mailbox_token P d
      → get_placement_test token d ≡ ok t
      → P t × (bytes_eq t.placement_token token ≡ true)
  unfolding get_placement_test
  test_row_is k P d t rows stored =
      let (own, named) = find_row-All _ _ d.tests t rows.tests_are stored in (own named, named)

  Life-accepted :
      {pending collected : List ProviderResult} {d : Db}
      → HasTokenLaws inputs
      → Life inputs marshal spam_folders since mailbox_token token watches pending collected d
      → (t : PlacementTest) (now : ℕ)
      → placement_token_accepted inputs.ipt_token_length token t now ≡ true
  unfolding placement_token_accepted
  Life-accepted laws life t now =
      let size = Life-length laws life in
      let long : leb inputs.ipt_token_length (length token) ≡ true = ground (arith, size) in rw long

  -- In every state of the life of a test, whatever else has happened to the store: a result is shown to
  -- exactly who names the token of the mailbox that started the test, as long as the test is stored, at
  -- any time, and it is the stored one.
  pub Life-shown_iff :
      {pending collected : List ProviderResult} {d : Db}
      → HasTokenLaws inputs
      → Life inputs marshal spam_folders since mailbox_token token watches pending collected d
      → (who : Bytes) (now : ℕ) (t : PlacementTest)
      → (ipt_result inputs.ipt_token_length who token now d ≡ shown t)
        ↔ ((who ≡ mailbox_token) × (get_placement_test token d ≡ ok t))
  unfolding ipt_result placement_test_for get_mailbox_by_token
  Life-shown_iff {d = d} laws life who now t =
      let (sound, k, rows) =
        Life-Rows inputs marshal spam_folders since mailbox_token token watches life in
      (
        (λ e.
            let (mb, found, given) = shown_to-shown _ token now d _ t e in
            let (stored, of_mb) =
              placement_test_for-ok _ mb token now (get_placement_test token d) t given in
            let (own, named) = test_row_is k _ d t rows stored in
            let (mb_token, mb_is) = find_row-All _ _ d.mailboxes mb rows.mailbox_is found in
            (sym (bytes_eq_sound mb.token who mb_is) ∙ mb_token (sym of_mb ∙ own.0), stored)),
        (λ (same, stored).
            let (own, named) = test_row_is k _ d t rows stored in
            let (mb, found, of_k) = owner_found k _ d t sound rows stored own.0 in
            let accepted = Life-accepted laws life t now in
            let here : (t.mailbox_id == mb.id) ≡ true = ground (arith, own, of_k) in
            rw (same, found, stored, here, accepted) refl),
      )
