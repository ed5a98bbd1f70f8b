-- ===== src/Placement/Verdict.antt =====
-- What a placement test says in the end, in whatever order the results arrive.
use sender_report.Base.{
  ℕ, zero, suc, ◌+◌, ◌<◌, ◌≡◌, refl, sym, ap, ◌∙◌, ◌≢◌, ◌⊎◌, inl, inr, Bool, true, false, ◌||◌,
  List, [], ◌∷◌, ◌++◌, arith, ◌==◌, Bool-cases, length, length-append, All,
}
use sender_report.Text.{Bytes, bytes_eq, bytes_eq_sound}
use sender_report.Store.Tables.{PlacementTest, waiting, running, finished, timed_out, Db, ok}
use sender_report.Store.Placements.{get_placement_test}
use sender_report.Placement.Poll.{ProviderResult, folder_status, look_up, Watch, tries_of, poll_one}
use sender_report.Placement.Start.{StartInputs}
use sender_report.Placement.Life.{
  is_no_show, any_no_show, status_after, watched, poll_all, how_many, Life, starts, arrives, other,
}
use sender_report.Placement.Begun.{ipt_start-Begun}
use sender_report.Placement.Owned.{IsTest, Life-Rows, test_row_is}

-- Some lookup from one on, of a number of them, finds a folder.
abbrev pub IsFound : (ℕ → Bytes) → ℕ → ℕ → Type 0
IsFound tries i n = (j : ℕ) × (j < n) × (tries (i + j) ≢ [])

IsFound-later : (tries : ℕ → Bytes) (i n : ℕ) → IsFound tries (suc i) n → IsFound tries i (suc n)
IsFound-later tries i n (j, low, found) =
    let same : i + suc j ≡ suc i + j = omega arith in (suc j, omega (arith, low), rw same found)

IsFound-at_once : (tries : ℕ → Bytes) (i n : ℕ) → tries i ≢ [] → IsFound tries i (suc n)
IsFound-at_once tries i n found =
    let same : i + 0 ≡ i = omega arith in (0, omega arith, rw same found)

not-IsFound_yet :
    (tries : ℕ → Bytes) (i n : ℕ) → tries i ≡ [] → IsFound tries i (suc n) → IsFound tries (suc i) n
not-IsFound_yet tries i n e (zero, low, found) =
    let same : i + 0 ≡ i = omega arith in absurd (found (rw same e))
not-IsFound_yet tries i n e (suc j, low, found) =
    let same : suc i + j ≡ i + suc j = omega arith in (j, omega (arith, low), rw same found)

look_up_lem :
    (tries : ℕ → Bytes) (i n : ℕ)
    → (IsFound tries i n × (bytes_eq (look_up tries i n) [] ≡ false))
      ⊎ ((¬ IsFound tries i n) × (bytes_eq (look_up tries i n) [] ≡ true))
look_up_lem tries i zero = inr ((λ (j, low, found). omega arith), refl)
look_up_lem tries i (suc n) = elim (Bool-cases (bytes_eq (tries i) [])) [
  | inr e ↦ inl (IsFound-at_once tries i n (λ same. absurd (ground (arith, e, same))), rw e e)
  | inl e ↦ elim (look_up_lem tries (suc i) n) [
    | inl (found, f) ↦ inl (IsFound-later tries i n found, rw e f)
    | inr (missed, f) ↦
        let blank = bytes_eq_sound (tries i) [] e in
        inr ((λ found. missed (not-IsFound_yet tries i n blank found)), rw e f)
  ]
]

-- The lookups of an account find the mail before its deadline.
abbrev pub IsSeen : List Bytes → Bytes → ℕ → Watch → Type 0
IsSeen spam_folders token since w = IsFound (tries_of spam_folders token since w) 0 (suc w.ticks)

module _ (spam_folders : List Bytes) (token : Bytes) (since : ℕ) where
  poll_one-IsSeen :
      (w : Watch)
      → (IsSeen spam_folders token since w
          × (is_no_show (poll_one spam_folders token since w).place ≡ false))
        ⊎ ((¬ IsSeen spam_folders token since w)
            × (is_no_show (poll_one spam_folders token since w).place ≡ true))
  unfolding poll_one folder_status
  poll_one-IsSeen w = elim (look_up_lem (tries_of spam_folders token since w) 0 (suc w.ticks)) [
    | inl (seen, e) ↦ inl (seen, ground (arith, e))
    | inr (missed, e) ↦ inr (missed, ground (arith, e))
  ]

  poll_all-IsSeen :
      (ws : List Watch)
      → (All (IsSeen spam_folders token since) ws
          × (any_no_show (poll_all spam_folders token since ws) ≡ false))
        ⊎ ((¬ All (IsSeen spam_folders token since) ws)
            × (any_no_show (poll_all spam_folders token since ws) ≡ true))
  poll_all-IsSeen [] = inl (tt, refl)
  poll_all-IsSeen (w ∷ ws) = elim (poll_one-IsSeen w) [
    | inr (missed, e) ↦ inr ((λ all. missed (all.0)), ground (arith, e))
    | inl (seen, e) ↦ elim (poll_all-IsSeen ws) [
      | inr (missed, f) ↦ inr ((λ all. missed (all.1)), ground (arith, e, f))
      | inl (rest, f) ↦ inl ((seen, rest), ground (arith, e, f))
    ]
  ]

any_no_show-append :
    (xs ys : List ProviderResult) → any_no_show (xs ++ ys) ≡ any_no_show xs || any_no_show ys
any_no_show-append [] ys = refl
any_no_show-append (x ∷ xs) ys = ground (arith, any_no_show-append xs ys)

-- A result changes sides.
crossing : (a b c x : Bool) → (a || b) || (c || (x || false)) ≡ (a || (x || b)) || c
crossing a b c x = ground arith

length-poll_all :
    (spam_folders : List Bytes) (token : Bytes) (since : ℕ) (ws : List Watch)
    → length (poll_all spam_folders token since ws) ≡ how_many ws
length-poll_all spam_folders token since [] = refl
length-poll_all spam_folders token since (w ∷ ws) =
    ap suc (length-poll_all spam_folders token since ws)

length_nil : (rs : List ProviderResult) → rs ≡ [] → length rs ≡ 0
length_nil rs e = rw e refl

how_many-pos : (ws : List Watch) → watched ws ≢ [] → 0 < how_many ws
how_many-pos [] h = absurd (h refl)
how_many-pos (w ∷ ws) h = omega arith

module _ (inputs : StartInputs) (marshal : List ProviderResult → Bytes) (spam_folders : List Bytes)
    (since : ℕ) (mailbox_token token : Bytes) (watches : List Watch) where
  -- No result is lost and none comes twice.
  record Tally (pending collected : List ProviderResult) : Type 0 where
    pub some_account : 0 < how_many watches
    pub as_many : length pending + length collected ≡ how_many watches
    pub no_shows :
        any_no_show pending || any_no_show collected
        ≡ any_no_show (poll_all spam_folders token since watches)

  Life-Tally :
      {pending collected : List ProviderResult} {d : Db}
      → Life inputs marshal spam_folders since mailbox_token token watches pending collected d
      → Tally pending collected
  Life-Tally (starts now ip limiter d tag picked expires unavailable sound answer w) =
      let (mb, found, b) =
        ipt_start-Begun inputs now token tag picked expires unavailable d ip mailbox_token limiter
          answer in
      record {
        some_account = how_many-pos watches (λ e. b.some_picked (sym w ∙ e));
        as_many = omega (arith, length-poll_all spam_folders token since watches);
        no_shows = ground arith;
      }
  Life-Tally (arrives {collected = rs} pre r post life) =
      let k = Life-Tally life in
      record {
        some_account = k.some_account;
        as_many = omega (
          arith,
          k.as_many,
          length-append pre (r ∷ post),
          length-append pre post,
          length-append rs (r ∷ []),
        );
        no_shows =
            rw (any_no_show-append pre post, any_no_show-append rs (r ∷ []))
              (crossing (any_no_show pre) (any_no_show post) (any_no_show rs) (is_no_show r.place)
                ∙ (ap (λ b. b || any_no_show rs) (sym (any_no_show-append pre (r ∷ post)))
                    ∙ k.no_shows));
      }
  Life-Tally (other q foreign life) = Life-Tally life

  -- What the test says: it waits or runs while a result is missing; when the last one has come, it is
  -- finished if every account has seen the mail, and timed out if not.
  pub record Conclusion (pending collected : List ProviderResult) (t : PlacementTest) : Type 1 where
    pub before : pending ≢ [] → (t.test_status ≡ waiting) ⊎ (t.test_status ≡ running)
    pub after :
        pending ≡ []
        → ((t.test_status ≡ finished) × All (IsSeen spam_folders token since) watches)
          ⊎ ((t.test_status ≡ timed_out) × (¬ All (IsSeen spam_folders token since) watches))
    pub so_far : collected ≢ [] → t.results ≡ marshal collected

  verdict_of :
      (pending collected : List ProviderResult) (k : ℕ) (t : PlacementTest)
      → Tally pending collected
      → IsTest marshal (how_many watches) k collected t
      → Conclusion pending collected t
  unfolding status_after
  verdict_of pending [] k t h own = record {
    before = λ some_left. inl own.1;
    after = λ none_left.
        absurd (omega (arith, h.as_many, h.some_account, length_nil pending none_left));
    so_far = λ some_come. absurd (some_come refl);
  }
  verdict_of [] (r ∷ rs) k t h own =
      let all_there : (length (r ∷ rs) == how_many watches) ≡ true = ground (arith, h.as_many) in
      record {
        before = λ some_left. absurd (some_left refl);
        after = λ none_left. elim (poll_all-IsSeen spam_folders token since watches) [
          | inl (seen, e) ↦ inl (ground (arith, own.1.0, all_there, h.no_shows, e), seen)
          | inr (missed, e) ↦ inr (ground (arith, own.1.0, all_there, h.no_shows, e), missed)
        ];
        so_far = λ some_come. own.1.1;
      }
  verdict_of (p ∷ pending) (r ∷ rs) k t h own =
      let some_left : (length (r ∷ rs) == how_many watches) ≡ false = ground (arith, h.as_many) in
      record {
        before = λ ne. inr (ground (arith, own.1.0, some_left));
        after = λ e. absurd (cc e);
        so_far = λ some_come. own.1.1;
      }

  -- In every state of the life of a test, in whatever order the results of its accounts arrive and whatever
  -- else happens to the store: while a result is missing, the stored test waits or runs; when all have come,
  -- it is finished if the lookups of every account found the mail before its deadline, and timed out if
  -- those of some account did not; the stored results are those that came, in their order.
  pub Life-Conclusion :
      {pending collected : List ProviderResult} {d : Db}
      → Life inputs marshal spam_folders since mailbox_token token watches pending collected d
      → (t : PlacementTest) → get_placement_test token d ≡ ok t
      → Conclusion pending collected t
  Life-Conclusion {pending = pending} {collected = collected} {d = d} life t stored =
      let (sound, k, rows) =
        Life-Rows inputs marshal spam_folders since mailbox_token token watches life in
      let (own, named) =
        test_row_is inputs marshal spam_folders since mailbox_token token watches k _ d t rows
          stored in
      verdict_of pending collected k t (Life-Tally life) own
