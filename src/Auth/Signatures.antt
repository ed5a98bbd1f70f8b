-- ===== src/Auth/Signatures.antt =====
-- Which of several DKIM signatures `evaluateDKIM` reports.
use sender_report.Base.{
  ℕ, zero, suc, ◌≤◌, ◌≡◌, refl, sym, ap, ◌⊎◌, inl, inr, Bool, true, false, List, [], ◌∷◌, Option,
  none, some, arith, Bool-cases, if◌then◌else◌, get_elem?, All,
}
use sender_report.Text.{Bytes}
use sender_report.Spf.Parse.{SpfResult, pass, fail, permerror, temperror}
use sender_report.Auth.Dkim.{
  DkimOutcome, DkimLibrary, Verification, passed, failed_by, signing_domain, dkim_outcome,
  any_failure, find_entry, dkim_failure, evaluate_dkim,
}

module _ (lib : DkimLibrary) where
  abbrev V : Type 0
  V = Verification lib

  -- From the best to the worst: passed, a temporary error, a permanent error, any other failure.
  abbrev pub rank : Verification lib → ℕ
  rank v = elim (v.err) [
    | none ↦ 0
    | some e ↦ if lib.is_temp_fail e then 1 else if lib.is_perm_fail e then 2 else 3
  ]

  abbrev pub rank_result : ℕ → SpfResult
  rank_result zero = pass
  rank_result (suc zero) = temperror
  rank_result (suc (suc zero)) = permerror
  rank_result (suc (suc (suc n))) = fail

  -- An entry that is nil, or a signature of which something holds.
  abbrev pub OnEntry : (Verification lib → Type 0) → Option (Verification lib) → Type 0
  OnEntry P none = Unit
  OnEntry P (some v) = P v

  -- An entry is reported that no other is better than, or all are nil.
  abbrev pub IsBest : DkimOutcome → List (Option (Verification lib)) → Type 0
  IsBest o vs =
      ((w : Verification lib) × (i : ℕ) × (get_elem? vs i ≡ some (some w))
        × (o.result ≡ rank_result (rank w))
        × (o.domain ≡ signing_domain lib w)
        × All (OnEntry (λ v. rank w ≤ rank v)) vs)
      ⊎ ((o.result ≡ fail) × (o.domain ≡ []) × All (λ e. e ≡ none) vs)

  find_entry-some :
      (test : V → Bool) (vs : List (Option V)) (w : V)
      → find_entry lib test vs ≡ some w
      → (i : ℕ) × (get_elem? vs i ≡ some (some w)) × (test w ≡ true)
  unfolding find_entry
  find_entry-some test [] w e = absurd (cc)
  find_entry-some test (none ∷ vs) w e =
      let (i, at, t) = find_entry-some test vs w e in (suc i, at, t)
  find_entry-some test (some v ∷ vs) w e = elim (Bool-cases (test v)) [
    | inl h ↦
        let same : v ≡ w = ground (arith, h, e) in
        (0, ap (λ x. some (some x)) same, rw (sym same) h)
    | inr h ↦ let (i, at, t) = find_entry-some test vs w (ground (arith, h, e)) in (suc i, at, t)
  ]

  find_entry-none :
      (test : V → Bool) (vs : List (Option V))
      → find_entry lib test vs ≡ none
      → All (OnEntry (λ v. test v ≡ false)) vs
  unfolding find_entry
  find_entry-none test [] e = tt
  find_entry-none test (none ∷ vs) e = (tt, find_entry-none test vs e)
  find_entry-none test (some v ∷ vs) e = elim (Bool-cases (test v)) [
    | inl h ↦ absurd (ground (arith, h, e))
    | inr h ↦ (h, find_entry-none test vs (ground (arith, h, e)))
  ]

  passed-rank : (w : V) → passed lib w ≡ true → rank w ≡ 0
  passed-rank w e = ground arith

  temp_rank : (w : V) → failed_by lib (lib.is_temp_fail) w ≡ true → rank w ≡ 1
  temp_rank w e = ground arith

  perm_rank :
      (w : V)
      → failed_by lib (lib.is_temp_fail) w ≡ false
      → failed_by lib (lib.is_perm_fail) w ≡ true
      → rank w ≡ 2
  perm_rank w t e = ground arith

  rank_past_pass : (w : V) → passed lib w ≡ false → 1 ≤ rank w
  rank_past_pass w e = ground arith

  rank_past_temp :
      (w : V) → passed lib w ≡ false → failed_by lib (lib.is_temp_fail) w ≡ false → 2 ≤ rank w
  rank_past_temp w p t = ground arith

  rank_past_perm :
      (w : V)
      → passed lib w ≡ false
      → failed_by lib (lib.is_temp_fail) w ≡ false
      → failed_by lib (lib.is_perm_fail) w ≡ false
      → rank w ≡ 3
  rank_past_perm w p t q = ground arith

  merge :
      (P Q R : V → Type 0)
      → ((v : V) → P v → Q v → R v)
      → (vs : List (Option V)) → All (OnEntry P) vs
      → All (OnEntry Q) vs
      → All (OnEntry R) vs
  merge P Q R f [] p q = tt
  merge P Q R f (none ∷ vs) p q = (tt, merge P Q R f vs p.1 q.1)
  merge P Q R f (some v ∷ vs) p q = (f v p.0 q.0, merge P Q R f vs p.1 q.1)

  -- Whatever holds of a signature holds of those in a list.
  each : (P : V → Type 0) → ((v : V) → P v) → (vs : List (Option V)) → All (OnEntry P) vs
  each P f [] = tt
  each P f (none ∷ vs) = (tt, each P f vs)
  each P f (some v ∷ vs) = (f v, each P f vs)

  only_nil : (vs : List (Option V)) → All (OnEntry (λ v. true ≡ false)) vs → All (λ e. e ≡ none) vs
  only_nil [] h = tt
  only_nil (none ∷ vs) h = (refl, only_nil vs h.1)
  only_nil (some v ∷ vs) h = absurd (cc (h.0))

  entry :
      (P : V → Type 0) (vs : List (Option V)) (i : ℕ) (w : V)
      → get_elem? vs i ≡ some (some w)
      → All (OnEntry P) vs
      → P w
  entry P [] i w at h = absurd (cc)
  entry P (v ∷ vs) (suc i) w at h = entry P vs i w at h.1
  entry P (none ∷ vs) zero w at h = absurd (ground arith)
  entry P (some v ∷ vs) zero w at h = let same : v ≡ w = ground arith in rw (sym same) h.0

  module _ (vs : List (Option V)) (detail : Bytes) where
    reported :
        (r : SpfResult) (w : V) (i : ℕ)
        → get_elem? vs i ≡ some (some w)
        → r ≡ rank_result (rank w)
        → All (OnEntry (λ v. rank w ≤ rank v)) vs
        → IsBest (dkim_outcome r (signing_domain lib w) detail) vs
    reported r w i at e h = inl (w, i, at, e, refl, h)

    module _ (hp : find_entry lib (passed lib) vs ≡ none) where
      unpassed : All (OnEntry (λ v. passed lib v ≡ false)) vs
      unpassed = find_entry-none (passed lib) vs hp

      module _ (ht : find_entry lib (failed_by lib (lib.is_temp_fail)) vs ≡ none) where
        past_temp : All (OnEntry (λ v. 2 ≤ rank v)) vs
        past_temp =
            merge _ _ _ rank_past_temp vs unpassed
              (find_entry-none (failed_by lib (lib.is_temp_fail)) vs ht)

        past_perm :
            find_entry lib (failed_by lib (lib.is_perm_fail)) vs ≡ none
            → All (OnEntry (λ v. rank v ≡ 3)) vs
        past_perm hq =
            merge _ _ (λ v. rank v ≡ 3) (λ v p q. ground (arith, p, q)) vs past_temp
              (find_entry-none (failed_by lib (lib.is_perm_fail)) vs hq)

        on_any :
            (r : Option V)
            → find_entry lib (failed_by lib (lib.is_perm_fail)) vs ≡ none
            → find_entry lib (any_failure lib) vs ≡ r
            → IsBest (dkim_failure lib vs detail) vs
        unfolding dkim_failure
        on_any none hq h =
            rw (dkim_failure, ht, hq, h)
              (inr (refl, refl, only_nil vs (find_entry-none (any_failure lib) vs h)))
        on_any (some w) hq h =
            let (i, at, t) = find_entry-some (any_failure lib) vs w h in
            let r = entry _ vs i w at (past_perm hq) in
            rw (dkim_failure, ht, hq, h)
              (reported fail w i at (rw r)
                (rw r (merge _ _ _ (λ v p q. omega (arith, p)) vs (past_perm hq) (past_perm hq))))

        on_perm :
            (r : Option V)
            → find_entry lib (failed_by lib (lib.is_perm_fail)) vs ≡ r
            → IsBest (dkim_failure lib vs detail) vs
        unfolding dkim_failure
        on_perm none h = on_any (find_entry lib (any_failure lib) vs) h refl
        on_perm (some w) h =
            let (i, at, t) = find_entry-some (failed_by lib (lib.is_perm_fail)) vs w h in
            let temp =
              entry _ vs i w at (find_entry-none (failed_by lib (lib.is_temp_fail)) vs ht) in
            let r = perm_rank w temp t in
            rw (dkim_failure, ht, h) (reported permerror w i at (rw r) (rw r past_temp))

      on_temp :
          (r : Option V)
          → find_entry lib (failed_by lib (lib.is_temp_fail)) vs ≡ r
          → IsBest (dkim_failure lib vs detail) vs
      unfolding dkim_failure
      on_temp none h = on_perm h (find_entry lib (failed_by lib (lib.is_perm_fail)) vs) refl
      on_temp (some w) h =
          let (i, at, t) = find_entry-some (failed_by lib (lib.is_temp_fail)) vs w h in
          let r = temp_rank w t in
          rw (dkim_failure, h)
            (reported temperror w i at (rw r)
              (rw r (merge _ _ _ (λ v p q. rank_past_pass v p) vs unpassed unpassed)))

  on_pass :
      (v : Option V) (vs : List (Option V)) (err : Option (lib.Err)) (r : Option V)
      → find_entry lib (passed lib) (v ∷ vs) ≡ r
      → IsBest (evaluate_dkim lib (v ∷ vs) err) (v ∷ vs)
  unfolding evaluate_dkim
  on_pass v vs err none h =
      rw (evaluate_dkim, h)
        (on_temp (v ∷ vs) _ h (find_entry lib (failed_by lib (lib.is_temp_fail)) (v ∷ vs)) refl)
  on_pass v vs err (some w) h =
      let (i, at, t) = find_entry-some (passed lib) (v ∷ vs) w h in
      let r = passed-rank w t in
      rw (evaluate_dkim, h) (inl (w, i, at, rw r, refl, each _ (λ v. omega (arith, r)) (v ∷ vs)))

  -- Of several verified signatures, one is reported that no other is better than: its result, from
  -- best to worst passed, a temporary error, a permanent error or another failure, and its domain.
  -- Where the list has nil entries only, the result is a failure with no domain.
  pub evaluate_dkim-IsBest :
      (v : Option V) (vs : List (Option V)) (err : Option (lib.Err))
      → IsBest (evaluate_dkim lib (v ∷ vs) err) (v ∷ vs)
  evaluate_dkim-IsBest v vs err = on_pass v vs err (find_entry lib (passed lib) (v ∷ vs)) refl
