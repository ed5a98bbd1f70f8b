-- ===== src/RateLimit/Retry.antt =====
-- `RetryAfter` against `Allow`: when the next call of a key is let through.
use sender_report.Base.{
  ℕ, zero, suc, ◌+◌, ◌-◌, ◌≤◌, ◌<◌, ◌≡◌, refl, ◌∙◌, inl, inr, true, List, [], ◌∷◌, ◌++◌, arith, ◌↔◌,
  length, filter, filter-filter, length-filter-le, Bool-cases,
}
use sender_report.RateLimit.Window.{Ordered}
use native.Mathlib.Decide.{dec_le}
use sender_report.Text.{Bytes}
use sender_report.RateLimit.{Limiter, new, allow, retry_after, live, at_index}

-- The hits happened in the order in which they stand, the first at `from` or later.
abbrev pub Sorted : ℕ → List ℕ → Type 0
Sorted from [] = Unit {0}
Sorted from (t ∷ ts) = (from ≤ t) × Sorted t ts

-- In such a slice all hits are live as soon as the first one may be.
filter-live_all :
    (window now from : ℕ) (ts : List ℕ)
    → Sorted from ts
    → now < from + window
    → filter (live window now) ts ≡ ts
filter-live_all window now from [] s h = refl
filter-live_all window now from (t ∷ ts) s h = ground (arith, filter-live_all window now t ts s.1)

Sorted-weaken : (low from : ℕ) (ts : List ℕ) → low ≤ from → Sorted from ts → Sorted low ts
Sorted-weaken low from [] h s = tt
Sorted-weaken low from (t ∷ ts) h s = (omega arith, s.1)

Sorted-filter :
    (window now from : ℕ) (ts : List ℕ) → Sorted from ts → Sorted from (filter (live window now) ts)
Sorted-filter window now from [] s = tt
Sorted-filter window now from (t ∷ ts) s = elim (Bool-cases (live window now t)) [
  | inl e ↦ rw e (s.0, Sorted-filter window now t ts s.1)
  | inr e ↦ rw e (Sorted-weaken from t _ s.0 (Sorted-filter window now t ts s.1))
]

at_index-Sorted :
    (from : ℕ) (ts : List ℕ) (i : ℕ) → Sorted from ts → i < length ts → from ≤ at_index ts i
at_index-Sorted from [] i s h = absurd (omega arith)
at_index-Sorted from (t ∷ ts) zero s h = s.0
at_index-Sorted from (t ∷ ts) (suc i) s h = omega (arith, at_index-Sorted t ts i s.1)

-- Fewer than `m` hits are live exactly when the `m`-th from the end is not.
few_live :
    (window now from m : ℕ) (ts : List ℕ)
    → Sorted from ts
    → 0 < m
    → m ≤ length ts
    → (length (filter (live window now) ts) < m) ↔ (at_index ts (length ts - m) + window ≤ now)
few_live window now from m [] s p h = absurd (omega arith)
few_live window now from m (t ∷ ts) s p h = elim (dec_le m (length ts)) [
  | yes inside ↦
      let step : suc (length ts) - m ≡ suc (length ts - m) = omega arith in
      rw step (
        ground (
          arith,
          few_live window now t m ts s.1 p inside,
          filter-live_all window now t ts s.1,
          at_index-Sorted t ts (length ts - m) s.1 (omega arith),
        ))
  | no outside ↦
      let first : suc (length ts) - m ≡ 0 = omega arith in
      rw first
        (ground (arith, filter-live_all window now t ts s.1, length-filter-le (live window now) ts))
]

-- In order, and none behind `to`.
abbrev pub Within : ℕ → ℕ → List ℕ → Type 0
Within from to [] = from ≤ to
Within from to (t ∷ ts) = (from ≤ t) × Within t to ts

Within-lower : (low from to : ℕ) (ts : List ℕ) → low ≤ from → Within from to ts → Within low to ts
Within-lower low from to [] h w = omega arith
Within-lower low from to (t ∷ ts) h w = (omega arith, w.1)

Within-filter :
    (window now from to : ℕ) (ts : List ℕ)
    → Within from to ts
    → Within from to (filter (live window now) ts)
Within-filter window now from to [] w = w
Within-filter window now from to (t ∷ ts) w = elim (Bool-cases (live window now t)) [
  | inl e ↦ rw e (w.0, Within-filter window now t to ts w.1)
  | inr e ↦ rw e (Within-lower from t to _ w.0 (Within-filter window now t to ts w.1))
]

Within-concat :
    (from to now : ℕ) (ts : List ℕ)
    → Within from to ts
    → to ≤ now
    → Within from now (ts ++ now ∷ [])
Within-concat from to now [] w h = omega arith
Within-concat from to now (t ∷ ts) w h = (w.0, Within-concat t to now ts w.1 h)

Within-Sorted : (from to : ℕ) (ts : List ℕ) → Within from to ts → Sorted from ts
Within-Sorted from to [] w = tt
Within-Sorted from to (t ∷ ts) w = (w.0, Within-Sorted t to ts w.1)

unfoldable pub run : Limiter → List (Bytes × ℕ) → Limiter
run l [] = l
run l ((key, now) ∷ later) = run (allow l key now).0 later

Within-later : (from to now : ℕ) (ts : List ℕ) → to ≤ now → Within from to ts → Within from now ts
Within-later from to now [] h w = omega arith
Within-later from to now (t ∷ ts) h w = (w.0, Within-later t to now ts h w.1)

abbrev InOrder : ℕ → Limiter → Type 0
InOrder to l = (k : Bytes) → Within 0 to (l.hits k)

allow-InOrder :
    (l : Limiter) (key : Bytes) (from now : ℕ)
    → from ≤ now
    → InOrder from l
    → InOrder now (allow l key now).0
unfolding allow
allow-InOrder l key from now h w k =
    let kept = Within-filter l.window now 0 from (l.hits key) (w key) in
    ground (
      arith,
      Within-later 0 from now (l.hits k) h (w k),
      Within-later 0 from now (filter (live l.window now) (l.hits key)) h kept,
      Within-concat 0 from now (filter (live l.window now) (l.hits key)) kept h,
    )

-- The time of the last call.
abbrev pub last_time : ℕ → List (Bytes × ℕ) → ℕ
last_time from [] = from
last_time from ((key, now) ∷ later) = last_time now later

run-InOrder :
    (l : Limiter) (from : ℕ) (calls : List (Bytes × ℕ))
    → Ordered from calls
    → InOrder from l
    → InOrder (last_time from calls) (run l calls)
unfolding run
run-InOrder l from [] o w = w
run-InOrder l from ((key, now) ∷ later) o w =
    run-InOrder (allow l key now).0 now later o.1 (allow-InOrder l key from now o.0 w)

allow-retry_after-Sorted :
    (l : Limiter) (key : Bytes) (now t : ℕ)
    → Sorted 0 (l.hits key)
    → 0 < l.max_hits
    → now ≤ t
    → ((allow l key t).1 ≡ true) ↔ (now + retry_after l key now ≤ t)
unfolding allow retry_after
allow-retry_after-Sorted l key now t sorted p h =
    let kept = filter (live l.window now) (l.hits key) in
    ground (
      arith,
      filter-filter (live l.window t) (live l.window now) (λ x e. ground arith) (l.hits key),
      length-filter-le (live l.window t) kept,
      few_live l.window t 0 l.max_hits kept (Sorted-filter l.window now 0 (l.hits key) sorted) p,
    )

allow-max_hits : (l : Limiter) (key : Bytes) (now : ℕ) → (allow l key now).0.max_hits ≡ l.max_hits
unfolding allow
allow-max_hits l key now = ground arith

run-max_hits : (l : Limiter) (calls : List (Bytes × ℕ)) → (run l calls).max_hits ≡ l.max_hits
unfolding run
run-max_hits l [] = refl
run-max_hits l ((key, now) ∷ later) =
    run-max_hits (allow l key now).0 later ∙ allow-max_hits l key now

-- After any calls at times that do not go back, on a limiter with a positive limit: a next call of
-- a key at a time `t`, with no call between `now` and `t`, is let through exactly when the wait
-- that `RetryAfter` gave at `now` is over. So the wait is zero exactly when it is let through at once.
pub allow-retry_after :
    (window max_hits : ℕ) (calls : List (Bytes × ℕ)) (key : Bytes) (now t : ℕ)
    → Ordered 0 calls
    → 0 < max_hits
    → now ≤ t
    → ((allow (run (new window max_hits) calls) key t).1 ≡ true)
      ↔ (now + retry_after (run (new window max_hits) calls) key now ≤ t)
allow-retry_after window max_hits calls key now t o p =
    allow-retry_after-Sorted (run (new window max_hits) calls) key now t
      (Within-Sorted 0 (last_time 0 calls) _
        (run-InOrder (new window max_hits) 0 calls o (unfold new in λ k. omega arith) key))
      (rw (run-max_hits (new window max_hits) calls) (unfold new in p))
