-- ===== src/RateLimit/Window.antt =====
-- The limiter against its specification: a log of every admitted call that is never pruned.
use sender_report.Base.{
  ℕ, ◌+◌, ◌≤◌, ◌≡◌, refl, sym, ◌∙◌, Bool, true, ◌&&◌, List, [], ◌∷◌, ◌++◌, append-nil, append_assoc,
  arith, ltb, leb, if◌then◌else◌, length, filter, length-append, filter-append, filter-filter,
  length-filter_mono,
}
use mathlib.Core.Path.{ap₂}
use sender_report.Text.{Bytes, bytes_eq, bytes_eq_sound}
use sender_report.RateLimit.{Limiter, new, allow, live, store}

-- The specification: a call is admitted while fewer than `max_hits` admitted calls are live, and
-- the log of a key holds every admitted call, oldest first.
abbrev pub admits : ℕ → ℕ → List ℕ → ℕ → Bool
admits window max_hits log now = ltb (length (filter (live window now) log)) max_hits

abbrev pub extend : ℕ → ℕ → List ℕ → ℕ → List ℕ
extend window max_hits log now = if admits window max_hits log now then log ++ now ∷ [] else log

-- Times that do not go back, from a given one on.
abbrev pub Ordered : ℕ → List (Bytes × ℕ) → Type 0
Ordered from [] = Unit {0}
Ordered from ((key, now) ∷ later) = (from ≤ now) × Ordered now later

-- The pruned slice and the full log agree on what is live at any time from `from` on.
abbrev Agrees : ℕ → ℕ → List ℕ → List ℕ → Type 0
Agrees window from hits log =
    (t : ℕ) → from ≤ t → filter (live window t) hits ≡ filter (live window t) log

-- What a later time sees, an earlier one saw.
live_mono : (window a b t : ℕ) → a ≤ b → live window b t ≡ true → live window a t ≡ true
live_mono window a b t h e = ground arith

prune-Agrees :
    (window from now : ℕ) (hits log : List ℕ)
    → from ≤ now
    → Agrees window from hits log
    → Agrees window now (filter (live window now) hits) log
prune-Agrees window from now hits log h agrees t le =
    filter-filter (live window t) (live window now) (λ x. live_mono window now t x le) hits
    ∙ agrees t (omega arith)

module _ (window max_hits : ℕ) where
  -- The slice that `Allow` stores, as a function of the old one.
  abbrev next_hits : List ℕ → ℕ → List ℕ
  next_hits hits now =
      let kept = filter (live window now) hits in
      if leb max_hits (length kept) then kept else kept ++ now ∷ []

  next_hits-Agrees :
      (from now : ℕ) (hits log : List ℕ)
      → from ≤ now
      → Agrees window from hits log
      → Agrees window now (next_hits hits now) (extend window max_hits log now)
  next_hits-Agrees from now hits log h agrees t le = ground (
    arith,
    prune-Agrees window from now hits log h agrees t le,
    agrees now h,
    filter-append (live window t) (filter (live window now) hits) (now ∷ []),
    filter-append (live window t) log (now ∷ []),
  )

-- Calls for any keys in turn: the limiter's answers, and those of the specification.
unfoldable pub answers : Limiter → List (Bytes × ℕ) → List Bool
answers l [] = []
answers l ((key, now) ∷ later) = (allow l key now).1 ∷ answers (allow l key now).0 later

abbrev Logs : Type 0
Logs = Bytes → List ℕ

module _ (window max_hits : ℕ) where
  pub spec_logs : Logs → List (Bytes × ℕ) → Logs
  spec_logs logs [] = logs
  spec_logs logs ((key, now) ∷ later) =
      spec_logs (store logs key (extend window max_hits (logs key) now)) later

  pub spec_answers : Logs → List (Bytes × ℕ) → List Bool
  spec_answers logs [] = []
  spec_answers logs ((key, now) ∷ later) =
      admits window max_hits (logs key) now
      ∷ spec_answers (store logs key (extend window max_hits (logs key) now)) later

abbrev Refines : ℕ → Limiter → Logs → Type 0
Refines from l logs = (k : Bytes) → Agrees l.window from (l.hits k) (logs k)

allow-answer :
    (l : Limiter) (logs : Logs) (key : Bytes) (from now : ℕ)
    → from ≤ now
    → Refines from l logs
    → (allow l key now).1 ≡ admits l.window l.max_hits (logs key) now
unfolding allow
allow-answer l logs key from now h r = ground (arith, r key now h)

allow-config :
    (l : Limiter) (key : Bytes) (now : ℕ)
    → ((allow l key now).0.window ≡ l.window) × ((allow l key now).0.max_hits ≡ l.max_hits)
unfolding allow
allow-config l key now = ground arith

allow-hits :
    (l : Limiter) (key : Bytes) (now : ℕ)
    → (allow l key now).0.hits ≡ store l.hits key (next_hits l.window l.max_hits (l.hits key) now)
unfolding allow
allow-hits l key now = ground arith

allow-Refines :
    (l : Limiter) (logs : Logs) (key : Bytes) (from now : ℕ)
    → from ≤ now
    → Refines from l logs
    → Refines now (allow l key now).0 (store logs key (extend l.window l.max_hits (logs key) now))
allow-Refines l logs key from now h r k t le =
    rw ((allow-config l key now).0, allow-hits l key now)
      (ground (
        arith,
        bytes_eq_sound k key,
        next_hits-Agrees l.window l.max_hits from now (l.hits k) (logs k) h (r k) t le,
        r k t,
        next_hits-Agrees l.window l.max_hits from now (l.hits key) (logs key) h (r key) t le,
      ))

answers-Refines :
    (l : Limiter) (logs : Logs) (from : ℕ) (calls : List (Bytes × ℕ))
    → Ordered from calls
    → Refines from l logs
    → answers l calls ≡ spec_answers l.window l.max_hits logs calls
unfolding answers spec_answers
answers-Refines l logs from [] o r = refl
answers-Refines l logs from ((key, now) ∷ later) o r =
    let rest =
      answers-Refines (allow l key now).0
        (store logs key (extend l.window l.max_hits (logs key) now)) now later o.1
        (allow-Refines l logs key from now o.0 r) in
    let (same_window, same_max) = allow-config l key now in
    ap₂ ◌∷◌ (allow-answer l logs key from now o.0 r) (rw (same_window, same_max) at rest)

-- A fresh limiter that is asked at times that do not go back answers every call, for any keys in
-- any order, as the specification does that keeps every admitted call of a key for ever.
pub answers-new :
    (window max_hits : ℕ) (calls : List (Bytes × ℕ))
    → Ordered 0 calls
    → answers (new window max_hits) calls ≡ spec_answers window max_hits (λ k. []) calls
unfolding new
answers-new window max_hits calls o =
    answers-Refines (new window max_hits) (λ k. []) 0 calls o (λ k t le. refl)

-- A hit at `t` lies in the window that ends at `end`.
abbrev pub in_window : ℕ → ℕ → ℕ → Bool
in_window window end t = leb t end && ltb end (t + window)

abbrev Bounded : ℕ → ℕ → List ℕ → Type 0
Bounded window max_hits log = (end : ℕ) → length (filter (in_window window end) log) ≤ max_hits

extend-Bounded :
    (window max_hits : ℕ) (log : List ℕ) (now : ℕ)
    → Bounded window max_hits log
    → Bounded window max_hits (extend window max_hits log now)
extend-Bounded window max_hits log now b end = ground (
  arith,
  b end,
  filter-append (in_window window end) log (now ∷ []),
  length-append (filter (in_window window end) log) (filter (in_window window end) (now ∷ [])),
  λ (h : now ≤ end).
      length-filter_mono (in_window window end) (live window now) (λ x e. ground arith) log,
)

spec_logs-Bounded :
    (window max_hits : ℕ) (logs : Logs) (calls : List (Bytes × ℕ))
    → ((k : Bytes) → Bounded window max_hits (logs k))
    → (k : Bytes) → Bounded window max_hits (spec_logs window max_hits logs calls k)
unfolding spec_logs
spec_logs-Bounded window max_hits logs [] b = b
spec_logs-Bounded window max_hits logs ((key, now) ∷ later) b =
    spec_logs-Bounded window max_hits (store logs key (extend window max_hits (logs key) now)) later
      λ k end. ground (arith, b k end, extend-Bounded window max_hits (logs key) now (b key) end)

-- The times of the admitted calls of one key, read off the calls and the answers to them.
pub admitted : Bytes → List (Bytes × ℕ) → List Bool → List ℕ
admitted k [] bs = []
admitted k ((key, now) ∷ later) [] = []
admitted k ((key, now) ∷ later) (b ∷ bs) =
    let rest = admitted k later bs in if bytes_eq k key && b then now ∷ rest else rest

spec_logs-admitted :
    (window max_hits : ℕ) (logs : Logs) (calls : List (Bytes × ℕ)) (k : Bytes)
    → spec_logs window max_hits logs calls k
      ≡ logs k ++ admitted k calls (spec_answers window max_hits logs calls)
unfolding spec_logs spec_answers admitted
spec_logs-admitted window max_hits logs [] k = sym (append-nil (logs k))
spec_logs-admitted window max_hits logs ((key, now) ∷ later) k =
    let logs' = store logs key (extend window max_hits (logs key) now) in
    ground (
      arith,
      bytes_eq_sound k key,
      spec_logs-admitted window max_hits logs' later k,
      append_assoc (logs k) (now ∷ [])
          (admitted k later (spec_answers window max_hits logs' later)),
    )

-- Whatever calls are made, for any keys in any order at times that do not go back, no interval of
-- one window's length holds more than `max_hits` admitted calls of one key.
allow_window_bound :
    (window max_hits : ℕ) (calls : List (Bytes × ℕ)) (k : Bytes) (end : ℕ)
    → Ordered 0 calls
    → length
        (filter (in_window window end) (admitted k calls (answers (new window max_hits) calls)))
      ≤ max_hits
allow_window_bound window max_hits calls k end o =
    rw (answers-new window max_hits calls o, ← spec_logs-admitted window max_hits (λ _. []) calls k)
      (spec_logs-Bounded window max_hits (λ _. []) calls (λ _ _. omega arith) k end)
