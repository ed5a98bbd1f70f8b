-- ===== src/RateLimit.antt =====
-- internal/ratelimit/ratelimit.go: the sliding-window limiter. A time is a number of nanoseconds;
-- `t.After(now.Add(-window))` is written `now < t + window`, which needs no negative times.
-- A limit of zero or less is `max_hits = 0`. The mutex makes each call one step.
pub mod Window
pub mod Retry
mod Tests
use sender_report.Base.{
  ℕ, ◌+◌, ◌-◌, Bool, true, false, List, [], ◌∷◌, ◌++◌, Option, none, some, ltb, leb, ◌==◌,
  if◌then◌else◌, length, filter, get_elem?,
}
use sender_report.Text.{Bytes, bytes_eq}

pub record Limiter : Type 0 where
  pub window : ℕ
  pub max_hits : ℕ
  pub hits : Bytes → List ℕ

-- An absent key of the map reads as the empty slice.
unfoldable pub new : ℕ → ℕ → Limiter
new window max_hits = record { window = window; max_hits = max_hits; hits = λ k. [] }

-- `l.hits[key] = v`
abbrev pub store : (Bytes → List ℕ) → Bytes → List ℕ → Bytes → List ℕ
store hits key v = λ k. if bytes_eq k key then v else hits k

-- Whether a hit at `t` still counts at `now`: `t.After(cutoff)`.
abbrev pub live : ℕ → ℕ → ℕ → Bool
live window now t = ltb now (t + window)

unfoldable pub allow : Limiter → Bytes → ℕ → Limiter × Bool
allow l key now =
    let kept = filter (live l.window now) (l.hits key) in
    if leb l.max_hits (length kept)
    then (record l { hits = store l.hits key kept }, false)
    else (record l { hits = store l.hits key (kept ++ now ∷ []) }, true)

-- `kept[i]`, for an index that the code keeps in range.
abbrev pub at_index : List ℕ → ℕ → ℕ
at_index xs i = elim (get_elem? xs i) [ none ↦ 0 | some t ↦ t ]

unfoldable pub retry_after : Limiter → Bytes → ℕ → ℕ
retry_after l key now =
    let kept = filter (live l.window now) (l.hits key) in
    if l.max_hits == 0
    then l.window
    else if ltb (length kept) l.max_hits
    then 0
    else at_index kept (length kept - l.max_hits) + l.window - now
