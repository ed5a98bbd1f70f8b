-- ===== src/Config/Bounded.antt =====
-- What a configuration that is accepted promises.
use sender_report.Base.{
  ℕ, ◌*◌, ◌/◌, ◌%◌, ◌≤◌, ◌<◌, ◌≡◌, refl, ap, ◌∙◌, inl, inr, false, ◌||◌, Option, none, some, List,
  [], ◌∷◌, arith, ltb, ◌==◌, ltb→lt, Bool-cases, length, All,
}
use sender_report.Text.{Bytes}
use sender_report.Config.Limits.{
  ℤ, pos, negsuc, is_below, is_above, second, minute, hour, Config, ConfigError, first_error,
  check_least, check_between, check_request_limits, check_whole, check_ipt_timing, any_control,
  check_folders, check_ipt_spam_folders, check_limits, counts, request_limits, timings, lifetimes,
}

-- An integer of at least, or between two bounds.
abbrev pub AtLeast : ℕ → ℤ → Type 0
AtLeast least z = (n : ℕ) × (z ≡ pos n) × (least ≤ n)

abbrev pub Between : ℕ → ℕ → ℤ → Type 0
Between least most z = (n : ℕ) × (z ≡ pos n) × (least ≤ n) × (n ≤ most)

-- A name of at most 100 characters, none of them a control character.
abbrev pub IsFolder : List ℕ → Type 0
IsFolder f = (length f ≤ 100) × (any_control f ≡ false)

-- The test lasts whole minutes, and longer than the pause between two lookups.
abbrev pub IsTimed : Config → Type 0
IsTimed cfg =
    (minutes : ℕ) × (pause : ℕ) × (cfg.ipt_test_duration ≡ pos (minutes * minute))
    × (cfg.ipt_poll_interval ≡ pos pause)
    × (pause < minutes * minute)

pub record IsBounded (cfg : Config) : Type 0 where
  pub message_bytes : AtLeast 524288 cfg.max_message_bytes
  pub per_ip : AtLeast 1 cfg.max_active_per_ip
  pub global : AtLeast 1 cfg.max_active_global
  pub web_rate : AtLeast 1 cfg.web_rate_limit_per_min
  pub web_burst : AtLeast 1 cfg.web_burst_per_10_sec
  pub smtp_rate : AtLeast 1 cfg.smtp_rate_limit_per_hour
  pub smtp_burst : AtLeast 1 cfg.smtp_burst_per_min
  pub payload_rate : Between 1 600 cfg.payload_rate_limit_per_min
  pub ipt_rate : Between 1 60 cfg.ipt_rate_limit_per_hour
  pub token_length : Between 16 64 cfg.ipt_token_length
  pub duration : Between minute hour cfg.ipt_test_duration
  pub poll : Between (5 * second) (5 * minute) cfg.ipt_poll_interval
  pub events : Between second minute cfg.ipt_events_interval
  pub margin : Between 0 hour cfg.ipt_search_margin
  pub timed : IsTimed cfg
  pub few_folders : length cfg.ipt_spam_folders ≤ 20
  pub folders : All IsFolder cfg.ipt_spam_folders
  pub ttl : AtLeast 1 cfg.mailbox_ttl
  pub retention : AtLeast 1 cfg.retention_ttl
  pub cleanup : AtLeast 1 cfg.cleanup_interval

first_error-none : (a b : Option ConfigError) → first_error a b ≡ none → (a ≡ none) × (b ≡ none)
unfolding first_error
first_error-none none b h = (refl, h)
first_error-none (some e) b h = absurd (cc)

is_below-AtLeast : (z : ℤ) (least : ℕ) → is_below z least ≡ false → AtLeast least z
is_below-AtLeast (pos n) least h = (n, refl, ground (arith, h))
is_below-AtLeast (negsuc n) least h = absurd (cc)

between_lem :
    (z : ℤ) (least most : ℕ) → (is_below z least || is_above z most) ≡ false → Between least most z
between_lem (pos n) least most h = (n, refl, ground (arith, h), ground (arith, h))
between_lem (negsuc n) least most h = absurd (cc)

check_least-AtLeast :
    (least : ℕ) (settings : List (Bytes × ℤ))
    → check_least least settings ≡ none
    → All (λ x. AtLeast least x.1) settings
unfolding check_least
check_least-AtLeast least [] h = tt
check_least-AtLeast least ((key, z) ∷ rest) h = elim (Bool-cases (is_below z least)) [
  | inl e ↦ absurd (cc (rw e at h))
  | inr e ↦ (is_below-AtLeast z least e, check_least-AtLeast least rest (rw e at h))
]

check_between-Between :
    (settings : List (Bytes × ℤ × ℕ × ℕ))
    → check_between settings ≡ none
    → All (λ x. Between x.2 x.3 x.1) settings
unfolding check_between
check_between-Between [] h = tt
check_between-Between ((key, z, least, most) ∷ rest) h =
    elim (Bool-cases (is_below z least || is_above z most)) [
      | inl e ↦ absurd (cc (rw e at h))
      | inr e ↦ (between_lem z least most e, check_between-Between rest (rw e at h))
    ]

check_folders-IsFolder : (fs : List (List ℕ)) → check_folders fs ≡ none → All IsFolder fs
check_folders-IsFolder [] h = tt
check_folders-IsFolder (f ∷ fs) h = elim (Bool-cases (ltb 100 (length f) || any_control f)) [
  | inl e ↦ absurd (cc (rw e at h))
  | inr e ↦ ((ground (arith, e), ground (arith, e)), check_folders-IsFolder fs (rw e at h))
]

check_whole_lem :
    (d p : ℕ)
    → check_whole (pos d) (pos p) ≡ none
    → (minutes : ℕ) × (d ≡ minutes * minute) × (p < minutes * minute)
check_whole_lem d p h = elim (Bool-cases (d % minute == 0)) [
  | inr e ↦ absurd (cc (rw e at h))
  | inl e ↦ elim (Bool-cases (ltb p d)) [
    | inr f ↦ absurd (cc (rw (e, f) at h))
    | inl f ↦
        let whole : d % minute ≡ 0 = ground (arith, e) in
        (d / minute, omega (arith, whole), omega (arith, whole, ltb→lt p d f))
  ]
]

IsTimed-check :
    (cfg : Config)
    → Between minute hour cfg.ipt_test_duration
    → Between (5 * second) (5 * minute) cfg.ipt_poll_interval
    → check_whole cfg.ipt_test_duration cfg.ipt_poll_interval ≡ none
    → IsTimed cfg
IsTimed-check cfg (d, is_d, d_low, d_high) (p, is_p, p_low, p_high) h =
    let (minutes, whole, short) = check_whole_lem d p (rw (is_d, is_p) at h) in
    (minutes, p, is_d ∙ ap pos whole, is_p, short)

check_ipt_spam_folders-IsFolder :
    (fs : List (List ℕ)) → check_ipt_spam_folders fs ≡ none → (length fs ≤ 20) × All IsFolder fs
unfolding check_ipt_spam_folders
check_ipt_spam_folders-IsFolder fs h = elim (Bool-cases (ltb 20 (length fs))) [
  | inl e ↦ absurd (cc (rw e at h))
  | inr e ↦ (ground (arith, e), check_folders-IsFolder fs (rw e at h))
]

-- The bounds of every setting, where the checks find no error.
pub check_limits-IsBounded : (cfg : Config) → check_limits cfg ≡ none → IsBounded cfg
unfolding check_limits check_request_limits check_ipt_timing
check_limits-IsBounded cfg h =
    let (bytes, h1) = first_error-none _ _ h in
    let (counted, h2) = first_error-none _ _ h1 in
    let (requests, h3) = first_error-none _ _ h2 in
    let (token, h4) = first_error-none _ _ h3 in
    let (timing, h5) = first_error-none _ _ h4 in
    let (fs, lives) = first_error-none _ _ h5 in
    let (times, whole) = first_error-none _ _ timing in
    let c = check_least-AtLeast 1 (counts cfg) counted in
    let r = check_between-Between (request_limits cfg) requests in
    let t = check_between-Between (timings cfg) times in
    let l = check_least-AtLeast 1 (lifetimes cfg) lives in
    let (few_folders, folders) = check_ipt_spam_folders-IsFolder cfg.ipt_spam_folders fs in
    record {
      message_bytes = (check_least-AtLeast 524288 _ bytes).0;
      per_ip = c.0;
      global = c.1.0;
      web_rate = c.1.1.0;
      web_burst = c.1.1.1.0;
      smtp_rate = c.1.1.1.1.0;
      smtp_burst = c.1.1.1.1.1.0;
      payload_rate = r.0;
      ipt_rate = r.1.0;
      token_length = (check_between-Between _ token).0;
      duration = t.0;
      poll = t.1.0;
      events = t.1.1.0;
      margin = t.1.1.1.0;
      timed = IsTimed-check cfg (t.0) (t.1.0) whole;
      few_folders = few_folders;
      folders = folders;
      ttl = l.0;
      retention = l.1.0;
      cleanup = l.1.1.0;
    }
