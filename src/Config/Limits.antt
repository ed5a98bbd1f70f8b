-- ===== src/Config/Limits.antt =====
-- The checks of `Load` behind those of the paths: sizes, counts, limits, the timing and the spam folders of
-- placement tests, and lifetimes. A setting is an integer, a duration in nanoseconds; the name of a
-- folder is a list of code points. The texts of the errors are left out but for the setting they name.
use sender_report.Base.{
  ℕ, suc, ◌*◌, ◌%◌, Bool, true, false, not, ◌&&◌, ◌||◌, Option, none, some, List, [], ◌∷◌, ltb, leb,
  ◌==◌, if◌then◌else◌, length,
}
use sender_report.Text.{Bytes, codes}

pub data ℤ : Type 0 where
  pos negsuc : ℕ → ℤ

abbrev pub is_below : ℤ → ℕ → Bool
is_below (pos k) n = ltb k n
is_below (negsuc k) n = true

abbrev pub is_above : ℤ → ℕ → Bool
is_above (pos k) n = ltb n k
is_above (negsuc k) n = false

abbrev pub second : ℕ
second = 1000000000

abbrev pub minute : ℕ
minute = 60 * second

abbrev pub hour : ℕ
hour = 60 * minute

pub record Config : Type 0 where
  pub max_message_bytes : ℤ
  pub max_active_per_ip : ℤ
  pub max_active_global : ℤ
  pub web_rate_limit_per_min : ℤ
  pub web_burst_per_10_sec : ℤ
  pub smtp_rate_limit_per_hour : ℤ
  pub smtp_burst_per_min : ℤ
  pub payload_rate_limit_per_min : ℤ
  pub ipt_rate_limit_per_hour : ℤ
  pub ipt_token_length : ℤ
  pub ipt_test_duration : ℤ
  pub ipt_poll_interval : ℤ
  pub ipt_events_interval : ℤ
  pub ipt_search_margin : ℤ
  pub ipt_spam_folders : List (List ℕ)
  pub mailbox_ttl : ℤ
  pub retention_ttl : ℤ
  pub cleanup_interval : ℤ

pub data ConfigError : Type 0 where
  out_of_bounds : Bytes → ConfigError
  not_whole_minutes interval_too_long too_many_folders bad_folder : ConfigError

unfoldable pub first_error : Option ConfigError → Option ConfigError → Option ConfigError
first_error (some e) later = some e
first_error none later = later

-- A loop over settings with a least value, and one over settings with two bounds.
unfoldable pub check_least : ℕ → List (Bytes × ℤ) → Option ConfigError
check_least least [] = none
check_least least ((key, value) ∷ rest) =
    let later = check_least least rest in
    if is_below value least then some (out_of_bounds key) else later

unfoldable pub check_between : List (Bytes × ℤ × ℕ × ℕ) → Option ConfigError
check_between [] = none
check_between ((key, value, least, most) ∷ rest) =
    let later = check_between rest in
    if is_below value least || is_above value most then some (out_of_bounds key) else later

abbrev pub request_limits : Config → List (Bytes × ℤ × ℕ × ℕ)
request_limits cfg =
    (codes "PAYLOAD_RATE_LIMIT_PER_MIN", cfg.payload_rate_limit_per_min, 1, 600)
    ∷ (codes "IPT_RATE_LIMIT_PER_HOUR", cfg.ipt_rate_limit_per_hour, 1, 60)
    ∷ []

unfoldable pub check_request_limits : Config → Option ConfigError
check_request_limits cfg = check_between (request_limits cfg)

-- `d % time.Minute != 0`
abbrev pub has_rest : ℤ → Bool
has_rest (pos k) = not (k % minute == 0)
has_rest (negsuc k) = not (suc k % minute == 0)

-- `a >= b`
abbrev pub at_least : ℤ → ℤ → Bool
at_least a (pos n) = not (is_below a n)
at_least (pos m) (negsuc n) = true
at_least (negsuc m) (negsuc n) = leb m n

-- The test in whole minutes, and a second lookup within it.
abbrev pub check_whole : ℤ → ℤ → Option ConfigError
check_whole duration interval =
    if has_rest duration
    then some not_whole_minutes
    else if at_least interval duration
    then some interval_too_long
    else none

abbrev pub timings : Config → List (Bytes × ℤ × ℕ × ℕ)
timings cfg =
    (codes "IPT_TEST_DURATION", cfg.ipt_test_duration, minute, hour)
    ∷ (codes "IPT_POLL_INTERVAL", cfg.ipt_poll_interval, 5 * second, 5 * minute)
    ∷ (codes "IPT_EVENTS_INTERVAL", cfg.ipt_events_interval, second, minute)
    ∷ (codes "IPT_SEARCH_MARGIN", cfg.ipt_search_margin, 0, hour)
    ∷ []

unfoldable pub check_ipt_timing : Config → Option ConfigError
check_ipt_timing cfg =
    first_error (check_between (timings cfg))
      (check_whole cfg.ipt_test_duration cfg.ipt_poll_interval)

-- `unicode.IsControl`
abbrev pub is_control : ℕ → Bool
is_control c = leb c 31 || (leb 127 c && leb c 159)

abbrev pub any_control : List ℕ → Bool
any_control [] = false
any_control (c ∷ s) = is_control c || any_control s

abbrev pub check_folders : List (List ℕ) → Option ConfigError
check_folders [] = none
check_folders (f ∷ fs) =
    let later = check_folders fs in
    if ltb 100 (length f) || any_control f then some bad_folder else later

unfoldable pub check_ipt_spam_folders : List (List ℕ) → Option ConfigError
check_ipt_spam_folders folders =
    if ltb 20 (length folders) then some too_many_folders else check_folders folders

abbrev pub counts : Config → List (Bytes × ℤ)
counts cfg =
    (codes "MAX_ACTIVE_MAILBOXES_PER_IP", cfg.max_active_per_ip)
    ∷ (codes "MAX_ACTIVE_MAILBOXES_GLOBAL", cfg.max_active_global)
    ∷ (codes "WEB_RATE_LIMIT_PER_MIN", cfg.web_rate_limit_per_min)
    ∷ (codes "WEB_BURST_PER_10_SEC", cfg.web_burst_per_10_sec)
    ∷ (codes "SMTP_RATE_LIMIT_PER_HOUR", cfg.smtp_rate_limit_per_hour)
    ∷ (codes "SMTP_BURST_PER_MIN", cfg.smtp_burst_per_min)
    ∷ []

abbrev pub lifetimes : Config → List (Bytes × ℤ)
lifetimes cfg =
    (codes "MAILBOX_TTL", cfg.mailbox_ttl)
    ∷ (codes "DATA_RETENTION_TTL", cfg.retention_ttl)
    ∷ (codes "CLEANUP_INTERVAL", cfg.cleanup_interval)
    ∷ []

unfoldable pub check_limits : Config → Option ConfigError
check_limits cfg =
    first_error (check_least 524288 ((codes "MAX_MESSAGE_BYTES", cfg.max_message_bytes) ∷ [])) (
      first_error (check_least 1 (counts cfg)) (
        first_error (check_request_limits cfg) (
          first_error
            (check_between ((codes "IPT_TOKEN_LENGTH", cfg.ipt_token_length, 16, 64) ∷ []))
            (first_error (check_ipt_timing cfg) (
              first_error (check_ipt_spam_folders cfg.ipt_spam_folders)
                (check_least 1 (lifetimes cfg)))))))
