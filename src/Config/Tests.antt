-- ===== src/Config/Tests.antt =====
-- A configuration with the default values, and settings that are refused.
use sender_report.Base.{◌≡◌, ◌↔◌, refl, ◌*◌, none, some, List, [], ◌∷◌, true, false}
use sender_report.Base.{All}
use sender_report.Text.{Bytes, codes, split, split_from}
use sender_report.Web.Paths.{https_exempt}
use sender_report.Config.Paths.{
  path_rest, exempt_path_pattern, has_dot_segment, covers_all, not_usable, check_https_exempt_paths,
}
use sender_report.Config.Exempt.{check_https_exempt_paths-exempt}
use sender_report.Config.Limits.{
  pos, second, minute, hour, Config, out_of_bounds, not_whole_minutes, interval_too_long,
  first_error, check_least, check_between, check_request_limits, check_ipt_timing,
  check_ipt_spam_folders, check_limits,
}
use sender_report.Config.Bounded.{IsBounded}
use sender_report.Config.Accepted.{check_limits-IsBounded_iff}

abbrev two_paths : List Bytes
two_paths = codes "/healthz" ∷ codes "/api/v1/" ∷ []

two_paths_accepted : check_https_exempt_paths two_paths ≡ none
unfolding check_https_exempt_paths exempt_path_pattern path_rest has_dot_segment split split_from
two_paths_accepted = refl

check_https_exempt_paths-exempt_example :
    All (λ p. https_exempt two_paths p ≡ true) two_paths
    × (https_exempt two_paths (codes "/") ≡ false)
check_https_exempt_paths-exempt_example =
    check_https_exempt_paths-exempt two_paths two_paths_accepted

home_refused : check_https_exempt_paths (codes "/healthz" ∷ codes "/" ∷ []) ≡ some covers_all
unfolding check_https_exempt_paths exempt_path_pattern path_rest has_dot_segment split split_from
home_refused = refl

dots_refused : check_https_exempt_paths (codes "/a/../b" ∷ []) ≡ some (not_usable (codes "/a/../b"))
unfolding check_https_exempt_paths exempt_path_pattern path_rest has_dot_segment split split_from
dots_refused = refl

abbrev defaults : Config
defaults = record {
  max_message_bytes = pos 2097152;
  max_active_per_ip = pos 20;
  max_active_global = pos 2000;
  web_rate_limit_per_min = pos 60;
  web_burst_per_10_sec = pos 20;
  smtp_rate_limit_per_hour = pos 200;
  smtp_burst_per_min = pos 40;
  payload_rate_limit_per_min = pos 30;
  ipt_rate_limit_per_hour = pos 3;
  ipt_token_length = pos 32;
  ipt_test_duration = pos (10 * minute);
  ipt_poll_interval = pos (30 * second);
  ipt_events_interval = pos (5 * second);
  ipt_search_margin = pos (2 * minute);
  ipt_spam_folders = (74 ∷ 117 ∷ 110 ∷ 107 ∷ []) ∷ [];
  mailbox_ttl = pos (24 * hour);
  retention_ttl = pos (168 * hour);
  cleanup_interval = pos (30 * minute);
}

defaults_accepted : check_limits defaults ≡ none
unfolding check_limits first_error check_least check_between check_request_limits check_ipt_timing
    check_ipt_spam_folders
defaults_accepted = refl

check_limits-IsBounded_iff_example : (check_limits defaults ≡ none) ↔ IsBounded defaults
check_limits-IsBounded_iff_example = check_limits-IsBounded_iff defaults

defaults-IsBounded : IsBounded defaults
defaults-IsBounded = (check_limits-IsBounded_iff defaults).0 defaults_accepted

short_token_refused :
    check_limits (record defaults { ipt_token_length = pos 8 })
    ≡ some (out_of_bounds (codes "IPT_TOKEN_LENGTH"))
unfolding check_limits first_error check_least check_between check_request_limits check_ipt_timing
    check_ipt_spam_folders
short_token_refused = refl

half_minute_refused :
    check_limits (record defaults { ipt_test_duration = pos (90 * second) })
    ≡ some not_whole_minutes
unfolding check_limits first_error check_least check_between check_request_limits check_ipt_timing
    check_ipt_spam_folders
half_minute_refused = refl

slow_lookup_refused :
    check_limits
      (record defaults { ipt_test_duration = pos minute; ipt_poll_interval = pos minute })
    ≡ some interval_too_long
unfolding check_limits first_error check_least check_between check_request_limits check_ipt_timing
    check_ipt_spam_folders
slow_lookup_refused = refl
