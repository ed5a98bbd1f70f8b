-- ===== src/Config/Accepted.antt =====
-- Settings that are in their bounds are accepted.
use sender_report.Base.{
  ℕ, ◌*◌, ◌%◌, ◌≤◌, ◌≡◌, refl, ◌↔◌, true, false, ◌||◌, Option, none, List, [], ◌∷◌, arith, ltb,
  ◌==◌, lt→ltb, length, All,
}
use sender_report.Text.{Bytes}
use sender_report.Config.Limits.{
  ℤ, is_below, is_above, minute, Config, ConfigError, first_error, check_least, check_between,
  check_request_limits, check_whole, check_ipt_timing, any_control, check_folders,
  check_ipt_spam_folders, check_limits,
}
use sender_report.Config.Bounded.{
  AtLeast, Between, IsFolder, IsTimed, IsBounded, check_limits-IsBounded,
}

first_error-both : (a b : Option ConfigError) → a ≡ none → b ≡ none → first_error a b ≡ none
unfolding first_error
first_error-both a b e h = rw e h

AtLeast-is_below : (z : ℤ) (least : ℕ) → AtLeast least z → is_below z least ≡ false
AtLeast-is_below z least (n, e, low) = rw e (ground (arith, low))

Between-fits :
    (z : ℤ) (least most : ℕ) → Between least most z → (is_below z least || is_above z most) ≡ false
Between-fits z least most (n, e, low, high) = rw e (ground (arith, low, high))

AtLeast-check_least :
    (least : ℕ) (settings : List (Bytes × ℤ))
    → All (λ x. AtLeast least x.1) settings
    → check_least least settings ≡ none
unfolding check_least
AtLeast-check_least least [] h = refl
AtLeast-check_least least ((key, z) ∷ rest) h =
    let now = AtLeast-is_below z least h.0 in
    let later = AtLeast-check_least least rest h.1 in rw now later

Between-check_between :
    (settings : List (Bytes × ℤ × ℕ × ℕ))
    → All (λ x. Between x.2 x.3 x.1) settings
    → check_between settings ≡ none
unfolding check_between
Between-check_between [] h = refl
Between-check_between ((key, z, least, most) ∷ rest) h =
    let now = Between-fits z least most h.0 in
    let later = Between-check_between rest h.1 in rw now later

IsFolder-check_folders : (fs : List (List ℕ)) → All IsFolder fs → check_folders fs ≡ none
IsFolder-check_folders [] h = refl
IsFolder-check_folders (f ∷ fs) h =
    let short = h.0.0 in
    let now : (ltb 100 (length f) || any_control f) ≡ false = rw (h.0.1) (ground (arith, short)) in
    let later = IsFolder-check_folders fs h.1 in rw now later

IsFolder-check_ipt_spam_folders :
    (fs : List (List ℕ)) → length fs ≤ 20 → All IsFolder fs → check_ipt_spam_folders fs ≡ none
unfolding check_ipt_spam_folders
IsFolder-check_ipt_spam_folders fs few h =
    let now : ltb 20 (length fs) ≡ false = ground (arith, few) in
    rw now (IsFolder-check_folders fs h)

IsTimed-check_whole :
    (cfg : Config) → IsTimed cfg → check_whole cfg.ipt_test_duration cfg.ipt_poll_interval ≡ none
IsTimed-check_whole cfg (minutes, pause, whole, is_pause, short) =
    let exact : (minutes * minute % minute == 0) ≡ true = ground (arith) in
    let less : ltb pause (minutes * minute) ≡ true = lt→ltb pause (minutes * minute) short in
    rw (whole, is_pause, exact, less) refl

IsBounded-check_limits : (cfg : Config) → IsBounded cfg → check_limits cfg ≡ none
unfolding check_limits check_request_limits check_ipt_timing
IsBounded-check_limits cfg b =
    first_error-both _ _ (AtLeast-check_least 524288 _ (b.message_bytes, tt)) (
      first_error-both _ _
        (AtLeast-check_least 1 _
          (b.per_ip, (b.global, (b.web_rate, (b.web_burst, (b.smtp_rate, (b.smtp_burst, tt)))))))
        (first_error-both _ _ (Between-check_between _ (b.payload_rate, (b.ipt_rate, tt))) (
          first_error-both _ _ (Between-check_between _ (b.token_length, tt)) (
            first_error-both _ _
              (first_error-both _ _
                (Between-check_between _ (b.duration, (b.poll, (b.events, (b.margin, tt)))))
                (IsTimed-check_whole cfg b.timed))
              (first_error-both _ _
                (IsFolder-check_ipt_spam_folders cfg.ipt_spam_folders b.few_folders b.folders)
                (AtLeast-check_least 1 _ (b.ttl, (b.retention, (b.cleanup, tt)))))))))

-- The checks find no error exactly when every setting is in its bounds, a placement test lasts whole minutes
-- and longer than the pause between two lookups, and there are at most 20 spam folders, each with a
-- usable name.
pub check_limits-IsBounded_iff : (cfg : Config) → (check_limits cfg ≡ none) ↔ IsBounded cfg
check_limits-IsBounded_iff cfg = (check_limits-IsBounded cfg, IsBounded-check_limits cfg)
