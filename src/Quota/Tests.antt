-- ===== src/Quota/Tests.antt =====
-- A retry at 3 pm read at noon, and a cooldown without a hint.
use open_tiger.Prelude.{◌≡◌, refl, true, none, some, [], ◌∷◌, arith}
use open_tiger.Quota.{
  ClockTime, clock_ms, parse_clock_retry_delay_ms, QuotaBackoffOptions, exponential_of,
  compute_quota_backoff,
}
use open_tiger.Quota.Laws.{
  Lands, parse_clock_retry_delay_ms-Lands, IsBounded, compute_quota_backoff-IsBounded,
}

abbrev three_pm : ClockTime
three_pm = record { hour12 = 3; minute = 0; pm = true }

parse_clock_retry_delay_ms-Lands_example : Lands (clock_ms three_pm) 43200000 10800000
unfolding parse_clock_retry_delay_ms
parse_clock_retry_delay_ms-Lands_example =
    parse_clock_retry_delay_ms-Lands three_pm 43200000 10800000 (omega arith) refl

abbrev options : QuotaBackoffOptions
options = record {
  seed = 116 ∷ 49 ∷ 58 ∷ 51 ∷ [];
  retry_count = 3;
  base_delay_ms = 30000;
  max_delay_ms = 1800000;
  factor = some (2, 0);
  jitter_ratio = some (1, 4);
  retry_hint_ms = none;
}

eight_times_the_base : (compute_quota_backoff options).exponential_ms ≡ 240000
unfolding compute_quota_backoff exponential_of
eight_times_the_base = refl

compute_quota_backoff-IsBounded_example : IsBounded options (compute_quota_backoff options)
compute_quota_backoff-IsBounded_example = compute_quota_backoff-IsBounded options
