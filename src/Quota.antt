-- ===== src/Quota.antt =====
-- packages/core/src/quota-retry.ts: how long to wait after a quota error. Finding the numbers in a
-- message is an argument; ratios are fractions, computed exactly.
pub mod Laws
mod Tests
use open_tiger.Prelude.{
  ltb, leb, ◌==◌, if◌then◌else◌, ℕ, ◌+◌, ◌-◌, ◌*◌, ◌/◌, ◌%◌, ◌^◌, min, max, Bool, ◌&&◌, Option,
  none, some, List, [], ◌∷◌,
}

-- What the expression of `parseClockRetryDelayMs` finds.
pub record ClockTime : Type 0 where
  pub hour12 : ℕ
  pub minute : ℕ
  pub pm : Bool

abbrev pub hour24 : ClockTime → ℕ
hour24 t = if t.pm then t.hour12 % 12 + 12 else t.hour12 % 12

abbrev pub day_ms : ℕ
day_ms = 24 * 3600000

abbrev pub clock_ms : ClockTime → ℕ
clock_ms t = hour24 t * 3600000 + t.minute * 60000

abbrev pub valid_clock : ClockTime → Bool
valid_clock t = (leb 1 t.hour12 && leb t.hour12 12) && leb t.minute 59

-- `now` is the time since midnight; every day has 24 hours.
unfoldable pub parse_clock_retry_delay_ms : Option ClockTime → (now : ℕ) → Option ℕ
parse_clock_retry_delay_ms none now = none
parse_clock_retry_delay_ms (some t) now =
    if valid_clock t
    then some (if leb (clock_ms t) now then clock_ms t + day_ms - now else clock_ms t - now)
    else none

abbrev with_candidate : Option ℕ → Option ℕ → Option ℕ
with_candidate none best = best
with_candidate (some n) none = if ltb 0 n then some n else none
with_candidate (some n) (some best) = if ltb 0 n then some (max n best) else some best

-- `parseQuotaRetryDelayMs`: the longest of the delays that the patterns and the clock give.
unfoldable pub longest_delay : List (Option ℕ) → Option ℕ
longest_delay [] = none
longest_delay (d ∷ ds) = with_candidate d (longest_delay ds)

-- `hash` goes over the codes of the seed, as 32-bit numbers.
unfoldable pub seed_hash : ℕ → List ℕ → ℕ
seed_hash hash [] = hash
seed_hash hash (code ∷ codes) = seed_hash ((hash * 31 + code) % 2 ^ 32) codes

unfoldable pub deterministic_jitter : List ℕ → (max_jitter_ms : ℕ) → ℕ
unfolding seed_hash
deterministic_jitter seed max_jitter_ms =
    if max_jitter_ms == 0 then 0 else seed_hash 0 seed % (max_jitter_ms + 1)

-- `factor` and `jitter_ratio` as numerator and denominator less one, none when not finite.
pub record QuotaBackoffOptions : Type 0 where
  pub seed : List ℕ
  pub retry_count : ℕ
  pub base_delay_ms : ℕ
  pub max_delay_ms : ℕ
  pub factor : Option (ℕ × ℕ)
  pub jitter_ratio : Option (ℕ × ℕ)
  pub retry_hint_ms : Option ℕ

pub record QuotaBackoffResult : Type 0 where
  pub cooldown_ms : ℕ
  pub retry_hint_ms : Option ℕ
  pub exponential_ms : ℕ
  pub jitter_ms : ℕ

abbrev pub base_of : QuotaBackoffOptions → ℕ
base_of o = max 1000 o.base_delay_ms

abbrev pub max_of : QuotaBackoffOptions → ℕ
max_of o = max (base_of o) o.max_delay_ms

-- The factor if it is greater than 1, else 2.
abbrev pub factor_of : Option (ℕ × ℕ) → ℕ × ℕ
factor_of none = (2, 0)
factor_of (some (n, d)) = if ltb (d + 1) n then (n, d) else (2, 0)

-- `Math.ceil(baseDelayMs * Math.pow(factor, retryCount))`
abbrev pub scaled : ℕ → ℕ → ℕ × ℕ → ℕ
scaled base retry_count (n, d) =
    (base * n ^ retry_count + ((d + 1) ^ retry_count - 1)) / (d + 1) ^ retry_count

unfoldable pub exponential_of : QuotaBackoffOptions → ℕ
exponential_of o = min (max_of o) (scaled (base_of o) o.retry_count (factor_of o.factor))

-- The ratio, at most 1, or 0.2; and `Math.floor(preJitterMs * jitterRatio)`.
abbrev pub ratio_of : Option (ℕ × ℕ) → ℕ × ℕ
ratio_of none = (1, 4)
ratio_of (some (n, d)) = (min n (d + 1), d)

abbrev pub jitter_bound : ℕ → ℕ × ℕ → ℕ
jitter_bound pre (n, d) = pre * n / (d + 1)

abbrev pub without_hint : QuotaBackoffOptions → ℕ → QuotaBackoffResult
without_hint o exponential =
    let jitter =
      deterministic_jitter o.seed
        (jitter_bound (min (max_of o) exponential) (ratio_of o.jitter_ratio)) in
    record {
      cooldown_ms = min (max_of o) (min (max_of o) exponential + jitter);
      retry_hint_ms = none;
      exponential_ms = exponential;
      jitter_ms = jitter;
    }

-- A hint is positive: `longest_delay` gives no other.
unfoldable pub compute_quota_backoff : QuotaBackoffOptions → QuotaBackoffResult
unfolding exponential_of deterministic_jitter
compute_quota_backoff o = elim o.retry_hint_ms [
  | none ↦ without_hint o (exponential_of o)
  | some hint ↦ record {
    cooldown_ms = max (exponential_of o) hint;
    retry_hint_ms = some hint;
    exponential_ms = exponential_of o;
    jitter_ms = 0;
  }
]
