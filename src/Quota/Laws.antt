-- ===== src/Quota/Laws.antt =====
-- Bounds of the waiting times.
use open_tiger.Prelude.{
  leb, ◌==◌, if◌then◌else◌, leb→le, Bool-cases, Option-cases, &&_parts, some_injective, ℕ, ◌+◌, ◌-◌,
  ◌≤◌, ◌<◌, min, max, ◌≡◌, refl, ap, subst, ◌⊎◌, inl, inr, true, none, some, List, arith,
}
use native.Mathlib.Nat.{mod-lt}
use open_tiger.Quota.{
  ClockTime, hour24, day_ms, clock_ms, valid_clock, parse_clock_retry_delay_ms, seed_hash,
  deterministic_jitter, QuotaBackoffOptions, QuotaBackoffResult, max_of, exponential_of, ratio_of,
  jitter_bound, without_hint, compute_quota_backoff,
}

abbrev until : (clock now : ℕ) → ℕ
until clock now = if leb clock now then clock + day_ms - now else clock - now

-- Above zero, at most a day, and then the clock shows the time, today or tomorrow.
abbrev pub Lands : (clock now delay : ℕ) → Type 0
Lands clock now delay =
    (0 < delay) × (delay ≤ day_ms) × ((now + delay ≡ clock) ⊎ (now + delay ≡ clock + day_ms))

until-Lands : (clock now : ℕ) → clock < day_ms → now < day_ms → Lands clock now (until clock now)
until-Lands clock now h k = elim (Bool-cases (leb clock now)) [
  | inl e ↦
      let le = leb→le clock now e in
      rw e (omega (arith, le), omega (arith, le), inr (omega (arith, le)))
  | inr e ↦
      let lt : now < clock = ground arith in
      rw e (omega (arith, lt), omega (arith, h, lt), inl (omega (arith, lt)))
]

hour24-lt : (t : ClockTime) → hour24 t < 24
hour24-lt t = let small = mod-lt t.hour12 {m = 12} (omega arith) in ground arith

clock_ms-lt : (t : ClockTime) → t.minute ≤ 59 → clock_ms t < day_ms
clock_ms-lt t h = omega (arith, h, hour24-lt t)

parse_some :
    (t : ClockTime) (now delay : ℕ)
    → parse_clock_retry_delay_ms (some t) now ≡ some delay
    → (valid_clock t ≡ true) × (until (clock_ms t) now ≡ delay)
unfolding parse_clock_retry_delay_ms
parse_some t now delay e = elim (Bool-cases (valid_clock t)) [
  | inl v ↦ (
    v,
    some_injective
        (subst (λ b. (if b then some (until (clock_ms t) now) else none) ≡ some delay) v e),
  )
  | inr v ↦ cc (subst (λ b. (if b then some (until (clock_ms t) now) else none) ≡ some delay) v e)
]

-- A retry time on the clock gives a delay above zero and of at most a day, after which it is that
-- time of the day, today or tomorrow. The present is a time of the day, in milliseconds.
pub parse_clock_retry_delay_ms-Lands :
    (t : ClockTime) (now delay : ℕ)
    → now < day_ms
    → parse_clock_retry_delay_ms (some t) now ≡ some delay
    → Lands (clock_ms t) now delay
parse_clock_retry_delay_ms-Lands t now delay h e =
    let (v, same) = parse_some t now delay e in
    let minute_ok = leb→le t.minute 59 (&&_parts _ _ v).1 in
    subst (λ d. Lands (clock_ms t) now d) same
      (until-Lands (clock_ms t) now (clock_ms-lt t minute_ok) h)

deterministic_jitter-le : (seed : List ℕ) (bound : ℕ) → deterministic_jitter seed bound ≤ bound
unfolding deterministic_jitter
deterministic_jitter-le seed bound =
    let small = mod-lt (seed_hash 0 seed) {m = bound + 1} (omega arith) in
    elim (Bool-cases (bound == 0)) [
      | inl e ↦ rw e (omega arith)
      | inr e ↦ rw e (omega (arith, small))
    ]

-- How a cooldown is bounded: with a hint it is the hint or the exponential delay, whichever is
-- longer, and has no jitter; without one it lies between the exponential delay and the maximum,
-- above the former by no more than the jitter, itself at most its share of that delay.
pub record IsBounded (o : QuotaBackoffOptions) (r : QuotaBackoffResult) : Type 0 where
  pub exponential_le : r.exponential_ms ≤ max_of o
  pub hinted :
      (hint : ℕ)
      → o.retry_hint_ms ≡ some hint
      → (r.cooldown_ms ≡ max r.exponential_ms hint) × (r.jitter_ms ≡ 0)
  pub unhinted :
      o.retry_hint_ms ≡ none
      → (r.exponential_ms ≤ r.cooldown_ms)
        × (r.cooldown_ms ≤ max_of o)
        × (r.cooldown_ms ≤ r.exponential_ms + r.jitter_ms)
        × (r.jitter_ms ≤ jitter_bound r.exponential_ms (ratio_of o.jitter_ratio))

exponential-le : (o : QuotaBackoffOptions) → exponential_of o ≤ max_of o
unfolding exponential_of
exponential-le o = omega arith

min_of_le : (a b : ℕ) → b ≤ a → min a b ≡ b
min_of_le a b h = omega (arith, h)

without_hint-bounds :
    (o : QuotaBackoffOptions) (x : ℕ)
    → x ≤ max_of o
    → (x ≤ (without_hint o x).cooldown_ms)
      × ((without_hint o x).cooldown_ms ≤ max_of o)
      × ((without_hint o x).cooldown_ms ≤ x + (without_hint o x).jitter_ms)
      × ((without_hint o x).jitter_ms ≤ jitter_bound x (ratio_of o.jitter_ratio))
without_hint-bounds o x h =
    let jitter =
      deterministic_jitter-le o.seed (jitter_bound (min (max_of o) x) (ratio_of o.jitter_ratio)) in
    (
      omega (arith, h),
      omega (arith, h),
      omega (arith, h),
      subst (λ p. (without_hint o x).jitter_ms ≤ jitter_bound p (ratio_of o.jitter_ratio))
          (min_of_le (max_of o) x h) jitter,
    )

-- A cooldown after a quota error honours the provider's hint and stays in bounds. With a hint it is
-- the hint or the exponential delay, whichever is longer, without jitter. Without one it lies
-- between the exponential delay and the maximal delay, and above the former by no more than the
-- jitter, which is at most its ratio of that delay. The exponential delay is at most the maximal.
pub compute_quota_backoff-IsBounded :
    (o : QuotaBackoffOptions) → IsBounded o (compute_quota_backoff o)
unfolding compute_quota_backoff
compute_quota_backoff-IsBounded o = elim (Option-cases o.retry_hint_ms) [
  | inl e ↦
      rw (compute_quota_backoff, e)
        (record {
          exponential_le = exponential-le o;
          hinted = λ hint f. cc f;
          unhinted = λ f. without_hint-bounds o (exponential_of o) (exponential-le o);
        })
  | inr (hint, e) ↦
      rw (compute_quota_backoff, e)
        (record {
          exponential_le = exponential-le o;
          hinted = λ other f. (ap (λ x. max (exponential_of o) x) (some_injective f), refl);
          unhinted = λ f. cc f;
        })
]
