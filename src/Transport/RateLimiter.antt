-- ===== src/Transport/RateLimiter.antt =====
-- internal/transport/ratelimit.go: a token bucket for each client.
pub mod Laws
use raftra.Common.{
  ℕ, zero, suc, ◌+◌, ◌-◌, ◌≤◌, ◌<◌, ◌^◌, String, ◌≡◌, ◌≢◌, refl, sym, ap, ◌∙◌, ◌⊎◌, ◌↔◌, inl, inr,
  Bool, true, false, not, ◌&&◌, ◌||◌, Option, none, some, List, [], ◌∷◌, ◌++◌, min, arith, ◌==◌,
  string_eq, nat_eq, u64, u64-eq_of_lt, eq_iff, ltb, leb, if◌then◌else◌, length, take, drop,
  get_elem?, last_or, Bool-cases, Option-cases,
}
use raftra.GoMap
use raftra.GoMap.{GoMap}

-- The float64 of Go as far as the limiter uses it. `duration` is the conversion of a count of
-- nanoseconds to a time.Duration, and `seconds` the method of that name.
pub record Float64 (F : Type 0) : Type 0 where
  pub of_nat : ℕ → F
  pub less : F → F → Bool
  pub least : F → F → F  -- math.Min
  pub ceil : F → F
  pub plus : F → F → F
  pub minus : F → F → F
  pub times : F → F → F
  pub over : F → F → F
  pub seconds : ℕ → F
  pub duration : F → ℕ

-- The facts of IEEE arithmetic that the limiter relies on; they hold of NaN too, of which no
-- test `<` holds.
pub record IsIeee {F : Type 0} (float : Float64 F) : Type 0 where
  pub less-least : (x y : F) → float.less x (float.least x y) ≡ false
  pub less-minus :
      (x y : F) → float.less x y ≡ false → float.less x (float.minus y (float.of_nat 1)) ≡ false

pub record Bucket (F : Type 0) : Type 0 where
  pub tokens : F
  pub last : ℕ

-- The field `now` is the clock, which the methods take as a number.
pub record RateLimiter (F : Type 0) : Type 0 where
  pub rate : F
  pub burst : F
  pub buckets : GoMap String (Bucket F)
  pub last_sweep : ℕ

abbrev pub minute : ℕ
minute = 60000000000

module _ {F : Type 0} ⦃float : Float64 F⦄ where
  -- A burst of the Limits is not negative, by Validate.
  unfoldable pub new_rate_limiter : F → ℕ → ℕ → RateLimiter F
  new_rate_limiter rate burst now = record {
    rate = rate;
    burst =
        if float.less (float.of_nat 0) (float.of_nat burst)
        then float.of_nat burst
        else float.ceil rate;
    buckets = [];
    last_sweep = now;
  }

  -- The loop of sweepLocked; it visits the map in any order.
  unfoldable pub without_idle : ℕ → ℕ → GoMap String (Bucket F) → GoMap String (Bucket F)
  without_idle now refill_time [] = []
  without_idle now refill_time ((key, bucket) ∷ m) =
      let rest = without_idle now refill_time m in
      if ltb refill_time (now - bucket.last) then rest else (key, bucket) ∷ rest

  unfoldable pub refill_time : RateLimiter F → ℕ
  refill_time rl =
      float.duration (float.times (float.over rl.burst rl.rate) (float.of_nat 1000000000))

  -- The clock is monotonic, so no difference of times is negative.
  unfoldable pub sweep_locked : ℕ → RateLimiter F → RateLimiter F
  sweep_locked now rl =
      if ltb (now - rl.last_sweep) minute
      then rl
      else record rl { last_sweep = now; buckets = without_idle now (refill_time rl) rl.buckets }

  -- The bucket of a client, a full one where there is none.
  unfoldable pub bucket_of : ℕ → String → RateLimiter F → Bucket F
  bucket_of now key rl = elim (GoMap.lookup rl.buckets key) [
    | none ↦ record { tokens = rl.burst; last = now }
    | some bucket ↦ bucket
  ]

  unfoldable pub refilled : ℕ → RateLimiter F → Bucket F → F
  refilled now rl bucket =
      float.least rl.burst
        (float.plus bucket.tokens (float.times (float.seconds (now - bucket.last)) rl.rate))

  unfoldable pub store_tokens : ℕ → String → F → RateLimiter F → RateLimiter F
  store_tokens now key tokens rl = record rl {
    buckets = GoMap.insert rl.buckets key (record { tokens = tokens; last = now });
  }

  unfoldable pub allow : ℕ → String → RateLimiter F → RateLimiter F × Bool
  allow now key rl =
      let swept = sweep_locked now rl in
      let tokens = refilled now swept (bucket_of now key swept) in
      if float.less tokens (float.of_nat 1)
      then (store_tokens now key tokens swept, false)
      else (store_tokens now key (float.minus tokens (float.of_nat 1)) swept, true)
