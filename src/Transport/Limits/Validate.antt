-- ===== src/Transport/Limits/Validate.antt =====
-- internal/transport/limits.go: Validate, which the server calls on its flags before it starts the
-- gateway.
use raftra.Common.{
  ℤ, is_negative, magnitude, ◌*◌, ℕ, ◌≤◌, String, ◌≡◌, Bool, true, false, ◌&&◌, ◌||◌, Option, none,
  some, arith, ◌==◌, string_eq, nat_eq, ltb, if◌then◌else◌,
}
use raftra.GoMap.{GoMap}
use raftra.Transport.ClientIp.{Net}
use raftra.Transport.Limits.{Limits, new_http_server}
use raftra.Transport.RateLimiter.{Float64, RateLimiter, new_rate_limiter, refill_time}

-- The Limits as the flags give them.
pub record LimitFlags (F : Type 0) : Type 0 where
  pub max_key_bytes : ℤ
  pub max_value_bytes : ℤ
  pub max_keys : ℤ
  pub write_rate : F
  pub write_burst : ℤ
  pub trust_proxy : Bool
  pub cors_origin : String

-- The flag that is refused.
pub data LimitError : Type 0 where
  bad_key_bytes : LimitError
  bad_value_bytes : LimitError
  bad_keys : LimitError
  bad_burst : LimitError
  bad_rate : LimitError
  slow_refill : LimitError

-- math.IsNaN, and math.IsInf for either sign.
pub record Classes (F : Type 0) : Type 0 where
  pub is_nan : F → Bool
  pub is_inf : F → Bool

-- The IEEE facts on which the bound rests: what is no NaN stays so, the conversion of an int keeps the
-- sign, and a quotient of at most `n` comes to at most `n` seconds.
pub record IsClassified {F : Type 0} (float : Float64 F) (classes : Classes F) : Type 0 where
  pub less-of_nat : (n : ℕ) → float.less (float.of_nat 0) (float.of_nat n) ≡ ltb 0 n
  pub is_nan-of_nat : (n : ℕ) → classes.is_nan (float.of_nat n) ≡ false
  pub is_nan-ceil : (x : F) → classes.is_nan x ≡ false → classes.is_nan (float.ceil x) ≡ false
  pub is_nan-over :
      (x y : F)
      → classes.is_nan x ≡ false
      → classes.is_inf y ≡ false
      → float.less (float.of_nat 0) y ≡ true
      → classes.is_nan (float.over x y) ≡ false
  pub duration-le :
      (n : ℕ) (x : F)
      → classes.is_nan x ≡ false
      → float.less (float.of_nat n) x ≡ false
      → float.duration (float.times x (float.of_nat 1000000000)) ≤ n * 1000000000

module _ {F : Type 0} ⦃float : Float64 F⦄ ⦃classes : Classes F⦄ where
  effective_burst : LimitFlags F → F
  effective_burst l =
      if magnitude l.write_burst == 0
      then float.ceil l.write_rate
      else float.of_nat (magnitude l.write_burst)

  unfoldable pub validate : LimitFlags F → Option LimitError
  unfolding effective_burst
  validate l =
      if is_negative l.max_key_bytes
      then some bad_key_bytes
      else if is_negative l.max_value_bytes
      then some bad_value_bytes
      else if is_negative l.max_keys
      then some bad_keys
      else if is_negative l.write_burst
      then some bad_burst
      else if classes.is_nan l.write_rate
          || classes.is_inf l.write_rate
          || float.less l.write_rate (float.of_nat 0)
      then some bad_rate
      else if float.less (float.of_nat 0) l.write_rate
          && float.less (float.of_nat 86400) (float.over (effective_burst l) l.write_rate)
      then some slow_refill
      else none

  -- The Limits of flags that Validate accepts.
  unfoldable pub limits_of : LimitFlags F → Limits F
  limits_of l = record {
    max_key_bytes = magnitude l.max_key_bytes;
    max_value_bytes = magnitude l.max_value_bytes;
    max_keys = magnitude l.max_keys;
    write_rate = l.write_rate;
    write_burst = magnitude l.write_burst;
    trust_proxy = l.trust_proxy;
    cors_origin = l.cors_origin;
  }

  -- What is accepted has a rate that is a number, and no slow refill.
  validate-none :
      (l : LimitFlags F)
      → validate l ≡ none
      → (classes.is_nan l.write_rate ≡ false)
        × (classes.is_inf l.write_rate ≡ false)
        × (float.less (float.of_nat 0) l.write_rate ≡ true
            → float.less (float.of_nat 86400) (float.over (effective_burst l) l.write_rate) ≡ false)
  unfolding validate
  validate-none l h = ground (arith, h)

  -- The limiter takes the rate, and the burst that Validate computes.
  limiter_of_flags :
      ⦃net : Net⦄ (l : LimitFlags F) (addrs : GoMap String String) (now : ℕ) (rl : RateLimiter F)
      → IsClassified float classes
      → (new_http_server addrs (limits_of l) now).limiter ≡ some rl
      → (float.less (float.of_nat 0) l.write_rate ≡ true)
        × (rl.rate ≡ l.write_rate)
        × (rl.burst ≡ effective_burst l)
  unfolding new_http_server new_rate_limiter limits_of effective_burst
  limiter_of_flags l addrs now rl c e = ground (arith, e, c.less-of_nat (magnitude l.write_burst))

  is_nan-effective_burst :
      (l : LimitFlags F)
      → IsClassified float classes
      → classes.is_nan l.write_rate ≡ false
      → classes.is_nan (effective_burst l) ≡ false
  unfolding effective_burst
  is_nan-effective_burst l c h =
      ground (arith, c.is_nan-ceil l.write_rate h, c.is_nan-of_nat (magnitude l.write_burst))

  pub validate-refill :
      ⦃net : Net⦄ (l : LimitFlags F) (addrs : GoMap String String) (now : ℕ) (rl : RateLimiter F)
      → IsClassified float classes
      → validate l ≡ none
      → (new_http_server addrs (limits_of l) now).limiter ≡ some rl
      → refill_time rl ≤ 86400 * 1000000000
  unfolding refill_time
  validate-refill l addrs now rl c ok e =
      let (number, finite, quick) = validate-none l ok in
      let (on, rate, burst) = limiter_of_flags l addrs now rl c e in
      rw (rate, burst)
        (c.duration-le 86400 (float.over (effective_burst l) l.write_rate)
          (c.is_nan-over (effective_burst l) l.write_rate (is_nan-effective_burst l c number) finite
            on)
          (quick on))
