-- ===== src/Transport/RateLimiter/Laws.antt =====
-- What the limiter of internal/transport/ratelimit.go keeps: clients do not spend each other's
-- tokens, and no bucket holds more than the burst.
use raftra.Common.{
  ℕ, String, ◌≡◌, ◌≢◌, ◌⊎◌, inl, inr, true, false, [], ◌∷◌, arith, string_eq, nat_eq, eq_iff,
}
use raftra.GoMap
use raftra.GoMap.{GoMap}
use raftra.Transport.RateLimiter.{
  Float64, IsIeee, Bucket, RateLimiter, without_idle, sweep_locked, bucket_of, refilled, allow,
  refill_time, store_tokens,
}

module _ {F : Type 0} ⦃float : Float64 F⦄ where
  abbrev pub AreBounded : F → GoMap String (Bucket F) → Type 0
  AreBounded burst [] = Unit
  AreBounded burst ((key, bucket) ∷ m) =
      (float.less burst bucket.tokens ≡ false) × AreBounded burst m

  -- No bucket holds more than the burst.
  unfoldable pub IsBounded : RateLimiter F → Type 0
  IsBounded rl = AreBounded rl.burst rl.buckets

  without_idle-AreBounded :
      (now refill_time : ℕ) (burst : F) (m : GoMap String (Bucket F))
      → AreBounded burst m
      → AreBounded burst (without_idle now refill_time m)
  unfolding without_idle
  without_idle-AreBounded now t burst [] h = tt
  without_idle-AreBounded now t burst ((k, x) ∷ m) h =
      ground (arith, without_idle-AreBounded now t burst m h.1)

  insert-AreBounded :
      (burst : F) (m : GoMap String (Bucket F)) (key : String) (x : Bucket F)
      → float.less burst x.tokens ≡ false
      → AreBounded burst m
      → AreBounded burst (GoMap.insert m key x)
  unfolding GoMap.insert
  insert-AreBounded burst [] key x t h = (t, tt)
  insert-AreBounded burst ((k, y) ∷ m) key x t h =
      ground (arith, insert-AreBounded burst m key x t h.1)

  sweep_locked-IsBounded :
      (now : ℕ) (rl : RateLimiter F) → IsBounded rl → IsBounded (sweep_locked now rl)
  unfolding sweep_locked IsBounded
  sweep_locked-IsBounded now rl h =
      ground (arith, without_idle-AreBounded now (refill_time rl) rl.burst rl.buckets h)

  store_tokens-IsBounded :
      (now : ℕ) (key : String) (tokens : F) (rl : RateLimiter F)
      → float.less rl.burst tokens ≡ false
      → IsBounded rl
      → IsBounded (store_tokens now key tokens rl)
  unfolding store_tokens IsBounded
  store_tokens-IsBounded now key tokens rl t h =
      insert-AreBounded rl.burst rl.buckets key (record { tokens = tokens; last = now }) t h

  -- What `allow` does to the limiter and answers: the client's bucket alone is written.
  pub allow-cases :
      (now : ℕ) (key : String) (rl : RateLimiter F)
      → let swept = sweep_locked now rl in
        let tokens = refilled now swept (bucket_of now key swept) in
        (float.less tokens (float.of_nat 1) ≡ true)
          × (allow now key rl ≡ (store_tokens now key tokens swept, false))
        ⊎ (float.less tokens (float.of_nat 1) ≡ false)
          × (allow now key rl
              ≡ (store_tokens now key (float.minus tokens (float.of_nat 1)) swept, true))
  unfolding allow
  allow-cases now key rl = ground arith

  lookup-store_tokens :
      (now : ℕ) (key other : String) (tokens : F) (rl : RateLimiter F)
      → key ≢ other
      → GoMap.lookup (store_tokens now key tokens rl).buckets other ≡ GoMap.lookup rl.buckets other
  unfolding store_tokens
  lookup-store_tokens now key other tokens rl ne = ground (
    arith,
    eq_iff key other,
    GoMap.lookup-insert rl.buckets key (record { tokens = tokens; last = now }) other,
  )

  -- A call for one client leaves the bucket of any other client as the sweep of idle buckets leaves
  -- it, whatever the answer: no client spends another's tokens.
  pub allow-isolated :
      (now : ℕ) (key other : String) (rl : RateLimiter F)
      → key ≢ other
      → GoMap.lookup (allow now key rl).0.buckets other
        ≡ GoMap.lookup (sweep_locked now rl).buckets other
  allow-isolated now key other rl ne = elim (allow-cases now key rl) [
    | inl refused ↦ rw (refused.1, lookup-store_tokens now key other _ (sweep_locked now rl) ne)
    | inr allowed ↦ rw (allowed.1, lookup-store_tokens now key other _ (sweep_locked now rl) ne)
  ]

  module _ (law : IsIeee float) where
    refilled-bound :
        (now : ℕ) (rl : RateLimiter F) (bucket : Bucket F)
        → float.less rl.burst (refilled now rl bucket) ≡ false
    unfolding refilled
    refilled-bound now rl bucket = law.less-least rl.burst _

    -- `allow` keeps every bucket at or below the burst, whether it answers yes or no.
    pub allow-IsBounded :
        (now : ℕ) (key : String) (rl : RateLimiter F)
        → IsBounded rl
        → IsBounded (allow now key rl).0
    allow-IsBounded now key rl h =
        let swept = sweep_locked now rl in
        let kept = sweep_locked-IsBounded now rl h in
        elim (allow-cases now key rl) [
          | inl refused ↦ rw (refused.1) (
              store_tokens-IsBounded now key _ swept
                (refilled-bound now swept (bucket_of now key swept)) kept)
          | inr allowed ↦ rw (allowed.1) (
              store_tokens-IsBounded now key _ swept
                (law.less-minus _ _ (refilled-bound now swept (bucket_of now key swept))) kept)
        ]
