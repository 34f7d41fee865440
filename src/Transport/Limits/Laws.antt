-- ===== src/Transport/Limits/Laws.antt =====
-- When internal/transport/limits.go accepts a write.
use raftra.Common.{
  ℕ, ◌≤◌, ◌<◌, String, ◌≡◌, ◌⊎◌, ◌↔◌, Bool, true, false, none, some, arith, string_eq, nat_eq,
}
use Prim.Native.String.{len}
use raftra.Raft.Node.{RaftNode}
use raftra.Raft.Run.{get, kv_store_size}
use raftra.Transport.ClientIp.{Net}
use raftra.Transport.Message.{Request, content}
use raftra.Transport.RateLimiter.{Float64}
use raftra.Transport.Limits.{
  Limits, HttpServer, check_key, is_missing, pass_limiter, enforce_write_limits, read_value,
  accepted,
}

-- A key that the limits allow: not too long, and for a write that may create it, either there is
-- room for a new key or the key is there.
abbrev pub IsAllowed : {F S : Type 0} → String → Bool → Limits F → RaftNode S → Type 0
IsAllowed key creates_key limits rn =
    ((limits.max_key_bytes ≡ 0) ⊎ (len key ≤ limits.max_key_bytes))
    × ((creates_key ≡ false)
        ⊎ ((limits.max_keys ≡ 0)
            ⊎ ((kv_store_size rn < limits.max_keys) ⊎ ((v : String) × (get key rn ≡ some v)))))

is_missing-false :
    {S : Type 0} (key : String) (rn : RaftNode S)
    → (is_missing key rn ≡ false) ↔ ((v : String) × (get key rn ≡ some v))
unfolding is_missing
is_missing-false key rn = ground arith

check_key-none :
    {F S : Type 0} (key : String) (creates_key : Bool) (limits : Limits F) (rn : RaftNode S)
    → (check_key key creates_key limits rn ≡ none) ↔ IsAllowed key creates_key limits rn
unfolding check_key
check_key-none key creates_key limits rn = ground (arith, is_missing-false key rn)

module _ {F : Type 0} ⦃float : Float64 F⦄ ⦃net : Net⦄ {S : Type 0} where
  pub enforce_write_limits-accepts :
      (now : ℕ) (r : Request) (key : String) (creates_key : Bool) (hs : HttpServer F)
      (rn : RaftNode S)
      → ((enforce_write_limits now r key creates_key hs rn).1 ≡ none)
        ↔ (((pass_limiter now r hs).1 ≡ true) × IsAllowed key creates_key hs.limits rn)
  unfolding enforce_write_limits
  enforce_write_limits-accepts now r key creates_key hs rn =
      ground (arith, check_key-none key creates_key hs.limits rn)

-- A body is accepted, as it is, exactly if it can be read and is not longer than the limit.
pub read_value-accepts :
    {F : Type 0} (r : Request) (limits : Limits F) (value : String)
    → (read_value r limits ≡ accepted value) ↔ (
        (r.body ≡ content value)
        × ((limits.max_value_bytes ≡ 0) ⊎ (len value ≤ limits.max_value_bytes)))
unfolding read_value
read_value-accepts r limits value = ground arith

-- A server that limits nothing.
pub record IsUnlimited {F : Type 0} (hs : HttpServer F) : Type 0 where
  pub limiter : hs.limiter ≡ none
  pub max_key_bytes : hs.limits.max_key_bytes ≡ 0
  pub max_value_bytes : hs.limits.max_value_bytes ≡ 0
  pub max_keys : hs.limits.max_keys ≡ 0

module _ {F : Type 0} ⦃float : Float64 F⦄ ⦃net : Net⦄ {S : Type 0} where
  pub enforce-unlimited :
      (now : ℕ) (r : Request) (key : String) (creates_key : Bool) (hs : HttpServer F)
      (rn : RaftNode S)
      → IsUnlimited hs
      → enforce_write_limits now r key creates_key hs rn ≡ (hs, none)
  unfolding enforce_write_limits pass_limiter check_key
  enforce-unlimited now r key creates_key hs rn u =
      ground (arith, u.limiter, u.max_key_bytes, u.max_keys)

pub read_value-unlimited :
    {F : Type 0} (r : Request) (hs : HttpServer F) (value : String)
    → IsUnlimited hs
    → r.body ≡ content value
    → read_value r hs.limits ≡ accepted value
unfolding read_value
read_value-unlimited r hs value u e = ground (arith, u.max_value_bytes)
