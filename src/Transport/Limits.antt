-- ===== src/Transport/Limits.antt =====
-- internal/transport/limits.go: the limits on writes.
pub mod Laws
pub mod Validate
use raftra.Common.{
  ℕ, zero, suc, ◌+◌, ◌-◌, ◌≤◌, ◌<◌, ◌^◌, String, ◌≡◌, ◌≢◌, refl, sym, ap, ◌∙◌, ◌⊎◌, ◌↔◌, inl, inr,
  Bool, true, false, not, ◌&&◌, ◌||◌, Option, none, some, List, [], ◌∷◌, ◌++◌, min, arith, ◌==◌,
  string_eq, nat_eq, u64, u64-eq_of_lt, eq_iff, ltb, leb, if◌then◌else◌, length, take, drop,
  get_elem?, last_or, Bool-cases, Option-cases,
}
use Prim.Native.String.{len}
use raftra.Raft.Node.{RaftNode}
use raftra.Raft.Run.{get, kv_store_size}
use raftra.Transport.ClientIp.{Net, client_ip}
use raftra.Transport.Message.{
  Request, Response, Value, content, unreadable, literal, max_bytes, max_keys, json, json_header,
  json_response,
}
use raftra.Transport.RateLimiter.{Float64, RateLimiter, new_rate_limiter, allow}
use raftra.GoMap.{GoMap}

-- The numbers are not negative, by Validate.
pub record Limits (F : Type 0) : Type 0 where
  pub max_key_bytes : ℕ
  pub max_value_bytes : ℕ
  pub max_keys : ℕ
  pub write_rate : F
  pub write_burst : ℕ
  pub trust_proxy : Bool
  pub cors_origin : String

-- The HTTPServer of http_server.go, without its logger and listener.
pub record HttpServer (F : Type 0) : Type 0 where
  pub peer_http_addrs : GoMap String String
  pub limits : Limits F
  pub limiter : Option (RateLimiter F)

abbrev pub write_json_error : ℕ → List (String × String) → Value → Response
write_json_error status headers msg = record {
  status = status;
  headers = headers ++ json_header ∷ [];
  content = json (("error", msg) ∷ []);
}

-- if _, exists := s.node.Get(key); !exists
unfoldable pub is_missing : {S : Type 0} → String → RaftNode S → Bool
is_missing key rn = elim (get key rn) [ none ↦ true | some _ ↦ false ]

-- The tests on the key, after the limiter's.
unfoldable pub check_key : {F S : Type 0} → String → Bool → Limits F → RaftNode S → Option Response
check_key key creates_key limits rn =
    if ltb 0 limits.max_key_bytes && ltb limits.max_key_bytes (len key)
    then some (write_json_error 413 [] (max_bytes "key too large" limits.max_key_bytes))
    else if creates_key
        && ltb 0 limits.max_keys
        && leb limits.max_keys (kv_store_size rn)
        && is_missing key rn
    then some (write_json_error 507 [] (max_keys limits.max_keys))
    else none

module _ {F : Type 0} ⦃float : Float64 F⦄ ⦃net : Net⦄ where
  unfoldable pub new_http_server : GoMap String String → Limits F → ℕ → HttpServer F
  new_http_server peer_http_addrs limits now = record {
    peer_http_addrs = peer_http_addrs;
    limits = limits;
    limiter =
        if float.less (float.of_nat 0) limits.write_rate
        then some (new_rate_limiter limits.write_rate limits.write_burst now)
        else none;
  }

  -- s.limiter != nil && !s.limiter.allow(…): the limiter afterwards, and whether the write may go on.
  unfoldable pub pass_limiter : ℕ → Request → HttpServer F → HttpServer F × Bool
  pass_limiter now r hs = elim hs.limiter [
    | none ↦ (hs, true)
    | some limiter ↦
        let (limiter', ok) = allow now (client_ip r hs.limits.trust_proxy) limiter in
        (record hs { limiter = some limiter' }, ok)
  ]

  module _ {S : Type 0} where
    -- `none` where the write is accepted.
    unfoldable pub enforce_write_limits :
        ℕ → Request → String → Bool → HttpServer F → RaftNode S → HttpServer F × Option Response
    enforce_write_limits now r key creates_key hs rn =
        let (hs', ok) = pass_limiter now r hs in
        if ok then (hs', check_key key creates_key hs.limits rn) else (
          hs',
          some (
              write_json_error 429 (("Retry-After", "1") ∷ [])
                (literal "rate limit exceeded: slow down and retry in a second")),
        )

-- A value, or the response that rejects the body.
pub data Read : Type 0 where
  accepted : String → Read
  rejected : Response → Read

-- http.MaxBytesReader fails where the body is longer than the limit.
unfoldable pub read_value : {F : Type 0} → Request → Limits F → Read
read_value r limits = elim r.body [
  | content data' ↦
      if ltb 0 limits.max_value_bytes && ltb limits.max_value_bytes (len data')
      then rejected (write_json_error 413 [] (max_bytes "value too large" limits.max_value_bytes))
      else accepted data'
  | unreadable ↦ rejected (write_json_error 400 [] (literal "failed to read body"))
]
