-- ===== src/Tests/Gateway.antt =====
-- The gateway and its limits on concrete requests (internal/transport).
use raftra.Common.{
  magnitude, is_negative, pos, ℕ, ◌≤◌, ◌+◌, ◌-◌, String, ◌≡◌, ◌≢◌, refl, ◌↔◌, true, false, none,
  some, [], ◌∷◌, arith, ◌==◌, string_eq, nat_eq, eq_iff, ltb, if◌then◌else◌,
}
use Prim.Native.Nat.{◌*◌, ◌/◌}
use raftra.GoMap
use raftra.Raft.Node.{role_eq}
use raftra.Storage.Memory.{memory_backend}
use raftra.Tests.Fixtures.{leader1}
use raftra.Transport.ClientIp.{Net, v4, v6, client_addr, client_ip, client_ip-same_network}
use raftra.Transport.Limits.{
  Limits, HttpServer, new_http_server, enforce_write_limits, pass_limiter,
}
use raftra.Transport.Limits.Laws.{IsAllowed, IsUnlimited, enforce_write_limits-accepts}
use raftra.Transport.Limits.Validate.{
  LimitFlags, Classes, IsClassified, validate, limits_of, validate-refill,
}
use raftra.Transport.Message.{Request, content}
use raftra.Transport.RateLimiter.{
  Float64, IsIeee, RateLimiter, sweep_locked, allow, new_rate_limiter, refill_time,
}
use raftra.Transport.RateLimiter.Laws.{IsBounded, allow-IsBounded, allow-isolated}

-- Whole tokens, for the tests.
instance abbrev pub whole : Float64 ℕ
whole = record {
  of_nat = λ n. n;
  less = ltb;
  least = λ x y. if ltb y x then y else x;
  ceil = λ x. x;
  plus = λ x y. x + y;
  minus = λ x y. x - y;
  times = λ x y. x * y;
  over = λ x y. x / y;
  seconds = λ n. n / 1000000000;
  duration = λ x. x;
}

whole-IsIeee : IsIeee whole
whole-IsIeee = record { less-least = λ x y. ground arith; less-minus = λ x y h. ground arith }

-- Two addresses of one network, and a host for every other text.
instance abbrev pub test_net : Net
test_net = record {
  parse_ip = λ s.
      if s == "2001:db8::1"
      then some (v6 (8193 ∷ 3512 ∷ 0 ∷ 0 ∷ 0 ∷ 0 ∷ 0 ∷ 1 ∷ []))
      else if s == "2001:db8::2"
      then some (v6 (8193 ∷ 3512 ∷ 0 ∷ 0 ∷ 0 ∷ 0 ∷ 0 ∷ 2 ∷ []))
      else none;
  split_host = λ s. some s;
  last_hop = λ s. s;
  show = λ ip. elim ip [ v4 bytes ↦ "v4" | v6 groups ↦ "2001:db8::" ];
}

abbrev request_from : String → Request
request_from addr = record {
  method = "PUT";
  path = "/api/v1/kv/x";
  escaped_path = "/api/v1/kv/x";
  raw_query = "";
  forwarded_for = [];
  remote_addr = addr;
  body = content "1";
}

abbrev pub request1 : Request
request1 = request_from "2001:db8::1"

abbrev pub no_limits : Limits ℕ
no_limits = record {
  max_key_bytes = 0;
  max_value_bytes = 0;
  max_keys = 0;
  write_rate = 0;
  write_burst = 0;
  trust_proxy = false;
  cors_origin = "";
}

abbrev pub server1 : HttpServer ℕ
server1 = record {
  peer_http_addrs = ("n2", "http://localhost:8002") ∷ [];
  limits = no_limits;
  limiter = none;
}

pub server1-IsUnlimited : IsUnlimited server1
server1-IsUnlimited = record {
  limiter = refl;
  max_key_bytes = refl;
  max_value_bytes = refl;
  max_keys = refl;
}

abbrev limiter1 : RateLimiter ℕ
limiter1 = record {
  rate = 1;
  burst = 2;
  buckets = ("a", record { tokens = 1; last = 0 }) ∷ [];
  last_sweep = 0;
}

limiter1-IsBounded : IsBounded limiter1
unfolding IsBounded
limiter1-IsBounded = (refl, tt)

allow-IsBounded_example : IsBounded (allow 10 "a" limiter1).0
allow-IsBounded_example = allow-IsBounded whole-IsIeee 10 "a" limiter1 limiter1-IsBounded

a-ne-b : ◌≢◌ {A = String} "b" "a"
a-ne-b e = ground (arith, eq_iff "b" "a", e)

allow-isolated_example :
    GoMap.lookup (allow 10 "b" limiter1).0.buckets "a"
    ≡ GoMap.lookup (sweep_locked 10 limiter1).buckets "a"
allow-isolated_example = allow-isolated 10 "b" "a" limiter1 a-ne-b

client_ip-same_network_example :
    client_ip request1 false ≡ client_ip (request_from "2001:db8::2") false
unfolding client_addr
client_ip-same_network_example =
    client_ip-same_network request1 (request_from "2001:db8::2") false
      (8193 ∷ 3512 ∷ 0 ∷ 0 ∷ 0 ∷ 0 ∷ 0 ∷ 1 ∷ []) (8193 ∷ 3512 ∷ 0 ∷ 0 ∷ 0 ∷ 0 ∷ 0 ∷ 2 ∷ []) refl
      refl refl

enforce_write_limits-accepts_example :
    ((enforce_write_limits 0 request1 "x" true server1 leader1).1 ≡ none)
    ↔ (((pass_limiter 0 request1 server1).1 ≡ true) × IsAllowed "x" true no_limits leader1)
enforce_write_limits-accepts_example =
    enforce_write_limits-accepts 0 request1 "x" true server1 leader1

-- Whole numbers are finite.
instance abbrev whole_classes : Classes ℕ
whole_classes = record { is_nan = λ x. false; is_inf = λ x. false }

whole-IsClassified : IsClassified whole whole_classes
whole-IsClassified = record {
  less-of_nat = λ n. refl;
  is_nan-of_nat = λ n. refl;
  is_nan-ceil = λ x h. h;
  is_nan-over = λ x y h i p. h;
  duration-le = λ n x h less. ground arith;
}

-- Bursts of five writes, at two a second.
abbrev flags1 : LimitFlags ℕ
flags1 = record {
  max_key_bytes = pos 256;
  max_value_bytes = pos 4096;
  max_keys = pos 0;
  write_rate = 2;
  write_burst = pos 5;
  trust_proxy = false;
  cors_origin = "";
}

abbrev limiter2 : RateLimiter ℕ
limiter2 = record { rate = 2; burst = 5; buckets = []; last_sweep = 0 }

flags1_accepted : validate flags1 ≡ none
unfolding validate is_negative magnitude
flags1_accepted = refl

flags1_limiter : (new_http_server [] (limits_of flags1) 0).limiter ≡ some limiter2
unfolding new_http_server limits_of new_rate_limiter magnitude
flags1_limiter = refl

validate-refill_example : refill_time limiter2 ≤ 86400 * 1000000000
validate-refill_example =
    validate-refill flags1 [] 0 limiter2 whole-IsClassified flags1_accepted flags1_limiter
