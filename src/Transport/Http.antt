-- ===== src/Transport/Http.antt =====
-- internal/transport/http_server.go: the handlers of the gateway. A handler takes several locks in
-- turn; here it runs on one state of the node up to the wait of `ProposeCommand`, and the rest is
-- `finish_write`. The metrics of a request, which it sets when it ends, are left out.
pub mod Redirect
pub mod Lock
pub mod Serve
use raftra.Common.{
  ℕ, zero, suc, ◌+◌, ◌-◌, ◌≤◌, ◌<◌, ◌^◌, String, ◌≡◌, ◌≢◌, refl, sym, ap, ◌∙◌, ◌⊎◌, ◌↔◌, inl, inr,
  Bool, true, false, not, ◌&&◌, ◌||◌, Option, none, some, List, [], ◌∷◌, ◌++◌, min, arith, ◌==◌,
  string_eq, nat_eq, u64, u64-eq_of_lt, eq_iff, ltb, leb, if◌then◌else◌, length, take, drop,
  get_elem?, last_or, Bool-cases, Option-cases,
}
use Prim.Native.String.{len, slice, ◌++◌ as concat}
use text.Mathlib.Text.{starts_with}
use raftra.GoMap
use raftra.Kvstore.{Codec, Command, Bytes, cmd_set, cmd_delete}
use raftra.Raft.Node.{RaftNode, NodeRole, follower, candidate, leader, Channel}
use raftra.Raft.Propose.{Proposal, returned, waiting, Event, propose_command, finish_proposal}
use raftra.Raft.Run
use raftra.Storage.{StorageBackend, Err}
use raftra.Transport.ClientIp.{Net}
use raftra.Transport.Limits.{
  Limits, HttpServer, enforce_write_limits, Read, accepted, rejected, read_value,
}
use raftra.Transport.Message.{
  number, Request, Response, Value, literal, flag, error_text, json, plain, json_header,
  json_response, http_error,
}
use raftra.Transport.Reads.{redirect_if_follower, handle_get}
use raftra.Transport.RateLimiter.{Float64}

-- What a handler comes to: a response, or the wait for the commit of a write, with the response that
-- a commit gets.
pub data Reply : Type 0 where
  responded : Response → Reply
  awaiting : (index : ℕ) → Channel → Response → Reply

-- Where a handler leaves the server, the node and the client.
pub record Served (F S : Type 0) : Type 0 where
  pub server : HttpServer F
  pub node : RaftNode S
  pub reply : Reply

abbrev pub written : ℕ → String → String → Response
written status key value =
    json_response status
      (("success", flag true) ∷ ("key", literal key) ∷ ("value", literal value) ∷ [])

abbrev pub deleted : String → Response
deleted key = json_response 200 (("success", flag true) ∷ ("deleted", literal key) ∷ [])

-- What the client is told when ProposeCommand returns.
unfoldable pub response_to : Err → Response → Response
response_to none success = success
response_to (some e) success = json_response 500 (("error", error_text e) ∷ [])

-- encoded, _ := cmd.Encode()
unfoldable pub encoded_or_nil : Option Bytes → Bytes
encoded_or_nil none = []
encoded_or_nil (some bytes) = bytes

module _ {S : Type 0} ⦃b : StorageBackend S⦄ ⦃codec : Codec⦄ where
  -- The end of the wait.
  unfoldable pub finish_write : ℕ → Event → Response → RaftNode S → RaftNode S × Response
  finish_write index event success rn =
      let (rn', res) = finish_proposal index event rn in (rn', response_to res.1 success)

-- strings.TrimPrefix
trim_prefix : String → String → String
trim_prefix s p = if starts_with s p then slice s (len p) (len s) else s

module _ {F S : Type 0} ⦃float : Float64 F⦄ ⦃net : Net⦄ where
  -- A handler goes on after the redirect and the limits, or ends with their response.
  unfoldable pub guarded :
      ℕ
      → Request
      → String
      → Bool
      → (HttpServer F → Served F S)
      → HttpServer F
      → RaftNode S
      → Served F S
  guarded now r key creates_key go_on hs rn = elim (redirect_if_follower r hs rn) [
    | some response ↦ record { server = hs; node = rn; reply = responded response }
    | none ↦
        let (hs', refused) = enforce_write_limits now r key creates_key hs rn in
        elim refused [
          | some response ↦ record { server = hs'; node = rn; reply = responded response }
          | none ↦ go_on hs'
        ]
  ]

module _ {F S : Type 0} ⦃b : StorageBackend S⦄ ⦃codec : Codec⦄ ⦃float : Float64 F⦄ ⦃net : Net⦄ where
  unfoldable pub propose : Bytes → Response → HttpServer F → RaftNode S → Served F S
  propose encoded success hs rn =
      let (rn', proposal) = propose_command encoded rn in
      record {
        server = hs;
        node = rn';
        reply = elim proposal [
          | returned index err ↦ responded (response_to err success)
          | waiting index ch ↦ awaiting index ch success
        ];
      }

  put_value : String → Request → RaftNode S → HttpServer F → Served F S
  put_value key r rn hs = elim (read_value r hs.limits) [
    | rejected response ↦ record { server = hs; node = rn; reply = responded response }
    | accepted value ↦ elim (codec.encode (record { kind = cmd_set; key = key; value = value })) [
      | none ↦ record {
        server = hs;
        node = rn;
        reply = responded (http_error 500 "internal encoding error");
      }
      | some encoded ↦ propose encoded (written 200 key value) hs rn
    ]
  ]

  unfoldable pub handle_put : ℕ → Request → String → HttpServer F → RaftNode S → Served F S
  unfolding put_value
  handle_put now r key hs rn = guarded now r key true (put_value key r rn) hs rn

  post_value : String → Request → RaftNode S → HttpServer F → Served F S
  post_value key r rn hs = elim (read_value r hs.limits) [
    | rejected response ↦ record { server = hs; node = rn; reply = responded response }
    | accepted value ↦
        propose
          (encoded_or_nil (codec.encode (record { kind = cmd_set; key = key; value = value })))
          (written 201 key value) hs rn
  ]

  create : String → Request → RaftNode S → HttpServer F → Served F S
  unfolding post_value
  create key r rn hs = elim (Run.get key rn) [
    | some _ ↦ record {
      server = hs;
      node = rn;
      reply =
          responded (
            json_response 409
              (("error", literal "key already exists") ∷ ("key", literal key) ∷ []));
    }
    | none ↦ post_value key r rn hs
  ]

  unfoldable pub handle_post : ℕ → Request → String → HttpServer F → RaftNode S → Served F S
  unfolding create
  handle_post now r key hs rn = guarded now r key true (create key r rn) hs rn

  remove : String → RaftNode S → HttpServer F → Served F S
  remove key rn hs =
      propose (encoded_or_nil (codec.encode (record { kind = cmd_delete; key = key; value = "" })))
        (deleted key) hs rn

  unfoldable pub handle_delete : ℕ → Request → String → HttpServer F → RaftNode S → Served F S
  unfolding remove
  handle_delete now r key hs rn = guarded now r key false (remove key rn) hs rn

  respond : Response → HttpServer F → RaftNode S → Served F S
  respond response hs rn = record { server = hs; node = rn; reply = responded response }

  unfoldable pub handle_kv : ℕ → Request → HttpServer F → RaftNode S → Served F S
  unfolding trim_prefix respond
  handle_kv now r hs rn =
      let key = trim_prefix r.path "/api/v1/kv/" in
      if key == ""
      then respond (http_error 400 "missing key in path") hs rn
      else if r.method == "GET"
      then respond (handle_get key rn) hs rn
      else if r.method == "PUT"
      then handle_put now r key hs rn
      else if r.method == "POST"
      then handle_post now r key hs rn
      else if r.method == "DELETE"
      then handle_delete now r key hs rn
      else respond (http_error 405 "method not allowed") hs rn
