-- ===== src/Transport/Http/Serve.antt =====
-- A write and a read through the gateway of a node that leads alone, and the same write by gRPC
-- (internal/transport/http_server.go, handler.go).
use raftra.Common.{ℕ, String, ◌≡◌, true, none, some, [], ◌∷◌, arith, string_eq, nat_eq}
use raftra.Kvstore.{Codec, Bytes, cmd_set, IsFaithful}
use raftra.Raft.Node.{RaftNode, leader, role_eq}
use raftra.Raft.Propose.Single.{IsAlone, propose-applies, get-propose}
use raftra.Raft.Propose.Waits.{proposed}
use raftra.Raft.Run
use raftra.Storage.{StorageBackend, IsLawful}
use raftra.Transport.ClientIp.{Net}
use raftra.Transport.Grpc
use raftra.Transport.Http.{responded, written, guarded, propose, response_to, handle_put}
use raftra.Transport.Reads.{redirect_if_follower, handle_get}
use raftra.Transport.Limits.{HttpServer}
use raftra.Transport.Limits.Laws.{IsUnlimited, enforce-unlimited, read_value-unlimited}
use raftra.Transport.Message.{Request, content, literal, json_response}
use raftra.Transport.RateLimiter.{Float64}

module _ {F S : Type 0} ⦃b : StorageBackend S⦄ ⦃codec : Codec⦄ ⦃float : Float64 F⦄ ⦃net : Net⦄ where
  put-proposes :
      (now : ℕ) (r : Request) (key value : String) (bytes : Bytes) (hs : HttpServer F)
      (rn : RaftNode S)
      → IsUnlimited hs
      → rn.role ≡ leader
      → r.body ≡ content value
      → codec.encode (record { kind = cmd_set; key = key; value = value }) ≡ some bytes
      → handle_put now r key hs rn ≡ propose bytes (written 200 key value) hs rn
  unfolding handle_put guarded redirect_if_follower Run.is_leader
  put-proposes now r key value bytes hs rn u lead e h =
      ground (arith, enforce-unlimited now r key true hs rn u, read_value-unlimited r hs value u e)

  -- A PUT that an unlimited gateway takes does to the node what a Set by gRPC does.
  pub put-set :
      (now : ℕ) (r : Request) (key value : String) (bytes : Bytes) (hs : HttpServer F)
      (rn : RaftNode S)
      → IsUnlimited hs
      → r.body ≡ content value
      → codec.encode (record { kind = cmd_set; key = key; value = value }) ≡ some bytes
      → (handle_put now r key hs rn).node ≡ (Grpc.set (record { key = key; value = value }) rn).0
  unfolding handle_put guarded redirect_if_follower Run.is_leader propose Grpc.set Grpc.propose
  put-set now r key value bytes hs rn u e h =
      ground (arith, enforce-unlimited now r key true hs rn u, read_value-unlimited r hs value u e)

  module _ (law : IsLawful b) (faithful : IsFaithful codec) where
    -- A PUT at a leader without peers, whose gateway limits nothing and whose append succeeds, is
    -- answered at once with 200; and then a GET of the key is answered with the value.
    pub put-get :
        (now : ℕ) (r : Request) (key value : String) (bytes : Bytes) (hs : HttpServer F)
        (rn : RaftNode S)
        → IsUnlimited hs
        → IsAlone law faithful rn
        → r.body ≡ content value
        → codec.encode (record { kind = cmd_set; key = key; value = value }) ≡ some bytes
        → (b.append_entries (proposed bytes rn ∷ []) rn.storage).1 ≡ none
        → ((handle_put now r key hs rn).reply ≡ responded (written 200 key value))
          × (handle_get key (handle_put now r key hs rn).node
              ≡ json_response 200 (("key", literal key) ∷ ("value", literal value) ∷ []))
    unfolding handle_get propose response_to
    put-get now r key value bytes hs rn u a e h ok =
        rw (put-proposes now r key value bytes hs rn u a.role e h) (
          rw ((propose-applies law faithful rn _ bytes a h ok).0, propose, response_to),
          rw (get-propose law faithful rn key value bytes a h ok, handle_get, propose),
        )
