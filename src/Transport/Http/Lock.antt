-- ===== src/Transport/Http/Lock.antt =====
-- POST as a lock (`handlePost` of internal/transport/http_server.go, "Distributed Lock semantics"):
-- what its test for the key prevents, and what it does not.
use raftra.Common.{
  ℕ, ◌+◌, String, ◌≡◌, ◌≢◌, refl, sym, ap, ◌∙◌, Bool, true, Option, none, some, List, arith,
  string_eq, nat_eq, u64, length,
}
use raftra.Kvstore.{Codec, Bytes, cmd_set}
use raftra.Proto.{LogEntry}
use raftra.Raft.Node.{RaftNode, leader, role_eq}
use raftra.Raft.Propose.Waits.{IsWaiting, get-IsWaiting, propose-IsWaiting}
use raftra.Raft.Propose.{propose_command}
use raftra.Raft.Run
use raftra.Storage.{StorageBackend}
use raftra.Transport.ClientIp.{Net}
use raftra.Transport.Http.{
  propose_command, Reply, responded, awaiting, written, guarded, encoded_or_nil, propose,
  handle_post,
}
use raftra.Transport.Reads.{redirect_if_follower}
use raftra.Transport.Limits.Laws.{IsUnlimited, enforce-unlimited, read_value-unlimited}
use raftra.Transport.Limits.{Limits, HttpServer, check_key, enforce_write_limits}
use raftra.Transport.Message.{Request, Response, content}
use raftra.Transport.RateLimiter.{Float64}

-- The status of a response that is given at once; none where the client waits.
unfoldable pub status_of : Reply → Option ℕ
status_of (responded response) = some response.status
status_of (awaiting index ch success) = none

-- The response that a client waits for.
unfoldable pub promise : Reply → Option Response
promise (responded response) = none
promise (awaiting index ch success) = some success

module _ {F S : Type 0} where
  status-redirect :
      (r : Request) (hs : HttpServer F) (rn : RaftNode S) (response : Response)
      → redirect_if_follower r hs rn ≡ some response
      → response.status ≢ 201
  unfolding redirect_if_follower
  status-redirect r hs rn response e = ground arith

  status-check_key :
      (key : String) (creates_key : Bool) (limits : Limits F) (rn : RaftNode S)
      (response : Response)
      → check_key key creates_key limits rn ≡ some response
      → response.status ≢ 201
  unfolding check_key
  status-check_key key creates_key limits rn response e = ground arith

set_command : ⦃codec : Codec⦄ → String → String → Bytes
set_command ⦃codec⦄ key value =
    encoded_or_nil (codec.encode (record { kind = cmd_set; key = key; value = value }))

module _ {F S : Type 0} ⦃b : StorageBackend S⦄ ⦃codec : Codec⦄ ⦃float : Float64 F⦄ ⦃net : Net⦄ where
  status-enforce :
      (now : ℕ) (r : Request) (key : String) (creates_key : Bool) (hs : HttpServer F)
      (rn : RaftNode S) (response : Response)
      → (enforce_write_limits now r key creates_key hs rn).1 ≡ some response
      → response.status ≢ 201
  unfolding enforce_write_limits
  status-enforce now r key creates_key hs rn response e =
      ground (arith, status-check_key key creates_key hs.limits rn response)

  -- A POST for a key that the node's store holds proposes nothing: the node is left as it is, and the
  -- client is answered at once, and not with 201.
  pub handle_post-present :
      (now : ℕ) (r : Request) (key : String) (hs : HttpServer F) (rn : RaftNode S) (value : String)
      → Run.get key rn ≡ some value
      → ((handle_post now r key hs rn).node ≡ rn)
        × (status_of (handle_post now r key hs rn).reply ≢ none)
        × (status_of (handle_post now r key hs rn).reply ≢ some 201)
  unfolding handle_post guarded status_of
  handle_post-present now r key hs rn value held = grind (arith, status-redirect, status-enforce)

  -- On a leader whose store lacks the key, an unlimited POST goes to the log.
  post-proposes :
      (now : ℕ) (r : Request) (key value : String) (hs : HttpServer F) (rn : RaftNode S)
      → IsUnlimited hs
      → rn.role ≡ leader
      → Run.get key rn ≡ none
      → r.body ≡ content value
      → handle_post now r key hs rn ≡ propose (set_command key value) (written 201 key value) hs rn
  unfolding handle_post guarded redirect_if_follower Run.is_leader set_command
  post-proposes now r key value hs rn u lead missing e =
      ground (arith, enforce-unlimited now r key true hs rn u, read_value-unlimited r hs value u e)

  propose-waits :
      (encoded : Bytes) (success : Response) (hs : HttpServer F) (rn : RaftNode S)
      → IsWaiting encoded rn
      → propose encoded success hs rn ≡ record {
        server = hs;
        node = (propose_command encoded rn).0;
        reply = awaiting (u64 ((b.last_index rn.storage).0 + 1)) rn.next_channel success;
      }
  unfolding propose
  propose-waits encoded success hs rn w = rw (w.waits)

  pub posts_both_wait :
      (t u : ℕ) (q r : Request) (key v w : String) (hs : HttpServer F) (rn : RaftNode S)
      → IsUnlimited hs
      → rn.role ≡ leader
      → length rn.peers ≢ 0
      → Run.get key rn ≡ none
      → q.body ≡ content v
      → r.body ≡ content w
      → ((es : List LogEntry) (s : S) → (b.append_entries es s).1 ≡ none)
      → let first = handle_post t q key hs rn in
        let second = handle_post u r key first.server first.node in
        (promise first.reply ≡ some (written 201 key v))
        × (promise second.reply ≡ some (written 201 key w))
  unfolding promise
  posts_both_wait t u q r key v w hs rn free lead many missing qv body ok =
      let x = set_command key v in
      let y = set_command key w in
      let wx = propose-IsWaiting x rn lead many (ok _ _) in
      let rn' = (propose_command x rn).0 in
      let wy =
        propose-IsWaiting y rn' wx.role (λ e. many (ap length (sym wx.peers) ∙ e)) (ok _ _) in
      let first = post-proposes t q key v hs rn free lead missing qv ∙ propose-waits x _ hs rn wx in
      let second =
        post-proposes u r key w hs rn' free wx.role (get-IsWaiting key x rn wx ∙ missing) body
        ∙ propose-waits y _ hs rn' wy in
      rw (first) (refl, rw (second))
