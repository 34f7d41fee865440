-- ===== src/Transport/Http/Redirect.antt =====
-- Writes to a node that does not lead (internal/transport/http_server.go).
use raftra.Common.{
  ℕ, String, ◌≡◌, ◌≢◌, ap, ◌⊎◌, inl, inr, Bool, true, false, none, some, [], ◌∷◌, arith, string_eq,
  nat_eq, eq_iff, Option-cases,
}
use raftra.GoMap
use raftra.Kvstore.{Codec}
use raftra.Raft.Node.{RaftNode, role_eq}
use raftra.Raft.Run
use raftra.Storage.{StorageBackend}
use raftra.Transport.ClientIp.{Net}
use raftra.Transport.Http.{Served, responded, guarded, handle_put, handle_post, handle_delete}
use raftra.Transport.Reads.{leader_redirect_url, no_leader, redirect_if_follower}
use raftra.Transport.Limits.{HttpServer}
use raftra.Transport.Message.{Request, Response, plain}
use raftra.Transport.RateLimiter.{Float64}

-- The answer of a node that follows: the node and the server are left as they are, so nothing is
-- proposed and no token is spent, and the client is sent to the leader that the node knows, if it
-- knows one with an address, and else is told that there is none.
pub record IsRedirected {F S : Type 0} (r : Request) (hs : HttpServer F) (rn : RaftNode S)
    (s : Served F S) : Type 0 where
  pub node : s.node ≡ rn
  pub server : s.server ≡ hs
  pub known :
      (addr : String)
      → GoMap.lookup hs.peer_http_addrs rn.leader_id ≡ some addr
      → addr ≢ ""
      → s.reply
        ≡ responded (record {
          status = 307;
          headers = ("Location", leader_redirect_url addr r) ∷ [];
          content = plain "";
        })
  pub unknown :
      ((GoMap.lookup hs.peer_http_addrs rn.leader_id ≡ none)
        ⊎ (GoMap.lookup hs.peer_http_addrs rn.leader_id ≡ some ""))
      → s.reply ≡ responded no_leader

module _ {F S : Type 0} where
  redirect-known :
      (r : Request) (hs : HttpServer F) (rn : RaftNode S) (addr : String)
      → Run.is_leader rn ≡ false
      → GoMap.lookup hs.peer_http_addrs rn.leader_id ≡ some addr
      → addr ≢ ""
      → redirect_if_follower r hs rn
        ≡ some (record {
          status = 307;
          headers = ("Location", leader_redirect_url addr r) ∷ [];
          content = plain "";
        })
  unfolding redirect_if_follower Run.is_leader Run.leader_id
  redirect-known r hs rn addr f h ne = ground (arith, eq_iff addr "")

  redirect-unknown :
      (r : Request) (hs : HttpServer F) (rn : RaftNode S)
      → Run.is_leader rn ≡ false
      → ((GoMap.lookup hs.peer_http_addrs rn.leader_id ≡ none)
          ⊎ (GoMap.lookup hs.peer_http_addrs rn.leader_id ≡ some ""))
      → redirect_if_follower r hs rn ≡ some no_leader
  unfolding redirect_if_follower Run.is_leader Run.leader_id
  redirect-unknown r hs rn f h = ground (arith, eq_iff "" "")

  redirect-ne-none :
      (r : Request) (hs : HttpServer F) (rn : RaftNode S)
      → Run.is_leader rn ≡ false
      → redirect_if_follower r hs rn ≢ none
  unfolding redirect_if_follower
  redirect-ne-none r hs rn f h = ground arith

  IsRedirected-of :
      (r : Request) (hs : HttpServer F) (rn : RaftNode S) (response : Response) (s : Served F S)
      → Run.is_leader rn ≡ false
      → redirect_if_follower r hs rn ≡ some response
      → s ≡ record { server = hs; node = rn; reply = responded response }
      → IsRedirected r hs rn s
  IsRedirected-of r hs rn response s f e es = record {
    node = ap (λ x. x.node) es;
    server = ap (λ x. x.server) es;
    known = λ addr l ne. cc (es, e, redirect-known r hs rn addr f l ne);
    unknown = λ h. cc (es, e, redirect-unknown r hs rn f h);
  }

module _ {F S : Type 0} ⦃float : Float64 F⦄ ⦃net : Net⦄ where
  guarded-IsRedirected :
      (now : ℕ) (r : Request) (key : String) (creates_key : Bool)
      (go_on : HttpServer F → Served F S) (hs : HttpServer F) (rn : RaftNode S)
      → Run.is_leader rn ≡ false
      → IsRedirected r hs rn (guarded now r key creates_key go_on hs rn)
  unfolding guarded
  guarded-IsRedirected now r key creates_key go_on hs rn f =
      elim (Option-cases (redirect_if_follower r hs rn)) [
        | inl e ↦ absurd (redirect-ne-none r hs rn f e)
        | inr e ↦ IsRedirected-of r hs rn e.0 _ f e.1 (rw (e.1, guarded))
      ]

module _ {F S : Type 0} ⦃b : StorageBackend S⦄ ⦃codec : Codec⦄ ⦃float : Float64 F⦄ ⦃net : Net⦄ where
  pub follower-redirects :
      (now : ℕ) (r : Request) (key : String) (hs : HttpServer F) (rn : RaftNode S)
      → Run.is_leader rn ≡ false
      → IsRedirected r hs rn (handle_put now r key hs rn)
        × IsRedirected r hs rn (handle_post now r key hs rn)
        × IsRedirected r hs rn (handle_delete now r key hs rn)
  unfolding handle_put handle_post handle_delete
  follower-redirects now r key hs rn f = (
    guarded-IsRedirected now r key true _ hs rn f,
    guarded-IsRedirected now r key true _ hs rn f,
    guarded-IsRedirected now r key false _ hs rn f,
  )
