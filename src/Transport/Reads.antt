-- ===== src/Transport/Reads.antt =====
-- The handlers of internal/transport/http_server.go that only read the node, and the redirect of those
-- that write.
use raftra.Common.{
  String, Option, none, some, List, [], ◌∷◌, string_eq, nat_eq, ◌==◌, if◌then◌else◌,
}
use Prim.Native.String.{◌++◌ as concat}
use raftra.GoMap
use raftra.Raft.Node.{RaftNode, NodeRole, follower, candidate, leader}
use raftra.Raft.Run
use raftra.Transport.Limits.{Limits, HttpServer}
use raftra.Transport.Message.{
  Request, Response, Value, literal, flag, number, plain, json, json_header, json_response,
  http_error,
}

unfoldable pub leader_redirect_url : String → Request → String
leader_redirect_url leader_addr u =
    let target = concat leader_addr u.escaped_path in
    if u.raw_query == "" then target else concat target (concat "?" u.raw_query)

abbrev pub role_name : NodeRole → String
role_name follower = "Follower"
role_name candidate = "Candidate"
role_name leader = "Leader"

abbrev pub no_leader : Response
no_leader =
    json_response 503
      (("error", literal "cluster currently has no leader (election in progress)") ∷ [])

module _ {F S : Type 0} where
  -- `none` on the leader.
  unfoldable pub redirect_if_follower : Request → HttpServer F → RaftNode S → Option Response
  redirect_if_follower r hs rn =
      if Run.is_leader rn then none else elim (GoMap.lookup hs.peer_http_addrs (Run.leader_id rn)) [
        | none ↦ some no_leader
        | some leader_addr ↦
            if leader_addr == ""
            then some no_leader
            else some (record {
              status = 307;
              headers = ("Location", leader_redirect_url leader_addr r) ∷ [];
              content = plain "";
            })
      ]

module _ {S : Type 0} where
  unfoldable pub handle_get : String → RaftNode S → Response
  handle_get key rn = elim (Run.get key rn) [
    | none ↦ json_response 404 (("error", literal "key not found") ∷ ("key", literal key) ∷ [])
    | some val ↦ json_response 200 (("key", literal key) ∷ ("value", literal val) ∷ [])
  ]

  -- The values that the handler reads one after the other.
  status_fields : RaftNode S → List (String × Value)
  status_fields rn =
      ("role", literal (role_name rn.role))
      ∷ ("term", number rn.persistent.current_term)
      ∷ ("is_leader", flag (Run.is_leader rn))
      ∷ ("leader_id", literal (Run.leader_id rn))
      ∷ ("commit_index", number rn.volatile.commit_index)
      ∷ ("last_applied", number rn.volatile.last_applied)
      ∷ []

  unfoldable pub handle_status : {F : Type 0} → Request → Limits F → RaftNode S → Response
  unfolding status_fields
  handle_status r limits rn =
      if r.method == "GET"
      then record {
        status = 200;
        headers =
            json_header
            ∷ (if limits.cors_origin == ""
                then []
                else ("Access-Control-Allow-Origin", limits.cors_origin) ∷ []);
        content = json (status_fields rn);
      }
      else http_error 405 "method not allowed"
