-- ===== src/Raft/Steps/Durable.antt =====
-- The term and the vote on stable storage over any run of steps (internal/raft), and after a restart.
use raftra.Common.{◌≡◌, ◌∙◌, arith, string_eq, nat_eq}
use raftra.Kvstore.{Codec, KvStore}
use raftra.Raft.Append.Durable.{handle_append_entries-IsDurable}
use raftra.Raft.Durable.{IsWritable, IsDurable}
use raftra.Raft.Election.Durable.{
  reset_election_timer-IsDurable, start_election-IsDurable, on_pre_vote_response-IsDurable,
  on_vote_response-IsDurable,
}
use raftra.Raft.Node.{RaftNode, Config, created, new_raft_node, role_eq}
use raftra.Raft.Propose.Durable.{
  propose_command-IsDurable, finish_proposal-IsDurable, on_append_response-IsDurable,
}
use raftra.Raft.Run.{on_election_timer, on_heartbeat_timer, set_metrics, stop}
use raftra.Raft.Send.Frame.{broadcast-IsSent}
use raftra.Raft.Steps.{
  Step, request_vote, append_entries, election_timer, heartbeat_timer, pre_vote_response,
  vote_response, append_response, propose, finish, started, stopped, metrics, Reach, here, next,
}
use raftra.Raft.Timer.{Env, start, reset_heartbeat_timer}
use raftra.Raft.Vote.Durable.{handle_request_vote-IsDurable}
use raftra.Storage.{StorageBackend, IsLawful}

module _ {S : Type 0} ⦃b : StorageBackend S⦄ ⦃codec : Codec⦄ (law : IsLawful b) where
  on_heartbeat_timer-IsDurable :
      (env : Env) (rn : RaftNode S) → IsDurable law rn → IsDurable law (on_heartbeat_timer env rn)
  unfolding on_heartbeat_timer reset_heartbeat_timer
  on_heartbeat_timer-IsDurable env rn h = grind (arith, broadcast-IsSent rn)

  stop-IsDurable : (rn : RaftNode S) → IsDurable law rn → IsDurable law (stop rn)
  unfolding stop
  stop-IsDurable rn h = ground arith

  pub new_raft_node-loads :
      (config : Config) (s : S) (kv : KvStore) (rn : RaftNode S)
      → new_raft_node config s kv ≡ created rn
      → (rn.persistent.current_term ≡ law.term s)
        × (rn.persistent.voted_for ≡ law.voted_for s)
        × (rn.persistent.log ≡ law.log s)
        × (rn.storage ≡ s)
  unfolding new_raft_node
  new_raft_node-loads config s kv rn e =
      grind (arith, law.load_term_lem s, law.load_voted_for_lem s, law.load_all_entries_lem s)

  module _ (ok : IsWritable b) where
    on_election_timer-IsDurable :
        (env : Env) (rn : RaftNode S) → IsDurable law rn → IsDurable law (on_election_timer env rn)
    unfolding on_election_timer
    on_election_timer-IsDurable env rn h = ground (
      arith,
      reset_election_timer-IsDurable law env rn h,
      start_election-IsDurable law ok env rn h,
    )

    pub Step-IsDurable : {rn rn' : RaftNode S} → Step rn rn' → IsDurable law rn → IsDurable law rn'
    unfolding start set_metrics
    Step-IsDurable {rn} (request_vote env req) h = handle_request_vote-IsDurable law ok env req rn h
    Step-IsDurable {rn} (append_entries env req) h =
        handle_append_entries-IsDurable law ok env req rn h
    Step-IsDurable {rn} (election_timer env) h = on_election_timer-IsDurable env rn h
    Step-IsDurable {rn} (heartbeat_timer env) h = on_heartbeat_timer-IsDurable env rn h
    Step-IsDurable {rn} (pre_vote_response env ballot res) h =
        on_pre_vote_response-IsDurable law ok env ballot res rn h
    Step-IsDurable {rn} (vote_response env ballot res) h =
        on_vote_response-IsDurable law ok env ballot res rn h
    Step-IsDurable {rn} {rn'} (append_response env peer r resp e) h =
        on_append_response-IsDurable law ok env peer r resp rn rn' e h
    Step-IsDurable {rn} (propose cmd) h = propose_command-IsDurable law cmd rn h
    Step-IsDurable {rn} (finish index event) h = finish_proposal-IsDurable law index event rn h
    Step-IsDurable {rn} (started env) h = h
    Step-IsDurable {rn} stopped h = stop-IsDurable rn h
    Step-IsDurable {rn} (metrics m) h = h

    pub Reach-IsDurable :
        {rn rn' : RaftNode S} → Reach rn rn' → IsDurable law rn → IsDurable law rn'
    Reach-IsDurable here h = h
    Reach-IsDurable (next r small st) h = Step-IsDurable st (Reach-IsDurable r h)

    -- A start from the storage of a node that has run recovers its term and its vote.
    pub restart-SameVote :
        (config : Config) (kv : KvStore) (first last again : RaftNode S)
        → IsDurable law first
        → Reach first last
        → new_raft_node config last.storage kv ≡ created again
        → (again.persistent.current_term ≡ last.persistent.current_term)
          × (again.persistent.voted_for ≡ last.persistent.voted_for)
    restart-SameVote config kv first last again durable r e =
        let kept = Reach-IsDurable r durable in
        let loaded = new_raft_node-loads config last.storage kv again e in
        (loaded.0 ∙ kept.0, loaded.1 ∙ kept.1)

    -- Where the writes of the term and the vote succeed, a node that is started, runs, and is then
    -- started again from its storage has the term and the vote that it had when it stopped.
    pub restart_keeps_vote :
        (config config' : Config) (s : S) (kv kv' : KvStore) (first last again : RaftNode S)
        → new_raft_node config s kv ≡ created first
        → Reach first last
        → new_raft_node config' last.storage kv' ≡ created again
        → (again.persistent.current_term ≡ last.persistent.current_term)
          × (again.persistent.voted_for ≡ last.persistent.voted_for)
    restart_keeps_vote config config' s kv kv' first last again e r e' =
        let loaded = new_raft_node-loads config s kv first e in
        let durable : IsDurable law first = ground (arith, loaded) in
        restart-SameVote config' kv' first last again durable r e'
