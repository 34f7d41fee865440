-- ===== src/Tests/Clusters.antt =====
-- Three nodes that elect a leader (internal/raft).
use raftra.Common.{
  contains-All, ℕ, String, ◌≡◌, ◌≢◌, refl, true, false, some, List, [], ◌∷◌, arith, ◌==◌, string_eq,
  nat_eq, eq_iff, if◌then◌else◌,
}
use raftra.Cluster.Counted.{IsStart}
use raftra.Cluster.Safety.{election_safety}
use raftra.Cluster.Setup.{IsMember}
use raftra.Cluster.{
  Cluster, Round, Run, here, next, acts, serves, delivers, launch, serve, deliver, opened, put,
}
use raftra.GoMap
use raftra.Proto.{LogEntry, RequestVoteResponse}
use raftra.Raft.Election.{peer_ids, on_pre_vote_response}
use raftra.Raft.Node.{Ballot, PeerConfig, leader, role_eq}
use raftra.Raft.Office.{polls}
use raftra.Raft.Steps.{pre_vote_response}
use raftra.Storage.Memory.Laws.{memory_backend-IsLawful}
use raftra.Storage.Memory.{MemoryStore, memory_backend}
use raftra.Tests.Fixtures.{
  methods, memory-IsWritable, test_codec, env1, config1, node1, log1, vote_request,
}

abbrev pub members1 : List String
members1 = "n1" ∷ "n2" ∷ "n3" ∷ []

abbrev pub peer : String → String × PeerConfig
peer name = (name, record { id = name; address = "" })

abbrev pub others : String → GoMap.GoMap String PeerConfig
others m =
    if m == "n1"
    then peer "n2" ∷ peer "n3" ∷ []
    else if m == "n2"
    then peer "n1" ∷ peer "n3" ∷ []
    else peer "n1" ∷ peer "n2" ∷ []

-- Three members in term 2 that hold the same log.
abbrev pub cluster_of : List LogEntry → Cluster MemoryStore
cluster_of log = record {
  node = λ m. record node1 {
    config = record config1 { node_id = m };
    peers = others m;
    persistent = record { current_term = 2; voted_for = ""; log = log };
    storage = record { term = 2; voted_for = ""; entries = log };
  };
  rounds = [];
  replies = [];
}

abbrev cluster1 : Cluster MemoryStore
cluster1 = cluster_of log1

n1-IsMember :
    (log : List LogEntry)
    → IsMember memory_backend-IsLawful memory-IsWritable members1 "n1" ((cluster_of log).node "n1")
unfolding methods polls
n1-IsMember log = record {
  set_up = record {
    node_id = refl;
    distinct = (refl, (refl, tt));
    within = (refl, (refl, tt));
    apart = refl;
    count = refl;
  };
  idle = refl;
  durable = (refl, refl);
}

n2-IsMember :
    (log : List LogEntry)
    → IsMember memory_backend-IsLawful memory-IsWritable members1 "n2" ((cluster_of log).node "n2")
unfolding methods polls
n2-IsMember log = record {
  set_up = record {
    node_id = refl;
    distinct = (refl, (refl, tt));
    within = (refl, (refl, tt));
    apart = refl;
    count = refl;
  };
  idle = refl;
  durable = (refl, refl);
}

n3-IsMember :
    (log : List LogEntry)
    → IsMember memory_backend-IsLawful memory-IsWritable members1 "n3" ((cluster_of log).node "n3")
unfolding methods polls
n3-IsMember log = record {
  set_up = record {
    node_id = refl;
    distinct = (refl, (refl, tt));
    within = (refl, (refl, tt));
    apart = refl;
    count = refl;
  };
  idle = refl;
  durable = (refl, refl);
}

pub cluster_of-IsStart :
    (log : List LogEntry)
    → IsStart memory_backend-IsLawful memory-IsWritable members1 (cluster_of log)
unfolding methods polls peer_ids
cluster_of-IsStart log = record {
  members_ready = λ m h.
      contains-All
        (λ k.
          IsMember memory_backend-IsLawful memory-IsWritable members1 k ((cluster_of log).node k))
        members1 m (n1-IsMember log, (n2-IsMember log, (n3-IsMember log, tt))) h;
  none_leads = λ m e. ground (arith, e);
  no_rounds = refl;
  no_replies = refl;
}

-- A round of pre-votes of `n1` that wants one more vote, and the answer to it.
abbrev pub ready : Ballot
ready = record { term = 2; votes = 1; majority = 2; started = 0; campaigned = false }

abbrev pub granted : ℕ → RequestVoteResponse
granted t = record { term = t; vote_granted = true }

-- `n1` campaigns, `n2` grants its vote, and the answer arrives.
abbrev campaigning : Cluster MemoryStore
campaigning =
    launch "n1" (on_pre_vote_response env1 ready (some (granted 2)) (cluster1.node "n1")).1 cluster1

abbrev round3 : Round
round3 = record {
  owner = "n1";
  ballot = record { term = 3; votes = 1; majority = 2; started = 1000; campaigned = false };
  waiting = "n2" ∷ "n3" ∷ [];
  req = vote_request "n1" 3;
}

abbrev voted : Cluster MemoryStore
voted = serve env1 "n2" round3.req campaigning

abbrev elected : Cluster MemoryStore
elected = deliver env1 "n2" (some (granted 3)) [] round3 [] voted

elected-Run : Run members1 cluster1 elected
unfolding methods polls launch serve deliver opened put
elected-Run =
    next
      (next
        (next here
          (acts "n1" refl (omega arith) (pre_vote_response env1 ready (some (granted 2))) tt))
        (serves env1 "n2" 0 round3 refl refl))
      (delivers env1 "n2" (some (granted 3)) [] round3 [] refl refl (0, refl))

elected_leader : (elected.node "n1").role ≡ leader
unfolding methods polls launch serve deliver opened put
elected_leader = refl

election_safety_example : ◌≡◌ {A = String} "n1" "n1"
election_safety_example =
    election_safety memory_backend-IsLawful memory-IsWritable members1 elected-Run "n1" "n1"
      (cluster_of-IsStart log1) named named elected_leader elected_leader refl
  where
    named : ◌≢◌ {A = String} "n1" ""
    named = ground (arith, eq_iff "n1" "")
