-- ===== src/Raft/Kept.antt =====
-- What the inner methods of a node (internal/raft) leave alone. Applying entries, advancing the commit
-- index and sending RPCs change other fields only.
use raftra.Common.{◌≡◌, sym}
use raftra.Raft.Node.{RaftNode}

pub record IsKept {S : Type 0} (rn rn' : RaftNode S) : Type 0 where
  pub config : rn'.config ≡ rn.config
  pub role : rn'.role ≡ rn.role
  pub peers : rn'.peers ≡ rn.peers
  pub persistent : rn'.persistent ≡ rn.persistent
  pub storage : rn'.storage ≡ rn.storage
  pub next_channel : rn'.next_channel ≡ rn.next_channel
  pub leader_id : rn'.leader_id ≡ rn.leader_id
  pub last_leader_contact : rn'.last_leader_contact ≡ rn.last_leader_contact

module _ {S : Type 0} where
  pub IsKept-symm : {r s : RaftNode S} → IsKept r s → IsKept s r
  IsKept-symm h = record {
    config = sym h.config;
    role = sym h.role;
    peers = sym h.peers;
    persistent = sym h.persistent;
    storage = sym h.storage;
    next_channel = sym h.next_channel;
    leader_id = sym h.leader_id;
    last_leader_contact = sym h.last_leader_contact;
  }
