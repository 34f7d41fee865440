-- ===== src/Transport/Grpc.antt =====
-- internal/transport/handler.go: the gRPC methods. As with the gateway, a method runs up to the wait of
-- `ProposeCommand`, and the rest is `finish`.
use raftra.Common.{ℕ, String, true, false, none, some, string_eq, nat_eq, if◌then◌else◌}
use raftra.Kvstore.{Codec, Command, cmd_set, cmd_delete}
use raftra.Proto.{
  RequestVoteRequest, RequestVoteResponse, AppendEntriesRequest, AppendEntriesResponse,
}
use raftra.Transport.KvService.{
  SetRequest, WriteResponse, GetRequest, GetResponse, DeleteRequest, no_error, message, of_error,
  encode_error,
}
use raftra.Raft.Append.{handle_append_entries}
use raftra.Raft.Node.{RaftNode, Channel, role_eq}
use raftra.Raft.Propose.{returned, waiting, Event, propose_command, finish_proposal}
use raftra.Raft.Run
use raftra.Raft.Timer.{Env}
use raftra.Raft.Vote.{handle_request_vote}
use raftra.Storage.{StorageBackend, Err}

pub data Answer : Type 0 where
  answered : WriteResponse → Answer
  awaiting : (index : ℕ) → Channel → Answer

abbrev pub success : WriteResponse
success = record { success = true; error = no_error; leader_hint = "" }

-- What the client is told when ProposeCommand returns.
unfoldable pub response_to : Err → WriteResponse
response_to none = success
response_to (some e) = record { success = false; error = of_error e; leader_hint = "" }

module _ {S : Type 0} where
  refuse : String → RaftNode S → RaftNode S × Answer
  refuse reason rn = (
    rn,
    answered (record { success = false; error = message reason; leader_hint = Run.leader_id rn }),
  )

  unfoldable pub get : GetRequest → RaftNode S → GetResponse
  get req rn =
      if Run.is_leader rn
      then elim (Run.get req.key rn) [
        | none ↦ record { value = ""; found = false; error = no_error }
        | some val ↦ record { value = val; found = true; error = no_error }
      ]
      else record { value = ""; found = false; error = message "not leader" }

module _ {S : Type 0} ⦃b : StorageBackend S⦄ ⦃codec : Codec⦄ where
  unfoldable pub request_vote :
      Env → RequestVoteRequest → RaftNode S → RaftNode S × RequestVoteResponse
  request_vote env req rn = handle_request_vote env req rn

  unfoldable pub append_entries :
      Env → AppendEntriesRequest → RaftNode S → RaftNode S × AppendEntriesResponse
  append_entries env req rn = handle_append_entries env req rn

  -- Both writes: the command is encoded and proposed. An error of gob is `encode_error`.
  unfoldable pub propose : Command → RaftNode S → RaftNode S × Answer
  propose cmd rn = elim (codec.encode cmd) [
    | none ↦ (rn, answered (record { success = false; error = encode_error; leader_hint = "" }))
    | some encoded ↦
        let (rn', proposal) = propose_command encoded rn in
        (
          rn',
          elim proposal [
            | returned index err ↦ answered (response_to err)
            | waiting index ch ↦ awaiting index ch
          ],
        )
  ]

  unfoldable pub set : SetRequest → RaftNode S → RaftNode S × Answer
  unfolding refuse
  set req rn =
      if Run.is_leader rn
      then propose (record { kind = cmd_set; key = req.key; value = req.value }) rn
      else refuse "node is not the leader" rn

  unfoldable pub delete : DeleteRequest → RaftNode S → RaftNode S × Answer
  unfolding refuse
  delete req rn =
      if Run.is_leader rn
      then propose (record { kind = cmd_delete; key = req.key; value = "" }) rn
      else refuse "not leader" rn

  unfoldable pub finish : ℕ → Event → RaftNode S → RaftNode S × WriteResponse
  finish index event rn =
      let (rn', res) = finish_proposal index event rn in (rn', response_to res.1)
