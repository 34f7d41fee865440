-- ===== src/Tests/Writes.antt =====
-- Writes and reads by HTTP and gRPC at nodes of the test cluster (internal/transport).
use raftra.Common.{
  ◌≡◌, ◌≢◌, refl, ◌&&◌, Option, none, some, [], ◌∷◌, arith, ◌==◌, string_eq, nat_eq, eq_iff,
  if◌then◌else◌,
}
use raftra.Kvstore.{Codec, Command, Bytes, IsFaithful, cmd_set}
use raftra.Raft.Node.{RaftNode, role_eq}
use raftra.Raft.Propose.{propose_command, returned}
use raftra.Raft.Propose.Single.{IsAlone, propose-applies}
use raftra.Raft.Apply.Replay.{commands}
use raftra.Kvstore.Spec.{apply_all}
use raftra.Kvstore
use raftra.Raft.Run
use raftra.Storage.Memory.{MemoryStore, memory_backend}
use raftra.Storage.Memory.Laws.{memory_backend-IsLawful}
use raftra.Tests.Fixtures.{methods, node1, leader1, set_x, delete_x}
use raftra.Tests.Gateway.{whole, test_net, request1, server1, server1-IsUnlimited}
use raftra.Transport.Http.{handle_put, handle_post, handle_delete, responded, written}
use raftra.Transport.Reads.{handle_get}
use raftra.Transport.Http.Lock.{promise, status_of, handle_post-present, posts_both_wait}
use raftra.Transport.Http.Redirect.{IsRedirected, follower-redirects}
use raftra.Transport.Http.Serve.{put-get}
use raftra.Transport.Message.{literal, json_response}

-- A codec that knows two commands.
abbrev encode_known : Command → Option Bytes
encode_known c =
    if c.key == "x" && c.kind == 0 && c.value == "1"
    then some (1 ∷ [])
    else if c.key == "x" && c.kind == 1 && c.value == ""
    then some (2 ∷ [])
    else none

abbrev decode_known : Bytes → Option Command
decode_known [] = none
decode_known (byte ∷ bytes) =
    if byte == 1 then some set_x else if byte == 2 then some delete_x else none

instance abbrev known_codec : Codec
known_codec = record { encode = encode_known; decode_command = decode_known }

known_codec-IsFaithful : IsFaithful known_codec
known_codec-IsFaithful = record {
  decode-encode =
      λ c {bytes} h. ground (arith, eq_iff c.key "x", eq_iff c.value "1", eq_iff c.value "");
  encode-ne-nil = λ c {bytes} h. ground arith;
}

-- The leader of term 1 without its peers; its two entries are applied.
abbrev alone : RaftNode MemoryStore
alone = record leader1 { peers = []; volatile = record { commit_index = 2; last_applied = 2 } }

alone-IsAlone : IsAlone memory_backend-IsLawful known_codec-IsFaithful alone
alone-IsAlone = record {
  role = refl;
  peers = refl;
  log = omega arith;
  small = omega arith;
  applied = omega arith;
}

follower-redirects_example :
    IsRedirected request1 server1 node1 (handle_put 0 request1 "x" server1 node1)
    × IsRedirected request1 server1 node1 (handle_post 0 request1 "x" server1 node1)
    × IsRedirected request1 server1 node1 (handle_delete 0 request1 "x" server1 node1)
unfolding Run.is_leader
follower-redirects_example = follower-redirects 0 request1 "x" server1 node1 refl

-- The leader when it holds x.
abbrev holder : RaftNode MemoryStore
holder = record leader1 { kv_store = record { table = ("x", "1") ∷ [] } }

handle_post-present_example :
    ((handle_post 0 request1 "x" server1 holder).node ≡ holder)
    × (status_of (handle_post 0 request1 "x" server1 holder).reply ≢ none)
    × (status_of (handle_post 0 request1 "x" server1 holder).reply ≢ some 201)
unfolding methods Run.get
handle_post-present_example = handle_post-present 0 request1 "x" server1 holder "1" refl

never_fails : (es : _) (m : MemoryStore) → (memory_backend.append_entries es m).1 ≡ none
unfolding methods
never_fails es m = refl

posts_both_wait_example :
    (promise (handle_post 0 request1 "x" server1 leader1).reply ≡ some (written 201 "x" "1"))
    × (promise
          (handle_post 0 request1 "x"
            (handle_post 0 request1 "x" server1 leader1).server
            (handle_post 0 request1 "x" server1 leader1).node).reply
        ≡ some (written 201 "x" "1"))
unfolding methods Run.get
posts_both_wait_example =
    posts_both_wait 0 0 request1 request1 "x" "1" "1" server1 leader1 server1-IsUnlimited refl
      (λ e. omega (arith, e)) refl refl refl never_fails

put-get_example :
    ((handle_put 0 request1 "x" server1 alone).reply ≡ responded (written 200 "x" "1"))
    × (handle_get "x" (handle_put 0 request1 "x" server1 alone).node
        ≡ json_response 200 (("key", literal "x") ∷ ("value", literal "1") ∷ []))
unfolding methods
put-get_example =
    put-get memory_backend-IsLawful known_codec-IsFaithful 0 request1 "x" "1" (1 ∷ []) server1 alone
      server1-IsUnlimited alone-IsAlone refl refl refl

propose-applies_example :
    ((propose_command (1 ∷ []) alone).1 ≡ returned 3 none)
    × ((propose_command (1 ∷ []) alone).0.volatile.last_applied ≡ 3)
    × ((propose_command (1 ∷ []) alone).0.kv_store
        ≡ Kvstore.apply
            (apply_all alone.kv_store (commands (propose_command (1 ∷ []) alone).0.storage 3 0))
            set_x)
unfolding methods
propose-applies_example =
    propose-applies memory_backend-IsLawful known_codec-IsFaithful alone set_x (1 ∷ [])
      alone-IsAlone refl refl
