-- ===== src/Kvstore.antt =====
-- internal/kvstore: the commands that the log carries, and the replicated state machine.
pub mod Spec
pub mod Size
use raftra.Common.{
  ℕ, String, ◌≡◌, ◌≢◌, Option, some, List, [], ◌==◌, if◌then◌else◌, length, nat_eq, string_eq,
}
use raftra.GoMap
use raftra.GoMap.{GoMap}

-- `CommandType` is a uint8: a decoded command may hold any byte.
abbrev pub cmd_set : ℕ
cmd_set = 0

abbrev pub cmd_delete : ℕ
cmd_delete = 1

pub record Command : Type 0 where
  pub kind : ℕ  -- `Type` in the source
  pub key : String
  pub value : String

abbrev pub Bytes : Type 0
Bytes = List ℕ

-- `Encode` and `DecodeCommand` only call encoding/gob, which is a parameter; `none` is an error.
pub record Codec : Type 0 where
  pub encode : Command → Option Bytes
  pub decode_command : Bytes → Option Command

-- What the node relies on: gob reads back what it wrote, and never writes an empty message.
pub record IsFaithful (codec : Codec) : Type 0 where
  pub decode-encode :
      (c : Command) {bytes : Bytes}
      → codec.encode c ≡ some bytes
      → codec.decode_command bytes ≡ some c
  pub encode-ne-nil : (c : Command) {bytes : Bytes} → codec.encode c ≡ some bytes → bytes ≢ []

pub record KvStore : Type 0 where
  pub table : GoMap String String  -- `data` in the source

unfoldable pub new_kv_store : KvStore
new_kv_store = record { table = [] }

-- A command of another type changes nothing: the `switch` has no default.
unfoldable pub apply : KvStore → Command → KvStore
apply kv cmd =
    if cmd.kind == cmd_set
    then record { table = GoMap.insert kv.table cmd.key cmd.value }
    else if cmd.kind == cmd_delete
    then record { table = GoMap.delete kv.table cmd.key }
    else kv

-- `none` stands for `exists == false`.
unfoldable pub get : KvStore → String → Option String
get kv key = GoMap.lookup kv.table key

unfoldable pub size : KvStore → ℕ
size kv = length kv.table
