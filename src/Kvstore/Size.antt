-- ===== src/Kvstore/Size.antt =====
-- `Size` of internal/kvstore/kvstore.go: one entry for each key that `Get` finds.
use raftra.Common.{ℕ, String, ◌+◌, ◌≡◌, Option, none, some, List, [], ◌∷◌, arith, nat_eq, string_eq}
use raftra.GoMap
use raftra.GoMap.{GoMap}
use raftra.GoMap.Unique.{IsUnique, insert-IsUnique, delete-IsUnique, length-delete}
use raftra.Kvstore.{Command, KvStore, new_kv_store, apply, get, size}
use raftra.Kvstore.Spec.{apply_all}

pub record IsValid (kv : KvStore) : Type 0 where
  pub unique : IsUnique kv.table

pub new_kv_store-IsValid : IsValid new_kv_store
unfolding new_kv_store
new_kv_store-IsValid = record { unique = tt }

pub apply-IsValid : (kv : KvStore) (c : Command) → IsValid kv → IsValid (apply kv c)
unfolding apply
apply-IsValid kv c v = ground (
  arith,
  insert-IsUnique kv.table c.key c.value v.unique,
  delete-IsUnique kv.table c.key v.unique,
)

pub apply_all-IsValid : (kv : KvStore) (cs : List Command) → IsValid kv → IsValid (apply_all kv cs)
unfolding apply_all
apply_all-IsValid kv [] v = v
apply_all-IsValid kv (c ∷ cs) v = apply_all-IsValid (apply kv c) cs (apply-IsValid kv c v)

-- How many keys an answer of `Get` stands for.
abbrev pub present : Option String → ℕ
present none = 0
present (some _) = 1

-- A command changes the size by the change at its own key: the size grows by one if the command
-- makes a missing key present, falls by one if it removes a present key, and else stays.
pub size-apply :
    (kv : KvStore) (c : Command)
    → IsValid kv
    → size (apply kv c) + present (get kv c.key) ≡ size kv + present (get (apply kv c) c.key)
unfolding size get apply
size-apply kv c v = ground (
  arith,
  string_eq.equal_iff c.key c.key,
  GoMap.length-insert kv.table c.key c.value,
  GoMap.lookup-insert kv.table c.key c.value c.key,
  GoMap.lookup-delete kv.table c.key c.key,
  length-delete kv.table c.key v.unique,
)
