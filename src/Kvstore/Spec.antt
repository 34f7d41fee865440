-- ===== src/Kvstore/Spec.antt =====
-- What the key-value store promises (internal/kvstore/kvstore.go): a dictionary as a function.
use mathlib.Core.Path.{fun_ext}
use raftra.Common.{
  String, ◌≡◌, refl, Option, none, some, List, [], ◌∷◌, arith, ◌==◌, if◌then◌else◌, ap, ◌∙◌, nat_eq,
  string_eq,
}
use raftra.GoMap
use raftra.GoMap.{GoMap}
use raftra.Kvstore.{Command, cmd_set, cmd_delete, KvStore, apply, get}

-- The abstract dictionary: what `Get` answers, for every key.
abbrev pub Dictionary : Type 0
Dictionary = String → Option String

pub view : KvStore → Dictionary
view kv = get kv

-- The abstract effect of a command.
pub assign : Dictionary → String → Option String → Dictionary
assign d k v j = if k == j then v else d j

pub perform : Dictionary → Command → Dictionary
unfolding assign
perform d c =
    if c.kind == cmd_set
    then assign d c.key (some c.value)
    else if c.kind == cmd_delete
    then assign d c.key none
    else d

-- A run of committed commands, on the store and on the dictionary.
unfoldable pub apply_all : KvStore → List Command → KvStore
apply_all kv [] = kv
apply_all kv (c ∷ cs) = apply_all (apply kv c) cs

pub perform_all : Dictionary → List Command → Dictionary
perform_all d [] = d
perform_all d (c ∷ cs) = perform_all (perform d c) cs

get-apply : (kv : KvStore) (c : Command) (j : String) → get (apply kv c) j ≡ perform (get kv) c j
unfolding get apply perform
get-apply kv c j =
    ground
      (arith, GoMap.lookup-insert kv.table c.key c.value j, GoMap.lookup-delete kv.table c.key j)

-- The store implements the dictionary: applying a command to the store and looking at the result is
-- performing the command on what the store showed before.
pub view-apply : (kv : KvStore) (c : Command) → view (apply kv c) ≡ perform (view kv) c
unfolding view
view-apply kv c = fun_ext (get-apply kv c)

-- For any run of commands, what the store shows at the end is what the dictionary gives.
pub view-apply_all :
    (kv : KvStore) (cs : List Command) → view (apply_all kv cs) ≡ perform_all (view kv) cs
unfolding apply_all perform_all
view-apply_all kv [] = refl
view-apply_all kv (c ∷ cs) =
    view-apply_all (apply kv c) cs ∙ ap (λ d. perform_all d cs) (view-apply kv c)
