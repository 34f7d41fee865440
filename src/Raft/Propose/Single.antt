-- ===== src/Raft/Propose/Single.antt =====
-- `ProposeCommand` (internal/raft/replication.go) on a leader without peers, which is its own majority:
-- the command is applied before the call returns.
use raftra.Common.{
  ℕ, zero, suc, ◌+◌, ◌-◌, ◌≤◌, ◌<◌, ◌^◌, String, ◌≡◌, refl, sym, ap, ◌∙◌, Option, none, some, List,
  [], ◌∷◌, ◌++◌, arith, string_eq, nat_eq, u64, u64-eq_of_lt, eq_iff, length, get_elem?,
}
use raftra.GoMap
use raftra.Raft.Run
use raftra.Kvstore.{Codec, Bytes, Command, cmd_set, IsFaithful, KvStore}
use raftra.Kvstore
use raftra.Kvstore.Spec.{apply_all}
use raftra.Proto.{LogEntry}
use raftra.Raft.Apply.{command_at, apply_committed_entries_locked}
use raftra.Raft.Apply.Frame.{apply_committed-IsApplied}
use raftra.Raft.Apply.Replay.{
  prepend, commands, command_of, command_at_lem, apply_committed-replays,
}
use raftra.Raft.Node.{RaftNode, leader, role_eq}
use raftra.Raft.Propose.{propose_command, returned}
use raftra.Raft.Propose.Waits.{proposed}
use raftra.Storage.{StorageBackend, IsLawful}

apply_all-append :
    (kv : KvStore) (cs ds : List Command) → apply_all kv (cs ++ ds) ≡ apply_all (apply_all kv cs) ds
unfolding apply_all
apply_all-append kv [] ds = refl
apply_all-append kv (c ∷ cs) ds = apply_all-append (Kvstore.apply kv c) cs ds

apply_all-one : (kv : KvStore) (c : Command) → apply_all kv (c ∷ []) ≡ Kvstore.apply kv c
unfolding apply_all
apply_all-one kv c = refl

get_elem?-last : {A : Type 0} (xs : List A) (x : A) → get_elem? (xs ++ x ∷ []) (length xs) ≡ some x
get_elem?-last [] x = refl
get_elem?-last (y ∷ xs) x = get_elem?-last xs x

append-prepend :
    {A : Type 0} (o : Option A) (xs ys : List A) → prepend o xs ++ ys ≡ prepend o (xs ++ ys)
append-prepend none xs ys = refl
append-prepend (some x) xs ys = refl

get-apply_set :
    (kv : KvStore) (key value : String)
    → Kvstore.get (Kvstore.apply kv (record { kind = cmd_set; key = key; value = value })) key
      ≡ some value
unfolding Kvstore.get Kvstore.apply
get-apply_set kv key value =
    ground (arith, eq_iff key key, GoMap.lookup-insert kv.table key value key)

module _ {S : Type 0} ⦃b : StorageBackend S⦄ ⦃codec : Codec⦄ where
  commands-snoc :
      (s : S) (n k : ℕ) → commands s n (suc k) ≡ commands s n k ++ prepend (command_at (n + k) s) []
  unfolding commands
  commands-snoc s n zero =
      let e : n ≡ n + 0 = omega arith in ap (λ m. prepend (command_at m s) []) e
  commands-snoc s n (suc k) =
      let e : n + suc k ≡ suc n + k = omega arith in
      ap (prepend (command_at n s)) (commands-snoc s (suc n) k)
      ∙ sym (append-prepend (command_at n s) (commands s (suc n) k) _)
      ∙ ap (λ m. commands s n (suc k) ++ prepend (command_at m s) []) (sym e)

  -- The commands up to an entry that has one, with this command taken off the end.
  apply_all-last :
      (s : S) (kv : KvStore) (m n k : ℕ) (cmd : Command)
      → n + k ≡ m
      → command_at m s ≡ some cmd
      → apply_all kv (commands s n (suc k)) ≡ Kvstore.apply (apply_all kv (commands s n k)) cmd
  apply_all-last s kv m n k cmd e h =
      ap (apply_all kv) (
        commands-snoc s n k
        ∙ ap (λ o. commands s n k ++ prepend o []) (ap (λ i. command_at i s) e ∙ h))
      ∙ apply_all-append kv (commands s n k) (cmd ∷ [])
      ∙ apply_all-one _ cmd

module _ {S : Type 0} ⦃b : StorageBackend S⦄ ⦃codec : Codec⦄ (law : IsLawful b)
    (faithful : IsFaithful codec) where
  command_of-encode :
      (e : LogEntry) (cmd : Command)
      → codec.encode cmd ≡ some e.command
      → command_of law (some e) ≡ some cmd
  command_of-encode e cmd h =
      ground (arith, faithful.decode-encode cmd h, faithful.encode-ne-nil cmd h)

  command_at-appended :
      (s s' : S) (e : LogEntry) (cmd : Command)
      → law.log s' ≡ law.log s ++ e ∷ []
      → length (law.log s) < 2 ^ 64
      → codec.encode cmd ≡ some e.command
      → command_at (length (law.log s)) s' ≡ some cmd
  command_at-appended s s' e cmd l small h =
      command_at_lem law s' _ small
      ∙ rw (l, get_elem?-last (law.log s) e) (command_of-encode e cmd h)

  -- A node that leads alone.
  pub record IsAlone (rn : RaftNode S) : Type 0 where
    pub role : rn.role ≡ leader
    pub peers : length rn.peers ≡ 0
    pub log : 0 < length (law.log rn.storage)
    pub small : length (law.log rn.storage) + 1 < 2 ^ 64
    pub applied : rn.volatile.last_applied < length (law.log rn.storage)

  index_lem :
      (rn : RaftNode S)
      → IsAlone rn
      → u64 ((b.last_index rn.storage).0 + 1) ≡ length (law.log rn.storage)
  index_lem rn a =
      let last = law.last_index_lem rn.storage a.log (omega (arith, a.small)) in
      u64-eq_of_lt _ (omega (arith, last, a.small)) ∙ last

  -- The storage after the append.
  abbrev appended : Bytes → RaftNode S → S
  appended bytes rn = (b.append_entries (proposed bytes rn ∷ []) rn.storage).0

  -- What the call does, in terms of applying what is committed.
  ready : Bytes → RaftNode S → RaftNode S
  ready bytes rn = record rn {
    storage = appended bytes rn;
    persistent = record rn.persistent { log = rn.persistent.log ++ proposed bytes rn ∷ [] };
    volatile = record rn.volatile { commit_index = u64 ((b.last_index rn.storage).0 + 1) };
  }

  propose-applies_ready :
      (rn : RaftNode S) (bytes : Bytes)
      → IsAlone rn
      → (b.append_entries (proposed bytes rn ∷ []) rn.storage).1 ≡ none
      → propose_command bytes rn ≡ (
        apply_committed_entries_locked (ready bytes rn),
        returned (u64 ((b.last_index rn.storage).0 + 1)) none,
      )
  unfolding propose_command ready
  propose-applies_ready rn bytes a ok = ground (arith, a.role, a.peers)

  pub propose-applies :
      (rn : RaftNode S) (cmd : Command) (bytes : Bytes)
      → IsAlone rn
      → codec.encode cmd ≡ some bytes
      → (b.append_entries (proposed bytes rn ∷ []) rn.storage).1 ≡ none
      → ((propose_command bytes rn).1 ≡ returned (length (law.log rn.storage)) none)
        × ((propose_command bytes rn).0.volatile.last_applied ≡ length (law.log rn.storage))
        × ((propose_command bytes rn).0.kv_store
            ≡ Kvstore.apply
                (apply_all rn.kv_store (
                  commands
                    (propose_command bytes rn).0.storage
                    (suc rn.volatile.last_applied)
                    (length (law.log rn.storage) - suc rn.volatile.last_applied)))
                cmd)
  unfolding ready
  propose-applies rn cmd bytes a h ok =
      let n = length (law.log rn.storage) in
      let s' = appended bytes rn in
      let index : (ready bytes rn).volatile.commit_index ≡ n = index_lem rn a in
      let le : rn.volatile.last_applied ≤ (ready bytes rn).volatile.commit_index =
        omega (arith, index, a.applied) in
      let replays = apply_committed-replays (ready bytes rn) le in
      let rest : n - rn.volatile.last_applied ≡ suc (n - suc rn.volatile.last_applied) =
        omega (arith, a.applied) in
      let end : suc rn.volatile.last_applied + (n - suc rn.volatile.last_applied) ≡ n =
        omega (arith, a.applied) in
      let log' = law.append_entries-none rn.storage (proposed bytes rn ∷ []) (index, tt) ok in
      let here =
        command_at-appended rn.storage s' (proposed bytes rn) cmd log' (omega (arith, a.small)) h in
      let last = apply_all-last s' rn.kv_store n _ _ cmd end here in
      rw (propose-applies_ready rn bytes a ok) (
        ap (λ i. returned i none) index,
        replays.1 ∙ index,
        replays.0
            ∙ ap
                (λ i.
                  apply_all rn.kv_store
                    (commands s' (suc rn.volatile.last_applied) (i - rn.volatile.last_applied)))
                index
            ∙ ap (λ k. apply_all rn.kv_store (commands s' (suc rn.volatile.last_applied) k)) rest
            ∙ last
            ∙ ap
                (λ s.
                  Kvstore.apply
                    (apply_all rn.kv_store (
                      commands s (suc rn.volatile.last_applied) (n - suc rn.volatile.last_applied)))
                    cmd)
                (sym (apply_committed-IsApplied (ready bytes rn)).kept.storage),
      )

  -- What Get shows after the call, at the key of the command.
  pub get-propose :
      (rn : RaftNode S) (key value : String) (bytes : Bytes)
      → IsAlone rn
      → codec.encode (record { kind = cmd_set; key = key; value = value }) ≡ some bytes
      → (b.append_entries (proposed bytes rn ∷ []) rn.storage).1 ≡ none
      → Run.get key (propose_command bytes rn).0 ≡ some value
  unfolding Run.get
  get-propose rn key value bytes a h ok =
      let cmd : Command = record { kind = cmd_set; key = key; value = value } in
      ap (λ kv. Kvstore.get kv key) (propose-applies rn cmd bytes a h ok).2
      ∙ get-apply_set _ key value
