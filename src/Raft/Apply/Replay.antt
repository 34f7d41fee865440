-- ===== src/Raft/Apply/Replay.antt =====
-- `applyCommittedEntriesLocked` (internal/raft/replication.go) runs the committed commands in order,
-- and tells the clients that wait for them.
use raftra.Common.{
  lt→ltb, get_elem?-take, ℕ, zero, suc, ◌+◌, ◌-◌, ◌≤◌, ◌<◌, ◌^◌, ◌≡◌, refl, sym, ap, ◌∙◌, Option,
  none, some, List, [], ◌∷◌, ◌++◌, arith, string_eq, nat_eq, take, get_elem?,
}
use mathlib.Core.List.{append-nil, append_assoc}
use raftra.GoMap
use raftra.GoMap.{GoMap}
use raftra.Kvstore
use raftra.Kvstore.{Codec, Command}
use raftra.Kvstore.Spec.{apply_all}
use raftra.Proto.{LogEntry}
use raftra.Raft.Apply.Frame.{apply_next-IsApplied}
use raftra.Raft.Apply.{command_at, apply_next, apply_loop, apply_committed_entries_locked}
use raftra.Raft.Node.{RaftNode, Channel}
use raftra.Storage.{StorageBackend, IsLawful, Err}

abbrev pub prepend : {A : Type 0} → Option A → List A → List A
prepend none l = l
prepend (some x) l = x ∷ l

apply_all-prepend :
    (kv : Kvstore.KvStore) (o : Option Command) (cs : List Command)
    → apply_all (apply_all kv (prepend o [])) cs ≡ apply_all kv (prepend o cs)
unfolding apply_all
apply_all-prepend kv none cs = refl
apply_all-prepend kv (some c) cs = refl

append-prepend :
    (l r : List (Channel × Err)) (o : Option (Channel × Err))
    → (l ++ prepend o []) ++ r ≡ l ++ prepend o r
append-prepend l r o = append_assoc l (prepend o []) r ∙ ap (λ t. l ++ t) (go o)
  where
    go : (p : Option (Channel × Err)) → prepend p [] ++ r ≡ prepend p r
    go none = refl
    go (some x) = refl

module _ {S : Type 0} ⦃b : StorageBackend S⦄ ⦃codec : Codec⦄ where
  -- The commands of the `k` entries from `n` on, without the entries that are empty or do not decode.
  unfoldable pub commands : S → ℕ → ℕ → List Command
  commands s n zero = []
  commands s n (suc k) = prepend (command_at n s) (commands s (suc n) k)

  -- The message for the client that waits for the entry at `n`, if it has a command.
  abbrev message : GoMap ℕ Channel → S → ℕ → Option (Channel × Err)
  message pending s n = elim (command_at n s) [
    | none ↦ none
    | some _ ↦ elim (GoMap.lookup pending n) [ none ↦ none | some ch ↦ some (ch, none) ]
  ]

  pub messages : GoMap ℕ Channel → S → ℕ → ℕ → List (Channel × Err)
  messages pending s n zero = []
  messages pending s n (suc k) = prepend (message pending s n) (messages pending s (suc n) k)

  apply_next-last_applied :
      (rn : RaftNode S) → (apply_next rn).volatile.last_applied ≡ suc rn.volatile.last_applied
  unfolding apply_next
  apply_next-last_applied rn = ground arith

  apply_next-kv_store :
      (rn : RaftNode S)
      → (apply_next rn).kv_store
        ≡ apply_all rn.kv_store (prepend (command_at (suc rn.volatile.last_applied) rn.storage) [])
  unfolding apply_next apply_all
  apply_next-kv_store rn = ground arith

  apply_next-sent :
      (rn : RaftNode S)
      → (apply_next rn).sent
        ≡ rn.sent
          ++ prepend (message rn.pending_commits rn.storage (suc rn.volatile.last_applied)) []
  unfolding apply_next
  apply_next-sent rn = ground (arith, append-nil rn.sent)

  apply_loop-kv_store :
      (fuel : ℕ) (rn : RaftNode S)
      → rn.volatile.last_applied + fuel ≡ rn.volatile.commit_index
      → ((apply_loop fuel rn).kv_store
          ≡ apply_all rn.kv_store (commands rn.storage (suc rn.volatile.last_applied) fuel))
        × ((apply_loop fuel rn).volatile.last_applied ≡ rn.volatile.commit_index)
  unfolding apply_loop commands apply_all
  apply_loop-kv_store zero rn e = (refl, omega arith)
  apply_loop-kv_store (suc fuel) rn e =
      let frame = apply_next-IsApplied rn in
      let at_next = apply_next-last_applied rn in
      let ih =
        apply_loop-kv_store fuel (apply_next rn) (omega (arith, at_next, frame.commit_index)) in
      rw (lt→ltb rn.volatile.last_applied rn.volatile.commit_index (omega arith)) (
        cc (
          ih.0,
          apply_next-kv_store rn,
          at_next,
          frame.kept.storage,
          apply_all-prepend rn.kv_store (command_at (suc rn.volatile.last_applied) rn.storage)
              (commands rn.storage (suc (suc rn.volatile.last_applied)) fuel),
        ),
        ih.1 ∙ frame.commit_index,
      )

  -- Where entries are committed and not yet applied, the store afterwards is the store before, with
  -- the commands of the entries after `last_applied` up to the commit index applied in their order,
  -- and `last_applied` is the commit index. So the loop ends, and no command is lost or repeated.
  pub apply_committed-replays :
      (rn : RaftNode S)
      → rn.volatile.last_applied ≤ rn.volatile.commit_index
      → ((apply_committed_entries_locked rn).kv_store
          ≡ apply_all rn.kv_store (
              commands rn.storage
                (suc rn.volatile.last_applied)
                (rn.volatile.commit_index - rn.volatile.last_applied)))
        × ((apply_committed_entries_locked rn).volatile.last_applied ≡ rn.volatile.commit_index)
  unfolding apply_committed_entries_locked
  apply_committed-replays rn h = apply_loop-kv_store _ rn (omega arith)

  messages-delete :
      (pending : GoMap ℕ Channel) (s : S) (m n k : ℕ)
      → m < n
      → messages (GoMap.delete pending m) s n k ≡ messages pending s n k
  unfolding messages
  messages-delete pending s m n zero h = refl
  messages-delete pending s m n (suc k) h = ground (
    arith,
    nat_eq.equal_iff m n,
    GoMap.lookup-delete pending m n,
    messages-delete pending s m (suc n) k,
  )

  apply_next-messages :
      (rn : RaftNode S) (k : ℕ)
      → messages (apply_next rn).pending_commits rn.storage (suc (suc rn.volatile.last_applied)) k
        ≡ messages rn.pending_commits rn.storage (suc (suc rn.volatile.last_applied)) k
  unfolding apply_next
  apply_next-messages rn k = ground (
    arith,
    messages-delete rn.pending_commits rn.storage (suc rn.volatile.last_applied)
        (suc (suc rn.volatile.last_applied)) k,
  )

  apply_loop-sent :
      (fuel : ℕ) (rn : RaftNode S)
      → rn.volatile.last_applied + fuel ≡ rn.volatile.commit_index
      → (apply_loop fuel rn).sent
        ≡ rn.sent ++ messages rn.pending_commits rn.storage (suc rn.volatile.last_applied) fuel
  unfolding apply_loop messages
  apply_loop-sent zero rn e = sym (append-nil rn.sent)
  apply_loop-sent (suc fuel) rn e =
      let frame = apply_next-IsApplied rn in
      let at_next = apply_next-last_applied rn in
      let ih = apply_loop-sent fuel (apply_next rn) (omega (arith, at_next, frame.commit_index)) in
      rw (lt→ltb rn.volatile.last_applied rn.volatile.commit_index (omega arith)) (
        cc (
          ih,
          apply_next-sent rn,
          at_next,
          frame.kept.storage,
          apply_next-messages rn fuel,
          append-prepend rn.sent
              (messages rn.pending_commits rn.storage (suc (suc rn.volatile.last_applied)) fuel)
              (message rn.pending_commits rn.storage (suc rn.volatile.last_applied)),
        ))

  -- Exactly the clients that wait for an entry which has a command and is now applied are told, each
  -- once, with no error, in the order of the entries.
  pub apply_committed-notifies :
      (rn : RaftNode S)
      → rn.volatile.last_applied ≤ rn.volatile.commit_index
      → (apply_committed_entries_locked rn).sent
        ≡ rn.sent
          ++ messages rn.pending_commits rn.storage
              (suc rn.volatile.last_applied)
              (rn.volatile.commit_index - rn.volatile.last_applied)
  unfolding apply_committed_entries_locked
  apply_committed-notifies rn h = apply_loop-sent _ rn (omega arith)

module _ {S : Type 0} ⦃b : StorageBackend S⦄ ⦃codec : Codec⦄ (law : IsLawful b) where
  abbrev pub command_of : Option LogEntry → Option Command
  command_of none = none
  command_of (some entry) = elim entry.command [
    | [] ↦ none
    | byte ∷ bytes ↦ codec.decode_command (byte ∷ bytes)
  ]

  pub command_at_lem :
      (s : S) (n : ℕ) → n < 2 ^ 64 → command_at n s ≡ command_of (get_elem? (law.log s) n)
  unfolding command_at
  command_at_lem s n small = ground (arith, law.get_entry_lem s n small)

  -- The commands depend on the log alone.
  commands-log :
      (s s' : S) (n k c : ℕ)
      → n + k ≤ c
      → c ≤ 2 ^ 64
      → take c (law.log s) ≡ take c (law.log s')
      → commands s n k ≡ commands s' n k
  unfolding commands
  commands-log s s' n zero c h small e = refl
  commands-log s s' n (suc k) c h small e =
      let same : get_elem? (law.log s) n ≡ get_elem? (law.log s') n = cc (
        get_elem?-take c (law.log s) n (omega arith),
        get_elem?-take c (law.log s') n (omega arith),
        ap (λ (l : List LogEntry). get_elem? l n) e,
      ) in
      cc (
        command_at_lem s n (omega arith),
        command_at_lem s' n (omega arith),
        same,
        commands-log s s' (suc n) k c (omega arith) small e,
      )

  -- Two nodes whose logs agree up to their common commit index, and whose stores were equal after the
  -- same entry, have equal stores once they have applied what is committed.
  pub replicas_agree :
      (rn rn' : RaftNode S)
      → rn.volatile ≡ rn'.volatile
      → rn.volatile.last_applied ≤ rn.volatile.commit_index
      → rn.volatile.commit_index < 2 ^ 64
      → take (suc rn.volatile.commit_index) (law.log rn.storage)
        ≡ take (suc rn.volatile.commit_index) (law.log rn'.storage)
      → rn.kv_store ≡ rn'.kv_store
      → (apply_committed_entries_locked rn).kv_store ≡ (apply_committed_entries_locked rn').kv_store
  replicas_agree rn rn' same h small agree kv = cc (
    (apply_committed-replays rn h).0,
    (apply_committed-replays rn' (rw (← same) h)).0,
    same,
    kv,
    commands-log rn.storage rn'.storage (suc rn.volatile.last_applied)
        (rn.volatile.commit_index - rn.volatile.last_applied) (suc rn.volatile.commit_index)
        (omega arith) (omega arith) agree,
  )
