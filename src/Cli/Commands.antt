-- ===== src/Cli/Commands.antt =====
-- The commands of cmd/raftra-cli/main.go, and the lines of a script. A command gives what it prints, as
-- a value, and whether it succeeded.
pub mod Answers
use raftra.Common.{
  ℕ, zero, suc, ◌+◌, ◌-◌, ◌≤◌, ◌<◌, ◌^◌, String, ◌≡◌, ◌≢◌, refl, sym, ap, ◌∙◌, ◌⊎◌, ◌↔◌, inl, inr,
  Bool, true, false, not, ◌&&◌, ◌||◌, Option, none, some, List, [], ◌∷◌, ◌++◌, min, arith, ◌==◌,
  string_eq, nat_eq, u64, u64-eq_of_lt, eq_iff, ltb, leb, if◌then◌else◌, length, take, drop,
  get_elem?, last_or, Bool-cases, Option-cases,
}
use Prim.Native.String
use Prim.Native.String.{◌++◌ as concat}
use raftra.Cli.Nodes.{UrlOps, Cluster, Explanation, describe_error}
use raftra.Cli.Request.{Http, Session, Outcome, got, unreachable, RequestError, do_request}
use raftra.Cli.Status.{
  Asking, Row, NodeStatus, fetch_statuses, leader_of, answered, status_lines, lowers_to,
}
use mathlib.Core.Option
use raftra.GoText.{fields, join}

-- The fields of a KVResponse that are read, where a body is its JSON.
pub record KvResponse : Type 0 where
  pub value : String
  pub error : String

pub record Json : Type 0 where
  pub decode_kv : String → Option KvResponse

pub data Message : Type 0 where
  leads : (leader_id : String) → (term : ℕ) → List Row → Message
  no_leader_now : List Row → Message
  no_node_answered : List Row → Message
  is_not_set : (key : String) → Message
  has_value : (key : String) → (value : String) → Message
  written : (key : String) → (value : String) → (via : Option String) → Message
  deleted : (key : String) → (via : Option String) → Message
  refused : Explanation → Message
  unreached : Option RequestError → Message
  usage : String → Message
  unknown : String → Message  -- the command, which is printed in small letters

pub record Report (W : Type 0) : Type 0 where
  pub ok : Bool
  pub message : Message
  pub session : Session W

-- The redirect that was followed last.
redirect_note : List String → Option String
redirect_note [] = none
redirect_note (host ∷ hosts) = some (last_or host hosts)

-- 12 rounds of fuel: a pause of 300 ms fits a budget of 3 s ten times.
abbrev pub enough_rounds : ℕ
enough_rounds = 12

module _ ⦃json : Json⦄ where
  explain : ℕ → String → Explanation
  explain status body =
      describe_error status body (elim (json.decode_kv body) as (λ _. Option String) [
        | none ↦ none
        | some kv ↦ some kv.error
      ])

  value_of : String → String
  value_of body = elim (json.decode_kv body) [ none ↦ body | some kv ↦ kv.value ]

module _ {W : Type 0} ⦃json : Json⦄ where
  -- The handlers, from the outcome of the request on.
  on_get : String → Outcome → Session W → Report W
  unfolding explain value_of
  on_get key (unreachable e) s = record { ok = false; message = unreached e; session = s }
  on_get key (got status body) s =
      if status == 404
      then record { ok = true; message = is_not_set key; session = s }
      else if not (status == 200)
      then record { ok = false; message = refused (explain status body); session = s }
      else record { ok = true; message = has_value key (value_of body); session = s }

  on_set : String → String → Outcome → Session W → Report W
  unfolding explain redirect_note
  on_set key value (unreachable e) s = record { ok = false; message = unreached e; session = s }
  on_set key value (got status body) s =
      if not (status == 200) && not (status == 201)
      then record { ok = false; message = refused (explain status body); session = s }
      else record {
        ok = true;
        message = written key value (redirect_note s.redirects);
        session = s;
      }

  on_delete : String → Outcome → Session W → Report W
  unfolding explain redirect_note
  on_delete key (unreachable e) s = record { ok = false; message = unreached e; session = s }
  on_delete key (got status body) s =
      if not (status == 200)
      then record { ok = false; message = refused (explain status body); session = s }
      else record { ok = true; message = deleted key (redirect_note s.redirects); session = s }

module _ {W : Type 0} where
  misused : String → Session W → Report W
  misused text s = record { ok = false; message = usage text; session = s }

abbrev pub key_path : String → String
key_path escaped = concat "/api/v1/kv/" escaped

module _ {U W : Type 0} ⦃url : UrlOps U⦄ ⦃http : Http W⦄ ⦃json : Json⦄ ⦃asking : Asking⦄ where
  -- `none` where the request runs out of its fuel.
  unfoldable pub handle_get : Cluster U → String → Session W → Option (Report W)
  unfolding on_get
  handle_get c key s =
      Option.map (λ r. on_get key r.0 r.1)
        (do_request enough_rounds c "GET" (key_path (url.path_escape key)) none s)

  unfoldable pub handle_set : Cluster U → String → String → Session W → Option (Report W)
  unfolding on_set
  handle_set c key value s =
      Option.map (λ r. on_set key value r.0 r.1)
        (do_request enough_rounds c "PUT" (key_path (url.path_escape key)) (some value) s)

  unfoldable pub handle_delete : Cluster U → String → Session W → Option (Report W)
  unfolding on_delete
  handle_delete c key s =
      Option.map (λ r. on_delete key r.0 r.1)
        (do_request enough_rounds c "DELETE" (key_path (url.path_escape key)) none s)

  unfoldable pub handle_status : Cluster U → Session W → Report W
  handle_status c s =
      let nodes = fetch_statuses c.nodes in
      let lines = status_lines nodes in
      elim (leader_of nodes) [
        | none ↦
            if ltb 0 (answered nodes)
            then record { ok = true; message = no_leader_now lines; session = s }
            else record { ok = false; message = no_node_answered lines; session = s }
        | some l ↦ elim l.st [
          | none ↦ record { ok = true; message = leads "" 0 lines; session = s }
          | some st ↦ record { ok = true; message = leads st.leader_id st.term lines; session = s }
        ]
      ]

  get_args : Cluster U → List String → Session W → Option (Report W)
  unfolding misused
  get_args c [] s = some (misused "get <key>" s)
  get_args c (key ∷ more) s = handle_get c key s

  set_args : Cluster U → List String → Session W → Option (Report W)
  unfolding misused
  set_args c [] s = some (misused "set <key> <value>" s)
  set_args c (key ∷ []) s = some (misused "set <key> <value>" s)
  set_args c (key ∷ value ∷ values) s = handle_set c key (join " " (value ∷ values)) s

  delete_args : Cluster U → List String → Session W → Option (Report W)
  unfolding misused
  delete_args c [] s = some (misused "delete <key>" s)
  delete_args c (key ∷ more) s = handle_delete c key s

  -- `args[0]` and the arguments after it.
  unfoldable pub run_command : Cluster U → String → List String → Session W → Option (Report W)
  unfolding get_args set_args delete_args
  run_command c command args s =
      let fresh : Session W = record s { redirects = [] } in
      if lowers_to command "status"
      then some (handle_status c fresh)
      else if lowers_to command "get"
      then get_args c args fresh
      else if lowers_to command "set"
      then set_args c args fresh
      else if lowers_to command "delete" || lowers_to command "del"
      then delete_args c args fresh
      else some (record { ok = false; message = unknown command; session = fresh })

  -- The lines of a script; an empty line is skipped, and `exit` or `quit` ends it.
  unfoldable pub run_script : Cluster U → List String → Session W → Option (Session W)
  run_script c [] s = some s
  run_script c (line ∷ lines) s =
      let rest = run_script c lines s in
      elim (fields line) [
        | [] ↦ rest
        | command ∷ args ↦
            if lowers_to command "exit" || lowers_to command "quit"
            then some s
            else elim (run_command c command args s) [
              | none ↦ none
              | some report ↦ run_script c lines report.session
            ]
      ]
