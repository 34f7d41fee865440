-- ===== src/Cli/Nodes.antt =====
-- cmd/raftra-cli/client.go: the addresses of the nodes, and how the answers of a node are judged.
use raftra.Common.{
  ℕ, String, Bool, not, ◌&&◌, ◌||◌, Option, none, some, List, [], ◌∷◌, ◌++◌, ◌==◌, string_eq,
  nat_eq, if◌then◌else◌, length,
}
use Prim.Native.String.{◌++◌ as concat}
use text.Mathlib.Text.{starts_with}
use raftra.GoText.{split, trim_space, trim_end}

-- What the client uses of package net/url.
pub record UrlOps (U : Type 0) : Type 0 where
  pub parse : String → Option U
  pub show : U → String  -- u.String()
  pub host : U → String  -- u.Host
  pub hostname : U → String
  pub set_host : String → U → U  -- u.Host = …
  pub path_escape : String → String

pub data Parsed (U : Type 0) : Type 0 where
  invalid : String → Parsed U
  no_address : Parsed U
  parsed : List U → Parsed U

pub record Cluster (U : Type 0) : Type 0 where
  pub nodes : List U
  pub retry_delay : ℕ
  pub budget : ℕ

is_slash : ℕ → Bool
is_slash c = c == b'/'

with_scheme : String → String
with_scheme raw =
    if not (starts_with raw "http://") && not (starts_with raw "https://")
    then concat "http://" raw
    else raw

module _ {U : Type 0} ⦃url : UrlOps U⦄ where
  -- One address of the list, with its scheme: the node, unless the address is invalid.
  parse_addr : String → Option U
  unfolding is_slash
  parse_addr raw = elim (url.parse (trim_end is_slash raw)) [
    | none ↦ none
    | some u ↦ if url.host u == "" then none else some u
  ]

  -- The loop over the parts of the list; `nodes` are those that were read.
  parse_parts : List U → List String → Parsed U
  unfolding parse_addr with_scheme
  parse_parts nodes [] = if length nodes == 0 then no_address else parsed nodes
  parse_parts nodes (part ∷ parts) =
      let raw = trim_space part in
      let skipped = parse_parts nodes parts in
      if raw == "" then skipped else elim (parse_addr (with_scheme raw)) [
        | none ↦ invalid (with_scheme raw)
        | some u ↦ parse_parts (nodes ++ u ∷ []) parts
      ]

  unfoldable pub parse_addrs : String → Parsed U
  unfolding parse_parts
  parse_addrs list = parse_parts [] (split "," list)

  -- 300 ms between the rounds, and 3 s in all, in nanoseconds.
  unfoldable pub new_cluster : String → Option (Cluster U)
  new_cluster addr_list = elim (parse_addrs addr_list) [
    | parsed nodes ↦ some (record { nodes = nodes; retry_delay = 300000000; budget = 3000000000 })
    | _ ↦ none
  ]

unfoldable pub retryable : ℕ → Bool
retryable status = status == 502 || status == 503 || status == 504

-- What `describeError` explains; the text of a body is `message`.
pub data Explanation : Type 0 where
  too_large : (message : String) → Explanation
  slow_down : Explanation
  full : (message : String) → Explanation
  no_node : Explanation
  no_leader : Explanation
  other : ℕ → (message : String) → Explanation

-- `parsed_error` is the field Error of the body, where it is the JSON of a KVResponse.
unfoldable pub describe_error : ℕ → String → Option String → Explanation
describe_error status body parsed_error =
    let text = trim_space body in
    let message = elim parsed_error as (λ _. String) [
      | none ↦ text
      | some e ↦ if e == "" then text else e
    ] in
    if status == 413
    then too_large message
    else if status == 429
    then slow_down
    else if status == 507
    then full message
    else if status == 502 || status == 504
    then no_node
    else if status == 503
    then no_leader
    else other status message
