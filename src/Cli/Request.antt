-- ===== src/Cli/Request.antt =====
-- Requests of cmd/raftra-cli: `executeRequest` of main.go to one node, along its redirects, and
-- `cluster.do` of client.go, which goes round the nodes until one gives a final answer or the time is up.
pub mod Bounds
pub mod Retries
use raftra.Common.{
  ℕ, zero, suc, ◌+◌, ◌-◌, ◌≤◌, ◌<◌, ◌^◌, String, ◌≡◌, ◌≢◌, refl, sym, ap, ◌∙◌, ◌⊎◌, ◌↔◌, inl, inr,
  Bool, true, false, not, ◌&&◌, ◌||◌, Option, none, some, List, [], ◌∷◌, ◌++◌, min, arith, ◌==◌,
  string_eq, nat_eq, u64, u64-eq_of_lt, eq_iff, ltb, leb, if◌then◌else◌, length, take, drop,
  get_elem?, last_or, Bool-cases, Option-cases,
}
use Prim.Native.String.{◌++◌ as concat}
use raftra.Cli.Nodes.{UrlOps, Cluster, retryable}

-- An answer of package net/http; the body is missing where its reading fails.
pub record Answer : Type 0 where
  pub status : ℕ
  pub location : String
  pub body : Option String

-- What sending a request comes to: http.NewRequest refuses it, client.Do fails, or an answer.
pub data Sent : Type 0 where
  refused failed : Sent
  answered : Answer → Sent

-- The network and the clock that the client uses; `W` is their state.
pub record Http (W : Type 0) : Type 0 where
  pub send : String → String → Option String → W → Sent × W
  pub now : W → ℕ
  pub sleep : ℕ → W → W

pub data RequestError : Type 0 where
  not_created not_sent too_many_redirects no_location bad_location unread : RequestError

pub data Result : Type 0 where
  failure : RequestError → Result
  reply : (status : ℕ) → (body : String) → Result

-- `redirects` is the variable of main.go, the hosts that the current command was sent to.
pub record Session (W : Type 0) : Type 0 where
  pub world : W
  pub redirects : List String

abbrev pub max_redirects : ℕ
max_redirects = 5

abbrev pub is_redirect : ℕ → Bool
is_redirect status = status == 307 || status == 308

read_body : Answer → Result
read_body a = elim a.body [ none ↦ failure unread | some body ↦ reply a.status body ]

module _ {U : Type 0} ⦃url : UrlOps U⦄ where
  -- The names of the containers, for a client on their host.
  unfoldable pub translate_redirect_url : U → U → U
  translate_redirect_url target initial =
      let host = url.hostname initial in
      if host == "localhost" || host == "127.0.0.1"
      then (if url.hostname target == "node1"
          then url.set_host (concat host ":8001") target
          else if url.hostname target == "node2"
          then url.set_host (concat host ":8002") target
          else if url.hostname target == "node3"
          then url.set_host (concat host ":8003") target
          else target)
      else target

module _ {W : Type 0} ⦃http : Http W⦄ where
  -- One round of the loop; `on_redirect` is what follows a redirect.
  visit :
      (Answer → Session W → Result × Session W)
      → String
      → String
      → Option String
      → Session W
      → Result × Session W
  unfolding read_body
  visit on_redirect method current body s =
      let (sent, world) = http.send method current body s.world in
      let s' : Session W = record s { world = world } in
      elim sent [
        | refused ↦ (failure not_created, s')
        | failed ↦ (failure not_sent, s')
        | answered a ↦ if is_redirect a.status then on_redirect a s' else (read_body a, s')
      ]

module _ {U W : Type 0} ⦃url : UrlOps U⦄ ⦃http : Http W⦄ where
  relocate : (U → Session W → Result × Session W) → U → Answer → Session W → Result × Session W
  unfolding translate_redirect_url
  relocate next initial a s =
      if a.location == "" then (failure no_location, s) else elim (url.parse a.location) [
        | none ↦ (failure bad_location, s)
        | some parsed ↦
            let target = translate_redirect_url parsed initial in
            next target (record s { redirects = s.redirects ++ url.host target ∷ [] })
      ]

  -- The first argument is how many redirects may still be followed.
  follow_redirects : ℕ → String → String → Option String → U → Session W → Result × Session W
  unfolding visit relocate
  follow_redirects zero method current body initial =
      visit (λ a s. (failure too_many_redirects, s)) method current body
  follow_redirects (suc left) method current body initial =
      visit (relocate (λ u. follow_redirects left method (url.show u) body initial) initial) method
        current body

  unfoldable pub execute_request :
      String → String → Option String → U → Session W → Result × Session W
  unfolding follow_redirects
  execute_request method target body initial s =
      follow_redirects max_redirects method target body initial s

-- The variables of the loop of `do`: the last answer and the last error.
pub record Last : Type 0 where
  pub answer : Option (ℕ × String)
  pub error : Option RequestError

pub data Outcome : Type 0 where
  got : (status : ℕ) → (body : String) → Outcome
  unreachable : Option RequestError → Outcome

give_up : Last → Outcome
give_up last = elim last.answer [
  | some (status, body) ↦ got status body
  | none ↦ unreachable last.error
]

-- Where a round over the nodes leaves the loop: with a final answer, or with none.
pub record Tried (W : Type 0) : Type 0 where
  pub final : Option (ℕ × String)
  pub last : Last
  pub session : Session W

module _ {U W : Type 0} ⦃url : UrlOps U⦄ ⦃http : Http W⦄ where
  -- for _, node := range c.nodes
  try_nodes : List U → String → String → Option String → Last → Session W → Tried W
  try_nodes [] method path body last s = record { final = none; last = last; session = s }
  try_nodes (node ∷ nodes) method path body last s =
      let (result, s') = execute_request method (concat (url.show node) path) body node s in
      let rest = λ (l : Last). try_nodes nodes method path body l s' in
      elim result [
        | failure e ↦ rest (record last { error = some e })
        | reply status text ↦
            if retryable status
            then rest (record last { answer = some (status, text) })
            else record { final = some (status, text); last = last; session = s' }
      ]

  -- The outer loop, on fuel; `start` is the time of its beginning.
  do_rounds :
      ℕ
      → Cluster U
      → ℕ
      → String
      → String
      → Option String
      → Last
      → Session W
      → Option (Outcome × Session W)
  unfolding try_nodes give_up
  do_rounds zero c start method path body last s = none
  do_rounds (suc fuel) c start method path body last s =
      let t = try_nodes c.nodes method path body last s in
      let pause : Session W = record t.session {
        world = http.sleep c.retry_delay t.session.world;
      } in
      let again = do_rounds fuel c start method path body t.last pause in
      elim t.final [
        | some (status, text) ↦ some (got status text, t.session)
        | none ↦
            if ltb c.budget (http.now t.session.world - start + c.retry_delay)
            then some (give_up t.last, t.session)
            else again
      ]

  unfoldable pub do_request :
      ℕ → Cluster U → String → String → Option String → Session W → Option (Outcome × Session W)
  unfolding do_rounds
  do_request fuel c method path body s =
      do_rounds fuel c (http.now s.world) method path body (record { answer = none; error = none })
        s
