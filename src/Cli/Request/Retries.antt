-- ===== src/Cli/Request/Retries.antt =====
-- `cluster.do` of cmd/raftra-cli/client.go ends, and gives up only when its time is up.
use raftra.Common.{
  ◌*◌, ℕ, zero, suc, ◌+◌, ◌-◌, ◌≤◌, ◌<◌, String, ◌≡◌, ◌≢◌, refl, ◌⊎◌, inl, inr, false, Option, none,
  some, List, [], ◌∷◌, arith, ◌==◌, string_eq, nat_eq, ltb, Bool-cases, Option-cases,
}
use native.Mathlib.Nat.{suc-mul}
use Prim.Native.String.{◌++◌ as concat}
use raftra.Cli.Nodes.{UrlOps, Cluster, retryable}
use raftra.Cli.Request.{
  Answer, Sent, refused, failed, answered, Http, Result, Session, visit, relocate, follow_redirects,
  execute_request, max_redirects, too_many_redirects, Last, Outcome, got, Tried, try_nodes,
  do_rounds, do_request, failure, reply,
}

-- The clock does not go back, and a pause lasts as long as it should.
pub record IsClock {W : Type 0} (http : Http W) : Type 0 where
  pub send :
      (method target : String) (body : Option String) (w : W)
      → http.now w ≤ http.now (http.send method target body w).1
  pub sleep : (d : ℕ) (w : W) → http.now w + d ≤ http.now (http.sleep d w)

-- A final answer, or the time is up.
abbrev pub Ends : {U W : Type 0} ⦃http : Http W⦄ → Cluster U → ℕ → Outcome → Session W → Type 0
Ends ⦃http⦄ c start outcome s =
    ((status : ℕ) × (text : String) × (outcome ≡ got status text) × (retryable status ≡ false))
    ⊎ (c.budget < http.now s.world - start + c.retry_delay)

module _ {W : Type 0} ⦃http : Http W⦄ (clock : IsClock http) where
  -- No time is turned back from one session to the next.
  abbrev Later : Session W → Session W → Type 0
  Later s t = http.now s.world ≤ http.now t.world

  visit-Later :
      (k : Answer → Session W → Result × Session W) (method current : String) (body : Option String)
      (s : Session W)
      → ((a : Answer) (t : Session W) → Later t (k a t).1)
      → Later s (visit k method current body s).1
  unfolding visit
  visit-Later k method current body s h = go (http.send method current body s.world) refl
    where
      go :
          (p : Sent × W)
          → http.send method current body s.world ≡ p
          → Later s (visit k method current body s).1
      go (refused, w) e = ground (arith, e, clock.send method current body s.world)
      go (failed, w) e = ground (arith, e, clock.send method current body s.world)
      go (answered a, w) e =
          ground (arith, e, clock.send method current body s.world, h a (record s { world = w }))

module _ {U W : Type 0} ⦃url : UrlOps U⦄ ⦃http : Http W⦄ (clock : IsClock http) where
  relocate-Later :
      (next : U → Session W → Result × Session W) (initial : U) (a : Answer) (s : Session W)
      → ((u : U) (t : Session W) → Later clock t (next u t).1)
      → Later clock s (relocate next initial a s).1
  unfolding relocate
  relocate-Later next initial a s h = elim (Bool-cases (a.location == "")) [
    | inl missing ↦ rw missing (omega arith)
    | inr given ↦ rw given (elim (Option-cases (url.parse a.location)) [
      | inl bad ↦ rw bad (omega arith)
      | inr (parsed, e) ↦ rw e (h _ _)
    ])
  ]

  follow_redirects-Later :
      (left : ℕ) (method current : String) (body : Option String) (initial : U) (s : Session W)
      → Later clock s (follow_redirects left method current body initial s).1
  unfolding follow_redirects
  follow_redirects-Later zero method current body initial s =
      visit-Later clock (λ a t. (failure too_many_redirects, t)) method current body s
        (λ a t. omega arith)
  follow_redirects-Later (suc left) method current body initial s =
      let next = λ (u : U). follow_redirects left method (url.show u) body initial in
      visit-Later clock (relocate next initial) method current body s (λ a t.
        relocate-Later next initial a t
          (λ u t'. follow_redirects-Later left method (url.show u) body initial t'))

  execute_request-Later :
      (method target : String) (body : Option String) (initial : U) (s : Session W)
      → Later clock s (execute_request method target body initial s).1
  unfolding execute_request
  execute_request-Later method target body initial s =
      follow_redirects-Later max_redirects method target body initial s

  try_nodes-Later :
      (nodes : List U) (method path : String) (body : Option String) (last : Last) (s : Session W)
      → Later clock s (try_nodes nodes method path body last s).session
  unfolding try_nodes
  try_nodes-Later [] method path body last s = omega arith
  try_nodes-Later (node ∷ nodes) method path body last s =
      go (execute_request method (concat (url.show node) path) body node s) refl
        (execute_request-Later method (concat (url.show node) path) body node s)
        (try_nodes-Later nodes method path body)
    where
      go :
          (p : Result × Session W)
          → execute_request method (concat (url.show node) path) body node s ≡ p
          → Later clock s (execute_request method (concat (url.show node) path) body node s).1
          → ((l : Last) (t : Session W)
              → Later clock t (try_nodes nodes method path body l t).session)
          → Later clock s (try_nodes (node ∷ nodes) method path body last s).session
      go (failure x, t) e here rest =
          ground (arith, e, here, rest (record last { error = some x }) t)
      go (reply status text, t) e here rest =
          ground (arith, e, here, rest (record last { answer = some (status, text) }) t)

  -- With fuel for the time that is left, the loop comes to an outcome.
  do_rounds-ne-none :
      (fuel : ℕ) (c : Cluster U) (start : ℕ) (method path : String) (body : Option String)
      (last : Last) (s : Session W)
      → start + c.budget < http.now s.world + fuel * c.retry_delay
      → do_rounds (suc fuel) c start method path body last s ≢ none
  unfolding do_rounds
  do_rounds-ne-none zero c start method path body last s h =
      ground (arith, h, try_nodes-Later c.nodes method path body last s)
  do_rounds-ne-none (suc fuel) c start method path body last s h =
      let t = try_nodes c.nodes method path body last s in
      let pause : Session W = record t.session {
        world = http.sleep c.retry_delay t.session.world;
      } in
      let later : start + c.budget < http.now pause.world + fuel * c.retry_delay = omega (
        arith,
        h,
        try_nodes-Later c.nodes method path body last s,
        clock.sleep c.retry_delay t.session.world,
        suc-mul fuel c.retry_delay,
      ) in
      ground (arith, do_rounds-ne-none fuel c start method path body t.last pause later)

  final-try_nodes :
      (nodes : List U) (method path : String) (body : Option String) (last : Last) (s : Session W)
      (status : ℕ) (text : String)
      → (try_nodes nodes method path body last s).final ≡ some (status, text)
      → retryable status ≡ false
  unfolding try_nodes
  final-try_nodes [] method path body last s status text h = cc
  final-try_nodes (node ∷ nodes) method path body last s status text h =
      go (execute_request method (concat (url.show node) path) body node s) refl
        (λ l t. final-try_nodes nodes method path body l t status text)
    where
      go :
          (p : Result × Session W)
          → execute_request method (concat (url.show node) path) body node s ≡ p
          → ((l : Last) (t : Session W)
              → (try_nodes nodes method path body l t).final ≡ some (status, text)
              → retryable status ≡ false)
          → retryable status ≡ false
      go (failure x, t) e rest = ground (arith, e, h, rest (record last { error = some x }) t)
      go (reply code words, t) e rest =
          ground (arith, e, h, rest (record last { answer = some (code, words) }) t)

  -- The loop gives up with no final answer only when the time is up.
  do_rounds-Ends :
      (fuel : ℕ) (c : Cluster U) (start : ℕ) (method path : String) (body : Option String)
      (last : Last) (s : Session W) (outcome : Outcome) (s' : Session W)
      → do_rounds fuel c start method path body last s ≡ some (outcome, s')
      → Ends c start outcome s'
  unfolding do_rounds
  do_rounds-Ends zero c start method path body last s outcome s' h = cc
  do_rounds-Ends (suc fuel) c start method path body last s outcome s' h =
      go t.final refl (do_rounds-Ends fuel c start method path body t.last pause outcome s')
    where
      t : Tried W
      t = try_nodes c.nodes method path body last s

      pause : Session W
      pause = record t.session { world = http.sleep c.retry_delay t.session.world }

      go :
          (o : Option (ℕ × String))
          → t.final ≡ o
          → (do_rounds fuel c start method path body t.last pause ≡ some (outcome, s')
              → Ends c start outcome s')
          → Ends c start outcome s'
      go (some (status, text)) e again = inl (
        status,
        text,
        ground (arith, e, h),
        final-try_nodes c.nodes method path body last s status text e,
      )
      go none e again =
          elim (Bool-cases (ltb c.budget (http.now t.session.world - start + c.retry_delay))) [
            | inl up ↦ inr (ground (arith, e, h, up))
            | inr left ↦ again (ground (arith, e, h, left))
          ]

  -- A request to the cluster comes to an outcome, with one round of fuel more than the pauses that fit
  -- the budget; and the outcome is a final answer, unless the time is up.
  pub do_request-Ends :
      (fuel : ℕ) (c : Cluster U) (method path : String) (body : Option String) (s : Session W)
      → c.budget < fuel * c.retry_delay
      → (outcome : Outcome) × (s' : Session W) × (do_request (suc fuel) c method path body s
          ≡ some (outcome, s'))
        × Ends c (http.now s.world) outcome s'
  unfolding do_request
  do_request-Ends fuel c method path body s h =
      elim (Option-cases (do_request (suc fuel) c method path body s)) [
        | inl out ↦ absurd (
            do_rounds-ne-none fuel c (http.now s.world) method path body _ s (omega (arith, h)) out)
        | inr ((outcome, s'), e) ↦ (
          outcome,
          s',
          e,
          do_rounds-Ends (suc fuel) c (http.now s.world) method path body _ s outcome s' e,
        )
      ]
