-- ===== src/Cli/Request/Bounds.antt =====
-- One request of cmd/raftra-cli ends: `executeRequest` sends at most six times.
use raftra.Common.{
  ℕ, zero, suc, ◌+◌, ◌≤◌, String, ◌≡◌, refl, inl, inr, Option, arith, ◌==◌, string_eq, nat_eq,
  Bool-cases, Option-cases,
}
use raftra.Cli.Nodes.{UrlOps}
use raftra.Cli.Request.{
  Answer, Sent, refused, failed, answered, Http, Result, Session, visit, relocate, follow_redirects,
  execute_request, max_redirects, failure, too_many_redirects,
}

module _ {W : Type 0} ⦃http : Http W⦄ (sends : W → ℕ)
    (each : (method target : String) (body : Option String) (w : W)
      → sends (http.send method target body w).1 ≡ sends w + 1) where
  visit-le :
      (k : Answer → Session W → Result × Session W) (n : ℕ) (method current : String)
      (body : Option String) (s : Session W)
      → ((a : Answer) (t : Session W) → sends (k a t).1.world ≤ sends t.world + n)
      → sends (visit k method current body s).1.world ≤ sends s.world + suc n
  unfolding visit
  visit-le k n method current body s h = go (http.send method current body s.world) refl
    where
      go :
          (p : Sent × W)
          → http.send method current body s.world ≡ p
          → sends (visit k method current body s).1.world ≤ sends s.world + suc n
      go (refused, w) e = ground (arith, e, each method current body s.world)
      go (failed, w) e = ground (arith, e, each method current body s.world)
      go (answered a, w) e =
          ground (arith, e, each method current body s.world, h a (record s { world = w }))

module _ {U W : Type 0} ⦃url : UrlOps U⦄ ⦃http : Http W⦄ (sends : W → ℕ)
    (each : (method target : String) (body : Option String) (w : W)
      → sends (http.send method target body w).1 ≡ sends w + 1) where
  relocate-le :
      (next : U → Session W → Result × Session W) (n : ℕ) (initial : U) (a : Answer) (s : Session W)
      → ((u : U) (t : Session W) → sends (next u t).1.world ≤ sends t.world + n)
      → sends (relocate next initial a s).1.world ≤ sends s.world + n
  unfolding relocate
  relocate-le next n initial a s h = elim (Bool-cases (a.location == "")) [
    | inl missing ↦ rw missing (omega arith)
    | inr given ↦ rw given (elim (Option-cases (url.parse a.location)) [
      | inl bad ↦ rw bad (omega arith)
      | inr (parsed, e) ↦ rw e (h _ _)
    ])
  ]

  follow_redirects-le :
      (left : ℕ) (method current : String) (body : Option String) (initial : U) (s : Session W)
      → sends (follow_redirects left method current body initial s).1.world
        ≤ sends s.world + suc left
  unfolding follow_redirects
  follow_redirects-le zero method current body initial s =
      visit-le sends each (λ a t. (failure too_many_redirects, t)) 0 method current body s
        (λ a t. omega arith)
  follow_redirects-le (suc left) method current body initial s =
      let next = λ (u : U). follow_redirects left method (url.show u) body initial in
      visit-le sends each (relocate next initial) (suc left) method current body s (λ a t.
        relocate-le next (suc left) initial a t
          (λ u t'. follow_redirects-le left method (url.show u) body initial t'))

  -- Each request to a node is sent at most six times, whatever the nodes answer: a loop of redirects
  -- ends.
  pub execute_request_bound :
      (method target : String) (body : Option String) (initial : U) (s : Session W)
      → sends (execute_request method target body initial s).1.world ≤ sends s.world + 6
  unfolding execute_request
  execute_request_bound method target body initial s =
      follow_redirects-le max_redirects method target body initial s
