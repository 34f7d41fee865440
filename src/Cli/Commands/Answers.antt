-- ===== src/Cli/Commands/Answers.antt =====
-- What a command of cmd/raftra-cli reports: it always comes to a report, and a write is reported as done
-- only if the cluster answered that it is.
use raftra.Common.{
  ◌*◌, ℕ, ◌<◌, String, ◌≡◌, ◌≢◌, refl, ◌⊎◌, ◌↔◌, true, Option, none, some, List, [], ◌∷◌, arith,
  string_eq, nat_eq,
}
use mathlib.Core.Option
use raftra.Cli.Commands.{
  Json, Report, enough_rounds, on_set, key_path, handle_get, handle_set, handle_delete, get_args,
  set_args, delete_args, run_command,
}
use raftra.Cli.Nodes.{UrlOps, Cluster}
use raftra.Cli.Request.Retries.{IsClock, do_request-Ends}
use raftra.Cli.Request.{Http, Session, Outcome, got, unreachable, do_request}
use raftra.Cli.Status.{Asking}

-- The budget of the cluster ends before the fuel does.
abbrev pub FuelSuffices : {U : Type 0} → Cluster U → Type 0
FuelSuffices c = c.budget < 11 * c.retry_delay

map-ne-none : {A B : Type 0} (f : A → B) (o : Option A) → o ≢ none → Option.map f o ≢ none
map-ne-none f none h e = h refl
map-ne-none f (some a) h e = cc

module _ {U W : Type 0} ⦃url : UrlOps U⦄ ⦃http : Http W⦄ ⦃json : Json⦄ ⦃asking : Asking⦄ where
  do_request-ne-none :
      (c : Cluster U) (method path : String) (body : Option String) (s : Session W)
      → IsClock http
      → FuelSuffices c
      → do_request enough_rounds c method path body s ≢ none
  do_request-ne-none c method path body s clock h e =
      let (outcome, s', e', _) = do_request-Ends clock 11 c method path body s h in cc

  handle_get-ne-none :
      (c : Cluster U) (key : String) (s : Session W)
      → IsClock http
      → FuelSuffices c
      → handle_get c key s ≢ none
  unfolding handle_get
  handle_get-ne-none c key s clock h =
      map-ne-none _ _ (do_request-ne-none c "GET" (key_path (url.path_escape key)) none s clock h)

  handle_set-ne-none :
      (c : Cluster U) (key value : String) (s : Session W)
      → IsClock http
      → FuelSuffices c
      → handle_set c key value s ≢ none
  unfolding handle_set
  handle_set-ne-none c key value s clock h =
      map-ne-none _ _
        (do_request-ne-none c "PUT" (key_path (url.path_escape key)) (some value) s clock h)

  handle_delete-ne-none :
      (c : Cluster U) (key : String) (s : Session W)
      → IsClock http
      → FuelSuffices c
      → handle_delete c key s ≢ none
  unfolding handle_delete
  handle_delete-ne-none c key s clock h =
      map-ne-none _ _
        (do_request-ne-none c "DELETE" (key_path (url.path_escape key)) none s clock h)

  get_args-ne-none :
      (c : Cluster U) (args : List String) (s : Session W)
      → IsClock http
      → FuelSuffices c
      → get_args c args s ≢ none
  unfolding get_args
  get_args-ne-none c [] s clock h = λ e. cc
  get_args-ne-none c (key ∷ more) s clock h = handle_get-ne-none c key s clock h

  set_args-ne-none :
      (c : Cluster U) (args : List String) (s : Session W)
      → IsClock http
      → FuelSuffices c
      → set_args c args s ≢ none
  unfolding set_args
  set_args-ne-none c [] s clock h = λ e. cc
  set_args-ne-none c (key ∷ []) s clock h = λ e. cc
  set_args-ne-none c (key ∷ value ∷ values) s clock h = handle_set-ne-none c key _ s clock h

  delete_args-ne-none :
      (c : Cluster U) (args : List String) (s : Session W)
      → IsClock http
      → FuelSuffices c
      → delete_args c args s ≢ none
  unfolding delete_args
  delete_args-ne-none c [] s clock h = λ e. cc
  delete_args-ne-none c (key ∷ more) s clock h = handle_delete-ne-none c key s clock h

  -- A command comes to a report, whatever the nodes answer and whatever the arguments are.
  pub run_command-ne-none :
      (c : Cluster U) (command : String) (args : List String) (s : Session W)
      → IsClock http
      → FuelSuffices c
      → run_command c command args s ≢ none
  unfolding run_command
  run_command-ne-none c command args s clock h =
      let fresh : Session W = record s { redirects = [] } in
      ground (
        arith,
        get_args-ne-none c args fresh clock h,
        set_args-ne-none c args fresh clock h,
        delete_args-ne-none c args fresh clock h,
      )

  pub handle_set-ok :
      (c : Cluster U) (key value : String) (s : Session W) (report : Report W)
      → handle_set c key value s ≡ some report
      → (report.ok ≡ true) ↔ (
          (status : ℕ) × (body : String) × (s' : Session W) × (do_request enough_rounds c "PUT"
              (key_path (url.path_escape key))
              (some value)
              s
            ≡ some (got status body, s'))
          × ((status ≡ 200) ⊎ (status ≡ 201)))
  unfolding handle_set on_set
  handle_set-ok c key value s report e =
      go (do_request enough_rounds c "PUT" (key_path (url.path_escape key)) (some value) s) refl
    where
      go :
          (o : Option (Outcome × Session W))
          → do_request enough_rounds c "PUT" (key_path (url.path_escape key)) (some value) s ≡ o
          → (report.ok ≡ true) ↔ (
              (status : ℕ) × (body : String) × (s' : Session W) × (do_request enough_rounds c "PUT"
                  (key_path (url.path_escape key))
                  (some value)
                  s
                ≡ some (got status body, s'))
              × ((status ≡ 200) ⊎ (status ≡ 201)))
      go none d = (λ h. absurd (ground (arith, e, d)), λ w. absurd (ground (arith, d, w.3)))
      go (some (unreachable x, s')) d =
          (λ h. absurd (ground (arith, e, d, h)), λ w. absurd (ground (arith, d, w.3)))
      go (some (got status body, s')) d =
          (λ h. (status, body, s', d, ground (arith, e, d, h)), λ w. ground (arith, e, d, w.3, w.4))
