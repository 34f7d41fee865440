-- ===== src/Tests/Client.antt =====
-- The client and the flags of the server at concrete inputs (cmd).
use raftra.Common.{
  ◌*◌, ℕ, ◌+◌, ◌≤◌, String, ◌≡◌, refl, ◌⊎◌, ◌↔◌, Bool, true, false, none, some, List, [], ◌∷◌,
  arith, ◌==◌, string_eq, nat_eq, if◌then◌else◌,
}
use raftra.Cli.Commands.Answers.{handle_set-ok}
use raftra.Cli.Commands.{Json, Report, written, handle_set, enough_rounds, key_path}
use raftra.Cli.Nodes.{UrlOps, Cluster, retryable}
use raftra.Cli.Request.Bounds.{execute_request_bound}
use raftra.Cli.Request.Retries.{IsClock, Ends, do_request-Ends}
use raftra.Cli.Request.{
  Answer, answered, Http, Session, Outcome, got, translate_redirect_url, execute_request,
  do_request,
}
use raftra.Cli.Status.Leader.{IsAnswer, leader_of-IsAnswer}
use raftra.Cli.Status.{Asking, NodeStatus, leader_of}
use raftra.GoMap
use raftra.GoText.{split, join, trim_space, is_space, trim_end, trim_start}
use raftra.Server.Flags.{
  Entry, IsClean, print, peer_of, parse_peers-print, Agrees, parse_peers-Agrees,
}
use raftra.Server.{add_entry, parse_peers}

-- A URL is its text, and its host name is the text that it is.
instance abbrev urls : UrlOps String
urls = record {
  parse = λ s. some s;
  show = λ u. u;
  host = λ u. u;
  hostname = λ u. u;
  set_host = λ h u. h;
  path_escape = λ k. k;
}

-- The world counts what was sent, and the clock of it goes by seconds.
abbrev answer_of : String → Answer
answer_of target =
    if target == "http://n1/api/v1/kv/x"
    then record { status = 307; location = "http://n2/api/v1/kv/x"; body = none }
    else record { status = 200; location = ""; body = some "ok" }

instance abbrev network : Http ℕ
network = record {
  send = λ method target body w. (answered (answer_of target), w + 1);
  now = λ w. w * 1000000000;
  sleep = λ d w. w + 1 + d;
}

instance abbrev plain_json : Json
plain_json = record { decode_kv = λ body. none }

instance abbrev nobody : Asking
nobody = record { get = λ target. none; decode_status = λ body. none }

network-IsClock : IsClock network
network-IsClock = record { send = λ m t b w. omega arith; sleep = λ d w. omega arith }

abbrev two_nodes : Cluster String
two_nodes = record {
  nodes = "http://n1" ∷ "http://n2" ∷ [];
  retry_delay = 300000000;
  budget = 3000000000;
}

abbrev session : Session ℕ
session = record { world = 0; redirects = [] }

execute_request_bound_example :
    (execute_request {U = String} "PUT" "http://n1/api/v1/kv/x"
      (some "1")
      "http://n1"
      session).1.world
    ≤ 6
execute_request_bound_example =
    execute_request_bound (λ w. w) (λ m t b w. refl) "PUT" "http://n1/api/v1/kv/x" (some "1")
      "http://n1" session

do_request-Ends_example :
    (outcome : Outcome) × (s' : Session ℕ) × (do_request 12 two_nodes "PUT" "/api/v1/kv/x"
        (some "1")
        session
      ≡ some (outcome, s'))
    × Ends two_nodes 0 outcome s'
do_request-Ends_example =
    do_request-Ends network-IsClock 11 two_nodes "PUT" "/api/v1/kv/x" (some "1") session
      (omega arith)

-- `set x 1` is sent to n1, and on to n2.
stored : Report ℕ
stored = record {
  ok = true;
  message = written "x" "1" (some "http://n2/api/v1/kv/x");
  session = record { world = 2; redirects = "http://n2/api/v1/kv/x" ∷ [] };
}

handle_set-stored : handle_set two_nodes "x" "1" session ≡ some stored
unfolding handle_set stored do_request execute_request translate_redirect_url retryable
handle_set-stored = refl

handle_set-ok_example : (stored.ok ≡ true) ↔ (
    (status : ℕ) × (body : String) × (s' : Session ℕ) × (do_request enough_rounds two_nodes "PUT"
        (key_path "x")
        (some "1")
        session
      ≡ some (got status body, s'))
    × ((status ≡ 200) ⊎ (status ≡ 201)))
handle_set-ok_example = handle_set-ok two_nodes "x" "1" session stored handle_set-stored

-- A leader of term 2 that has been deposed, and the one of term 3.
abbrev told : String → ℕ → Bool → NodeStatus
told host term is_leader = record {
  host = host;
  st = some (record {
    role = "Leader";
    term = term;
    is_leader = is_leader;
    leader_id = host;
    commit_index = 0;
    last_applied = 0;
  });
}

abbrev three : List NodeStatus
three = told "n1" 2 true ∷ told "n2" 3 false ∷ told "n3" 3 true ∷ []

leader_of-IsAnswer_example : IsAnswer (leader_of three) three
leader_of-IsAnswer_example = leader_of-IsAnswer three

abbrev entry2 : Entry
entry2 = record { id = "node2"; host = "localhost"; port = "50052" }

abbrev entry3 : Entry
entry3 = record { id = "node3"; host = "localhost"; port = "50053" }

entry2-IsClean : IsClean entry2
unfolding join trim_space trim_end trim_start is_space
entry2-IsClean = record { id = refl; host = refl; port = refl; entry = refl; trimmed = refl }

entry3-IsClean : IsClean entry3
unfolding join trim_space trim_end trim_start is_space
entry3-IsClean = record { id = refl; host = refl; port = refl; entry = refl; trimmed = refl }

parse_peers-print_example :
    (parse_peers (join "," (print entry2 ∷ print entry3 ∷ []))).peers
    ≡ peer_of entry2 ∷ peer_of entry3 ∷ []
parse_peers-print_example =
    parse_peers-print entry2 (entry3 ∷ []) (entry2-IsClean, (entry3-IsClean, tt))

parse_peers-Agrees_example : Agrees (parse_peers "node2:50051, node3:localhost:50052,node2:n:1")
parse_peers-Agrees_example = parse_peers-Agrees "node2:50051, node3:localhost:50052,node2:n:1"

parse_two :
    (parse_peers "node2:50051, node3:localhost:50052").peers
    ≡ record { id = "node2"; address = "node2:50051" }
      ∷ record { id = "node3"; address = "localhost:50052" }
      ∷ []
unfolding parse_peers add_entry split join trim_space trim_end trim_start is_space GoMap.insert
parse_two = refl
