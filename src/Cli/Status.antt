-- ===== src/Cli/Status.antt =====
-- The status of the cluster, as cmd/raftra-cli/main.go gathers and shows it.
pub mod Leader
use raftra.Common.{
  map, ℕ, zero, suc, ◌+◌, ◌-◌, ◌≤◌, ◌<◌, ◌^◌, String, ◌≡◌, ◌≢◌, refl, sym, ap, ◌∙◌, ◌⊎◌, ◌↔◌, inl,
  inr, Bool, true, false, not, ◌&&◌, ◌||◌, Option, none, some, List, [], ◌∷◌, ◌++◌, min, arith,
  ◌==◌, string_eq, nat_eq, u64, u64-eq_of_lt, eq_iff, ltb, leb, if◌then◌else◌, length, take, drop,
  get_elem?, last_or, Bool-cases, Option-cases,
}
use Prim.Native.Nat.{Ordering}
use Prim.Native.Char.{code}
use Prim.Native.String
use Prim.Native.String.{◌++◌ as concat, compare}
use raftra.Cli.Nodes.{UrlOps}

-- `StatusResponse`, the JSON of GET /status.
pub record StatusResponse : Type 0 where
  pub role : String
  pub term : ℕ
  pub is_leader : Bool
  pub leader_id : String
  pub commit_index : ℕ
  pub last_applied : ℕ

pub record NodeStatus : Type 0 where
  pub host : String
  pub st : Option StatusResponse

-- What is asked of a node: the status and the body of the answer to a GET, if one comes, and the JSON
-- that a body holds.
pub record Asking : Type 0 where
  pub get : String → Option (ℕ × String)
  pub decode_status : String → Option StatusResponse

module _ {U : Type 0} ⦃url : UrlOps U⦄ ⦃asking : Asking⦄ where
  fetch_status : U → Option StatusResponse
  fetch_status u = elim (asking.get (concat (url.show u) "/status")) [
    | none ↦ none
    | some (status, body) ↦ if status == 200 then asking.decode_status body else none
  ]

  -- Every node is asked at once; the goroutines share nothing.
  unfoldable pub fetch_statuses : List U → List NodeStatus
  unfolding fetch_status
  fetch_statuses [] = []
  fetch_statuses (u ∷ us) = record { host = url.host u; st = fetch_status u } ∷ fetch_statuses us

abbrev pub term_of : NodeStatus → ℕ
term_of n = elim n.st [ none ↦ 0 | some st ↦ st.term ]

abbrev pub claims : NodeStatus → Bool
claims n = elim n.st [ none ↦ false | some st ↦ st.is_leader ]

-- The body of the loop of `leaderOf`.
better : Option NodeStatus → NodeStatus → Option NodeStatus
better none n = if claims n then some n else none
better (some best) n = if claims n && ltb (term_of best) (term_of n) then some n else some best

best_of : Option NodeStatus → List NodeStatus → Option NodeStatus
unfolding better
best_of best [] = best
best_of best (n ∷ ns) = best_of (better best n) ns

unfoldable pub leader_of : List NodeStatus → Option NodeStatus
unfolding best_of
leader_of nodes = best_of none nodes

unfoldable pub answered : List NodeStatus → ℕ
answered [] = 0
answered (n ∷ ns) = (elim n.st [ none ↦ 0 | some st ↦ 1 ]) + answered ns

-- One line of the table.
pub data Row : Type 0 where
  no_answer : (host : String) → Row
  leading : (host : String) → (term commit : ℕ) → Row
  standing : (host : String) → (term commit : ℕ) → Row
  following : (host : String) → (term commit : ℕ) → Row

-- strings.ToLower on one code point, where the small letter is ASCII.
unfoldable pub lower : ℕ → ℕ
lower c =
    if leb b'A' c && leb c b'Z'
    then c + 32
    else if c == 0x130
    then b'i'
    else if c == 0x212a
    then b'k'
    else c

-- strings.ToLower(s) == t, for an ASCII text t.
unfoldable pub lowers_to : String → String → Bool
unfolding lower
lowers_to String.[] String.[] = true
lowers_to String.[] (String.◌∷◌ d t) = false
lowers_to (String.◌∷◌ c s) String.[] = false
lowers_to (String.◌∷◌ c s) (String.◌∷◌ d t) = lower (code c) == code d && lowers_to s t

row : Option NodeStatus → NodeStatus → Row
row leader n = elim n.st [
  | none ↦ no_answer n.host
  | some st ↦
      let leads : Bool = elim leader [ none ↦ false | some l ↦ n.host == l.host ] in
      if leads
      then leading n.host st.term st.commit_index
      else if lowers_to st.role "candidate"
      then standing n.host st.term st.commit_index
      else following n.host st.term st.commit_index
]

text_less : String → String → Bool
text_less s t = elim (compare s t) [ Ordering.lt ↦ true | _ ↦ false ]

-- sort.SliceStable by host
insert_host : NodeStatus → List NodeStatus → List NodeStatus
unfolding text_less
insert_host n [] = n ∷ []
insert_host n (m ∷ ms) =
    let rest = insert_host n ms in if text_less m.host n.host then m ∷ rest else n ∷ m ∷ ms

unfoldable pub sort_hosts : List NodeStatus → List NodeStatus
unfolding insert_host
sort_hosts [] = []
sort_hosts (n ∷ ns) = insert_host n (sort_hosts ns)

unfoldable pub status_lines : List NodeStatus → List Row
unfolding row
status_lines nodes = map (row (leader_of nodes)) (sort_hosts nodes)
