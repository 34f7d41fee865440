-- ===== src/Server.antt =====
-- cmd/raftra-server/main.go: the lists of peers that the program takes as flags.
pub mod Flags
use raftra.Common.{
  ℕ, zero, suc, ◌+◌, ◌-◌, ◌≤◌, ◌<◌, ◌^◌, String, ◌≡◌, ◌≢◌, refl, sym, ap, ◌∙◌, ◌⊎◌, ◌↔◌, inl, inr,
  Bool, true, false, not, ◌&&◌, ◌||◌, Option, none, some, List, [], ◌∷◌, ◌++◌, min, arith, ◌==◌,
  string_eq, nat_eq, u64, u64-eq_of_lt, eq_iff, ltb, leb, if◌then◌else◌, length, take, drop,
  get_elem?, last_or, Bool-cases, Option-cases,
}
use raftra.GoMap
use raftra.GoMap.{GoMap}
use raftra.GoText.{split, split_two, join, trim_space}
use raftra.Raft.Node.{PeerConfig}

-- The list for the node, and the map for the transport.
pub record Peers : Type 0 where
  pub peers : List PeerConfig
  pub addresses : GoMap String String

add_peer : Peers → String → String → Peers
add_peer ps id address = record {
  peers = ps.peers ++ (record { id = id; address = address }) ∷ [];
  addresses = GoMap.insert ps.addresses id address;
}

-- An entry "id:port" is its own address; of "id:host:port" the address is what follows the id.
add_parts : Peers → String → List String → Peers
unfolding add_peer
add_parts ps entry [] = ps
add_parts ps entry (id ∷ []) = ps
add_parts ps entry (id ∷ port ∷ []) = add_peer ps id entry
add_parts ps entry (id ∷ host ∷ port ∷ more) = add_peer ps id (join ":" (host ∷ port ∷ more))

-- The body of the loop over the entries of -peers.
unfoldable pub add_entry : Peers → String → Peers
unfolding add_parts
add_entry ps raw =
    let entry = trim_space raw in if entry == "" then ps else add_parts ps entry (split ":" entry)

add_entries : Peers → List String → Peers
add_entries ps [] = ps
add_entries ps (entry ∷ entries) = add_entries (add_entry ps entry) entries

unfoldable pub parse_peers : String → Peers
unfolding add_entries
parse_peers peer_flag =
    let none_yet : Peers = record { peers = []; addresses = [] } in
    if peer_flag == "" then none_yet else add_entries none_yet (split "," peer_flag)

add_http_peer : GoMap String String → List String → GoMap String String
add_http_peer m (id ∷ address ∷ []) = GoMap.insert m id address
add_http_peer m other = m

add_http_peers : GoMap String String → List String → GoMap String String
unfolding add_http_peer
add_http_peers m [] = m
add_http_peers m (entry ∷ entries) = add_http_peers (add_http_peer m (split_two ":" entry)) entries

-- The list of -http-peers.
unfoldable pub parse_http_peers : String → GoMap String String
unfolding add_http_peers
parse_http_peers http_peers_flag =
    if http_peers_flag == "" then [] else add_http_peers [] (split "," http_peers_flag)
