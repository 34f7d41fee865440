-- ===== src/Server/Flags.antt =====
-- The flag -peers of cmd/raftra-server/main.go: what is printed is read back, and the node and the
-- transport come to know the same peers.
use raftra.Common.{
  map, All, String, ◌≡◌, ◌≢◌, refl, sym, ap, ◌∙◌, inl, inr, Option, none, some, List, [], ◌∷◌, ◌++◌,
  arith, ◌==◌, string_eq, nat_eq, eq_iff, if◌then◌else◌, Bool-cases,
}
use Prim.Native.String
use Prim.Native.Char.{Char}
use mathlib.Core.List.{append-nil, append_assoc, map}
use text.Mathlib.TextLemmas.{nil≢cons, nil-append, cons-append}
use raftra.GoMap
use raftra.GoMap.{lookup-insert}
use raftra.GoText.Split.{Lacks, split-join}
use raftra.GoText.{split, join, trim_space}
use raftra.Raft.Node.{PeerConfig}
use raftra.Server.{Peers, add_peer, add_parts, add_entry, add_entries, parse_peers}

-- A peer as the flag has it: id:host:port.
pub record Entry : Type 0 where
  pub id : String
  pub host : String
  pub port : String

abbrev pub print : Entry → String
print e = join ":" (e.id ∷ e.host ∷ e.port ∷ [])

abbrev pub peer_of : Entry → PeerConfig
peer_of e = record { id = e.id; address = join ":" (e.host ∷ e.port ∷ []) }

-- The parts have no separator, and the entry no space at its ends.
pub record IsClean (e : Entry) : Type 0 where
  pub id : Lacks ":" e.id
  pub host : Lacks ":" e.host
  pub port : Lacks ":" e.port
  pub entry : Lacks "," (print e)
  pub trimmed : trim_space (print e) ≡ print e

concat-ne-nil : (s : String) (c : Char) (t : String) → String.◌++◌ s (String.◌∷◌ c t) ≢ ""
concat-ne-nil String.[] c t h = nil≢cons (sym h ∙ nil-append (String.◌∷◌ c t))
concat-ne-nil (String.◌∷◌ d s) c t h = nil≢cons (sym h ∙ cons-append d s (String.◌∷◌ c t))

print-ne-nil : (e : Entry) → print e ≢ ""
unfolding join
print-ne-nil e = concat-ne-nil e.id ":" _

add_entry-print :
    (ps : Peers) (e : Entry)
    → IsClean e
    → add_entry ps (print e) ≡ add_peer ps e.id (peer_of e).address
unfolding add_entry add_parts
add_entry-print ps e h = rw h.trimmed (
    ground (
      arith,
      eq_iff (print e) "",
      print-ne-nil e,
      split-join ":" e.id (e.host ∷ e.port ∷ []) h.id (h.host, (h.port, tt)),
    ))

peers-add_entries :
    (ps : Peers) (es : List Entry)
    → All IsClean es
    → (add_entries ps (map print es)).peers ≡ ps.peers ++ map peer_of es
unfolding add_entries add_peer
peers-add_entries ps [] h = sym (append-nil ps.peers)
peers-add_entries ps (e ∷ es) h =
    ap (λ q. (add_entries q (map print es)).peers) (add_entry-print ps e h.0)
    ∙ peers-add_entries (add_peer ps e.id (peer_of e).address) es h.1
    ∙ append_assoc ps.peers (peer_of e ∷ []) (map peer_of es)

parse_peers_lem :
    (s : String)
    → s ≢ ""
    → parse_peers s ≡ add_entries (record { peers = []; addresses = [] }) (split "," s)
unfolding parse_peers
parse_peers_lem s ne = ground (arith, eq_iff s "", ne)

joined-ne-nil : (e : Entry) (es : List Entry) → join "," (map print (e ∷ es)) ≢ ""
unfolding join
joined-ne-nil e [] = print-ne-nil e
joined-ne-nil e (f ∷ es) = concat-ne-nil (print e) "," _

lacks_commas : (es : List Entry) → All IsClean es → All (Lacks ",") (map print es)
lacks_commas [] h = tt
lacks_commas (e ∷ es) h = (h.0.entry, lacks_commas es h.1)

-- The flag that lists clean entries is read back as these peers, in order.
pub parse_peers-print :
    (e : Entry) (es : List Entry)
    → All IsClean (e ∷ es)
    → (parse_peers (join "," (map print (e ∷ es)))).peers ≡ map peer_of (e ∷ es)
parse_peers-print e es h =
    rw (parse_peers_lem (join "," (map print (e ∷ es))) (joined-ne-nil e es)) (
      rw (split-join "," (print e) (map print es) h.0.entry (lacks_commas es h.1))
        (peers-add_entries (record { peers = []; addresses = [] }) (e ∷ es) h))

-- The address of the last peer of a list that has an id.
unfoldable pub address_of : String → List PeerConfig → Option String
address_of id [] = none
address_of id (p ∷ ps) = elim (address_of id ps) [
  | some address ↦ some address
  | none ↦ if p.id == id then some p.address else none
]

address_of-append :
    (id : String) (ps : List PeerConfig) (p : PeerConfig)
    → address_of id (ps ++ p ∷ []) ≡ (if p.id == id then some p.address else address_of id ps)
unfolding address_of
address_of-append id [] p = ground arith
address_of-append id (q ∷ ps) p = ground (arith, address_of-append id ps p)

-- The map of the transport has the address of each peer of the node, and no other.
abbrev pub Agrees : Peers → Type 0
Agrees ps = (id : String) → GoMap.lookup ps.addresses id ≡ address_of id ps.peers

add_peer-Agrees : (ps : Peers) (id address : String) → Agrees ps → Agrees (add_peer ps id address)
unfolding add_peer
add_peer-Agrees ps id address h k = ground (
  arith,
  h k,
  lookup-insert ps.addresses id address k,
  address_of-append k ps.peers (record { id = id; address = address }),
)

add_parts-Agrees :
    (ps : Peers) (entry : String) (parts : List String)
    → Agrees ps
    → Agrees (add_parts ps entry parts)
unfolding add_parts
add_parts-Agrees ps entry [] h = h
add_parts-Agrees ps entry (id ∷ []) h = h
add_parts-Agrees ps entry (id ∷ port ∷ []) h = add_peer-Agrees ps id entry h
add_parts-Agrees ps entry (id ∷ host ∷ port ∷ more) h = add_peer-Agrees ps id _ h

add_entry-Agrees : (ps : Peers) (raw : String) → Agrees ps → Agrees (add_entry ps raw)
unfolding add_entry
add_entry-Agrees ps raw h = elim (Bool-cases (trim_space raw == "")) [
  | inl blank ↦ rw blank h
  | inr entry ↦ rw entry (add_parts-Agrees ps (trim_space raw) (split ":" (trim_space raw)) h)
]

add_entries-Agrees : (ps : Peers) (raws : List String) → Agrees ps → Agrees (add_entries ps raws)
unfolding add_entries
add_entries-Agrees ps [] h = h
add_entries-Agrees ps (raw ∷ raws) h =
    add_entries-Agrees (add_entry ps raw) raws (add_entry-Agrees ps raw h)

-- Whatever the flag is, the transport has an address for a peer exactly if the node has the peer, and
-- it is the one of the last entry with its id.
pub parse_peers-Agrees : (peer_flag : String) → Agrees (parse_peers peer_flag)
unfolding parse_peers address_of GoMap.lookup
parse_peers-Agrees peer_flag = elim (Bool-cases (peer_flag == "")) [
  | inl empty ↦ rw empty (λ id. refl)
  | inr given ↦ rw given (add_entries-Agrees _ (split "," peer_flag) (λ id. refl))
]
