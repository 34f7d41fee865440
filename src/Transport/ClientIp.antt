-- ===== src/Transport/ClientIp.antt =====
-- `clientIP` of internal/transport/ratelimit.go: the name under which a client is limited.
use raftra.Common.{
  ℕ, String, ◌≡◌, refl, sym, ap, ◌∙◌, Bool, true, false, Option, none, some, List, [], ◌∷◌, ◌++◌,
  ◌==◌, string_eq, nat_eq, if◌then◌else◌, take, last_or,
}
use raftra.Transport.Message.{Request}

-- An address as package net reads it: one that To4 takes, or the eight groups of another.
pub data Ip : Type 0 where
  v4 : List ℕ → Ip
  v6 : List ℕ → Ip

-- The functions of net and strings that `clientIP` calls. `last_hop` is the trimmed text after the
-- last comma of a line, and `split_host` the host that SplitHostPort gives, if it succeeds.
pub record Net : Type 0 where
  pub parse_ip : String → Option Ip
  pub split_host : String → Option String
  pub last_hop : String → String
  pub show : Ip → String

module _ ⦃net : Net⦄ where
  -- ip.Mask(net.CIDRMask(64, 128))
  pub mask_64 : List ℕ → Ip
  mask_64 groups = v6 (take 4 groups ++ 0 ∷ 0 ∷ 0 ∷ 0 ∷ [])

  -- The hop that the proxy appended, if it is to be trusted and is an address; else "".
  forwarded : Request → Bool → String
  forwarded r false = ""
  forwarded r true = elim r.forwarded_for [
    | [] ↦ ""
    | line ∷ lines ↦
        let hop = net.last_hop (last_or line lines) in
        elim (net.parse_ip hop) [ none ↦ "" | some ip ↦ hop ]
  ]

  remote_host : Request → String
  remote_host r = elim (net.split_host r.remote_addr) [ none ↦ r.remote_addr | some host ↦ host ]

  unfoldable pub client_addr : Request → Bool → String
  unfolding forwarded remote_host
  client_addr r trust_proxy =
      if forwarded r trust_proxy == "" then remote_host r else forwarded r trust_proxy

  -- What follows the choice of the address.
  name_of : String → String
  unfolding mask_64
  name_of addr = elim (net.parse_ip addr) [
    | none ↦ addr
    | some ip ↦ elim ip [ v4 bytes ↦ net.show (v4 bytes) | v6 groups ↦ net.show (mask_64 groups) ]
  ]

  unfoldable pub client_ip : Request → Bool → String
  unfolding name_of
  client_ip r trust_proxy = name_of (client_addr r trust_proxy)

  name_of-v6 :
      (addr : String) (groups : List ℕ)
      → net.parse_ip addr ≡ some (v6 groups)
      → name_of addr ≡ net.show (mask_64 groups)
  unfolding name_of
  name_of-v6 addr groups h = rw (h, name_of)

  -- Two requests from IPv6 addresses with the same first 64 bits are one client, so a client gets no
  -- fresh bucket by another address of its network.
  pub client_ip-same_network :
      (q r : Request) (trust_proxy : Bool) (xs ys : List ℕ)
      → net.parse_ip (client_addr q trust_proxy) ≡ some (v6 xs)
      → net.parse_ip (client_addr r trust_proxy) ≡ some (v6 ys)
      → take 4 xs ≡ take 4 ys
      → client_ip q trust_proxy ≡ client_ip r trust_proxy
  unfolding client_ip mask_64
  client_ip-same_network q r trust_proxy xs ys hq hr same =
      name_of-v6 _ xs hq
      ∙ ap (λ l. net.show (v6 (l ++ 0 ∷ 0 ∷ 0 ∷ 0 ∷ []))) same
      ∙ sym (name_of-v6 _ ys hr)

  -- Without a trusted proxy the headers of a request do not name its client.
  pub client_ip-untrusted :
      (r : Request) (lines : List String)
      → client_ip r false ≡ client_ip (record r { forwarded_for = lines }) false
  unfolding client_ip client_addr name_of forwarded remote_host
  client_ip-untrusted r lines = refl
