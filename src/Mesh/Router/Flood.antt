-- ===== src/Mesh/Router/Flood.antt =====
-- A packet on its way through the mesh: relayed by one node after another, and met again.
use mathlib.Core.Bool.{false≢true}
use meshtastic_mini.Base.{ℕ, ◌-◌, ◌/◌, ◌%◌, ◌≤◌, ◌≡◌, refl, sym, ap, ◌∙◌, true, false, List, []}
use meshtastic_mini.Base.{◌∷◌, Option, some, inl, inr, arith, length, drop, AllBytes, Bool-cases}
use meshtastic_mini.Base.{ap₂}
use meshtastic_mini.Mesh.Packet.{read_header}
use meshtastic_mini.Mesh.Router.{Seen, Router, flood_seen, flood_was_seen, flood_should_forward}
use meshtastic_mini.Mesh.Router.{flood_prepare_forward}
use meshtastic_mini.Mesh.Router.Recent.{IsRouter}
use meshtastic_mini.Mesh.Router.History.{see_all}
use meshtastic_mini.Mesh.Router.Memory.{remembered}
use meshtastic_mini.Mesh.Router.Forward.{flood_prepare_forward-relays, flood_should_forward_iff}

-- The packet after these nodes have relayed it, the first of them first.
pub relay_through : List ℕ → Option (List ℕ) → ℕ → Option (List ℕ)
relay_through [] pkt len = pkt
relay_through (me ∷ nodes) pkt len = relay_through nodes (flood_prepare_forward pkt len me) len

-- What `hops` relays leave of a packet.
pub record IsRelayed (pkt : List ℕ) (hops : ℕ) (out : List ℕ) : Type 0 where
  pub same_to : (read_header out).to_id ≡ (read_header pkt).to_id
  pub same_from : (read_header out).from_id ≡ (read_header pkt).from_id
  pub same_packet : (read_header out).packet_id ≡ (read_header pkt).packet_id
  pub same_high : (read_header out).flags / 16 ≡ (read_header pkt).flags / 16
  pub hops_left : (read_header out).flags % 16 ≡ (read_header pkt).flags % 16 - hops
  pub same_payload : drop 16 out ≡ drop 16 pkt
  pub bytes : AllBytes out

-- A packet of bytes comes through any chain of nodes with its addresses, its identity and its
-- payload, and with as many hops less as nodes relayed it, down to none.
pub relay_through-IsRelayed :
    (nodes : List ℕ) (pkt : List ℕ) (len : ℕ)
    → AllBytes pkt
    → 16 ≤ len
    → len ≤ length pkt
    → AllBytes nodes
    → (out : List ℕ) × (relay_through nodes (some pkt) len ≡ some out)
      × IsRelayed pkt (length nodes) out
unfolding relay_through
relay_through-IsRelayed [] pkt len v whole fits ids = (
  pkt,
  refl,
  record {
    same_to = refl;
    same_from = refl;
    same_packet = refl;
    same_high = refl;
    hops_left = omega arith;
    same_payload = refl;
    bytes = v;
  },
)
relay_through-IsRelayed (me ∷ nodes) pkt len v whole fits ids =
    let (mid, first, head, rest, size, w) =
      flood_prepare_forward-relays pkt len me v whole fits ids.0 in
    let (out, later, seen) = relay_through-IsRelayed nodes mid len w whole (omega arith) ids.1 in
    (
      out,
      rw first later,
      record {
        same_to = seen.same_to ∙ ap (λ h. h.to_id) head;
        same_from = seen.same_from ∙ ap (λ h. h.from_id) head;
        same_packet = seen.same_packet ∙ ap (λ h. h.packet_id) head;
        same_high = omega (arith, seen.same_high, ap (λ h. h.flags) head);
        hops_left = omega (arith, seen.hops_left, ap (λ h. h.flags) head);
        same_payload = seen.same_payload ∙ rest;
        bytes = seen.bytes;
      },
    )

refuses :
    (r : Router) (pkt : List ℕ) (len : ℕ)
    → ¬ (flood_should_forward r (some pkt) len ≡ true)
    → flood_should_forward r (some pkt) len ≡ false
refuses r pkt len never = elim (Bool-cases (flood_should_forward r (some pkt) len)) [
  | inl go ↦ absurd (never go)
  | inr e ↦ e
]

-- The flood dies out: once as many nodes have relayed a packet as it had hops, no router whatever
-- relays it further.
pub flood_ends :
    (nodes : List ℕ) (pkt : List ℕ) (len : ℕ) (r : Router)
    → AllBytes pkt
    → 16 ≤ len
    → len ≤ length pkt
    → AllBytes nodes
    → (read_header pkt).flags % 16 ≤ length nodes
    → (out : List ℕ) × (relay_through nodes (some pkt) len ≡ some out)
      × (flood_should_forward r (some out) len ≡ false)
flood_ends nodes pkt len r v whole fits ids spent =
    let (out, e, s) = relay_through-IsRelayed nodes pkt len v whole fits ids in
    (
      out,
      e,
      refuses r out len (λ go.
          ((flood_should_forward_iff r out len s.bytes).0 go).2 (omega (arith, s.hops_left))),
    )

-- No node relays a packet twice: a router that has registered it refuses every copy that comes
-- back through other nodes, as long as it has registered at most 31 others since.
pub no_second_relay :
    (nodes : List ℕ) (pkt : List ℕ) (len : ℕ) {r : Router} (others : List Seen)
    → AllBytes pkt
    → 16 ≤ len
    → len ≤ length pkt
    → AllBytes nodes
    → IsRouter r
    → length others ≤ 31
    → (out : List ℕ) × (relay_through nodes (some pkt) len ≡ some out)
      × (let h = read_header pkt in
          flood_should_forward (see_all (flood_seen r h.from_id h.packet_id) others) (some out) len
          ≡ false)
no_second_relay nodes pkt len {r} others v whole fits ids rv few =
    let (out, e, s) = relay_through-IsRelayed nodes pkt len v whole fits ids in
    let h = read_header pkt in
    let now = see_all (flood_seen r h.from_id h.packet_id) others in
    (
      out,
      e,
      refuses now out len (λ go. false≢true (
          sym ((flood_should_forward_iff now out len s.bytes).0 go).1
          ∙ ap₂ (flood_was_seen now) s.same_from s.same_packet
          ∙ remembered others h.from_id h.packet_id rv few)),
    )
