-- ===== src/Mesh/Router/Forward.antt =====
-- The decision to relay, and what a relayed packet looks like.

use meshtastic_mini.Base.{ℕ, ◌+◌, ◌-◌, ◌*◌, ◌/◌, ◌%◌, ◌≤◌, ◌<◌, ◌≡◌, ◌≢◌, ◌↔◌, refl, ap, ◌∙◌, true}
use meshtastic_mini.Base.{false, List, ◌++◌, some, arith, ◌==◌, ==_iff, ltb, ltb-false, holds_below}
use meshtastic_mini.Base.{holds_below-at, if◌then◌else◌, length, drop, length-blit, AllBytes}
use meshtastic_mini.Mesh.Packet.{Header, IsHeader, read_header, le32_bytes, header_bytes}
use meshtastic_mini.Mesh.Packet.{write_header}
use meshtastic_mini.Mesh.Packet.RoundTrip.{write_header-eq, read_header-bytes}
use meshtastic_mini.Mesh.Packet.Bounds.{read_header-IsHeader, write_header-AllBytes}
use meshtastic_mini.Mesh.Packet.Hop.{mesh_hop_limit-eq}
use meshtastic_mini.Mesh.Router.{Router, with_hop, relayed, flood_was_seen, flood_should_forward}
use meshtastic_mini.Mesh.Router.{flood_prepare_forward}

one_hop_table : holds_below 256 (λ x. with_hop x (x % 16 - 1) == x / 16 * 16 + (x % 16 - 1)) ≡ true
unfolding holds_below with_hop
one_hop_table = refl

-- One hop less, and the upper four bits as they were.
with_hop-pred :
    (flags : ℕ) → flags < 256 → with_hop flags (flags % 16 - 1) ≡ flags / 16 * 16 + (flags % 16 - 1)
with_hop-pred flags h = (==_iff _ _).0 (holds_below-at 256 _ flags one_hop_table h)

-- The header of a relayed packet: one hop less, this node as the relay, all else as it was.
abbrev pub one_hop_on : Header → ℕ → Header
one_hop_on h my_node_id = record h {
  flags = h.flags / 16 * 16 + (h.flags % 16 - 1);
  relay = my_node_id;
}

relayed-eq : (h : Header) (me : ℕ) → IsHeader h → relayed h me ≡ one_hop_on h me
unfolding relayed
relayed-eq h me v =
    ap (λ f. record h { flags = f; relay = me })
      (rw (mesh_hop_limit-eq h.flags v.flags_fit)
        (ap (with_hop h.flags) less ∙ with_hop-pred h.flags v.flags_fit))
  where
    less : (if ltb 0 (h.flags % 16) then h.flags % 16 - 1 else h.flags % 16) ≡ h.flags % 16 - 1
    less = ground arith

one_hop_on-IsHeader : {h : Header} (me : ℕ) → IsHeader h → me < 256 → IsHeader (one_hop_on h me)
one_hop_on-IsHeader me v small = omega arith

-- `flood_prepare_forward` on a packet of bytes with a whole header: it takes one hop off, puts
-- this node in as the relay, and keeps every other field, the payload and the length.
pub flood_prepare_forward-relays :
    (pkt : List ℕ) (len me : ℕ)
    → AllBytes pkt
    → 16 ≤ len
    → len ≤ length pkt
    → me < 256
    → (out : List ℕ) × (flood_prepare_forward (some pkt) len me ≡ some out)
      × (read_header out ≡ one_hop_on (read_header pkt) me)
      × (drop 16 out ≡ drop 16 pkt)
      × (length out ≡ length pkt)
      × AllBytes out
unfolding flood_prepare_forward
flood_prepare_forward-relays pkt len me v whole fits small = (
  write_header h' pkt,
  rw (ltb-false len 16 whole, relayed-eq h me hv),
  rw written (read_header-bytes (drop 16 pkt) hv'),
  rw written kept,
  unfold write_header in length-blit pkt 0 (header_bytes h'),
  write_header-AllBytes h' pkt hv' v (omega arith),
)
  where
    h : Header
    h = read_header pkt

    h' : Header
    h' = one_hop_on h me

    hv : IsHeader h
    hv = read_header-IsHeader pkt v

    hv' : IsHeader h'
    hv' = one_hop_on-IsHeader me hv small

    written : write_header h' pkt ≡ header_bytes h' ++ drop 16 pkt
    written = write_header-eq h' pkt (omega arith)

    kept : drop 16 (header_bytes h' ++ drop 16 pkt) ≡ drop 16 pkt
    kept = unfold header_bytes le32_bytes in refl

-- `flood_should_forward` says yes exactly to a packet with a whole header that is not remembered
-- and has a hop left.
pub flood_should_forward_iff :
    (r : Router) (pkt : List ℕ) (len : ℕ)
    → AllBytes pkt
    → (flood_should_forward r (some pkt) len ≡ true) ↔ (
        (16 ≤ len)
        × (flood_was_seen r (read_header pkt).from_id (read_header pkt).packet_id ≡ false)
        × ((read_header pkt).flags % 16 ≢ 0))
unfolding flood_should_forward
flood_should_forward_iff r pkt len v =
    rw (mesh_hop_limit-eq (read_header pkt).flags (read_header-IsHeader pkt v).flags_fit)
      (ground arith)
