-- ===== src/Mesh/Router.antt =====
-- firmware/Mesh/flood_router.c: which packets were seen, which are relayed, and how a packet is
-- changed before it is relayed. The static variables are the record `Router`.
pub mod Recent
pub mod History
pub mod Memory
pub mod Forward
pub mod Flood
use meshtastic_mini.Base.{ℕ, zero, suc, ◌+◌, ◌-◌, ◌%◌, Bool, true, false, ◌&&◌, ltb, ◌==◌}
use meshtastic_mini.Base.{if◌then◌else◌, Option, none, some, List, [], ◌∷◌, bit_and, bit_or, u8}
use meshtastic_mini.Base.{get_or, set, replicate}
use meshtastic_mini.Mesh.Packet.{Header, mesh_header_size, read_header, write_header}
use meshtastic_mini.Mesh.Packet.{mesh_hop_limit}

abbrev pub seen_size : ℕ
seen_size = 32

-- `seen_t`
pub record Seen : Type 0 where
  pub from : ℕ
  pub id : ℕ

-- `seen_buf` and `seen_head`
pub record Router : Type 0 where
  pub seen_buf : List Seen
  pub seen_head : ℕ

-- What a zeroed slot holds.
abbrev pub blank : Seen
blank = record { from = 0; id = 0 }

-- Static storage starts out zeroed.
abbrev pub start : Router
start = record { seen_buf = replicate seen_size blank; seen_head = 0 }

unfoldable pub flood_seen : Router → ℕ → ℕ → Router
flood_seen r from_id packet_id = record {
  seen_buf = set r.seen_buf r.seen_head (record { from = from_id; id = packet_id });
  seen_head = u8 ((r.seen_head + 1) % seen_size);
}

-- The test of the loop's body.
abbrev pub is_entry : Seen → ℕ → ℕ → Bool
is_entry s from_id packet_id = s.from == from_id && s.id == packet_id

-- The loop of `flood_was_seen` at index `i`, with `left` rounds to go.
unfoldable pub seen_loop : List Seen → ℕ → ℕ → ℕ → ℕ → Bool
seen_loop buf from_id packet_id zero i = false
seen_loop buf from_id packet_id (suc left) i =
    let rest = seen_loop buf from_id packet_id left (i + 1) in
    if is_entry (get_or buf i blank) from_id packet_id then true else rest

unfoldable pub flood_was_seen : Router → ℕ → ℕ → Bool
flood_was_seen r from_id packet_id = seen_loop r.seen_buf from_id packet_id seen_size 0

unfoldable pub flood_should_forward : Router → Option (List ℕ) → ℕ → Bool
flood_should_forward r none len = false
flood_should_forward r (some lora_packet) len =
    if ltb len mesh_header_size
    then false
    else (let h = read_header lora_packet in
        if flood_was_seen r h.from_id h.packet_id
        then false
        else (let hop = mesh_hop_limit h.flags in if hop == 0 then false else true))

-- `(flags & ~MESH_HOP_LIMIT_MASK) | (hop & MESH_HOP_LIMIT_MASK)`, stored into a `uint8_t`. The mask
-- is an `int`, so its complement has all the higher bits.
unfoldable pub with_hop : ℕ → ℕ → ℕ
with_hop flags hop = u8 (bit_or (bit_and flags 0xffff_fff0) (bit_and hop 0x0f))

-- The header that `flood_prepare_forward` writes back.
unfoldable pub relayed : Header → ℕ → Header
relayed h my_node_id =
    let hop = mesh_hop_limit h.flags in
    let hop' = if ltb 0 hop then hop - 1 else hop in
    record h { flags = with_hop h.flags hop'; relay = my_node_id }

-- `flood_prepare_forward`: what the packet's buffer holds afterwards.
unfoldable pub flood_prepare_forward : Option (List ℕ) → ℕ → ℕ → Option (List ℕ)
unfolding relayed
flood_prepare_forward none len my_node_id = none
flood_prepare_forward (some lora_packet) len my_node_id =
    if ltb len mesh_header_size
    then some lora_packet
    else some (write_header (relayed (read_header lora_packet) my_node_id) lora_packet)
