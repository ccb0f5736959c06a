-- ===== src/Mesh/Tests.antt =====
-- The mesh modules at concrete packets.
use meshtastic_mini.Base.{ℕ, ◌≡◌, refl, false, List, [], ◌∷◌, ◌++◌, some, arith, length, drop}
use meshtastic_mini.Base.{replicate, take, AllBytes}
use meshtastic_mini.Mesh.Packet.{Header, IsHeader, read_header, read_le32, write_header}
use meshtastic_mini.Mesh.Packet.{mesh_hop_limit}
use meshtastic_mini.Mesh.Router.{Seen, start, flood_seen, flood_should_forward}
use meshtastic_mini.Mesh.Router.{flood_prepare_forward, with_hop}
use meshtastic_mini.Mesh.Router.Recent.{start-IsRouter, recent, recent-flood_seen}
use meshtastic_mini.Mesh.Router.History.{see_all}
use meshtastic_mini.Mesh.Router.Forward.{one_hop_on, flood_prepare_forward-relays}
use meshtastic_mini.Mesh.Router.Flood.{IsRelayed, relay_through, relay_through-IsRelayed}
use meshtastic_mini.Mesh.Router.Flood.{flood_ends, no_second_relay}

-- A broadcast from node 0x01020304 with three hops and a payload of three bytes.
abbrev hello : Header
hello = record {
  to_id = 0xffff_ffff;
  from_id = 0x0102_0304;
  packet_id = 7;
  flags = 0x63;
  channel = 8;
  next_hop = 0;
  relay = 4;
}

abbrev packet : List ℕ
packet =
    255 ∷ 255 ∷ 255 ∷ 255 ∷ 4 ∷ 3 ∷ 2 ∷ 1 ∷ 7 ∷ 0 ∷ 0 ∷ 0 ∷ 0x63 ∷ 8 ∷ 0 ∷ 4 ∷ 10 ∷ 20 ∷ 30 ∷ []

hello-IsHeader : IsHeader hello
hello-IsHeader = omega arith

read-packet : read_header packet ≡ hello
unfolding read_header read_le32
read-packet = refl

write-packet : write_header hello (replicate 19 9) ≡ take 16 packet ++ (9 ∷ 9 ∷ 9 ∷ [])
unfolding write_header
write-packet = refl

forward-packet :
    flood_prepare_forward (some packet) 19 2
    ≡ some (take 12 packet ++ (0x62 ∷ 8 ∷ 0 ∷ 2 ∷ 10 ∷ 20 ∷ 30 ∷ []))
unfolding flood_prepare_forward read_header read_le32 write_header mesh_hop_limit with_hop
forward-packet = refl

recent-flood_seen_example :
    recent (flood_seen start 5 6) ≡ record { from = 5; id = 6 } ∷ take 31 (recent start)
recent-flood_seen_example = recent-flood_seen 5 6 start-IsRouter

abbrev others : List Seen
others = record { from = 2; id = 0 } ∷ record { from = 2; id = 1 } ∷ []

flood_prepare_forward-relays_example :
    (out : List ℕ) × (flood_prepare_forward (some packet) 19 2 ≡ some out)
    × (read_header out ≡ one_hop_on (read_header packet) 2)
    × (drop 16 out ≡ 10 ∷ 20 ∷ 30 ∷ [])
    × (length out ≡ 19)
    × AllBytes out
flood_prepare_forward-relays_example =
    flood_prepare_forward-relays packet 19 2 (omega arith) (omega arith) (omega arith) (omega arith)

relay_through-IsRelayed_example :
    (out : List ℕ) × (relay_through (2 ∷ 3 ∷ []) (some packet) 19 ≡ some out)
    × IsRelayed packet 2 out
relay_through-IsRelayed_example =
    relay_through-IsRelayed (2 ∷ 3 ∷ []) packet 19 (omega arith) (omega arith) (omega arith)
      (omega arith)

flood_ends_example :
    (out : List ℕ) × (relay_through (2 ∷ 3 ∷ 9 ∷ []) (some packet) 19 ≡ some out)
    × (flood_should_forward start (some out) 19 ≡ false)
unfolding read_header
flood_ends_example =
    flood_ends (2 ∷ 3 ∷ 9 ∷ []) packet 19 start (omega arith) (omega arith) (omega arith)
      (omega arith) (omega arith)

no_second_relay_example :
    (out : List ℕ) × (relay_through (2 ∷ 3 ∷ []) (some packet) 19 ≡ some out)
    × (flood_should_forward
          (see_all
            (flood_seen start (read_header packet).from_id (read_header packet).packet_id)
            others)
          (some out)
          19
        ≡ false)
no_second_relay_example =
    no_second_relay (2 ∷ 3 ∷ []) packet 19 others (omega arith) (omega arith) (omega arith)
      (omega arith) start-IsRouter (omega arith)
