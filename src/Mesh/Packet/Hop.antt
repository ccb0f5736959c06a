-- ===== src/Mesh/Packet/Hop.antt =====
-- The hop limit: the low four bits of the flags.
use meshtastic_mini.Base.{ℕ, ◌%◌, ◌<◌, bit_and, ◌≡◌, refl, true, ◌==◌, ==_iff, holds_below}
use meshtastic_mini.Base.{holds_below-at}
use meshtastic_mini.Mesh.Packet.{mesh_hop_limit}

hop_table : holds_below 256 (λ x. bit_and x 0x0f == x % 16) ≡ true
unfolding holds_below
hop_table = refl

pub mesh_hop_limit-eq : (flags : ℕ) → flags < 256 → mesh_hop_limit flags ≡ flags % 16
unfolding mesh_hop_limit
mesh_hop_limit-eq flags h = (==_iff _ _).0 (holds_below-at 256 _ flags hop_table h)
