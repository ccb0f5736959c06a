-- ===== src/Core/MainLoop/Ends.antt =====
-- The sending of a message and the handling of a typed byte return.
use meshtastic_mini.Base.{ℕ, ◌+◌, ◌≤◌, ◌≡◌, refl, ◌∙◌, arith, List, drop, set, get_or, u16, ltb}
use meshtastic_mini.Base.{leb, ◌==◌, ◌||◌, ◌&&◌, some, if_both, Bool, sym, replicate, Ends, ended}
use meshtastic_mini.Base.{Ends-bind, Ends-if, Ends-weaken}
use meshtastic_mini.Mesh.Packet.{mesh_broadcast_id, mesh_header_size}
use meshtastic_mini.Crypto.{Cryp, Aes}
use meshtastic_mini.Radio.Phy.{ops_of, RadioPhyOps}
use meshtastic_mini.Core.MainLoop.{Node, send_lora_packet, header_to, plain_packet, sealed}
use meshtastic_mini.Core.MainLoop.{seal_packet, after_tx, send_buffer}
use meshtastic_mini.Core.MainLoop.Line.{set_node_id, show_info, send_line, do_line, line_byte}
use meshtastic_mini.Core.MainLoop.Line.{is_node_command, is_help, is_info}
use mathlib.Core.Path.{subst}
use meshtastic_mini.Crypto.Sizes.{aes_ctr_crypt_ends}
use meshtastic_mini.Radio.Lora.{lora_tx, after_driver}
use meshtastic_mini.Core.Protobuf.{pb_encode_data}

-- A driver whose `tx` returns, for a packet of at most 256 bytes.
pub record IsPrompt {S : Type 0} (ops : RadioPhyOps S) : Type 0 where
  pub sends :
      (buf : List ℕ) (len : ℕ) (s : S)
      → len ≤ 256
      → (r : S × Bool) × (ops.tx (some buf) len s ≡ some r)

pub encoded_small :
    (out : List ℕ) (p : ℕ) (text : List ℕ) (len : ℕ) → (pb_encode_data out 240 p text len).1 ≤ 240
unfolding pb_encode_data
encoded_small out p text len = ground arith

module _ {cryp : Cryp} {S : Type 0} where
  -- The ring and the driver are as they were.
  abbrev pub Leaves : Node cryp S → Node cryp S → Type 0
  Leaves n n' = (n'.ring ≡ n.ring) × (n'.lora.s_ops ≡ n.lora.s_ops)

  sealed-Ends :
      (to_id : ℕ) (packet : List ℕ) (n : Node cryp S) (r : Aes cryp × List ℕ)
      → Ends (Leaves n) (sealed to_id packet n (some r))
  unfolding sealed
  sealed-Ends to_id packet n (aes, payload) = ended (refl, refl)

  seal_packet-Ends :
      (fuel to_id : ℕ) (pb : List ℕ) (len : ℕ) (n : Node cryp S)
      → len ≤ 240
      → 16 ≤ fuel
      → Ends (Leaves n) (seal_packet fuel to_id pb len n)
  unfolding seal_packet
  seal_packet-Ends fuel to_id pb len n small enough =
      let packet = plain_packet to_id pb len n in
      let h = header_to to_id n in
      let (r, e) =
        aes_ctr_crypt_ends cryp fuel (drop mesh_header_size packet) len h.packet_id h.from_id n.aes
          small enough in
      subst (λ o. Ends (Leaves n) (sealed to_id packet n o)) (sym e) (sealed-Ends to_id packet n r)

  after_tx-Ends :
      (n : Node cryp S) (r : S × Bool)
      → Ends (λ r. Leaves n r.0) (after_tx n (after_driver n.lora (some r)))
  unfolding after_tx after_driver
  after_tx-Ends n (driver, sent) = ended (refl, refl)

  pub send_buffer-Ends :
      (buf : List ℕ) (len : ℕ) (n : Node cryp S)
      → len ≤ 256
      → IsPrompt (ops_of n.lora.s_ops)
      → Ends (λ r. Leaves n r.0) (send_buffer buf len n)
  unfolding send_buffer lora_tx
  send_buffer-Ends buf len n whole prompt =
      let (r, e) = prompt.sends buf len n.lora.driver whole in
      subst (λ o. Ends (λ r. Leaves n r.0) (after_tx n (after_driver n.lora o))) (sym e)
        (after_tx-Ends n r)

  pub send_lora_packet-Ends :
      (fuel to_id : ℕ) (text : List ℕ) (text_len : ℕ) (n : Node cryp S)
      → 16 ≤ fuel
      → IsPrompt (ops_of n.lora.s_ops)
      → Ends (λ r. Leaves n r.0) (send_lora_packet fuel to_id text text_len n)
  unfolding send_lora_packet
  send_lora_packet-Ends fuel to_id text text_len n enough prompt =
      let (pb, pb_len) = pb_encode_data (replicate 240 0) 240 1 text text_len in
      let small = encoded_small (replicate 240 0) 1 text text_len in
      Ends-if (pb_len == 0) (ended (refl, refl)) (
        Ends-bind (seal_packet-Ends fuel to_id pb pb_len n small enough) λ n' l.
          let still = subst (λ o. IsPrompt (ops_of o)) (sym l.1) prompt in
          Ends-weaken
            (send_buffer-Ends n'.lora_tx_buf (u16 (16 + pb_len)) n' (omega (arith, small)) still)
            λ r k. (k.0 ∙ l.0, k.1 ∙ l.1))

  do_line-Ends :
      (fuel : ℕ) (n : Node cryp S)
      → 16 ≤ fuel
      → IsPrompt (ops_of n.lora.s_ops)
      → Ends (Leaves n) (do_line fuel n)
  unfolding do_line set_node_id show_info send_line
  do_line-Ends fuel n enough prompt =
      let digit = get_or n.line_buf 1 0 in
      Ends-if (is_node_command n.line_buf n.line_len)
        (ended (if_both (Leaves n) (leb 49 digit && leb digit 57) _ _ (refl, refl) (refl, refl)))
        (Ends-if (is_help n.line_buf n.line_len) (ended (refl, refl)) (
          Ends-if (is_info n.line_buf n.line_len) (ended (refl, refl)) (
            Ends-bind
              (send_lora_packet-Ends fuel mesh_broadcast_id n.line_buf n.line_len n enough prompt)
              λ r l. ended (if_both (Leaves n) r.1 _ _ l l))))

  pub line_byte-Ends :
      (fuel b : ℕ) (n : Node cryp S)
      → 16 ≤ fuel
      → IsPrompt (ops_of n.lora.s_ops)
      → Ends (Leaves n) (line_byte fuel b n)
  unfolding line_byte
  line_byte-Ends fuel b n enough prompt =
      Ends-if (b == 13 || b == 10)
        (Ends-if (n.line_len == 0) (ended (refl, refl)) (
          Ends-bind
            (do_line-Ends fuel (record n { line_buf = set n.line_buf n.line_len 0 }) enough prompt)
            λ n' l. ended l))
        (ended (if_both (Leaves n) (ltb n.line_len 199) _ _ (refl, refl) (refl, refl)))
