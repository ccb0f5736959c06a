-- ===== src/Core/MainLoop/Handling.antt =====
-- A received packet is handled to the end, if the decoder comes to the end of it.
use mathlib.Core.Path.{subst}
use meshtastic_mini.Base.{ℕ, ◌-◌, ◌≤◌, ◌≡◌, refl, sym, ap, ◌∙◌, arith, Option, none, some, List, []}
use meshtastic_mini.Base.{take, drop, ltb, ◌==◌, ◌||◌, u16, bit_and, Ends, ended, Ends-bind}
use meshtastic_mini.Base.{Ends-if, Ends-weaken, Ends-Returns}
use meshtastic_mini.Mesh.Packet.{Header, read_header, mesh_header_size, mesh_broadcast_id}
use meshtastic_mini.Mesh.Router.{flood_seen, flood_should_forward, flood_prepare_forward}
use meshtastic_mini.Crypto.{Cryp, Aes, aes_ctr_crypt}
use meshtastic_mini.Crypto.Sizes.{aes_ctr_crypt_ends}
use meshtastic_mini.Radio.Phy.{ops_of}
use meshtastic_mini.Core.Protobuf.{pb_decode_data, finished, Decoded}
use meshtastic_mini.Core.MainLoop.{Node}
use meshtastic_mini.Core.MainLoop.Receive.{show_message, answer_message, take_data, opened}
use meshtastic_mini.Core.MainLoop.Receive.{take_packet, take_text, or_else, relay_packet}
use meshtastic_mini.Core.MainLoop.Receive.{receive_packet, pong, is_pong, dec_buf_of}
use meshtastic_mini.Core.MainLoop.Invariant.{IsNode}
use meshtastic_mini.Core.MainLoop.Ends.{IsPrompt, Leaves, send_buffer-Ends, send_lora_packet-Ends}
use meshtastic_mini.Core.MainLoop.Keeps.{receive_packet-IsNode}

payload_of : {cryp : Cryp} → List ℕ → Option (Aes cryp × List ℕ) → List ℕ
payload_of d none = d
payload_of d (some (aes, dec_buf)) = dec_buf

module _ {cryp : Cryp} {S : Type 0} where
  answer_message-Ends :
      (fuel : ℕ) (h : Header) (text : List ℕ) (text_len : ℕ) (n : Node cryp S)
      → 16 ≤ fuel
      → IsPrompt (ops_of n.lora.s_ops)
      → Ends (Leaves n) (answer_message fuel h text text_len n)
  unfolding answer_message show_message
  answer_message-Ends fuel h text text_len n enough prompt =
      Ends-if (is_pong (take text_len text)) (ended (refl, refl)) (
        Ends-bind
          (send_lora_packet-Ends fuel h.from_id pong 4 (show_message text text_len n) enough prompt)
          λ r l. ended l)

  take_text-Ends :
      (fuel : ℕ) (h : Header) (dec_buf : List ℕ) (off : Option ℕ) (text_len : ℕ) (n : Node cryp S)
      → 16 ≤ fuel
      → IsPrompt (ops_of n.lora.s_ops)
      → Ends (Leaves n) (take_text fuel h dec_buf off text_len n)
  unfolding take_text
  take_text-Ends fuel h dec_buf none text_len n enough prompt = ended (refl, refl)
  take_text-Ends fuel h dec_buf (some off) text_len n enough prompt =
      Ends-if (ltb 0 text_len)
        (answer_message-Ends fuel h (drop off dec_buf) text_len n enough prompt)
        (ended (refl, refl))

  -- What the cipher makes of the payload of the packet of `len` bytes in `lora_rx_buf`.
  abbrev pub decrypted : ℕ → ℕ → Node cryp S → Option (Aes cryp × List ℕ)
  decrypted fuel len n =
      let h = read_header n.lora_rx_buf in
      let enc_len = u16 (len - mesh_header_size) in
      aes_ctr_crypt cryp fuel (dec_buf_of n.lora_rx_buf enc_len) enc_len h.packet_id h.from_id n.aes

  -- The decoder comes to the end of that payload.
  abbrev pub IsDecoded : ℕ → ℕ → Node cryp S → Type 0
  IsDecoded fuel len n =
      (aes : Aes cryp) (dec_buf : List ℕ)
      → decrypted fuel len n ≡ some (aes, dec_buf)
      → (d : Decoded) × (pb_decode_data dec_buf (u16 (len - 16)) fuel ≡ finished d)

  pub found-IsDecoded :
      (fuel len : ℕ) (n : Node cryp S) (aes : Aes cryp) (dec_buf : List ℕ) (d : Decoded)
      → decrypted fuel len n ≡ some (aes, dec_buf)
      → pb_decode_data dec_buf (u16 (len - 16)) fuel ≡ finished d
      → IsDecoded fuel len n
  unfolding payload_of
  found-IsDecoded fuel len n aes dec_buf d done decoded = λ aes' dec_buf' done'.
      let same : dec_buf' ≡ dec_buf = ap (payload_of []) (sym done' ∙ done) in
      (d, ap (λ b. pb_decode_data b (u16 (len - 16)) fuel) same ∙ decoded)

  opened-Ends :
      (fuel : ℕ) (h : Header) (enc_len : ℕ) (n : Node cryp S) (aes : Aes cryp) (dec_buf : List ℕ)
      (d : Decoded)
      → 16 ≤ fuel
      → IsPrompt (ops_of n.lora.s_ops)
      → pb_decode_data dec_buf enc_len fuel ≡ finished d
      → Ends (Leaves n) (opened fuel h enc_len n (some (aes, dec_buf)))
  unfolding opened take_data
  opened-Ends fuel h enc_len n aes dec_buf d enough prompt decoded =
      subst (λ e. Ends (Leaves n) (take_data fuel h dec_buf e (record n { aes = aes })))
        (sym decoded)
        (take_text-Ends fuel h dec_buf d.payload d.payload_len (record n { aes = aes }) enough
          prompt)

  take_packet-Ends :
      (fuel len f p : ℕ) (n : Node cryp S)
      → 16 ≤ fuel
      → len ≤ 256
      → IsPrompt (ops_of n.lora.s_ops)
      → IsDecoded fuel len n
      → Ends (Leaves n) (
          take_packet fuel
            (read_header n.lora_rx_buf)
            len
            (record n { router = flood_seen n.router f p }))
  unfolding take_packet
  take_packet-Ends fuel len f p n enough whole prompt decodes =
      let h = read_header n.lora_rx_buf in
      let enc_len = u16 (len - 16) in
      let noted = record n { router = flood_seen n.router f p } in
      let ((aes, dec_buf), done) =
        aes_ctr_crypt_ends cryp fuel (dec_buf_of n.lora_rx_buf enc_len) enc_len h.packet_id
          h.from_id n.aes (omega arith) enough in
      let (d, decoded) = decodes aes dec_buf done in
      subst (λ o. Ends (Leaves n) (opened fuel h enc_len noted o)) (sym done)
        (opened-Ends fuel h enc_len noted aes dec_buf d enough prompt decoded)

  relay_packet-Ends :
      (len : ℕ) (n : Node cryp S)
      → len ≤ 256
      → IsPrompt (ops_of n.lora.s_ops)
      → Ends (Leaves n) (relay_packet len n)
  unfolding relay_packet
  relay_packet-Ends len n whole prompt =
      let buf =
        or_else n.lora_rx_buf
          (flood_prepare_forward (some n.lora_rx_buf) len (bit_and n.g_config.node_id 0xff)) in
      Ends-bind (send_buffer-Ends buf len (record n { lora_rx_buf = buf }) whole prompt)
        λ r l. ended l

  -- For a sound node with a driver whose `tx` returns, and fuel for 16 blocks: the handling of a
  -- received packet of at most 256 bytes returns, whatever the packet and whatever the hardware that
  -- decrypts it does, and the node is sound, if the decoder comes to the end of what was decrypted.
  pub receive_packet-Ends :
      (fuel len : ℕ) (n : Node cryp S)
      → IsNode n
      → IsPrompt (ops_of n.lora.s_ops)
      → 16 ≤ fuel
      → len ≤ 256
      → IsDecoded fuel len n
      → Ends IsNode (receive_packet fuel len n)
  unfolding receive_packet
  receive_packet-Ends fuel len n v prompt enough whole decodes =
      let h = read_header n.lora_rx_buf in
      let noted = record n { router = flood_seen n.router h.from_id h.packet_id } in
      let returns : Ends (Leaves n) (receive_packet fuel len n) =
        Ends-bind
          (Ends-if (h.to_id == mesh_broadcast_id || h.to_id == n.g_config.node_id)
            (take_packet-Ends fuel len h.from_id h.packet_id n enough whole prompt decodes)
            (ended (refl, refl)))
          λ n' l.
            let still = subst (λ o. IsPrompt (ops_of o)) (sym l.1) prompt in
            Ends-if (flood_should_forward n.router (some n.lora_rx_buf) len)
              (Ends-weaken (relay_packet-Ends len n' whole still) λ n'' k. (k.0 ∙ l.0, k.1 ∙ l.1))
              (ended l) in
      Ends-weaken (Ends-Returns returns (receive_packet-IsNode fuel len n v)) λ n' k. k.1
