-- ===== src/Core/MainLoop/Delivery.antt =====
-- A text from one node's `send_lora_packet` to another's `mesh_mini_loop`.
use mathlib.Core.Path.{subst}
use meshtastic_mini.Base.{ℕ, suc, ◌+◌, ◌^◌, ◌≤◌, ◌<◌, ◌≡◌, refl, sym, ap, ◌∙◌, List, ◌++◌, arith}
use meshtastic_mini.Base.{length, take, drop, blit, replicate, take-append, drop-append, blit_start}
use meshtastic_mini.Base.{take-take, drop-take, take-append-drop, ◌==◌, u16, false}
use meshtastic_mini.Mesh.Packet.{Header, IsHeader, read_header, header_bytes}
use meshtastic_mini.Mesh.Packet.RoundTrip.{read_header-bytes}
use meshtastic_mini.Crypto.{Cryp}
use meshtastic_mini.Crypto.Block.{Works}
use meshtastic_mini.Core.Protobuf.{pb_encode_data}
use meshtastic_mini.Core.Protobuf.Encode.{message, encode-eq}
use meshtastic_mini.Core.MainLoop.{Node, header_to, send_buffer, send_lora_packet}
use meshtastic_mini.Core.MainLoop.Seal.{Sealed, seal_packet-Sealed, length-header}

-- The message that `send_lora_packet` encodes, in `pb_buf`.
abbrev pub encoded : List ℕ → List ℕ
encoded text = message 1 (length text) (blit (replicate 236 0) 0 text)

pub encoded-eq :
    (text : List ℕ)
    → length text ≤ 127
    → pb_encode_data (replicate 240 0) 240 1 text (length text) ≡ (encoded text, length text + 4)
encoded-eq text small = encode-eq 0 0 0 0 (replicate 236 0) 240 1 text small (omega arith)

pub encoded_start :
    (text : List ℕ)
    → length text ≤ 127
    → take (length text + 4) (encoded text) ≡ message 1 (length text) text
encoded_start text small =
    let four_more : length text + 4 ≡ suc (suc (suc (suc (length text)))) = omega arith in
    ap (λ k. take k (encoded text)) four_more
    ∙ ap (message 1 (length text)) (
        ap (take (length text)) (blit_start (replicate 236 0) text (omega arith))
        ∙ take-append text (drop (length text) (replicate 236 0)))

-- A buffer that begins like a header and some bytes: the header, and the payload's bytes.
pub heard_parts :
    (h : Header) (rx wire : List ℕ) (k : ℕ)
    → IsHeader h
    → take (k + 20) rx ≡ take (k + 20) (header_bytes h ++ wire)
    → (read_header rx ≡ h) × (take (k + 4) (drop 16 rx) ≡ take (k + 4) wire)
heard_parts h rx wire k v same =
    let size = length-header h in
    let head : take 16 rx ≡ header_bytes h =
      sym (take-take 16 (k + 20) rx (omega arith))
      ∙ ap (take 16) same
      ∙ take-take 16 (k + 20) (header_bytes h ++ wire) (omega arith)
      ∙ subst (λ j. take j (header_bytes h ++ wire) ≡ header_bytes h) size
          (take-append (header_bytes h) wire) in
    let behind : drop 16 (header_bytes h ++ wire) ≡ wire =
      subst (λ j. drop j (header_bytes h ++ wire) ≡ wire) size
        (drop-append (header_bytes h) wire) in
    (
      ap read_header (sym (take-append-drop 16 rx) ∙ ap (λ l. l ++ drop 16 rx) head)
          ∙ read_header-bytes (drop 16 rx) v,
      sym (drop-take 16 (k + 20) (k + 4) rx (omega arith))
          ∙ ap (drop 16) same
          ∙ drop-take 16 (k + 20) (k + 4) (header_bytes h ++ wire) (omega arith)
          ∙ ap (take (k + 4)) behind,
    )

-- The text fits a packet, and the numbers of the sender fit their types.
pub record CanSend {cryp : Cryp} {S : Type 0} (a : Node cryp S) (to_id : ℕ) (text : List ℕ)
    : Type 0 where
  pub some_text : 0 < length text
  pub small : length text ≤ 127
  pub tx_size : length a.lora_tx_buf ≡ 256
  pub to_fits : to_id < 2 ^ 32
  pub from_fits : a.g_config.node_id < 2 ^ 32
  pub number_fits : a.next_packet_id < 2 ^ 32

module _ {cryp : Cryp} {S : Type 0} (cipher : List ℕ → List ℕ → List ℕ)
    (works : Works cryp cipher) where
  pub header_to-IsHeader :
      (a : Node cryp S) (to_id : ℕ) (text : List ℕ)
      → CanSend a to_id text
      → IsHeader (header_to to_id a)
  unfolding header_to
  header_to-IsHeader a to_id text can = record {
    to_fits = can.to_fits;
    from_fits = can.from_fits;
    packet_fits = can.number_fits;
    flags_fit = omega arith;
    channel_fits = omega arith;
    next_hop_fits = omega arith;
    relay_fits = omega arith;
  }

  -- What `send_lora_packet` does with a text that it can send: it seals a packet and hands the
  -- header, the message's four bytes and the text's length of it to the radio.
  pub send_lora_packet-sends :
      (a : Node cryp S) (fuel to_id : ℕ) (text : List ℕ)
      → CanSend a to_id text
      → 16 ≤ fuel
      → (a' : Node cryp S) × (send_lora_packet fuel to_id text (length text) a
          ≡ send_buffer a'.lora_tx_buf (length text + 20) a')
        × Sealed cipher to_id (encoded text) (length text + 4) a a'
  unfolding send_lora_packet
  send_lora_packet-sends a fuel to_id text can enough =
      let (a', done, sealed) =
        seal_packet-Sealed cipher works fuel to_id (encoded text) (length text + 4) a can.tx_size
          (omega (arith, can.small)) enough in
      let not_empty : (length text + 4 == 0) ≡ false = ground arith in
      let size : u16 (16 + (length text + 4)) ≡ length text + 20 = omega (arith, can.small) in
      (a', rw (encoded-eq text can.small, not_empty, done, size) refl, sealed)
