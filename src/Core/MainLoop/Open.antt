-- ===== src/Core/MainLoop/Open.antt =====
-- A sealed packet at its receiver.
use mathlib.Core.Path.{subst}
use meshtastic_mini.Base.{ℕ, ◌+◌, ◌-◌, ◌≤◌, ◌<◌, ◌≡◌, refl, sym, ap, ◌∙◌, u16, lt→ltb, get_or, List}
use meshtastic_mini.Base.{◌++◌, arith, length, take, drop, replicate, xor_twice, length-blit}
use meshtastic_mini.Base.{length-drop, bit_xor, take_ext, get_or-take, take-blit, take-append-drop}
use meshtastic_mini.Mesh.Packet.{Header}
use meshtastic_mini.Crypto.{Cryp, Aes, aes_ctr_crypt}
use meshtastic_mini.Crypto.Block.{Works}
use meshtastic_mini.Crypto.Stream.{IsCrypted, aes_ctr_crypt-IsCrypted, stream_byte}
use meshtastic_mini.Core.Protobuf.{pb_decode_data}
use meshtastic_mini.Core.Protobuf.Encode.{message, with_fuel}
use meshtastic_mini.Core.MainLoop.{Node}
use meshtastic_mini.Core.MainLoop.Receive.{answer_message, take_data, take_text, dec_buf_of, opened}
use meshtastic_mini.Core.MainLoop.Receive.{take_packet}

-- A byte that was mixed at the sender, copied, and mixed again at the receiver.
crypted_twice :
    (cipher : List ℕ → List ℕ → List ℕ) (key : List ℕ) (p f len : ℕ) (body wire dec out : List ℕ)
    → IsCrypted cipher key p f 0 len body wire
    → IsCrypted cipher key p f 0 len dec out
    → take len dec ≡ take len wire
    → len ≤ length body
    → len ≤ length dec
    → take len out ≡ take len body
crypted_twice cipher key p f len body wire dec out c c' copied room room' =
    take_ext 0 len out body (omega (arith, c'.same_length)) room λ i inside.
      c'.crypted i (omega arith) inside
      ∙ ap (λ b. bit_xor b (stream_byte cipher key p f i))
          (sym (get_or-take len i dec 0 inside)
            ∙ ap (λ l. get_or l i 0) copied
            ∙ get_or-take len i wire 0 inside
            ∙ c.crypted i (omega arith) inside)
      ∙ xor_twice (get_or body i 0) (stream_byte cipher key p f i)

-- The copy that is decrypted begins with the packet's payload.
dec_buf_of_lem :
    (rx : List ℕ) (len : ℕ)
    → len ≤ 240
    → len + 16 ≤ length rx
    → (take len (dec_buf_of rx len) ≡ take len (drop 16 rx)) × (length (dec_buf_of rx len) ≡ 256)
unfolding dec_buf_of
dec_buf_of_lem rx len fits whole = (
  take-blit len (replicate 256 0) (drop 16 rx) (omega arith) (omega (arith, length-drop 16 rx)),
  length-blit (replicate 256 0) 0 (take len (drop 16 rx)),
)

module _ {cryp : Cryp} {S : Type 0} where
  -- What follows from the decoded text.
  takes_text :
      (fuel : ℕ) (h : Header) (text rest : List ℕ) (n : Node cryp S)
      → 0 < length text
      → length text ≤ 127
      → 3 ≤ fuel
      → take_data fuel h
          (message 1 (length text) (text ++ rest))
          (pb_decode_data (message 1 (length text) (text ++ rest)) (length text + 4) fuel)
          n
        ≡ answer_message fuel h (text ++ rest) (length text) n
  unfolding take_data take_text
  takes_text fuel h text rest n some_text small enough =
      ap (λ e. take_data fuel h (message 1 (length text) (text ++ rest)) e n)
        (with_fuel 1 (length text) fuel (text ++ rest) (omega arith) (omega arith) enough)
      ∙ rw (lt→ltb 0 (length text) some_text) refl

  -- A packet whose payload was encrypted under the receiver's key, from a message with a text of 1
  -- to 127 bytes, is taken as that text: the receiver prints it and answers.
  pub take_packet-answers :
      (cipher : List ℕ → List ℕ → List ℕ)
      → Works cryp cipher
      → (fuel : ℕ) (h : Header) (key text body wire : List ℕ) (n : Node cryp S)
      → IsCrypted cipher key h.packet_id h.from_id 0 (length text + 4) body wire
      → take (length text + 4) body ≡ message 1 (length text) text
      → take (length text + 4) (drop 16 n.lora_rx_buf) ≡ take (length text + 4) wire
      → n.aes.hw_key ≡ key
      → 0 < length text
      → length text ≤ 127
      → length text + 4 ≤ length body
      → length text + 20 ≤ length n.lora_rx_buf
      → 16 ≤ fuel
      → (aes : Aes cryp) × (rest : List ℕ) × (take_packet fuel h (length text + 20) n
          ≡ answer_message fuel h (text ++ rest) (length text) (record n { aes = aes }))
        × (aes.hw_key ≡ key)
  unfolding take_packet opened
  take_packet-answers cipher works fuel h key text body wire n c plain copied same some_text small
        room whole enough =
      let len = length text + 4 in
      let dec = dec_buf_of n.lora_rx_buf len in
      let (start, size) = dec_buf_of_lem n.lora_rx_buf len (omega arith) (omega arith) in
      let (aes, out, done, c', key') =
        aes_ctr_crypt-IsCrypted cryp cipher works fuel dec len h.packet_id h.from_id n.aes
          (omega arith) (omega arith) (omega arith) in
      let cut : u16 (length text + 20 - 16) ≡ len = omega arith in
      let read =
        crypted_twice cipher key h.packet_id h.from_id len body wire dec out c
          (subst (λ k. IsCrypted cipher k h.packet_id h.from_id 0 len dec out) same c')
          (start ∙ copied) room (omega arith)
        ∙ plain in
      let rest = drop len out in
      let whole_out : out ≡ message 1 (length text) (text ++ rest) =
        sym (take-append-drop len out) ∙ ap (λ l. l ++ rest) read in
      (
        aes,
        rest,
        ap
              (λ k. opened fuel h k n (
                aes_ctr_crypt cryp fuel (dec_buf_of n.lora_rx_buf k) k h.packet_id h.from_id n.aes))
              cut
            ∙ ap (opened fuel h len n) done
            ∙ ap (λ o. take_data fuel h o (pb_decode_data o len fuel) (record n { aes = aes }))
                whole_out
            ∙ takes_text fuel h text rest (record n { aes = aes }) some_text small (omega arith),
        key' ∙ same,
      )
