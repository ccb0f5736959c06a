-- ===== src/Core/MainLoop/Seal.antt =====
-- The packet that `send_lora_packet` makes of a text.
use mathlib.Core.Path.{subst}
use meshtastic_mini.Base.{ℕ, ◌+◌, ◌≤◌, ◌≡◌, refl, ap, ◌∙◌, u32, List, ◌++◌, arith, length, take}
use meshtastic_mini.Base.{drop, blit, length-blit, length-drop, take-append, drop-append}
use meshtastic_mini.Base.{blit-append, ok}
use meshtastic_mini.Mesh.Packet.{Header, header_bytes, le32_bytes}
use meshtastic_mini.Mesh.Packet.RoundTrip.{write_header-eq}
use meshtastic_mini.Mesh.Router.{flood_seen}
use meshtastic_mini.Crypto.{Cryp, aes_ctr_crypt}
use meshtastic_mini.Crypto.Block.{Works}
use meshtastic_mini.Crypto.Stream.{IsCrypted, aes_ctr_crypt-IsCrypted}
use meshtastic_mini.Core.MainLoop.{Node, header_to, plain_packet, seal_packet, sealed}

pub length-header : (h : Header) → length (header_bytes h) ≡ 16
unfolding header_bytes le32_bytes
length-header h = refl

-- The sender's payload before it is encrypted, in its place behind the header.
abbrev pub payload_in : List ℕ → List ℕ → ℕ → List ℕ
payload_in tx_buf pb_buf pb_len = blit (drop 16 tx_buf) 0 (take pb_len pb_buf)

module _ {cryp : Cryp} {S : Type 0} where
  plain_packet-eq :
      (to_id : ℕ) (pb : List ℕ) (len : ℕ) (n : Node cryp S)
      → length n.lora_tx_buf ≡ 256
      → plain_packet to_id pb len n
        ≡ header_bytes (header_to to_id n) ++ payload_in n.lora_tx_buf pb len
  unfolding plain_packet
  plain_packet-eq to_id pb len n full =
      let h = header_to to_id n in
      rw (write_header-eq h n.lora_tx_buf (omega arith)) (
        subst
          (λ k.
            blit (header_bytes h ++ drop 16 n.lora_tx_buf) k (take len pb)
            ≡ header_bytes h ++ payload_in n.lora_tx_buf pb len)
          (length-header h) (blit-append (header_bytes h) (drop 16 n.lora_tx_buf) (take len pb)))

  -- Its first 16 bytes, and the others.
  pub plain_parts :
      (to_id : ℕ) (pb : List ℕ) (len : ℕ) (n : Node cryp S)
      → length n.lora_tx_buf ≡ 256
      → (take 16 (plain_packet to_id pb len n) ≡ header_bytes (header_to to_id n))
        × (drop 16 (plain_packet to_id pb len n) ≡ payload_in n.lora_tx_buf pb len)
  plain_parts to_id pb len n full =
      let h = header_bytes (header_to to_id n) in
      let body = payload_in n.lora_tx_buf pb len in
      let size = length-header (header_to to_id n) in
      rw (plain_packet-eq to_id pb len n full) (
        subst (λ k. take k (h ++ body) ≡ h) size (take-append h body),
        subst (λ k. drop k (h ++ body) ≡ body) size (drop-append h body),
      )

  -- A sealed packet: behind the header, the payload mixed with the key stream of the packet.
  pub record Sealed (cipher : List ℕ → List ℕ → List ℕ) (to_id : ℕ) (pb : List ℕ) (len : ℕ)
      (before after : Node cryp S) : Type 0 where
    pub sealed_bytes : List ℕ
    pub packet : after.lora_tx_buf ≡ header_bytes (header_to to_id before) ++ sealed_bytes
    pub crypted :
        IsCrypted cipher before.aes.hw_key before.next_packet_id before.g_config.node_id 0 len
          (payload_in before.lora_tx_buf pb len)
          sealed_bytes
    pub next_number : after.next_packet_id ≡ u32 (before.next_packet_id + 1)
    pub registered :
        after.router ≡ flood_seen before.router before.g_config.node_id before.next_packet_id
    pub same_key : after.aes.hw_key ≡ before.aes.hw_key
    pub same_lora : after.lora ≡ before.lora

  pub seal_packet-Sealed :
      (cipher : List ℕ → List ℕ → List ℕ)
      → Works cryp cipher
      → (fuel to_id : ℕ) (pb : List ℕ) (len : ℕ) (n : Node cryp S) → length n.lora_tx_buf ≡ 256
      → len ≤ 240
      → 16 ≤ fuel
      → (n' : Node cryp S) × (seal_packet fuel to_id pb len n ≡ ok n')
        × Sealed cipher to_id pb len n n'
  unfolding seal_packet sealed header_to
  seal_packet-Sealed cipher works fuel to_id pb len n full fits enough =
      let plain = plain_packet to_id pb len n in
      let body = payload_in n.lora_tx_buf pb len in
      let (head, tail) = plain_parts to_id pb len n full in
      let body_size : length body ≡ 240 =
        length-blit (drop 16 n.lora_tx_buf) 0 (take len pb)
        ∙ length-drop 16 n.lora_tx_buf
        ∙ omega arith in
      let (aes, payload, done, mixed, key) =
        aes_ctr_crypt-IsCrypted cryp cipher works fuel body len n.next_packet_id n.g_config.node_id
          n.aes (omega arith) (omega arith) (omega arith) in
      (
        record n {
          lora_tx_buf = take 16 plain ++ payload;
          next_packet_id = u32 (n.next_packet_id + 1);
          aes = aes;
          router = flood_seen n.router n.g_config.node_id n.next_packet_id;
        },
        ap (sealed to_id plain n) (
            ap (λ b. aes_ctr_crypt cryp fuel b len n.next_packet_id n.g_config.node_id n.aes) tail
            ∙ done),
        record {
          sealed_bytes = payload;
          packet = ap (λ l. l ++ payload) head;
          crypted = mixed;
          next_number = refl;
          registered = refl;
          same_key = key;
          same_lora = refl;
        },
      )
