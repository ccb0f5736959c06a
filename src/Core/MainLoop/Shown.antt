-- ===== src/Core/MainLoop/Shown.antt =====
-- A text at the other node, down to the bytes on its UART and to its answer.
use meshtastic_mini.Base.{ℕ, ◌+◌, ◌≤◌, ◌<◌, ◌≡◌, ◌≢◌, refl, ap, ◌∙◌, arith, some, List, [], ◌∷◌}
use meshtastic_mini.Base.{◌++◌, length, take, take-append, Bool, true, false, ◌&&◌, ◌==◌}
use meshtastic_mini.Base.{Bool-cases, inl, inr, if◌then◌else◌, ok, ◌>>=◌, codes}
use meshtastic_mini.Mesh.Router.{flood_seen, flood_should_forward}
use meshtastic_mini.Crypto.{Cryp, Aes}
use meshtastic_mini.Crypto.Block.{Works}
use meshtastic_mini.Radio.Lora.{lora_last_rssi, lora_last_snr}
use meshtastic_mini.Core.Uart.{serial_puts, puts_len, serial_write, serial_put_int16, transmit}
use meshtastic_mini.Core.Uart.{int16_text}
use meshtastic_mini.Core.MainLoop.{Node, header_to, send_lora_packet}
use meshtastic_mini.Core.MainLoop.Delivery.{CanSend}
use meshtastic_mini.Core.MainLoop.Arrival.{message_taken, IsFor}
use meshtastic_mini.Core.MainLoop.Receive.{answer_message, receive_packet, relay_packet}
use meshtastic_mini.Core.MainLoop.Receive.{show_message, is_pong, widen_int8}

-- The node with one more line on its UART: the text, with the signal's strength and its ratio to the
-- noise.
abbrev pub with_shown : {cryp : Cryp} {S : Type 0} → List ℕ → Node cryp S → Node cryp S
with_shown text n = record n {
  uart = record n.uart {
    handed =
        n.uart.handed
        ++ codes "RX: "
        ++ text
        ++ codes "  RSSI: "
        ++ int16_text (lora_last_rssi n.lora)
        ++ codes " dBm  SNR: "
        ++ int16_text (widen_int8 (lora_last_snr n.lora))
        ++ codes " dB\r\n";
  };
}

show_message-prints :
    {cryp : Cryp} {S : Type 0} (text rest : List ℕ) (n : Node cryp S)
    → n.uart.instance_set ≡ true
    → 0 < length text
    → show_message (text ++ rest) (length text) n ≡ with_shown text n
unfolding show_message serial_puts puts_len serial_write serial_put_int16 transmit
show_message-prints text rest n set some_text =
    let not_empty : (length text == 0) ≡ false = ground arith in
    rw (set, not_empty, take-append text rest) refl

is_pong-exact : (text : List ℕ) → text ≢ codes "pong" → is_pong text ≡ false
unfolding is_pong
is_pong-exact [] other = refl
is_pong-exact (a ∷ []) other = refl
is_pong-exact (a ∷ b ∷ []) other = refl
is_pong-exact (a ∷ b ∷ c ∷ []) other = refl
is_pong-exact (a ∷ b ∷ c ∷ d ∷ []) other =
    elim (Bool-cases (a == 112 && b == 111 && c == 110 && d == 103)) [
      | inr differs ↦ differs
      | inl same ↦
          let ea : a ≡ 112 = ground arith in
          let eb : b ≡ 111 = ground arith in
          let ec : c ≡ 110 = ground arith in
          let ed : d ≡ 103 = ground arith in absurd (other (rw (ea, eb, ec, ed) refl))
    ]
is_pong-exact (a ∷ b ∷ c ∷ d ∷ e ∷ text) other = refl

-- The answer to a text.
answer_message-answers :
    {cryp : Cryp} {S : Type 0} (fuel to_id : ℕ) (text rest : List ℕ) (a : Node cryp S)
    {cryp' : Cryp} {S' : Type 0} (n : Node cryp' S')
    → text ≢ codes "pong"
    → n.uart.instance_set ≡ true
    → 0 < length text
    → answer_message fuel (header_to to_id a) (text ++ rest) (length text) n ≡ (
        send_lora_packet fuel a.g_config.node_id (codes "pong") 4 (with_shown text n) >>= λ r.
        ok r.0)
unfolding answer_message header_to
answer_message-answers fuel to_id text rest a n other set some_text =
    rw
      (
        take-append text rest,
        is_pong-exact text other,
        show_message-prints text rest n set some_text,
      )
      refl

-- Two nodes with working hardware and the same key: what `send_lora_packet` has sent of a text of
-- 1 to 127 bytes that is not "pong", received whole by a node that it is for and whose UART is set up,
-- is printed there as that text, with the strength of the signal, and answered with "pong" to the
-- sender, with the packet registered and the key kept. Then the packet is relayed if it is to be relayed.
pub message_arrives :
    {cryp cryp' : Cryp} {S S' : Type 0} (cipher : List ℕ → List ℕ → List ℕ)
    → Works cryp cipher
    → Works cryp' cipher
    → (a a' : Node cryp S) (b : Node cryp' S') (sent : Bool) (fuel to_id : ℕ) (text : List ℕ)
    → CanSend a to_id text
    → text ≢ codes "pong"
    → 16 ≤ fuel
    → send_lora_packet fuel to_id text (length text) a ≡ ok (a', sent)
    → take (length text + 20) b.lora_rx_buf ≡ take (length text + 20) a'.lora_tx_buf
    → length b.lora_rx_buf ≡ 256
    → b.aes.hw_key ≡ a.aes.hw_key
    → b.uart.instance_set ≡ true
    → IsFor to_id b
    → (aes : Aes cryp') × (aes.hw_key ≡ a.aes.hw_key)
      × (receive_packet fuel (length text + 20) b ≡ (
          send_lora_packet fuel a.g_config.node_id (codes "pong") 4 (
            with_shown text (record b {
              router = flood_seen b.router a.g_config.node_id a.next_packet_id;
              aes = aes;
            }))
          >>= (λ r. ok r.0)
          >>= (λ n.
              if flood_should_forward b.router (some b.lora_rx_buf) (length text + 20)
              then relay_packet (length text + 20) n
              else ok n)))
message_arrives cipher works works' a a' b sent fuel to_id text can other enough done heard whole
      same_key set hears =
    let (aes, rest, key, taken) =
      message_taken cipher works works' a a' b sent fuel to_id text can enough done heard whole
        same_key hears in
    let noted = record b {
      router = flood_seen b.router a.g_config.node_id a.next_packet_id;
      aes = aes;
    } in
    (
      aes,
      key,
      taken
          ∙ ap
              (λ m. m >>= (λ n.
                if flood_should_forward b.router (some b.lora_rx_buf) (length text + 20)
                then relay_packet (length text + 20) n
                else ok n))
              (answer_message-answers fuel to_id text rest a noted other set can.some_text),
    )
