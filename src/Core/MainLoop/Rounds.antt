-- ===== src/Core/MainLoop/Rounds.antt =====
-- A round of the main loop returns.
use mathlib.Core.Path.{subst}
use meshtastic_mini.Base.{ℕ, ◌+◌, ◌≤◌, ◌<◌, ◌≡◌, sym, ap, ◌∙◌, arith, some, List, length, leb}
use meshtastic_mini.Base.{Bool-cases, inl, inr, Run, ok, Ends, ended, Ends-ok}
use meshtastic_mini.Crypto.{Cryp}
use meshtastic_mini.Radio.Phy.{ops_of}
use meshtastic_mini.Radio.Lora.{lora_rx_poll}
use meshtastic_mini.Core.Led.{led_tick}
use meshtastic_mini.Core.SerialIo.Queue.{waiting}
use meshtastic_mini.Core.MainLoop.{Node, lora_buf_size}
use meshtastic_mini.Core.MainLoop.Line.{uart_rx_line_poll}
use meshtastic_mini.Core.MainLoop.Receive.{mesh_mini_loop, or_else}
use meshtastic_mini.Core.MainLoop.Invariant.{IsNode}
use meshtastic_mini.Core.MainLoop.Ends.{IsPrompt}
use meshtastic_mini.Core.MainLoop.Polls.{total, uart_rx_line_poll-Ends}
use meshtastic_mini.Core.MainLoop.Keeps.{received-IsNode}
use meshtastic_mini.Core.MainLoop.Handling.{IsDecoded, receive_packet-Ends}

module _ {cryp : Cryp} {S : Type 0} where
  -- The node once the radio was polled, and the number of bytes that came.
  abbrev pub received : Node cryp S → Node cryp S × ℕ
  received n =
      let (lora, out, len) = lora_rx_poll (some n.lora_rx_buf) lora_buf_size n.lora in
      (record n { lora = lora; lora_rx_buf = or_else n.lora_rx_buf out }, len)

  -- If a packet comes in a round, then the decoder comes to the end of it.
  abbrev pub IsUnderstood : ℕ → ℕ → ℕ → List (List ℕ) → Node cryp S → Type 0
  IsUnderstood rounds fuel now coming n =
      (polled : Node cryp S)
      → uart_rx_line_poll rounds fuel coming (record n { led = led_tick now n.led }) ≡ ok polled
      → 16 < (received polled).1
      → IsDecoded fuel (received polled).1 (received polled).0

  node_of : Node cryp S → Run (Node cryp S) → Node cryp S
  node_of n (ok n') = n'
  node_of n _ = n

  pub known-IsUnderstood :
      (rounds fuel now : ℕ) (coming : List (List ℕ)) (n polled : Node cryp S)
      → uart_rx_line_poll rounds fuel coming (record n { led = led_tick now n.led }) ≡ ok polled
      → IsDecoded fuel (received polled).1 (received polled).0
      → IsUnderstood rounds fuel now coming n
  unfolding node_of
  known-IsUnderstood rounds fuel now coming n polled done decoded = λ other e more.
      subst (λ m. IsDecoded fuel (received m).1 (received m).0) (ap (node_of n) (sym done ∙ e))
        decoded

  -- For a sound node with a driver whose `tx` returns, and fuel for 16 blocks: a round of the main loop
  -- returns, whatever is typed and received, with a round of the poll for each byte that waits or comes
  -- in and one more, if the decoder comes to the end of a packet that is received in it. The node is
  -- sound then.
  pub mesh_mini_loop-Ends :
      (rounds fuel now : ℕ) (coming : List (List ℕ)) (n : Node cryp S)
      → IsNode n
      → IsPrompt (ops_of n.lora.s_ops)
      → 16 ≤ fuel
      → length (waiting n.ring) + total coming < rounds
      → IsUnderstood rounds fuel now coming n
      → Ends IsNode (mesh_mini_loop rounds fuel now coming n)
  unfolding mesh_mini_loop lora_rx_poll
  mesh_mini_loop-Ends rounds fuel now coming n v prompt enough few understood =
      let ticked = record n { led = led_tick now n.led } in
      let (polled, e, (none_wait, w, same)) =
        Ends-ok (uart_rx_line_poll-Ends rounds fuel coming ticked v prompt enough few) in
      let (sound, bound, still) = received-IsNode polled w in
      let prompt' = subst (λ o. IsPrompt (ops_of o)) (sym (still ∙ same)) prompt in
      let now_has = received polled in
      rw e (elim (Bool-cases (leb now_has.1 16)) [
        | inl short ↦ rw short (ended sound)
        | inr long ↦
            let more : 16 < now_has.1 = ground arith in
            rw long (
              receive_packet-Ends fuel now_has.1 now_has.0 sound prompt' enough bound
                (understood polled e more))
      ])
