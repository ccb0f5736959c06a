-- ===== src/Core/MainLoop/Sending.antt =====
-- A typed line that is no command is sent.

use meshtastic_mini.Base.{ℕ, ◌≤◌, ◌<◌, ◌≡◌, ◌≢◌, ◌⊎◌, refl, sym, ap, ◌∙◌, arith, min, Bool}
use meshtastic_mini.Base.{leb, ◌==◌, List, [], ◌∷◌, ◌++◌, length, take, get_or, get_or-take}
use meshtastic_mini.Base.{take-take, take_all, Bool-cases, inl, inr, ok, ◌>>=◌}
use meshtastic_mini.Base.{bind-bind, codes, if◌then◌else◌}
use meshtastic_mini.Mesh.Packet.{mesh_broadcast_id}
use meshtastic_mini.Crypto.{Cryp}
use meshtastic_mini.Core.Protobuf.{pb_encode_data}
use meshtastic_mini.Core.MainLoop.{Node, puts, send_lora_packet}
use meshtastic_mini.Core.MainLoop.Line.{is_node_command, is_help, is_info, do_line, send_line}
use meshtastic_mini.Core.MainLoop.Commands.{IsMessage, plain-IsMessage}
use meshtastic_mini.Core.MainLoop.Typing.{InLine, type_bytes, typed_line}

module _ (buf text : List ℕ) (begins : take (length text) buf ≡ text) where
  same_byte : (i : ℕ) → i < length text → get_or buf i 0 ≡ get_or text i 0
  same_byte i inside =
      sym (get_or-take (length text) i buf 0 inside) ∙ ap (λ l. get_or l i 0) begins

  is_node_command-same : is_node_command buf (length text) ≡ is_node_command text (length text)
  unfolding is_node_command
  is_node_command-same = elim (Bool-cases (leb 2 (length text))) [
    | inr short ↦ rw short refl
    | inl long ↦ rw (same_byte 0 (ground arith)) refl
  ]

  is_help-same : is_help buf (length text) ≡ is_help text (length text)
  unfolding is_help
  is_help-same = elim (Bool-cases (length text == 4)) [
    | inr other ↦ rw other refl
    | inl four ↦
        rw
          (
            same_byte 0 (ground arith),
            same_byte 1 (ground arith),
            same_byte 2 (ground arith),
            same_byte 3 (ground arith),
          )
          refl
  ]

  is_info-same : is_info buf (length text) ≡ is_info text (length text)
  unfolding is_info
  is_info-same = elim (Bool-cases (length text == 4)) [
    | inr other ↦ rw other refl
    | inl four ↦
        rw
          (
            same_byte 0 (ground arith),
            same_byte 1 (ground arith),
            same_byte 2 (ground arith),
            same_byte 3 (ground arith),
          )
          refl
  ]

module _ {cryp : Cryp} {S : Type 0} where
  abbrev with_line : List ℕ → ℕ → Node cryp S → Node cryp S
  with_line buf len n = record n { line_buf = buf; line_len = len }

  -- The line is empty again.
  abbrev pub cleared : Node cryp S → Node cryp S
  cleared n = record n { line_len = 0 }

  -- What the node prints once it has sent a line, or failed to.
  abbrev pub report : Node cryp S × Bool → Node cryp S
  report r = if r.1 then puts (codes "Sent.\r\n") r.0 else puts (codes "TX failed.\r\n") r.0

module _ {cryp : Cryp} {S : Type 0} (fuel : ℕ) where
  -- The encoder reads no further than the text's length.
  send_lora_packet-take :
      (to_id : ℕ) (buf : List ℕ) (len : ℕ) (n : Node cryp S)
      → send_lora_packet fuel to_id buf len n ≡ send_lora_packet fuel to_id (take len buf) len n
  unfolding send_lora_packet pb_encode_data
  send_lora_packet-take to_id buf len n = rw (take-take len len buf (omega arith)) refl

  do_line-sends :
      (text buf : List ℕ) (n : Node cryp S)
      → IsMessage text
      → take (length text) buf ≡ text
      → do_line fuel (with_line buf (length text) n) ≡ (
          send_lora_packet fuel mesh_broadcast_id text (length text) (with_line buf (length text) n)
          >>= λ r. ok (report r))
  unfolding do_line send_line
  do_line-sends text buf n v begins =
      let no_n = is_node_command-same buf text begins ∙ v.no_node_command in
      let no_help = is_help-same buf text begins ∙ v.no_help in
      let no_info = is_info-same buf text begins ∙ v.no_info in
      let whole =
        send_lora_packet-take mesh_broadcast_id buf (length text) (with_line buf (length text) n)
        ∙ ap
            (λ t.
              send_lora_packet fuel mesh_broadcast_id t (length text)
                (with_line buf (length text) n))
            begins in
      rw (no_n, no_help, no_info, whole) refl

  -- What passes the tests for the commands is sent.
  line_is_sent :
      (text : List ℕ) (stop : ℕ) (n : Node cryp S)
      → InLine text
      → text ≢ []
      → length text ≤ 199
      → IsMessage text
      → (stop ≡ 13) ⊎ (stop ≡ 10)
      → n.line_len ≡ 0
      → length n.line_buf ≡ 200
      → (buf : List ℕ) × (type_bytes fuel (text ++ stop ∷ []) n ≡ (
          send_lora_packet fuel mesh_broadcast_id text
            (length text)
            (record n { line_buf = buf; line_len = length text })
          >>= λ r. ok (cleared (report r))))
  line_is_sent text stop n inside some_text short v stops empty full =
      let (buf, typed, kept, nul) = typed_line fuel text stop n inside some_text stops empty full in
      let all : min 199 (length text) ≡ length text = omega arith in
      let begins : take (length text) buf ≡ text =
        ap (λ k. take k buf) (sym all) ∙ kept ∙ take_all text 199 short in
      let m = record n { line_buf = buf; line_len = length text } in
      let line = do_line-sends text buf n v begins in
      (
        buf,
        typed
            ∙ ap
                (λ k. do_line fuel (record n { line_buf = buf; line_len = k }) >>= λ n'.
                  ok (cleared n'))
                all
            ∙ ap (λ r. r >>= λ n'. ok (cleared n')) line
            ∙ bind-bind (send_lora_packet fuel mesh_broadcast_id text (length text) m)
                (λ r. ok (report r)) (λ n'. ok (cleared n')),
      )

  -- A text of 1 to 199 bytes without CR and LF, which is neither `help` nor `info` and does not begin
  -- with N or n, unless it is that letter alone, typed into an empty line and ended by CR or LF: the node
  -- sends exactly the text to all nodes, reports whether that succeeded, and the line is empty again.
  pub typed_text_is_sent :
      (text : List ℕ) (stop : ℕ) (n : Node cryp S)
      → InLine text
      → text ≢ []
      → length text ≤ 199
      → text ≢ codes "help"
      → text ≢ codes "info"
      → (length text ≡ 1) ⊎ ((get_or text 0 0 ≢ 78) × (get_or text 0 0 ≢ 110))
      → (stop ≡ 13) ⊎ (stop ≡ 10)
      → n.line_len ≡ 0
      → length n.line_buf ≡ 200
      → (buf : List ℕ) × (type_bytes fuel (text ++ stop ∷ []) n ≡ (
          send_lora_packet fuel mesh_broadcast_id text
            (length text)
            (record n { line_buf = buf; line_len = length text })
          >>= λ r. ok (cleared (report r))))
  typed_text_is_sent text stop n inside some_text short no_help no_info no_n stops empty full =
      line_is_sent text stop n inside some_text short (plain-IsMessage text no_help no_info no_n)
        stops empty full
