-- ===== src/Core/MainLoop/Exchange.antt =====
-- Two nodes that exchange a message: the answer to a text is not answered.
mod Tests
use meshtastic_mini.Base.{ℕ, ◌+◌, ◌≤◌, ◌<◌, ◌^◌, ◌≡◌, refl, sym, ap, ◌∙◌, arith, Bool, true, false}
use meshtastic_mini.Base.{Option, none, some, inr, List, [], ◌∷◌, ◌++◌, length, take, take-append}
use meshtastic_mini.Base.{bit_and, if◌then◌else◌, Bool-cases, inl, Run, ok, running, undefined}
use meshtastic_mini.Base.{◌>>=◌, >>=-ok}
use meshtastic_mini.Mesh.Packet.{Header}
use meshtastic_mini.Mesh.Router.{flood_seen, flood_should_forward, flood_prepare_forward}
use meshtastic_mini.Crypto.{Cryp, Aes}
use meshtastic_mini.Crypto.Block.{Works}
use meshtastic_mini.Radio.Lora.{lora_tx}
use meshtastic_mini.Core.MainLoop.{Node, header_to, send_buffer, send_lora_packet}
use meshtastic_mini.Core.MainLoop.Delivery.{CanSend}
use meshtastic_mini.Core.MainLoop.Receive.{receive_packet, relay_packet, answer_message}
use meshtastic_mini.Core.MainLoop.Receive.{show_message, is_pong, pong, or_else}
use meshtastic_mini.Core.MainLoop.Arrival.{message_taken, IsFor, after_tx-keeps}

module _ {cryp : Cryp} {S : Type 0} where
  node_of : Node cryp S → Run (Node cryp S) → Node cryp S
  node_of n (ok n') = n'
  node_of n running = n
  node_of n undefined = n

  -- The relaying of a packet leaves the packet that was sent last.
  relay_packet-keeps :
      (len : ℕ) (n n' : Node cryp S) → relay_packet len n ≡ ok n' → n'.lora_tx_buf ≡ n.lora_tx_buf
  unfolding relay_packet send_buffer node_of
  relay_packet-keeps len n n' e =
      let buf =
        or_else n.lora_rx_buf
          (flood_prepare_forward (some n.lora_rx_buf) len (bit_and n.g_config.node_id 0xff)) in
      let m = record n { lora_rx_buf = buf } in
      let ((r, sent), sends, done) = >>=-ok (send_buffer buf len m) (λ r. ok r.0) e in
      ap (λ x. (node_of n x).lora_tx_buf) (sym done)
      ∙ (after_tx-keeps m r sent (lora_tx (some buf) len m.lora) sends).0

  -- So does the end of `mesh_mini_loop`, whether it relays or not.
  rest-keeps :
      (len : ℕ) (c : Bool) (n n' : Node cryp S)
      → (if c then relay_packet len n else ok n) ≡ ok n'
      → n'.lora_tx_buf ≡ n.lora_tx_buf
  unfolding node_of
  rest-keeps len true n n' e = relay_packet-keeps len n n' e
  rest-keeps len false n n' e = ap (λ x. (node_of n x).lora_tx_buf) (sym e)

module _ {cryp : Cryp} {S : Type 0} where
  replies_to :
      (fuel : ℕ) (h : Header) (text rest : List ℕ) (n : Node cryp S)
      → is_pong text ≡ false
      → answer_message fuel h (text ++ rest) (length text) n ≡ (
          send_lora_packet fuel h.from_id pong 4 (show_message (text ++ rest) (length text) n)
          >>= λ r. ok r.0)
  unfolding answer_message
  replies_to fuel h text rest n no_pong = rw (take-append text rest, no_pong) refl

-- A text that is not the answer, sent by one node and handled to the end by another: the answer that
-- it sends last, heard by the first node, at any later time, is printed there as the answer and is not
-- answered itself: with the packet registered, nothing is left but to relay it if it is to be relayed.
-- Both have working hardware and the same key, and the answer is heard whole.
pub exchange_ends :
    {cryp cryp' : Cryp} {S S' : Type 0} (cipher : List ℕ → List ℕ → List ℕ)
    → Works cryp cipher
    → Works cryp' cipher
    → (a a' later : Node cryp S) (b b' : Node cryp' S') (sent : Bool) (fuel to_id : ℕ)
      (text : List ℕ)
    → CanSend a to_id text
    → is_pong text ≡ false
    → 16 ≤ fuel
    → send_lora_packet fuel to_id text (length text) a ≡ ok (a', sent)
    → take (length text + 20) b.lora_rx_buf ≡ take (length text + 20) a'.lora_tx_buf
    → length b.lora_rx_buf ≡ 256
    → b.aes.hw_key ≡ a.aes.hw_key
    → IsFor to_id b
    → CanSend b a.g_config.node_id pong
    → receive_packet fuel (length text + 20) b ≡ ok b'
    → take 24 later.lora_rx_buf ≡ take 24 b'.lora_tx_buf
    → length later.lora_rx_buf ≡ 256
    → later.aes.hw_key ≡ a.aes.hw_key
    → later.g_config.node_id ≡ a.g_config.node_id
    → (aes : Aes cryp) × (rest : List ℕ) × (receive_packet fuel 24 later ≡ (
        let shown = show_message (pong ++ rest) 4 (record later {
          router = flood_seen later.router b.g_config.node_id b.next_packet_id;
          aes = aes;
        }) in
        if flood_should_forward later.router (some later.lora_rx_buf) 24
        then relay_packet 24 shown
        else ok shown))
unfolding answer_message show_message header_to is_pong node_of
exchange_ends cipher works works' a a' later b b' sent fuel to_id text can no_pong enough done heard
      whole same_key hears can_answer handled heard' whole' same_key' same_id =
    let k = length text in
    let go = flood_should_forward b.router (some b.lora_rx_buf) (k + 20) in
    let (aes, rest, key, arrives) =
      message_taken cipher works works' a a' b sent fuel to_id text can enough done heard whole
        same_key hears in
    let noted = record b {
      router = flood_seen b.router a.g_config.node_id a.next_packet_id;
      aes = aes;
    } in
    let shown = show_message (text ++ rest) k noted in
    let (answered, answers, relays) =
      >>=-ok (answer_message fuel (header_to to_id a) (text ++ rest) k noted)
        (λ n. if go then relay_packet (k + 20) n else ok n) (sym arrives ∙ handled) in
    let ((reply, sent'), replies, is_reply) =
      >>=-ok (send_lora_packet fuel a.g_config.node_id pong 4 shown) (λ r. ok r.0)
        (sym (replies_to fuel (header_to to_id a) text rest noted no_pong) ∙ answers) in
    let last : b'.lora_tx_buf ≡ reply.lora_tx_buf =
      rest-keeps (k + 20) go answered b' relays
      ∙ ap (λ x. (node_of reply x).lora_tx_buf) (sym is_reply) in
    let can' : CanSend shown a.g_config.node_id pong = record {
      some_text = can_answer.some_text;
      small = can_answer.small;
      tx_size = can_answer.tx_size;
      to_fits = can_answer.to_fits;
      from_fits = can_answer.from_fits;
      number_fits = can_answer.number_fits;
    } in
    let (aes', rest', key', shows) =
      message_taken cipher works' works shown reply later sent' fuel a.g_config.node_id pong can'
        enough replies (heard' ∙ ap (take 24) last) whole' (same_key' ∙ sym key)
        (inr (sym same_id)) in
    (aes', rest', shows)
