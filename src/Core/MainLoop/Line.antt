-- ===== src/Core/MainLoop/Line.antt =====
-- The line editor and the commands: `uart_rx_line_poll` of firmware/Core/main_loop.c.
use meshtastic_mini.Base.{ℕ, zero, suc, ◌+◌, ◌-◌, ◌/◌, Bool, ltb, leb, ◌==◌, ◌&&◌, ◌||◌}
use meshtastic_mini.Base.{if◌then◌else◌, Option, none, some, List, [], ◌∷◌, u16, get_or, set, Run}
use meshtastic_mini.Base.{ok, running, ◌>>=◌, codes}
use meshtastic_mini.Mesh.Packet.{mesh_broadcast_id}
use meshtastic_mini.Crypto.{Cryp}
use meshtastic_mini.Radio.Lora.{lora_last_rssi}
use meshtastic_mini.Core.SerialIo.{serial_push_byte, serial_get_byte}
use meshtastic_mini.Core.MainLoop.{Node, puts, put_int16, send_lora_packet, line_buf_size}

-- The tests of `uart_rx_line_poll` for its commands.
unfoldable pub is_node_command : List ℕ → ℕ → Bool
is_node_command buf len = leb 2 len && (get_or buf 0 0 == 78 || get_or buf 0 0 == 110)

unfoldable pub is_help : List ℕ → ℕ → Bool
is_help buf len =
    len == 4
    && get_or buf 0 0 == 104
    && get_or buf 1 0 == 101
    && get_or buf 2 0 == 108
    && get_or buf 3 0 == 112

unfoldable pub is_info : List ℕ → ℕ → Bool
is_info buf len =
    len == 4
    && get_or buf 0 0 == 105
    && get_or buf 1 0 == 110
    && get_or buf 2 0 == 102
    && get_or buf 3 0 == 111

-- The bytes that come in before the next round, and those of the later rounds.
abbrev pub first_of : List (List ℕ) → List ℕ
first_of [] = []
first_of (bs ∷ later) = bs

abbrev pub rest_of : List (List ℕ) → List (List ℕ)
rest_of [] = []
rest_of (bs ∷ later) = later

-- `b` after `serial_get_byte(&b)`
abbrev pub byte_of : Option ℕ → ℕ
byte_of none = 0
byte_of (some b) = b

module _ {cryp : Cryp} {S : Type 0} where
  -- The command `N`.
  unfoldable pub set_node_id : Node cryp S → Node cryp S
  set_node_id n =
      let digit = get_or n.line_buf 1 0 in
      if leb 49 digit && leb digit 57
      then puts (codes "node_id set\r\n")
          (record n { g_config = record n.g_config { node_id = digit - 48 } })
      else n

  -- The command `info`.
  unfoldable pub show_info : Node cryp S → Node cryp S
  show_info n =
      let p = n.lora.s_params in
      let freq = put_int16 (u16 (p.freq_hz / 1000000)) (puts (codes "Freq: ") n) in
      let sf = put_int16 p.sf (puts (codes " MHz  SF: ") freq) in
      let id = put_int16 (u16 n.g_config.node_id) (puts (codes "  NodeId: ") sf) in
      let rssi = put_int16 (lora_last_rssi n.lora) (puts (codes "  Last RSSI: ") id) in
      puts (codes " dBm\r\n") rssi

  -- Any other line.
  unfoldable pub send_line : ℕ → Node cryp S → Run (Node cryp S)
  send_line fuel n = send_lora_packet fuel mesh_broadcast_id n.line_buf n.line_len n >>= (λ r.
      ok (if r.1 then puts (codes "Sent.\r\n") r.0 else puts (codes "TX failed.\r\n") r.0))

  -- What `uart_rx_line_poll` does with a line of at least one byte, up to `line_len = 0`.
  unfoldable pub do_line : ℕ → Node cryp S → Run (Node cryp S)
  do_line fuel n =
      let line = n.line_buf in
      let len = n.line_len in
      if is_node_command line len
      then ok (set_node_id n)
      else if is_help line len
      then ok (puts (codes "Commands: N1..N9, info, help. Any other text = send over LoRa.\r\n") n)
      else if is_info line len
      then ok (show_info n)
      else send_line fuel n

  -- The body of the loop of `uart_rx_line_poll` for a byte.
  unfoldable pub line_byte : ℕ → ℕ → Node cryp S → Run (Node cryp S)
  line_byte fuel b n =
      let ended = record n { line_buf = set n.line_buf n.line_len 0 } in
      let handled : Run (Node cryp S) =
        do_line fuel ended >>= (λ n'. ok (record n' { line_len = 0 })) in
      let stored = record n {
        line_buf = set n.line_buf n.line_len b;
        line_len = u16 (n.line_len + 1);
      } in
      if b == 13 || b == 10
      then (if n.line_len == 0 then ok n else handled)
      else ok (if ltb n.line_len (line_buf_size - 1) then stored else n)

  -- The interrupt handler of USART1 for the bytes that come in meanwhile.
  unfoldable pub bytes_come_in : List ℕ → Node cryp S → Node cryp S
  bytes_come_in [] n = n
  bytes_come_in (b ∷ bs) n = bytes_come_in bs (record n { ring = serial_push_byte n.ring b })

  -- `uart_rx_line_poll`, with a number of rounds that it may take. The lists are the bytes that come
  -- in before each round; none come in after the last of them.
  unfoldable pub uart_rx_line_poll : ℕ → ℕ → List (List ℕ) → Node cryp S → Run (Node cryp S)
  uart_rx_line_poll zero fuel coming n = running
  uart_rx_line_poll (suc rounds) fuel coming n =
      let filled = bytes_come_in (first_of coming) n in
      let got = serial_get_byte (some 0) filled.ring in
      let taken = record filled { ring = got.ring } in
      let rest : Run (Node cryp S) =
        line_byte fuel (byte_of got.out) taken >>= uart_rx_line_poll rounds fuel (rest_of coming) in
      if got.returned then rest else ok taken
