-- ===== src/Radio/Values.antt =====
-- The numbers and the commands that firmware/Radio/radio_stm32wl.c hands to the radio, and what it reads
-- from the status of a packet.
use meshtastic_mini.Base.{ℕ, ◌-◌, ◌*◌, ◌/◌, ◌%◌, ◌^◌, ltb, leb, ◌&&◌, if◌then◌else◌, List, [], ◌∷◌}
use meshtastic_mini.Base.{◌>>>◌, u8, u32}
use meshtastic_mini.Radio.{radio_set_standby, radio_clr_irqstatus, radio_set_rx, radio_set_tx}
use meshtastic_mini.Radio.{HalCall, exec_set_cmd}

unfoldable pub freq_to_rf_reg : ℕ → ℕ
freq_to_rf_reg freq_hz = u32 (freq_hz * 2 ^ 25 % 2 ^ 64 / 32000000)

unfoldable pub bw_to_param : ℕ → ℕ
bw_to_param bw_hz =
    if leb bw_hz 7810
    then 0x00
    else if leb bw_hz 10420
    then 0x08
    else if leb bw_hz 15630
    then 0x01
    else if leb bw_hz 20830
    then 0x09
    else if leb bw_hz 31250
    then 0x02
    else if leb bw_hz 41670
    then 0x0a
    else if leb bw_hz 62500
    then 0x03
    else if leb bw_hz 125000
    then 0x04
    else if leb bw_hz 250000
    then 0x05
    else 0x06

unfoldable pub cr_to_param : ℕ → ℕ
cr_to_param cr = if leb cr 5 then 1 else if leb cr 6 then 2 else if leb cr 7 then 3 else 4

-- The bytes of `RADIO_SET_RFFREQUENCY`.
unfoldable pub rf_bytes : ℕ → List ℕ
rf_bytes rf = u8 (rf >>> 24) ∷ u8 (rf >>> 16) ∷ u8 (rf >>> 8) ∷ u8 rf ∷ []

-- The bytes of `RADIO_SET_MODULATIONPARAMS`.
unfoldable pub modulation_bytes : ℕ → ℕ → ℕ → List ℕ
modulation_bytes sf bw_hz cr =
    sf ∷ bw_to_param bw_hz ∷ cr_to_param cr ∷ (if leb 11 sf && leb bw_hz 125000 then 1 else 0) ∷ []

-- The bytes of `RADIO_SET_PACKETPARAMS` for a payload length.
unfoldable pub packet_bytes : ℕ → List ℕ
packet_bytes len = u8 (16 >>> 8) ∷ u8 16 ∷ 0x00 ∷ u8 len ∷ 0x01 ∷ 0x00 ∷ []

abbrev pub set_standby : HalCall
set_standby = exec_set_cmd radio_set_standby (0x00 ∷ [])

abbrev pub clear_irqs : HalCall
clear_irqs = exec_set_cmd radio_clr_irqstatus (0xff ∷ 0xff ∷ [])

abbrev pub set_rx : HalCall
set_rx = exec_set_cmd radio_set_rx (0xff ∷ 0xff ∷ 0xff ∷ [])

abbrev pub set_tx : HalCall
set_tx = exec_set_cmd radio_set_tx (0x02 ∷ 0xee ∷ 0x00 ∷ [])

-- `last_rssi` from a byte of the packet's status.
unfoldable pub rssi_of : ℕ → ℕ
rssi_of x = if ltb x 128 then (2 ^ 16 - x / 2) % 2 ^ 16 else (256 - x) / 2

-- `last_snr` from a byte of the packet's status.
unfoldable pub snr_of : ℕ → ℕ
snr_of x = if ltb x 128 then x / 4 else (256 - (256 - x) / 4) % 256
