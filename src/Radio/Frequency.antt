-- ===== src/Radio/Frequency.antt =====
-- The register that the driver computes for a frequency, and the signal strength it reads.
use meshtastic_mini.Base.{ℕ, ◌+◌, ◌*◌, ◌/◌, ◌%◌, ◌^◌, ◌≤◌, ◌<◌, ◌≡◌, ◌↔◌, arith, get_or, List}
use meshtastic_mini.Radio.Values.{freq_to_rf_reg, rf_bytes, rssi_of}

-- The big-endian value of the four bytes of the frequency command.
abbrev pub register_of : List ℕ → ℕ
register_of b = get_or b 0 0 * 2 ^ 24 + get_or b 1 0 * 2 ^ 16 + get_or b 2 0 * 2 ^ 8 + get_or b 3 0

-- Up to 4 GHz, the bytes sent for a frequency are those of the largest register that does not stand
-- for more than it, in steps of 32 MHz / 2 ^ 25: it is met from below within one step.
pub rf_bytes-freq_to_rf_reg :
    (freq_hz : ℕ)
    → freq_hz ≤ 4000000000
    → (register_of (rf_bytes (freq_to_rf_reg freq_hz)) * 32000000 ≤ freq_hz * 2 ^ 25)
      × (freq_hz * 2 ^ 25 < (register_of (rf_bytes (freq_to_rf_reg freq_hz)) + 1) * 32000000)
unfolding freq_to_rf_reg rf_bytes
rf_bytes-freq_to_rf_reg freq_hz small = (omega arith, omega arith)

-- The chip reports a signal of -x/2 dBm by the byte x. The driver's number is right, in 16 bits of
-- two's complement, exactly for x below 128: a weaker signal than -64 dBm is read as one above 0.
pub rssi_right_iff : (x : ℕ) → x < 256 → ((rssi_of x + x / 2) % 2 ^ 16 ≡ 0) ↔ (x < 128)
unfolding rssi_of
rssi_right_iff x byte = ground arith
