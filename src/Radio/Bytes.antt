-- ===== src/Radio/Bytes.antt =====
-- A poll of the radio puts bytes into the buffer.
use meshtastic_mini.Base.{ℕ, ◌≡◌, refl, arith, Bool-cases, inl, inr, not, ◌||◌, ◌==◌, ltb, some}
use meshtastic_mini.Base.{List, [], ◌∷◌, length, take, blit, get_or, length-take, AllBytes}
use meshtastic_mini.Base.{AllBytes-take, AllBytes-blit, false}
use meshtastic_mini.Radio.{Hal, HalCall, Radio, calls, read_buffer, disable_irq, exec_get_cmd}
use meshtastic_mini.Radio.{radio_get_rxbufferstatus}
use meshtastic_mini.Radio.Driver.{rx_take, rx_fetch, radio_rx_poll}
use mathlib.Core.Path.{subst}
use meshtastic_mini.Radio.Receive.{ReadsAll}

copied-AllBytes : (dst src : List ℕ) → AllBytes src → AllBytes (take (length src) (blit dst 0 src))
copied-AllBytes [] [] v = tt
copied-AllBytes [] (x ∷ xs) v = tt
copied-AllBytes (d ∷ ds) [] v = tt
copied-AllBytes (d ∷ ds) (x ∷ xs) v = (v.0, copied-AllBytes ds xs v.1)

-- Over a HAL that reads bytes, and as many from the radio's buffer as it is asked for.
module _ (hal : Hal) (bytes_read : (l : List HalCall) → AllBytes (hal.bytes l))
    (all : ReadsAll hal) where
  rx_take-AllBytes :
      (buf : List ℕ) (n : ℕ) (s : Radio)
      → length (hal.bytes s.log) ≡ n
      → AllBytes buf
      → AllBytes (rx_take hal buf n s).1
  unfolding rx_take
  rx_take-AllBytes buf n s enough v =
      let packet = take n (hal.bytes s.log) in
      let bytes : AllBytes packet = AllBytes-take n (hal.bytes s.log) (bytes_read s.log) in
      let size : length packet ≡ n = omega (arith, length-take n (hal.bytes s.log)) in
      AllBytes-blit buf 0 (take n (blit s.rx_buf 0 packet)) v (
        subst (λ k. AllBytes (take k (blit s.rx_buf 0 packet))) size
          (copied-AllBytes s.rx_buf packet bytes))

  rx_fetch-AllBytes :
      (buf : List ℕ) (max_len : ℕ) (s : Radio)
      → AllBytes buf
      → AllBytes (rx_fetch hal buf max_len s).1
  unfolding rx_fetch calls
  rx_fetch-AllBytes buf max_len s v =
      let asked =
        calls (disable_irq ∷ exec_get_cmd radio_get_rxbufferstatus 2 ∷ [])
          (record s { rx_pending = false }) in
      let off = get_or (hal.bytes asked.log) 1 0 in
      let n = get_or (hal.bytes asked.log) 0 0 in
      let read = calls (read_buffer off n ∷ []) asked in
      elim (Bool-cases (hal.ok asked.log)) [
        | inr failed ↦ rw failed v
        | inl known ↦ elim (Bool-cases (n == 0 || ltb max_len n || ltb 256 n)) [
          | inl bad ↦ rw (known, bad) v
          | inr good ↦ elim (Bool-cases (hal.ok read.log)) [
            | inr failed ↦ rw (known, good, failed) v
            | inl done ↦
                rw (known, good, done) (rx_take-AllBytes buf n read (all off n asked.log) v)
          ]
        ]
      ]

  -- A buffer of bytes stays one.
  pub radio_rx_poll-AllBytes :
      (buf : List ℕ) (max_len : ℕ) (s : Radio)
      → AllBytes buf
      → (out : List ℕ) × ((radio_rx_poll hal (some buf) max_len s).1 ≡ some out) × AllBytes out
  unfolding radio_rx_poll
  radio_rx_poll-AllBytes buf max_len s v = elim (Bool-cases (max_len == 0 || not s.rx_pending)) [
    | inl idle ↦ rw idle (buf, refl, v)
    | inr busy ↦ rw busy ((rx_fetch hal buf max_len s).1, refl, rx_fetch-AllBytes buf max_len s v)
  ]
