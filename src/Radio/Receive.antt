-- ===== src/Radio/Receive.antt =====
-- What `rx_poll` hands to the caller.
use meshtastic_mini.Base.{Bool, ℕ, zero, suc, ◌≤◌, ◌≡◌, refl, ap, ◌∙◌, true, false, not, ◌&&◌, ◌||◌}
use meshtastic_mini.Base.{◌++◌, if◌then◌else◌, ◌==◌, ltb, Bool-cases, inl, inr, some, List, [], ◌∷◌}
use meshtastic_mini.Base.{arith, length, take, drop, blit, get_or, ◌≢◌, length-blit, blit_start}
use meshtastic_mini.Base.{take-append, ap₂}
use mathlib.Core.Path.{subst}
use meshtastic_mini.Radio.{Hal, Radio, calls, HalCall, disable_irq, exec_get_cmd, read_buffer}
use meshtastic_mini.Radio.{enable_irq, clear_pending_irq, radio_get_rxbufferstatus}
use meshtastic_mini.Radio.{radio_get_packetstatus}
use meshtastic_mini.Radio.Driver.{rx_fetch, rx_take, radio_rx_poll, receive_again}
use meshtastic_mini.Radio.Values.{clear_irqs}
use meshtastic_mini.Radio.RfCtrl.{rf_ctrl_set_rx}
use meshtastic_mini.Radio.Listening.{Obeys, irq_on, listening, mode, mode_after, pin, is_receiving}

-- A driver below that reads as many bytes from the buffer as it is asked for.
abbrev pub ReadsAll : Hal → Type 0
ReadsAll hal = (off n : ℕ) (l : List HalCall) → length (hal.bytes (read_buffer off n ∷ l)) ≡ n

-- The history after the question for the packet's length and place, and after its reading.
abbrev pub asked_status : Radio → List HalCall
asked_status s = exec_get_cmd radio_get_rxbufferstatus 2 ∷ disable_irq ∷ s.log

abbrev pub read_packet : Hal → ℕ → Radio → List HalCall
read_packet hal n s = read_buffer (get_or (hal.bytes (asked_status s)) 1 0) n ∷ asked_status s

-- The length that the radio reports, and whether the packet is to be handed over: the report and the
-- packet are read, and it has 1 to 256 bytes, and at most those that the caller takes.
abbrev pub told_length : Hal → Radio → ℕ
told_length hal s = get_or (hal.bytes (asked_status s)) 0 0

abbrev pub has_packet : Hal → ℕ → Radio → Bool
has_packet hal max_len s =
    let n = told_length hal s in
    hal.ok (asked_status s)
    && not (n == 0 || ltb max_len n || ltb 256 n)
    && hal.ok (read_packet hal n s)

-- How a poll of a pending packet leaves the driver and the caller's buffer, with the length it
-- returns: the interrupt is on again, the packet is consumed, and if there is one to be handed over, the
-- length is its length and the buffer begins with it, and if not, the length is 0. Behind it, the buffer
-- is as it was. The radio is in reception if the report was read, and else as it was before.
pub record Polled (hal : Hal) (max_len : ℕ) (before : Radio) (buf : List ℕ) (after : Radio)
    (buf' : List ℕ) (n : ℕ) : Type 0 where
  pub irq_again : irq_on after.log ≡ true
  pub consumed : after.rx_pending ≡ false
  pub whole : length after.rx_buf ≡ length before.rx_buf
  pub result : n ≡ (if has_packet hal max_len before then told_length hal before else 0)
  pub filled : buf' ≡ take n (hal.bytes (read_packet hal n before)) ++ drop n buf
  pub listens : listening hal after.log ≡ hal.ok (asked_status before) || listening hal before.log

copied : (dst src : List ℕ) → length src ≤ length dst → take (length src) (blit dst 0 src) ≡ src
copied dst src room = rw (blit_start dst src room) (take-append src (drop (length src) dst))

take_whole : (l : List ℕ) (n : ℕ) → length l ≡ n → take n l ≡ l
take_whole [] zero e = refl
take_whole [] (suc n) e = refl
take_whole (x ∷ l) zero e = absurd (omega arith)
take_whole (x ∷ l) (suc n) e = ap (λ t. x ∷ t) (take_whole l n (omega arith))

receive_again-state :
    (hal : Hal)
    → Obeys hal
    → (s : Radio)
    → (irq_on (receive_again s).log ≡ true)
      × (listening hal (receive_again s).log ≡ true)
      × ((receive_again s).rx_pending ≡ s.rx_pending)
      × ((receive_again s).rx_buf ≡ s.rx_buf)
unfolding receive_again calls irq_on listening mode mode_after pin is_receiving rf_ctrl_set_rx
receive_again-state hal obeys s = (refl, rw (obeys.receives _) refl, refl, refl)

-- A packet that the caller's buffer is given.
handed_over :
    (buf own b : List ℕ) (n : ℕ)
    → length b ≡ n
    → n ≤ length buf
    → n ≤ length own
    → blit buf 0 (take n (blit own 0 (take n b))) ≡ take n b ++ drop n buf
handed_over buf own b n e room room' =
    let own_copy : take n (blit own 0 b) ≡ b =
      subst (λ k. take k (blit own 0 b) ≡ b) e (copied own b (omega arith)) in
    let copy : blit buf 0 b ≡ b ++ drop n buf =
      subst (λ k. blit buf 0 b ≡ b ++ drop k buf) e (blit_start buf b (omega arith)) in
    rw (take_whole b n e, own_copy) copy

module _ (hal : Hal) (all : ReadsAll hal) (obeys : Obeys hal) (max_len : ℕ) (s : Radio)
    (buf : List ℕ) where
  -- A poll that ends without a packet, behind a report that was read.
  no_packet :
      (t : Radio)
      → hal.ok (asked_status s) ≡ true
      → has_packet hal max_len s ≡ false
      → t.rx_pending ≡ false
      → t.rx_buf ≡ s.rx_buf
      → Polled hal max_len s buf (receive_again t) buf 0
  no_packet t known bad done kept =
      let (on, hears, still, own) = receive_again-state hal obeys t in
      record {
        irq_again = on;
        consumed = still ∙ done;
        whole = ap length (own ∙ kept);
        result = rw bad refl;
        filled = refl;
        listens = rw (known, hears) refl;
      }

  -- A poll whose report could not be read.
  no_report :
      hal.ok (asked_status s) ≡ false
      → Polled hal max_len s buf
          (record s { rx_pending = false; log = enable_irq ∷ clear_pending_irq ∷ asked_status s })
          buf
          0
  unfolding irq_on listening mode pin
  no_report failed = record {
    irq_again = refl;
    consumed = refl;
    whole = refl;
    result = rw failed refl;
    filled = refl;
    listens = rw failed refl;
  }

  packet_in :
      (rated : Radio)
      → has_packet hal max_len s ≡ true
      → rated.rx_pending ≡ false
      → let n = told_length hal s in
        rated.rx_buf ≡ blit s.rx_buf 0 (take n (hal.bytes (read_packet hal n s)))
        → n ≤ length buf
        → n ≤ length s.rx_buf
        → Polled hal max_len s buf (receive_again rated) (blit buf 0 (take n rated.rx_buf)) n
  packet_in rated good done kept room own_room =
      let n = told_length hal s in
      let b = hal.bytes (read_packet hal n s) in
      let (on, hears, still, own) = receive_again-state hal obeys rated in
      let known : hal.ok (asked_status s) ≡ true = ground arith in
      record {
        irq_again = on;
        consumed = still ∙ done;
        whole = ap length (own ∙ kept) ∙ length-blit s.rx_buf 0 (take n b);
        result = rw good refl;
        filled =
            ap (λ l. blit buf 0 (take n l)) kept
            ∙ handed_over buf s.rx_buf b n
                (all (get_or (hal.bytes (asked_status s)) 1 0) n (asked_status s)) room own_room;
        listens = rw (known, hears) refl;
      }

  took_packet :
      (read : Radio)
      → has_packet hal max_len s ≡ true
      → read.log ≡ read_packet hal (told_length hal s) s
      → read.rx_pending ≡ false
      → read.rx_buf ≡ s.rx_buf
      → told_length hal s ≤ length buf
      → told_length hal s ≤ length s.rx_buf
      → let (after, buf', n') = rx_take hal buf (told_length hal s) read in
        Polled hal max_len s buf after buf' n'
  unfolding rx_take calls
  took_packet read good log done same room own_room =
      let n = told_length hal s in
      let kept : blit read.rx_buf 0 (take n (hal.bytes read.log))
          ≡ blit s.rx_buf 0 (take n (hal.bytes (read_packet hal n s))) =
        ap₂ (λ own l. blit own 0 (take n (hal.bytes l))) same log in
      elim (Bool-cases (hal.ok (exec_get_cmd radio_get_packetstatus 3 ∷ clear_irqs ∷ read.log))) [
        | inl rated ↦ rw rated (packet_in _ good done kept room own_room)
        | inr unrated ↦ rw unrated (packet_in _ good done kept room own_room)
      ]

  rx_fetch-Polled :
      max_len ≤ length buf
      → length s.rx_buf ≡ 256
      → let (s', buf', n) = rx_fetch hal buf max_len s in Polled hal max_len s buf s' buf' n
  unfolding rx_fetch calls
  rx_fetch-Polled room own_size =
      let asked =
        calls (disable_irq ∷ exec_get_cmd radio_get_rxbufferstatus 2 ∷ [])
          (record s { rx_pending = false }) in
      let n = get_or (hal.bytes asked.log) 0 0 in
      let read = calls (read_buffer (get_or (hal.bytes asked.log) 1 0) n ∷ []) asked in
      elim (Bool-cases (hal.ok asked.log)) [
        | inr failed ↦ rw failed (no_report failed)
        | inl known ↦ elim (Bool-cases (n == 0 || ltb max_len n || ltb 256 n)) [
          | inl bad ↦ rw (known, bad) (no_packet asked known (rw (known, bad) refl) refl refl)
          | inr good ↦ elim (Bool-cases (hal.ok read.log)) [
            | inr failed ↦
                rw (known, good, failed)
                  (no_packet read known (rw (known, good, failed) refl) refl refl)
            | inl taken ↦
                rw (known, good, taken)
                  (took_packet read (rw (known, good, taken) refl) refl refl refl (ground arith)
                    (ground arith))
          ]
        ]
      ]

-- A poll of a pending packet for at least one byte, over a HAL that reads as many bytes as it is asked
-- for and goes to reception when it is told to, with a buffer of at least `max_len` bytes and the
-- driver's own of 256: if the HAL reads the report and the packet, and the packet has 1 to 256
-- bytes, and at most `max_len`, then the result is its length, and the buffer begins with it, and if
-- not, the result is 0. The rest of the buffer is as it was, the interrupt is on again, the packet is
-- consumed, and the radio is in reception if the report was read, and else as it was before.
pub rx_poll_delivers :
    (hal : Hal) (buf : List ℕ) (max_len : ℕ) (s : Radio)
    → ReadsAll hal
    → Obeys hal
    → max_len ≢ 0
    → max_len ≤ length buf
    → length s.rx_buf ≡ 256
    → s.rx_pending ≡ true
    → (s' : Radio) × (buf' : List ℕ) × (n : ℕ) × (radio_rx_poll hal (some buf) max_len s
        ≡ (s', some buf', n))
      × Polled hal max_len s buf s' buf' n
unfolding radio_rx_poll
rx_poll_delivers hal buf max_len s all obeys some_room room own_size pending =
    let wanted : (max_len == 0) ≡ false = ground arith in
    let (s', buf', n) = rx_fetch hal buf max_len s in
    (
      s',
      buf',
      n,
      rw (wanted, pending) refl,
      rx_fetch-Polled hal all obeys max_len s buf room own_size,
    )
