-- ===== src/Radio/Listening.antt =====
-- What the driver's calls leave of the radio: its mode, the antenna switch and the interrupt.
use meshtastic_mini.Base.{ℕ, zero, suc, ◌+◌, ◌-◌, ◌/◌, ◌%◌, ◌^◌, ◌≤◌, ◌<◌, ◌≡◌, refl, sym, Bool}
use meshtastic_mini.Base.{true, false, not, ◌&&◌, ◌==◌, ltb, if◌then◌else◌, Bool-cases, inl, inr}
use meshtastic_mini.Base.{Option, some, List, [], ◌∷◌, ◌++◌, arith, ltb-false, ltb→lt}
use meshtastic_mini.Radio.{Command, radio_set_standby, radio_set_rx, radio_set_tx, HalCall}
use meshtastic_mini.Radio.{exec_set_cmd, write_pin, disable_irq, enable_irq, Hal, Radio, calls}
use meshtastic_mini.Radio.{get_tick, exec_get_cmd, radio_get_irqstatus}
use meshtastic_mini.Radio.Driver.{tx_wait, tx_load, tx_send, tx_finish, tx_complete, radio_tx}
use meshtastic_mini.Radio.Driver.{apply_pa_tx_params}
use meshtastic_mini.Radio.Values.{set_standby, set_rx}
use meshtastic_mini.Radio.RfCtrl.{rf_ctrl_set_off, rf_ctrl_set_rx, rf_ctrl_set_tx}

pub data Mode : Type 0 where
  standby : Mode
  receiving : Mode
  sending : Mode

-- The mode that a command puts the radio in, if the HAL accepts it.
unfoldable pub mode_after : Command → Bool → Mode → Mode
mode_after radio_set_standby accepted m = if accepted then standby else m
mode_after radio_set_rx accepted m = if accepted then receiving else m
mode_after radio_set_tx accepted m = if accepted then sending else m
mode_after _ accepted m = m

-- The mode after a history of calls.
unfoldable pub mode : Hal → List HalCall → Mode
mode hal [] = standby
mode hal (exec_set_cmd c args ∷ l) = mode_after c (hal.ok (exec_set_cmd c args ∷ l)) (mode hal l)
mode hal (_ ∷ l) = mode hal l

-- The level of a pin of port A.
unfoldable pub pin : ℕ → List HalCall → Bool
pin n [] = false
pin n (write_pin m v ∷ l) = if m == n then v else pin n l
pin n (_ ∷ l) = pin n l

-- Whether the radio's interrupt is enabled.
unfoldable pub irq_on : List HalCall → Bool
irq_on [] = false
irq_on (enable_irq ∷ l) = true
irq_on (disable_irq ∷ l) = false
irq_on (_ ∷ l) = irq_on l

unfoldable pub is_receiving : Mode → Bool
is_receiving receiving = true
is_receiving _ = false

-- The antenna is switched to the receiver, and the radio receives.
unfoldable pub listening : Hal → List HalCall → Bool
listening hal l = pin 4 l && not (pin 5 l) && is_receiving (mode hal l)

-- A clock behind `HAL_GetTick`, in microseconds: a call takes a microsecond to a second.
pub record Clock (hal : Hal) : Type 0 where
  pub micros : List HalCall → ℕ
  pub tick_is : (l : List HalCall) → hal.tick l ≡ micros l / 1000 % 2 ^ 32
  pub goes_on : (c : HalCall) (l : List HalCall) → micros l < micros (c ∷ l)
  pub in_time : (c : HalCall) (l : List HalCall) → micros (c ∷ l) ≤ micros l + 1000000

either :
    (r : Radio × Bool) {o : Option (Radio × Bool)} (c : Bool)
    → (s' : Radio) × (tx_ok : Bool) × (o ≡ some (s', tx_ok))
    → (s' : Radio) × (tx_ok : Bool) × ((if c then some r else o) ≡ some (s', tx_ok))
either r true e = (r.0, r.1, refl)
either r false e = e

over_time :
    (a b : ℕ)
    → a ≤ b
    → b ≤ a + 8000000
    → (b / 1000 % 2 ^ 32 + 2 ^ 32 - a / 1000 % 2 ^ 32) % 2 ^ 32 < 4000
    → b < a + 4001000
over_time a b order near early = omega arith

module _ (hal : Hal) (clock : Clock hal) where
  -- The polling loop ends in time, with at least as much fuel as there are microseconds left.
  tx_wait_ends :
      (fuel t0 start : ℕ) (s : Radio)
      → t0 ≡ start / 1000 % 2 ^ 32
      → start ≤ clock.micros s.log
      → clock.micros s.log ≤ start + 5001000
      → start + 5001002 ≤ clock.micros s.log + fuel
      → (s' : Radio) × (tx_ok : Bool) × (tx_wait hal fuel t0 s ≡ some (s', tx_ok))
  unfolding tx_wait calls
  tx_wait_ends zero t0 start s e order near enough = absurd (omega arith)
  tx_wait_ends (suc fuel) t0 start s e order near enough =
      let timed = get_tick ∷ s.log in
      let asked = exec_get_cmd radio_get_irqstatus 2 ∷ timed in
      let later = clock.goes_on get_tick s.log in
      let soon = clock.in_time get_tick s.log in
      let later' = clock.goes_on (exec_get_cmd radio_get_irqstatus 2) timed in
      let soon' = clock.in_time (exec_get_cmd radio_get_irqstatus 2) timed in
      let elapsed = (hal.tick timed + 2 ^ 32 - t0) % 2 ^ 32 in
      elim (Bool-cases (ltb elapsed 4000)) [
        | inl early ↦
            let more : clock.micros timed < start + 4001000 =
              over_time start (clock.micros timed) (omega arith) (omega arith)
                (rw (sym (clock.tick_is timed), sym e) (ltb→lt elapsed 4000 early)) in
            let later_round =
              tx_wait_ends fuel t0 start (record s { log = asked }) e (omega arith) (omega arith)
                (omega arith) in
            rw early (either _ _ later_round)
        | inr late ↦ (record s { log = timed }, false, rw late refl)
      ]

  tx_complete_ends :
      (fuel : ℕ) (s : Radio)
      → 5001002 ≤ fuel
      → (s' : Radio) × (tx_ok : Bool) × (tx_complete hal fuel s ≡ some (tx_finish s', tx_ok))
  unfolding tx_complete calls
  tx_complete_ends fuel s enough =
      let s1 = calls (get_tick ∷ []) s in
      let (s', tx_ok, e) =
        tx_wait_ends fuel (hal.tick s1.log) (clock.micros s1.log) s1 (clock.tick_is s1.log)
          (omega arith) (omega arith) (omega arith) in
      (s', tx_ok, rw (tx_complete, e) refl)

-- How `tx` of a packet of at most 256 bytes can leave the radio: the buffer could not be written, the
-- packet could not be sent, or the driver polled for the end of it.
pub data Left (hal : Hal) (payload : List ℕ) (len : ℕ) (s : Radio) : Radio → Type 0 where
  unwritten :
      hal.ok (tx_load hal payload len s).log ≡ false
      → Left hal payload len s (calls (enable_irq ∷ []) (tx_load hal payload len s))
  unsent :
      hal.ok (tx_load hal payload len s).log ≡ true
      → hal.ok (tx_send (tx_load hal payload len s)).log ≡ false
      → Left hal payload len s
          (calls (rf_ctrl_set_rx ++ enable_irq ∷ []) (tx_send (tx_load hal payload len s)))
  polled :
      hal.ok (tx_load hal payload len s).log ≡ true
      → hal.ok (tx_send (tx_load hal payload len s)).log ≡ true
      → (last : Radio) → Left hal payload len s (tx_finish last)

-- With a clock behind the tick, and fuel for each microsecond of five seconds, `tx` returns.
pub tx_returns :
    (hal : Hal)
    → Clock hal
    → (payload : List ℕ) (len fuel : ℕ) (s : Radio) → len ≤ 256
    → 5001002 ≤ fuel
    → (s' : Radio) × (tx_ok : Bool) × (radio_tx hal fuel (some payload) len s ≡ some (s', tx_ok))
      × Left hal payload len s s'
unfolding radio_tx
tx_returns hal clock payload len fuel s small enough =
    let loaded = tx_load hal payload len s in
    let sent = tx_send loaded in
    let fits : ltb 256 len ≡ false = ltb-false 256 len small in
    elim (Bool-cases (hal.ok loaded.log)) [
      | inr failed ↦ (_, false, rw (fits, failed) refl, unwritten failed)
      | inl written ↦ elim (Bool-cases (hal.ok sent.log)) [
        | inr failed ↦ (_, false, rw (fits, written, failed) refl, unsent written failed)
        | inl started ↦
            let (last, tx_ok, e) = tx_complete_ends hal clock fuel sent enough in
            (tx_finish last, tx_ok, rw (fits, written, started) e, polled written started last)
      ]
    ]

-- However `tx` leaves the radio, its interrupt is on.
pub Left-irq_on :
    {hal : Hal} {payload : List ℕ} {len : ℕ} {s s' : Radio}
    → Left hal payload len s s'
    → irq_on s'.log ≡ true
unfolding calls irq_on rf_ctrl_set_rx tx_finish rf_ctrl_set_off
Left-irq_on (unwritten failed) = refl
Left-irq_on (unsent written failed) = refl
Left-irq_on (polled written started last) = refl

-- The radio goes to standby and to reception whenever it is told to.
pub record Obeys (hal : Hal) : Type 0 where
  pub stands_by : (l : List HalCall) → hal.ok (set_standby ∷ l) ≡ true
  pub receives : (l : List HalCall) → hal.ok (set_rx ∷ l) ≡ true

finish_listens : (hal : Hal) → Obeys hal → (s : Radio) → listening hal (tx_finish s).log ≡ true
unfolding tx_finish calls listening mode mode_after pin is_receiving rf_ctrl_set_rx rf_ctrl_set_off
finish_listens hal obeys s = rw (obeys.receives _) refl

load_deaf :
    (hal : Hal) (payload : List ℕ) (len : ℕ) (s : Radio)
    → listening hal (enable_irq ∷ (tx_load hal payload len s).log) ≡ false
unfolding tx_load calls listening pin rf_ctrl_set_off apply_pa_tx_params
load_deaf hal payload len s = refl

load_stands_by :
    (hal : Hal)
    → Obeys hal
    → (payload : List ℕ) (len : ℕ) (s : Radio) → mode hal (tx_load hal payload len s).log ≡ standby
unfolding tx_load calls mode mode_after rf_ctrl_set_off apply_pa_tx_params
load_stands_by hal obeys payload len s = rw (obeys.stands_by (disable_irq ∷ s.log)) refl

-- A radio in standby that does not take the command to send stays in it.
send_deaf :
    (hal : Hal) (s : Radio)
    → mode hal s.log ≡ standby
    → hal.ok (tx_send s).log ≡ false
    → listening hal (calls (rf_ctrl_set_rx ++ enable_irq ∷ []) (tx_send s)).log ≡ false
unfolding tx_send calls listening mode mode_after pin is_receiving rf_ctrl_set_rx rf_ctrl_set_tx
send_deaf hal s still failed = rw (failed, still) refl

-- The write of the buffer and the command to send both succeeded.
abbrev pub went_out : Hal → List ℕ → ℕ → Radio → Bool
went_out hal payload len s =
    let loaded = tx_load hal payload len s in hal.ok loaded.log && hal.ok (tx_send loaded).log

pub Left-listens :
    (hal : Hal)
    → Obeys hal
    → (payload : List ℕ) (len : ℕ) (s s' : Radio) → Left hal payload len s s'
    → listening hal s'.log ≡ went_out hal payload len s
Left-listens hal obeys payload len s s' (unwritten failed) =
    rw failed (unfold calls in load_deaf hal payload len s)
Left-listens hal obeys payload len s s' (unsent written failed) =
    rw (written, failed) (send_deaf hal _ (load_stands_by hal obeys payload len s) failed)
Left-listens hal obeys payload len s s' (polled written started last) =
    rw (written, started) (finish_listens hal obeys last)

-- With a clock behind the tick, fuel for each microsecond of five seconds, and a radio that goes to
-- standby and to reception whenever it is told to, `tx` of a packet of at most 256 bytes returns with
-- the radio's interrupt enabled, and with the radio in reception and the antenna on the receiver
-- exactly if both the write of the buffer and the command to send succeeded: after a failure of one
-- of them the radio no longer listens.
pub tx_listens :
    (hal : Hal)
    → Clock hal
    → Obeys hal
    → (payload : List ℕ) (len fuel : ℕ) (s : Radio) → len ≤ 256
    → 5001002 ≤ fuel
    → (s' : Radio) × (tx_ok : Bool) × (radio_tx hal fuel (some payload) len s ≡ some (s', tx_ok))
      × (irq_on s'.log ≡ true)
      × (listening hal s'.log ≡ went_out hal payload len s)
tx_listens hal clock obeys payload len fuel s small enough =
    let (s', tx_ok, e, left) = tx_returns hal clock payload len fuel s small enough in
    (s', tx_ok, e, Left-irq_on left, Left-listens hal obeys payload len s s' left)
