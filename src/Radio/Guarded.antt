-- ===== src/Radio/Guarded.antt =====
-- The driver's own rule: while it talks to the radio, the radio's interrupt is off, since the
-- handler talks to the radio as well.
use meshtastic_mini.Base.{ℕ, zero, suc, ◌≡◌, refl, Bool, true, false, not, ◌&&◌, ltb, leb, length}
use meshtastic_mini.Base.{arith, if◌then◌else◌, Option, none, some, List, [], ◌∷◌, ◌++◌, ◌≤◌}
use meshtastic_mini.Radio.{HalCall, exec_set_cmd, exec_get_cmd, write_registers, read_register}
use meshtastic_mini.Radio.{write_buffer, read_buffer, Hal, Radio, calls, get_tick, enable_irq}
use meshtastic_mini.Radio.{radio_get_irqstatus}
use meshtastic_mini.Radio.Driver.{tx_wait, tx_load, tx_send, tx_finish, tx_complete, radio_tx}
use meshtastic_mini.Radio.Driver.{apply_pa_tx_params}
use meshtastic_mini.Radio.RfCtrl.{rf_ctrl_set_off, rf_ctrl_set_rx, rf_ctrl_set_tx}
use meshtastic_mini.Radio.Listening.{irq_on, Clock, tx_returns}
use mathlib.Core.Path.{subst}

-- The calls that talk to the radio.
unfoldable pub uses_spi : HalCall → Bool
uses_spi (exec_set_cmd c args) = true
uses_spi (exec_get_cmd c n) = true
uses_spi (write_registers a b) = true
uses_spi (read_register a) = true
uses_spi (write_buffer off b) = true
uses_spi (read_buffer off n) = true
uses_spi _ = false

-- No call of a history, behind its first `since` ones, talked to the radio while the interrupt was
-- on.
unfoldable pub guarded : ℕ → List HalCall → Bool
guarded since [] = true
guarded since (c ∷ l) = not (uses_spi c && (irq_on l && leb since (length l))) && guarded since l

-- So it is if there are no calls behind them.
pub guarded_from : (since : ℕ) (l : List HalCall) → length l ≤ since → guarded since l ≡ true
unfolding guarded
guarded_from since [] few = refl
guarded_from since (c ∷ l) few =
    let early : leb since (length l) ≡ false = ground arith in
    let rest = guarded_from since l (omega arith) in ground arith

-- A history in which the interrupt is off, and was whenever the radio was talked to.
abbrev IsClosed : ℕ → List HalCall → Type 0
IsClosed since l = (irq_on l ≡ false) × (guarded since l ≡ true)

load-IsClosed :
    (since : ℕ) (hal : Hal) (payload : List ℕ) (len : ℕ) (s : Radio)
    → guarded since s.log ≡ true
    → IsClosed since (tx_load hal payload len s).log
unfolding tx_load calls apply_pa_tx_params rf_ctrl_set_off irq_on guarded uses_spi
load-IsClosed since hal payload len s g = (refl, g)

send-IsClosed : (since : ℕ) (s : Radio) → IsClosed since s.log → IsClosed since (tx_send s).log
unfolding tx_send calls rf_ctrl_set_tx irq_on guarded uses_spi
send-IsClosed since s (off, g) = (off, rw off g)

finish-guarded :
    (since : ℕ) (s : Radio) → IsClosed since s.log → guarded since (tx_finish s).log ≡ true
unfolding tx_finish calls rf_ctrl_set_off rf_ctrl_set_rx irq_on guarded uses_spi
finish-guarded since s (off, g) = rw off g

-- A property of the state that a call returns, if it does.
pub data IfReturns (P : Radio → Type 0) : Option (Radio × Bool) → Type 0 where
  never : IfReturns P none
  returns : {r : Radio} {result : Bool} → P r → IfReturns P (some (r, result))

pub returned_state :
    {P : Radio → Type 0} {r : Radio} {result : Bool} → IfReturns P (some (r, result)) → P r
returned_state (returns p) = p

pub IfReturns-if :
    {P : Radio → Type 0} {a b : Option (Radio × Bool)} (c : Bool)
    → IfReturns P a
    → IfReturns P b
    → IfReturns P (if c then a else b)
IfReturns-if true x y = x
IfReturns-if false x y = y

failed_load :
    (since : ℕ) (s : Radio)
    → guarded since s.log ≡ true
    → guarded since (calls (enable_irq ∷ []) s).log ≡ true
unfolding calls guarded uses_spi
failed_load since s g = g

failed_send :
    (since : ℕ) (s : Radio)
    → guarded since s.log ≡ true
    → guarded since (calls (rf_ctrl_set_rx ++ enable_irq ∷ []) s).log ≡ true
unfolding calls guarded uses_spi rf_ctrl_set_rx
failed_send since s g = g

module _ (hal : Hal) (since : ℕ) where
  tx_wait-IsClosed :
      (fuel t0 : ℕ) (s : Radio)
      → IsClosed since s.log
      → IfReturns (λ r. IsClosed since r.log) (tx_wait hal fuel t0 s)
  unfolding tx_wait calls
  tx_wait-IsClosed zero t0 s c = never
  tx_wait-IsClosed (suc fuel) t0 s (off, g) =
      let timed : Radio = record s { log = get_tick ∷ s.log } in
      let asked : Radio = record timed { log = exec_get_cmd radio_get_irqstatus 2 ∷ timed.log } in
      let still : IsClosed since timed.log = unfold irq_on guarded uses_spi in (off, g) in
      let polled : IsClosed since asked.log = unfold irq_on guarded uses_spi in (off, rw off g) in
      IfReturns-if _ (IfReturns-if _ (returns polled) (tx_wait-IsClosed fuel t0 asked polled))
        (returns still)

  tx_complete-guarded :
      (fuel : ℕ) (s : Radio)
      → IsClosed since s.log
      → IfReturns (λ r. guarded since r.log ≡ true) (tx_complete hal fuel s)
  unfolding tx_complete calls
  tx_complete-guarded fuel s (off, g) =
      let started : Radio = record s { log = get_tick ∷ s.log } in
      let ticked : IsClosed since started.log = unfold irq_on guarded uses_spi in (off, g) in
      finish (tx_wait hal fuel (hal.tick started.log) started)
        (tx_wait-IsClosed fuel (hal.tick started.log) started ticked)
    where
      finish :
          (o : Option (Radio × Bool))
          → IfReturns (λ r. IsClosed since r.log) o
          → IfReturns
              (λ r. guarded since r.log ≡ true)
              (elim o [ none ↦ none | some (polled, tx_ok) ↦ some (tx_finish polled, tx_ok) ])
      finish none c = never
      finish (some (r, result)) (returns c) = returns (finish-guarded since r c)

  pub tx-guarded :
      (payload : List ℕ) (len fuel : ℕ) (s : Radio)
      → guarded since s.log ≡ true
      → IfReturns (λ r. guarded since r.log ≡ true) (radio_tx hal fuel (some payload) len s)
  unfolding radio_tx
  tx-guarded payload len fuel s g =
      let (off, g1) = load-IsClosed since hal payload len s g in
      let (off', g2) = send-IsClosed since (tx_load hal payload len s) (off, g1) in
      IfReturns-if (ltb 256 len) (returns g) (
        IfReturns-if (not (hal.ok (tx_load hal payload len s).log))
          (returns (failed_load since _ g1))
          (IfReturns-if (not (hal.ok (tx_send (tx_load hal payload len s)).log))
            (returns (failed_send since _ g2))
            (tx_complete-guarded fuel (tx_send (tx_load hal payload len s)) (off', g2))))

-- With a clock behind the tick and fuel for each microsecond of five seconds, `tx` of a packet of at
-- most 256 bytes returns, and has talked to the radio only with the interrupt off, if that was so
-- before.
pub tx_keeps_guard :
    (hal : Hal)
    → Clock hal
    → (payload : List ℕ) (len fuel since : ℕ) (s : Radio) → len ≤ 256
    → 5001002 ≤ fuel
    → guarded since s.log ≡ true
    → (s' : Radio) × (tx_ok : Bool) × (radio_tx hal fuel (some payload) len s ≡ some (s', tx_ok))
      × (guarded since s'.log ≡ true)
tx_keeps_guard hal clock payload len fuel since s small enough g =
    let (s', tx_ok, e, left) = tx_returns hal clock payload len fuel s small enough in
    (
      s',
      tx_ok,
      e,
      returned_state (
          subst (IfReturns (λ r. guarded since r.log ≡ true)) e
            (tx-guarded hal since payload len fuel s g)),
    )
