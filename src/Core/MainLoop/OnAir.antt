-- ===== src/Core/MainLoop/OnAir.antt =====
-- The main loop on the STM32WL driver: the radio is talked to with its interrupt off, and listens
-- again after every round.
mod Tests
use mathlib.Core.Path.{subst}
use meshtastic_mini.Base.{ℕ, ◌+◌, ◌≤◌, ◌<◌, ◌≡◌, refl, sym, ap, ◌∙◌, arith, Bool, true, false, ◌&&◌}
use meshtastic_mini.Base.{Option, none, some, List, ◌∷◌, length, Run, Returns, Ends, Ends-weaken}
use meshtastic_mini.Base.{Ends-Returns}
use meshtastic_mini.Crypto.{Cryp}
use meshtastic_mini.Radio.{Hal, HalCall, Radio}
use meshtastic_mini.Radio.Driver.{radio_tx, tx_load, tx_send}
use meshtastic_mini.Radio.Listening.{Clock, listening, irq_on, tx_returns, tx_listens, Obeys}
use meshtastic_mini.Radio.Listening.{Left-irq_on}
use meshtastic_mini.Radio.Guarded.{guarded, guarded_from, tx_keeps_guard}
use meshtastic_mini.Radio.Polling.{IsCareful, rx_poll-IsCareful, rx_poll-listens}
use meshtastic_mini.Radio.Values.{set_standby, set_rx}
use meshtastic_mini.Radio.Phy.{ops_of, stm32wl_ops}
use meshtastic_mini.Core.SerialIo.Queue.{waiting}
use meshtastic_mini.Core.MainLoop.{Node}
use meshtastic_mini.Core.MainLoop.Receive.{mesh_mini_loop}
use meshtastic_mini.Core.MainLoop.Invariant.{IsNode}
use meshtastic_mini.Core.MainLoop.Driver.{stm32wl_ops-IsDriver, stm32wl_ops-IsPrompt}
use meshtastic_mini.Core.MainLoop.Polls.{total}
use meshtastic_mini.Core.MainLoop.Ends.{IsPrompt}
use meshtastic_mini.Core.MainLoop.Driven.{KeepsDriver, mesh_mini_loop-Has}
use meshtastic_mini.Core.MainLoop.Rounds.{IsUnderstood, mesh_mini_loop-Ends}

radio_of : Radio → Option (Radio × Bool) → Radio
radio_of s none = s
radio_of s (some r) = r.0

-- A call that has one result has no other.
same_radio :
    {o : Option (Radio × Bool)} (r : Radio × Bool) (s : Radio) (b : Bool)
    → o ≡ some r
    → o ≡ some (s, b)
    → s ≡ r.0
unfolding radio_of
same_radio r s b e e' = ap (radio_of s) (sym e' ∙ e)

module _ (hal : Hal) (clock : Clock hal) (hal_fuel : ℕ) (in_time : 5001002 ≤ hal_fuel) where
  IsCareful-KeepsDriver : (since : ℕ) → KeepsDriver (stm32wl_ops hal hal_fuel) (IsCareful since)
  unfolding stm32wl_ops
  IsCareful-KeepsDriver since = record {
    sends = λ buf len s r small v e.
        let (s', b, e', left) = tx_returns hal clock buf len hal_fuel s small in_time in
        let (t, c, e'', g) =
          tx_keeps_guard hal clock buf len hal_fuel since s small in_time v.careful in
        record {
          careful = ap (λ q. guarded since q.log) (sym (same_radio r t c e e'')) ∙ g;
          irq_again = ap (λ q. irq_on q.log) (sym (same_radio r s' b e e')) ∙ Left-irq_on left;
        };
    polls = λ buf s v. rx_poll-IsCareful hal since buf 256 s v;
  }

  listening-KeepsDriver :
      ((l : List HalCall) → hal.ok l ≡ true)
      → KeepsDriver (stm32wl_ops hal hal_fuel) (λ s. listening hal s.log ≡ true)
  unfolding stm32wl_ops
  listening-KeepsDriver ok = record {
    sends = λ buf len s r small v e.
        let obeys : Obeys hal = record {
          stands_by = λ l. ok (set_standby ∷ l);
          receives = λ l. ok (set_rx ∷ l);
        } in
        let (s', b, e', on, hears) = tx_listens hal clock obeys buf len hal_fuel s small in_time in
        let loaded = tx_load hal buf len s in
        let heard : (hal.ok loaded.log && hal.ok (tx_send loaded).log) ≡ true =
          rw (ok loaded.log, ok (tx_send loaded).log) refl in
        ap (λ q. listening hal q.log) (sym (same_radio r s' b e e')) ∙ hears ∙ heard;
    polls = λ buf s v. rx_poll-listens hal ok buf 256 s v;
  }

  module _ {cryp : Cryp} (rounds fuel now : ℕ) (coming : List (List ℕ)) (n : Node cryp Radio)
      (sound : IsNode n) (driver : ops_of n.lora.s_ops ≡ stm32wl_ops hal hal_fuel)
      (enough : 16 ≤ fuel) (few : length (waiting n.ring) + total coming < rounds)
      (understood : IsUnderstood rounds fuel now coming n) where
    returns : Ends IsNode (mesh_mini_loop rounds fuel now coming n)
    returns =
        mesh_mini_loop-Ends rounds fuel now coming n sound
          (subst IsPrompt (sym driver) (stm32wl_ops-IsPrompt hal hal_fuel clock in_time)) enough few
          understood

    -- A round of the main loop on the STM32WL driver, over a HAL with a clock behind its tick (each call
    -- takes a microsecond to a second) that may fail as it likes, with fuel for each microsecond of
    -- five seconds and for the 16 blocks of a packet, and with more polls of the UART than there are
    -- bytes that wait or come in: for a sound node with the radio's interrupt on, if the decoder comes to
    -- the end of a packet that is received in the round, the round returns, the node is sound, the
    -- interrupt is on again, and no call of the round has talked to the radio while it was on.
    pub round-IsCareful :
        irq_on n.lora.driver.log ≡ true
        → Ends
            (λ n'. IsNode n' × IsCareful (length n.lora.driver.log) n'.lora.driver)
            (mesh_mini_loop rounds fuel now coming n)
    round-IsCareful on =
        let since = length n.lora.driver.log in
        let first : IsCareful since n.lora.driver = record {
          careful = guarded_from since n.lora.driver.log (omega arith);
          irq_again = on;
        } in
        Ends-weaken
          (Ends-Returns returns (
            mesh_mini_loop-Has (stm32wl_ops hal hal_fuel) (IsCareful since)
              (IsCareful-KeepsDriver since) rounds fuel now coming n
              (stm32wl_ops-IsDriver hal hal_fuel) (driver, first)))
          λ n' k. (k.0, k.1.1)

    -- A round of the main loop on the STM32WL driver, over a HAL whose calls all succeed, with a clock
    -- behind its tick (each call takes a microsecond to a second), fuel for each microsecond of five
    -- seconds and for the 16 blocks of a packet, and more polls of the UART than there are bytes that
    -- wait or come in: for a sound node that listens, if the decoder comes to the end of a packet that is
    -- received in the round, the round returns, the node is sound, and it listens again.
    pub round_listens :
        ((l : List HalCall) → hal.ok l ≡ true)
        → listening hal n.lora.driver.log ≡ true
        → Ends
            (λ n'. IsNode n' × (listening hal n'.lora.driver.log ≡ true))
            (mesh_mini_loop rounds fuel now coming n)
    round_listens ok hears =
        Ends-weaken
          (Ends-Returns returns (
            mesh_mini_loop-Has (stm32wl_ops hal hal_fuel) (λ s. listening hal s.log ≡ true)
              (listening-KeepsDriver ok) rounds fuel now coming n
              (stm32wl_ops-IsDriver hal hal_fuel) (driver, hears)))
          λ n' k. (k.0, k.1.1)
