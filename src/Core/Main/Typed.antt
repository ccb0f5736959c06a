-- ===== src/Core/Main/Typed.antt =====
-- The buffers behind the start-up hold bytes.
use mathlib.Core.Path.{subst}
use meshtastic_mini.Base.{ℕ, sym, ◌∙◌, arith, List, AllBytes, AllBytes-replicate}
use meshtastic_mini.Crypto.{Cryp, Aes}
use meshtastic_mini.Config.{FlashHal}
use meshtastic_mini.Radio.{Hal, HalCall, Radio}
use meshtastic_mini.Radio.Receive.{ReadsAll}
use meshtastic_mini.Radio.Phy.{ops_of}
use meshtastic_mini.Radio.Lora.{Lora, lora_init, radio_phy_set_ops}
use meshtastic_mini.Core.Led.{Led}
use meshtastic_mini.Core.Uart.{Uart}
use meshtastic_mini.Core.MainLoop.Receive.{mesh_mini_init}
use meshtastic_mini.Core.MainLoop.Bytes.{HoldsBytes, PollsBytes}
use meshtastic_mini.Core.MainLoop.TypedLines.{stm32wl_ops-PollsBytes}
use meshtastic_mini.Core.MainLoop.Reachable.{reset_node, tuned-keeps, ready-keeps}
use meshtastic_mini.Core.Main.{main_start, radio_stm32wl_register}

-- From a reset, over a HAL of the radio that reads bytes, and as many as it is asked for.
main_start-HoldsBytes :
    {cryp : Cryp} (hal : Hal) (fuel : ℕ)
    → ((l : List HalCall) → AllBytes (hal.bytes l))
    → ReadsAll hal
    → (flash : FlashHal) (f : flash.Flash) (led : Led) (uart : Uart) (aes : Aes cryp)
      (lora : Lora Radio)
    → HoldsBytes (main_start hal fuel flash f (reset_node led uart aes lora))
unfolding main_start mesh_mini_init radio_stm32wl_register radio_phy_set_ops ops_of
main_start-HoldsBytes hal fuel bytes_read all flash f led uart aes lora =
    let registered = radio_stm32wl_register hal fuel lora in
    record {
      rx_bytes = AllBytes-replicate 256 0 (omega arith);
      tx_bytes = AllBytes-replicate 256 0 (omega arith);
      line_bytes = AllBytes-replicate 200 0 (omega arith);
      ring_bytes = AllBytes-replicate 256 0 (omega arith);
      driver_bytes =
          subst (λ o. PollsBytes (ops_of o))
            (sym (tuned-keeps 0 4 (lora_init registered).0 ∙ ready-keeps registered))
            (stm32wl_ops-PollsBytes hal fuel bytes_read all);
    }
