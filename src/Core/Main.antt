-- ===== src/Core/Main.antt =====
-- firmware/Core/main.c: the start-up, up to the endless loop of `mesh_mini_loop`. The system clock is
-- in Core/Clock, and `HAL_Init` is a call of the HAL without an effect on the model's state.
pub mod Starts
pub mod Tunes
pub mod Ordered
pub mod Typed
mod Tests
use meshtastic_mini.Base.{ℕ, codes}
use meshtastic_mini.Crypto.{Cryp}
use meshtastic_mini.Config.{FlashHal}
use meshtastic_mini.Radio.{Hal, Radio}
use meshtastic_mini.Radio.Phy.{stm32wl_ops}
use meshtastic_mini.Radio.Lora.{Lora, radio_phy_set_ops}
use meshtastic_mini.Core.Uart.{serial_init}
use meshtastic_mini.Core.MainLoop.{Node, puts}
use meshtastic_mini.Core.MainLoop.Receive.{mesh_mini_init}

-- The driver of the radio, with the fuel for its polling loop.
unfoldable pub radio_stm32wl_register : Hal → ℕ → Lora Radio → Lora Radio
radio_stm32wl_register hal fuel l = radio_phy_set_ops (stm32wl_ops hal fuel) l

-- `main`, up to its loop.
unfoldable pub main_start :
    {cryp : Cryp} → Hal → ℕ → (flash : FlashHal) → flash.Flash → Node cryp Radio → Node cryp Radio
main_start hal fuel flash f n =
    let ready = record n {
      uart = serial_init n.uart;
      lora = radio_stm32wl_register hal fuel n.lora;
    } in
    let started = puts (codes "Meshtastic_mini started\r\n") (mesh_mini_init flash f ready) in
    puts (codes "mesh init done, loop\r\n") started
