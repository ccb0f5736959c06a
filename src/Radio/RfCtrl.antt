-- ===== src/Radio/RfCtrl.antt =====
-- The antenna switch of firmware/Radio/rf_ctrl.c in its default wiring: the pins 4 and 5 of port A.
use meshtastic_mini.Base.{true, false, List, [], ◌∷◌}
use meshtastic_mini.Radio.{HalCall, write_pin, set_up, gpioa_clk_enable, gpio_init}
use meshtastic_mini.Board.{plain_output}

unfoldable pub rf_ctrl_set_off : List HalCall
rf_ctrl_set_off = write_pin 4 false ∷ write_pin 5 false ∷ []

unfoldable pub rf_ctrl_set_rx : List HalCall
rf_ctrl_set_rx = write_pin 4 true ∷ write_pin 5 false ∷ []

unfoldable pub rf_ctrl_set_tx : List HalCall
rf_ctrl_set_tx = write_pin 4 false ∷ write_pin 5 true ∷ []

unfoldable pub rf_ctrl_init : List HalCall
rf_ctrl_init =
    set_up gpioa_clk_enable
    ∷ set_up (gpio_init 4 plain_output)
    ∷ set_up (gpio_init 5 plain_output)
    ∷ rf_ctrl_set_rx
