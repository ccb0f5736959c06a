-- ===== src/Core/Led/Tests.antt =====
-- The light over a second and a half, across the tick's wrap-around.
use meshtastic_mini.Base.{ℕ, ◌+◌, ◌-◌, ◌*◌, ◌^◌, ◌≤◌, ◌<◌, ◌≡◌, refl, true, List, [], ◌∷◌, arith}
use meshtastic_mini.Core.Led.{Led, is_due, led_tick}
use meshtastic_mini.Core.Led.Blinks.{differs, toggles, total, toggles_in_time}

abbrev lit : Led
lit = record { led_last_toggle_ms = 2 ^ 32 - 400; pin_high = true }

abbrev gaps : List ℕ
gaps = 300 ∷ 300 ∷ 300 ∷ 300 ∷ 300 ∷ []

toggles-gaps : toggles (2 ^ 32 - 400) gaps lit ≡ 2
unfolding differs toggles is_due led_tick
toggles-gaps = refl

toggles_in_time_example :
    (toggles (2 ^ 32 - 400) gaps lit * 500 ≤ 2 ^ 32 - 400 - (2 ^ 32 - 400) + total gaps)
    × (2 ^ 32 - 400 - (2 ^ 32 - 400) + total gaps
        < toggles (2 ^ 32 - 400) gaps lit * (500 + 300) + 500)
toggles_in_time_example =
    toggles_in_time 300 (2 ^ 32 - 400) (2 ^ 32 - 400) gaps lit (omega arith) (omega arith) refl
      (omega arith) (omega arith)
