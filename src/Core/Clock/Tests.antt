-- ===== src/Core/Clock/Tests.antt =====
-- A chip that does at once what it is told.
use meshtastic_mini.Base.{ℕ, List, [], ◌∷◌}
use meshtastic_mini.Core.Clock.{ClockSource, hsi, Chip, LlCall}
use meshtastic_mini.Core.Clock.{flash_set_latency, set_sys_clk_source}

told_latency : List LlCall → ℕ
told_latency [] = 0
told_latency (flash_set_latency n ∷ l) = n
told_latency (_ ∷ l) = told_latency l

told_source : List LlCall → ClockSource
told_source [] = hsi
told_source (set_sys_clk_source c ∷ l) = c
told_source (_ ∷ l) = told_source l

abbrev quick_chip : Chip
quick_chip = record {
  latency = told_latency;
  vos = λ l. 0;
  msi_ready = λ l. 1;
  source = told_source;
}
