-- ===== src/Core/Led/Blinks.antt =====
-- The light's rhythm, across the tick's wrap-around.
use meshtastic_mini.Base.{ℕ, suc, ◌+◌, ◌-◌, ◌*◌, ◌%◌, ◌^◌, ◌≤◌, ◌<◌, ◌≡◌, refl, leb, if◌then◌else◌}
use meshtastic_mini.Base.{Bool, true, false, List, [], ◌∷◌, arith, Bool-cases, inl, inr, ap, not}
use meshtastic_mini.Base.{◌∙◌}
use meshtastic_mini.Core.Led.{Led, is_due, led_tick}

-- Two levels of the pin differ.
unfoldable pub differs : Bool → Bool → Bool
differs true b = not b
differs false b = b

differs-not : (a : Bool) → differs a (not a) ≡ true
unfolding differs
differs-not true = refl
differs-not false = refl

differs_self : (a : Bool) → differs a a ≡ false
unfolding differs
differs_self true = refl
differs_self false = refl

-- How often the level of the light's pin changes over calls of `led_tick` after each of the gaps, in
-- milliseconds, from time `t` on.
unfoldable pub toggles : ℕ → List ℕ → Led → ℕ
toggles t [] s = 0
toggles t (gap ∷ gaps) s =
    let after = led_tick ((t + gap) % 2 ^ 32) s in
    let later = toggles (t + gap) gaps after in
    if differs s.pin_high after.pin_high then suc later else later

unfoldable pub total : List ℕ → ℕ
total [] = 0
total (gap ∷ gaps) = gap + total gaps

abbrev pub UpTo : ℕ → List ℕ → Type 0
UpTo d [] = Unit
UpTo d (gap ∷ gaps) = (gap ≤ d) × UpTo d gaps

is_due_iff :
    (t start : ℕ) (s : Led)
    → s.led_last_toggle_ms ≡ start % 2 ^ 32
    → start ≤ t
    → t < start + 2000000
    → is_due (t % 2 ^ 32) s ≡ leb 500 (t - start)
unfolding is_due
is_due_iff t start s e order near =
    let elapsed : (t % 2 ^ 32 + 2 ^ 32 - s.led_last_toggle_ms) % 2 ^ 32 ≡ t - start = omega arith in
    ap (leb 500) elapsed

-- Called at gaps of at most `d` milliseconds, up to 1000000, the level of the light's pin changes every
-- 500 to 500 + d milliseconds: in the time since the last toggle and over all the gaps, `n` changes
-- take at least 500 n and leave less than 500 over (500 + d) n. The time is the real one, which the tick
-- repeats from 0 every 2 ^ 32 milliseconds.
pub toggles_in_time :
    (d t start : ℕ) (gaps : List ℕ) (s : Led)
    → d ≤ 1000000
    → UpTo d gaps
    → s.led_last_toggle_ms ≡ start % 2 ^ 32
    → start ≤ t
    → t < start + 500
    → (toggles t gaps s * 500 ≤ t - start + total gaps)
      × (t - start + total gaps < toggles t gaps s * (500 + d) + 500)
unfolding toggles total led_tick
toggles_in_time d t start [] s small up e order near = (omega arith, omega arith)
toggles_in_time d t start (gap ∷ gaps) s small (first, up) e order near =
    let now = (t + gap) % 2 ^ 32 in
    let due_when = is_due_iff (t + gap) start s e (omega arith) (omega arith) in
    elim (Bool-cases (leb 500 (t + gap - start))) [
      | inl due ↦
          let toggled : Led = record { led_last_toggle_ms = now; pin_high = not s.pin_high } in
          let (low, high) =
            toggles_in_time d (t + gap) (t + gap) gaps toggled small up refl (omega arith)
              (omega arith) in
          let late : 500 ≤ t + gap - start = ground arith in
          rw (due_when ∙ due, differs-not s.pin_high) (omega arith, omega arith)
      | inr early ↦
          let soon : t + gap - start < 500 = ground arith in
          let (low, high) =
            toggles_in_time d (t + gap) start gaps s small up e (omega arith) (omega arith) in
          rw (due_when ∙ early, differs_self s.pin_high) (omega arith, omega arith)
    ]
