-- ===== src/Core/Uart/Decimal.antt =====
-- What `serial_put_int16` prints is the number.
use meshtastic_mini.Base.{ℕ, zero, suc, ◌+◌, ◌-◌, ◌*◌, ◌/◌, ◌%◌, ◌^◌, ◌≤◌, ◌<◌, ◌≡◌, refl, ap, ◌∙◌}
use meshtastic_mini.Base.{leb, ◌==◌, if◌then◌else◌, List, [], ◌∷◌, arith, length, u8, Bool-cases}
use meshtastic_mini.Base.{inl, inr}
use meshtastic_mini.Core.Uart.{digit_loop, store_loop, decimal, int16_text}

-- The number that digits spell behind `n`.
unfoldable pub value : ℕ → List ℕ → ℕ
value n [] = n
value n (c ∷ s) = value (n * 10 + (c - 48)) s

abbrev pub AllDigits : List ℕ → Type 0
AllDigits [] = Unit
AllDigits (c ∷ s) = ((48 ≤ c) × (c ≤ 57)) × AllDigits s

-- A decimal text with a sign, as an `int16_t` in two's complement.
unfoldable pub read_int16 : List ℕ → ℕ
read_int16 [] = 0
read_int16 (c ∷ s) = if c == 45 then (2 ^ 16 - value 0 s) % 2 ^ 16 else value 0 (c ∷ s)

-- Ten to the number of digits.
abbrev tens : ℕ → ℕ
tens zero = 1
tens (suc n) = 10 * tens n

value-store_loop :
    (left u : ℕ) (rest : List ℕ)
    → u < tens left
    → value 0 (store_loop (digit_loop left u) rest) ≡ value u rest
unfolding digit_loop store_loop value
value-store_loop zero u rest fits = ap (λ k. value k rest) (omega arith)
value-store_loop (suc left) u rest fits =
    let one_digit : u / 10 * 10 + (u8 (48 + u % 10) - 48) ≡ u = omega arith in
    elim (Bool-cases (u == 0)) [
      | inl zero_left ↦
          let none_left : 0 ≡ u = ground arith in rw zero_left (ap (λ k. value k rest) none_left)
      | inr some_left ↦ rw some_left (
          value-store_loop left (u / 10) (u8 (48 + u % 10) ∷ rest) (omega arith)
          ∙ ap (λ k. value k rest) one_digit)
    ]

store_loop-AllDigits :
    (left u : ℕ) (rest : List ℕ) → AllDigits rest → AllDigits (store_loop (digit_loop left u) rest)
unfolding digit_loop store_loop
store_loop-AllDigits zero u rest v = v
store_loop-AllDigits (suc left) u rest v = elim (Bool-cases (u == 0)) [
  | inl zero_left ↦ rw zero_left v
  | inr some_left ↦
      rw some_left (
        store_loop-AllDigits left (u / 10) (u8 (48 + u % 10) ∷ rest)
          ((omega arith, omega arith), v))
]

length-store_loop :
    (left u : ℕ) (rest : List ℕ) → length (store_loop (digit_loop left u) rest) ≤ left + length rest
unfolding digit_loop store_loop
length-store_loop zero u rest = omega arith
length-store_loop (suc left) u rest = elim (Bool-cases (u == 0)) [
  | inl zero_left ↦ rw zero_left (omega arith)
  | inr some_left ↦
      let rest' = u8 (48 + u % 10) ∷ rest in
      rw some_left (omega (arith, length-store_loop left (u / 10) rest'))
]

read_int16-AllDigits : (s : List ℕ) → AllDigits s → read_int16 s ≡ value 0 s
unfolding read_int16 value
read_int16-AllDigits [] v = refl
read_int16-AllDigits (c ∷ s) v = ground arith

decimal_lem :
    (u : ℕ)
    → u < 2 ^ 16
    → (value 0 (decimal u) ≡ u) × AllDigits (decimal u) × (length (decimal u) ≤ 5)
unfolding decimal
decimal_lem u fits = elim (Bool-cases (u == 0)) [
  | inl zero_left ↦
      let is_zero : 0 ≡ u = ground arith in
      rw zero_left (unfold value in is_zero, ((omega arith, omega arith), tt), omega arith)
  | inr some_left ↦ rw some_left (
    value-store_loop 5 u [] (omega arith) ∙ unfold value in refl,
    store_loop-AllDigits 5 u [] tt,
    length-store_loop 5 u [],
  )
]

-- The text of an `int16_t` is read back as the number, and takes at most 6 of the 8 bytes of `buf`.
pub read_int16-int16_text :
    (v : ℕ) → v < 2 ^ 16 → (read_int16 (int16_text v) ≡ v) × (length (int16_text v) ≤ 6)
unfolding int16_text
read_int16-int16_text v fits = elim (Bool-cases (leb (2 ^ 15) v)) [
  | inl below ↦
      let (spelled, digits, short) = decimal_lem (2 ^ 16 - v) (ground arith) in
      let back : (2 ^ 16 - (2 ^ 16 - v)) % 2 ^ 16 ≡ v = ground arith in
      rw below
        (minus (decimal (2 ^ 16 - v)) ∙ ap (λ k. (2 ^ 16 - k) % 2 ^ 16) spelled ∙ back, omega arith)
  | inr above ↦
      let (spelled, digits, short) = decimal_lem v fits in
      rw above (read_int16-AllDigits (decimal v) digits ∙ spelled, omega arith)
]
  where
    minus : (s : List ℕ) → read_int16 (45 ∷ s) ≡ (2 ^ 16 - value 0 s) % 2 ^ 16
    minus s = unfold read_int16 in refl
