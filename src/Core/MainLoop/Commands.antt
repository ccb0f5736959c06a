-- ===== src/Core/MainLoop/Commands.antt =====
-- The commands of `uart_rx_line_poll`, and the texts that are none.
use meshtastic_mini.Base.{ℕ, ◌≡◌, ◌≢◌, ◌⊎◌, refl, arith, false, List, [], ◌∷◌, length, get_or}
use meshtastic_mini.Base.{Bool-cases, inl, inr, codes}
use meshtastic_mini.Core.MainLoop.Line.{is_node_command, is_help, is_info}

-- A line that passes the tests for the commands.
pub record IsMessage (text : List ℕ) : Type 0 where
  pub no_node_command : is_node_command text (length text) ≡ false
  pub no_help : is_help text (length text) ≡ false
  pub no_info : is_info text (length text) ≡ false

-- A text of four bytes, of which all are known.
four_bytes :
    (text : List ℕ) (a b c d : ℕ)
    → length text ≡ 4
    → get_or text 0 0 ≡ a
    → get_or text 1 0 ≡ b
    → get_or text 2 0 ≡ c
    → get_or text 3 0 ≡ d
    → text ≡ a ∷ b ∷ c ∷ d ∷ []
four_bytes [] a b c d four ea eb ec ed = absurd (omega arith)
four_bytes (x ∷ []) a b c d four ea eb ec ed = absurd (omega arith)
four_bytes (x ∷ y ∷ []) a b c d four ea eb ec ed = absurd (omega arith)
four_bytes (x ∷ y ∷ z ∷ []) a b c d four ea eb ec ed = absurd (omega arith)
four_bytes (x ∷ y ∷ z ∷ w ∷ []) a b c d four ea eb ec ed = rw (ea, eb, ec, ed) refl
four_bytes (x ∷ y ∷ z ∷ w ∷ v ∷ text) a b c d four ea eb ec ed = absurd (omega arith)

is_help-exact : (text : List ℕ) → text ≢ codes "help" → is_help text (length text) ≡ false
unfolding is_help
is_help-exact text other = elim (Bool-cases (is_help text (length text))) [
  | inr differs ↦ differs
  | inl same ↦ absurd (
      other (
        four_bytes text 104 101 108 112 (ground arith) (ground arith) (ground arith) (ground arith)
          (ground arith)))
]

is_info-exact : (text : List ℕ) → text ≢ codes "info" → is_info text (length text) ≡ false
unfolding is_info
is_info-exact text other = elim (Bool-cases (is_info text (length text))) [
  | inr differs ↦ differs
  | inl same ↦ absurd (
      other (
        four_bytes text 105 110 102 111 (ground arith) (ground arith) (ground arith) (ground arith)
          (ground arith)))
]

is_node_command-exact :
    (text : List ℕ)
    → (length text ≡ 1) ⊎ ((get_or text 0 0 ≢ 78) × (get_or text 0 0 ≢ 110))
    → is_node_command text (length text) ≡ false
unfolding is_node_command
is_node_command-exact text (inl one) = ground arith
is_node_command-exact text (inr (no_upper, no_lower)) = ground arith

-- The tests for the commands find no others than these.
pub plain-IsMessage :
    (text : List ℕ)
    → text ≢ codes "help"
    → text ≢ codes "info"
    → (length text ≡ 1) ⊎ ((get_or text 0 0 ≢ 78) × (get_or text 0 0 ≢ 110))
    → IsMessage text
plain-IsMessage text no_help no_info no_n = record {
  no_node_command = is_node_command-exact text no_n;
  no_help = is_help-exact text no_help;
  no_info = is_info-exact text no_info;
}
