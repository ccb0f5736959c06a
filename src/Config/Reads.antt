-- ===== src/Config/Reads.antt =====
-- What a load reads of the flash.

use meshtastic_mini.Base.{ℕ, zero, suc, ◌+◌, ◌^◌, ◌≤◌, ◌<◌, ◌≡◌, refl, sym, ap, ◌∙◌, List, ◌++◌}
use meshtastic_mini.Base.{arith, length, take, drop, get_or, length-drop, length-take, get_or-take}
use meshtastic_mini.Base.{get_or_ext, get_or-drop}
use meshtastic_mini.Config.{FlashHal, word_bytes, word_at, read_bytes}

module _ (hal : FlashHal) where
  pub get_or-read_bytes :
      (f : hal.Flash) (addr n i : ℕ)
      → i < n
      → get_or (read_bytes hal f addr n) i 0 ≡ hal.read f (addr + i)
  unfolding read_bytes
  get_or-read_bytes f addr zero i h = absurd (omega arith)
  get_or-read_bytes f addr (suc n) zero h = ap (hal.read f) (omega arith)
  get_or-read_bytes f addr (suc n) (suc i) h =
      get_or-read_bytes f (addr + 1) n i (omega arith) ∙ ap (hal.read f) (omega arith)

  length-read_bytes : (f : hal.Flash) (addr n : ℕ) → length (read_bytes hal f addr n) ≡ n
  unfolding read_bytes
  length-read_bytes f addr zero = refl
  length-read_bytes f addr (suc n) = ap suc (length-read_bytes f (addr + 1) n)

  -- The bytes of a word and of a configuration that are read where they were stored.
  pub read_stored :
      (f : hal.Flash) (addr m n : ℕ) (bytes : List ℕ)
      → ((i : ℕ) → i < length bytes → hal.read f (addr + i) ≡ get_or bytes i 0)
      → m + n ≤ length bytes
      → read_bytes hal f (addr + m) n ≡ take n (drop m bytes)
  read_stored f addr m n bytes stored inside =
      get_or_ext 0 (read_bytes hal f (addr + m) n) (take n (drop m bytes))
        (omega (
          arith,
          length-read_bytes f (addr + m) n,
          length-take n (drop m bytes),
          length-drop m bytes,
        ))
        λ i h.
          let small : i < n = omega (arith, length-read_bytes f (addr + m) n) in
          get_or-read_bytes f (addr + m) n i small
          ∙ ap (hal.read f) (omega arith)
          ∙ stored (m + i) (omega arith)
          ∙ sym (get_or-drop m (m + i) i bytes 0 refl)
          ∙ sym (get_or-take n i (drop m bytes) 0 small)

pub word_at-word_bytes : (x : ℕ) (rest : List ℕ) → x < 2 ^ 32 → word_at (word_bytes x ++ rest) ≡ x
unfolding word_at word_bytes
word_at-word_bytes x rest fits = omega arith
