-- ===== src/Base/Words.antt =====
-- Casts to the fixed widths of `stdint.h`, and what it is to be a byte.
use Prim.Native.Nat.{ℕ, zero, suc, ◌%◌, ◌^◌, ◌<◌}
use native.Mathlib.Omega.{arith}
use meshtastic_mini.Base.Lists.{get_or, drop, take, set, blit, replicate}
use mathlib.Core.List.{List, [], ◌∷◌, ◌++◌}

abbrev pub u8 : ℕ → ℕ
u8 n = n % 2 ^ 8

abbrev pub u16 : ℕ → ℕ
u16 n = n % 2 ^ 16

abbrev pub u32 : ℕ → ℕ
u32 n = n % 2 ^ 32

-- Every element of a buffer is a `uint8_t`.
abbrev pub AllBytes : List ℕ → Type 0
AllBytes [] = Unit
AllBytes (b ∷ bs) = (b < 256) × AllBytes bs

pub AllBytes-get_or : (bs : List ℕ) (i : ℕ) → AllBytes bs → get_or bs i 0 < 256
AllBytes-get_or [] i v = omega arith
AllBytes-get_or (b ∷ bs) zero v = v.0
AllBytes-get_or (b ∷ bs) (suc i) v = AllBytes-get_or bs i v.1

pub AllBytes-append : (xs ys : List ℕ) → AllBytes xs → AllBytes ys → AllBytes (xs ++ ys)
AllBytes-append [] ys v w = w
AllBytes-append (x ∷ xs) ys v w = (v.0, AllBytes-append xs ys v.1 w)

pub AllBytes-drop : (n : ℕ) (bs : List ℕ) → AllBytes bs → AllBytes (drop n bs)
AllBytes-drop zero bs v = v
AllBytes-drop (suc n) [] v = v
AllBytes-drop (suc n) (b ∷ bs) v = AllBytes-drop n bs v.1

pub AllBytes-take : (n : ℕ) (bs : List ℕ) → AllBytes bs → AllBytes (take n bs)
AllBytes-take zero bs v = tt
AllBytes-take (suc n) [] v = tt
AllBytes-take (suc n) (b ∷ bs) v = (v.0, AllBytes-take n bs v.1)

pub AllBytes-set : (bs : List ℕ) (i b : ℕ) → AllBytes bs → b < 256 → AllBytes (set bs i b)
AllBytes-set [] i b v h = tt
AllBytes-set (x ∷ bs) zero b v h = (h, v.1)
AllBytes-set (x ∷ bs) (suc i) b v h = (v.0, AllBytes-set bs i b v.1 h)

pub AllBytes-blit :
    (dst : List ℕ) (off : ℕ) (src : List ℕ)
    → AllBytes dst
    → AllBytes src
    → AllBytes (blit dst off src)
AllBytes-blit [] off src v w = tt
AllBytes-blit (d ∷ ds) zero [] v w = v
AllBytes-blit (d ∷ ds) zero (x ∷ xs) v w = (w.0, AllBytes-blit ds zero xs v.1 w.1)
AllBytes-blit (d ∷ ds) (suc off) src v w = (v.0, AllBytes-blit ds off src v.1 w)

pub AllBytes-replicate : (n b : ℕ) → b < 256 → AllBytes (replicate n b)
AllBytes-replicate zero b h = tt
AllBytes-replicate (suc n) b h = (h, AllBytes-replicate n b h)
