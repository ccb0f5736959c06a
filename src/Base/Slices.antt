-- ===== src/Base/Slices.antt =====
-- Parts of lists, and what a copy leaves of them.
use Prim.Native.Nat.{ℕ, zero, suc, ◌+◌, ◌≤◌, ◌<◌}
use mathlib.Core.Path.{◌≡◌, refl, ap, ap₂, sym}
use mathlib.Core.List.{List, [], ◌∷◌, ◌++◌}
use native.Mathlib.Omega.{arith}
use meshtastic_mini.Base.Lists.{set, length, get_or, take, drop, blit}

module _ {ℓ} {A : Type ℓ} where
  -- A copy behind a first part leaves that part.
  pub blit-append : (xs ys src : List A) → blit (xs ++ ys) (length xs) src ≡ xs ++ blit ys 0 src
  blit-append [] ys src = refl
  blit-append (x ∷ xs) ys src = ap (λ l. x ∷ l) (blit-append xs ys src)

  pub get_or-take : (n i : ℕ) (xs : List A) (d : A) → i < n → get_or (take n xs) i d ≡ get_or xs i d
  get_or-take zero i xs d h = absurd (omega arith)
  get_or-take (suc n) i [] d h = refl
  get_or-take (suc n) zero (x ∷ xs) d h = refl
  get_or-take (suc n) (suc i) (x ∷ xs) d h = get_or-take n i xs d (omega arith)

  pub take_ext :
      (d : A) (n : ℕ) (xs ys : List A)
      → n ≤ length xs
      → n ≤ length ys
      → ((i : ℕ) → i < n → get_or xs i d ≡ get_or ys i d)
      → take n xs ≡ take n ys
  take_ext d zero xs ys a b h = refl
  take_ext d (suc n) [] ys a b h = absurd (omega arith)
  take_ext d (suc n) (x ∷ xs) [] a b h = absurd (omega arith)
  take_ext d (suc n) (x ∷ xs) (y ∷ ys) a b h =
      ap₂ ◌∷◌ (h 0 (omega arith))
        (take_ext d n xs ys (omega arith) (omega arith) (λ i lt. h (suc i) (omega arith)))

  pub take-take : (m n : ℕ) (xs : List A) → m ≤ n → take m (take n xs) ≡ take m xs
  take-take zero n xs h = refl
  take-take (suc m) zero xs h = absurd (omega arith)
  take-take (suc m) (suc n) [] h = refl
  take-take (suc m) (suc n) (x ∷ xs) h = ap (λ l. x ∷ l) (take-take m n xs (omega arith))

  take_nothing : (n : ℕ) → take {A = A} n [] ≡ []
  take_nothing zero = refl
  take_nothing (suc n) = refl

  pub drop-take : (m k n : ℕ) (xs : List A) → k ≡ m + n → drop m (take k xs) ≡ take n (drop m xs)
  drop-take zero k n xs e = ap (λ j. take j xs) (omega arith)
  drop-take (suc m) zero n xs e = absurd (omega arith)
  drop-take (suc m) (suc k) n [] e = sym (take_nothing n)
  drop-take (suc m) (suc k) n (x ∷ xs) e = drop-take m k n xs (omega arith)

  -- A copy of `n` elements to the start.
  pub take-blit :
      (n : ℕ) (dst src : List A)
      → n ≤ length dst
      → n ≤ length src
      → take n (blit dst 0 (take n src)) ≡ take n src
  take-blit zero dst src a b = refl
  take-blit (suc n) [] src a b = absurd (omega arith)
  take-blit (suc n) (d ∷ dst) [] a b = absurd (omega arith)
  take-blit (suc n) (d ∷ dst) (x ∷ src) a b =
      ap (λ l. x ∷ l) (take-blit n dst src (omega arith) (omega arith))

  pub take-append_left : (n : ℕ) (xs ys : List A) → n ≤ length xs → take n (xs ++ ys) ≡ take n xs
  take-append_left zero xs ys h = refl
  take-append_left (suc n) [] ys h = absurd (omega arith)
  take-append_left (suc n) (x ∷ xs) ys h = ap (λ l. x ∷ l) (take-append_left n xs ys (omega arith))

  pub take-set : (xs : List A) (i : ℕ) (v : A) → take i (set xs i v) ≡ take i xs
  take-set [] i v = refl
  take-set (x ∷ xs) zero v = refl
  take-set (x ∷ xs) (suc i) v = ap (λ l. x ∷ l) (take-set xs i v)

  pub get_or-drop :
      (m k i : ℕ) (xs : List A) (d : A) → k ≡ m + i → get_or (drop m xs) i d ≡ get_or xs k d
  get_or-drop zero k i xs d e = ap (λ j. get_or xs j d) (omega arith)
  get_or-drop (suc m) zero i xs d e = absurd (omega arith)
  get_or-drop (suc m) (suc k) i [] d e = refl
  get_or-drop (suc m) (suc k) i (x ∷ xs) d e = get_or-drop m k i xs d (omega arith)
