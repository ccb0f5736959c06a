-- ===== src/Mesh/Router/Recent.antt =====
-- The ring of seen packets against a history: the router remembers exactly the last 32.
use meshtastic_mini.Base.{ℕ, zero, suc, sym, u8, ◌+◌, ◌-◌, ◌%◌, ◌≤◌, ◌<◌, ◌≡◌, refl, ap, ap₂, ◌∙◌}
use meshtastic_mini.Base.{Bool, true, false, ◌||◌, List, [], ◌∷◌, arith, inl, inr, Bool-cases}
use meshtastic_mini.Base.{length, get_or, set, take, length-set, get_or-set_eq, get_or-set_other}
use native.Mathlib.Decide.{ℕ_discrete}
use mathlib.Core.Bool.{false≢true}
use meshtastic_mini.Mesh.Router.{Seen, Router, blank, start, is_entry, flood_seen, seen_loop}
use meshtastic_mini.Mesh.Router.{flood_was_seen}

-- The table is full-size and the write position lies in it.
pub record IsRouter (r : Router) : Type 0 where
  pub full_size : length r.seen_buf ≡ 32
  pub head_in : r.seen_head < 32

pub start-IsRouter : IsRouter start
start-IsRouter = omega arith

pub flood_seen-IsRouter : {r : Router} (f p : ℕ) → IsRouter r → IsRouter (flood_seen r f p)
unfolding flood_seen
flood_seen-IsRouter {r} f p v =
    omega (arith, length-set r.seen_buf r.seen_head (record { from = f; id = p }))

-- The `n` entries that go back from index `i` on, newest first.
unfoldable pub going_back : List Seen → ℕ → ℕ → List Seen
going_back buf i zero = []
going_back buf i (suc n) = get_or buf i blank ∷ going_back buf ((i + 31) % 32) n

-- What the router remembers, newest first.
unfoldable pub recent : Router → List Seen
recent r = going_back r.seen_buf ((r.seen_head + 31) % 32) 32

-- Is the packet among these?
unfoldable pub mentions : List Seen → ℕ → ℕ → Bool
mentions [] f p = false
mentions (s ∷ ss) f p = is_entry s f p || mentions ss f p

-- Going back from `i` for fewer than 32 steps does not meet `h`, if `h` is farther than that.
going_back-set :
    (buf : List Seen) (h : ℕ) (s : Seen) (n i : ℕ)
    → h < 32
    → i < 32
    → n ≤ (i + 32 - h) % 32
    → going_back (set buf h s) i n ≡ going_back buf i n
unfolding going_back
going_back-set buf h s zero i hh hi far = refl
going_back-set buf h s (suc n) i hh hi far =
    ap₂ ◌∷◌ (get_or-set_other buf h i s blank (λ e. omega arith))
      (going_back-set buf h s n ((i + 31) % 32) hh (omega arith) (omega arith))

pub take-going_back :
    (buf : List Seen) (n m i : ℕ) → n ≤ m → take n (going_back buf i m) ≡ going_back buf i n
unfolding going_back
take-going_back buf zero m i h = refl
take-going_back buf (suc n) zero i h = absurd (omega arith)
take-going_back buf (suc n) (suc m) i h =
    ap (λ l. get_or buf i blank ∷ l) (take-going_back buf n m ((i + 31) % 32) (omega arith))

-- From the place just written, the new entry comes first and all others follow.
going_back-written :
    (buf : List Seen) (h : ℕ) (s : Seen) (n : ℕ)
    → length buf ≡ 32
    → h < 32
    → n ≤ 31
    → going_back (set buf h s) h (suc n) ≡ s ∷ going_back buf ((h + 31) % 32) n
unfolding going_back
going_back-written buf h s n full hh few =
    ap₂ ◌∷◌ (get_or-set_eq buf h s blank (omega arith))
      (going_back-set buf h s n ((h + 31) % 32) hh (omega arith) (omega arith))

-- Registering a packet puts it in front and drops the oldest entry.
pub recent-flood_seen :
    {r : Router} (f p : ℕ)
    → IsRouter r
    → recent (flood_seen r f p) ≡ record { from = f; id = p } ∷ take 31 (recent r)
unfolding flood_seen recent
recent-flood_seen {r} f p v =
    ap (λ i. going_back (set r.seen_buf r.seen_head new) i 32) place
    ∙ going_back-written r.seen_buf r.seen_head new 31 v.full_size v.head_in (omega arith)
    ∙ ap (λ l. new ∷ l) (sym (take-going_back r.seen_buf 31 32 _ (omega arith)))
  where
    new : Seen
    new = record { from = f; id = p }

    place : (u8 ((r.seen_head + 1) % 32) + 31) % 32 ≡ r.seen_head
    place = omega arith

-- A scan of the indices from `i` on finds the packet only at one of them.
seen_loop-found :
    (buf : List Seen) (f p left i : ℕ)
    → seen_loop buf f p left i ≡ true
    → (j : ℕ) × (i ≤ j) × (j < i + left) × (is_entry (get_or buf j blank) f p ≡ true)
unfolding seen_loop
seen_loop-found buf f p zero i e = cc
seen_loop-found buf f p (suc left) i e = elim (Bool-cases (is_entry (get_or buf i blank) f p)) [
  | inl hit ↦ (i, omega arith, omega arith, hit)
  | inr miss ↦
      let (j, lo, hi, at) = seen_loop-found buf f p left (i + 1) (rw miss at e) in
      (j, omega arith, omega arith, at)
]

-- A scan misses no index of its range.
seen_loop-finds :
    (buf : List Seen) (f p left i j : ℕ)
    → i ≤ j
    → j < i + left
    → is_entry (get_or buf j blank) f p ≡ true
    → seen_loop buf f p left i ≡ true
unfolding seen_loop
seen_loop-finds buf f p zero i j lo hi at = absurd (omega arith)
seen_loop-finds buf f p (suc left) i j lo hi at =
    elim (Bool-cases (is_entry (get_or buf i blank) f p)) [
      | inl hit ↦ rw hit
      | inr miss ↦
          rw miss
            (seen_loop-finds buf f p left (i + 1) j (later (ℕ_discrete i j) miss) (omega arith) at)
    ]
  where
    later : Dec (i ≡ j) → is_entry (get_or buf i blank) f p ≡ false → i + 1 ≤ j
    later (yes e) miss = absurd (false≢true (sym miss ∙ rw e at))
    later (no ne) miss = omega arith

pub mentions-found :
    (buf : List Seen) (f p i n : ℕ)
    → i < 32
    → mentions (going_back buf i n) f p ≡ true
    → (j : ℕ) × (j < 32) × (is_entry (get_or buf j blank) f p ≡ true)
unfolding mentions going_back
mentions-found buf f p i zero h e = cc
mentions-found buf f p i (suc n) h e = elim (Bool-cases (is_entry (get_or buf i blank) f p)) [
  | inl hit ↦ (i, h, hit)
  | inr miss ↦ mentions-found buf f p ((i + 31) % 32) n (omega arith) (rw miss at e)
]

-- Index `j` is met when going back from `i` for more than `i - j` steps, modulo 32.
mentions-finds :
    (buf : List Seen) (f p i n j : ℕ)
    → i < 32
    → j < 32
    → (i + 32 - j) % 32 < n
    → is_entry (get_or buf j blank) f p ≡ true
    → mentions (going_back buf i n) f p ≡ true
unfolding mentions going_back
mentions-finds buf f p i zero j hi hj near at = absurd (omega arith)
mentions-finds buf f p i (suc n) j hi hj near at =
    elim (Bool-cases (is_entry (get_or buf i blank) f p)) [
      | inl hit ↦ rw hit
      | inr miss ↦ rw miss (
          mentions-finds buf f p ((i + 31) % 32) n j (omega arith) hj (closer (ℕ_discrete i j) miss)
            at)
    ]
  where
    closer :
        Dec (i ≡ j) → is_entry (get_or buf i blank) f p ≡ false → ((i + 31) % 32 + 32 - j) % 32 < n
    closer (yes e) miss = absurd (false≢true (sym miss ∙ rw e at))
    closer (no ne) miss = omega arith

same_truth : (a b : Bool) → (a ≡ true → b ≡ true) → (b ≡ true → a ≡ true) → a ≡ b
same_truth true true p q = refl
same_truth true false p q = sym (p refl)
same_truth false true p q = q refl
same_truth false false p q = refl

-- The scan of the table answers whether the packet is among the 32 most recent.
pub flood_was_seen-recent :
    {r : Router} (f p : ℕ) → IsRouter r → flood_was_seen r f p ≡ mentions (recent r) f p
unfolding flood_was_seen recent
flood_was_seen-recent {r} f p v =
    same_truth (seen_loop r.seen_buf f p 32 0)
      (mentions (going_back r.seen_buf ((r.seen_head + 31) % 32) 32) f p)
      (λ e.
        let (j, lo, hi, at) = seen_loop-found r.seen_buf f p 32 0 e in
        mentions-finds r.seen_buf f p ((r.seen_head + 31) % 32) 32 j (omega arith) (omega arith)
          (omega arith) at)
      (λ e.
        let (j, hi, at) =
          mentions-found r.seen_buf f p ((r.seen_head + 31) % 32) 32 (omega arith) e in
        seen_loop-finds r.seen_buf f p 32 0 j (omega arith) (omega arith) at)
