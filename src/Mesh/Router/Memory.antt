-- ===== src/Mesh/Router/Memory.antt =====
-- How long the router remembers a packet: through 31 others, and not beyond 32.
use mathlib.Core.Bool.{false≢true}
use meshtastic_mini.Base.{ℕ, zero, suc, ◌-◌, ◌≤◌, ◌<◌, ◌≡◌, refl, sym, ap, ◌∙◌, true, false, List}
use meshtastic_mini.Base.{[], ◌∷◌, ◌⊎◌, inl, inr, arith, Bool-cases, length, take, replicate}
use meshtastic_mini.Base.{get_or-replicate, ==_iff}
use meshtastic_mini.Mesh.Router.{Seen, Router, blank, start, is_entry, flood_seen, flood_was_seen}
use meshtastic_mini.Mesh.Router.Recent.{IsRouter, start-IsRouter, flood_seen-IsRouter, recent}
use meshtastic_mini.Mesh.Router.Recent.{mentions, recent-flood_seen, flood_was_seen-recent}
use meshtastic_mini.Mesh.Router.Recent.{mentions-found, take-going_back}
use meshtastic_mini.Mesh.Router.History.{see_all, newest_first, see_all-IsRouter, recent-see_all}

-- The whole history decides what counts as seen: its last 32 entries, with what the router
-- remembered before it.
pub flood_was_seen-see_all :
    (ks : List Seen) {r : Router} (f p : ℕ)
    → IsRouter r
    → flood_was_seen (see_all r ks) f p ≡ mentions (take 32 (newest_first ks (recent r))) f p
flood_was_seen-see_all ks f p v =
    flood_was_seen-recent f p (see_all-IsRouter ks v)
    ∙ ap (λ l. mentions l f p) (recent-see_all ks v)

mentions-take_kept :
    (m : ℕ) (k : Seen) (l : List Seen) (f p : ℕ)
    → mentions (take (m - 1) l) f p ≡ true
    → mentions (take m (k ∷ l)) f p ≡ true
unfolding mentions
mentions-take_kept zero k l f p h = h
mentions-take_kept (suc m) k l f p h = elim (Bool-cases (is_entry k f p)) [
  | inl hit ↦ rw hit
  | inr miss ↦ rw miss (ap (λ i. mentions (take i l) f p) {x = m} {y = suc m - 1} (omega arith) ∙ h)
]

mentions-take_origin :
    (m : ℕ) (k : Seen) (l : List Seen) (f p : ℕ)
    → mentions (take m (k ∷ l)) f p ≡ true
    → (is_entry k f p ≡ true) ⊎ (mentions (take (m - 1) l) f p ≡ true)
unfolding mentions
mentions-take_origin zero k l f p h = inr h
mentions-take_origin (suc m) k l f p h = elim (Bool-cases (is_entry k f p)) [
  | inl hit ↦ inl hit
  | inr miss ↦
      inr (ap (λ i. mentions (take i l) f p) {x = suc m - 1} {y = m} (omega arith) ∙ rw miss at h)
]

-- What is near enough to the front stays within the first `n`.
mentions-kept :
    (n : ℕ) (ks l : List Seen) (f p : ℕ)
    → mentions (take (n - length ks) l) f p ≡ true
    → mentions (take n (newest_first ks l)) f p ≡ true
unfolding newest_first
mentions-kept n [] l f p h = ap (λ i. mentions (take i l) f p) (omega arith) ∙ h
mentions-kept n (k ∷ ks) l f p h = mentions-kept n ks (k ∷ l) f p (
    mentions-take_kept (n - length ks) k l f p
      (ap (λ i. mentions (take i l) f p) {y = n - suc (length ks)} (omega arith) ∙ h))

-- What is found within the first `n` is of the history, or near the front of what came before.
mentions-origin :
    (n : ℕ) (ks l : List Seen) (f p : ℕ)
    → mentions (take n (newest_first ks l)) f p ≡ true
    → (mentions ks f p ≡ true) ⊎ (mentions (take (n - length ks) l) f p ≡ true)
unfolding newest_first mentions
mentions-origin n [] l f p h = inr (ap (λ i. mentions (take i l) f p) (omega arith) ∙ h)
mentions-origin n (k ∷ ks) l f p h = elim (mentions-origin n ks (k ∷ l) f p h) [
  | inl old ↦ inl (elim (Bool-cases (is_entry k f p)) [ inl hit ↦ rw hit | inr miss ↦ rw miss old ])
  | inr near ↦ elim (mentions-take_origin (n - length ks) k l f p near) [
    | inl hit ↦ inl (rw hit)
    | inr near' ↦
        inr (ap (λ i. mentions (take i l) f p) {y = n - length ks - 1} (omega arith) ∙ near')
  ]
]

is_entry_self : (f p : ℕ) → is_entry (record { from = f; id = p }) f p ≡ true
is_entry_self f p = rw ((==_iff f f).1 refl, (==_iff p p).1 refl)

-- A registered packet is still known after up to 31 others, whichever they are.
pub remembered :
    (ks : List Seen) {r : Router} (f p : ℕ)
    → IsRouter r
    → length ks ≤ 31
    → flood_was_seen (see_all (flood_seen r f p) ks) f p ≡ true
unfolding mentions
remembered ks {r} f p v few =
    flood_was_seen-see_all ks f p (flood_seen-IsRouter f p v)
    ∙ mentions-kept 32 ks _ f p
        (rw (recent-flood_seen f p v) (mentions-take_kept_self (32 - length ks) (omega arith)))
  where
    mentions-take_kept_self :
        (m : ℕ)
        → 0 < m
        → mentions (take m (record { from = f; id = p } ∷ take 31 (recent r))) f p ≡ true
    mentions-take_kept_self zero pos = absurd (omega arith)
    mentions-take_kept_self (suc m) pos = rw (is_entry_self f p)

-- A packet that is none of the last 32 or more registered ones is not known.
pub forgotten :
    (ks : List Seen) {r : Router} (f p : ℕ)
    → IsRouter r
    → 32 ≤ length ks
    → mentions ks f p ≡ false
    → flood_was_seen (see_all r ks) f p ≡ false
unfolding mentions
forgotten ks {r} f p v many new = elim (Bool-cases (flood_was_seen (see_all r ks) f p)) [
  | inr miss ↦ miss
  | inl hit ↦
      absurd
        (elim (mentions-origin 32 ks (recent r) f p (sym (flood_was_seen-see_all ks f p v) ∙ hit)) [
          | inl old ↦ false≢true (sym new ∙ old)
          | inr near ↦
              false≢true (ap (λ i. mentions (take i (recent r)) f p) {x = 0} (omega arith) ∙ near)
        ])
]

-- Since start-up nothing counts as seen but what was registered, and the all-zero packet.
pub seen_since_start :
    (ks : List Seen) (f p : ℕ)
    → flood_was_seen (see_all start ks) f p ≡ true
    → (mentions ks f p ≡ true) ⊎ ((f ≡ 0) × (p ≡ 0))
unfolding recent
seen_since_start ks f p hit =
    elim (mentions-origin 32 ks (recent start) f p
      (sym (flood_was_seen-see_all ks f p start-IsRouter) ∙ hit)) [
        | inl old ↦ inl old
        | inr near ↦ inr (blank_only (32 - length ks) (omega arith) near)
      ]
  where
    is_blank : is_entry blank f p ≡ true → (f ≡ 0) × (p ≡ 0)
    is_blank e = ground arith

    blank_only : (m : ℕ) → m ≤ 32 → mentions (take m (recent start)) f p ≡ true → (f ≡ 0) × (p ≡ 0)
    blank_only m few h =
        let (j, hi, at) =
          mentions-found (replicate 32 blank) f p 31 m (omega arith) (
            ap (λ l. mentions l f p) (sym (take-going_back (replicate 32 blank) m 32 31 few))
            ∙ h) in
        is_blank (ap (λ s. is_entry s f p) (sym (get_or-replicate 32 j blank)) ∙ at)
