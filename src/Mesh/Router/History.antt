-- ===== src/Mesh/Router/History.antt =====
-- A history of registered packets, and what the router still knows of it.

use meshtastic_mini.Base.{ℕ, zero, suc, ◌+◌, ◌%◌, ◌≡◌, refl, sym, ap, ◌∙◌, List, [], ◌∷◌, take}
use meshtastic_mini.Base.{get_or}
use meshtastic_mini.Mesh.Router.{Seen, Router, blank, flood_seen}
use meshtastic_mini.Mesh.Router.Recent.{IsRouter, flood_seen-IsRouter, recent, going_back}
use meshtastic_mini.Mesh.Router.Recent.{recent-flood_seen}

-- The router after these packets were registered, in order.
unfoldable pub see_all : Router → List Seen → Router
see_all r [] = r
see_all r (k ∷ ks) = see_all (flood_seen r k.from k.id) ks

-- A history put in front of `l`, so that its last entry comes first.
unfoldable pub newest_first : List Seen → List Seen → List Seen
newest_first [] l = l
newest_first (k ∷ ks) l = newest_first ks (k ∷ l)

pub see_all-IsRouter : (ks : List Seen) {r : Router} → IsRouter r → IsRouter (see_all r ks)
unfolding see_all
see_all-IsRouter [] v = v
see_all-IsRouter (k ∷ ks) v = see_all-IsRouter ks (flood_seen-IsRouter k.from k.id v)

take-take : (n : ℕ) (l : List Seen) → take n (take (suc n) l) ≡ take n l
take-take zero l = refl
take-take (suc n) [] = refl
take-take (suc n) (x ∷ l) = ap (λ t. x ∷ t) (take-take n l)

take-cons_eq :
    (n : ℕ) (k : Seen) (x y : List Seen) → take n x ≡ take n y → take n (k ∷ x) ≡ take n (k ∷ y)
take-cons_eq zero k x y e = refl
take-cons_eq (suc n) k x y e = ap (λ t. k ∷ t) (sym (take-take n x) ∙ ap (take n) e ∙ take-take n y)

-- The first `n` of a history depend only on the first `n` of what came before it.
take-newest_first :
    (n : ℕ) (ks x y : List Seen)
    → take n x ≡ take n y
    → take n (newest_first ks x) ≡ take n (newest_first ks y)
unfolding newest_first
take-newest_first n [] x y e = e
take-newest_first n (k ∷ ks) x y e = take-newest_first n ks (k ∷ x) (k ∷ y) (take-cons_eq n k x y e)

take_idem : (n : ℕ) (l : List Seen) → take n (take n l) ≡ take n l
take_idem zero l = refl
take_idem (suc n) [] = refl
take_idem (suc n) (x ∷ l) = ap (λ t. x ∷ t) (take_idem n l)

take-going_back_all : (buf : List Seen) (i n : ℕ) → take n (going_back buf i n) ≡ going_back buf i n
unfolding going_back
take-going_back_all buf i zero = refl
take-going_back_all buf i (suc n) =
    ap (λ t. get_or buf i blank ∷ t) (take-going_back_all buf ((i + 31) % 32) n)

take-recent : (r : Router) → take 32 (recent r) ≡ recent r
unfolding recent
take-recent r = take-going_back_all r.seen_buf ((r.seen_head + 31) % 32) 32

-- The router remembers the last 32 packets of the whole history.
pub recent-see_all :
    (ks : List Seen) {r : Router}
    → IsRouter r
    → recent (see_all r ks) ≡ take 32 (newest_first ks (recent r))
unfolding see_all newest_first
recent-see_all [] {r} v = sym (take-recent r)
recent-see_all (k ∷ ks) {r} v =
    recent-see_all ks (flood_seen-IsRouter k.from k.id v)
    ∙ take-newest_first 32 ks (recent (flood_seen r k.from k.id)) (k ∷ recent r)
        (ap (take 32) (recent-flood_seen k.from k.id v) ∙ same (recent r))
  where
    same : (l : List Seen) → take 32 (k ∷ take 31 l) ≡ take 32 (k ∷ l)
    same l = ap (λ t. k ∷ t) (take_idem 31 l)
