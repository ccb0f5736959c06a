-- ===== src/Base/Runs.antt =====
-- A call that may not return, within the fuel, or that does what C leaves undefined.

use mathlib.Core.Bool.{Bool, true, false}
use meshtastic_mini.Base.Tests.{if◌then◌else◌}
use mathlib.Core.Path.{◌≡◌, refl}

pub data Run {ℓ} (A : Type ℓ) : Type ℓ where
  ok : A → Run A
  running : Run A
  undefined : Run A

infixl 5 ◌>>=◌
abbrev pub ◌>>=◌ {ℓ κ} : {A : Type ℓ} {B : Type κ} → Run A → (A → Run B) → Run B
ok a >>= f = f a
running >>= f = running
undefined >>= f = undefined

pub bind-ok {ℓ} : {A : Type ℓ} (r : Run A) → (r >>= λ a. ok a) ≡ r
bind-ok (ok a) = refl
bind-ok running = refl
bind-ok undefined = refl

-- What holds of the result of a call, if it returns.
pub data Returns {ℓ κ} {A : Type ℓ} (P : A → Type κ) : Run A → Type (ℓ ⊔ κ) where
  returned : {a : A} → P a → Returns P (ok a)
  never : Returns P running
  anything : Returns P undefined

pub Returns-bind {ℓ κ μ ν} :
    {A : Type ℓ} {B : Type κ} {P : A → Type μ} {Q : B → Type ν} {r : Run A} {f : A → Run B}
    → Returns P r
    → ((a : A) → P a → Returns Q (f a))
    → Returns Q (r >>= f)
Returns-bind (returned {a} p) h = h a p
Returns-bind never h = never
Returns-bind anything h = anything

pub Returns-if {ℓ κ} :
    {A : Type ℓ} {P : A → Type κ} (c : Bool) {r s : Run A}
    → Returns P r
    → Returns P s
    → Returns P (if c then r else s)
Returns-if true x y = x
Returns-if false x y = y

-- A call that returns, and what holds of its result.
pub data Ends {ℓ κ} {A : Type ℓ} (P : A → Type κ) : Run A → Type (ℓ ⊔ κ) where
  ended : {a : A} → P a → Ends P (ok a)

pub Ends-bind {ℓ κ μ ν} :
    {A : Type ℓ} {B : Type κ} {P : A → Type μ} {Q : B → Type ν} {r : Run A} {f : A → Run B}
    → Ends P r
    → ((a : A) → P a → Ends Q (f a))
    → Ends Q (r >>= f)
Ends-bind (ended {a} p) h = h a p

pub Ends-if {ℓ κ} :
    {A : Type ℓ} {P : A → Type κ} (c : Bool) {r s : Run A}
    → Ends P r
    → Ends P s
    → Ends P (if c then r else s)
Ends-if true x y = x
Ends-if false x y = y

-- Two statements on the result, if the call returns.
pub Returns-both {ℓ κ μ} :
    {A : Type ℓ} {P : A → Type κ} {Q : A → Type μ} {r : Run A}
    → Returns P r
    → Returns Q r
    → Returns (λ a. P a × Q a) r
Returns-both (returned p) (returned q) = returned (p, q)
Returns-both never never = never
Returns-both anything anything = anything

-- A call that returns has what it has if it returns.
pub Ends-Returns {ℓ κ μ} :
    {A : Type ℓ} {P : A → Type κ} {Q : A → Type μ} {r : Run A}
    → Ends P r
    → Returns Q r
    → Ends (λ a. P a × Q a) r
Ends-Returns (ended p) (returned q) = ended (p, q)

pub Ends-weaken {ℓ κ μ} :
    {A : Type ℓ} {P : A → Type κ} {Q : A → Type μ} {r : Run A}
    → Ends P r
    → ((a : A) → P a → Q a)
    → Ends Q r
Ends-weaken (ended {a} p) h = ended (h a p)

pub bind-bind {ℓ κ μ} :
    {A : Type ℓ} {B : Type κ} {C : Type μ} (r : Run A) (f : A → Run B) (g : B → Run C)
    → (r >>= f >>= g) ≡ (r >>= λ a. f a >>= g)
bind-bind (ok a) f g = refl
bind-bind running f g = refl
bind-bind undefined f g = refl

pub ok-Returns {ℓ κ} : {A : Type ℓ} {P : A → Type κ} {a : A} → Returns P (ok a) → P a
ok-Returns (returned p) = p

-- The part of a chain of calls that returned.
pub >>=-ok {ℓ κ} :
    {A : Type ℓ} {B : Type κ} (r : Run A) (f : A → Run B) {b : B}
    → (r >>= f) ≡ ok b
    → (a : A) × (r ≡ ok a) × (f a ≡ ok b)
>>=-ok (ok a) f e = (a, refl, e)
>>=-ok running f e = cc
>>=-ok undefined f e = cc

pub Ends-ok {ℓ κ} :
    {A : Type ℓ} {P : A → Type κ} {r : Run A} → Ends P r → (a : A) × (r ≡ ok a) × P a
Ends-ok (ended {a} p) = (a, refl, p)
