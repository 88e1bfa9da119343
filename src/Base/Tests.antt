-- ===== src/Base/Tests.antt =====
-- Boolean tests on the native numbers, the conditional, and case splits that keep the equation.
use Prim.Native.Nat.{ℕ, ◌<◌, compare, Ordering}
use native.Mathlib.Omega.{arith}
use mathlib.Core.Path.{◌≡◌, refl}
use mathlib.Core.Logic.{◌⊎◌, inl, inr}
use mathlib.Core.Bool.{Bool, true, false}
use mathlib.Core.Option.{Option, none, some}

abbrev pub ltb : ℕ → ℕ → Bool
ltb a b = elim (compare a b) [ Ordering.lt ↦ true | _ ↦ false ]

abbrev pub leb : ℕ → ℕ → Bool
leb a b = elim (compare a b) [ Ordering.gt ↦ false | _ ↦ true ]

infix 50 ◌==◌
abbrev pub ◌==◌ : ℕ → ℕ → Bool
a == b = elim (compare a b) [ Ordering.eq ↦ true | _ ↦ false ]

infix 1 if◌then◌else◌
abbrev pub if◌then◌else◌ {ℓ} : {A : Type ℓ} → Bool → A → A → A
if true then x else y = x
if false then x else y = y

pub lt→ltb : (a b : ℕ) → a < b → ltb a b ≡ true
lt→ltb a b h = ground arith

pub not-lt→ltb : (a b : ℕ) → ¬ (a < b) → ltb a b ≡ false
not-lt→ltb a b h = ground arith

pub eq→== : (a b : ℕ) → a ≡ b → (a == b) ≡ true
eq→== a b h = ground arith

pub ne→== : (a b : ℕ) → ¬ (a ≡ b) → (a == b) ≡ false
ne→== a b h = ground arith

pub Bool-cases : (b : Bool) → (b ≡ true) ⊎ (b ≡ false)
Bool-cases true = inl refl
Bool-cases false = inr refl

pub Option-cases {ℓ} : {A : Type ℓ} (o : Option A) → (o ≡ none) ⊎ ((a : A) × (o ≡ some a))
Option-cases none = inl refl
Option-cases (some a) = inr (a, refl)

pub if_false {ℓ} : {A : Type ℓ} (b : Bool) (x y : A) → b ≡ false → (if b then x else y) ≡ y
if_false true x y h = cc
if_false false x y h = refl

-- A conditional has a property that both of its branches have.
pub if_both {ℓ κ} :
    {X : Type ℓ} (Holds : X → Type κ) (test : Bool) {x y : X}
    → Holds x
    → Holds y
    → Holds (if test then x else y)
if_both Holds false hx hy = hy
if_both Holds true hx hy = hx

-- A chain of steps that may fault.
infixl 5 ◌>>=◌
abbrev pub ◌>>=◌ {ℓ κ} : {A : Type ℓ} {B : Type κ} → Option A → (A → Option B) → Option B
none >>= f = none
some a >>= f = f a

-- The run ends without a fault, in a value that satisfies `P`.
pub data Returns {ℓ κ} {A : Type ℓ} (P : A → Type κ) : Option A → Type (ℓ ⊔ κ) where
  returns : {a : A} → P a → Returns P (some a)

module _ {ℓ κ} {Out : Type ℓ} {Good : Out → Type κ} where
  pub Returns-bind {ℓ' κ'} :
      {C : Type ℓ'} {Fine : C → Type κ'} {run : Option Out} {go_on : Out → Option C}
      → Returns Good run
      → ((out : Out) → Good out → Returns Fine (go_on out))
      → Returns Fine (run >>= go_on)
  Returns-bind (returns good) next = next _ good

  pub Returns-mono {κ'} :
      {Fine : Out → Type κ'} {run : Option Out}
      → Returns Good run
      → ((out : Out) → Good out → Fine out)
      → Returns Fine run
  Returns-mono (returns good) weaken = returns (weaken _ good)

  pub Returns-inv :
      {run : Option Out} → Returns Good run → (out : Out) × (run ≡ some out) × Good out
  Returns-inv (returns good) = (_, refl, good)
