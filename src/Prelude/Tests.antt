-- ===== src/Prelude/Tests.antt =====
-- Python's `if`, its comparisons of numbers, and `==` as an instance for each type of key.
use Prim.Native.Nat.{ℕ, ◌≤◌, ◌<◌, compare, Ordering}
use Prim.Native.String.{String}
use text.Mathlib.Text.{◌==◌ as str_beq}
use text.Mathlib.TextEquality.{eq_iff}
use mathlib.Core.Path.{◌≡◌, refl}
use mathlib.Core.Logic.{◌↔◌, ◌⊎◌, inl, inr}
use mathlib.Core.Bool.{Bool, true, false, ◌&&◌}
use mathlib.Core.Option.{Option, none, some}
use mathlib.Core.List.{List, [], ◌∷◌}
use native.Mathlib.Omega.{arith}

abbrev pub ltb : ℕ → ℕ → Bool
ltb a b = elim (compare a b) [ Ordering.lt ↦ true | _ ↦ false ]

abbrev pub leb : ℕ → ℕ → Bool
leb a b = elim (compare a b) [ Ordering.gt ↦ false | _ ↦ true ]

abbrev pub nat_beq : ℕ → ℕ → Bool
nat_beq a b = elim (compare a b) [ Ordering.eq ↦ true | _ ↦ false ]

infix 1 if◌then◌else◌
abbrev pub if◌then◌else◌ {ℓ} : {A : Type ℓ} → Bool → A → A → A
if true then x else y = x
if false then x else y = y

pub ltb→lt : (a b : ℕ) → ltb a b ≡ true → a < b
ltb→lt a b h = ground arith

pub leb→le : (a b : ℕ) → leb a b ≡ true → a ≤ b
leb→le a b h = ground arith

pub nat_beq_iff : (a b : ℕ) → (nat_beq a b ≡ true) ↔ (a ≡ b)
nat_beq_iff a b = ground arith

-- To split on a computed value and keep the equation.
pub Bool-cases : (b : Bool) → (b ≡ true) ⊎ (b ≡ false)
Bool-cases true = inl refl
Bool-cases false = inr refl

-- A property of both branches holds of the conditional.
pub if_both {ℓ κ} :
    {A : Type ℓ} (P : A → Type κ) (b : Bool) {x y : A}
    → (b ≡ true → P x)
    → (b ≡ false → P y)
    → P (if b then x else y)
if_both P true h k = h refl
if_both P false h k = k refl

pub Option-cases {ℓ} : {A : Type ℓ} (o : Option A) → (o ≡ none) ⊎ ((a : A) × (o ≡ some a))
Option-cases none = inl refl
Option-cases (some a) = inr (a, refl)

-- A type whose values Python compares by `==`.
pub record PyEq {ℓ} (T : Type ℓ) : Type ℓ where
  pub beq : (x y : T) → Bool
  pub beq_iff : (x y : T) → (beq x y ≡ true) ↔ (x ≡ y)

infix 50 ◌==◌
abbrev pub ◌==◌ {ℓ} : {A : Type ℓ} ⦃e : PyEq A⦄ → A → A → Bool
◌==◌ ⦃e⦄ = e.beq

pub beq_refl {ℓ} : {A : Type ℓ} ⦃e : PyEq A⦄ (a : A) → (a == a) ≡ true
beq_refl ⦃e⦄ a = (e.beq_iff a a).1 refl

instance abbrev pub nat_eq : PyEq ℕ
nat_eq = record { beq = nat_beq; beq_iff = nat_beq_iff }

instance abbrev pub string_eq : PyEq String
string_eq = record { beq = str_beq; beq_iff = eq_iff }

abbrev pub option_beq {ℓ} : {A : Type ℓ} ⦃e : PyEq A⦄ → Option A → Option A → Bool
option_beq none none = true
option_beq (some a) (some b) = a == b
option_beq _ _ = false

pub option_beq_iff {ℓ} :
    {A : Type ℓ} ⦃e : PyEq A⦄ (a b : Option A) → (option_beq a b ≡ true) ↔ (a ≡ b)
option_beq_iff none none = ground arith
option_beq_iff none (some b) = ground arith
option_beq_iff (some a) none = ground arith
option_beq_iff ⦃e⦄ (some a) (some b) = ground (arith, e.beq_iff a b)

instance abbrev pub option_eq {ℓ} : {A : Type ℓ} ⦃e : PyEq A⦄ → PyEq (Option A)
option_eq = record { beq = option_beq; beq_iff = option_beq_iff }

abbrev pub list_beq {ℓ} : {A : Type ℓ} ⦃e : PyEq A⦄ → List A → List A → Bool
list_beq [] [] = true
list_beq (a ∷ as') (b ∷ bs) = a == b && list_beq as' bs
list_beq _ _ = false

pub list_beq_iff {ℓ} : {A : Type ℓ} ⦃e : PyEq A⦄ (a b : List A) → (list_beq a b ≡ true) ↔ (a ≡ b)
list_beq_iff [] [] = ground arith
list_beq_iff [] (b ∷ bs) = ground arith
list_beq_iff (a ∷ xs) [] = ground arith
list_beq_iff ⦃e⦄ (a ∷ xs) (b ∷ bs) = ground (arith, e.beq_iff a b, list_beq_iff xs bs)

instance abbrev pub list_eq {ℓ} : {A : Type ℓ} ⦃e : PyEq A⦄ → PyEq (List A)
list_eq = record { beq = list_beq; beq_iff = list_beq_iff }
