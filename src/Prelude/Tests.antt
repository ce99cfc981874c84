-- ===== src/Prelude/Tests.antt =====
-- Boolean tests on the native numbers, the conditional, and results with an error.
use Prim.Native.Nat.{ℕ, ◌≤◌, ◌<◌, compare, Ordering}
use mathlib.Core.Path.{◌≡◌, refl, ap, subst}
use mathlib.Core.Logic.{◌↔◌, ◌⊎◌, inl, inr}
use mathlib.Core.Bool.{Bool, true, false, ◌&&◌}
use mathlib.Core.Option.{Option, none, some}
use native.Mathlib.Omega.{arith}

abbrev pub ltb : ℕ → ℕ → Bool
ltb a b = elim (compare a b) [ Ordering.lt ↦ true | _ ↦ false ]

abbrev pub leb : ℕ → ℕ → Bool
leb a b = elim (compare a b) [ Ordering.gt ↦ false | _ ↦ true ]

infix 50 ◌==◌
abbrev pub ◌==◌ : ℕ → ℕ → Bool
a == b = elim (compare a b) [ Ordering.eq ↦ true | _ ↦ false ]

infix 1 if◌then◌else◌
abbrev pub if◌then◌else◌ {ℓ} : {A : Type ℓ} → Bool → A → A → A
if true then x else y = x
if false then x else y = y

pub lt→ltb : (a b : ℕ) → a < b → ltb a b ≡ true
lt→ltb a b h = ground arith

pub le→ltb_false : (a b : ℕ) → b ≤ a → ltb a b ≡ false
le→ltb_false a b h = ground arith

pub le→leb : (a b : ℕ) → a ≤ b → leb a b ≡ true
le→leb a b h = ground arith

pub eq→== : (a b : ℕ) → a ≡ b → (a == b) ≡ true
eq→== a b h = ground arith

pub ==_iff : (a b : ℕ) → ((a == b) ≡ true) ↔ (a ≡ b)
==_iff a b = ground arith

pub Bool-cases : (b : Bool) → (b ≡ true) ⊎ (b ≡ false)
Bool-cases true = inl refl
Bool-cases false = inr refl

pub lt-cases : (a b : ℕ) → (a < b) ⊎ (b ≤ a)
lt-cases a b = grind arith

-- A value, or what was thrown.
pub data Result {ℓ κ} (E : Type ℓ) (A : Type κ) : Type (ℓ ⊔ κ) where
  ok : A → Result E A
  err : E → Result E A

infixl 5 ◌>>=◌
abbrev pub ◌>>=◌ {ℓ κ μ} :
    {E : Type ℓ} {A : Type κ} {B : Type μ} → Result E A → (A → Result E B) → Result E B
err thrown >>= next = err thrown
ok result >>= next = next result

pub >>=-eq-ok {ℓ κ μ} :
    {E : Type ℓ} {A : Type κ} {B : Type μ} (action : Result E A) (next : A → Result E B) {last : B}
    → (action >>= next) ≡ ok last
    → (result : A) × (action ≡ ok result) × (next result ≡ ok last)
>>=-eq-ok (err thrown) next e = absurd (ground arith)
>>=-eq-ok (ok result) next e = (result, refl, e)

pub some-injective {ℓ} : {A : Type ℓ} {a b : A} → Path (Option A) (some a) (some b) → a ≡ b
some-injective {A} {a} h = ap {A = Option A} (elim [ some x ↦ x | none ↦ a ]) h

-- What holds of the value, if there is one.
abbrev pub OkWith {ℓ κ μ} : {E : Type ℓ} {A : Type κ} → (A → Type μ) → Result E A → Type μ
OkWith P (ok result) = P result
OkWith P (err thrown) = Unit

module _ {ℓ κ μ ν} {E : Type ℓ} {A : Type κ} {B : Type μ} where
  pub >>=-OkWith :
      (P : A → Type ν) (Q : B → Type ν) (action : Result E A) (next : A → Result E B)
      → OkWith P action
      → ((result : A) → P result → OkWith Q (next result))
      → OkWith Q (action >>= next)
  >>=-OkWith P Q (ok result) next h k = k result h
  >>=-OkWith P Q (err thrown) next h k = tt

module _ {ℓ κ ν} {E : Type ℓ} {A : Type κ} where
  pub eq_ok-OkWith :
      (P : A → Type ν) (action : Result E A) {result : A}
      → OkWith P action
      → action ≡ ok result
      → P result
  eq_ok-OkWith P action h e = subst (OkWith P) e h

  pub always-OkWith : (P : A → Type ν) (action : Result E A) → ((a : A) → P a) → OkWith P action
  always-OkWith P (ok result) h = h result
  always-OkWith P (err thrown) h = tt

  -- A guard that fails throws.
  pub guarded-OkWith :
      (P : A → Type ν) (test : Bool) (thrown : E) (action : Result E A)
      → (test ≡ false → OkWith P action)
      → OkWith P (if test then err thrown else action)
  guarded-OkWith P true thrown action h = tt
  guarded-OkWith P false thrown action h = h refl

pub ok-injective {ℓ κ} :
    {E : Type ℓ} {A : Type κ} {a b : A} → Path (Result E A) (ok a) (ok b) → a ≡ b
ok-injective {E} {A} {a} h = ap {A = Result E A} (elim [ ok x ↦ x | err e ↦ a ]) h

-- What holds of both branches holds of the conditional.
pub if_both {ℓ κ} :
    {A : Type ℓ} (P : A → Type κ) (b : Bool) {x y : A} → P x → P y → P (if b then x else y)
if_both P true px py = px
if_both P false px py = py

pub and-true : (a b : Bool) → (a && b) ≡ true → (a ≡ true) × (b ≡ true)
and-true true b h = (refl, h)
and-true false b h = absurd (ground arith)
