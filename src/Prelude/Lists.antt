-- ===== src/Prelude/Lists.antt =====
-- Lists over the native numbers, predicates on them, and membership of a text.
use Prim.Native.Nat.{ℕ, suc, ◌+◌}
use Prim.Native.String.{String}
use mathlib.Core.Path.{◌≡◌, refl}
use mathlib.Core.Logic.{◌↔◌, ◌≢◌}
use mathlib.Core.Bool.{Bool, true, false, ◌&&◌, ◌||◌}
use mathlib.Core.List.{List, [], ◌∷◌, ◌++◌}
use native.Mathlib.Omega.{arith}
use text.Mathlib.Text.{◌==◌ as str_eq}
use agentic_netops.Prelude.Tests.{if◌then◌else◌, ◌==◌}

module _ {ℓ} {A : Type ℓ} where
  abbrev pub length : List A → ℕ
  length [] = 0
  length (x ∷ xs) = suc (length xs)

  abbrev pub is_empty : List A → Bool
  is_empty [] = true
  is_empty (x ∷ xs) = false

  abbrev pub any : (A → Bool) → List A → Bool
  any p [] = false
  any p (x ∷ xs) = p x || any p xs

  abbrev pub all : (A → Bool) → List A → Bool
  all p [] = true
  all p (x ∷ xs) = p x && all p xs

  pub length-append : (xs ys : List A) → length (xs ++ ys) ≡ length xs + length ys
  length-append [] ys = omega arith
  length-append (x ∷ xs) ys = omega (arith, length-append xs ys)

abbrev pub All {ℓ κ} : {A : Type ℓ} → (A → Type κ) → List A → Type κ
All P [] = Unit
All P (x ∷ xs) = P x × All P xs

-- No two entries are equal.
abbrev pub NoRepeat {ℓ} : {A : Type ℓ} → List A → Type ℓ
NoRepeat [] = Unit
NoRepeat (x ∷ xs) = All (λ y. y ≢ x) xs × NoRepeat xs

-- `s in names`
abbrev pub contains : List String → String → Bool
contains [] s = false
contains (x ∷ xs) s = str_eq x s || contains xs s

-- `n in numbers`
abbrev pub contains_number : List ℕ → ℕ → Bool
contains_number [] n = false
contains_number (x ∷ xs) n = (x == n) || contains_number xs n

-- `if b: causes.append(c)`
abbrev pub when {ℓ} : {A : Type ℓ} → Bool → A → List A
when b c = if b then c ∷ [] else []

-- Nothing is appended exactly when the test fails and the rest appends nothing.
pub when-append {ℓ} :
    {A : Type ℓ} (b : Bool) (c : A) (xs : List A)
    → (when b c ++ xs ≡ []) ↔ ((b ≡ false) × (xs ≡ []))
when-append true c xs = (λ e. cc, λ e. cc)
when-append false c xs = (λ e. (refl, e), λ e. e.1)

pub append-eq-nil {ℓ} : {A : Type ℓ} (xs ys : List A) → (xs ++ ys ≡ []) ↔ ((xs ≡ []) × (ys ≡ []))
append-eq-nil [] ys = (λ e. (refl, e), λ e. e.1)
append-eq-nil (x ∷ xs) ys = (λ e. cc, λ e. cc)

-- The causes whose tests hold, in order: a run of `if test: causes.append(cause)`.
abbrev pub failing {ℓ} : {A : Type ℓ} → List (Bool × A) → List A
failing [] = []
failing ((b, c) ∷ rest) = when b c ++ failing rest

abbrev pub AllFalse {ℓ} : {A : Type ℓ} → List (Bool × A) → Type 0
AllFalse [] = Unit
AllFalse ((b, c) ∷ rest) = (b ≡ false) × AllFalse rest

pub failing-eq-nil {ℓ} : {A : Type ℓ} (l : List (Bool × A)) → (failing l ≡ []) ↔ AllFalse l
failing-eq-nil [] = (λ e. tt, λ e. refl)
failing-eq-nil ((true, c) ∷ rest) = (λ e. cc, λ e. cc e.0)
failing-eq-nil ((false, c) ∷ rest) =
    (λ e. (refl, (failing-eq-nil rest).0 e), λ e. (failing-eq-nil rest).1 e.1)

pub cons-of_ne-nil {ℓ} :
    {A : Type ℓ} (xs : List A) → (xs ≡ [] → ⊥) → (x : A) × (rest : List A) × (xs ≡ x ∷ rest)
cons-of_ne-nil [] h = absurd (h refl)
cons-of_ne-nil (x ∷ xs) h = (x, xs, refl)
