-- ===== src/Base/Positions.antt =====
-- Reading a list at a position after a write or an extension.
use Prim.Native.Nat.{ℕ, zero, suc}
use mathlib.Core.Path.{◌≡◌, refl, ap}
use mathlib.Core.Logic.{◌≢◌, ◌⊎◌, inl, inr}
use mathlib.Core.List.{List, [], ◌∷◌, ◌++◌}
use mathlib.Core.Option.{none, some}
use native.Mathlib.Omega.{arith}
use yuliya_bachelorarbeit.Base.Lists.{length, get_elem?, set}

module _ {A : Type 0} where
  -- What stands in a list after a write: the new element at its place, and the old ones elsewhere.
  pub set_cases :
      (xs : List A) (i j : ℕ) (v u : A)
      → get_elem? (set xs i v) j ≡ some u
      → ((i ≡ j) × (u ≡ v)) ⊎ ((i ≢ j) × (get_elem? xs j ≡ some u))
  set_cases [] i j v u e = absurd (ground (arith, e))
  set_cases (x ∷ xs) zero zero v u e = inl (refl, ground (arith, e))
  set_cases (x ∷ xs) zero (suc j) v u e = inr ((λ h. absurd (omega arith)), e)
  set_cases (x ∷ xs) (suc i) zero v u e = inr ((λ h. absurd (omega arith)), e)
  set_cases (x ∷ xs) (suc i) (suc j) v u e = elim (set_cases xs i j v u e) [
    | inl (same, new) ↦ inl (ap suc same, new)
    | inr (other, old) ↦ inr ((λ h. other (omega arith)), old)
  ]

  pub get_elem?-set_ne :
      (xs : List A) (i j : ℕ) (v : A) → i ≢ j → get_elem? (set xs i v) j ≡ get_elem? xs j
  get_elem?-set_ne [] i j v ne = refl
  get_elem?-set_ne (x ∷ xs) zero zero v ne = absurd (ne refl)
  get_elem?-set_ne (x ∷ xs) zero (suc j) v ne = refl
  get_elem?-set_ne (x ∷ xs) (suc i) zero v ne = refl
  get_elem?-set_ne (x ∷ xs) (suc i) (suc j) v ne = get_elem?-set_ne xs i j v (λ h. ne (ap suc h))

  pub get_elem?-set_at :
      (xs : List A) (i : ℕ) (v u : A) → get_elem? xs i ≡ some u → get_elem? (set xs i v) i ≡ some v
  get_elem?-set_at [] i v u e = absurd (ground (arith, e))
  get_elem?-set_at (x ∷ xs) zero v u e = refl
  get_elem?-set_at (x ∷ xs) (suc i) v u e = get_elem?-set_at xs i v u e

  pub get_elem?-append_left :
      (xs ys : List A) (i : ℕ) (u : A) → get_elem? xs i ≡ some u → get_elem? (xs ++ ys) i ≡ some u
  get_elem?-append_left [] ys i u e = absurd (ground (arith, e))
  get_elem?-append_left (x ∷ xs) ys zero u e = e
  get_elem?-append_left (x ∷ xs) ys (suc i) u e = get_elem?-append_left xs ys i u e

  pub get_elem?-append_end : (xs : List A) (v : A) → get_elem? (xs ++ v ∷ []) (length xs) ≡ some v
  get_elem?-append_end [] v = refl
  get_elem?-append_end (x ∷ xs) v = get_elem?-append_end xs v

  pub append_cases :
      (xs : List A) (i : ℕ) (v u : A)
      → get_elem? (xs ++ v ∷ []) i ≡ some u
      → (u ≡ v) ⊎ (get_elem? xs i ≡ some u)
  append_cases [] zero v u e = inl (ground (arith, e))
  append_cases [] (suc i) v u e = absurd (ground (arith, e))
  append_cases (x ∷ xs) zero v u e = inr e
  append_cases (x ∷ xs) (suc i) v u e = append_cases xs i v u e

  pub get_elem?-length : (xs : List A) → get_elem? xs (length xs) ≡ none
  get_elem?-length [] = refl
  get_elem?-length (x ∷ xs) = get_elem?-length xs
