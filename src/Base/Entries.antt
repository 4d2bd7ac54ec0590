-- ===== src/Base/Entries.antt =====
-- Maps whose keys are written before a separator.
use Prim.Native.String
use Prim.Native.String.{String}
use Prim.Native.Char.{Char, code}
use Prim.Native.Nat.{ℕ}
use mathlib.Core.Path.{◌≡◌, refl, ap, ◌∙◌}
use mathlib.Core.Bool.{false}
use mathlib.Core.List.{[], ◌∷◌, ◌++◌}
use mathlib.Core.Option.{none, some}
use native.Mathlib.Omega.{arith}
use text.Mathlib.Text.{◌==◌ as str_eq}
use text.Mathlib.TextEquality.{eq_iff}
use text.Mathlib.TextLemmas.{nil-append, cons-append}
use yuliya_bachelorarbeit.Base.Dict.{Dict, lookup, insert}
use yuliya_bachelorarbeit.Base.Decimal.{cut, holds, cut-append}

-- As in a map, no key stands twice; and no key has the character of this code.
unfoldable pub Plain : ℕ → Dict String → Type 0
unfolding lookup holds
Plain c [] = Unit
Plain c (entry ∷ rest) = (lookup entry.0 rest ≡ none) × (holds c entry.0 ≡ false) × Plain c rest

pub lookup-append :
    (k : String) (xs ys : Dict String)
    → lookup k (xs ++ ys) ≡ elim (lookup k xs) [ none ↦ lookup k ys | some v ↦ some v ]
unfolding lookup
lookup-append k [] ys = refl
lookup-append k (x ∷ xs) ys = let rest = lookup-append k xs ys in ground (arith, rest)

-- A key behind others is not among them.
pub Plain-lookup :
    (c : ℕ) (k v : String) (xs ys : Dict String) → Plain c (xs ++ (k, v) ∷ ys) → lookup k xs ≡ none
unfolding Plain lookup
Plain-lookup c k v [] ys plain = refl
Plain-lookup c k v (x ∷ xs) ys (new, free, plain) =
    let rest = Plain-lookup c k v xs ys plain in
    let later = lookup-append x.0 xs ((k, v) ∷ ys) in
    ground (arith, rest, later, new, eq_iff x.0 k, eq_iff k x.0)

pub insert-new :
    (k v : String) (xs : Dict String) → lookup k xs ≡ none → insert k v xs ≡ xs ++ (k, v) ∷ []
unfolding insert lookup
insert-new k v [] new = refl
insert-new k v (x ∷ xs) new =
    let rest = insert-new k v xs (ground (arith, new)) in
    let other : str_eq x.0 k ≡ false = ground (arith, new) in rw (other, rest) refl

pub Plain-head :
    (c : ℕ) (x : String × String) (xs ys : Dict String)
    → Plain c (xs ++ x ∷ ys)
    → holds c x.0 ≡ false
unfolding Plain
Plain-head c x [] ys (new, free, plain) = free
Plain-head c x (y ∷ xs) ys (new, free, plain) = Plain-head c x xs ys plain

-- An entry with a separator that is not in the key.
pub cut-entry :
    (separator : Char) (text k v : String)
    → holds (code separator) k ≡ false
    → text ≡ String.◌∷◌ separator ""
    → cut (code separator) (String.◌++◌ k (String.◌++◌ text v)) ≡ some (k, v)
cut-entry separator text k v free e =
    let split : String.◌++◌ text v ≡ String.◌∷◌ separator v =
      ap (λ t. String.◌++◌ t v) e
      ∙ (cons-append separator "" v ∙ ap (λ t. String.◌∷◌ separator t) (nil-append v)) in
    ap (λ t. cut (code separator) (String.◌++◌ k t)) split ∙ cut-append separator k v free
