-- ===== src/Base/Decimal.antt =====
-- Numbers as text, `strings.Cut` at one character, and `strings.ToLower`.
use Prim.Native.String
use Prim.Native.String.{String, char_at}
use Prim.Native.Char.{Char, code}
use Prim.Native.Nat.{ℕ, zero, suc, ◌-◌, ◌%◌, ◌/◌, ◌<◌}
use mathlib.Core.Path.{◌≡◌, refl, ◌∙◌}
use mathlib.Core.Logic.{inl, inr}
use mathlib.Core.Bool.{Bool, true, false, ◌&&◌, ◌||◌}
use mathlib.Core.Option.{Option, none, some}
use text.Mathlib.TextLemmas.{nil-append, cons-append}
use native.Mathlib.Omega.{arith}
use yuliya_bachelorarbeit.Base.Tests.{ltb, leb, ◌==◌, if◌then◌else◌, Bool-cases}
use yuliya_bachelorarbeit.Base.Int.{ℤ, pos, negsuc}

unfoldable pub digit : ℕ → String
digit n =
    if n == 0
    then "0"
    else if n == 1
    then "1"
    else if n == 2
    then "2"
    else if n == 3
    then "3"
    else if n == 4
    then "4"
    else if n == 5
    then "5"
    else if n == 6
    then "6"
    else if n == 7
    then "7"
    else if n == 8
    then "8"
    else "9"

-- `%d`, with fuel for the digits.
unfoldable pub show_digits : ℕ → ℕ → String
unfolding digit
show_digits zero n = ""
show_digits (suc fuel) n =
    let front = show_digits fuel (n / 10) in
    if ltb n 10 then digit n else String.◌++◌ front (digit (n % 10))

unfoldable pub show_int : ℤ → String
unfolding show_digits
show_int (pos n) = show_digits (suc n) n
show_int (negsuc n) = String.◌++◌ "-" (show_digits (suc (suc n)) (suc n))

-- More fuel than the number is enough.
pub show_digits-fuel : (f g n : ℕ) → n < f → n < g → show_digits f n ≡ show_digits g n
unfolding show_digits
show_digits-fuel zero g n p q = absurd (omega (arith, p))
show_digits-fuel f zero n p q = absurd (omega (arith, q))
show_digits-fuel (suc f) (suc g) n p q = elim (Bool-cases (ltb n 10)) [
  | inl small ↦ rw small refl
  | inr large ↦
      let rest =
        show_digits-fuel f g (n / 10) (ground (arith, large, p)) (ground (arith, large, q)) in
      rw (large, rest) refl
]

-- `strings.Cut`
unfoldable pub cut : ℕ → String → Option (String × String)
cut separator String.[] = none
cut separator (String.◌∷◌ c s) =
    let later = cut separator s in
    if code c == separator
    then some ("", s)
    else elim later [ none ↦ none | some (before, after) ↦ some (String.◌∷◌ c before, after) ]

-- A text that has a character.
unfoldable pub holds : ℕ → String → Bool
holds c String.[] = false
holds c (String.◌∷◌ b s) = (code b == c) || holds c s

-- Only the first separator counts.
pub cut-append :
    (separator : Char) (before after : String)
    → holds (code separator) before ≡ false
    → cut (code separator) (String.◌++◌ before (String.◌∷◌ separator after)) ≡ some (before, after)
unfolding cut holds
cut-append separator String.[] after free =
    rw (nil-append (String.◌∷◌ separator after)) (ground arith)
cut-append separator (String.◌∷◌ c s) after free =
    let later = cut-append separator s after (ground (arith, free)) in
    rw (cons-append c s (String.◌∷◌ separator after)) (ground (arith, free, later))

abbrev pub is_upper : Char → Bool
is_upper c = leb b'A' (code c) && leb (code c) b'Z'

-- `strings.ToLower` of a text of ASCII characters.
unfoldable pub to_lower : String → String
to_lower String.[] = String.[]
to_lower (String.◌∷◌ c s) =
    String.◌∷◌ (if is_upper c then char_at "abcdefghijklmnopqrstuvwxyz" (code c - b'A') else c)
      (to_lower s)

unfoldable pub has_upper : String → Bool
has_upper String.[] = false
has_upper (String.◌∷◌ c s) = is_upper c || has_upper s

pub to_lower-id : (s : String) → has_upper s ≡ false → to_lower s ≡ s
unfolding to_lower has_upper
to_lower-id String.[] free = refl
to_lower-id (String.◌∷◌ c s) free =
    let rest = to_lower-id s (ground (arith, free)) in
    let head : is_upper c ≡ false = ground (arith, free) in rw (head, rest) refl

pub has_upper-append : (s t : String) → has_upper (String.◌++◌ s t) ≡ (has_upper s || has_upper t)
unfolding has_upper
has_upper-append String.[] t = rw (nil-append t) refl
has_upper-append (String.◌∷◌ c s) t =
    let rest = has_upper-append s t in rw (cons-append c s t) (ground (arith, rest))

has_upper-if :
    (b : Bool) (s t : String)
    → has_upper s ≡ false
    → has_upper t ≡ false
    → has_upper (if b then s else t) ≡ false
has_upper-if true s t e f = e
has_upper-if false s t e f = f

digit-has_upper : (n : ℕ) → has_upper (digit n) ≡ false
unfolding has_upper digit
digit-has_upper n = has_upper-if (n == 0) _ _ refl (
    has_upper-if (n == 1) _ _ refl (
      has_upper-if (n == 2) _ _ refl (
        has_upper-if (n == 3) _ _ refl (
          has_upper-if (n == 4) _ _ refl (
            has_upper-if (n == 5) _ _ refl (
              has_upper-if (n == 6) _ _ refl
                (has_upper-if (n == 7) _ _ refl (has_upper-if (n == 8) _ _ refl refl))))))))

show_digits-has_upper : (f n : ℕ) → has_upper (show_digits f n) ≡ false
unfolding show_digits has_upper
show_digits-has_upper zero n = refl
show_digits-has_upper (suc f) n = has_upper-if (ltb n 10) _ _ (digit-has_upper n) (
    has_upper-append (show_digits f (n / 10)) (digit (n % 10))
    ∙ rw (show_digits-has_upper f (n / 10), digit-has_upper (n % 10)) refl)

pub show_int-has_upper : (z : ℤ) → has_upper (show_int z) ≡ false
unfolding show_int has_upper
show_int-has_upper (pos n) = show_digits-has_upper (suc n) n
show_int-has_upper (negsuc n) =
    has_upper-append "-" (show_digits (suc (suc n)) (suc n))
    ∙ rw (show_digits-has_upper (suc (suc n)) (suc n)) refl
