-- ===== src/Base/Io.antt =====
-- A call that may change the state it runs in and may fail: what it changed before it failed stays
-- changed.
use mathlib.Core.Bool.{Bool, true}
use mathlib.Core.Path.{◌≡◌}
use mathlib.Core.Logic.{inl, inr}
use native.Mathlib.Omega.{arith}
use mathlib.Core.Option.{Option, none, some}
use yuliya_bachelorarbeit.Base.Tests.{if◌then◌else◌, Bool-cases, Option-cases}
use yuliya_bachelorarbeit.Base.Outcome.{Result, ok, err, Result-cases}

abbrev pub Io : Type 0 → Type 0 → Type 0 → Type 0
Io S E A = S → Result E A × S

abbrev pub pure : {S E A : Type 0} → A → Io S E A
pure a s = (ok a, s)

abbrev pub fail : {S E A : Type 0} → E → Io S E A
fail e s = (err e, s)

abbrev continue : {S E A B : Type 0} → Result E A → (A → Io S E B) → Io S E B
continue (ok a) f s = f a s
continue (err e) f s = (err e, s)

infixl 5 ◌>>=◌ ◌>>◌
abbrev pub ◌>>=◌ : {S E A B : Type 0} → Io S E A → (A → Io S E B) → Io S E B
◌>>=◌ m f s = let (r, s') = m s in continue r f s'

abbrev pub ◌>>◌ : {S E A B : Type 0} → Io S E A → Io S E B → Io S E B
m >> k = m >>= λ _. k

-- A call that only reports whether it failed, and one that returns a value unless it failed.
abbrev pub attempt : {S E : Type 0} → (S → Bool × S) → E → Io S E (Unit {0})
attempt call e s = let (done, s') = call s in ((if done then ok tt else err e), s')

abbrev pub obtain : {S E A : Type 0} → (S → Option A × S) → E → Io S E A
obtain call e s = let (found, s') = call s in (elim found [ none ↦ err e | some a ↦ ok a ], s')

-- A call whose failure is only logged.
abbrev pub ignore : {S : Type 0} → (S → Bool × S) → S → S
ignore call s = (call s).1

abbrev pub step : {S E : Type 0} → (S → S) → Io S E (Unit {0})
step f s = (ok tt, f s)

-- A chain succeeds only if its first call does, and then it is the rest.
pub attempt->>-ok :
    {S E B : Type 0} (call : S → Bool × S) (e : E) (rest : Io S E B) (s : S) {b : B}
    → ((attempt call e >> rest) s).0 ≡ ok b
    → ((call s).0 ≡ true) × ((attempt call e >> rest) s ≡ rest (call s).1)
attempt->>-ok call e rest s done = elim (Bool-cases (call s).0) [
  | inl good ↦ (good, rw good)
  | inr bad ↦ absurd (ground (arith, bad, done))
]

pub obtain->>=-ok :
    {S E A B : Type 0} (call : S → Option A × S) (e : E) (rest : A → Io S E B) (s : S) {b : B}
    → ((obtain call e >>= rest) s).0 ≡ ok b
    → (a : A) × ((call s).0 ≡ some a) × ((obtain call e >>= rest) s ≡ rest a (call s).1)
obtain->>=-ok call e rest s done = elim (Option-cases (call s).0) [
  | inl gone ↦ absurd (ground (arith, gone, done))
  | inr (a, found) ↦ (a, found, rw found)
]

pub >>=-ok :
    {S E A B : Type 0} (m : Io S E A) (rest : A → Io S E B) (s : S) {b : B}
    → ((m >>= rest) s).0 ≡ ok b
    → (a : A) × ((m s).0 ≡ ok a) × ((m >>= rest) s ≡ rest a (m s).1)
>>=-ok m rest s done = elim (Result-cases (m s).0) [
  | inl (a, good) ↦ (a, good, rw good)
  | inr (e, bad) ↦ absurd (ground (arith, bad, done))
]
