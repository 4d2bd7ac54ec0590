-- ===== src/Base/Dict.antt =====
-- Go's `map` with string keys, as a list of entries in the order in which `range` visits them. Go
-- leaves that order open; a theorem that holds for every such list holds for every order.
use Prim.Native.String.{String}
use mathlib.Core.Path.{◌≡◌, refl}
use mathlib.Core.List.{List, [], ◌∷◌}
use mathlib.Core.Option.{Option, none, some}
use native.Mathlib.Omega.{arith}
use text.Mathlib.Text.{◌==◌}
use text.Mathlib.TextEquality.{eq_iff}
use yuliya_bachelorarbeit.Base.Tests.{if◌then◌else◌}

abbrev pub Dict {ℓ} : Type ℓ → Type ℓ
Dict V = List (String × V)

-- m[key] with its second result
unfoldable pub lookup {ℓ} : {V : Type ℓ} → String → Dict V → Option V
lookup key [] = none
lookup key (entry ∷ rest) = if entry.0 == key then some entry.1 else lookup key rest

-- m[key] = value
unfoldable pub insert {ℓ} : {V : Type ℓ} → String → V → Dict V → Dict V
insert key value [] = (key, value) ∷ []
insert key value (entry ∷ rest) =
    let later = insert key value rest in
    if entry.0 == key then (entry.0, value) ∷ rest else entry ∷ later

-- delete(m, key)
unfoldable pub remove {ℓ} : {V : Type ℓ} → String → Dict V → Dict V
remove key [] = []
remove key (entry ∷ rest) =
    let kept = remove key rest in if entry.0 == key then kept else entry ∷ kept

pub lookup-insert {ℓ} :
    {V : Type ℓ} (key at : String) (value : V) (entries : Dict V)
    → lookup at (insert key value entries) ≡ (if key == at then some value else lookup at entries)
unfolding lookup insert
lookup-insert key at value [] = refl
lookup-insert key at value (entry ∷ rest) =
    ground
      (arith, lookup-insert key at value rest, eq_iff entry.0 key, eq_iff entry.0 at, eq_iff key at)

pub lookup-remove {ℓ} :
    {V : Type ℓ} (key at : String) (entries : Dict V)
    → lookup at (remove key entries) ≡ (if key == at then none else lookup at entries)
unfolding lookup remove
lookup-remove key at [] = ground arith
lookup-remove key at (entry ∷ rest) =
    ground (arith, lookup-remove key at rest, eq_iff entry.0 key, eq_iff entry.0 at, eq_iff key at)
