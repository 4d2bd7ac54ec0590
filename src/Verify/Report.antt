-- ===== src/Verify/Report.antt =====
-- tinyFaaS-ext/cmd/verify-wiring/main.go: the check of all workers, and the report.
pub mod Agreement
pub mod Backed
pub mod Deadline
pub mod Off
use Prim.Native.String
use Prim.Native.Char.{Char, code}
use text.Mathlib.Text.{is_lt}
use yuliya_bachelorarbeit.Base.{
  ℕ, zero, suc, ◌==◌, ◌<◌, ◌≤◌, ◌+◌, leb, ltb, ℤ, pos, negsuc, eqb_ℤ, pred_ℤ, leb_ℤ, ltb_ℤ, Bool,
  true, false, not, ◌&&◌, ◌||◌, String, str_eq, Option, none, some, List, [], ◌∷◌, length, set,
  count_if, max_int, suc_int, ◌≤ℤ◌, All, In, ◌++◌, map, get_elem?, if◌then◌else◌, Result, ok, err,
  ok-injective, Result-cases, ◌≡◌, refl, sym, subst, ◌⊎◌, inl, inr, arith, Bool-cases, Option-cases,
  eq_iff, ap, ◌∙◌,
}
use yuliya_bachelorarbeit.Base.Dict.{Dict, lookup, insert}
use yuliya_bachelorarbeit.Base.Io.{
  Io, pure, fail, attempt, obtain, ignore, step, ◌>>=◌, ◌>>◌, attempt->>-ok, obtain->>=-ok, >>=-ok,
}
use yuliya_bachelorarbeit.Base.Decimal.{cut}
use yuliya_bachelorarbeit.Node.{Node}
use yuliya_bachelorarbeit.Relay.{Bricklets, RelayError}
use yuliya_bachelorarbeit.Verify.{
  Watts, Bench, Verified, set_relay, verify_worker, settle_after_off,
}

-- The verdict on a worker.
pub data Verdict : Type 0 where
  fine wrong_address no_response : Verdict
  no_power : Option RelayError → Verdict
  mismatch : String → Verdict

unfoldable pub verdict : Bool → Verified → Verdict
verdict energy_checked r =
    if not r.powered_ok
    then no_power r.note
    else if not r.address_ok
    then wrong_address
    else if energy_checked && str_eq r.saw_bricklet ""
    then no_response
    else if energy_checked && not r.bricklet_ok
    then mismatch r.saw_bricklet
    else fine

abbrev pub is_problem : Verdict → Bool
is_problem fine = false
is_problem _ = true

-- The problems that `report` counts; the process exits with an error unless there are none.
unfoldable pub problems : Bool → List Verified → ℕ
unfolding verdict
problems energy_checked results = count_if (λ r. is_problem (verdict energy_checked r)) results

-- `sort.Slice` by the ids.
unfoldable pub place_worker : Node → List Node → List Node
place_worker n [] = n ∷ []
place_worker n (m ∷ ms) =
    let rest = place_worker n ms in
    if is_lt (String.compare m.id n.id) then m ∷ rest else n ∷ m ∷ ms

-- The nodes behind a relay, in the order of their ids.
unfoldable pub workers_of : List Node → List Node
unfolding place_worker
workers_of [] = []
workers_of (n ∷ ns) = let rest = workers_of ns in if n.local then rest else place_worker n rest

-- How a run ends: a relay that does not switch off at the start, fuel that has run out, or a report.
pub data Ending : Type 0 where
  gave_up : String → RelayError → Ending
  out_of_fuel : Ending
  reported : List Verified → Ending

module _ {W : Type 0} (b : Bricklets W) where
  -- Everything off; an error ends the process.
  unfoldable pub power_all_off : List Node → W → Option (String × RelayError) × W
  unfolding set_relay
  power_all_off [] w = (none, w)
  power_all_off (n ∷ ns) w =
      let (result, w') = set_relay b n.relay_uid n.channel false w in
      let rest = power_all_off ns w' in elim result [ err e ↦ (some (n.id, e), w') | ok _ ↦ rest ]

  -- Everything off at the end; errors are ignored.
  unfoldable pub leave_all_off : List Node → W → W
  unfolding set_relay
  leave_all_off [] w = w
  leave_all_off (n ∷ ns) w = leave_all_off ns (set_relay b n.relay_uid n.channel false w).1

module _ {W D : Type 0} (b : Bricklets W) (e : Bench W) (f : Watts D) where
  unfoldable pub verify_all : List String → List Node → W → Option (List Verified) × W
  unfolding verify_worker
  verify_all vcs [] w = (some [], w)
  verify_all vcs (n ∷ ns) w =
      let (one, w') = verify_worker b e f vcs n w in
      let (rest, w'') = verify_all vcs ns w' in
      elim one [
        | none ↦ (none, w')
        | some r ↦ ((elim rest [ none ↦ none | some rs ↦ some (r ∷ rs) ]), w'')
      ]

  -- `main` from the connections on, for the workers and the nodes with a bricklet.
  unfoldable pub run : List String → List Node → W → Ending × W
  unfolding power_all_off verify_all leave_all_off
  run vcs workers w =
      let (failed, w1) = power_all_off b workers w in
      let (results, w2) = verify_all vcs workers (e.sleep settle_after_off w1) in
      elim failed [
        | some (id, problem) ↦ (gave_up id problem, w1)
        | none ↦ elim results [
          | none ↦ (out_of_fuel, w2)
          | some rs ↦ (reported rs, leave_all_off b workers w2)
        ]
      ]

-- `unicode.IsSpace`
unfoldable pub is_space : Char → Bool
is_space c =
    let n = code c in
    (leb 9 n && leb n 13)
    || n == 32
    || n == 133
    || n == 160
    || n == 5760
    || (leb 8192 n && leb n 8202)
    || n == 8232
    || n == 8233
    || n == 8239
    || n == 8287
    || n == 12288

-- `strings.TrimSpace`
unfoldable pub trim_left : String → String
unfolding is_space
trim_left String.[] = ""
trim_left (String.◌∷◌ c s) = let rest = trim_left s in if is_space c then rest else String.◌∷◌ c s

unfoldable pub trim_right : String → String
unfolding is_space
trim_right String.[] = ""
trim_right (String.◌∷◌ c s) =
    let rest = trim_right s in if is_space c && str_eq rest "" then "" else String.◌∷◌ c rest

abbrev pub trim_space : String → String
trim_space s = trim_left (trim_right s)

-- `strings.Split` at a comma.
unfoldable pub split : String → List String
split String.[] = "" ∷ []
split (String.◌∷◌ c s) =
    let rest = split s in
    if code c == b','
    then "" ∷ rest
    else elim rest [ [] ↦ String.◌∷◌ c "" ∷ [] | part ∷ parts ↦ String.◌∷◌ c part ∷ parts ]

pub data SpecError : Type 0 where
  not_set : SpecError
  malformed : String → SpecError

unfoldable pub read_pairs : List String → Dict String → Result SpecError (Dict String)
unfolding cut insert trim_left trim_right
read_pairs [] out = ok out
read_pairs (pair ∷ pairs) out = elim (cut b'=' (trim_space pair)) [
  | none ↦ err (malformed pair)
  | some (name, uid) ↦ read_pairs pairs (insert (trim_space name) (trim_space uid) out)
]

-- `parseBricklets`
unfoldable pub parse_bricklets : String → Result SpecError (Dict String)
unfolding split read_pairs
parse_bricklets spec =
    if str_eq (trim_space spec) "" then err not_set else read_pairs (split spec) []
