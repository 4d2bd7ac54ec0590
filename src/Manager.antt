-- ===== src/Manager.antt =====
-- tinyFaaS-ext/pkg/manager/manager.go: the management service of one node, which creates and
-- destroys the containers of functions. The backend, the files and the HTTP calls are parameters.
-- Operations run one at a time, as under `functionHandlersMutex`.
pub mod Rounds
pub mod Deletion
pub mod Creation
pub mod Stale
pub mod Service
use yuliya_bachelorarbeit.Base.{
  ℕ, ◌==◌, leb, ℤ, pos, ltb_ℤ, leb_ℤ, since, Bool, true, false, not, ◌&&◌, ◌||◌, String, str_eq,
  Option, none, some, List, [], ◌∷◌, map, if◌then◌else◌, Result, ok, err,
}
use yuliya_bachelorarbeit.Base.Dict.{Dict, lookup, insert, remove}
use yuliya_bachelorarbeit.Base.Io.{Io, pure, fail, ◌>>=◌, ◌>>◌}
use Prim.Native.String
use Prim.Native.Char.{code}

-- A `Handler` of the backend, by its number.
abbrev pub Handler : Type 0
Handler = ℕ

-- The errors of the service. `nil_response` is the panic of reading the status of a response that
-- is nil, which `io.EOF` as the error leaves behind.
pub data ManagerError : Type 0 where
  bad_name not_found : String → ManagerError
  no_uuid no_folder no_zip not_unzipped create_failed start_failed destroy_failed stop_failed :
      ManagerError
  post_failed nil_response not_read : ManagerError
  bad_status : ℕ → ManagerError

-- A function to create.
pub record Spec : Type 0 where
  pub env : String
  pub threads : ℤ
  pub envs : Dict String

-- What the proxy is told: a function's containers and its definition, or only its name.
pub data Notice : Type 0 where
  created : String → List String → Spec → List ℕ → Notice
  deleted : String → Notice

-- What `http.Post` comes to: an error that is `io.EOF` or another one, or a status code and whether
-- the body could be read.
pub data Posted : Type 0 where
  unsent ended : Posted
  posted : ℕ → Bool → Posted

-- The calls of the service over the world `W`. A Boolean is false where the call has an error.
pub record Host (W : Type 0) : Type 0 where
  pub create : String → Spec → String → W → Option Handler × W
  pub ips : Handler → W → List String
  pub start : Handler → W → Bool × W
  pub destroy : Handler → W → Bool × W
  pub post : Notice → W → Posted × W
  pub get_last_used : W → Option (Dict ℕ) × W
  pub new_uuid : W → Option String × W
  pub mkdir_all : String → W → Bool × W
  pub write_file : String → List ℕ → W → Bool × W
  pub unzip : String → String → W → Bool × W
  pub remove_all : String → W → W
  pub remove_file : String → W → W
  pub join : String → String → String
  pub stop : W → Bool × W
  pub now : W → ℕ

pub record ManagementService : Type 0 where
  pub function_handlers : Dict Handler

abbrev pub is_letter_or_digit : ℕ → Bool
is_letter_or_digit n =
    (leb b'a' n && leb n b'z') || (leb b'A' n && leb n b'Z') || (leb b'0' n && leb n b'9')

pub all_alpha_numeric : String → Bool
all_alpha_numeric String.[] = true
all_alpha_numeric (String.◌∷◌ c s) =
    let rest = all_alpha_numeric s in if is_letter_or_digit (code c) then rest else false

-- `IsAlphaNumeric`, which wants at least one character.
unfoldable pub is_alpha_numeric : String → Bool
unfolding all_alpha_numeric
is_alpha_numeric s = if str_eq s "" then false else all_alpha_numeric s

-- What becomes of a notice, by what the proxy answers.
abbrev pub accepted : Posted → Result ManagerError (Unit {0})
accepted unsent = err post_failed
accepted ended = err nil_response
accepted (posted status readable) =
    if not (status == 200)
    then err (bad_status status)
    else if readable
    then ok tt
    else err not_read

-- `List`
abbrev pub names : {V : Type 0} → Dict V → List String
names [] = []
names ((k, v) ∷ m) = k ∷ names m

unfoldable pub list : ManagementService → List String
list m = names m.function_handlers

module _ {W : Type 0} (h : Host W) where
  abbrev pub State : Type 0
  State = ManagementService × W

  abbrev pub Action : Type 0 → Type 0
  Action = Io State ManagerError

  -- A call that only reports whether it failed, and one that returns a value.
  abbrev pub attempt : (W → Bool × W) → ManagerError → Action (Unit {0})
  attempt call e (m, w) = let (done, w') = call w in ((if done then ok tt else err e), (m, w'))

  abbrev pub obtain : {A : Type 0} → (W → Option A × W) → ManagerError → Action A
  obtain call e (m, w) =
      let (found, w') = call w in (elim found [ none ↦ err e | some a ↦ ok a ], (m, w'))

  abbrev pub set_handler : String → Handler → Action (Unit {0})
  set_handler name fh (m, w) =
      (ok tt, (record m { function_handlers = insert name fh m.function_handlers }, w))

  abbrev pub drop_handler : String → Action (Unit {0})
  drop_handler name (m, w) =
      (ok tt, (record m { function_handlers = remove name m.function_handlers }, w))

  unfoldable pub tell_rproxy : Notice → Action (Unit {0})
  tell_rproxy notice (m, w) = let (answer, w') = h.post notice w in (accepted answer, (m, w'))

  -- `oldHandler.Destroy()`, if there is an old one.
  pub destroy_old : Option Handler → Action (Unit {0})
  destroy_old none = pure tt
  destroy_old (some old) = attempt (h.destroy old) destroy_failed

  -- The notice reads the addresses of the containers after they have started.
  pub tell_created : String → Spec → List ℕ → Handler → Action (Unit {0})
  unfolding tell_rproxy
  tell_created name spec zip fh (m, w) = tell_rproxy (created name (h.ips fh w) spec zip) (m, w)

  -- `createFunction` from the unpacked folder on.
  unfoldable pub deploy : String → Spec → List ℕ → String → Action String
  unfolding lookup tell_created destroy_old
  deploy name spec zip folder (m, w) =
      let old = lookup name m.function_handlers in
      (obtain (h.create name spec folder) create_failed >>= λ fh.
      set_handler name fh
      >> (attempt (h.start fh) start_failed
          >> (tell_created name spec zip fh >> (destroy_old old >> pure name))))
        (m, w)

  -- The deferred removal runs whatever the rest comes to. It removes `p` as it stands at the end,
  -- which a subfolder has replaced.
  abbrev pub with_removal : {A : Type 0} → String → String → Action A → Action A
  with_removal folder zip_path run s =
      let (result, (m, w)) = run s in (result, (m, h.remove_file zip_path (h.remove_all folder w)))

  abbrev pub subfolder_of : String → String → String
  subfolder_of p subfolder = if str_eq subfolder "" then p else h.join p subfolder

  -- `createFunction` once it has a name for its files.
  pub unpack : String → Spec → List ℕ → String → String → Action String
  unfolding deploy
  unpack name spec zip subfolder uuid =
      let p = String.◌++◌ "tmp/" uuid in
      let zip_path = String.◌++◌ p ".zip" in
      let folder = subfolder_of p subfolder in
      attempt (h.mkdir_all p) no_folder
      >> (attempt (h.write_file zip_path zip) no_zip
          >> (attempt (h.unzip zip_path p) not_unzipped
              >> with_removal folder zip_path (deploy name spec zip folder)))

  -- `createFunction`
  unfoldable pub create_function : String → Spec → List ℕ → String → Action String
  unfolding is_alpha_numeric unpack
  create_function name spec zip subfolder =
      if not (is_alpha_numeric name)
      then fail (bad_name name)
      else (obtain h.new_uuid no_uuid >>= unpack name spec zip subfolder)

  -- `Delete`
  unfoldable pub delete : String → Action (Unit {0})
  unfolding lookup tell_rproxy
  delete name (m, w) = elim (lookup name m.function_handlers) [
    | none ↦ (err (not_found name), (m, w))
    | some fh ↦
        (attempt (h.destroy fh) destroy_failed >> (tell_rproxy (deleted name) >> drop_handler name))
          (m, w)
  ]
