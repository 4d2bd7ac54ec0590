-- ===== src/Archive.antt =====
-- tinyFaaS-ext/pkg/util/zip.go: the unpacking of a function's archive. The reading of the archive and
-- the file system are parameters.
pub mod Inside
use Prim.Native.String
use Prim.Native.Char.{Char, code}
use yuliya_bachelorarbeit.Base.{
  ℕ, zero, suc, ◌==◌, ◌<◌, ◌≤◌, ◌+◌, leb, ltb, ℤ, pos, negsuc, eqb_ℤ, pred_ℤ, leb_ℤ, ltb_ℤ, Bool,
  true, false, not, ◌&&◌, ◌||◌, String, str_eq, Option, none, some, List, [], ◌∷◌, ◌++◌, map,
  get_elem?, if◌then◌else◌, Result, ok, err, ok-injective, Result-cases, ◌≡◌, refl, sym, subst, ◌⊎◌,
  inl, inr, arith, Bool-cases, Option-cases, eq_iff, ap, ◌∙◌,
}
use yuliya_bachelorarbeit.Base.Dict.{Dict, lookup}
use yuliya_bachelorarbeit.Base.Io.{
  Io, pure, fail, attempt, obtain, ignore, step, ◌>>=◌, ◌>>◌, attempt->>-ok, obtain->>=-ok, >>=-ok,
}
use yuliya_bachelorarbeit.Base.Io.{Io, pure, attempt, obtain, ◌>>◌, ◌>>=◌}

-- A relative path in its cleaned form, from its last part to its first; `..` stands only at the end.
abbrev pub FilePath : Type 0
FilePath = List String

-- `zip.File`, as far as it is read.
pub record Entry : Type 0 where
  pub name : String
  pub is_dir : Bool

pub data UnzipError : Type 0 where
  no_archive no_directory not_readable no_file not_copied : UnzipError

-- The calls over the world `W`.
pub record Files (W : Type 0) : Type 0 where
  pub open_reader : String → W → Option (List Entry) × W
  pub open_entry : Entry → W → Bool × W
  pub mkdir_all : FilePath → W → Bool × W
  pub create_file : FilePath → W → Bool × W
  pub copy_into : Entry → FilePath → W → Bool × W

-- The parts between slashes.
unfoldable pub segments : String → List String
segments String.[] = "" ∷ []
segments (String.◌∷◌ c s) =
    let rest = segments s in
    if code c == b'/'
    then "" ∷ rest
    else elim rest [ [] ↦ String.◌∷◌ c "" ∷ [] | part ∷ parts ↦ String.◌∷◌ c part ∷ parts ]

-- `..`
unfoldable pub parent : FilePath → FilePath
parent [] = ".." ∷ []
parent (part ∷ rest) = if str_eq part ".." then ".." ∷ part ∷ rest else rest

unfoldable pub enter : FilePath → String → FilePath
unfolding parent
enter p part =
    if str_eq part "" || str_eq part "." then p else if str_eq part ".." then parent p else part ∷ p

unfoldable pub enter_all : FilePath → List String → FilePath
unfolding enter
enter_all p [] = p
enter_all p (part ∷ parts) = enter_all (enter p part) parts

-- `path.Join(p, name)`, where `p` is clean.
unfoldable pub join : FilePath → String → FilePath
unfolding segments enter_all
join p name = enter_all p (segments name)

module _ {W : Type 0} (d : Files W) where
  unfoldable pub extract : FilePath → Entry → Io W UnzipError (Unit {0})
  unfolding join
  extract p f =
      if f.is_dir
      then attempt (d.mkdir_all (join p f.name)) no_directory
      else (attempt (d.open_entry f) not_readable
          >> (attempt (d.create_file (join p f.name)) no_file
              >> attempt (d.copy_into f (join p f.name)) not_copied))

  unfoldable pub extract_each : FilePath → List Entry → Io W UnzipError (Unit {0})
  unfolding extract
  extract_each p [] = pure tt
  extract_each p (f ∷ fs) = extract p f >> extract_each p fs

  -- `Unzip`
  unfoldable pub unzip : String → FilePath → Io W UnzipError (Unit {0})
  unfolding extract_each
  unzip zip_path p = obtain (d.open_reader zip_path) no_archive >>= extract_each p
