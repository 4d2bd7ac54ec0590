-- ===== src/Archive/Inside.antt =====
-- tinyFaaS-ext/pkg/util/zip.go: what an archive is unpacked to lies in its folder, unless a name climbs
-- out of it.
use yuliya_bachelorarbeit.Base.{
  Bool, true, false, ◌||◌, String, str_eq, some, List, [], ◌∷◌, All, ◌++◌, if◌then◌else◌,
  Result-cases, ◌≡◌, refl, inl, inr, arith, Bool-cases, Option-cases, ap,
}
use yuliya_bachelorarbeit.Base.Io.{Io, attempt, ◌>>◌}
use yuliya_bachelorarbeit.Archive.{
  no_directory, no_file, not_copied, not_readable, FilePath, Entry, UnzipError, Files, segments,
  enter, enter_all, join, extract, extract_each, unzip,
}

-- A path in a folder, or the folder.
unfoldable pub Under : FilePath → FilePath → Type 0
Under p q = (extra : List String) × (q ≡ extra ++ p)

-- No part of a name is `..`.
unfoldable pub climbs : List String → Bool
climbs [] = false
climbs (part ∷ parts) = str_eq part ".." || climbs parts

unfoldable pub Stays : List Entry → Type 0
unfolding climbs
Stays fs = All (λ f. climbs (segments f.name) ≡ false) fs

enter-Under :
    (p q : FilePath) (part : String) → Under p q → str_eq part ".." ≡ false → Under p (enter q part)
unfolding Under enter
enter-Under p q part (extra, e) stays = elim (Bool-cases (str_eq part "" || str_eq part ".")) [
  | inl here ↦ rw (here, enter) (extra, e)
  | inr deeper ↦ rw (deeper, enter) (rw stays (part ∷ extra, ap (λ q. part ∷ q) e))
]

enter_all-Under :
    (p q : FilePath) (parts : List String)
    → Under p q
    → climbs parts ≡ false
    → Under p (enter_all q parts)
unfolding enter_all climbs
enter_all-Under p q [] under stays = under
enter_all-Under p q (part ∷ parts) under stays =
    enter_all-Under p (enter q part) parts (enter-Under p q part under (ground (arith, stays)))
      (ground (arith, stays))

join-Under : (p : FilePath) (name : String) → climbs (segments name) ≡ false → Under p (join p name)
unfolding join Under
join-Under p name stays = enter_all-Under p p (segments name) ([], refl) stays

chain-Holds :
    {W : Type 0} (Holds : W → Type 0) (call : W → Bool × W) (e : UnzipError)
    (rest : Io W UnzipError (Unit {0})) (w : W)
    → Holds (call w).1
    → Holds (rest (call w).1).1
    → Holds ((attempt call e >> rest) w).1
chain-Holds Holds call e rest w first then_rest = elim (Bool-cases (call w).0) [
  | inl done ↦ rw done then_rest
  | inr failed ↦ rw failed first
]

either-Holds :
    {W : Type 0} (Holds : W → Type 0) (c : Bool) (m k : Io W UnzipError (Unit {0})) (w : W)
    → Holds (m w).1
    → Holds (k w).1
    → Holds ((if c then m else k) w).1
either-Holds Holds true m k w first second = first
either-Holds Holds false m k w first second = second

module _ {W : Type 0} (d : Files W) where
  -- What all writes beneath a folder preserve.
  pub record Beneath (p : FilePath) (Holds : W → Type 0) : Type 0 where
    pub reads_archive : (path : String) (w : W) → Holds w → Holds (d.open_reader path w).1
    pub reads_entry : (f : Entry) (w : W) → Holds w → Holds (d.open_entry f w).1
    pub makes : (q : FilePath) (w : W) → Under p q → Holds w → Holds (d.mkdir_all q w).1
    pub creates : (q : FilePath) (w : W) → Under p q → Holds w → Holds (d.create_file q w).1
    pub copies :
        (f : Entry) (q : FilePath) (w : W) → Under p q → Holds w → Holds (d.copy_into f q w).1

  module _ (p : FilePath) (Holds : W → Type 0) (beneath : Beneath p Holds) where
    extract-Holds :
        (f : Entry) (w : W) → climbs (segments f.name) ≡ false → Holds w → Holds (extract d p f w).1
    unfolding extract
    extract-Holds f w stays holds =
        let q = join p f.name in
        let under = join-Under p f.name stays in
        let opened = beneath.reads_entry f w holds in
        let created = beneath.creates q (d.open_entry f w).1 under opened in
        let write = attempt (d.create_file q) no_file >> attempt (d.copy_into f q) not_copied in
        either-Holds Holds f.is_dir (attempt (d.mkdir_all q) no_directory)
          (attempt (d.open_entry f) not_readable >> write) w (beneath.makes q w under holds)
          (chain-Holds Holds (d.open_entry f) not_readable write w opened (
            chain-Holds Holds (d.create_file q) no_file (attempt (d.copy_into f q) not_copied)
              (d.open_entry f w).1 created
              (beneath.copies f q (d.create_file q (d.open_entry f w).1).1 under created)))

    extract_each-Holds :
        (fs : List Entry) (w : W) → Stays fs → Holds w → Holds (extract_each d p fs w).1
    unfolding extract_each Stays
    extract_each-Holds [] w stays holds = holds
    extract_each-Holds (f ∷ fs) w (here, later) holds =
        let first = extract-Holds f w here holds in
        elim (Result-cases (extract d p f w).0) [
          | inr (e, failed) ↦ rw (failed, extract_each) first
          | inl (_, done) ↦
              rw (done, extract_each) (extract_each-Holds fs (extract d p f w).1 later first)
        ]

    -- Whatever all writes beneath the folder preserve, Unzip into the folder preserves, whether or not
    -- it fails, if no name in the archive has a part `..`.
    pub unzip-Holds :
        (zip_path : String) (w : W)
        → ((fs : List Entry) → (d.open_reader zip_path w).0 ≡ some fs → Stays fs)
        → Holds w
        → Holds (unzip d zip_path p w).1
    unfolding unzip
    unzip-Holds zip_path w stays holds =
        let opened = beneath.reads_archive zip_path w holds in
        elim (Option-cases (d.open_reader zip_path w).0) [
          | inl none_there ↦ rw (none_there, unzip) opened
          | inr (fs, found) ↦
              rw (found, unzip)
                (extract_each-Holds fs (d.open_reader zip_path w).1 (stays fs found) opened)
        ]
