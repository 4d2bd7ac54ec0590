-- ===== src/Checks/Archives.antt =====
-- An archive with a folder and a file, unpacked into a world that lists the paths written.
use yuliya_bachelorarbeit.Base.{true, false, some, List, [], ◌∷◌, All, ◌≡◌, refl, subst, arith}
use yuliya_bachelorarbeit.Archive.{
  FilePath, Entry, Files, unzip, extract, extract_each, join, segments, enter, enter_all, parent,
}
use yuliya_bachelorarbeit.Archive.Inside.{Under, climbs, Stays, Beneath, unzip-Holds}

abbrev entries : List Entry
entries =
    record { name = "lib/"; is_dir = true } ∷ record { name = "lib/main.py"; is_dir = false } ∷ []

abbrev disk : Files (List FilePath)
disk = record {
  open_reader = λ path w. (some entries, w);
  open_entry = λ f w. (true, w);
  mkdir_all = λ q w. (true, q ∷ w);
  create_file = λ q w. (true, q ∷ w);
  copy_into = λ f q w. (true, w);
}

abbrev folder : FilePath
folder = "4f" ∷ "tmp" ∷ []

writes : (unzip disk "4f.zip" folder []).1 ≡ ("main.py" ∷ "lib" ∷ folder) ∷ ("lib" ∷ folder) ∷ []
unfolding unzip extract extract_each join segments enter enter_all parent
writes = refl

-- A name can climb out of the folder.
climbs_out : join folder "../evil" ≡ "evil" ∷ "tmp" ∷ []
unfolding join segments enter enter_all parent
climbs_out = refl

abbrev InFolder : List FilePath → Type 0
InFolder = All (Under folder)

disk-Beneath : Beneath disk folder InFolder
disk-Beneath = record {
  reads_archive = λ path w holds. holds;
  reads_entry = λ f w holds. holds;
  makes = λ q w under holds. (under, holds);
  creates = λ q w under holds. (under, holds);
  copies = λ f q w under holds. holds;
}

entries-Stays : Stays entries
unfolding Stays climbs segments
entries-Stays = (refl, (refl, tt))

found_entries : (fs : List Entry) → (disk.open_reader "4f.zip" []).0 ≡ some fs → entries ≡ fs
found_entries fs found = ground (arith, found)

unzip-Holds_example : InFolder (unzip disk "4f.zip" folder []).1
unzip-Holds_example =
    unzip-Holds disk folder InFolder disk-Beneath "4f.zip" []
      (λ fs found. subst Stays (found_entries fs found) entries-Stays) tt
