-- ===== src/Manager/Creation.antt =====
-- What a creation leaves of the functions of a node.
use yuliya_bachelorarbeit.Base.{
  ℕ, Bool, String, eq_iff, Option, none, some, List, ◌≡◌, ◌≢◌, refl, ◌∙◌, arith, Bool-cases,
  Result-cases, inl, inr,
}
use yuliya_bachelorarbeit.Base.Dict.{lookup, lookup-insert}
use yuliya_bachelorarbeit.Base.Io.{pure, ◌>>=◌, ◌>>◌}
use yuliya_bachelorarbeit.Manager.{
  ManagementService, ManagerError, Handler, Host, Spec, Action, attempt, obtain, set_handler,
  tell_rproxy, tell_created, destroy_old, deploy, with_removal, subfolder_of, create_function,
  unpack, is_alpha_numeric, no_uuid, no_folder, no_zip, not_unzipped, create_failed, start_failed,
  destroy_failed,
}
use Prim.Native.String

-- An action that leaves the functions with other names alone, whether or not it fails.
pub record OthersKept {W A : Type 0} (h : Host W) (name : String) (act : Action h A) : Type 0 where
  pub kept :
      (at : String) (m : ManagementService) (w : W)
      → name ≢ at
      → lookup at (act (m, w)).1.0.function_handlers ≡ lookup at m.function_handlers

module _ {W : Type 0} (h : Host W) (name : String) where
  attempt-OthersKept :
      (call : W → Bool × W) (e : ManagerError) → OthersKept h name (attempt h call e)
  attempt-OthersKept call e = record { kept = λ at m w ne. refl }

  obtain-OthersKept :
      {A : Type 0} (call : W → Option A × W) (e : ManagerError)
      → OthersKept h name (obtain h call e)
  obtain-OthersKept call e = record { kept = λ at m w ne. refl }

  pure-OthersKept : {A : Type 0} (a : A) → OthersKept h name (pure a)
  pure-OthersKept a = record { kept = λ at m w ne. refl }

  chain-OthersKept :
      {A B : Type 0} (act : Action h A) (k : A → Action h B)
      → OthersKept h name act
      → ((a : A) → OthersKept h name (k a))
      → OthersKept h name (act >>= k)
  chain-OthersKept act k first rest = record {
    kept = λ at m w ne. elim (Result-cases (act (m, w)).0) [
      | inl (a, e) ↦
          let (m', w') = (act (m, w)).1 in rw e ((rest a).kept at m' w' ne ∙ first.kept at m w ne)
      | inr (problem, e) ↦ rw e (first.kept at m w ne)
    ];
  }

  set_handler-OthersKept : (fh : Handler) → OthersKept h name (set_handler h name fh)
  set_handler-OthersKept fh = record {
    kept = λ at m w ne.
        ground (arith, lookup-insert name at fh m.function_handlers, eq_iff name at, ne);
  }

  destroy_old-OthersKept : (old : Option Handler) → OthersKept h name (destroy_old h old)
  unfolding destroy_old
  destroy_old-OthersKept none = pure-OthersKept tt
  destroy_old-OthersKept (some old) = attempt-OthersKept (h.destroy old) destroy_failed

  tell_created-OthersKept :
      (spec : Spec) (zip : List ℕ) (fh : Handler)
      → OthersKept h name (tell_created h name spec zip fh)
  unfolding tell_created tell_rproxy
  tell_created-OthersKept spec zip fh = record { kept = λ at m w ne. refl }

  with_removal-OthersKept :
      {A : Type 0} (folder zip_path : String) (act : Action h A)
      → OthersKept h name act
      → OthersKept h name (with_removal h folder zip_path act)
  with_removal-OthersKept folder zip_path act inner = record { kept = inner.kept }

  deploy-OthersKept :
      (spec : Spec) (zip : List ℕ) (folder : String)
      → OthersKept h name (deploy h name spec zip folder)
  unfolding deploy
  deploy-OthersKept spec zip folder = record {
    kept = λ at m w ne.
        let old = lookup name m.function_handlers in
        let told : (fh : Handler)
            → OthersKept h name
                (tell_created h name spec zip fh >> (destroy_old h old >> pure name)) =
          λ fh.
            chain-OthersKept (tell_created h name spec zip fh) (λ _. destroy_old h old >> pure name)
              (tell_created-OthersKept spec zip fh)
              (λ _.
                chain-OthersKept (destroy_old h old) (λ _. pure name) (destroy_old-OthersKept old)
                  (λ _. pure-OthersKept name)) in
        let started : (fh : Handler)
            → OthersKept h name (
                attempt h (h.start fh) start_failed
                >> (tell_created h name spec zip fh >> (destroy_old h old >> pure name))) =
          λ fh.
            chain-OthersKept (attempt h (h.start fh) start_failed) _
              (attempt-OthersKept (h.start fh) start_failed) (λ _. told fh) in
        (chain-OthersKept (obtain h (h.create name spec folder) create_failed) _
            (obtain-OthersKept (h.create name spec folder) create_failed)
            (λ fh.
              chain-OthersKept (set_handler h name fh) _ (set_handler-OthersKept fh)
                (λ _. started fh))).kept
          at m w ne;
  }

  unpack-OthersKept :
      (spec : Spec) (zip : List ℕ) (subfolder uuid : String)
      → OthersKept h name (unpack h name spec zip subfolder uuid)
  unfolding unpack
  unpack-OthersKept spec zip subfolder uuid =
      let p = String.◌++◌ "tmp/" uuid in
      let zip_path = String.◌++◌ p ".zip" in
      let folder = subfolder_of h p subfolder in
      chain-OthersKept (attempt h (h.mkdir_all p) no_folder) _
        (attempt-OthersKept (h.mkdir_all p) no_folder)
        (λ _.
          chain-OthersKept (attempt h (h.write_file zip_path zip) no_zip) _
            (attempt-OthersKept (h.write_file zip_path zip) no_zip)
            (λ _.
              chain-OthersKept (attempt h (h.unzip zip_path p) not_unzipped) _
                (attempt-OthersKept (h.unzip zip_path p) not_unzipped)
                (λ _.
                  with_removal-OthersKept folder zip_path (deploy h name spec zip folder)
                    (deploy-OthersKept spec zip folder))))

  create_function-OthersKept :
      (spec : Spec) (zip : List ℕ) (subfolder : String)
      → OthersKept h name (create_function h name spec zip subfolder)
  unfolding create_function
  create_function-OthersKept spec zip subfolder = elim (Bool-cases (is_alpha_numeric name)) [
    | inr bad ↦ rw (bad, create_function) (record { kept = λ at m w ne. refl })
    | inl good ↦
        rw (good, create_function)
          (chain-OthersKept (obtain h h.new_uuid no_uuid) _ (obtain-OthersKept h.new_uuid no_uuid)
            (λ uuid. unpack-OthersKept spec zip subfolder uuid))
  ]

-- Wherever a creation fails, and whether or not it does, the functions with other names keep their
-- handlers.
pub create_function-lookup :
    {W : Type 0} (h : Host W) (name : String) (spec : Spec) (zip : List ℕ) (subfolder : String)
    (at : String) (m : ManagementService) (w : W)
    → name ≢ at
    → lookup at (create_function h name spec zip subfolder (m, w)).1.0.function_handlers
      ≡ lookup at m.function_handlers
create_function-lookup h name spec zip subfolder =
    (create_function-OthersKept h name spec zip subfolder).kept
