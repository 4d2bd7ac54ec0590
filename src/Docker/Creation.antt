-- ===== src/Docker/Creation.antt =====
-- tinyFaaS-ext/pkg/docker/handler.go: the containers, the network and the image that `Create` adds.
use Prim.Native.String
use mathlib.Core.List.{append-nil, append_assoc}
use yuliya_bachelorarbeit.Base.{
  ℕ, zero, suc, ℤ, pos, leb_ℤ, Bool, false, ◌||◌, String, List, [], ◌∷◌, ◌++◌, map, ok,
  ok-injective, ◌≡◌, refl, sym, subst, inl, inr, arith, Bool-cases, ap, ◌∙◌,
}
use yuliya_bachelorarbeit.Base.Dict.{Dict}
use yuliya_bachelorarbeit.Base.Io.{pure, attempt->>-ok, obtain->>=-ok, >>=-ok}
use yuliya_bachelorarbeit.Docker.{
  Engine, DockerHandler, create, create_in_engine, create_containers, prepare_folder, env_entry,
  rounds, no_uuid, bad_capacity, no_image, no_network, no_container, no_removal,
}
use yuliya_bachelorarbeit.Docker.Holdings.{
  Kind, container, network, image, build_adds, same, Same, Gains, Moves, Adds, Holdings, any_same,
  Same-trans, Same-refl, same→eq,
}

module _ {W : Type 0} (has : Kind → String → W → Bool) where
  pub Same-Gains : (w w' : W) → Same has w w' → Gains has (λ k i. false) w w'
  unfolding Gains Same
  Same-Gains w w' kept k i = (λ h. absurd (ground (arith, h)), kept k i)

  pub Adds-Gains :
      (kind : Kind) (id : String) (w w' : W) → Adds has kind id w w' → Gains has (same kind id) w w'
  unfolding Gains Adds Moves
  Adds-Gains kind id w w' (fresh, moves) k i = (
    λ h.
        (let (e, f) = same→eq kind k id i h in
          sym (ap (λ k. has k i w) e) ∙ (sym (ap (λ i. has kind i w) f) ∙ fresh)),
    moves k i,
  )

  pub Gains-trans :
      (f g : Kind → String → Bool) (w w' w'' : W)
      → Gains has f w w'
      → Gains has g w' w''
      → Gains has (λ k i. f k i || g k i) w w''
  unfolding Gains
  Gains-trans f g w w' w'' first second k i =
      let (a, b) = first k i in
      let (c, e) = second k i in
      (
        λ any. elim (Bool-cases (f k i)) [ inl y ↦ a y | inr n ↦ ground (arith, b, c, n, any) ],
        ground (arith, b, e),
      )

  pub Gains-Same :
      (f : Kind → String → Bool) (w w' w'' : W)
      → Gains has f w w'
      → Same has w' w''
      → Gains has f w w''
  unfolding Gains Same
  Gains-Same f w w' w'' gains kept k i = let (a, b) = gains k i in (a, kept k i ∙ b)

  pub Same-then-Gains :
      (f : Kind → String → Bool) (w w' w'' : W)
      → Same has w w'
      → Gains has f w' w''
      → Gains has f w w''
  unfolding Gains Same
  Same-then-Gains f w w' w'' kept gains k i =
      let (a, b) = gains k i in let c = kept k i in (λ h. sym c ∙ a h, ground (arith, b, c))

-- What `Create` adds for a handler, in the order of the additions; the image may be missing.
unfoldable pub new_things :
    Bool → (String → Bool) → String → String → List String → Kind → String → Bool
unfolding build_adds
new_things built pulled name network_id cs k i =
    build_adds built pulled name k i || (same network network_id k i || any_same container cs k i)

module _ {W : Type 0} (d : Engine W) (has : Kind → String → W → Bool) (laws : Holdings d has) where
  -- The containers that the loop adds to those made before.
  create_containers-Gains :
      (unique_name : String) (env : List String) (i n : ℕ) (made ids : List String) (w : W)
      → (create_containers d unique_name env i n made w).0 ≡ ok ids
      → (cs : List String) × (ids ≡ made ++ cs)
        × Gains has (any_same container cs) w (create_containers d unique_name env i n made w).1
  unfolding create_containers any_same
  create_containers-Gains unique_name env i zero made ids w done =
      let end : made ≡ ids = ground (arith, done) in
      ([], sym (append-nil made ∙ end), Same-Gains has w w (Same-refl has w))
  create_containers-Gains unique_name env i (suc n) made ids w done =
      let call = d.container_create unique_name i env in
      let (id, found, eq) =
        obtain->>=-ok call no_container
          (λ id. create_containers d unique_name env (suc i) n (made ++ id ∷ [])) w done in
      let first =
        Adds-Gains has container id w _ (laws.container_create-Adds unique_name id i env w found) in
      let (cs, split, rest) =
        create_containers-Gains unique_name env (suc i) n (made ++ id ∷ []) ids _
          (sym (ap (λ r. r.0) eq) ∙ done) in
      (
        id ∷ cs,
        split ∙ append_assoc made (id ∷ []) cs,
        subst (λ r. Gains has (any_same container (id ∷ cs)) w r.1) (sym eq)
            (Gains-trans has _ _ _ _ _ first rest),
      )

  pub Created : DockerHandler → DockerHandler → W → W → Type 0
  Created dh dh' w w' =
      (pulled : String → Bool) × (built : Bool) × (pulled dh'.unique_name ≡ false)
      × (dh'.unique_name ≡ dh.unique_name)
      × Gains has (new_things built pulled dh'.unique_name dh'.network dh'.containers) w w'

  create_in_engine-Created :
      (dh dh' : DockerHandler) (envs : Dict String) (w : W)
      → dh.containers ≡ []
      → (create_in_engine d dh envs w).0 ≡ ok dh'
      → Created dh dh' w (create_in_engine d dh envs w).1
  unfolding create_in_engine Created new_things
  create_in_engine-Created dh dh' envs w empty done =
      let (good, eq) =
        attempt->>-ok (d.image_build dh.unique_name dh.file_path) no_image _ w done in
      let (pulled, built, apart, image_gains) =
        laws.image_build-Gains dh.unique_name dh.file_path w good in
      let w1 = (d.image_build dh.unique_name dh.file_path w).1 in
      let (id, found, eq1) =
        obtain->>=-ok (d.network_create dh.unique_name) no_network _ w1
          (sym (ap (λ r. r.0) eq) ∙ done) in
      let w2 = (d.network_create dh.unique_name w1).1 in
      let network_gains =
        Adds-Gains has network id w1 w2 (laws.network_create-Adds dh.unique_name id w1 found) in
      let done2 = sym (ap (λ r. r.0) (eq ∙ eq1)) ∙ done in
      let envs' = map env_entry envs in
      let loop = create_containers d dh.unique_name envs' 0 (rounds dh.threads) dh.containers in
      let (ids, looped, eq2) = >>=-ok loop _ w2 done2 in
      let (cs, split, container_gains) =
        create_containers-Gains dh.unique_name envs' 0 (rounds dh.threads) dh.containers ids w2
          looped in
      let w3 = (loop w2).1 in
      let (removed, eq3) =
        attempt->>-ok (d.remove_all dh.file_path) no_removal
          (pure (record dh { network = id; containers = ids })) w3
          (sym (ap (λ r. r.0) eq2) ∙ done2) in
      let all = eq ∙ eq1 ∙ eq2 ∙ eq3 in
      let same_ids : ids ≡ cs = split ∙ ap (λ l. l ++ cs) empty in
      let made = record dh { network = id; containers = cs } in
      let result : made ≡ dh' = ok-injective _ _ (
        ap (λ l. ok (record dh { network = id; containers = l })) (sym same_ids)
        ∙ (sym (ap (λ r. r.0) all) ∙ done)) in
      let w4 = (d.remove_all dh.file_path w3).1 in
      let rest_gains = Gains-trans has _ _ w1 w2 w3 network_gains container_gains in
      let before = Gains-trans has _ _ w w1 w3 image_gains rest_gains in
      let gains = Gains-Same has _ w w3 w4 before (laws.remove_all-kept dh.file_path w3) in
      let created : Created dh made w w4 = (pulled, built, apart, refl, gains) in
      subst (λ r. Created dh dh' w r.1) (sym all) (subst (λ x. Created dh x w w4) result created)

  -- Only files change.
  prepare_folder-Same :
      (env filedir folder : String) (w : W) → Same has w (prepare_folder d env filedir folder w).1
  unfolding prepare_folder Same
  prepare_folder-Same env filedir folder w k i =
      let fn = String.◌++◌ folder "/fn" in
      let w1 = (d.mkdir_all folder w).1 in
      let w2 = (d.copy_runtime env folder w1).1 in
      let w3 = (d.mkdir_all fn w2).1 in
      let w4 = (d.copy_all filedir fn w3).1 in
      let a = laws.mkdir_all-kept folder w k i in
      let b = laws.copy_runtime-kept env folder w1 k i in
      let c = laws.mkdir_all-kept fn w2 k i in
      let e = laws.copy_all-kept filedir fn w3 k i in
      let f = laws.archive-kept folder w4 k i in ground (arith, a, b, c, e, f)

  -- What a Create without an error adds: all of it is new.
  pub create-Created :
      (name env filedir : String) (threads : ℤ) (envs : Dict String) (w : W) (dh : DockerHandler)
      → (create d name env threads filedir envs w).0 ≡ ok dh
      → (pulled : String → Bool) × (built : Bool) × (pulled dh.unique_name ≡ false)
        × Gains has
            (new_things built pulled dh.unique_name dh.network dh.containers)
            w
            (create d name env threads filedir envs w).1
        × (has image dh.unique_name w ≡ false)
  unfolding create Created
  create-Created name env filedir threads envs w dh done =
      let (uuid, found, eq0) = obtain->>=-ok d.new_uuid no_uuid _ w done in
      let w1 = (d.new_uuid w).1 in
      let done1 = sym (ap (λ r. r.0) eq0) ∙ done in
      let (fits, eq1) = attempt->>-ok (λ w. (leb_ℤ (pos 0) threads, w)) bad_capacity _ w1 done1 in
      let done2 = sym (ap (λ r. r.0) eq1) ∙ done1 in
      let unique_name = String.◌++◌ name (String.◌++◌ "-" uuid) in
      let folder = String.◌++◌ "tmp/" unique_name in
      let (x, prepared, eq2) = >>=-ok (prepare_folder d env filedir folder) _ w1 done2 in
      let w2 = (prepare_folder d env filedir folder w1).1 in
      let start : DockerHandler = record {
        name = name;
        env = env;
        threads = threads;
        unique_name = unique_name;
        file_path = folder;
        network = "";
        containers = [];
        handler_ips = [];
      } in
      let (pulled, built, apart, named, gains) =
        create_in_engine-Created start dh envs w2 refl (sym (ap (λ r. r.0) eq2) ∙ done2) in
      let kept =
        Same-trans has w w1 w2 (laws.new_uuid-kept w) (prepare_folder-Same env filedir folder w1) in
      (
        pulled,
        built,
        apart,
        subst
            (λ r. Gains has (new_things built pulled dh.unique_name dh.network dh.containers) w r.1)
            (sym (eq0 ∙ (eq1 ∙ eq2))) (Same-then-Gains has _ w w2 _ kept gains),
        ap (λ u. has image u w) named ∙ laws.new_uuid-new w uuid name found,
      )
