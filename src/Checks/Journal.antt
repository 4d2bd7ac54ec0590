-- ===== src/Checks/Journal.antt =====
-- An engine that keeps a journal of the containers, networks and images that came and went.
use Prim.Native.String
use yuliya_bachelorarbeit.Base.{
  ℕ, zero, suc, Bool, true, false, not, ◌&&◌, str_eq, eq_iff, sym, ap, ◌∙◌, String, Option, none,
  some, List, [], ◌∷◌, if◌then◌else◌, ◌≡◌, refl, subst, inl, inr, arith, Bool-cases, Option-cases,
}
use yuliya_bachelorarbeit.Docker.{Engine}
use yuliya_bachelorarbeit.Docker.Holdings.{
  Kind, container, network, image, same, Same, same→eq, Gains, pulls, build_adds, Moves, Adds,
  Holdings, any_same,
}

abbrev pub Journal : Type 0
Journal = List (Kind × String × Bool)

unfoldable pub has : Kind → String → Journal → Bool
unfolding same
has k i [] = false
has k i ((kind, id, there) ∷ w) = if same kind id k i then there else has k i w

unfoldable pub also : String → Option (List String) → Option (List String)
also id none = none
also id (some ids) = some (id ∷ ids)

-- The things of one kind, unless one was removed.
unfoldable pub listed_containers : Journal → Option (List String)
listed_containers [] = some []
listed_containers ((container, id, true) ∷ w) = also id (listed_containers w)
listed_containers ((container, id, false) ∷ w) = none
listed_containers ((network, id, there) ∷ w) = listed_containers w
listed_containers ((image, id, there) ∷ w) = listed_containers w

unfoldable pub listed_networks : Journal → Option (List String)
listed_networks [] = some []
listed_networks ((network, id, true) ∷ w) = also id (listed_networks w)
listed_networks ((network, id, false) ∷ w) = none
listed_networks ((container, id, there) ∷ w) = listed_networks w
listed_networks ((image, id, there) ∷ w) = listed_networks w

unfoldable pub no_images : Journal → Bool
no_images [] = true
no_images ((image, id, there) ∷ w) = false
no_images ((container, id, there) ∷ w) = no_images w
no_images ((network, id, there) ∷ w) = no_images w

-- One more thing with a new id.
unfoldable pub add : Kind → String → Journal → Option String × Journal
unfolding has
add kind id w = if has kind id w then (none, w) else (some id, (kind, id, true) ∷ w)

unfoldable pub remove : Kind → String → Journal → Bool × Journal
unfolding has
remove kind id w = (has kind id w, (kind, id, false) ∷ w)

abbrev pub container_id : String → ℕ → String
container_id name zero = String.◌++◌ name "-0"
container_id name (suc n) = String.◌++◌ name "-1"

-- The image that the Dockerfile of a function in Go starts from.
abbrev go_image : String
go_image = "golang:1.22-alpine3.19"

abbrev done : Journal → Bool × Journal
done w = (true, w)

unfoldable pub engine : Engine Journal
unfolding add remove listed_containers listed_networks no_images
engine = record {
  container_list = λ w. (listed_containers w, w);
  container_create = λ name i env. add container (container_id name i);
  container_start = λ c. done;
  container_stop = λ c. done;
  container_remove = remove container;
  container_logs = λ c w. (some "log", w);
  inspect = λ c w. (some (("f-u", "10.0.0.2") ∷ []), w);
  network_list = λ w. (listed_networks w, w);
  network_create = add network;
  network_remove = remove network;
  image_build = λ name folder w. (true, (add image go_image (add image name w).1).1);
  image_remove = remove image;
  ping = done;
  get_health = λ ip w. (some 200, w);
  sleep_second = λ w. w;
  new_uuid = λ w. ((if no_images w then some "u" else none), w);
  mkdir_all = λ folder. done;
  copy_runtime = λ env folder. done;
  copy_all = λ from to. done;
  archive = λ folder. done;
  remove_all = λ folder. done;
}

add-Adds :
    (kind : Kind) (id i : String) (w : Journal)
    → (add kind id w).0 ≡ some i
    → Adds has kind i w (add kind id w).1
unfolding add has Adds Moves
add-Adds kind id i w found = elim (Bool-cases (has kind id w)) [
  | inl taken ↦ absurd (ground (arith, taken, found))
  | inr free ↦
      let e : id ≡ i = ground (arith, free, found) in
      subst
        (λ i.
          (has kind i w ≡ false)
          × ((k : Kind) (j : String)
              → has k j (add kind id w).1 ≡ (if same kind i k j then true else has k j w)))
        e (free, λ k j. rw free refl)
]

-- What an addition adds, whether or not it does.
add-Gains :
    (kind : Kind) (id : String) (w : Journal)
    → Gains has (λ k i. not (has kind id w) && same kind id k i) w (add kind id w).1
unfolding Gains add has
add-Gains kind id w k i = elim (Bool-cases (has kind id w)) [
  | inl taken ↦ rw taken (λ h. absurd (ground (arith, h)), refl)
  | inr free ↦ (
    λ h.
        (let (e, f) = same→eq kind k id i (ground (arith, h)) in
          sym (ap (λ k. has k i w) e) ∙ (sym (ap (λ i. has kind i w) f) ∙ free)),
    rw free refl,
  )
]

pulls-same :
    (new : Bool) (k : Kind) (i : String)
    → pulls (λ i. new && str_eq go_image i) k i ≡ (new && same image go_image k i)
unfolding pulls same
pulls-same new container i = ground arith
pulls-same new network i = ground arith
pulls-same new image i = refl

new_pull :
    (name : String) (w : Journal)
    → (not (has image go_image (add image name w).1) && str_eq go_image name) ≡ false
unfolding add has same
new_pull name w = elim (Bool-cases (str_eq go_image name)) [
  | inr other ↦ ground (arith, other)
  | inl mine ↦
      let e = (eq_iff go_image name).0 mine in
      subst (λ x. (not (has image go_image (add image x w).1) && str_eq go_image x) ≡ false) e
        (ground arith)
]

-- A build adds its image and the one that the Dockerfile starts from.
build-Gains :
    (name : String) (w : Journal)
    → (pulled : String → Bool) × (built : Bool) × (pulled name ≡ false)
      × Gains has (build_adds built pulled name) w (add image go_image (add image name w).1).1
unfolding build_adds Gains
build-Gains name w =
    let w1 = (add image name w).1 in
    let new = not (has image go_image w1) in
    let pulled : String → Bool = λ i. new && str_eq go_image i in
    (
      pulled,
      not (has image name w),
      new_pull name w,
      λ k i.
          let (a, b) = add-Gains image name w k i in
          let (c, e) = add-Gains image go_image w1 k i in
          let p = pulls-same new k i in
          (
            λ any. elim (Bool-cases (not (has image name w) && same image name k i)) [
              | inl y ↦ a y
              | inr n ↦ ground (arith, b, c, n, any, p)
            ],
            ground (arith, b, e, p),
          ),
    )

pub remove-Moves :
    (kind : Kind) (id : String) (w : Journal) → Moves has false kind id w (remove kind id w).1
unfolding remove has Moves
remove-Moves kind id w k i = refl

no_images-has : (w : Journal) → no_images w ≡ true → (i : String) → has image i w ≡ false
unfolding no_images has same
no_images-has [] clean i = refl
no_images-has ((image, id, there) ∷ w) clean i = absurd (ground (arith, clean))
no_images-has ((container, id, there) ∷ w) clean i = no_images-has w clean i
no_images-has ((network, id, there) ∷ w) clean i = no_images-has w clean i

pub listed_containers-has :
    (w : Journal) (ids : List String)
    → listed_containers w ≡ some ids
    → (i : String) → any_same container ids container i ≡ has container i w
unfolding listed_containers also has any_same same
listed_containers-has [] ids found i =
    let e : [] ≡ ids = ground (arith, found) in
    subst (λ ids. any_same container ids container i ≡ false) e refl
listed_containers-has ((container, id, true) ∷ w) ids found i =
    elim (Option-cases (listed_containers w)) [
      | inl gone ↦ absurd (ground (arith, gone, found))
      | inr (rest, listed) ↦
          let e : id ∷ rest ≡ ids = ground (arith, listed, found) in
          let tail = listed_containers-has w rest listed i in
          subst
            (λ ids.
              any_same container ids container i
              ≡ (if same container id container i then true else has container i w))
            e (ground (arith, tail))
    ]
listed_containers-has ((container, id, false) ∷ w) ids found i = absurd (ground (arith, found))
listed_containers-has ((network, id, there) ∷ w) ids found i = listed_containers-has w ids found i
listed_containers-has ((image, id, there) ∷ w) ids found i = listed_containers-has w ids found i

pub listed_networks-has :
    (w : Journal) (ids : List String)
    → listed_networks w ≡ some ids
    → (i : String) → any_same network ids network i ≡ has network i w
unfolding listed_networks also has any_same same
listed_networks-has [] ids found i =
    let e : [] ≡ ids = ground (arith, found) in
    subst (λ ids. any_same network ids network i ≡ false) e refl
listed_networks-has ((network, id, true) ∷ w) ids found i =
    elim (Option-cases (listed_networks w)) [
      | inl gone ↦ absurd (ground (arith, gone, found))
      | inr (rest, listed) ↦
          let e : id ∷ rest ≡ ids = ground (arith, listed, found) in
          let tail = listed_networks-has w rest listed i in
          subst
            (λ ids.
              any_same network ids network i
              ≡ (if same network id network i then true else has network i w))
            e (ground (arith, tail))
    ]
listed_networks-has ((network, id, false) ∷ w) ids found i = absurd (ground (arith, found))
listed_networks-has ((container, id, there) ∷ w) ids found i = listed_networks-has w ids found i
listed_networks-has ((image, id, there) ∷ w) ids found i = listed_networks-has w ids found i

pub engine-Holdings : Holdings engine has
unfolding engine Same remove add has same no_images
engine-Holdings = record {
  new_uuid-kept = λ w k i. refl;
  new_uuid-new = λ w uuid name found.
      no_images-has w (ground (arith, found)) (String.◌++◌ name (String.◌++◌ "-" uuid));
  mkdir_all-kept = λ f w k i. refl;
  copy_runtime-kept = λ e f w k i. refl;
  copy_all-kept = λ a b w k i. refl;
  archive-kept = λ f w k i. refl;
  remove_all-kept = λ f w k i. refl;
  container_start-kept = λ c w k i. refl;
  container_stop-kept = λ c w k i. refl;
  container_logs-kept = λ c w k i. refl;
  inspect-kept = λ c w k i. refl;
  get_health-kept = λ ip w k i. refl;
  sleep_second-kept = λ w k i. refl;
  container_list-kept = λ w k i. refl;
  network_list-kept = λ w k i. refl;
  image_build-Gains = λ name f w good. build-Gains name w;
  network_create-Adds = λ name id w. add-Adds network name id w;
  container_create-Adds = λ name id i env w. add-Adds container (container_id name i) id w;
  network_remove-Moves = λ id w good. remove-Moves network id w;
  image_remove-had = λ name w good. good;
  image_remove-Moves = λ name w good. remove-Moves image name w;
}
