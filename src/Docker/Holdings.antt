-- ===== src/Docker/Holdings.antt =====
-- tinyFaaS-ext/pkg/docker/handler.go: what the handler relies on of the Docker engine, as to which
-- containers, networks and images there are.
use yuliya_bachelorarbeit.Base.{
  ℕ, Bool, true, false, ◌&&◌, ◌||◌, String, str_eq, Option, some, List, [], ◌∷◌, if◌then◌else◌, ◌≡◌,
  refl, arith, ◌∙◌, eq_iff,
}
use Prim.Native.String
use yuliya_bachelorarbeit.Docker.{Engine}

-- Containers and networks go by their ids, images by their names.
pub data Kind : Type 0 where
  container network image : Kind

unfoldable pub same : Kind → String → Kind → String → Bool
same container a container b = str_eq a b
same network a network b = str_eq a b
same image a image b = str_eq a b
same _ _ _ _ = false

pub same→eq : (kind k : Kind) (a b : String) → same kind a k b ≡ true → (kind ≡ k) × (a ≡ b)
unfolding same
same→eq container container a b h = (refl, (eq_iff a b).0 h)
same→eq network network a b h = (refl, (eq_iff a b).0 h)
same→eq image image a b h = (refl, (eq_iff a b).0 h)
same→eq container network a b h = absurd (ground (arith, h))
same→eq container image a b h = absurd (ground (arith, h))
same→eq network container a b h = absurd (ground (arith, h))
same→eq network image a b h = absurd (ground (arith, h))
same→eq image container a b h = absurd (ground (arith, h))
same→eq image network a b h = absurd (ground (arith, h))

-- Images of these names.
unfoldable pub pulls : (String → Bool) → Kind → String → Bool
pulls pulled image i = pulled i
pulls pulled container i = false
pulls pulled network i = false

-- What a build of the image `name` adds: the image, if it was built, and what it has pulled.
unfoldable pub build_adds : Bool → (String → Bool) → String → Kind → String → Bool
unfolding same pulls
build_adds built pulled name k i = (built && same image name k i) || pulls pulled k i

module _ {W : Type 0} (has : Kind → String → W → Bool) where
  -- Exactly these things are new.
  unfoldable pub Gains : (Kind → String → Bool) → W → W → Type 0
  Gains new w w' =
      (k : Kind) (i : String)
      → (new k i ≡ true → has k i w ≡ false) × (has k i w' ≡ (if new k i then true else has k i w))

  unfoldable pub Same : W → W → Type 0
  Same w w' = (k : Kind) (i : String) → has k i w' ≡ has k i w

  -- One thing is there or not, and all else is as it was.
  unfoldable pub Moves : Bool → Kind → String → W → W → Type 0
  Moves b kind id w w' =
      (k : Kind) (i : String) → has k i w' ≡ (if same kind id k i then b else has k i w)

  -- Only what was not there is added.
  unfoldable pub Adds : Kind → String → W → W → Type 0
  Adds kind id w w' = (has kind id w ≡ false) × Moves true kind id w w'

-- A creation gives a new id. A build can report success and leave no image, since its errors are in
-- the stream that it returns, and it pulls the images that its Dockerfile starts from. What is removed was there. A UUID is in no image's name.
pub record Holdings {W : Type 0} (d : Engine W) (has : Kind → String → W → Bool) : Type 0 where
  pub new_uuid-kept : (w : W) → Same has w (d.new_uuid w).1
  pub new_uuid-new :
      (w : W) (uuid name : String)
      → (d.new_uuid w).0 ≡ some uuid
      → has image (String.◌++◌ name (String.◌++◌ "-" uuid)) w ≡ false
  pub mkdir_all-kept : (f : String) (w : W) → Same has w (d.mkdir_all f w).1
  pub copy_runtime-kept : (e f : String) (w : W) → Same has w (d.copy_runtime e f w).1
  pub copy_all-kept : (a b : String) (w : W) → Same has w (d.copy_all a b w).1
  pub archive-kept : (f : String) (w : W) → Same has w (d.archive f w).1
  pub remove_all-kept : (f : String) (w : W) → Same has w (d.remove_all f w).1
  pub container_start-kept : (c : String) (w : W) → Same has w (d.container_start c w).1
  pub container_stop-kept : (c : String) (w : W) → Same has w (d.container_stop c w).1
  pub container_logs-kept : (c : String) (w : W) → Same has w (d.container_logs c w).1
  pub inspect-kept : (c : String) (w : W) → Same has w (d.inspect c w).1
  pub get_health-kept : (ip : String) (w : W) → Same has w (d.get_health ip w).1
  pub sleep_second-kept : (w : W) → Same has w (d.sleep_second w)
  pub container_list-kept : (w : W) → Same has w (d.container_list w).1
  pub network_list-kept : (w : W) → Same has w (d.network_list w).1
  pub image_build-Gains :
      (name f : String) (w : W)
      → (d.image_build name f w).0 ≡ true
      → (pulled : String → Bool) × (built : Bool) × (pulled name ≡ false)
        × Gains has (build_adds built pulled name) w (d.image_build name f w).1
  pub network_create-Adds :
      (name id : String) (w : W)
      → (d.network_create name w).0 ≡ some id
      → Adds has network id w (d.network_create name w).1
  pub container_create-Adds :
      (name id : String) (i : ℕ) (env : List String) (w : W)
      → (d.container_create name i env w).0 ≡ some id
      → Adds has container id w (d.container_create name i env w).1
  pub network_remove-Moves :
      (id : String) (w : W)
      → (d.network_remove id w).0 ≡ true
      → Moves has false network id w (d.network_remove id w).1
  pub image_remove-had :
      (name : String) (w : W) → (d.image_remove name w).0 ≡ true → has image name w ≡ true
  pub image_remove-Moves :
      (name : String) (w : W)
      → (d.image_remove name w).0 ≡ true
      → Moves has false image name w (d.image_remove name w).1

module _ {W : Type 0} (has : Kind → String → W → Bool) where
  -- A removal takes effect: afterwards the thing is not there.
  unfoldable pub TakesEffect : Kind → (String → W → Bool × W) → Type 0
  TakesEffect kind remove = (id : String) (w : W) → Moves has false kind id w (remove id w).1

  pub Same-refl : (w : W) → Same has w w
  unfolding Same
  Same-refl w k i = refl

  pub Same-trans : (w w' w'' : W) → Same has w w' → Same has w' w'' → Same has w w''
  unfolding Same
  Same-trans w w' w'' f g k i = g k i ∙ f k i

unfoldable pub any_same : Kind → List String → Kind → String → Bool
any_same kind [] k i = false
any_same kind (id ∷ ids) k i = same kind id k i || any_same kind ids k i

-- A list call returns exactly the things there that carry the label.
unfoldable pub Lists :
    {W : Type 0}
    → (Kind → String → W → Bool)
    → (String → Bool)
    → Kind
    → (W → Option (List String) × W)
    → Type 0
Lists {W} has labelled kind call =
    (w : W) (ids : List String)
    → (call w).0 ≡ some ids
    → (i : String) → any_same kind ids kind i ≡ (if labelled i then has kind i w else false)

pub any_same-apart :
    (kind k : Kind) (i : String)
    → ((id : String) → same kind id k i ≡ false)
    → (ids : List String) → any_same kind ids k i ≡ false
unfolding any_same
any_same-apart kind k i apart [] = refl
any_same-apart kind k i apart (id ∷ ids) = rw (apart id, any_same-apart kind k i apart ids)
