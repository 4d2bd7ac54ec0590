-- ===== src/Docker.antt =====
-- tinyFaaS-ext/pkg/docker/handler.go: functions as containers of the Docker engine. The client of
-- the engine and the file system are third-party code and enter as the record `Engine`.
pub mod Run
pub mod Waiting
pub mod Holdings
pub mod Creation
pub mod Kept
pub mod RoundTrip
pub mod Orphans
use yuliya_bachelorarbeit.Base.{
  ℕ, zero, suc, ◌==◌, ℤ, pos, negsuc, eqb_ℤ, pred_ℤ, Bool, true, false, String, Option, none, some,
  List, [], ◌∷◌, ◌++◌, map, get_elem?, if◌then◌else◌, Result, ok, err, leb_ℤ,
}
use yuliya_bachelorarbeit.Base.Dict.{Dict, lookup}
use yuliya_bachelorarbeit.Base.Io.{Io, pure, fail, attempt, obtain, ignore, step, ◌>>=◌, ◌>>◌}
use Prim.Native.String

-- What goes wrong, with the values that the messages print. `bad_capacity` is the panic of a slice
-- with a negative capacity, `no_endpoint` that on a container that is not in its function's network,
-- `no_entry` that of an index out of range, and `out_of_fuel` the fuel of the loop that waits for a
-- container.
pub data DockerError : Type 0 where
  no_uuid bad_capacity no_folder no_runtime no_copy no_archive no_image no_network no_container :
      DockerError
  no_removal no_inspection no_endpoint no_entry out_of_fuel : DockerError
  no_containers_listed no_networks_listed network_kept image_kept no_logs : DockerError
  not_ready not_ready_no_logs : String → DockerError

-- The calls of the engine's client and of the file system over the world `W`, with the label of the
-- process left out. A list call returns what carries the label. A container is created in the network
-- and from the image of one name, and is called by that name with its index behind a dash. `inspect`
-- returns the addresses of a container, by network. `get_health` is `client.Get` of an address's
-- `/health`.
pub record Engine (W : Type 0) : Type 0 where
  pub container_list : W → Option (List String) × W
  pub container_create : String → ℕ → List String → W → Option String × W
  pub container_start : String → W → Bool × W
  pub container_stop : String → W → Bool × W
  pub container_remove : String → W → Bool × W
  pub container_logs : String → W → Option String × W
  pub inspect : String → W → Option (Dict String) × W
  pub network_list : W → Option (List String) × W
  pub network_create : String → W → Option String × W
  pub network_remove : String → W → Bool × W
  pub image_build : String → String → W → Bool × W
  pub image_remove : String → W → Bool × W
  pub ping : W → Bool × W
  pub get_health : String → W → Option ℕ × W
  pub sleep_second : W → W
  pub new_uuid : W → Option String × W
  pub mkdir_all : String → W → Bool × W
  pub copy_runtime : String → String → W → Bool × W
  pub copy_all : String → String → W → Bool × W
  pub archive : String → W → Bool × W
  pub remove_all : String → W → Bool × W

-- `dockerHandler` without the client.
pub record DockerHandler : Type 0 where
  pub name : String
  pub env : String
  pub threads : ℤ
  pub unique_name : String
  pub file_path : String
  pub network : String
  pub containers : List String
  pub handler_ips : List String

-- `%s=%s`
abbrev pub env_entry : String × String → String
env_entry (k, v) = String.◌++◌ k (String.◌++◌ "=" v)

-- How often a loop `for i := 0; i < n; i++` runs.
abbrev pub rounds : ℤ → ℕ
rounds (pos n) = n
rounds (negsuc n) = 0

module _ {W : Type 0} (d : Engine W) where
  -- A loop that removes what it can.
  pub remove_each : (String → W → Bool × W) → List String → W → W
  remove_each remove [] w = w
  remove_each remove (id ∷ ids) w = remove_each remove ids (ignore (remove id) w)

  -- `RemoveOrphans`
  unfoldable pub remove_orphans : Io W DockerError (Unit {0})
  unfolding remove_each
  remove_orphans = do
    containers ← obtain d.container_list no_containers_listed
    step (remove_each d.container_remove containers)
    networks ← obtain d.network_list no_networks_listed
    step (remove_each d.network_remove networks)

  unfoldable pub ping : W → Bool × W
  ping = d.ping

  -- The loop that creates the containers, with `i` made and so many to go.
  pub create_containers :
      String → List String → ℕ → ℕ → List String → Io W DockerError (List String)
  create_containers unique_name env i zero made = pure made
  create_containers unique_name env i (suc n) made =
      obtain (d.container_create unique_name i env) no_container >>= λ id.
      create_containers unique_name env (suc i) n (made ++ id ∷ [])

  -- `Create` from the image on: the network, the containers, and the removal of the folder.
  pub create_in_engine : DockerHandler → Dict String → Io W DockerError DockerHandler
  unfolding create_containers
  create_in_engine dh envs = do
    attempt (d.image_build dh.unique_name dh.file_path) no_image
    network ← obtain (d.network_create dh.unique_name) no_network
    containers ←
        create_containers dh.unique_name (map env_entry envs) 0 (rounds dh.threads) dh.containers
    attempt (d.remove_all dh.file_path) no_removal
    pure (record dh { network = network; containers = containers })

  -- The folder of `Create` with the runtime and the function, up to the archive of it.
  pub prepare_folder : String → String → String → Io W DockerError (Unit {0})
  prepare_folder env filedir folder = do
    attempt (d.mkdir_all folder) no_folder
    attempt (d.copy_runtime env folder) no_runtime
    attempt (d.mkdir_all (String.◌++◌ folder "/fn")) no_folder
    attempt (d.copy_all filedir (String.◌++◌ folder "/fn")) no_copy
    attempt (d.archive folder) no_archive

  -- `Create`. `path.Join` cleans nothing away, since the manager lets no other than letters and digits
  -- into a name.
  unfoldable pub create :
      String → String → ℤ → String → Dict String → Io W DockerError DockerHandler
  unfolding prepare_folder create_in_engine
  create name env threads filedir envs = do
    uuid ← obtain d.new_uuid no_uuid
    attempt (λ w. (leb_ℤ (pos 0) threads, w)) bad_capacity
    let unique_name = String.◌++◌ name (String.◌++◌ "-" uuid)
    let folder = String.◌++◌ "tmp/" unique_name
    prepare_folder env filedir folder
    create_in_engine
        (record {
          name = name;
          env = env;
          threads = threads;
          unique_name = unique_name;
          file_path = folder;
          network = "";
          containers = [];
          handler_ips = [];
        })
        envs
