-- ===== src/Checks/Engines.antt =====
-- Runs of the docker backend over the engine with the journal.
use yuliya_bachelorarbeit.Base.{pos, true, false, [], ◌∷◌, if◌then◌else◌, Result, ok, ◌≡◌, refl}
use yuliya_bachelorarbeit.Docker.{DockerError, DockerHandler, create, remove_orphans}
use yuliya_bachelorarbeit.Docker.Holdings.{container, network, image, same, TakesEffect, Lists}
use yuliya_bachelorarbeit.Docker.Run.{wait_ready, give_up}
use yuliya_bachelorarbeit.Docker.Waiting.{poll, wait_ready-poll}
use yuliya_bachelorarbeit.Docker.Orphans.{remove_orphans-has}
use yuliya_bachelorarbeit.Checks.Journal.{
  Journal, has, engine, engine-Holdings, listed_containers, listed_networks, listed_containers-has,
  listed_networks-has, also, remove, remove-Moves,
}

-- A container and a network of an earlier process, and the image that it built.
abbrev left_over : Journal
left_over = (container, "old", true) ∷ (network, "old", true) ∷ (image, "old", true) ∷ []

container_remove-TakesEffect : TakesEffect has container engine.container_remove
unfolding TakesEffect engine
container_remove-TakesEffect id w = remove-Moves container id w

network_remove-TakesEffect : TakesEffect has network engine.network_remove
unfolding TakesEffect engine
network_remove-TakesEffect id w = remove-Moves network id w

container_list-Lists : Lists has (λ i. true) container engine.container_list
unfolding Lists engine
container_list-Lists w ids found i = listed_containers-has w ids found i

network_list-Lists : Lists has (λ i. true) network engine.network_list
unfolding Lists engine
network_list-Lists w ids found i = listed_networks-has w ids found i

run_orphans : (remove_orphans engine left_over).0 ≡ ok tt
unfolding remove_orphans engine listed_containers listed_networks also remove has same
run_orphans = refl

remove_orphans-has_example :
    (has container "old" (remove_orphans engine left_over).1 ≡ false)
    × (has network "old" (remove_orphans engine left_over).1 ≡ false)
    × (has image "old" (remove_orphans engine left_over).1 ≡ has image "old" left_over)
remove_orphans-has_example =
    remove_orphans-has engine has (λ i. true) engine-Holdings container_remove-TakesEffect
      network_remove-TakesEffect container_list-Lists network_list-Lists left_over run_orphans "old"

-- Another function's container, and the function `f` with two containers.
abbrev other : Journal
other = (container, "g", true) ∷ []

abbrev f_handler : DockerHandler
f_handler = record {
  name = "f";
  env = "go";
  threads = pos 2;
  unique_name = "f-u";
  file_path = "tmp/f-u";
  network = "f-u";
  containers = "f-u-0" ∷ "f-u-1" ∷ [];
  handler_ips = [];
}

abbrev f_created : Result DockerError DockerHandler × Journal
f_created = create engine "f" "go" (pos 2) "dir" [] other

wait_ready-poll_example : wait_ready engine ("f-u-0" ∷ []) 0 "10.0.0.2" other ≡ (
    let (ready, w) = poll engine 9 "10.0.0.2" other in
    if ready then (ok tt, w) else give_up engine ("f-u-0" ∷ []) 0 "10.0.0.2" w)
wait_ready-poll_example = wait_ready-poll engine ("f-u-0" ∷ []) 0 "10.0.0.2" other
