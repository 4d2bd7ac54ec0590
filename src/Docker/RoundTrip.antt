-- ===== src/Docker/RoundTrip.antt =====
-- tinyFaaS-ext/pkg/docker/handler.go: `Destroy` takes back what `Create` has added.
use yuliya_bachelorarbeit.Base.{
  Bool, true, false, String, List, [], ◌∷◌, if◌then◌else◌, ok, ◌||◌, ◌≡◌, refl, sym, arith, ◌∙◌,
}
use yuliya_bachelorarbeit.Base.Dict.{Dict}
use yuliya_bachelorarbeit.Base.Io.{attempt, attempt->>-ok}
use yuliya_bachelorarbeit.Docker.{Engine, DockerHandler, network_kept, image_kept}
use yuliya_bachelorarbeit.Docker.Holdings.{
  Kind, container, network, image, same, Same, Moves, Holdings, TakesEffect, any_same,
  any_same-apart,
}
use yuliya_bachelorarbeit.Docker.Run.{destroy, destroy_each}

-- The image, the network and the containers of a handler.
unfoldable pub handler_things : String → String → List String → Kind → String → Bool
handler_things name network_id cs k i =
    same image name k i || (same network network_id k i || any_same container cs k i)

module _ {W : Type 0} (d : Engine W) (has : Kind → String → W → Bool) (laws : Holdings d has) where
  module _ (works : TakesEffect has container d.container_remove) where
    destroy_each-has :
        (cs : List String) (w : W) (k : Kind) (i : String)
        → has k i (destroy_each d cs w) ≡ (if any_same container cs k i then false else has k i w)
    unfolding destroy_each any_same TakesEffect Moves Same
    destroy_each-has [] w k i = refl
    destroy_each-has (c ∷ cs) w k i =
        let w' = (d.container_stop c w).1 in
        let rest = destroy_each-has cs (d.container_remove c w').1 k i in
        let one = works c w' k i in
        let stopped = laws.container_stop-kept c w k i in ground (arith, rest, one, stopped)

    -- What a Destroy without an error leaves: nothing of the handler, and all else. The image was there.
    pub destroy-has :
        (dh : DockerHandler) (w : W)
        → (destroy d dh w).0 ≡ ok tt
        → (has image dh.unique_name w ≡ true)
          × ((k : Kind) (i : String)
              → has k i (destroy d dh w).1 ≡ (
                  if handler_things dh.unique_name dh.network dh.containers k i
                  then false
                  else has k i w))
    unfolding destroy Moves same handler_things
    destroy-has dh w done =
        let w1 = destroy_each d dh.containers w in
        let (gone, eq1) =
          attempt->>-ok (d.network_remove dh.network) network_kept
            (attempt (d.image_remove dh.unique_name) image_kept) w1 done in
        let w2 = (d.network_remove dh.network w1).1 in
        let image_call = d.image_remove dh.unique_name w2 in
        let cut : image_call.0 ≡ true = ground (arith, done, gone) in
        let network_moves = laws.network_remove-Moves dh.network w1 gone in
        let image_moves = laws.image_remove-Moves dh.unique_name w2 cut in
        let no_container =
          any_same-apart container image dh.unique_name (λ id. refl) dh.containers in
        (
          sym (destroy_each-has dh.containers w image dh.unique_name ∙ rw no_container refl)
              ∙ (sym (network_moves image dh.unique_name)
                  ∙ laws.image_remove-had dh.unique_name w2 cut),
          λ k i.
              let a = destroy_each-has dh.containers w k i in
              let b = network_moves k i in let c = image_moves k i in ground (arith, gone, a, b, c),
        )
