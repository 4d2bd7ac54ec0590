-- ===== src/Docker/Orphans.antt =====
-- tinyFaaS-ext/pkg/docker/handler.go: what `RemoveOrphans` removes.
use yuliya_bachelorarbeit.Base.{
  Bool, false, String, Option, some, List, [], ◌∷◌, if◌then◌else◌, ok, ◌≡◌, refl, sym, arith, ap,
  ◌∙◌,
}
use yuliya_bachelorarbeit.Base.Io.{step, obtain->>=-ok}
use yuliya_bachelorarbeit.Base.{
  Bool, false, String, Option, some, List, [], ◌∷◌, if◌then◌else◌, ok, ◌≡◌, refl, sym, arith,
}
use yuliya_bachelorarbeit.Base.Io.{step, obtain->>=-ok}
use yuliya_bachelorarbeit.Docker.{
  Engine, remove_each, remove_orphans, no_containers_listed, no_networks_listed,
}
use yuliya_bachelorarbeit.Docker.Holdings.{
  Kind, container, network, image, same, Same, Moves, Holdings, TakesEffect, any_same, Lists,
  any_same-apart,
}

module _ {W : Type 0} (d : Engine W) (has : Kind → String → W → Bool) where
  pub remove_each-has :
      (kind : Kind) (remove : String → W → Bool × W)
      → TakesEffect has kind remove
      → (ids : List String) (w : W) (k : Kind) (i : String)
      → has k i (remove_each d remove ids w) ≡ (if any_same kind ids k i then false else has k i w)
  unfolding remove_each any_same TakesEffect Moves
  remove_each-has kind remove works [] w k i = refl
  remove_each-has kind remove works (id ∷ ids) w k i =
      let rest = remove_each-has kind remove works ids (remove id w).1 k i in
      let one = works id w k i in ground (arith, rest, one)

  after_containers : List String → W → W
  after_containers cs w = remove_each d d.container_remove cs (d.container_list w).1

  -- A run without an error removes what the two lists name.
  remove_orphans-ok :
      (w : W)
      → (remove_orphans d w).0 ≡ ok tt
      → (cs ns : List String) × ((d.container_list w).0 ≡ some cs)
        × ((d.network_list (after_containers cs w)).0 ≡ some ns)
        × ((remove_orphans d w).1
            ≡ remove_each d d.network_remove ns (d.network_list (after_containers cs w)).1)
  unfolding remove_orphans after_containers
  remove_orphans-ok w done =
      let (cs, c_found, c_eq) = obtain->>=-ok d.container_list no_containers_listed _ w done in
      let w' = after_containers cs w in
      let (ns, n_found, n_eq) =
        obtain->>=-ok d.network_list no_networks_listed
          (λ ns. step (remove_each d d.network_remove ns)) w' (sym (ap (λ r. r.0) c_eq) ∙ done) in
      (cs, ns, c_found, n_found, ap (λ r. r.1) (c_eq ∙ n_eq))

  module _ (labelled : String → Bool) (laws : Holdings d has)
      (c_works : TakesEffect has container d.container_remove)
      (n_works : TakesEffect has network d.network_remove)
      (c_lists : Lists has labelled container d.container_list)
      (n_lists : Lists has labelled network d.network_list) where
    removes_listed :
        (kind : Kind) (call : W → Option (List String) × W) (remove : String → W → Bool × W)
        → Lists has labelled kind call
        → TakesEffect has kind remove
        → ((w : W) → Same has w (call w).1)
        → (w : W) (ids : List String) → (call w).0 ≡ some ids
        → (i : String)
        → has kind i (remove_each d remove ids (call w).1)
          ≡ (if labelled i then false else has kind i w)
    unfolding Lists Same
    removes_listed kind call remove lists works keeps w ids found i =
        let a = remove_each-has kind remove works ids (call w).1 kind i in
        let b = lists w ids found i in let c = keeps w kind i in ground (arith, a, b, c)

    others_kept :
        (kind : Kind) (call : W → Option (List String) × W) (remove : String → W → Bool × W)
        → TakesEffect has kind remove
        → ((w : W) → Same has w (call w).1)
        → (w : W) (ids : List String) (k : Kind) (i : String)
        → ((id : String) → same kind id k i ≡ false)
        → has k i (remove_each d remove ids (call w).1) ≡ has k i w
    unfolding Same
    others_kept kind call remove works keeps w ids k i apart = rw (
      remove_each-has kind remove works ids (call w).1 k i,
      any_same-apart kind k i apart ids,
      keeps w k i,
    )

    -- If RemoveOrphans returns no error, and if removals take effect, then exactly the containers and
    -- the networks with the label are gone, and every image is kept.
    pub remove_orphans-has :
        (w : W)
        → (remove_orphans d w).0 ≡ ok tt
        → (i : String)
        → (has container i (remove_orphans d w).1
            ≡ (if labelled i then false else has container i w))
          × (has network i (remove_orphans d w).1 ≡ (if labelled i then false else has network i w))
          × (has image i (remove_orphans d w).1 ≡ has image i w)
    unfolding same after_containers
    remove_orphans-has w done i =
        let (cs, ns, c_found, n_found, final) = remove_orphans-ok w done in
        let w' = after_containers cs w in
        let n_kept =
          others_kept network d.network_list d.network_remove n_works laws.network_list-kept w'
            ns in
        let c_kept =
          others_kept container d.container_list d.container_remove c_works laws.container_list-kept
            w cs in
        rw
          (
            final,
            n_kept container i (λ id. refl),
            n_kept image i (λ id. refl),
            c_kept image i (λ id. refl),
            removes_listed network d.network_list d.network_remove n_lists n_works
                laws.network_list-kept w' ns n_found i,
            removes_listed container d.container_list d.container_remove c_lists c_works
                laws.container_list-kept w cs c_found i,
            c_kept network i (λ id. refl),
          )
          (refl, refl, refl)
