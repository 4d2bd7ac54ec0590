-- ===== src/Docker/Kept.antt =====
-- tinyFaaS-ext/pkg/docker/handler.go: `Start` adds and removes no container, network or image.
use yuliya_bachelorarbeit.Base.{
  ℕ, zero, suc, Bool, String, List, [], ◌∷◌, ◌++◌, get_elem?, Result-cases, ◌≡◌, refl, inl, inr,
  arith, Option-cases,
}
use yuliya_bachelorarbeit.Docker.{Engine, DockerHandler}
use yuliya_bachelorarbeit.Docker.Holdings.{Kind, Same, Holdings, Same-trans, Same-refl}
use yuliya_bachelorarbeit.Docker.Waiting.{poll, wait_ready-poll}
use yuliya_bachelorarbeit.Docker.Run.{
  start, start_each, inspect_one, inspect_each, wait_ready, wait_each, give_up,
}

module _ {W : Type 0} (d : Engine W) (has : Kind → String → W → Bool) (laws : Holdings d has) where
  start_each-Same : (cs : List String) (w : W) → Same has w (start_each d cs w)
  unfolding start_each
  start_each-Same [] w = Same-refl has w
  start_each-Same (c ∷ cs) w =
      Same-trans has _ _ _ (laws.container_start-kept c w)
        (start_each-Same cs (d.container_start c w).1)

  inspect_one-Same : (unique_name c : String) (w : W) → Same has w (inspect_one d unique_name c w).1
  unfolding inspect_one Same
  inspect_one-Same unique_name c w k i =
      let kept = laws.inspect-kept c w k i in ground (arith, kept)

  inspect_each-Same :
      (unique_name : String) (cs ips : List String) (w : W)
      → Same has w (inspect_each d unique_name cs (ips, w)).1.1
  unfolding inspect_each
  inspect_each-Same unique_name [] ips w = Same-refl has w
  inspect_each-Same unique_name (c ∷ cs) ips w =
      let kept = inspect_one-Same unique_name c w in
      let w' = (inspect_one d unique_name c w).1 in
      elim (Result-cases (inspect_one d unique_name c w).0) [
        | inl (ip, e) ↦
            rw e (Same-trans has _ _ _ kept (inspect_each-Same unique_name cs (ips ++ ip ∷ []) w'))
        | inr (e, f) ↦ rw f kept
      ]

  poll-Same : (n : ℕ) (ip : String) (w : W) → Same has w (poll d n ip w).1
  unfolding poll Same
  poll-Same zero ip w k i = refl
  poll-Same (suc n) ip w k i =
      let kept = laws.get_health-kept ip w k i in
      let slept = laws.sleep_second-kept (d.get_health ip w).1 k i in
      let rest = poll-Same n ip (d.sleep_second (d.get_health ip w).1) k i in
      ground (arith, kept, slept, rest)

  give_up-Same :
      (containers : List String) (n : ℕ) (ip : String) (w : W)
      → Same has w (give_up d containers n ip w).1
  unfolding give_up Same
  give_up-Same containers n ip w k i = elim (Option-cases (get_elem? containers n)) [
    | inl gone ↦ ground (arith, gone)
    | inr (c, found) ↦ let kept = laws.container_logs-kept c w k i in ground (arith, found, kept)
  ]

  wait_ready-Same :
      (containers : List String) (n : ℕ) (ip : String) (w : W)
      → Same has w (wait_ready d containers n ip w).1
  unfolding Same
  wait_ready-Same containers n ip w k i =
      let polled = poll-Same 9 ip w k i in
      let given_up = give_up-Same containers n ip (poll d 9 ip w).1 k i in
      rw (wait_ready-poll d containers n ip w) (ground (arith, polled, given_up))

  wait_each-Same :
      (containers : List String) (n : ℕ) (ips : List String) (w : W)
      → Same has w (wait_each d containers n ips w).1
  unfolding wait_each Same
  wait_each-Same containers n [] w k i = refl
  wait_each-Same containers n (ip ∷ ips) w k i =
      let one = wait_ready-Same containers n ip w k i in
      let rest = wait_each-Same containers (suc n) ips (wait_ready d containers n ip w).1 k i in
      ground (arith, one, rest)

  pub start-Same : (dh : DockerHandler) (w : W) → Same has w (start d dh w).1.1
  unfolding start Same
  start-Same dh w k i =
      let begun = start_each-Same dh.containers w k i in
      let found =
        inspect_each-Same dh.unique_name dh.containers dh.handler_ips (start_each d dh.containers w)
          k i in
      let s =
        inspect_each d dh.unique_name dh.containers
          (dh.handler_ips, start_each d dh.containers w) in
      let waited = wait_each-Same dh.containers 0 s.1.0 s.1.1 k i in
      ground (arith, begun, found, waited)

  -- The handler's containers, network and image stay what they are.
  pub start-handler :
      (dh : DockerHandler) (w : W)
      → ((start d dh w).1.0.containers ≡ dh.containers)
        × ((start d dh w).1.0.network ≡ dh.network)
        × ((start d dh w).1.0.unique_name ≡ dh.unique_name)
  unfolding start
  start-handler dh w =
      let s =
        inspect_each d dh.unique_name dh.containers
          (dh.handler_ips, start_each d dh.containers w) in
      elim (Result-cases s.0) [
        | inl (a, e) ↦ (ground (arith, e), ground (arith, e), ground (arith, e))
        | inr (a, e) ↦ (ground (arith, e), ground (arith, e), ground (arith, e))
      ]
