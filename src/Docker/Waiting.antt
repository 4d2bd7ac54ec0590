-- ===== src/Docker/Waiting.antt =====
-- tinyFaaS-ext/pkg/docker/handler.go: the loop of `Start` that waits for a container ends.
use yuliya_bachelorarbeit.Base.{
  ℕ, zero, suc, ◌==◌, ◌<◌, pos, Bool, true, false, String, none, some, List, [], ◌∷◌, ◌++◌,
  if◌then◌else◌, Result, ok, err, ◌≡◌, refl, inl, inr, arith, Result-cases,
}
use yuliya_bachelorarbeit.Base.{ℕ, String, ◌<◌, Bool, pos, false, suc, ◌≡◌, some, arith}
use yuliya_bachelorarbeit.Docker.{Engine, DockerHandler, DockerError, out_of_fuel, ℕ}
use yuliya_bachelorarbeit.Docker.Run.{
  ready_loop, wait_ready, wait_each, give_up, inspect_one, inspect_each, start, start_each,
}

module _ {W : Type 0} (d : Engine W) where
  -- So many health checks at most, with a pause of a second after each one that fails.
  unfoldable pub poll : ℕ → String → W → Bool × W
  poll zero ip w = (false, w)
  poll (suc n) ip w =
      let (code, w') = d.get_health ip w in
      let again = poll n ip (d.sleep_second w') in
      elim code [ none ↦ again | some status ↦ if status == 200 then (true, w') else again ]

  pub ready_loop-poll :
      (n fuel : ℕ) (ip : String) (w : W)
      → n < fuel
      → ready_loop d fuel (pos (suc n)) ip w ≡ some (poll n ip w)
  unfolding ready_loop poll
  ready_loop-poll n zero ip w h = absurd (omega (arith, h))
  ready_loop-poll zero (suc fuel) ip w h = refl
  ready_loop-poll (suc n) (suc fuel) ip w h =
      let rest =
        ready_loop-poll n fuel ip (d.sleep_second (d.get_health ip w).1) (omega (arith, h)) in
      ground (arith, rest)

  -- A container of Start is waited for with nine health checks, and given up after them.
  pub wait_ready-poll :
      (containers : List String) (i : ℕ) (ip : String) (w : W)
      → wait_ready d containers i ip w ≡ (
          let (ready, w') = poll 9 ip w in
          if ready then (ok tt, w') else give_up d containers i ip w')
  unfolding wait_ready
  wait_ready-poll containers i ip w = rw (ready_loop-poll 9 10 ip w (omega arith))

  Ends : {S A : Type 0} → Result DockerError A × S → Type 0
  Ends r = ¬ (r.0 ≡ err out_of_fuel)

  give_up-Ends :
      (containers : List String) (i : ℕ) (ip : String) (w : W) → Ends (give_up d containers i ip w)
  unfolding give_up Ends
  give_up-Ends containers i ip w = ground arith

  wait_ready-Ends :
      (containers : List String) (i : ℕ) (ip : String) (w : W)
      → Ends (wait_ready d containers i ip w)
  unfolding Ends
  wait_ready-Ends containers i ip w h =
      let g = give_up-Ends containers i ip (poll 9 ip w).1 in
      ground (arith, h, g, wait_ready-poll containers i ip w)

  wait_each-Ends :
      (containers : List String) (i : ℕ) (ips : List String) (w : W)
      → Ends (wait_each d containers i ips w)
  unfolding wait_each Ends
  wait_each-Ends containers i [] w = ground arith
  wait_each-Ends containers i (ip ∷ ips) w =
      let one = wait_ready-Ends containers i ip w in
      let rest = wait_each-Ends containers (suc i) ips (wait_ready d containers i ip w).1 in
      ground (arith, one, rest)

  inspect_one-Ends : (network c : String) (w : W) → Ends (inspect_one d network c w)
  unfolding inspect_one Ends
  inspect_one-Ends network c w = ground arith

  inspect_each-Ends :
      (network : String) (cs ips : List String) (w : W) → Ends (inspect_each d network cs (ips, w))
  unfolding inspect_each Ends
  inspect_each-Ends network [] ips w = ground arith
  inspect_each-Ends network (c ∷ cs) ips w =
      let one = inspect_one-Ends network c w in
      elim (Result-cases (inspect_one d network c w).0) [
        | inl (ip, e) ↦
            let rest =
              inspect_each-Ends network cs (ips ++ ip ∷ []) (inspect_one d network c w).1 in
            ground (arith, e, rest)
        | inr (e, f) ↦ ground (arith, one, f)
      ]

  -- Start never runs out of the fuel that it gives its loops, whatever the engine and the containers
  -- do: it ends with success or with one of its own errors.
  pub start-ends : (dh : DockerHandler) (w : W) → ¬ ((start d dh w).0 ≡ err out_of_fuel)
  unfolding start Ends
  start-ends dh w h =
      let f =
        inspect_each-Ends dh.unique_name dh.containers dh.handler_ips
          (start_each d dh.containers w) in
      let g =
        wait_each-Ends dh.containers 0
          (inspect_each d dh.unique_name dh.containers
            (dh.handler_ips, start_each d dh.containers w)).1.0
          (inspect_each d dh.unique_name dh.containers
            (dh.handler_ips, start_each d dh.containers w)).1.1 in
      ground (arith, h, f, g)
