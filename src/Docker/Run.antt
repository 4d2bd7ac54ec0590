-- ===== src/Docker/Run.antt =====
-- tinyFaaS-ext/pkg/docker/handler.go: the life of a function's containers once they are created:
-- `Start`, `Destroy` and `Logs`.
use yuliya_bachelorarbeit.Base.{
  ℕ, zero, suc, ◌==◌, ℤ, pos, eqb_ℤ, pred_ℤ, Bool, true, false, String, Option, none, some, List,
  [], ◌∷◌, ◌++◌, get_elem?, if◌then◌else◌, Result, ok, err,
}
use yuliya_bachelorarbeit.Base.Dict.{lookup}
use yuliya_bachelorarbeit.Base.Io.{Io, pure, fail, attempt, obtain, ignore, step, ◌>>=◌, ◌>>◌}
use yuliya_bachelorarbeit.Docker.{
  Engine, DockerHandler, DockerError, no_inspection, no_endpoint, no_entry, out_of_fuel, no_logs,
  not_ready, not_ready_no_logs, network_kept, image_kept,
}

module _ {W : Type 0} (d : Engine W) where
  -- The goroutines of `Start`, one after the other; an error is only logged.
  unfoldable pub start_each : List String → W → W
  start_each [] w = w
  start_each (c ∷ cs) w = start_each cs (ignore (d.container_start c) w)

  unfoldable pub inspect_one : String → String → Io W DockerError String
  unfolding lookup
  inspect_one network c = do
    networks ← obtain (d.inspect c) no_inspection
    obtain (λ w. (lookup network networks, w)) no_endpoint

  -- The loop that asks for the addresses. Those found before an error stay in the handler.
  unfoldable pub inspect_each : String → List String → Io (List String × W) DockerError (Unit {0})
  unfolding inspect_one
  inspect_each network [] s = (ok tt, s)
  inspect_each network (c ∷ cs) (ips, w) =
      let (found, w') = inspect_one network c w in
      elim found [
        | err e ↦ (err e, (ips, w'))
        | ok ip ↦ inspect_each network cs (ips ++ ip ∷ [], w')
      ]

  -- The loop that waits for one container, with `maxRetries` and fuel; `none` means that the fuel
  -- ran out.
  unfoldable pub ready_loop : ℕ → ℤ → String → W → Option (Bool × W)
  ready_loop zero max_retries ip w = none
  ready_loop (suc fuel) max_retries ip w =
      let left = pred_ℤ max_retries in
      let (code, w') = d.get_health ip w in
      let again = ready_loop fuel left ip (d.sleep_second w') in
      if eqb_ℤ left (pos 0) then some (false, w) else elim code [
        | none ↦ again
        | some status ↦ if status == 200 then some (true, w') else again
      ]

  -- What `Start` does about a container that is not ready.
  unfoldable pub give_up : List String → ℕ → String → Io W DockerError (Unit {0})
  give_up containers i ip w = elim (get_elem? containers i) [
    | none ↦ (err no_entry, w)
    | some c ↦ (obtain (d.container_logs c) (not_ready_no_logs ip) >> fail (not_ready ip)) w
  ]

  abbrev pub max_retries : ℕ
  max_retries = 10

  unfoldable pub wait_ready : List String → ℕ → String → Io W DockerError (Unit {0})
  unfolding ready_loop give_up
  wait_ready containers i ip w = elim (ready_loop max_retries (pos max_retries) ip w) [
    | none ↦ (err out_of_fuel, w)
    | some (ready, w') ↦ if ready then (ok tt, w') else give_up containers i ip w'
  ]

  unfoldable pub wait_each : List String → ℕ → List String → Io W DockerError (Unit {0})
  unfolding wait_ready
  wait_each containers i [] = pure tt
  wait_each containers i (ip ∷ ips) = wait_ready containers i ip >> wait_each containers (suc i) ips

  -- `Start`. The addresses found stay in the handler when a container is not ready.
  unfoldable pub start : DockerHandler → W → Result DockerError (Unit {0}) × (DockerHandler × W)
  unfolding start_each inspect_each wait_each
  start dh w =
      let (found, (ips, w')) =
        inspect_each dh.unique_name dh.containers (dh.handler_ips, start_each dh.containers w) in
      let dh' = record dh { handler_ips = ips } in
      elim found [
        | err e ↦ (err e, (dh', w'))
        | ok _ ↦ let (result, w'') = wait_each dh.containers 0 ips w' in (result, (dh', w''))
      ]

  -- The goroutines of `Destroy`, one after the other; errors are only logged.
  unfoldable pub destroy_each : List String → W → W
  destroy_each [] w = w
  destroy_each (c ∷ cs) w =
      destroy_each cs (ignore (d.container_remove c) (ignore (d.container_stop c) w))

  -- `Destroy`
  unfoldable pub destroy : DockerHandler → Io W DockerError (Unit {0})
  unfolding destroy_each
  destroy dh = do
    step (destroy_each dh.containers)
    attempt (d.network_remove dh.network) network_kept
    attempt (d.image_remove dh.unique_name) image_kept

  unfoldable pub logs_each : List String → Io W DockerError (List String)
  logs_each [] = pure []
  logs_each (c ∷ cs) =
      obtain (d.container_logs c) no_logs >>= λ l. logs_each cs >>= λ ls. pure (l ∷ ls)

  -- `Logs`, as the texts of the containers in their order.
  unfoldable pub logs : DockerHandler → Io W DockerError (List String)
  unfolding logs_each
  logs dh = logs_each dh.containers
