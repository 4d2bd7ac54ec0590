-- ===== src/Registry/Wake.antt =====
-- Waking a node: `ActivateNode`, `wakeNode`, and what they call, in
-- tinyFaaS-ext/pkg/cluster/registry.go. The goroutines that deploy the functions of one node run
-- here one after the other.
pub mod Outcomes
pub mod Settled
pub mod Deployed
pub mod Loads
pub mod Power
use yuliya_bachelorarbeit.Base.{
  ℕ, zero, suc, ◌+◌, ◌==◌, ℤ, Bool, true, false, String, str_eq, Option, none, some, List, [], ◌∷◌,
  ◌++◌, if◌then◌else◌, length, Result, ok, err, get_elem?, set, pos,
}
use yuliya_bachelorarbeit.Base.Dict.{Dict, lookup, insert, remove}
use yuliya_bachelorarbeit.Node.{
  Node, NodeStatus, is_active, is_waking, active, waking, sleeping, dead,
}
use yuliya_bachelorarbeit.Functions.{FunctionDef, FunctionStore, all}
use yuliya_bachelorarbeit.Outside.{Outside}
use yuliya_bachelorarbeit.Registry.{
  Registry, WakeError, WakeResult, unknown_node, timed_out, no_signal, power_on_failed, not_ready,
  deploy_failed, power_off_failed, set_status,
}

-- `err == nil && resp.StatusCode == 200`
abbrev pub is_ok : Option ℕ → Bool
is_ok none = false
is_ok (some code) = code == 200

-- One second; durations are in nanoseconds.
abbrev pub second : ℕ
second = 1000000000

abbrev pub health_check_interval : ℤ
health_check_interval = pos second

-- What the first critical section of `ActivateNode` decides.
pub data Start : Type 0 where
  unknown already_active : Start
  follow : Option ℕ → Start
  lead : ℕ → Node → Registry → Start

-- A new activation is registered and the node is marked as waking. `DeadSince` stays as it was.
abbrev register : String → Node → Registry → Start
register id n r =
    let act = length r.signals in
    lead act n (record r {
      nodes = insert id (record n { status = waking }) r.nodes;
      activations = insert id act r.activations;
      signals = r.signals ++ none ∷ [];
    })

unfoldable pub start_activation : String → Registry → Start
unfolding lookup insert
start_activation id r = elim (lookup id r.nodes) [
  | none ↦ unknown
  | some n ↦
      if is_active n.status
      then already_active
      else if is_waking n.status
      then follow (lookup id r.activations)
      else register id n r
]

-- `delete(r.activations, id)`
unfoldable pub unregister : String → Registry → Registry
unfolding remove
unregister id r = record r { activations = remove id r.activations }

-- `act.err = err; close(act.done)`
unfoldable pub close_signal : ℕ → WakeResult → Registry → Registry
close_signal act res r = record r { signals = set r.signals act (some res) }

-- `activation.wait`, where nothing more happens: the result if it is there, and else the timeout.
unfoldable pub wait : String → Option ℕ → Registry → WakeResult
wait id none r = err (no_signal id)
wait id (some act) r = elim (get_elem? r.signals act) [
  | some (some res) ↦ res
  | _ ↦ err (timed_out id)
]

module _ {W : Type 0} (o : Outside W) where
  unfoldable pub healthy : String → W → Bool × W
  healthy addr w =
      if str_eq addr ""
      then (false, w)
      else (let (code, w') = o.get_health addr w in (is_ok code, w'))

  -- The attempts that are left bound the loop.
  unfoldable pub wait_for_node_ready : ℕ → String → W → Bool × W
  wait_for_node_ready zero addr w = (false, w)
  wait_for_node_ready (suc attempts) addr w =
      let (code, w') = o.get_health addr w in
      let rest = wait_for_node_ready attempts addr (o.sleep health_check_interval w') in
      if is_ok code then (true, w') else rest

  unfoldable pub deploy_function : String → String → FunctionDef → W → Bool × W
  deploy_function addr name def w =
      let (code, w') = o.post_upload addr name def w in (is_ok code, w')

  unfoldable pub delete_function : String → String → W → Bool × W
  delete_function addr name w = let (code, w') = o.post_delete addr name w in (is_ok code, w')

  -- The number of functions that failed.
  unfoldable pub deploy_all : String → Dict FunctionDef → W → ℕ × W
  unfolding deploy_function
  deploy_all addr [] w = (0, w)
  deploy_all addr ((name, def) ∷ fs) w =
      let (done, w') = deploy_function addr name def w in
      let (failed, w'') = deploy_all addr fs w' in ((if done then failed else suc failed), w'')

  unfoldable pub deploy_functions : String → Registry × W → ℕ × (Registry × W)
  unfolding deploy_all all
  deploy_functions addr (r, w) =
      let (failed, w') = deploy_all addr (all r.funcs) w in (failed, (r, w'))

  -- The end of `wakeNode` where functions are missing: the node is powered off again.
  back_to_sleep : String → String → ℤ → ℕ → Registry × W → WakeResult × (Registry × W)
  unfolding set_status
  back_to_sleep id relay_uid channel failed (r, w) =
      let (off, w') = o.power_off relay_uid channel w in
      elim off [
        | err e ↦ (err (power_off_failed id failed e), (set_status id dead (o.now w') r, w'))
        | ok _ ↦ (err (deploy_failed id failed), (set_status id sleeping (o.now w') r, w'))
      ]

  -- `wakeNode` from the deployment on.
  deploy_stage : String → String → ℤ → String → Registry × W → WakeResult × (Registry × W)
  unfolding deploy_functions back_to_sleep set_status
  deploy_stage id relay_uid channel addr s =
      let (failed, (r, w)) = deploy_functions addr s in
      if failed == 0
      then (ok tt, (set_status id active (o.now w) r, w))
      else back_to_sleep id relay_uid channel failed (r, w)

  -- `wakeNode`; `attempts` is `healthCheckAttempts`.
  unfoldable pub wake_node :
      ℕ → String → String → ℤ → String → Registry × W → WakeResult × (Registry × W)
  unfolding wait_for_node_ready deploy_stage set_status
  wake_node attempts id relay_uid channel addr (r, w) =
      let (on, w1) = o.power_on relay_uid channel w in
      elim on [
        | err e ↦ (err (power_on_failed id e), (set_status id dead (o.now w1) r, w1))
        | ok _ ↦
            let (ready, w2) = wait_for_node_ready attempts addr w1 in
            if ready
            then deploy_stage id relay_uid channel addr (r, w2)
            else (err (not_ready id addr), (set_status id dead (o.now w2) r, w2))
      ]

  -- `ActivateNode` with nothing else running.
  unfoldable pub activate_node : ℕ → String → Registry × W → WakeResult × (Registry × W)
  unfolding start_activation wait wake_node unregister close_signal
  activate_node attempts id (r, w) = elim (start_activation id r) [
    | unknown ↦ (err (unknown_node id), (r, w))
    | already_active ↦ (ok tt, (r, w))
    | follow act ↦ (wait id act r, (r, w))
    | lead act n r' ↦
        let (res, s) = wake_node attempts id n.relay_uid n.channel n.manager_address (r', w) in
        (res, (close_signal act res (unregister id s.0), s.1))
  ]
