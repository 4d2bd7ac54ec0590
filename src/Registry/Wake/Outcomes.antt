-- ===== src/Registry/Wake/Outcomes.antt =====
-- What a wake attempt leaves behind, for each of its outcomes.
use yuliya_bachelorarbeit.Base.{
  ℕ, ◌==◌, ℤ, String, ok, err, ◌≡◌, arith, Result-cases, Bool-cases, inl, inr,
}
use yuliya_bachelorarbeit.Node.{NodeStatus, active, sleeping, dead}
use yuliya_bachelorarbeit.Outside.{Outside}
use yuliya_bachelorarbeit.Registry.{Registry, WakeResult, deploy_failed, set_status}
use yuliya_bachelorarbeit.Functions.{all}
use yuliya_bachelorarbeit.Registry.Wake.{
  deploy_all, wait_for_node_ready, deploy_functions, back_to_sleep, deploy_stage, wake_node,
}

-- The status that goes with what `wakeNode` returns: a node that cannot be trusted is dead, one that
-- was powered off again is asleep.
abbrev pub status_after : WakeResult → NodeStatus
status_after (ok _) = active
status_after (err (deploy_failed _ _)) = sleeping
status_after (err _) = dead

module _ {W : Type 0} (o : Outside W) where
  back_to_sleep_lem :
      (id relay_uid : String) (channel : ℤ) (failed : ℕ) (r : Registry) (w : W)
      → let (res, (r', w')) = back_to_sleep o id relay_uid channel failed (r, w) in
        r' ≡ set_status id (status_after res) (o.now w') r
  unfolding back_to_sleep
  back_to_sleep_lem id relay_uid channel failed r w = ground arith

  deploy_stage_lem :
      (id relay_uid : String) (channel : ℤ) (addr : String) (r : Registry) (w : W)
      → let (res, (r', w')) = deploy_stage o id relay_uid channel addr (r, w) in
        r' ≡ set_status id (status_after res) (o.now w') r
  unfolding deploy_stage deploy_functions
  deploy_stage_lem id relay_uid channel addr r w =
      let (failed, w') = deploy_all o addr (all r.funcs) w in
      elim (Bool-cases (failed == 0)) [
        | inl none_failed ↦ rw (none_failed, deploy_stage)
        | inr some_failed ↦
            rw (some_failed, deploy_stage) (back_to_sleep_lem id relay_uid channel failed r w')
      ]

  -- Whatever happens on the way, the only change that `wakeNode` makes to the registry is the status
  -- of its node, which becomes the one that goes with the result, stamped with the time at the end.
  pub wake_node-set_status :
      (attempts : ℕ) (id relay_uid : String) (channel : ℤ) (addr : String) (r : Registry) (w : W)
      → let (res, (r', w')) = wake_node o attempts id relay_uid channel addr (r, w) in
        r' ≡ set_status id (status_after res) (o.now w') r
  unfolding wake_node
  wake_node-set_status attempts id relay_uid channel addr r w =
      let (on, w1) = o.power_on relay_uid channel w in
      let (ready, w2) = wait_for_node_ready o attempts addr w1 in
      elim (Result-cases on) [
        | inr (e, refused) ↦ rw (refused, wake_node)
        | inl (_, powered) ↦ elim (Bool-cases ready) [
          | inl up ↦
              rw (powered, wake_node) (rw up (deploy_stage_lem id relay_uid channel addr r w2))
          | inr down ↦ rw (powered, wake_node) (rw down)
        ]
      ]
