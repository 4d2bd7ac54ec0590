-- ===== src/Registry/Wake/Power.antt =====
-- A wake that puts its node back to sleep has opened the relay.
use yuliya_bachelorarbeit.Base.{
  ℕ, ◌==◌, ℤ, Bool, true, false, ok, String, some, ◌≡◌, arith, Bool-cases, Result-cases, inl, inr,
}
use yuliya_bachelorarbeit.Base.Dict.{lookup}
use yuliya_bachelorarbeit.Node.{Node, is_active, is_waking, is_sleeping}
use yuliya_bachelorarbeit.Outside.{Outside}
use yuliya_bachelorarbeit.Registry.{Registry, WakeResult}
use yuliya_bachelorarbeit.Registry.Wake.{
  back_to_sleep, deploy_stage, deploy_functions, wait_for_node_ready, wake_node, activate_node,
}
use yuliya_bachelorarbeit.Registry.Wake.Outcomes.{status_after}
use yuliya_bachelorarbeit.Registry.Wake.Settled.{
  registered, start_activation-lead, activate_node-Settled,
}

module _ {W : Type 0} (o : Outside W) (on : W → String → ℤ → Bool)
    (off_done : (u : String) (c : ℤ) (w : W)
      → (o.power_off u c w).0 ≡ ok tt
      → on (o.power_off u c w).1 u c ≡ false) where
  -- If the outcome of a wake is sleep, the outlet is open.
  abbrev OpenIfAsleep : String → ℤ → WakeResult × (Registry × W) → Type 0
  OpenIfAsleep u c (res, (r, w)) = is_sleeping (status_after res) ≡ true → on w u c ≡ false

  back_to_sleep-open :
      (id u : String) (c : ℤ) (failed : ℕ) (r : Registry) (w : W)
      → OpenIfAsleep u c (back_to_sleep o id u c failed (r, w))
  unfolding back_to_sleep
  back_to_sleep-open id u c failed r w = elim (Result-cases (o.power_off u c w).0) [
    | inl (_, done) ↦ rw (done, back_to_sleep) (λ asleep. off_done u c w done)
    | inr (e, stuck) ↦ rw (stuck, back_to_sleep) (λ asleep. absurd (ground (arith, asleep)))
  ]

  deploy_stage-open :
      (id u : String) (c : ℤ) (addr : String) (r : Registry) (w : W)
      → OpenIfAsleep u c (deploy_stage o id u c addr (r, w))
  unfolding deploy_stage deploy_functions
  deploy_stage-open id u c addr r w =
      let (failed, (r', w')) = deploy_functions o addr (r, w) in
      elim (Bool-cases (failed == 0)) [
        | inl all ↦ rw all (λ asleep. absurd (ground (arith, asleep)))
        | inr some_failed ↦ rw some_failed (back_to_sleep-open id u c failed r' w')
      ]

  wake_node-open :
      (attempts : ℕ) (id u : String) (c : ℤ) (addr : String) (r : Registry) (w : W)
      → OpenIfAsleep u c (wake_node o attempts id u c addr (r, w))
  unfolding wake_node
  wake_node-open attempts id u c addr r w = elim (Result-cases (o.power_on u c w).0) [
    | inr (e, stuck) ↦ rw (stuck, wake_node) (λ asleep. absurd (ground (arith, asleep)))
    | inl (_, done) ↦
        let (ready, w2) = wait_for_node_ready o attempts addr (o.power_on u c w).1 in
        elim (Bool-cases ready) [
          | inr cold ↦ rw (done, wake_node) (rw cold (λ asleep. absurd (ground (arith, asleep))))
          | inl up ↦ rw (done, wake_node) (rw up (deploy_stage-open id u c addr r w2))
        ]
  ]

  activate_node-result :
      (attempts : ℕ) (id : String) (r : Registry) (w : W) (n : Node)
      → lookup id r.nodes ≡ some n
      → is_active n.status ≡ false
      → is_waking n.status ≡ false
      → OpenIfAsleep n.relay_uid n.channel (activate_node o attempts id (r, w))
  unfolding activate_node
  activate_node-result attempts id r w n found idle fresh =
      rw (start_activation-lead id r n found idle fresh, activate_node)
        (wake_node-open attempts id n.relay_uid n.channel n.manager_address (registered id n r) w)

  -- An activation of a node that is neither active nor waking: if the registry then records the node
  -- as sleeping, its outlet is open. It needs that a switch-off without an error opens its outlet.
  pub activate_node-open :
      (attempts : ℕ) (id : String) (r : Registry) (w : W) (n m : Node)
      → lookup id r.nodes ≡ some n
      → is_active n.status ≡ false
      → is_waking n.status ≡ false
      → lookup id (activate_node o attempts id (r, w)).1.0.nodes ≡ some m
      → is_sleeping m.status ≡ true
      → on (activate_node o attempts id (r, w)).1.1 n.relay_uid n.channel ≡ false
  activate_node-open attempts id r w n m found idle fresh after asleep =
      let settled = activate_node-Settled o attempts id r w n found idle fresh in
      let status : is_sleeping (status_after (activate_node o attempts id (r, w)).0) ≡ true =
        ground (arith, settled.node, after, asleep) in
      activate_node-result attempts id r w n found idle fresh status
