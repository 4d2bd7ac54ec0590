-- ===== src/Registry/Wake/Deployed.antt =====
-- A node that becomes active has every function.
use yuliya_bachelorarbeit.Base.{
  ℕ, ◌==◌, ℤ, true, false, String, some, [], ◌∷◌, ok, ◌≡◌, ◌≢◌, arith, All, AllPairs, Bool-cases,
  Result-cases, sym, inl, inr,
}
use yuliya_bachelorarbeit.Base.Dict.{Dict, lookup}
use yuliya_bachelorarbeit.Node.{Node, is_active, is_waking}
use yuliya_bachelorarbeit.Functions.{FunctionDef, all}
use yuliya_bachelorarbeit.Outside.{Outside}
use yuliya_bachelorarbeit.Registry.{Registry}
use yuliya_bachelorarbeit.Registry.Wake.Settled.{registered, start_activation-lead}
use yuliya_bachelorarbeit.Registry.Wake.{
  is_ok, wait_for_node_ready, deploy_all, deploy_functions, deploy_stage, back_to_sleep, wake_node,
  activate_node,
}

-- What a node's management API promises: an upload that it answers with 200 is there afterwards, and
-- an upload of one function leaves the others in place.
pub record Deploys {W : Type 0} (o : Outside W)
    (Serves : W → String → String → FunctionDef → Type 0) : Type 0 where
  pub uploaded :
      (addr name : String) (def : FunctionDef) (w : W)
      → is_ok (o.post_upload addr name def w).0 ≡ true
      → Serves (o.post_upload addr name def w).1 addr name def
  pub kept :
      (addr name : String) (def : FunctionDef) (w : W) (other : String) (d : FunctionDef)
      → name ≢ other
      → Serves w addr other d
      → Serves (o.post_upload addr name def w).1 addr other d

-- The keys of a map differ.
abbrev pub Distinct : {V : Type 0} → Dict V → Type 0
Distinct = AllPairs (λ a b. a.0 ≢ b.0)

back_to_sleep-ne-ok :
    {W : Type 0} (o : Outside W) (id relay_uid : String) (channel : ℤ) (failed : ℕ) (r : Registry)
    (w : W)
    → (back_to_sleep o id relay_uid channel failed (r, w)).0 ≢ ok tt
unfolding back_to_sleep
back_to_sleep-ne-ok o id relay_uid channel failed r w e = ground arith

module _ {W : Type 0} (o : Outside W) (Serves : W → String → String → FunctionDef → Type 0)
    (d : Deploys o Serves) where
  -- Every function of a store is on the node behind `addr`.
  abbrev pub ServesAll : W → String → Dict FunctionDef → Type 0
  ServesAll w addr = All (λ f. Serves w addr f.0 f.1)

  deploy_all_keeps :
      (addr : String) (fs : Dict FunctionDef) (w : W) (name : String) (def : FunctionDef)
      → All (λ f. name ≢ f.0) fs
      → Serves w addr name def
      → Serves (deploy_all o addr fs w).1 addr name def
  unfolding deploy_all
  deploy_all_keeps addr [] w name def apart h = h
  deploy_all_keeps addr ((k, v) ∷ fs) w name def apart h =
      deploy_all_keeps addr fs (o.post_upload addr k v w).1 name def apart.1
        (d.kept addr k v w name def (λ e. apart.0 (sym e)) h)

  deploy_all-ServesAll :
      (addr : String) (fs : Dict FunctionDef) (w : W)
      → Distinct fs
      → (deploy_all o addr fs w).0 ≡ 0
      → ServesAll (deploy_all o addr fs w).1 addr fs
  unfolding deploy_all
  deploy_all-ServesAll addr [] w apart e = tt
  deploy_all-ServesAll addr ((k, v) ∷ fs) w apart e =
      elim (Bool-cases (is_ok (o.post_upload addr k v w).0)) [
        | inl done ↦ (
          deploy_all_keeps addr fs (o.post_upload addr k v w).1 k v apart.0
              (d.uploaded addr k v w done),
          deploy_all-ServesAll addr fs (o.post_upload addr k v w).1 apart.1 (rw done at e),
        )
        | inr failed ↦ absurd (ground (arith, failed, e))
      ]

  deploy_stage-ServesAll :
      (id relay_uid : String) (channel : ℤ) (addr : String) (r : Registry) (w : W)
      → Distinct (all r.funcs)
      → (deploy_stage o id relay_uid channel addr (r, w)).0 ≡ ok tt
      → ServesAll (deploy_stage o id relay_uid channel addr (r, w)).1.1 addr (all r.funcs)
  unfolding deploy_stage deploy_functions
  deploy_stage-ServesAll id relay_uid channel addr r w apart e =
      let (failed, w') = deploy_all o addr (all r.funcs) w in
      elim (Bool-cases (failed == 0)) [
        | inl none_failed ↦
            rw (none_failed, deploy_stage)
              (deploy_all-ServesAll addr (all r.funcs) w apart (ground (arith, none_failed)))
        | inr some_failed ↦ absurd (
            back_to_sleep-ne-ok o id relay_uid channel failed r w'
              (rw (some_failed, deploy_stage) at e))
      ]

  wake_node-ServesAll :
      (attempts : ℕ) (id relay_uid : String) (channel : ℤ) (addr : String) (r : Registry) (w : W)
      → Distinct (all r.funcs)
      → (wake_node o attempts id relay_uid channel addr (r, w)).0 ≡ ok tt
      → ServesAll (wake_node o attempts id relay_uid channel addr (r, w)).1.1 addr (all r.funcs)
  unfolding wake_node
  wake_node-ServesAll attempts id relay_uid channel addr r w apart e =
      let (on, w1) = o.power_on relay_uid channel w in
      let (ready, w2) = wait_for_node_ready o attempts addr w1 in
      elim (Result-cases on) [
        | inr (x, refused) ↦ absurd (ground (arith, refused, e))
        | inl (_, powered) ↦ elim (Bool-cases ready) [
          | inr down ↦ absurd (ground (arith, powered, down, e))
          | inl up ↦
              rw (powered, wake_node)
                (rw up (
                  deploy_stage-ServesAll id relay_uid channel addr r w2 apart
                    (rw up at (rw (powered, wake_node) at e))))
        ]
      ]

  -- When a node that was not active is activated with success, every function that the store knew
  -- is on it: it is not offered to the scheduler with functions missing.
  pub activate_node-ServesAll :
      (attempts : ℕ) (id : String) (r : Registry) (w : W) (n : Node)
      → lookup id r.nodes ≡ some n
      → is_active n.status ≡ false
      → is_waking n.status ≡ false
      → Distinct (all r.funcs)
      → (activate_node o attempts id (r, w)).0 ≡ ok tt
      → ServesAll (activate_node o attempts id (r, w)).1.1 n.manager_address (all r.funcs)
  unfolding activate_node
  activate_node-ServesAll attempts id r w n found idle fresh apart e =
      let lead = start_activation-lead id r n found idle fresh in
      rw (lead, activate_node)
        (unfold all in
          wake_node-ServesAll attempts id n.relay_uid n.channel n.manager_address
            (registered id n r) w apart (rw (lead, activate_node) at e))
