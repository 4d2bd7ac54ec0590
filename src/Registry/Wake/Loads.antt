-- ===== src/Registry/Wake/Loads.antt =====
-- What an activation of any node does to the registry, whatever state the node is in.
use yuliya_bachelorarbeit.Base.{
  ℕ, String, str_eq, eq_iff, true, some, ◌≡◌, refl, ◌∙◌, ap, ok, arith, Option-cases, Bool-cases,
  inl, inr, ◌⊎◌,
}
use yuliya_bachelorarbeit.Base.Dict.{lookup}
use yuliya_bachelorarbeit.Node.{Node, is_active, is_waking}
use yuliya_bachelorarbeit.Outside.{Outside}
use yuliya_bachelorarbeit.Registry.{Registry, WakeResult, with_status}
use yuliya_bachelorarbeit.Registry.Wake.{activate_node, start_activation}
use yuliya_bachelorarbeit.Registry.Wake.Outcomes.{status_after}
use yuliya_bachelorarbeit.Registry.Wake.Settled.{Settled, activate_node-Settled}

-- An activation either leaves the registry alone, and succeeds so only for a node that is active or
-- waking, or settles its node.
pub data Woken (id : String) (r : Registry) (res : WakeResult) (t : ℕ) (r' : Registry)
    : Type 0 where
  still :
      r' ≡ r
      → (res ≡ ok tt
          → (n : Node) × (lookup id r.nodes ≡ some n)
            × ((is_active n.status ≡ true) ⊎ (is_waking n.status ≡ true)))
      → Woken id r res t r'
  settled : (n : Node) → lookup id r.nodes ≡ some n → Settled id n r res t r' → Woken id r res t r'

module _ {W : Type 0} (o : Outside W) where
  pub activate_node-Woken :
      (attempts : ℕ) (id : String) (r : Registry) (w : W)
      → let (res, (r', w')) = activate_node o attempts id (r, w) in Woken id r res (o.now w') r'
  unfolding activate_node start_activation
  activate_node-Woken attempts id r w = elim (Option-cases (lookup id r.nodes)) [
    | inl gone ↦
        rw (gone, start_activation, activate_node)
          (Woken.still refl (λ e. absurd (ground (arith, e))))
    | inr (n, found) ↦ elim (Bool-cases (is_active n.status)) [
      | inl up ↦
          rw (found, start_activation, activate_node)
            (rw up (Woken.still refl (λ e. (n, found, inl up))))
      | inr down ↦ elim (Bool-cases (is_waking n.status)) [
        | inl busy ↦
            rw (found, start_activation, activate_node)
              (rw (down, busy) (Woken.still refl (λ e. (n, found, inr busy))))
        | inr idle ↦
            Woken.settled n found (activate_node-Settled o attempts id r w n found down idle)
      ]
    ]
  ]

-- An activation, failed or not, changes no load.
pub Woken-load :
    {id : String} {r r' : Registry} {res : WakeResult} {t : ℕ} (j : String) (m : Node)
    → Woken id r res t r'
    → lookup j r.nodes ≡ some m
    → (m' : Node) × (lookup j r'.nodes ≡ some m') × (m'.load ≡ m.load)
Woken-load j m (Woken.still e _) found = (m, ap (λ r. lookup j r.nodes) e ∙ found, refl)
Woken-load {id} {r} {r'} {res} {t} j m (Woken.settled n here s) found =
    elim (Bool-cases (str_eq id j)) [
      | inl same ↦ (
        with_status (status_after res) t n,
        ground (arith, eq_iff id j, same, s.node),
        ground (arith, eq_iff id j, same, here, found),
      )
      | inr other ↦ (m, ground (arith, eq_iff id j, other, s.others j, found), refl)
    ]
