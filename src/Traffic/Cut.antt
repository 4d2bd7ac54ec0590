-- ===== src/Traffic/Cut.antt =====
-- A node is powered off under a request: the controller decides by a snapshot that the request has
-- overtaken.
use yuliya_bachelorarbeit.Base.{
  ℕ, pos, pred_ℤ, true, some, List, [], ◌∷◌, count_if, ◌≡◌, refl, subst, arith, eq_iff,
}
use yuliya_bachelorarbeit.Base.Dict.{lookup}
use yuliya_bachelorarbeit.Node.{Node, sleeping, is_active}
use yuliya_bachelorarbeit.Config.{ControllerConfig}
use yuliya_bachelorarbeit.Scheduler.{pick_node}
use yuliya_bachelorarbeit.Controller.{is_excess, serves}
use yuliya_bachelorarbeit.Registry.{Registry, list_nodes, inc_load, set_status, raise, with_status}
use yuliya_bachelorarbeit.Registry.Nodes.{lookup-update_node}
use yuliya_bachelorarbeit.Registry.Wake.{start_activation, already_active}
use yuliya_bachelorarbeit.Traffic.{
  Request, arrived, picked, admitted, served_by, Loop, waiting, scanning, cutting, cut_off, Traffic,
  sets_status, Serve, picks, admits_active, begins, Scale, takes_snapshot, chooses, cuts, marks,
  Step, serves_request, arrives, scales, Steps, here, next,
}

-- One request, and the controller's loop.
abbrev pub with_one : Registry → Request → Loop → Traffic
with_one r q loop = record { registry = r; requests = q ∷ []; loop = loop }

abbrev pub at_rest : Registry → Traffic
at_rest r = record { registry = r; requests = []; loop = waiting }

-- A step of a request or of the controller's loop: no other change of a status.
abbrev pub IsOwn : {cfg : ControllerConfig} → {s t : Traffic} → Step cfg s t → Type 0
IsOwn (serves_request i q q' r' at serve) = Unit
IsOwn arrives = Unit
IsOwn (scales loop' r' scale) = Unit
IsOwn (sets_status id status now) = ⊥

unfoldable pub AllOwn : {cfg : ControllerConfig} → {s t : Traffic} → Steps cfg s t → Type 0
AllOwn here = Unit
AllOwn (next before step) = AllOwn before × IsOwn step

-- What comes about by requests and the controller's loop alone.
abbrev pub Own : ControllerConfig → Traffic → Traffic → Type 0
Own cfg s t = (steps : Steps cfg s t) × AllOwn steps

one_more :
    {cfg : ControllerConfig} {s t u : Traffic}
    → Own cfg s t
    → (step : Step cfg t u) → IsOwn step
    → Own cfg s u
unfolding AllOwn
one_more (steps, all) step own = (next steps step, (all, own))

nothing_yet : (cfg : ControllerConfig) (s : Traffic) → Own cfg s s
unfolding AllOwn
nothing_yet cfg s = (here, tt)

module _ (cfg : ControllerConfig) where
  moves_one :
      {s : Traffic} (r r' : Registry) (q q' : Request) (loop : Loop)
      → Own cfg s (with_one r q loop)
      → Serve cfg r q r' q'
      → Own cfg s (with_one r' q' loop)
  moves_one r r' q q' loop before serve = one_more before (serves_request 0 q q' r' refl serve) tt

  moves_loop :
      {s : Traffic} (r r' : Registry) (q : Request) (loop loop' : Loop)
      → Own cfg s (with_one r q loop)
      → Scale cfg r loop r' loop'
      → Own cfg s (with_one r' q loop')
  moves_loop r r' q loop loop' before scale = one_more before (scales loop' r' scale) tt

module _ (cfg : ControllerConfig) (r : Registry) (n : Node) (ns : List Node) where
  -- If the scheduler picks an active node that the controller counts as an excess, and the controller
  -- comes to it first, then one request and the controller's loop, with no other change of a status,
  -- can come to a point at which the loop has opened the node's relay while the request is in flight
  -- on the node, and go on from there to record the node as sleeping, with the load of that request.
  pub cut_under_request :
      (now : ℕ)
      → list_nodes r ≡ n ∷ ns
      → lookup n.id r.nodes ≡ some n
      → is_active n.status ≡ true
      → pick_node (list_nodes r) cfg.load_threshold ≡ some n
      → is_excess cfg (pos (count_if serves (list_nodes r))) now n ≡ true
      → (t : Traffic) × (u : Traffic) × Own cfg (at_rest r) t
        × Own cfg t u
        × (t.requests ≡ served_by n.id ∷ [])
        × (t.loop ≡ cut_off n ns (pos (count_if serves (list_nodes r))))
        × (u.requests ≡ served_by n.id ∷ [])
        × ((m : Node) × (lookup n.id u.registry.nodes ≡ some m)
            × (m.status ≡ sleeping)
            × (m.load ≡ (raise n).load))
  unfolding start_activation inc_load set_status
  cut_under_request now listed found up picked_first excess =
      let count = pos (count_if serves (list_nodes r)) in
      let loaded = inc_load n.id r in
      let cut = set_status n.id sleeping now loaded in
      let admits : start_activation n.id r ≡ already_active = ground (arith, found, up) in
      let snapshot = subst (λ l. Scale cfg r waiting r (scanning l count)) listed takes_snapshot in
      let comes : Own cfg (at_rest r) (with_one r arrived waiting) =
        one_more (nothing_yet cfg (at_rest r)) arrives tt in
      let chosen = moves_one cfg r r arrived (picked n.id) waiting comes (picks n picked_first) in
      let looked =
        moves_loop cfg r r (picked n.id) waiting (scanning (n ∷ ns) count) chosen snapshot in
      let decided =
        moves_loop cfg r r (picked n.id) (scanning (n ∷ ns) count) (cutting n ns count) looked
          (chooses n ns count now excess) in
      let admitted_in =
        moves_one cfg r r (picked n.id) (admitted n.id) (cutting n ns count) decided
          (admits_active n.id admits) in
      let begun =
        moves_one cfg r loaded (admitted n.id) (served_by n.id) (cutting n ns count) admitted_in
          (begins n.id) in
      let opened =
        moves_loop cfg loaded loaded (served_by n.id) (cutting n ns count) (cut_off n ns count)
          begun (cuts n ns count) in
      (
        with_one loaded (served_by n.id) (cut_off n ns count),
        with_one cut (served_by n.id) (scanning ns (pred_ℤ count)),
        opened,
        moves_loop cfg loaded cut (served_by n.id) (cut_off n ns count) (scanning ns (pred_ℤ count))
            (nothing_yet cfg (with_one loaded (served_by n.id) (cut_off n ns count)))
            (marks n ns count now),
        refl,
        refl,
        refl,
        (
          with_status sleeping now (raise n),
          ground (
            arith,
            found,
            eq_iff n.id n.id,
            lookup-update_node n.id n.id raise r,
            lookup-update_node n.id n.id (with_status sleeping now) loaded,
          ),
          refl,
          refl,
        ),
      )
