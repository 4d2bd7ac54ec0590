-- ===== src/Registry/Threads/Lost.antt =====
-- An activation that is lost: the goroutine that has settled a failed wake deletes the activation of
-- the goroutine that has started the next one.
use yuliya_bachelorarbeit.Base.{
  ℕ, String, eq_iff, false, none, some, [], ◌∷◌, ◌≡◌, refl, ap, arith, ◌≢◌, List, ◌+◌, ◌++◌, err,
  length,
}
use yuliya_bachelorarbeit.Base.Dict.{lookup, lookup-insert, lookup-remove}
use yuliya_bachelorarbeit.Node.{Node, is_active, is_waking, dead, waking}
use yuliya_bachelorarbeit.Registry.{
  Registry, WakeResult, not_ready, no_signal, set_status, with_status,
}
use yuliya_bachelorarbeit.Registry.Nodes.{lookup-set_status, set_status-SameRest}
use yuliya_bachelorarbeit.Registry.Wake.{start_activation, follow, lead, unregister}
use yuliya_bachelorarbeit.Registry.Wake.Settled.{registered, start_activation-lead}
use yuliya_bachelorarbeit.Registry.Threads.{
  Thread, calling, leading, settled, closing, following, returned, Move, System, Step, Steps,
}
use yuliya_bachelorarbeit.Registry.Threads.Followers.{quiet}

length-append_one : {A : Type 0} → (xs : List A) (x : A) → length (xs ++ x ∷ []) ≡ length xs + 1
length-append_one [] x = refl
length-append_one (y ∷ xs) x = omega (arith, length-append_one xs x)

-- A step that belongs to a call of `ActivateNode`: no other method has a part in it.
abbrev pub IsCall : {s u : System} → Step s u → Type 0
IsCall (Step.runs i t t' r' at move) = Unit
IsCall (Step.arrives id) = Unit
IsCall (Step.updates id f) = ⊥

unfoldable pub AllCalls : {s u : System} → Steps s u → Type 0
AllCalls Steps.here = Unit
AllCalls (Steps.next before step) = AllCalls before × IsCall step

-- What comes about by calls of `ActivateNode` alone.
abbrev pub Calls : System → System → Type 0
Calls s u = (steps : Steps s u) × AllCalls steps

one_more : {s t u : System} → Calls s t → (step : Step t u) → IsCall step → Calls s u
unfolding AllCalls
one_more (steps, calls) step call = (Steps.next steps step, (calls, call))

no_call : (s : System) → Calls s s
unfolding AllCalls
no_call s = (Steps.here, tt)

module _ (r : Registry) (id : String) (n : Node) (found : lookup id r.nodes ≡ some n)
    (idle : is_active n.status ≡ false) (fresh : is_waking n.status ≡ false) (now : ℕ) where
  abbrev failure : WakeResult
  failure = err (not_ready id n.manager_address)

  -- The registries that follow one another: the first call leads, fails and marks the node dead; the
  -- second leads; the first deletes what it takes for its own activation.
  abbrev led : Registry
  led = registered id n r

  abbrev failed : Registry
  failed = set_status id dead now led

  abbrev dead_node : Node
  dead_node = with_status dead now n

  abbrev led_again : Registry
  led_again = registered id dead_node failed

  abbrev lost : Registry
  lost = unregister id led_again

  failed_node : lookup id failed.nodes ≡ some dead_node
  failed_node =
      rw (lookup-set_status id id dead now led)
        (ground (arith, eq_iff id id, lookup-insert id id (record n { status = waking }) r.nodes))

  leads_again : start_activation id failed ≡ lead (length failed.signals) dead_node led_again
  leads_again = start_activation-lead id failed dead_node failed_node refl refl

  finds_nothing : start_activation id lost ≡ follow none
  unfolding start_activation unregister
  finds_nothing = ground (
    arith,
    eq_iff id id,
    lookup-insert id id (record dead_node { status = waking }) failed.nodes,
    lookup-remove id id led_again.activations,
  )

  abbrev with_threads : Registry → Thread → Thread → Thread → System
  with_threads r' a b c = record { registry = r'; threads = a ∷ b ∷ c ∷ [] }

  abbrev act_1 : ℕ
  act_1 = length r.signals

  abbrev act_2 : ℕ
  act_2 = length failed.signals

  acts_apart : act_1 ≢ act_2
  acts_apart e =
      let kept = ap length (set_status-SameRest id dead now led).signals in
      omega (arith, e, kept, length-append_one r.signals none)

  three-Calls : Calls (quiet r) (with_threads r (calling id) (calling id) (calling id))
  three-Calls =
      one_more (one_more (one_more (no_call (quiet r)) (Step.arrives id) tt) (Step.arrives id) tt)
        (Step.arrives id) tt

  first_fails :
      Calls (quiet r) (with_threads failed (settled id act_1 failure) (calling id) (calling id))
  first_fails =
      one_more
        (one_more three-Calls
          (Step.runs 0 (calling id) (leading id act_1) led refl
            (Move.leads id act_1 n led (start_activation-lead id r n found idle fresh)))
          tt)
        (Step.runs 0 (leading id act_1) (settled id act_1 failure) failed refl
          (Move.wakes id act_1 failure now refl))
        tt

  second_loses :
      Calls (quiet r) (with_threads lost (closing id act_1 failure) (leading id act_2) (calling id))
  second_loses =
      one_more
        (one_more first_fails
          (Step.runs 1 (calling id) (leading id act_2) led_again refl
            (Move.leads id act_2 dead_node led_again leads_again))
          tt)
        (Step.runs 0 (settled id act_1 failure) (closing id act_1 failure) lost refl
          (Move.unregisters id act_1 failure))
        tt

-- For every node that is neither active nor waking there is an interleaving of three calls of
-- `ActivateNode` for it, and of nothing else, none under way before, in which the first has failed to
-- wake the node and has deleted an activation, the second still wakes the node, and the third, which
-- has found it waking, has waited on a nil activation; no activation of the node is left.
pub activation_lost :
    (r : Registry) (id : String) (n : Node)
    → lookup id r.nodes ≡ some n
    → is_active n.status ≡ false
    → is_waking n.status ≡ false
    → (u : System) × Calls (quiet r) u
      × ((act_1 : ℕ) × (act_2 : ℕ) × (act_1 ≢ act_2)
          × (u.threads ≡ (
              closing id act_1 (err (not_ready id n.manager_address))
              ∷ leading id act_2
              ∷ returned id (err (no_signal id))
              ∷ [])))
      × (lookup id u.registry.activations ≡ none)
unfolding unregister
activation_lost r id n found idle fresh =
    let before = second_loses r id n found idle fresh 0 in
    let follows =
      Step.runs 2 (calling id) (following id none) (lost r id n found idle fresh 0) refl
        (Move.follows id none (finds_nothing r id n found idle fresh 0)) in
    let panics =
      Step.runs 2 (following id none) (returned id (err (no_signal id)))
        (lost r id n found idle fresh 0) refl (Move.panics id) in
    let again = led_again r id n found idle fresh 0 in
    (
      _,
      one_more (one_more before follows tt) panics tt,
      (
        length r.signals,
        length (failed r id n found idle fresh 0).signals,
        acts_apart r id n found idle fresh 0,
        refl,
      ),
      ground (arith, eq_iff id id, lookup-remove id id again.activations),
    )
