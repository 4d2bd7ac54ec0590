-- ===== src/Registry/Sweep/Recovery.antt =====
-- `RecoverDead`, node by node.
use yuliya_bachelorarbeit.Base.{
  ℕ, ℤ, leb_ℤ, since, Bool, true, false, String, eq_iff, some, List, [], ◌∷◌, ◌≡◌, ◌≢◌, inl, inr,
  refl, sym, ◌∙◌, arith, All, All-map, All-zip, Bool-cases, In, subst,
}
use yuliya_bachelorarbeit.Base.Dict.{lookup}
use yuliya_bachelorarbeit.Node.{Node, NodeStatus, is_dead, active, sleeping}
use yuliya_bachelorarbeit.Outside.{Outside}
use yuliya_bachelorarbeit.Registry.{Registry, with_status, set_status, list_nodes, values}
use yuliya_bachelorarbeit.Registry.Nodes.{lookup-set_status}
use yuliya_bachelorarbeit.Registry.Snapshot.{
  WellFormed, Current, DistinctIds, Current-values, DistinctIds-values,
}
use yuliya_bachelorarbeit.Registry.Wake.{healthy}
use yuliya_bachelorarbeit.Registry.Sweep.{recover_one, recover_each, recover_dead}

module _ {W : Type 0} (o : Outside W) (cooldown : ℤ) where
  -- The health check of a node, and the time after it.
  abbrev answers : Node → W → Bool
  answers n w = (healthy o n.manager_address w).0

  abbrev after : Node → W → ℕ
  after n w = o.now (healthy o n.manager_address w).1

  abbrev rested : Node → W → Bool
  rested n w = leb_ℤ cooldown (since (after n w) n.dead_since)

  -- What becomes of a node, `w` being the world in which its health is checked.
  pub data Recovered (n n' : Node) : Type 0 where
    not_dead : is_dead n.status ≡ false → n' ≡ n → Recovered n n'
    restored :
        (w : W)
        → is_dead n.status ≡ true
        → answers n w ≡ true
        → n' ≡ with_status active (after n w) n
        → Recovered n n'
    retried :
        (w : W)
        → is_dead n.status ≡ true
        → answers n w ≡ false
        → rested n w ≡ true
        → n' ≡ with_status sleeping (after n w) n
        → Recovered n n'
    resting :
        (w : W)
        → is_dead n.status ≡ true
        → answers n w ≡ false
        → rested n w ≡ false
        → n' ≡ n
        → Recovered n n'

  -- One round changes at most its own node, and that as recovery may.
  recover_one_other :
      (n : Node) (r : Registry) (w : W) (j : String)
      → n.id ≢ j
      → lookup j (recover_one o cooldown n (r, w)).0.nodes ≡ lookup j r.nodes
  unfolding recover_one
  recover_one_other n r w j ne =
      let (alive, w') = healthy o n.manager_address w in
      ground (
        arith,
        eq_iff n.id j,
        lookup-set_status n.id j active (o.now w') r,
        lookup-set_status n.id j sleeping (o.now w') r,
      )

  recover_one_self :
      (n : Node) (r : Registry) (w : W)
      → lookup n.id r.nodes ≡ some n
      → (n' : Node) × (lookup n.id (recover_one o cooldown n (r, w)).0.nodes ≡ some n')
        × Recovered n n'
  unfolding recover_one
  recover_one_self n r w found = elim (Bool-cases (is_dead n.status)) [
    | inr fine ↦ rw (fine, recover_one) (n, found, not_dead fine refl)
    | inl gone ↦ elim (Bool-cases (answers n w)) [
      | inl up ↦
          rw (gone, recover_one)
            (rw up (with_status active (after n w) n, at_self active, restored w gone up refl))
      | inr down ↦ elim (Bool-cases (rested n w)) [
        | inl over ↦
            rw (gone, recover_one)
              (rw (down, over)
                (
                  with_status sleeping (after n w) n,
                  at_self sleeping,
                  retried w gone down over refl,
                ))
        | inr early ↦
            rw (gone, recover_one) (rw (down, early) (n, found, resting w gone down early refl))
      ]
    ]
  ]
    where
      at_self :
          (status : NodeStatus)
          → lookup n.id (set_status n.id status (after n w) r).nodes
            ≡ some (with_status status (after n w) n)
      at_self status =
          rw (lookup-set_status n.id n.id status (after n w) r)
            (ground (arith, found, eq_iff n.id n.id))

  recover_each_other :
      (ns : List Node) (s : Registry × W) (j : String)
      → All (λ n. n.id ≢ j) ns
      → lookup j (recover_each o cooldown ns s).0.nodes ≡ lookup j s.0.nodes
  unfolding recover_each
  recover_each_other [] s j a = refl
  recover_each_other (n ∷ ns) s j a =
      recover_each_other ns (recover_one o cooldown n s) j a.1 ∙ recover_one_other n s.0 s.1 j a.0

  -- The rest of a snapshot is still current after a round.
  pub recover_one-Current :
      (n : Node) (ns : List Node) (s : Registry × W)
      → All (λ k. n.id ≢ k.id) ns
      → Current s.0.nodes ns
      → Current (recover_one o cooldown n s).0.nodes ns
  recover_one-Current n ns s apart current =
      All-zip (λ k. n.id ≢ k.id) (λ k. lookup k.id s.0.nodes ≡ some k)
        (λ k. lookup k.id (recover_one o cooldown n s).0.nodes ≡ some k) ns
        (λ k ne e. recover_one_other n s.0 s.1 k.id ne ∙ e) apart current

  recover_each_self :
      (ns : List Node) (s : Registry × W) (m : Node)
      → Current s.0.nodes ns
      → DistinctIds ns
      → In m ns
      → (m' : Node) × (lookup m.id (recover_each o cooldown ns s).0.nodes ≡ some m')
        × Recovered m m'
  unfolding recover_each
  recover_each_self [] s m current apart i = elim i [ ]
  recover_each_self (n ∷ ns) s m current apart (inr i) =
      recover_each_self ns (recover_one o cooldown n s) m
        (recover_one-Current n ns s apart.0 current.1) apart.1 i
  recover_each_self (n ∷ ns) s m current apart (inl e) =
      let (n', found, how) = recover_one_self n s.0 s.1 current.0 in
      subst
        (λ k.
          (m' : Node) × (lookup k.id
              (recover_each o cooldown ns (recover_one o cooldown n s)).0.nodes
            ≡ some m')
          × Recovered k m')
        (sym e)
        (
          n',
          recover_each_other ns (recover_one o cooldown n s) n.id (
                All-map (λ k. n.id ≢ k.id) (λ k. k.id ≢ n.id) ns (λ k ne same. ne (sym same))
                  apart.0)
              ∙ found,
          how,
        )

  -- `RecoverDead` treats every node of the cluster as follows: one that is not dead stays as it is;
  -- a dead one that answers its health check becomes active; one that does not becomes asleep if it
  -- has been dead for the cooldown, and else stays as it is.
  pub recover_dead-Recovered :
      (r : Registry) (w : W) (n : Node)
      → WellFormed r.nodes
      → In n (list_nodes r)
      → (n' : Node) × (lookup n.id (recover_dead o cooldown (r, w)).0.nodes ≡ some n')
        × Recovered n n'
  unfolding recover_dead
  recover_dead-Recovered r w n wf i =
      recover_each_self (values r.nodes) (r, w) n (Current-values r.nodes wf)
        (DistinctIds-values r.nodes wf) (unfold list_nodes in i)
