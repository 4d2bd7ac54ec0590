-- ===== src/Registry/Sweep/Power.antt =====
-- Recorded sleep and the relays: where they are brought together, and where they part.
use yuliya_bachelorarbeit.Base.{
  ℤ, leb_ℤ, since, Bool, true, false, not, ◌||◌, String, some, List, [], ◌∷◌, ok, ◌≡◌, refl, ◌∙◌,
  ap, arith, Bool-cases, In, inl, inr, subst,
}
use yuliya_bachelorarbeit.Base.Dict.{lookup}
use yuliya_bachelorarbeit.Node.{Node, is_dead, is_sleeping, sleeping}
use yuliya_bachelorarbeit.Outside.{Outside}
use yuliya_bachelorarbeit.Registry.{Registry, list_nodes}
use yuliya_bachelorarbeit.Registry.Snapshot.{WellFormed}
use yuliya_bachelorarbeit.Registry.Wake.{healthy}
use yuliya_bachelorarbeit.Registry.Sweep.{
  recover_one, recover_each, recover_dead, enforce_one, enforce_each, enforce_sleeping,
}
use yuliya_bachelorarbeit.Registry.Sweep.Recovery.{Recovered, recover_dead-Recovered}

-- `on w uid channel` tells whether an outlet is closed. Opening one that succeeds leaves it open,
-- opening any closes none, and a health check moves nothing.
pub record Powers {W : Type 0} (o : Outside W) (on : W → String → ℤ → Bool) : Type 0 where
  pub off_done :
      (u : String) (c : ℤ) (w : W)
      → (o.power_off u c w).0 ≡ ok tt
      → on (o.power_off u c w).1 u c ≡ false
  pub off_closes_none :
      (u : String) (c : ℤ) (w : W) (v : String) (d : ℤ)
      → on w v d ≡ false
      → on (o.power_off u c w).1 v d ≡ false
  pub health_keeps :
      (addr : String) (w : W) (v : String) (d : ℤ) → on (o.get_health addr w).1 v d ≡ on w v d

module _ {W : Type 0} (o : Outside W) (on : W → String → ℤ → Bool) (p : Powers o on) where
  enforce_one-off :
      (n : Node) (w : W) (v : String) (d : ℤ)
      → on w v d ≡ false
      → on (enforce_one o n w) v d ≡ false
  unfolding enforce_one
  enforce_one-off n w v d off = elim (Bool-cases (n.local || not (is_sleeping n.status))) [
    | inl skipped ↦ rw (skipped, enforce_one) off
    | inr opened ↦ rw (opened, enforce_one) (p.off_closes_none n.relay_uid n.channel w v d off)
  ]

  enforce_each-off :
      (ns : List Node) (w : W) (v : String) (d : ℤ)
      → on w v d ≡ false
      → on (enforce_each o ns w) v d ≡ false
  unfolding enforce_each
  enforce_each-off [] w v d off = off
  enforce_each-off (n ∷ ns) w v d off =
      enforce_each-off ns (enforce_one o n w) v d (enforce_one-off n w v d off)

  enforce_each-asleep :
      (ns : List Node) (w : W) (n : Node)
      → ((w : W) → (o.power_off n.relay_uid n.channel w).0 ≡ ok tt)
      → In n ns
      → n.local ≡ false
      → is_sleeping n.status ≡ true
      → on (enforce_each o ns w) n.relay_uid n.channel ≡ false
  unfolding enforce_each enforce_one
  enforce_each-asleep [] w n opens m far asleep = elim m [ ]
  enforce_each-asleep (k ∷ ns) w n opens (inl e) far asleep =
      enforce_each-off ns (enforce_one o k w) n.relay_uid n.channel (
        subst (λ x. on (enforce_one o x w) n.relay_uid n.channel ≡ false) e
          (rw (far, asleep) (p.off_done n.relay_uid n.channel w (opens w))))
  enforce_each-asleep (k ∷ ns) w n opens (inr m) far asleep =
      enforce_each-asleep ns (enforce_one o k w) n opens m far asleep

  -- After `EnforceSleeping`, the outlet of every worker that is recorded as sleeping is open, if
  -- opening it does not fail, and the registry is as it was.
  pub enforce_sleeping-off :
      (r : Registry) (w : W) (n : Node)
      → ((w : W) → (o.power_off n.relay_uid n.channel w).0 ≡ ok tt)
      → In n (list_nodes r)
      → n.local ≡ false
      → is_sleeping n.status ≡ true
      → let (r', w') = enforce_sleeping o (r, w) in (r' ≡ r) × (on w' n.relay_uid n.channel ≡ false)
  unfolding enforce_sleeping
  enforce_sleeping-off r w n opens m far asleep =
      (refl, enforce_each-asleep (list_nodes r) w n opens m far asleep)

  recover_one-on :
      (cooldown : ℤ) (n : Node) (r : Registry) (w : W) (v : String) (d : ℤ)
      → on (recover_one o cooldown n (r, w)).1 v d ≡ on w v d
  unfolding recover_one healthy
  recover_one-on cooldown n r w v d = ground (arith, p.health_keeps n.manager_address w v d)

  recover_each-on :
      (cooldown : ℤ) (ns : List Node) (r : Registry) (w : W) (v : String) (d : ℤ)
      → on (recover_each o cooldown ns (r, w)).1 v d ≡ on w v d
  unfolding recover_each
  recover_each-on cooldown [] r w v d = refl
  recover_each-on cooldown (n ∷ ns) r w v d =
      let (r', w') = recover_one o cooldown n (r, w) in
      recover_each-on cooldown ns r' w' v d ∙ recover_one-on cooldown n r w v d

  -- A dead node that does not answer and has rested is recorded as sleeping by `RecoverDead`, with
  -- its outlet as it was: if the wake that failed has left it closed, it stays closed.
  pub recover_dead-powered :
      (cooldown : ℤ) (r : Registry) (w : W) (n : Node)
      → WellFormed r.nodes
      → In n (list_nodes r)
      → is_dead n.status ≡ true
      → ((w : W) → (healthy o n.manager_address w).0 ≡ false)
      → ((w : W) → leb_ℤ cooldown (since (o.now w) n.dead_since) ≡ true)
      → on w n.relay_uid n.channel ≡ true
      → let (r', w') = recover_dead o cooldown (r, w) in
        ((n' : Node) × (lookup n.id r'.nodes ≡ some n') × (n'.status ≡ sleeping))
        × (on w' n.relay_uid n.channel ≡ true)
  unfolding recover_dead
  recover_dead-powered cooldown r w n wf m dead silent rested powered =
      let (n', found, how) = recover_dead-Recovered o cooldown r w n wf m in
      (
        (n', found, asleep n' how),
        recover_each-on cooldown (list_nodes r) r w n.relay_uid n.channel ∙ powered,
      )
    where
      asleep : (n' : Node) → Recovered o cooldown n n' → n'.status ≡ sleeping
      asleep n' (Recovered.not_dead alive e) = cc (alive, dead)
      asleep n' (Recovered.restored w1 d answered e) = cc (answered, silent w1)
      asleep n' (Recovered.retried w1 d quiet late e) = ap (λ x. x.status) e
      asleep n' (Recovered.resting w1 d quiet early e) =
          cc (early, rested (healthy o n.manager_address w1).1)
