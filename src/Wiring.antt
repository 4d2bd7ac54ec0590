-- ===== src/Wiring.antt =====
-- tinyFaaS-ext/cmd/rproxy/main.go: the relay controller as the power controller of the registry,
-- as `main` passes one to the other.
use yuliya_bachelorarbeit.Base.{
  ℤ, Bool, true, false, not, ◌||◌, String, none, some, ok, ◌≡◌, inl, inr, arith, Option-cases, In,
}
use yuliya_bachelorarbeit.Base.Dict.{lookup}
use yuliya_bachelorarbeit.Node.{Node, is_sleeping}
use yuliya_bachelorarbeit.Relay.{
  Bricklets, Controller, Channels, relay_or_default, get_at, power_on, power_off,
}
use yuliya_bachelorarbeit.Relay.Laws.{Physics}
use yuliya_bachelorarbeit.Relay.Off.{IsOff, power_off-IsOff, power_off-done, power_off-default_uid}
use yuliya_bachelorarbeit.Outside.{Outside}
use yuliya_bachelorarbeit.Registry.{Registry, list_nodes}
use yuliya_bachelorarbeit.Registry.Sweep.{enforce_sleeping}
use yuliya_bachelorarbeit.Registry.Sweep.Power.{Powers, enforce_sleeping-off}

-- The relay controller over the bricklets `b`, with the network and the clock of `net`.
unfoldable pub wired : {V : Type 0} → Bricklets V → Outside V → Outside (Controller × V)
unfolding power_on power_off
wired b net = record {
  power_on = power_on b;
  power_off = power_off b;
  get_health = λ addr s. let (code, w') = net.get_health addr s.1 in (code, (s.0, w'));
  post_upload =
      λ addr name def s. let (code, w') = net.post_upload addr name def s.1 in (code, (s.0, w'));
  post_delete = λ addr name s. let (code, w') = net.post_delete addr name s.1 in (code, (s.0, w'));
  now = λ s. net.now s.1;
  sleep = λ d s. (s.0, net.sleep d s.1);
}

-- Whether the controller would close an outlet with its next write to the relay: it wants it closed,
-- or it would read a relay that has been written to, where a read may lag behind.
abbrev pub wants : (String → Bool) → Controller → String → ℤ → Bool
wants untouched t v d = elim (lookup v t.state) [ none ↦ not (untouched v) | some x ↦ get_at d x ]

module _ {V : Type 0} (position : V → String → Channels) (untouched : V → String → Bool) where
  -- An outlet that is closed, or that the controller may close with its next write.
  abbrev pub energised : Controller × V → String → ℤ → Bool
  energised (t, w) u d =
      let v = relay_or_default u t.default_uid in
      get_at d (position w v) || wants (untouched w) t v d

  IsOff-energised :
      (t : Controller) (w : V) (u : String) (d : ℤ)
      → energised (t, w) u d ≡ false
      → IsOff position untouched (relay_or_default u t.default_uid) d t w
  IsOff-energised t w u d off = record {
    here = ground (arith, off);
    wanted = λ x found. ground (arith, off, found);
    new = λ gone. ground (arith, off, gone);
  }

  energised-IsOff :
      (t : Controller) (w : V) (u : String) (d : ℤ)
      → IsOff position untouched (relay_or_default u t.default_uid) d t w
      → energised (t, w) u d ≡ false
  energised-IsOff t w u d off =
      elim (Option-cases (lookup (relay_or_default u t.default_uid) t.state)) [
        | inl gone ↦ ground (arith, off.here, gone, off.new gone)
        | inr (x, found) ↦ ground (arith, off.here, found, off.wanted x found)
      ]

module _ {V : Type 0} (b : Bricklets V) (net : Outside V) (position : V → String → Channels)
    (untouched : V → String → Bool) (p : Physics b position untouched)
    (still : (addr : String) (w : V) (v : String)
      → (position (net.get_health addr w).1 v ≡ position w v)
        × (untouched (net.get_health addr w).1 v ≡ untouched w v)) where
  off_done :
      (u : String) (c : ℤ) (s : Controller × V)
      → ((wired b net).power_off u c s).0 ≡ ok tt
      → energised position untouched ((wired b net).power_off u c s).1 u c ≡ false
  unfolding wired
  off_done u c (t, w) e =
      let (t', w') = (power_off b u c (t, w)).1 in
      energised-IsOff position untouched t' w' u c (
        rw (power_off-default_uid b position untouched p u c t w)
          (power_off-done b position untouched p u c t w e))

  off_closes_none :
      (u : String) (c : ℤ) (s : Controller × V) (v : String) (d : ℤ)
      → energised position untouched s v d ≡ false
      → energised position untouched ((wired b net).power_off u c s).1 v d ≡ false
  unfolding wired
  off_closes_none u c (t, w) v d off =
      let (t', w') = (power_off b u c (t, w)).1 in
      energised-IsOff position untouched t' w' v d (
        rw (power_off-default_uid b position untouched p u c t w) (
          power_off-IsOff b position untouched p u (relay_or_default v t.default_uid) c d t w
            (IsOff-energised position untouched t w v d off)))

  -- Let an outlet count as on if it is closed, if the controller wants it closed, or if the controller
  -- does not know its relay though it has been written to. Then a switch-off without an error leaves
  -- its outlet off, no switch-off, failed or not, puts one on that was off, and no health check
  -- changes which are on. A read may lag behind a write.
  pub wired-Powers : Powers (wired b net) (energised position untouched)
  unfolding wired
  wired-Powers = record {
    off_done = off_done;
    off_closes_none = off_closes_none;
    health_keeps = λ addr s v d.
        let at = relay_or_default v s.0.default_uid in
        let same = still addr s.1 at in
        elim (Option-cases (lookup at s.0.state)) [
          | inl gone ↦ ground (arith, gone, same.0, same.1)
          | inr (x, found) ↦ ground (arith, found, same.0)
        ];
  }

  -- With the relay controller in place, `EnforceSleeping` leaves open, in the hardware, the outlet
  -- of every worker that is recorded as sleeping, if opening it does not fail. A read of a relay may
  -- lag behind a write to it.
  pub enforce_sleeping-open :
      (r : Registry) (t : Controller) (w : V) (n : Node)
      → ((s : Controller × V) → (power_off b n.relay_uid n.channel s).0 ≡ ok tt)
      → In n (list_nodes r)
      → n.local ≡ false
      → is_sleeping n.status ≡ true
      → let (t', w') = (enforce_sleeping (wired b net) (r, (t, w))).1 in
        get_at n.channel (position w' (relay_or_default n.relay_uid t'.default_uid)) ≡ false
  unfolding wired
  enforce_sleeping-open r t w n opens m far asleep =
      let (t', w') = (enforce_sleeping (wired b net) (r, (t, w))).1 in
      (IsOff-energised position untouched t' w' n.relay_uid n.channel
        (enforce_sleeping-off (wired b net) (energised position untouched) wired-Powers r (t, w) n
          opens m far asleep).1).here
