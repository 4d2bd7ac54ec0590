-- ===== src/Relay/Off.antt =====
-- Outlets that stay off: whatever else is opened, and whether or not that succeeds.
use yuliya_bachelorarbeit.Base.{
  ℤ, Bool, true, false, String, str_eq, eq_iff, none, some, ok, ◌≡◌, inl, inr, sym, ◌∙◌, ap, arith,
  Result-cases, Option-cases, Bool-cases, subst,
}
use yuliya_bachelorarbeit.Base.Dict.{lookup, insert, lookup-insert}
use yuliya_bachelorarbeit.Relay.{
  out_of_range, Bricklets, Controller, Channels, relay_or_default, set_at, get_at, read_state,
  write_state, write_next, adopt, set_channel, power_off,
}
use yuliya_bachelorarbeit.Relay.Laws.{
  Physics, read_state-position, read_state-true, read_state-untouched, write_state-untouched,
  write_state-other, write_state-done, write_state-failed,
}

get_at-set_at_off :
    (c d : ℤ) (x : Channels) → get_at d x ≡ false → get_at d (set_at c false x) ≡ false
get_at-set_at_off c d (a, b) off = ground arith

get_at-set_at_same : (c : ℤ) (x : Channels) → get_at c (set_at c false x) ≡ false
get_at-set_at_same c (a, b) = ground arith

-- The outlet `d` of relay `v` is open, and the controller does not want it closed, nor would it read
-- a relay that has been written to.
pub record IsOff {W : Type 0} (position : W → String → Channels) (untouched : W → String → Bool)
    (v : String) (d : ℤ) (t : Controller) (w : W) : Type 0 where
  pub here : get_at d (position w v) ≡ false
  pub wanted : (x : Channels) → lookup v t.state ≡ some x → get_at d x ≡ false
  pub new : lookup v t.state ≡ none → untouched w v ≡ true

module _ {W : Type 0} (b : Bricklets W) (position : W → String → Channels)
    (untouched : W → String → Bool) (p : Physics b position untouched) where
  -- What a write to relay `u` of a state with `d` off does to an outlet that is off.
  write-here :
      (u v : String) (d : ℤ) (next : Channels) (w : W)
      → get_at d (position w v) ≡ false
      → (u ≡ v → get_at d next ≡ false)
      → get_at d (position (write_state b u next w).1 v) ≡ false
  write-here u v d next w off none_on = elim (Bool-cases (str_eq u v)) [
    | inr other ↦
        ap (get_at d) (write_state-other p u next w v (λ e. ground (arith, other, eq_iff u v, e)))
        ∙ off
    | inl same ↦
        let e : u ≡ v = (eq_iff u v).0 same in
        subst (λ x. get_at d (position (write_state b u next w).1 x) ≡ false) e
          (elim (write_state-failed p u next w) [
            | inl stayed ↦
                ap (get_at d) stayed ∙ subst (λ x. get_at d (position w x) ≡ false) (sym e) off
            | inr done ↦ ap (get_at d) done ∙ none_on e
          ])
  ]

  wanted-insert :
      (u v : String) (d : ℤ) (next : Channels) (t : Controller)
      → ((x : Channels) → lookup v t.state ≡ some x → get_at d x ≡ false)
      → (u ≡ v → get_at d next ≡ false)
      → (x : Channels) → lookup v (insert u next t.state) ≡ some x
      → get_at d x ≡ false
  wanted-insert u v d next t wanted mine x e = elim (Bool-cases (str_eq u v)) [
    | inl same ↦
        let n : get_at d next ≡ false = mine ((eq_iff u v).0 same) in
        ground (arith, same, lookup-insert u v next t.state, e, n)
    | inr other ↦ wanted x (ground (arith, other, lookup-insert u v next t.state, e))
  ]

  -- A write to a relay that the controller knows touches none that it does not.
  write_new :
      (u v : String) (next desired : Channels) (t : Controller) (w : W)
      → lookup u t.state ≡ some desired
      → (lookup v t.state ≡ none → untouched w v ≡ true)
      → lookup v t.state ≡ none
      → untouched (write_state b u next w).1 v ≡ true
  write_new u v next desired t w known new unknown =
      write_state-untouched p u v next w (λ e.
        let found = subst (λ x. lookup x t.state ≡ some desired) e known in
        ground (arith, found, unknown))
      ∙ new unknown

  insert_new :
      (u v : String) (next desired : Channels) (t : Controller)
      → lookup u t.state ≡ some desired
      → lookup v (insert u next t.state) ≡ none
      → lookup v t.state ≡ none
  insert_new u v next desired t known gone = ground (arith, lookup-insert u v next t.state, gone)

  write_next-IsOff :
      (u v : String) (c d : ℤ) (desired known : Channels) (t : Controller) (w : W)
      → lookup u t.state ≡ some known
      → IsOff position untouched v d t w
      → (u ≡ v → get_at d desired ≡ false)
      → let (t', w') = (write_next b u c false desired (t, w)).1 in
        IsOff position untouched v d t' w'
  unfolding write_next
  write_next-IsOff u v c d desired known t w found off mine =
      let next = set_at c false desired in
      let new = write_new u v next known t w found off.new in
      let none_on = λ (e : u ≡ v). get_at-set_at_off c d desired (mine e) in
      let here = write-here u v d next w off.here none_on in
      elim (Result-cases (write_state b u next w).0) [
        | inr (x, failed) ↦
            rw (failed, write_next) (record { here = here; wanted = off.wanted; new = new })
        | inl (_, done) ↦
            rw (done, write_next)
              (record {
                here = here;
                wanted = wanted-insert u v d next t off.wanted none_on;
                new = λ gone. new (insert_new u v next known t found gone);
              })
      ]

  adopt-IsOff :
      (u v : String) (c d : ℤ) (t : Controller) (w : W)
      → lookup u t.state ≡ none
      → IsOff position untouched v d t w
      → let (t', w') = (adopt b u c false (t, w)).1 in IsOff position untouched v d t' w'
  unfolding adopt
  adopt-IsOff u v c d t w unknown off =
      let moved = read_state-position p u w in
      let here = ap (get_at d) (moved v) ∙ off.here in
      let still = read_state-untouched p u v w in
      elim (Result-cases (read_state b u w).0) [
        | inr (x, failed) ↦
            rw (failed, adopt)
              (record { here = here; wanted = off.wanted; new = λ gone. still ∙ off.new gone })
        | inl (initial, got) ↦
            let open_read = λ (e : u ≡ v).
              ap (get_at d) (
                read_state-true p u w initial
                  (subst (λ x. lookup x t.state ≡ none → untouched w x ≡ true) (sym e) off.new
                    unknown)
                  got)
              ∙ subst (λ x. get_at d (position w x) ≡ false) (sym e) off.here in
            rw (got, adopt)
              (write_next-IsOff u v c d initial initial
                (record t { state = insert u initial t.state }) (read_state b u w).1
                (ground (arith, lookup-insert u u initial t.state, eq_iff u u))
                (record {
                  here = here;
                  wanted = wanted-insert u v d initial t off.wanted open_read;
                  new = λ gone.
                      still ∙ off.new (ground (arith, lookup-insert u v initial t.state, gone));
                })
                open_read)
      ]

  -- Opening an outlet, whether or not that succeeds, turns no other one on.
  pub power_off-IsOff :
      (uid v : String) (c d : ℤ) (t : Controller) (w : W)
      → IsOff position untouched v d t w
      → let (t', w') = (power_off b uid c (t, w)).1 in IsOff position untouched v d t' w'
  unfolding power_off set_channel
  power_off-IsOff uid v c d t w off = elim (Bool-cases (out_of_range c)) [
    | inl bad ↦ rw (bad, set_channel) off
    | inr fine ↦ elim (Option-cases (lookup (relay_or_default uid t.default_uid) t.state)) [
      | inl new ↦ rw (fine, new, set_channel) (adopt-IsOff _ v c d t w new off)
      | inr (desired, known) ↦
          rw (fine, known, set_channel)
            (write_next-IsOff (relay_or_default uid t.default_uid) v c d desired desired t w known
              off (λ e. off.wanted desired (subst (λ x. lookup x t.state ≡ some desired) e known)))
    ]
  ]

  write_next-done :
      (u : String) (c : ℤ) (desired : Channels) (t : Controller) (w : W)
      → (write_next b u c false desired (t, w)).0 ≡ ok tt
      → let (t', w') = (write_next b u c false desired (t, w)).1 in
        IsOff position untouched u c t' w'
  unfolding write_next
  write_next-done u c desired t w e =
      let next = set_at c false desired in
      elim (Result-cases (write_state b u next w).0) [
        | inr (x, failed) ↦ absurd (ground (arith, failed, e))
        | inl (_, done) ↦
            rw (done, write_next)
              (record {
                here =
                    ap (get_at c) (write_state-done p u next w done) ∙ get_at-set_at_same c desired;
                wanted = λ x found. ground (
                  arith,
                  found,
                  lookup-insert u u next t.state,
                  eq_iff u u,
                  get_at-set_at_same c desired,
                );
                new = λ gone.
                    absurd (ground (arith, gone, lookup-insert u u next t.state, eq_iff u u));
              })
      ]

  adopt-done :
      (u : String) (c : ℤ) (t : Controller) (w : W)
      → (adopt b u c false (t, w)).0 ≡ ok tt
      → let (t', w') = (adopt b u c false (t, w)).1 in IsOff position untouched u c t' w'
  unfolding adopt
  adopt-done u c t w e = elim (Result-cases (read_state b u w).0) [
    | inr (x, failed) ↦ absurd (ground (arith, failed, e))
    | inl (initial, got) ↦
        rw (got, adopt)
          (write_next-done u c initial (record t { state = insert u initial t.state })
            (read_state b u w).1 (rw (got, adopt) at e))
  ]

  -- An outlet that has been opened with success is off, also in the eyes of the controller.
  pub power_off-done :
      (uid : String) (c : ℤ) (t : Controller) (w : W)
      → (power_off b uid c (t, w)).0 ≡ ok tt
      → let (t', w') = (power_off b uid c (t, w)).1 in
        IsOff position untouched (relay_or_default uid t.default_uid) c t' w'
  unfolding power_off set_channel
  power_off-done uid c t w e = elim (Bool-cases (out_of_range c)) [
    | inl bad ↦ absurd (ground (arith, bad, e))
    | inr fine ↦ elim (Option-cases (lookup (relay_or_default uid t.default_uid) t.state)) [
      | inl new ↦
          rw (fine, new, set_channel) (adopt-done _ c t w (rw (fine, new, set_channel) at e))
      | inr (desired, known) ↦
          rw (fine, known, set_channel)
            (write_next-done _ c desired t w (rw (fine, known, set_channel) at e))
    ]
  ]

  -- The default relay never changes.
  pub power_off-default_uid :
      (uid : String) (c : ℤ) (t : Controller) (w : W)
      → (power_off b uid c (t, w)).1.0.default_uid ≡ t.default_uid
  unfolding power_off set_channel adopt write_next
  power_off-default_uid uid c t w = ground arith
