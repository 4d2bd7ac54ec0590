-- ===== src/Relay/Outlets.antt =====
-- Switching one outlet: what moves, what stays, and the desired state against the hardware.
use yuliya_bachelorarbeit.Base.{
  ℤ, Bool, true, String, str_eq, eq_iff, none, some, ok, ◌≡◌, ◌≢◌, ◌⊎◌, inl, inr, refl, sym, ◌∙◌,
  ap, arith, Result-cases, Option-cases, Bool-cases,
}
use yuliya_bachelorarbeit.Base.Dict.{lookup, insert, lookup-insert}
use yuliya_bachelorarbeit.Relay.{
  out_of_range, Bricklets, Controller, RelayError, Channels, relay_or_default, set_at, read_state,
  write_state, write_next, adopt, set_channel, Io,
}
use yuliya_bachelorarbeit.Relay.Laws.{
  Physics, read_state-position, read_state-true, read_state-untouched, write_state-untouched,
  write_state-other, write_state-done, write_state-failed,
}

module _ {W : Type 0} (position : W → String → Channels) (untouched : W → String → Bool) where
  -- Every relay that the controller knows stands where the controller wants it, and every other one
  -- is untouched.
  pub record Agrees (t : Controller) (w : W) : Type 0 where
    pub known : (v : String) (c : Channels) → lookup v t.state ≡ some c → position w v ≡ c
    pub new : (v : String) → lookup v t.state ≡ none → untouched w v ≡ true

  Agrees-insert :
      (t : Controller) (w w' : W) (u : String) (c : Channels)
      → Agrees t w
      → position w' u ≡ c
      → ((v : String) → u ≢ v → position w' v ≡ position w v)
      → ((v : String) → u ≢ v → untouched w' v ≡ untouched w v)
      → Agrees (record t { state = insert u c t.state }) w'
  Agrees-insert t w w' u c a here there still = record {
    known = λ v x e. elim (Bool-cases (str_eq u v)) [
      | inl same ↦
          let u=v : u ≡ v = (eq_iff u v).0 same in
          ap (position w') (sym u=v) ∙ here ∙ ground (arith, lookup-insert u v c t.state, same)
      | inr other ↦
          there v (λ u=v. ground (arith, (eq_iff u v).1 u=v))
          ∙ a.known v x (ground (arith, lookup-insert u v c t.state, other))
    ];
    new = λ v e. elim (Bool-cases (str_eq u v)) [
      | inl same ↦ absurd (ground (arith, same, e, lookup-insert u v c t.state))
      | inr other ↦
          still v (λ u=v. ground (arith, (eq_iff u v).1 u=v))
          ∙ a.new v (ground (arith, lookup-insert u v c t.state, other))
    ];
  }

-- A switch of one outlet of relay `u` that succeeded: the outlet moved, nothing else did, and the
-- desired state is the hardware's.
pub record Switched {W : Type 0} (position : W → String → Channels) (untouched : W → String → Bool)
    (u : String) (channel : ℤ) (on : Bool) (w : W) (t' : Controller) (w' : W) : Type 0 where
  pub here : position w' u ≡ set_at channel on (position w u)
  pub there : (v : String) → u ≢ v → position w' v ≡ position w v
  pub agrees : Agrees position untouched t' w'

-- No outlet but one moved.
pub record OthersKept {W : Type 0} (position : W → String → Channels) (u : String) (channel : ℤ)
    (w w' : W) : Type 0 where
  pub sibling :
      (position w' u ≡ position w u)
      ⊎ ((on : Bool) × (position w' u ≡ set_at channel on (position w u)))
  pub there : (v : String) → u ≢ v → position w' v ≡ position w v

module _ {W : Type 0} (b : Bricklets W) (position : W → String → Channels)
    (untouched : W → String → Bool) (p : Physics b position untouched) where
  write_next-Switched :
      (u : String) (channel : ℤ) (on : Bool) (desired : Channels) (t : Controller) (w : W)
      → Agrees position untouched t w
      → position w u ≡ desired
      → (write_next b u channel on desired (t, w)).0 ≡ ok tt
      → let (t', w') = (write_next b u channel on desired (t, w)).1 in
        Switched position untouched u channel on w t' w'
  unfolding write_next
  write_next-Switched u channel on desired t w a now e =
      elim (Result-cases (write_state b u (set_at channel on desired) w).0) [
        | inr (x, failed) ↦ absurd (ground (arith, failed, e))
        | inl (_, done) ↦
            let here = write_state-done p u (set_at channel on desired) w done in
            let there = write_state-other p u (set_at channel on desired) w in
            rw (done, write_next)
              (record {
                here = here ∙ ap (set_at channel on) (sym now);
                there = there;
                agrees =
                    Agrees-insert position untouched t w _ u _ a here there
                      (λ v. write_state-untouched p u v (set_at channel on desired) w);
              })
      ]

  -- Whether or not the write succeeds, the world after it is the write's.
  write_next_world :
      (u : String) (channel : ℤ) (on : Bool) (desired : Channels) (t : Controller) (w : W)
      → (write_next b u channel on desired (t, w)).1.1
        ≡ (write_state b u (set_at channel on desired) w).1
  unfolding write_next
  write_next_world u channel on desired t w = ground arith

  write_next-OthersKept :
      (u : String) (channel : ℤ) (on : Bool) (desired : Channels) (t : Controller) (w : W)
      → position w u ≡ desired
      → OthersKept position u channel w (write_next b u channel on desired (t, w)).1.1
  write_next-OthersKept u channel on desired t w now =
      rw (write_next_world u channel on desired t w) (record {
        sibling = elim (write_state-failed p u (set_at channel on desired) w) [
          | inl stayed ↦ inl stayed
          | inr done ↦ inr (on, done ∙ ap (set_at channel on) (sym now))
        ];
        there = write_state-other p u (set_at channel on desired) w;
      })

  -- After the read of an unknown relay the desired state is still the hardware's.
  adopted :
      (u : String) (initial : Channels) (t : Controller) (w : W)
      → Agrees position untouched t w
      → lookup u t.state ≡ none
      → (read_state b u w).0 ≡ ok initial
      → Agrees position untouched
          (record t { state = insert u initial t.state })
          (read_state b u w).1
  adopted u initial t w a unknown e =
      Agrees-insert position untouched t w (read_state b u w).1 u initial a
        (read_state-position p u w u ∙ sym (read_state-true p u w initial (a.new u unknown) e))
        (λ v _. read_state-position p u w v) (λ v _. read_state-untouched p u v w)

  adopt-Switched :
      (u : String) (channel : ℤ) (on : Bool) (t : Controller) (w : W)
      → Agrees position untouched t w
      → lookup u t.state ≡ none
      → (adopt b u channel on (t, w)).0 ≡ ok tt
      → let (t', w') = (adopt b u channel on (t, w)).1 in
        Switched position untouched u channel on w t' w'
  unfolding adopt
  adopt-Switched u channel on t w a unknown e = elim (Result-cases (read_state b u w).0) [
    | inr (x, failed) ↦ absurd (ground (arith, failed, e))
    | inl (initial, got) ↦
        let step =
          write_next-Switched u channel on initial (record t { state = insert u initial t.state })
            (read_state b u w).1 (adopted u initial t w a unknown got)
            (read_state-position p u w u
              ∙ sym (read_state-true p u w initial (a.new u unknown) got))
            (ground (arith, got, e)) in
        rw (got, adopt)
          (record {
            here = step.here ∙ ap (set_at channel on) (read_state-position p u w u);
            there = λ v ne. step.there v ne ∙ read_state-position p u w v;
            agrees = step.agrees;
          })
  ]

  adopt-OthersKept :
      (u : String) (channel : ℤ) (on : Bool) (t : Controller) (w : W)
      → Agrees position untouched t w
      → lookup u t.state ≡ none
      → OthersKept position u channel w (adopt b u channel on (t, w)).1.1
  unfolding adopt
  adopt-OthersKept u channel on t w a unknown = elim (Result-cases (read_state b u w).0) [
    | inr (x, failed) ↦
        rw (failed, adopt)
          (record {
            sibling = inl (read_state-position p u w u);
            there = λ v _. read_state-position p u w v;
          })
    | inl (initial, got) ↦
        let moved = read_state-position p u w in
        let step =
          write_next-OthersKept u channel on initial (record t { state = insert u initial t.state })
            (read_state b u w).1
            (moved u ∙ sym (read_state-true p u w initial (a.new u unknown) got)) in
        rw (got, adopt)
          (record {
            sibling = elim step.sibling [
              | inl stayed ↦ inl (stayed ∙ moved u)
              | inr (o, done) ↦ inr (o, done ∙ ap (set_at channel o) (moved u))
            ];
            there = λ v ne. step.there v ne ∙ moved v;
          })
  ]

  -- Switching a channel that a relay has, with every relay that the controller knows where it wants
  -- it, every other one not yet written to, and reads that may lag behind a write:
  -- success means that exactly this outlet stands as asked, that the other channel of the relay and
  -- all other relays stand as before, and that the agreement still holds.
  pub set_channel-Switched :
      (uid : String) (channel : ℤ) (on : Bool) (t : Controller) (w : W)
      → Agrees position untouched t w
      → (set_channel b uid channel on (t, w)).0 ≡ ok tt
      → let (t', w') = (set_channel b uid channel on (t, w)).1 in
        Switched position untouched (relay_or_default uid t.default_uid) channel on w t' w'
  unfolding set_channel
  set_channel-Switched uid channel on t w a e = elim (Bool-cases (out_of_range channel)) [
    | inl bad ↦ absurd (ground (arith, bad, e))
    | inr fine ↦ elim (Option-cases (lookup (relay_or_default uid t.default_uid) t.state)) [
      | inl new ↦
          rw (fine, new, set_channel)
            (adopt-Switched _ channel on t w a new (rw (fine, new, set_channel) at e))
      | inr (desired, known) ↦
          rw (fine, known, set_channel)
            (write_next-Switched _ channel on desired t w a (a.known _ desired known)
              (rw (fine, known, set_channel) at e))
    ]
  ]

  -- Whatever a switch returns, it moves at most the outlet that it was asked to move.
  pub set_channel-OthersKept :
      (uid : String) (channel : ℤ) (on : Bool) (t : Controller) (w : W)
      → Agrees position untouched t w
      → OthersKept position
          (relay_or_default uid t.default_uid)
          channel
          w
          (set_channel b uid channel on (t, w)).1.1
  unfolding set_channel
  set_channel-OthersKept uid channel on t w a = elim (Bool-cases (out_of_range channel)) [
    | inl bad ↦ rw (bad, set_channel) (record { sibling = inl refl; there = λ v _. refl })
    | inr fine ↦ elim (Option-cases (lookup (relay_or_default uid t.default_uid) t.state)) [
      | inl new ↦ rw (fine, new, set_channel) (adopt-OthersKept _ channel on t w a new)
      | inr (desired, known) ↦
          rw (fine, known, set_channel)
            (write_next-OthersKept _ channel on desired t w (a.known _ desired known))
    ]
  ]

-- Once the controller knows a relay, what the bricklet would read back is irrelevant: a switch does
-- the same whatever `GetValue` returns, so a stale read cannot undo an earlier write.
pub set_channel-get_value :
    {W : Type 0} (b : Bricklets W) (get : String → Io W RelayError Channels) (uid : String)
    (channel : ℤ) (on : Bool) (t : Controller) (w : W) (c : Channels)
    → lookup (relay_or_default uid t.default_uid) t.state ≡ some c
    → set_channel (record b { get_value = get }) uid channel on (t, w)
      ≡ set_channel b uid channel on (t, w)
unfolding set_channel
set_channel-get_value b get uid channel on t w c known = rw (known, set_channel)
