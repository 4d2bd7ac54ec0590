-- ===== src/Relay/Laws.antt =====
-- What the bindings of the bricklets promise, and what follows for one read and one write.
use yuliya_bachelorarbeit.Base.{
  Bool, true, String, ok, err, ◌≡◌, ◌≢◌, ◌⊎◌, inl, inr, ◌∙◌, sym, Result-cases,
}
use yuliya_bachelorarbeit.Base.Io.{Io}
use yuliya_bachelorarbeit.Relay.{
  Bricklets, RelayError, Channels, with_relay, read_state, write_state,
}

-- `position w uid` is where the two relays of a bricklet stand, and `untouched w uid` says that
-- nothing has been written to it. A call that fails may still have reached the bricklet, and a read
-- is only good for an untouched bricklet: after a write it may lag behind.
pub record Physics {W : Type 0} (b : Bricklets W) (position : W → String → Channels)
    (untouched : W → String → Bool) : Type 0 where
  pub connect_keeps : (w : W) (v : String) → position (b.connect w).1 v ≡ position w v
  pub open_keeps :
      (u : String) (w : W) (v : String) → position (b.open_relay u w).1 v ≡ position w v
  pub close_keeps : (w : W) (v : String) → position (b.close w) v ≡ position w v
  pub get_keeps : (u : String) (w : W) (v : String) → position (b.get_value u w).1 v ≡ position w v
  pub get_true :
      (u : String) (w : W) (c : Channels)
      → untouched w u ≡ true
      → (b.get_value u w).0 ≡ ok c
      → c ≡ position w u
  pub connect_untouched : (w : W) (v : String) → untouched (b.connect w).1 v ≡ untouched w v
  pub open_untouched :
      (u : String) (w : W) (v : String) → untouched (b.open_relay u w).1 v ≡ untouched w v
  pub close_untouched : (w : W) (v : String) → untouched (b.close w) v ≡ untouched w v
  pub get_untouched :
      (u : String) (w : W) (v : String) → untouched (b.get_value u w).1 v ≡ untouched w v
  pub set_untouched :
      (u : String) (c : Channels) (w : W) (v : String)
      → u ≢ v
      → untouched (b.set_value u c w).1 v ≡ untouched w v
  pub set_other :
      (u : String) (c : Channels) (w : W) (v : String)
      → u ≢ v
      → position (b.set_value u c w).1 v ≡ position w v
  pub set_done :
      (u : String) (c : Channels) (w : W)
      → (b.set_value u c w).0 ≡ ok tt
      → position (b.set_value u c w).1 u ≡ c
  pub set_failed_or_done :
      (u : String) (c : Channels) (w : W)
      → (position (b.set_value u c w).1 u ≡ position w u) ⊎ (position (b.set_value u c w).1 u ≡ c)

module _ {W : Type 0} {b : Bricklets W} {position : W → String → Channels}
    {untouched : W → String → Bool} (p : Physics b position untouched) where
  -- What `withRelay` leaves untouched is what its function leaves so.
  with_relay-untouched :
      {A : Type 0} (u v : String) (fn : Io W RelayError A) (w : W)
      → ((w' : W) → untouched (fn w').1 v ≡ untouched w' v)
      → untouched (with_relay b u fn w).1 v ≡ untouched w v
  unfolding with_relay
  with_relay-untouched u v fn w kept = elim (Result-cases (b.connect w).0) [
    | inr (e, no_link) ↦ rw no_link (p.close_untouched _ v ∙ p.connect_untouched w v)
    | inl (_, link) ↦ elim (Result-cases (b.open_relay u (b.connect w).1).0) [
      | inr (e, shut) ↦
          rw (link, shut) (p.close_untouched _ v ∙ p.open_untouched u _ v ∙ p.connect_untouched w v)
      | inl (_, opened) ↦
          rw (link, opened)
            (p.close_untouched _ v ∙ kept _ ∙ p.open_untouched u _ v ∙ p.connect_untouched w v)
    ]
  ]

  pub read_state-untouched :
      (u v : String) (w : W) → untouched (read_state b u w).1 v ≡ untouched w v
  unfolding read_state
  read_state-untouched u v w =
      with_relay-untouched u v (b.get_value u) w (λ w'. p.get_untouched u w' v)

  pub write_state-untouched :
      (u v : String) (c : Channels) (w : W)
      → u ≢ v
      → untouched (write_state b u c w).1 v ≡ untouched w v
  unfolding write_state
  write_state-untouched u v c w ne =
      with_relay-untouched u v (b.set_value u c) w (λ w'. p.set_untouched u c w' v ne)

  -- `withRelay` either runs its function in a world with every relay where it was, or fails with
  -- every relay where it was.
  with_relay_cases :
      {A : Type 0} (u : String) (fn : Io W RelayError A) (w : W)
      → ((w' : W) × ((v : String) → position w' v ≡ position w v)
          × (untouched w' u ≡ untouched w u)
          × ((with_relay b u fn w).0 ≡ (fn w').0)
          × ((v : String) → position (with_relay b u fn w).1 v ≡ position (fn w').1 v))
        ⊎ ((e : RelayError) × ((with_relay b u fn w).0 ≡ err e)
            × ((v : String) → position (with_relay b u fn w).1 v ≡ position w v))
  unfolding with_relay
  with_relay_cases u fn w = elim (Result-cases (b.connect w).0) [
    | inr (e, no_link) ↦
        inr (e, rw no_link, λ v. rw no_link (p.close_keeps _ v ∙ p.connect_keeps w v))
    | inl (_, link) ↦ elim (Result-cases (b.open_relay u (b.connect w).1).0) [
      | inr (e, shut) ↦ inr (
        e,
        rw (link, shut),
        λ v. rw (link, shut) (p.close_keeps _ v ∙ p.open_keeps u _ v ∙ p.connect_keeps w v),
      )
      | inl (_, opened) ↦ inl (
        (b.open_relay u (b.connect w).1).1,
        λ v. p.open_keeps u _ v ∙ p.connect_keeps w v,
        p.open_untouched u _ u ∙ p.connect_untouched w u,
        rw (link, opened),
        λ v. rw (link, opened) (p.close_keeps _ v),
      )
    ]
  ]

  -- A read moves nothing, and returns the position if it returns one.
  pub read_state-position :
      (u : String) (w : W) (v : String) → position (read_state b u w).1 v ≡ position w v
  unfolding read_state
  read_state-position u w v = elim (with_relay_cases u (b.get_value u) w) [
    | inl (w', same, _, _, moved) ↦ moved v ∙ p.get_keeps u w' v ∙ same v
    | inr (_, _, same) ↦ same v
  ]

  pub read_state-true :
      (u : String) (w : W) (c : Channels)
      → untouched w u ≡ true
      → (read_state b u w).0 ≡ ok c
      → c ≡ position w u
  unfolding read_state
  read_state-true u w c new e = elim (with_relay_cases u (b.get_value u) w) [
    | inl (w', same, still, result, _) ↦ p.get_true u w' c (still ∙ new) (sym result ∙ e) ∙ same u
    | inr (x, failed, _) ↦ cc (failed, e)
  ]

  -- A write moves no other relay; one that succeeds moves its relay to the positions given, and one
  -- that fails to those or nowhere.
  pub write_state-other :
      (u : String) (c : Channels) (w : W) (v : String)
      → u ≢ v
      → position (write_state b u c w).1 v ≡ position w v
  unfolding write_state
  write_state-other u c w v ne = elim (with_relay_cases u (b.set_value u c) w) [
    | inl (w', same, _, _, moved) ↦ moved v ∙ p.set_other u c w' v ne ∙ same v
    | inr (_, _, same) ↦ same v
  ]

  pub write_state-done :
      (u : String) (c : Channels) (w : W)
      → (write_state b u c w).0 ≡ ok tt
      → position (write_state b u c w).1 u ≡ c
  unfolding write_state
  write_state-done u c w e = elim (with_relay_cases u (b.set_value u c) w) [
    | inl (w', _, _, result, moved) ↦ moved u ∙ p.set_done u c w' (sym result ∙ e)
    | inr (x, failed, _) ↦ cc (failed, e)
  ]

  pub write_state-failed :
      (u : String) (c : Channels) (w : W)
      → (position (write_state b u c w).1 u ≡ position w u)
        ⊎ (position (write_state b u c w).1 u ≡ c)
  unfolding write_state
  write_state-failed u c w = elim (with_relay_cases u (b.set_value u c) w) [
    | inl (w', same, _, _, moved) ↦ elim (p.set_failed_or_done u c w') [
      | inl stayed ↦ inl (moved u ∙ stayed ∙ same u)
      | inr done ↦ inr (moved u ∙ done)
    ]
    | inr (_, _, same) ↦ inl (same u)
  ]
