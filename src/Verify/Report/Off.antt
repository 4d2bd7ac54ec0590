-- ===== src/Verify/Report/Off.antt =====
-- tinyFaaS-ext/cmd/verify-wiring/main.go and the workers that it leaves powered off.
use yuliya_bachelorarbeit.Base.{
  ℤ, pos, eqb_ℤ, Bool, false, String, str_eq, All, List, [], ◌∷◌, ok, Result-cases, ◌≡◌, ◌≢◌, refl,
  In, subst, inl, inr, arith, Bool-cases, Option-cases, eq_iff, ap, ◌∙◌,
}
use yuliya_bachelorarbeit.Node.{Node}
use yuliya_bachelorarbeit.Relay.{Bricklets, Channels, get_at}
use yuliya_bachelorarbeit.Relay.Laws.{Physics}
use yuliya_bachelorarbeit.Verify.{settle_after_off, Verified, Watts, Bench, set_relay, with_channel}
use yuliya_bachelorarbeit.Verify.Report.{run, reported, leave_all_off, verify_all, power_all_off}

module _ {W : Type 0} (b : Bricklets W) (position : W → String → Channels)
    (untouched : W → String → Bool) (p : Physics b position untouched) where
  abbrev pub IsOpen : String → ℤ → W → Type 0
  IsOpen uid d w = get_at d (position w uid) ≡ false

  with_channel-other :
      (u v : String) (c : ℤ) (on : Bool) (x : Channels) (w : W)
      → u ≢ v
      → position (with_channel b u c on x w).1 v ≡ position w v
  unfolding with_channel
  with_channel-other u v c on (c0, c1) w ne = elim (Bool-cases (eqb_ℤ c (pos 0))) [
    | inl first ↦ rw (first, with_channel) (p.set_other u (on, c1) w v ne)
    | inr not_first ↦ elim (Bool-cases (eqb_ℤ c (pos 1))) [
      | inl second ↦ rw (not_first, with_channel) (rw second (p.set_other u (c0, on) w v ne))
      | inr neither ↦ rw (not_first, with_channel) (rw neither refl)
    ]
  ]

  -- A switch moves no other relay, whatever it reads and returns.
  set_relay-other :
      (u v : String) (c : ℤ) (on : Bool) (w : W)
      → u ≢ v
      → position (set_relay b u c on w).1 v ≡ position w v
  unfolding set_relay
  set_relay-other u v c on w ne = elim (Result-cases (b.open_relay u w).0) [
    | inr (e, shut) ↦ rw (shut, set_relay) (p.open_keeps u w v)
    | inl (_, opened) ↦
        let w1 = (b.open_relay u w).1 in
        elim (Result-cases (b.get_value u w1).0) [
          | inr (e, unread) ↦
              rw (opened, set_relay) (rw unread (p.get_keeps u w1 v ∙ p.open_keeps u w v))
          | inl (x, read) ↦
              rw (opened, set_relay)
                (rw read (
                  with_channel-other u v c on x (b.get_value u w1).1 ne
                  ∙ p.get_keeps u w1 v
                  ∙ p.open_keeps u w v))
        ]
  ]

  with_channel-off :
      (u : String) (c : ℤ) (x : Channels) (w : W)
      → (with_channel b u c false x w).0 ≡ ok tt
      → IsOpen u c (with_channel b u c false x w).1
  unfolding with_channel
  with_channel-off u c (c0, c1) w done = elim (Bool-cases (eqb_ℤ c (pos 0))) [
    | inl first ↦
        rw (first, with_channel)
          (let set = p.set_done u (false, c1) w (ground (arith, first, done)) in
            ground (arith, set, first))
    | inr not_first ↦ elim (Bool-cases (eqb_ℤ c (pos 1))) [
      | inl second ↦
          rw (not_first, with_channel)
            (rw second (
              let set = p.set_done u (c0, false) w (ground (arith, not_first, second, done)) in
              ground (arith, set, not_first)))
      | inr neither ↦ absurd (ground (arith, not_first, neither, done))
    ]
  ]

  -- A switch-off without an error opens its outlet.
  set_relay-off :
      (u : String) (c : ℤ) (w : W)
      → (set_relay b u c false w).0 ≡ ok tt
      → IsOpen u c (set_relay b u c false w).1
  unfolding set_relay
  set_relay-off u c w done = elim (Result-cases (b.open_relay u w).0) [
    | inr (e, shut) ↦ absurd (ground (arith, shut, done))
    | inl (_, opened) ↦
        let w1 = (b.open_relay u w).1 in
        elim (Result-cases (b.get_value u w1).0) [
          | inr (e, unread) ↦ absurd (ground (arith, opened, unread, done))
          | inl (x, read) ↦
              rw (opened, set_relay)
                (rw read (
                  with_channel-off u c x (b.get_value u w1).1 (ground (arith, opened, read, done))))
        ]
  ]

  -- A relay that can be switched off.
  abbrev pub Obeys : Node → Type 0
  Obeys n = (w : W) → (set_relay b n.relay_uid n.channel false w).0 ≡ ok tt

  -- No worker stands behind the other channel of the relay of `n`.
  abbrev pub Alone : Node → List Node → Type 0
  Alone n ns = All (λ m. m.relay_uid ≡ n.relay_uid → m.channel ≡ n.channel) ns

  one_off :
      (n m : Node) (w : W)
      → Obeys n
      → (m.relay_uid ≡ n.relay_uid → m.channel ≡ n.channel)
      → IsOpen n.relay_uid n.channel w
      → IsOpen n.relay_uid n.channel (set_relay b m.relay_uid m.channel false w).1
  one_off n m w obeys alone off = elim (Bool-cases (str_eq m.relay_uid n.relay_uid)) [
    | inr other ↦
        ap (get_at n.channel) (
          set_relay-other m.relay_uid n.relay_uid m.channel false w
            (λ e. ground (arith, other, eq_iff m.relay_uid n.relay_uid, e)))
        ∙ off
    | inl same ↦
        let e = (eq_iff m.relay_uid n.relay_uid).0 same in
        rw (e, alone e) (set_relay-off n.relay_uid n.channel w (obeys w))
  ]

  leave_all_off-IsOpen :
      (n : Node) (ns : List Node) (w : W)
      → Obeys n
      → Alone n ns
      → IsOpen n.relay_uid n.channel w
      → IsOpen n.relay_uid n.channel (leave_all_off b ns w)
  unfolding leave_all_off
  leave_all_off-IsOpen n [] w obeys alone off = off
  leave_all_off-IsOpen n (m ∷ ns) w obeys alone off =
      leave_all_off-IsOpen n ns (set_relay b m.relay_uid m.channel false w).1 obeys alone.1
        (one_off n m w obeys alone.0 off)

  leave_all_off-off :
      (n : Node) (ns : List Node) (w : W)
      → In n ns
      → Obeys n
      → Alone n ns
      → IsOpen n.relay_uid n.channel (leave_all_off b ns w)
  unfolding leave_all_off
  leave_all_off-off n [] w m obeys alone = elim m [ ]
  leave_all_off-off n (k ∷ ns) w (inl e) obeys alone =
      leave_all_off-IsOpen n ns (set_relay b k.relay_uid k.channel false w).1 obeys alone.1 (
        subst (λ k. IsOpen n.relay_uid n.channel (set_relay b k.relay_uid k.channel false w).1) e
          (set_relay-off n.relay_uid n.channel w (obeys w)))
  leave_all_off-off n (k ∷ ns) w (inr m) obeys alone =
      leave_all_off-off n ns (set_relay b k.relay_uid k.channel false w).1 m obeys alone.1

  -- A run that comes to its report leaves the outlet of a worker open, if its relay can be switched
  -- off and no worker stands behind the relay's other channel. A read of a relay may lag behind a
  -- write to it.
  pub run-off :
      {D : Type 0} (e : Bench W) (f : Watts D) (vcs : List String) (workers : List Node) (w : W)
      (rs : List Verified) (n : Node)
      → (run b e f vcs workers w).0 ≡ reported rs
      → In n workers
      → Obeys n
      → Alone n workers
      → IsOpen n.relay_uid n.channel (run b e f vcs workers w).1
  unfolding run
  run-off e f vcs workers w rs n done m obeys alone =
      let (failed, w1) = power_all_off b workers w in
      let (results, w2) = verify_all b e f vcs workers (e.sleep settle_after_off w1) in
      elim (Option-cases failed) [
        | inr (x, stop) ↦ absurd (ground (arith, stop, done))
        | inl going ↦ elim (Option-cases results) [
          | inl spent ↦ absurd (ground (arith, going, spent, done))
          | inr (seen, known) ↦
              rw (going, run) (rw known (leave_all_off-off n workers w2 m obeys alone))
        ]
      ]
