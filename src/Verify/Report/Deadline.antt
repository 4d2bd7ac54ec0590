-- ===== src/Verify/Report/Deadline.antt =====
-- tinyFaaS-ext/cmd/verify-wiring/main.go: the loop that waits for a worker to boot ends by its deadline.
use yuliya_bachelorarbeit.Base.{
  ℕ, zero, suc, ◌≤◌, ◌+◌, ltb, true, false, String, Option, none, some, List, [], ◌∷◌, ◌*◌,
  Result-cases, ◌≡◌, refl, inl, inr, arith, Bool-cases,
}
use yuliya_bachelorarbeit.Base.Dict.{Dict}
use yuliya_bachelorarbeit.Node.{Node}
use yuliya_bachelorarbeit.Relay.{Bricklets}
use yuliya_bachelorarbeit.Verify.{
  Watts, Bench, Verified, read_all, healthy_manager, check_address, check_bricklet, settled, watch,
  verify_worker, set_relay, poll_interval, boot_timeout, settle_after_off,
}
use yuliya_bachelorarbeit.Verify.Report.{run, Ending, verify_all, power_all_off}

-- The clock: it goes on by the time that is slept, and never back.
pub record Clock {W : Type 0} (e : Bench W) : Type 0 where
  pub slept : (d : ℕ) (w : W) → e.now w + d ≤ e.now (e.sleep d w)
  pub power_later : (node : String) (w : W) → e.now w ≤ e.now (e.get_power node w).1
  pub health_later : (addr : String) (w : W) → e.now w ≤ e.now (e.get_health addr w).1

module _ {W D : Type 0} (b : Bricklets W) (e : Bench W) (f : Watts D) (clock : Clock e) where
  read_all-later : (vcs : List String) (w : W) → e.now w ≤ e.now (read_all b e f vcs w).1
  unfolding read_all
  read_all-later [] w = omega arith
  read_all-later (node ∷ nodes) w =
      let one = clock.power_later node w in
      let rest = read_all-later nodes (e.get_power node w).1 in omega (arith, one, rest)

  check_address-later :
      (n : Node) (s : Verified × W) → e.now s.1 ≤ e.now (check_address b e f n s).1
  unfolding check_address healthy_manager
  check_address-later n (res, w) =
      let up = clock.health_later n.manager_address w in ground (arith, up)

  check_bricklet-later :
      (vcs : List String) (before : Dict D) (n : Node) (s : Verified × W)
      → e.now s.1 ≤ e.now (check_bricklet b e f vcs before n s).1
  unfolding check_bricklet
  check_bricklet-later vcs before n (res, w) =
      let later = read_all-later vcs w in ground (arith, later)

  -- Enough fuel for the time that is left.
  watch-ends :
      (fuel : ℕ) (vcs : List String) (before : Dict D) (n : Node) (deadline : ℕ) (s : Verified × W)
      → deadline ≤ e.now s.1 + poll_interval * fuel
      → (r : Verified × W) × (watch b e f (suc fuel) vcs before n deadline s ≡ some r)
  unfolding watch
  watch-ends zero vcs before n deadline (res, w) left =
      let over : ltb (e.now w) deadline ≡ false = ground (arith, left) in ((res, w), rw over refl)
  watch-ends (suc fuel) vcs before n deadline (res, w) left =
      let s1 = check_address b e f n (res, e.sleep poll_interval w) in
      let s2 = check_bricklet b e f vcs before n s1 in
      let slept = clock.slept poll_interval w in
      let a = check_address-later n (res, e.sleep poll_interval w) in
      let c = check_bricklet-later vcs before n s1 in
      let (r, ended) =
        watch-ends fuel vcs before n deadline s2 (omega (arith, left, slept, a, c)) in
      elim (Bool-cases (ltb (e.now w) deadline)) [
        | inr over ↦ ((res, w), rw over refl)
        | inl early ↦ elim (Bool-cases (settled vcs s2.0)) [
          | inl enough ↦ (s2, rw (early, enough) refl)
          | inr more ↦ (r, rw (early, more) ended)
        ]
      ]

  abbrev Ends : {A : Type 0} → Option A × W → Type 0
  Ends {A} r = (a : A) × (r.0 ≡ some a)

  verify_worker-Ends : (vcs : List String) (n : Node) (w : W) → Ends (verify_worker b e f vcs n w)
  unfolding verify_worker
  verify_worker-Ends vcs n w =
      let (before, w1) = read_all b e f vcs w in
      let (result, w2) = set_relay b n.relay_uid n.channel true w1 in
      let res : Verified = record {
        node = n.id;
        powered_ok = true;
        saw_bricklet = "";
        bricklet_ok = false;
        address_ok = false;
        note = none;
      } in
      elim (Result-cases result) [
        | inr (problem, failed) ↦
            (record res { powered_ok = false; note = some problem }, ground (arith, failed))
        | inl (_, on) ↦
            let ((seen, w3), ended) =
              watch-ends 45 vcs before n (e.now w2 + boot_timeout) (res, w2) (omega arith) in
            (seen, ground (arith, on, ended))
      ]

  verify_all-Ends : (vcs : List String) (ns : List Node) (w : W) → Ends (verify_all b e f vcs ns w)
  unfolding verify_all
  verify_all-Ends vcs [] w = ([], refl)
  verify_all-Ends vcs (n ∷ ns) w =
      let (r, one) = verify_worker-Ends vcs n w in
      let (rs, rest) = verify_all-Ends vcs ns (verify_worker b e f vcs n w).1 in
      (r ∷ rs, ground (arith, one, rest))

  -- A run ends, with a report or because a relay does not switch off at the start, if the clock goes
  -- on by the time that is slept and never back: the loop of each worker has the fuel for its deadline.
  pub run-ends :
      (vcs : List String) (workers : List Node) (w : W)
      → ¬ ((run b e f vcs workers w).0 ≡ Ending.out_of_fuel)
  unfolding run
  run-ends vcs workers w spent =
      let (rs, all) =
        verify_all-Ends vcs workers (e.sleep settle_after_off (power_all_off b workers w).1) in
      ground (arith, all, spent)
