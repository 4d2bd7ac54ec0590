-- ===== src/Checks/Verifications.antt =====
-- The wiring check on two workers that are wired as the configuration says, and on a clock alone.
use yuliya_bachelorarbeit.Base.{
  ℕ, ◌+◌, leb, ltb, pos, true, false, String, str_eq, none, some, List, [], ◌∷◌, pos_part, ◌-◌, inl,
  if◌then◌else◌, ok, ◌≡◌, refl, arith,
}
use yuliya_bachelorarbeit.Base.Dict.{lookup, insert}
use yuliya_bachelorarbeit.Base.Decimal.{cut}
use yuliya_bachelorarbeit.Node.{Node}
use yuliya_bachelorarbeit.Relay.{Bricklets, get_at}
use yuliya_bachelorarbeit.Verify.{
  Watts, Bench, Verified, set_relay, with_channel, verify_worker, read_all, rose_above, best_rise,
  reading, watch, check_address, check_bricklet, healthy_manager,
}
use yuliya_bachelorarbeit.Verify.Report.{
  run, Ending, reported, power_all_off, leave_all_off, verify_all, parse_bricklets, read_pairs,
  split, trim_left, trim_right, is_space,
}
use yuliya_bachelorarbeit.Verify.Report.Off.{run-off, IsOpen}
use yuliya_bachelorarbeit.Verify.Report.Deadline.{Clock, run-ends}
use yuliya_bachelorarbeit.Checks.Samples.{
  Positions, bricklets, bricklets-Physics, where_they_are, never_late, all_off, edge_1, edge_2,
}

-- Whole milliwatts.
abbrev milliwatts : Watts ℕ
milliwatts = record {
  of_milliwatts = pos_part;
  nothing = 0;
  on_threshold = 500;
  minus = λ a b. a - b;
  greater = λ a b. ltb b a;
  at_least = λ a b. leb b a;
}

-- Every machine answers, and a machine draws current when its outlet is closed.
abbrev bench : Bench Positions
bench = record {
  get_power = λ node w. (
    some (
        if get_at (if str_eq node "edge-1" then pos 0 else pos 1) (w "A") then pos 3000 else pos 5),
    w,
  );
  get_health = λ addr w. (some 200, w);
  now = λ w. 0;
  sleep = λ d w. w;
}

abbrev measured : List String
measured = "edge-1" ∷ "edge-2" ∷ []

abbrev both : List Node
both = edge_1 ∷ edge_2 ∷ []

abbrev good : String → Verified
good node = record {
  node = node;
  powered_ok = true;
  saw_bricklet = node;
  bricklet_ok = true;
  address_ok = true;
  note = none;
}

abbrev all_good : List Verified
all_good = good "edge-1" ∷ good "edge-2" ∷ []

first_obeys : (w : Positions) → (set_relay bricklets "A" (pos 0) false w).0 ≡ ok tt
unfolding set_relay with_channel
first_obeys w = refl

run-alone :
    (run bricklets bench milliwatts measured (edge_1 ∷ []) all_off).0
    ≡ reported (good "edge-1" ∷ [])
unfolding run power_all_off verify_all leave_all_off verify_worker set_relay with_channel read_all
    watch check_address check_bricklet healthy_manager rose_above best_rise reading lookup
run-alone = refl

run-off_example :
    IsOpen bricklets where_they_are never_late bricklets-Physics "A"
      (pos 0)
      (run bricklets bench milliwatts measured (edge_1 ∷ []) all_off).1
run-off_example =
    run-off bricklets where_they_are never_late bricklets-Physics bench milliwatts measured
      (edge_1 ∷ []) all_off (good "edge-1" ∷ []) edge_1 run-alone (inl refl) first_obeys
      (λ same. refl, tt)

-- A world that is only a clock.
abbrev ticking : Bench ℕ
ticking = record {
  get_power = λ node w. (none, w);
  get_health = λ addr w. (none, w);
  now = λ w. w;
  sleep = λ d w. w + d;
}

abbrev relays : Bricklets ℕ
relays = record {
  connect = λ w. (ok tt, w);
  open_relay = λ u w. (ok tt, w);
  get_value = λ u w. (ok (false, false), w);
  set_value = λ u c w. (ok tt, w);
  close = λ w. w;
}

ticking-Clock : Clock ticking
ticking-Clock = record {
  slept = λ d w. omega arith;
  power_later = λ node w. omega arith;
  health_later = λ addr w. omega arith;
}

run-ends_example : ¬ ((run relays ticking milliwatts measured both 7).0 ≡ Ending.out_of_fuel)
run-ends_example = run-ends relays ticking milliwatts ticking-Clock measured both 7

-- Spaces around the parts of ENERGY_NODES do not matter.
parses :
    parse_bricklets " edge-1 = 26vg,leader=26gZ" ≡ ok (("edge-1", "26vg") ∷ ("leader", "26gZ") ∷ [])
unfolding parse_bricklets read_pairs split trim_left trim_right is_space cut insert
parses = refl
