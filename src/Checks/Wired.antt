-- ===== src/Checks/Wired.antt =====
-- A registry on the relay controller and bricklets whose reads lag behind their writes.
use yuliya_bachelorarbeit.Base.{pos, true, false, some, [], ◌≡◌, refl, ok, inl, inr, arith}
use yuliya_bachelorarbeit.Outside.{Outside}
use yuliya_bachelorarbeit.Relay.{Controller, get_at, set_channel, power_off, relay_or_default}
use yuliya_bachelorarbeit.Registry.{list_nodes}
use yuliya_bachelorarbeit.Registry.Sweep.{enforce_sleeping}
use yuliya_bachelorarbeit.Registry.Sweep.Power.{Powers}
use yuliya_bachelorarbeit.Wiring.{wired, energised, wired-Powers, enforce_sleeping-open}
use yuliya_bachelorarbeit.Checks.Samples.{
  Positions, Lagging, lagging, lagging-Physics, they_stand, read_is_good, cluster, edge_1,
}

abbrev quiet_net : Outside Lagging
quiet_net = record {
  power_on = λ u c w. (ok tt, w);
  power_off = λ u c w. (ok tt, w);
  get_health = λ addr w. (some 503, w);
  post_upload = λ addr name def w. (some 200, w);
  post_delete = λ addr name w. (some 200, w);
  now = λ w. 100;
  sleep = λ d w. w;
}

abbrev fresh : Controller
fresh = record { default_uid = "A"; state = [] }

abbrev closed : Positions
closed u = (true, true)

abbrev all_closed : Lagging
all_closed = (closed, closed)

wired-Powers_example : Powers (wired lagging quiet_net) (energised they_stand read_is_good)
wired-Powers_example =
    wired-Powers lagging quiet_net they_stand read_is_good lagging-Physics
      (λ addr w v. (refl, refl))

opens : (s : Controller × Lagging) → (power_off lagging "A" (pos 0) s).0 ≡ ok tt
unfolding power_off set_channel
opens (t, w) = ground arith

enforce_sleeping-open_example :
    let (t', w') = (enforce_sleeping (wired lagging quiet_net) (cluster, (fresh, all_closed))).1 in
    get_at (pos 0) (they_stand w' (relay_or_default "A" t'.default_uid)) ≡ false
unfolding list_nodes
enforce_sleeping-open_example =
    enforce_sleeping-open lagging quiet_net they_stand read_is_good lagging-Physics
      (λ addr w v. (refl, refl)) cluster fresh all_closed edge_1 opens (inr (inl refl)) refl refl
