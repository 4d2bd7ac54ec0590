-- ===== src/Checks/Samples.antt =====
-- A small cluster, bricklets that work, and a network that answers.
use yuliya_bachelorarbeit.Base.{
  pos, Bool, true, false, not, ◌&&◌, ap, String, str_eq, eq_iff, none, some, List, [], ◌∷◌,
  if◌then◌else◌, ok, ◌≡◌, ◌≢◌, refl, inl, inr, In, arith,
}
use yuliya_bachelorarbeit.Node.{Node, active, dead}
use yuliya_bachelorarbeit.Functions.{FunctionDef, FunctionStore}
use yuliya_bachelorarbeit.Relay.{Bricklets, Channels}
use yuliya_bachelorarbeit.Relay.Alias.{worker, leader}
use yuliya_bachelorarbeit.Relay.Laws.{Physics}
use yuliya_bachelorarbeit.Outside.{Outside}
use yuliya_bachelorarbeit.Registry.{Registry, new_registry}
use yuliya_bachelorarbeit.Registry.Wake.Deployed.{Deploys}

abbrev pub edge_1 : Node
edge_1 = worker "edge-1" "A" (pos 0)

abbrev pub edge_2 : Node
edge_2 = worker "edge-2" "A" (pos 1)

abbrev pub busy_1 : Node
busy_1 = record edge_1 { status = active; load = pos 3 }

abbrev pub idle_2 : Node
idle_2 = record edge_2 { status = active; load = pos 0 }

abbrev pub dead_2 : Node
dead_2 = record edge_2 { status = dead; dead_since = 5 }

abbrev pub dispatcher : Node
dispatcher = record leader { dispatch_only = true }

-- Bricklets whose positions are a function, and that always answer.
abbrev pub Positions : Type 0
Positions = String → Channels

abbrev pub place : String → Channels → Positions → Positions
place u c w v = if str_eq u v then c else w v

abbrev pub bricklets : Bricklets Positions
bricklets = record {
  connect = λ w. (ok tt, w);
  open_relay = λ u w. (ok tt, w);
  get_value = λ u w. (ok (w u), w);
  set_value = λ u c w. (ok tt, place u c w);
  close = λ w. w;
}

abbrev pub where_they_are : Positions → String → Channels
where_they_are w = w

place_other : (u : String) (c : Channels) (w : Positions) (v : String) → u ≢ v → place u c w v ≡ w v
place_other u c w v ne = ground (arith, eq_iff u v)

place_self : (u : String) (c : Channels) (w : Positions) → place u c w u ≡ c
place_self u c w = ground (arith, eq_iff u u)

abbrev pub never_late : Positions → String → Bool
never_late w u = true

pub bricklets-Physics : Physics bricklets where_they_are never_late
bricklets-Physics = record {
  connect_keeps = λ w v. refl;
  open_keeps = λ u w v. refl;
  close_keeps = λ w v. refl;
  get_keeps = λ u w v. refl;
  get_true = λ u w c new e. ground (arith, e);
  connect_untouched = λ w v. refl;
  open_untouched = λ u w v. refl;
  close_untouched = λ w v. refl;
  get_untouched = λ u w v. refl;
  set_untouched = λ u c w v ne. refl;
  set_other = place_other;
  set_done = λ u c w e. place_self u c w;
  set_failed_or_done = λ u c w. inr (place_self u c w);
}

abbrev pub all_off : Positions
all_off u = (false, false)

-- Bricklets whose reads lag: where the relays stand, and where a read says that they do, which is
-- where they stood before any write.
abbrev pub Lagging : Type 0
Lagging = Positions × Positions

abbrev pub lagging : Bricklets Lagging
lagging = record {
  connect = λ w. (ok tt, w);
  open_relay = λ u w. (ok tt, w);
  get_value = λ u w. (ok (w.1 u), w);
  set_value = λ u c w. (ok tt, (place u c w.0, w.1));
  close = λ w. w;
}

abbrev pub they_stand : Lagging → String → Channels
they_stand w = w.0

abbrev eqb : Bool → Bool → Bool
eqb true b = b
eqb false b = not b

abbrev pub same_channels : Channels → Channels → Bool
same_channels (a, b) (c, d) = eqb a c && eqb b d

same_channels-eq : (x y : Channels) → same_channels x y ≡ true → y ≡ x
same_channels-eq (true, true) (true, true) e = refl
same_channels-eq (true, false) (true, false) e = refl
same_channels-eq (false, true) (false, true) e = refl
same_channels-eq (false, false) (false, false) e = refl
same_channels-eq (true, true) (true, false) e = cc e
same_channels-eq (true, true) (false, d) e = cc e
same_channels-eq (true, false) (true, true) e = cc e
same_channels-eq (true, false) (false, d) e = cc e
same_channels-eq (false, true) (false, false) e = cc e
same_channels-eq (false, true) (true, d) e = cc e
same_channels-eq (false, false) (false, true) e = cc e
same_channels-eq (false, false) (true, d) e = cc e

abbrev pub read_is_good : Lagging → String → Bool
read_is_good w u = same_channels (w.0 u) (w.1 u)

pub lagging-Physics : Physics lagging they_stand read_is_good
lagging-Physics = record {
  connect_keeps = λ w v. refl;
  open_keeps = λ u w v. refl;
  close_keeps = λ w v. refl;
  get_keeps = λ u w v. refl;
  get_true = λ u w c good e. ground (arith, e, same_channels-eq (w.0 u) (w.1 u) good);
  connect_untouched = λ w v. refl;
  open_untouched = λ u w v. refl;
  close_untouched = λ w v. refl;
  get_untouched = λ u w v. refl;
  set_untouched = λ u c w v ne. ap (λ x. same_channels x (w.1 v)) (place_other u c w.0 v ne);
  set_other = λ u c w v ne. place_other u c w.0 v ne;
  set_done = λ u c w e. place_self u c w.0;
  set_failed_or_done = λ u c w. inr (place_self u c w.0);
}

abbrev pub both_off : Lagging
both_off = (all_off, all_off)

-- A network in which every call succeeds; the world is the list of the uploads, newest first.
abbrev pub Uploads : Type 0
Uploads = List (String × String × FunctionDef)

abbrev pub network : Outside Uploads
network = record {
  power_on = λ u c w. (ok tt, w);
  power_off = λ u c w. (ok tt, w);
  get_health = λ addr w. (some 200, w);
  post_upload = λ addr name def w. (some 200, (addr, name, def) ∷ w);
  post_delete = λ addr name w. (some 200, w);
  now = λ w. 100;
  sleep = λ d w. w;
}

abbrev pub Serves : Uploads → String → String → FunctionDef → Type 0
Serves w addr name def = In {A = String × String × FunctionDef} (addr, name, def) w

pub network-Deploys : Deploys network Serves
network-Deploys = record {
  uploaded = λ addr name def w e. inl refl;
  kept = λ addr name def w other d ne i. inr i;
}

-- A network in which no node answers.
abbrev pub silence : Outside Uploads
silence = record network { get_health = λ addr w. (none, w) }

abbrev pub echo : FunctionDef
echo = record { env = "python3"; threads = pos 1; envs = []; zip = 80 ∷ 75 ∷ [] }

abbrev pub one_function : FunctionStore
one_function = record { funcs = ("echo", echo) ∷ [] }

abbrev pub cluster : Registry
cluster = record (new_registry one_function) {
  nodes = ("local", leader) ∷ ("edge-1", edge_1) ∷ ("edge-2", idle_2) ∷ [];
}
