-- ===== src/Checks/Relays.antt =====
-- The relay controller on bricklets whose reads lag behind their writes.
use yuliya_bachelorarbeit.Base.{pos, [], ◌∷◌, refl, true, false, arith}
use yuliya_bachelorarbeit.Base.Dict.{lookup}
use yuliya_bachelorarbeit.Relay.{Controller, set_channel}
use yuliya_bachelorarbeit.Relay.Outlets.{Agrees, Switched, set_channel-Switched}
use yuliya_bachelorarbeit.Checks.Samples.{
  lagging, lagging-Physics, they_stand, read_is_good, both_off,
}

abbrev fresh : Controller
fresh = record { default_uid = "A"; state = [] }

abbrev used : Controller
used = record { default_uid = "A"; state = ("A", (true, false)) ∷ [] }

fresh-Agrees : Agrees they_stand read_is_good fresh both_off
unfolding lookup
fresh-Agrees = record { known = λ v c e. ground arith; new = λ v e. refl }

set_channel-Switched_example :
    Switched they_stand read_is_good "A"
      (pos 1)
      true
      both_off
      (set_channel lagging "" (pos 1) true (fresh, both_off)).1.0
      (set_channel lagging "" (pos 1) true (fresh, both_off)).1.1
unfolding set_channel lookup
set_channel-Switched_example =
    set_channel-Switched lagging they_stand read_is_good lagging-Physics "" (pos 1) true fresh
      both_off fresh-Agrees refl
