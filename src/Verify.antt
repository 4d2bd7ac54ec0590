-- ===== src/Verify.antt =====
-- tinyFaaS-ext/cmd/verify-wiring/main.go: the check that relays, addresses and energy bricklets belong
-- to the machines that the configuration says. The relays are those of `Bricklets`; the energy
-- bricklets, the health check and the clock are parameters, and so is the arithmetic of the watts.
pub mod Report
use yuliya_bachelorarbeit.Base.{
  ℕ, zero, suc, ◌==◌, ◌<◌, ◌≤◌, ◌+◌, leb, ltb, ℤ, pos, negsuc, eqb_ℤ, pred_ℤ, leb_ℤ, ltb_ℤ, Bool,
  true, false, not, ◌&&◌, ◌||◌, String, str_eq, Option, none, some, List, [], ◌∷◌, length, set,
  count_if, max_int, suc_int, ◌≤ℤ◌, All, In, ◌++◌, map, get_elem?, if◌then◌else◌, Result, ok, err,
  ok-injective, Result-cases, ◌≡◌, refl, sym, subst, ◌⊎◌, inl, inr, arith, Bool-cases, Option-cases,
  eq_iff, ap, ◌∙◌,
}
use yuliya_bachelorarbeit.Base.Dict.{Dict, lookup}
use yuliya_bachelorarbeit.Base.Io.{
  Io, pure, fail, attempt, obtain, ignore, step, ◌>>=◌, ◌>>◌, attempt->>-ok, obtain->>=-ok, >>=-ok,
}
use yuliya_bachelorarbeit.Base.Io.{Io}
use yuliya_bachelorarbeit.Node.{Node}
use yuliya_bachelorarbeit.Relay.{Bricklets, RelayError, invalid_channel}

-- `float64`: watts from milliwatts, and what `roseAbove` does with them.
pub record Watts (D : Type 0) : Type 0 where
  pub of_milliwatts : ℤ → D
  pub nothing : D
  pub on_threshold : D
  pub minus : D → D → D
  pub greater : D → D → Bool
  pub at_least : D → D → Bool

-- `get_power` is the bricklet that is mapped to a node.
pub record Bench (W : Type 0) : Type 0 where
  pub get_power : String → W → Option ℤ × W
  pub get_health : String → W → Option ℕ × W
  pub now : W → ℕ
  pub sleep : ℕ → W → W

-- `result`; the note is the error of the first switch.
pub record Verified : Type 0 where
  pub node : String
  pub powered_ok : Bool
  pub saw_bricklet : String
  pub bricklet_ok : Bool
  pub address_ok : Bool
  pub note : Option RelayError

abbrev pub settle_after_off : ℕ
settle_after_off = 8000000000

abbrev pub boot_timeout : ℕ
boot_timeout = 90000000000

abbrev pub poll_interval : ℕ
poll_interval = 2000000000

abbrev pub settled : List String → Verified → Bool
settled vcs res = res.address_ok && (length vcs == 0 || not (str_eq res.saw_bricklet ""))

-- One round more than there is time for.
abbrev pub watch_fuel : ℕ
watch_fuel = 46

module _ {D : Type 0} (f : Watts D) where
  -- `before[node]`, which is zero where a bricklet was not read.
  unfoldable pub reading : String → Dict D → D
  unfolding lookup
  reading node readings = elim (lookup node readings) [ none ↦ f.nothing | some a ↦ a ]

  -- The loop of `roseAbove`, with the best so far.
  unfoldable pub best_rise : Dict D → Dict D → String → D → String × D
  unfolding reading
  best_rise before [] best best_delta = (best, best_delta)
  best_rise before ((node, a) ∷ after) best best_delta =
      let delta = f.minus a (reading node before) in
      let better = best_rise before after node delta in
      let rest = best_rise before after best best_delta in
      if f.greater delta best_delta then better else rest

  -- `roseAbove`
  unfoldable pub rose_above : Dict D → Dict D → D → String
  unfolding best_rise
  rose_above before after threshold =
      let (best, best_delta) = best_rise before after "" f.nothing in
      if f.at_least best_delta threshold then best else ""

module _ {W : Type 0} (b : Bricklets W) where
  -- The switch on the channel.
  unfoldable pub with_channel : String → ℤ → Bool → Bool × Bool → Io W RelayError (Unit {0})
  with_channel uid channel on (c0, c1) =
      if eqb_ℤ channel (pos 0)
      then b.set_value uid (on, c1)
      else if eqb_ℤ channel (pos 1)
      then b.set_value uid (c0, on)
      else fail (invalid_channel channel uid)

  -- `setRelay`
  unfoldable pub set_relay : String → ℤ → Bool → Io W RelayError (Unit {0})
  unfolding with_channel
  set_relay uid channel on = b.open_relay uid >> (b.get_value uid >>= with_channel uid channel on)

module _ {W D : Type 0} (b : Bricklets W) (e : Bench W) (f : Watts D) where
  -- `readAll`, for the nodes that have a bricklet. One that cannot be read is left out.
  unfoldable pub read_all : List String → W → Dict D × W
  read_all [] w = ([], w)
  read_all (node ∷ nodes) w =
      let (power, w') = e.get_power node w in
      let (rest, w'') = read_all nodes w' in
      ((elim power [ none ↦ rest | some mw ↦ (node, f.of_milliwatts mw) ∷ rest ]), w'')

  -- `healthy`
  unfoldable pub healthy_manager : String → W → Bool × W
  healthy_manager addr w =
      let (code, w') = e.get_health addr w in
      (elim code [ none ↦ false | some status ↦ status == 200 ], w')

  -- The two checks of a round, each of which is left out once it has come true.
  unfoldable pub check_address : Node → Verified × W → Verified × W
  unfolding healthy_manager
  check_address n (res, w) =
      if res.address_ok
      then (res, w)
      else (let (up, w') = healthy_manager n.manager_address w in
          ((if up then record res { address_ok = true } else res), w'))

  unfoldable pub check_bricklet : List String → Dict D → Node → Verified × W → Verified × W
  unfolding read_all rose_above
  check_bricklet vcs before n (res, w) =
      if not (str_eq res.saw_bricklet "") || length vcs == 0
      then (res, w)
      else (let (after, w') = read_all vcs w in
          let node = rose_above f before after f.on_threshold in
          (
            (if str_eq node ""
                then res
                else record res { saw_bricklet = node; bricklet_ok = str_eq node n.id }),
            w',
          ))

  -- The loop up to the deadline, on fuel; `none` means that the fuel ran out.
  unfoldable pub watch : ℕ → List String → Dict D → Node → ℕ → Verified × W → Option (Verified × W)
  unfolding check_address check_bricklet
  watch zero vcs before n deadline (res, w) = none
  watch (suc fuel) vcs before n deadline (res, w) =
      let (res', w') =
        check_bricklet vcs before n (check_address n (res, e.sleep poll_interval w)) in
      let again = watch fuel vcs before n deadline (res', w') in
      if not (ltb (e.now w) deadline)
      then some (res, w)
      else if settled vcs res'
      then some (res', w')
      else again

  -- `verifyWorker`
  unfoldable pub verify_worker : List String → Node → W → Option Verified × W
  unfolding set_relay watch
  verify_worker vcs n w =
      let (before, w1) = read_all vcs w in
      let (result, w2) = set_relay b n.relay_uid n.channel true w1 in
      let res : Verified = record {
        node = n.id;
        powered_ok = false;
        saw_bricklet = "";
        bricklet_ok = false;
        address_ok = false;
        note = none;
      } in
      elim result [
        | err problem ↦ (some (record res { note = some problem }), w2)
        | ok _ ↦
            elim (watch watch_fuel vcs before n (e.now w2 + boot_timeout)
              (record res { powered_ok = true }, w2)) [
                | none ↦ (none, w2)
                | some (seen, w3) ↦ (
                  some seen,
                  e.sleep settle_after_off (set_relay b n.relay_uid n.channel false w3).1,
                )
              ]
      ]
