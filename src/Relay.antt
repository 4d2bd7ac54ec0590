-- ===== src/Relay.antt =====
-- tinyFaaS-ext/tinkerforgefunc/main.go: the controller of the relays that power the nodes. The
-- bricklet bindings are third-party code and enter as the record `Bricklets`.
pub mod Laws
pub mod Outlets
pub mod Alias
pub mod Off
use yuliya_bachelorarbeit.Base.{
  ℤ, pos, ltb_ℤ, leb_ℤ, eqb_ℤ, Bool, true, false, ◌||◌, String, str_eq, Option, none, some,
  if◌then◌else◌, Result, ok, err, [],
}
use yuliya_bachelorarbeit.Base.Io.{Io, pure, fail, ◌>>=◌, ◌>>◌}
use yuliya_bachelorarbeit.Base.Dict.{Dict, lookup, insert}

-- What `setChannel` reports: its own check, or the call of the bindings that failed.
pub data RelayError : Type 0 where
  invalid_channel : ℤ → String → RelayError
  connect_failed open_failed read_failed set_failed : RelayError

-- `[ChannelsPerRelay]bool`
abbrev pub Channels : Type 0
Channels = Bool × Bool

abbrev pub channels_per_relay : ℤ
channels_per_relay = pos 2

-- The bindings' calls over the world `W` of bricklets and connections.
pub record Bricklets (W : Type 0) : Type 0 where
  pub connect : Io W RelayError (Unit {0})
  pub open_relay : String → Io W RelayError (Unit {0})
  pub get_value : String → Io W RelayError Channels
  pub set_value : String → Channels → Io W RelayError (Unit {0})
  pub close : W → W

-- `TinkerforgeController` without the address of its daemon. `state` holds the desired positions.
pub record Controller : Type 0 where
  pub default_uid : String
  pub state : Dict Channels

abbrev pub new_controller : String → Controller
new_controller uid = record { default_uid = uid; state = [] }

unfoldable pub relay_or_default : String → String → String
relay_or_default uid fallback = if str_eq uid "" then fallback else uid

-- `next[channel] = on`, for a channel that the check has let through.
abbrev pub set_at : ℤ → Bool → Channels → Channels
set_at channel on (c0, c1) = if eqb_ℤ channel (pos 0) then (on, c1) else (c0, on)

abbrev pub get_at : ℤ → Channels → Bool
get_at channel (c0, c1) = if eqb_ℤ channel (pos 0) then c0 else c1

-- `channel < 0 || channel >= ChannelsPerRelay`
abbrev pub out_of_range : ℤ → Bool
out_of_range channel = ltb_ℤ channel (pos 0) || leb_ℤ channels_per_relay channel

module _ {W : Type 0} (b : Bricklets W) where
  -- `withRelay`: connect, open, run, and close whatever came of it.
  unfoldable pub with_relay : {A : Type 0} → String → Io W RelayError A → Io W RelayError A
  with_relay uid fn w = let (r, w') = (b.connect >> (b.open_relay uid >> fn)) w in (r, b.close w')

  unfoldable pub read_state : String → Io W RelayError Channels
  unfolding with_relay
  read_state uid = with_relay uid (b.get_value uid)

  unfoldable pub write_state : String → Channels → Io W RelayError (Unit {0})
  unfolding with_relay
  write_state uid s = with_relay uid (b.set_value uid s)

  -- The write and the update of the desired state that end `setChannel`.
  write_next : String → ℤ → Bool → Channels → Io (Controller × W) RelayError (Unit {0})
  unfolding write_state
  write_next uid channel on desired (t, w) =
      let next = set_at channel on desired in
      let (r, w') = write_state uid next w in
      elim r [
        | err e ↦ (err e, (t, w'))
        | ok _ ↦ (ok tt, (record t { state = insert uid next t.state }, w'))
      ]

  -- The first use of a relay: its position is read and becomes the desired state.
  adopt : String → ℤ → Bool → Io (Controller × W) RelayError (Unit {0})
  unfolding read_state write_next
  adopt uid channel on (t, w) =
      let (r, w') = read_state uid w in
      elim r [
        | err e ↦ (err e, (t, w'))
        | ok initial ↦
            write_next uid channel on initial (record t { state = insert uid initial t.state }, w')
      ]

  unfoldable pub set_channel : String → ℤ → Bool → Io (Controller × W) RelayError (Unit {0})
  unfolding relay_or_default write_next adopt
  set_channel relay_uid channel on (t, w) =
      let uid = relay_or_default relay_uid t.default_uid in
      if out_of_range channel
      then (err (invalid_channel channel uid), (t, w))
      else (elim (lookup uid t.state) [
        | some desired ↦ write_next uid channel on desired (t, w)
        | none ↦ adopt uid channel on (t, w)
      ])

  unfoldable pub power_on : String → ℤ → Io (Controller × W) RelayError (Unit {0})
  unfolding set_channel
  power_on relay_uid channel = set_channel relay_uid channel true

  unfoldable pub power_off : String → ℤ → Io (Controller × W) RelayError (Unit {0})
  unfolding set_channel
  power_off relay_uid channel = set_channel relay_uid channel false
