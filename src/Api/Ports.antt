-- ===== src/Api/Ports.antt =====
-- tinyFaaS-ext/cmd/manager/main.go: the ports of the front ends from the environment, and the
-- arguments with which the reverse proxy process is started.
pub mod Handover
use Prim.Native.String
use Prim.Native.Char.{Char, char}
use mathlib.Core.List.{append-nil, append_assoc}
use yuliya_bachelorarbeit.Base.{
  ℕ, zero, suc, ◌==◌, ◌<◌, ◌≤◌, ◌+◌, leb, ltb, ℤ, pos, negsuc, eqb_ℤ, pred_ℤ, leb_ℤ, ltb_ℤ, Bool,
  true, false, not, ◌&&◌, ◌||◌, String, str_eq, Option, none, some, List, [], ◌∷◌, length, ◌≤ℤ◌,
  All, ◌++◌, map, get_elem?, if◌then◌else◌, Result, ok, err, ok-injective, Result-cases, ◌≡◌, refl,
  sym, subst, ◌⊎◌, inl, inr, arith, Bool-cases, Option-cases, eq_iff, ap, ◌∙◌,
}
use yuliya_bachelorarbeit.Base.Dict.{Dict, lookup, insert}
use yuliya_bachelorarbeit.Base.Io.{
  Io, pure, fail, attempt, obtain, ignore, step, ◌>>=◌, ◌>>◌, attempt->>-ok, obtain->>=-ok, >>=-ok,
}
use yuliya_bachelorarbeit.Base.Decimal.{
  cut, to_lower, to_lower-id, show_int, has_upper, show_int-has_upper, has_upper-append, holds,
}
use yuliya_bachelorarbeit.Base.Entries.{Plain, Plain-lookup, Plain-head, insert-new, cut-entry}
use yuliya_bachelorarbeit.Config.Env.{Environment, getenv, atoi}
use yuliya_bachelorarbeit.Admin.Arguments.{
  no_protocol, ArgsError, too_few, read_listeners, parse_args,
}

-- The fatal messages.
pub data PortError : Type 0 where
  not_integer too_large : String → PortError

unfoldable pub default_ports : Dict ℤ
default_ports = ("coap", pos 5683) ∷ ("http", pos 8000) ∷ ("grpc", pos 9000) ∷ []

-- The setting of one protocol; `none` is a protocol that is switched off.
unfoldable pub port_setting : Environment → String → ℤ → Result PortError (Option ℤ)
unfolding getenv atoi
port_setting env p default =
    let portstr = getenv (String.◌++◌ p "_PORT") env in
    if str_eq portstr "" then ok (some default) else elim (atoi portstr) [
      | none ↦ err (not_integer p)
      | some port ↦
          if ltb_ℤ port (pos 0)
          then ok none
          else if ltb_ℤ (pos 65535) port
          then err (too_large p)
          else ok (some port)
    ]

-- A setting and those behind it.
abbrev pub with_setting : String → Option ℤ → Dict ℤ → Dict ℤ
with_setting p none rest = rest
with_setting p (some port) rest = (p, port) ∷ rest

unfoldable pub configure_ports : Environment → Dict ℤ → Result PortError (Dict ℤ)
unfolding port_setting
configure_ports env [] = ok []
configure_ports env ((p, default) ∷ ports) = elim (port_setting env p default) [
  | err e ↦ err e
  | ok setting ↦ elim (configure_ports env ports) [
    | err e ↦ err e
    | ok rest ↦ ok (with_setting p setting rest)
  ]
]

-- `%s:%s:%d` with the empty `RProxyListenAddress`.
unfoldable pub listen_addr : ℤ → String
unfolding show_int
listen_addr port = String.◌++◌ ":" (show_int port)

unfoldable pub rproxy_args : Dict ℤ → List String
unfolding listen_addr
rproxy_args ports =
    ":8081" ∷ map (λ (prot, port). String.◌++◌ prot (String.◌++◌ ":" (listen_addr port))) ports

-- Where the front ends listen for ports.
unfoldable pub listeners : Dict ℤ → Dict String
unfolding listen_addr
listeners [] = []
listeners ((prot, port) ∷ ports) = (prot, listen_addr port) ∷ listeners ports

abbrev pub IsPort : ℤ → Type 0
IsPort port = (pos 0 ≤ℤ port) × (port ≤ℤ pos 65535)

port_setting-IsPort :
    (env : Environment) (p : String) (default port : ℤ)
    → IsPort default
    → port_setting env p default ≡ ok (some port)
    → IsPort port
unfolding port_setting
port_setting-IsPort env p default port inside done = ground (arith, inside, done)

pub configure_ports-cons :
    (env : Environment) (p : String) (default : ℤ) (ports result : Dict ℤ)
    → configure_ports env ((p, default) ∷ ports) ≡ ok result
    → (setting : Option ℤ) × (rest : Dict ℤ) × (port_setting env p default ≡ ok setting)
      × (configure_ports env ports ≡ ok rest)
      × (with_setting p setting rest ≡ result)
unfolding configure_ports
configure_ports-cons env p default ports result done =
    elim (Result-cases (port_setting env p default)) [
      | inr (e, bad) ↦ absurd (ground (arith, bad, done))
      | inl (setting, set) ↦ elim (Result-cases (configure_ports env ports)) [
        | inr (e, bad) ↦ absurd (ground (arith, set, bad, done))
        | inl (rest, good) ↦ (
          setting,
          rest,
          set,
          good,
          ok-injective {E = PortError} (with_setting p setting rest) result
              (ground (arith, set, good, done)),
        )
      ]
    ]

-- Every port that the process goes on with is one, if the defaults are.
pub configure_ports-IsPort :
    (env : Environment) (ports result : Dict ℤ)
    → All (λ (p, port). IsPort port) ports
    → configure_ports env ports ≡ ok result
    → All (λ (p, port). IsPort port) result
unfolding configure_ports
configure_ports-IsPort env [] result inside done =
    subst (All (λ (p, port). IsPort port)) (ok-injective _ _ done) tt
configure_ports-IsPort env ((p, default) ∷ ports) result inside done =
    let (setting, rest, set, good, e) = configure_ports-cons env p default ports result done in
    let others = configure_ports-IsPort env ports rest inside.1 good in
    subst (All (λ (p, port). IsPort port)) e (elim (Option-cases setting) [
      | inl off ↦ rw off others
      | inr (port, on) ↦
          rw on (port_setting-IsPort env p default port inside.0 (set ∙ ap ok on), others)
    ])
