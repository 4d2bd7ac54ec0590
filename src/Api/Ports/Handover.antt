-- ===== src/Api/Ports/Handover.antt =====
-- The reverse proxy process, tinyFaaS-ext/cmd/rproxy/main.go, is started with the arguments that
-- tinyFaaS-ext/cmd/manager/main.go makes of its ports.
use Prim.Native.String
use Prim.Native.Char.{char}
use mathlib.Core.List.{append-nil, append_assoc}
use yuliya_bachelorarbeit.Base.{
  leb, ℤ, true, false, String, none, some, [], ◌∷◌, length, ◌++◌, map, if◌then◌else◌, Result, ok,
  err, ok-injective, ◌≡◌, refl, sym, subst, inl, inr, arith, Option-cases, ap, ◌∙◌,
}
use yuliya_bachelorarbeit.Base.Dict.{Dict, lookup, insert}
use yuliya_bachelorarbeit.Base.Decimal.{
  to_lower, to_lower-id, show_int, has_upper, show_int-has_upper, has_upper-append, holds,
}
use yuliya_bachelorarbeit.Base.Entries.{Plain, Plain-lookup, insert-new, cut-entry}
use yuliya_bachelorarbeit.Config.Env.{Environment}
use yuliya_bachelorarbeit.Admin.Arguments.{
  no_protocol, ArgsError, too_few, read_listeners, parse_args,
}
use yuliya_bachelorarbeit.Api.Ports.{
  default_ports, configure_ports, configure_ports-cons, rproxy_args, listen_addr, listeners,
}

-- No protocol stands twice, and none has a `:` or an upper-case letter.
unfoldable pub Proper : Dict ℤ → Type 0
unfolding lookup holds has_upper
Proper [] = Unit
Proper (entry ∷ rest) =
    (lookup entry.0 rest ≡ none)
    × (holds b':' entry.0 ≡ false)
    × (has_upper entry.0 ≡ false)
    × Proper rest

configure_ports-lookup :
    (env : Environment) (k : String) (ports result : Dict ℤ)
    → configure_ports env ports ≡ ok result
    → lookup k ports ≡ none
    → lookup k result ≡ none
unfolding configure_ports lookup
configure_ports-lookup env k [] result done gone =
    subst (λ r. lookup k r ≡ none) (ok-injective _ _ done) refl
configure_ports-lookup env k ((p, default) ∷ ports) result done gone =
    let (setting, rest, set, good, e) = configure_ports-cons env p default ports result done in
    let others = configure_ports-lookup env k ports rest good (ground (arith, gone)) in
    subst (λ r. lookup k r ≡ none) e (ground (arith, others, gone))

configure_ports-Proper :
    (env : Environment) (ports result : Dict ℤ)
    → configure_ports env ports ≡ ok result
    → Proper ports
    → Proper result
unfolding configure_ports Proper
configure_ports-Proper env [] result done proper = subst Proper (ok-injective _ _ done) tt
configure_ports-Proper env ((p, default) ∷ ports) result done (new, free, lower, proper) =
    let (setting, rest, set, good, e) = configure_ports-cons env p default ports result done in
    let others = configure_ports-Proper env ports rest good proper in
    subst Proper e (elim (Option-cases setting) [
      | inl off ↦ rw off others
      | inr (port, on) ↦
          rw on (configure_ports-lookup env p ports rest good new, free, lower, others)
    ])

listeners-lookup :
    (k : String) (ports : Dict ℤ) → lookup k ports ≡ none → lookup k (listeners ports) ≡ none
unfolding listeners lookup
listeners-lookup k [] gone = refl
listeners-lookup k (entry ∷ ports) gone =
    let rest = listeners-lookup k ports (ground (arith, gone)) in ground (arith, gone, rest)

listeners-Plain : (ports : Dict ℤ) → Proper ports → Plain b':' (listeners ports)
unfolding listeners Plain Proper
listeners-Plain [] proper = tt
listeners-Plain (entry ∷ ports) (new, free, lower, proper) =
    (listeners-lookup entry.0 ports new, free, listeners-Plain ports proper)

listen_addr-lower : (port : ℤ) → to_lower (listen_addr port) ≡ listen_addr port
unfolding listen_addr has_upper
listen_addr-lower port =
    to_lower-id (listen_addr port) (has_upper-append ":" (show_int port) ∙ show_int-has_upper port)

-- The arguments are read as the map that they were made of.
read_listeners-args :
    (seen : Dict String) (ports : Dict ℤ)
    → Plain b':' (seen ++ listeners ports)
    → Proper ports
    → read_listeners
        (map (λ (prot, port). String.◌++◌ prot (String.◌++◌ ":" (listen_addr port))) ports)
        seen
      ≡ ok (seen ++ listeners ports)
unfolding read_listeners listeners Proper
read_listeners-args seen [] plain proper = ap ok (sym (append-nil seen))
read_listeners-args seen ((p, port) ∷ ports) plain (new, free, lower, proper) =
    let addr = listen_addr port in
    let unseen = Plain-lookup b':' p addr seen (listeners ports) plain in
    let read = cut-entry (char b':' tt) ":" p addr free refl in
    let moved = append_assoc seen ((p, addr) ∷ []) (listeners ports) in
    let rest =
      read_listeners-args (seen ++ (p, addr) ∷ []) ports (subst (Plain b':') (sym moved) plain)
        proper in
    let args = map (λ (prot, port). String.◌++◌ prot (String.◌++◌ ":" (listen_addr port))) ports in
    subst
      (λ r.
        ◌≡◌ {A = Result ArgsError (Dict String)}
          (elim r [
            | none ↦ err no_protocol
            | some x ↦ read_listeners args (insert (to_lower x.0) (to_lower x.1) seen)
          ])
          (ok (seen ++ (p, addr) ∷ listeners ports)))
      (sym read)
      (rw (to_lower-id p lower, listen_addr-lower port, insert-new p addr seen unseen)
        (rest ∙ ap ok moved))

started :
    (ports : Dict ℤ)
    → read_listeners
        (map (λ (prot, port). String.◌++◌ prot (String.◌++◌ ":" (listen_addr port))) ports)
        []
      ≡ ok (listeners ports)
    → parse_args (rproxy_args ports)
      ≡ (if leb 2 (length ports) then ok (":8081", listeners ports) else err too_few)
unfolding parse_args rproxy_args
started [] read = refl
started (x ∷ []) read = refl
started (x ∷ y ∷ ports) read =
    let long : leb
          (length (
            map
              (λ (entry : String × ℤ). String.◌++◌ entry.0 (String.◌++◌ ":" (listen_addr entry.1)))
              (x ∷ y ∷ ports)))
          1
        ≡ false =
      ground arith in
    let enough : leb 2 (length (x ∷ y ∷ ports)) ≡ true = ground arith in
    rw (long, read, enough) refl

-- The reverse proxy listens where the management process says, by `coap_PORT`, `http_PORT` and
-- `grpc_PORT`, which are not the names of the documents, if at least two of the protocols are
-- left on; with fewer it takes its own arguments for a wrong call, and ends.
pub parse_args-rproxy_args :
    (env : Environment) (ports : Dict ℤ)
    → configure_ports env default_ports ≡ ok ports
    → parse_args (rproxy_args ports)
      ≡ (if leb 2 (length ports) then ok (":8081", listeners ports) else err too_few)
unfolding parse_args rproxy_args default_ports Proper
parse_args-rproxy_args env ports done =
    let proper =
      configure_ports-Proper env default_ports ports done
        (refl, refl, refl, (refl, refl, refl, (refl, refl, refl, tt))) in
    let read = read_listeners-args [] ports (listeners-Plain ports proper) proper in
    started ports read
