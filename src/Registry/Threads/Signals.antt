-- ===== src/Registry/Threads/Signals.antt =====
-- A signal is written once, by the goroutine that owns its activation.
use yuliya_bachelorarbeit.Base.{
  ℕ, String, Option, none, some, [], ◌∷◌, ◌++◌, ◌≡◌, ◌≢◌, refl, arith, get_elem?, set, length, inl,
  inr, ◌⊎◌, ap, get_elem?-length, sym, ◌∙◌, get_elem?-append_left, get_elem?-set_ne,
  get_elem?-append_end, append_cases, set_cases,
}
use yuliya_bachelorarbeit.Node.{Node}
use yuliya_bachelorarbeit.Registry.{Registry, WakeResult, update_node}
use yuliya_bachelorarbeit.Registry.Nodes.{update_node-SameRest, set_status-SameRest}
use yuliya_bachelorarbeit.Registry.Wake.{start_activation, lead, unregister, close_signal}
use yuliya_bachelorarbeit.Registry.Threads.{
  Thread, calling, leading, settled, closing, Move, System, Step, Steps, status_after,
}

-- The activation that a goroutine has still to close.
abbrev pub owned : Thread → Option ℕ
owned (leading id act) = some act
owned (settled id act res) = some act
owned (closing id act res) = some act
owned _ = none

-- Every owned activation is open, and has one owner.
pub record Owned (s : System) : Type 0 where
  pub is_open :
      (i act : ℕ) (t : Thread)
      → get_elem? s.threads i ≡ some t
      → owned t ≡ some act
      → get_elem? s.registry.signals act ≡ some none
  pub one_owner :
      (i j act : ℕ) (t u : Thread)
      → get_elem? s.threads i ≡ some t
      → get_elem? s.threads j ≡ some u
      → owned t ≡ some act
      → owned u ≡ some act
      → i ≡ j

-- What a section does to the signals: nothing, or one more open signal, which it then owns, or its
-- own signal closed, which it then gives up.
pub data Signalled (r : Registry) (t : Thread) (r' : Registry) (t' : Thread) : Type 0 where
  same : r'.signals ≡ r.signals → (owned t' ≡ owned t) ⊎ (owned t' ≡ none) → Signalled r t r' t'
  opened :
      r'.signals ≡ r.signals ++ none ∷ [] → owned t' ≡ some (length r.signals) → Signalled r t r' t'
  closed :
      (act : ℕ) (res : WakeResult)
      → owned t ≡ some act
      → r'.signals ≡ set r.signals act (some res)
      → owned t' ≡ none
      → Signalled r t r' t'

lead-signals :
    (id : String) (r : Registry) (act : ℕ) (n : Node) (r' : Registry)
    → start_activation id r ≡ lead act n r'
    → (act ≡ length r.signals) × (r'.signals ≡ r.signals ++ none ∷ [])
unfolding start_activation
lead-signals id r act n r' e = ground arith

Move-Signalled : {r r' : Registry} {t t' : Thread} → Move r t r' t' → Signalled r t r' t'
unfolding unregister close_signal
Move-Signalled {r} (Move.leads id act n r' e) =
    let (own, more) = lead-signals id r act n r' e in opened more (ap some own)
Move-Signalled {r} (Move.wakes id act res now w) =
    same (set_status-SameRest id (status_after res) now r).signals (inl refl)
Move-Signalled (Move.closes id act res) = closed act res refl refl refl
Move-Signalled (Move.unregisters id act res) = same refl (inl refl)
Move-Signalled (Move.rejects id e) = same refl (inl refl)
Move-Signalled (Move.finds_active id e) = same refl (inl refl)
Move-Signalled (Move.follows id act e) = same refl (inl refl)
Move-Signalled (Move.hears id act res e) = same refl (inl refl)
Move-Signalled (Move.gives_up id act) = same refl (inl refl)
Move-Signalled (Move.panics id) = same refl (inl refl)

module _ (s : System) (o : Owned s) (i : ℕ) (t t' : Thread) (r' : Registry)
    (at : get_elem? s.threads i ≡ some t) where
  abbrev after_run : System
  after_run = record { registry = r'; threads = set s.threads i t' }

  -- An owned activation is not the next address.
  fresh-ne-owned :
      (j : ℕ) (u : Thread)
      → get_elem? s.threads j ≡ some u
      → owned u ≢ some (length s.registry.signals)
  fresh-ne-owned j u e own =
      cc (o.is_open j (length s.registry.signals) u e own, get_elem?-length s.registry.signals)

  open-run :
      Signalled s.registry t r' t'
      → (j act : ℕ) (u : Thread)
      → ((i ≡ j) × (u ≡ t')) ⊎ ((i ≢ j) × (get_elem? s.threads j ≡ some u))
      → owned u ≡ some act
      → get_elem? r'.signals act ≡ some none
  open-run (same e (inl keep)) j act u (inl (_, new)) own =
      rw e (o.is_open i act t at (sym keep ∙ ap owned (sym new) ∙ own))
  open-run (same e (inr lost)) j act u (inl (_, new)) own = absurd (cc (lost, ap owned new, own))
  open-run (opened e mine) j act u (inl (_, new)) own =
      let last : act ≡ length s.registry.signals = cc (own, ap owned new, mine) in
      rw (e, last) (get_elem?-append_end s.registry.signals none)
  open-run (closed act' res own' e lost) j act u (inl (_, new)) own =
      absurd (cc (lost, ap owned new, own))
  open-run (same e _) j act u (inr (_, old)) own = rw e (o.is_open j act u old own)
  open-run (opened e _) j act u (inr (_, old)) own =
      rw e
        (get_elem?-append_left s.registry.signals (none ∷ []) act none (o.is_open j act u old own))
  open-run (closed act' res own' e _) j act u (inr (ne, old)) own = rw e (
      get_elem?-set_ne s.registry.signals act' act (some res)
        (λ x. ne (o.one_owner i j act t u at old (own' ∙ ap some x) own))
      ∙ o.is_open j act u old own)

  -- What a changed goroutine owns, it owned before, or nobody did.
  owner-run :
      Signalled s.registry t r' t'
      → (j act : ℕ) (u : Thread) → i ≢ j
      → get_elem? s.threads j ≡ some u
      → owned t' ≡ some act
      → owned u ≢ some act
  owner-run (same e (inl keep)) j act u ne old mine own =
      ne (o.one_owner i j act t u at old (sym keep ∙ mine) own)
  owner-run (same e (inr lost)) j act u ne old mine own = cc (lost, mine)
  owner-run (opened e new) j act u ne old mine own = fresh-ne-owned j u old (own ∙ sym mine ∙ new)
  owner-run (closed act' res own' e lost) j act u ne old mine own = cc (lost, mine)

  Owned-run : Signalled s.registry t r' t' → Owned after_run
  Owned-run g = record {
    is_open = λ j act u e own. open-run g j act u (set_cases s.threads i j t' u e) own;
    one_owner = λ j k act u v eu ev ou ov.
        one_owner-run g j k act u v (set_cases s.threads i j t' u eu)
          (set_cases s.threads i k t' v ev) ou ov;
  }
    where
      one_owner-run :
          Signalled s.registry t r' t'
          → (j k act : ℕ) (u v : Thread)
          → ((i ≡ j) × (u ≡ t')) ⊎ ((i ≢ j) × (get_elem? s.threads j ≡ some u))
          → ((i ≡ k) × (v ≡ t')) ⊎ ((i ≢ k) × (get_elem? s.threads k ≡ some v))
          → owned u ≡ some act
          → owned v ≡ some act
          → j ≡ k
      one_owner-run g j k act u v (inl (ij, _)) (inl (ik, _)) ou ov = sym ij ∙ ik
      one_owner-run g j k act u v (inl (_, new)) (inr (ne, old)) ou ov =
          absurd (owner-run g k act v ne old (ap owned (sym new) ∙ ou) ov)
      one_owner-run g j k act u v (inr (ne, old)) (inl (_, new)) ou ov =
          absurd (owner-run g j act u ne old (ap owned (sym new) ∙ ov) ou)
      one_owner-run g j k act u v (inr (_, ou')) (inr (_, ov')) ou ov =
          o.one_owner j k act u v ou' ov' ou ov

  -- A closed signal stays as it is.
  kept-run :
      Signalled s.registry t r' t'
      → (a : ℕ) (out : WakeResult) → get_elem? s.registry.signals a ≡ some (some out)
      → get_elem? r'.signals a ≡ some (some out)
  kept-run (same e _) a out h = rw e h
  kept-run (opened e _) a out h =
      rw e (get_elem?-append_left s.registry.signals (none ∷ []) a (some out) h)
  kept-run (closed act res own e _) a out h = rw e (
      get_elem?-set_ne s.registry.signals act a (some res)
        (λ x. cc (o.is_open i act t at own, ap (get_elem? s.registry.signals) x, h))
      ∙ h)

Owned-arrives :
    (s : System) (id : String)
    → Owned s
    → Owned (record s { threads = s.threads ++ calling id ∷ [] })
Owned-arrives s id o = record {
  is_open = λ j act u e own. elim (append_cases s.threads j (calling id) u e) [
    | inl new ↦ absurd (cc (ap owned new, own))
    | inr old ↦ o.is_open j act u old own
  ];
  one_owner = λ j k act u v eu ev ou ov. elim (append_cases s.threads j (calling id) u eu) [
    | inl new ↦ absurd (cc (ap owned new, ou))
    | inr old ↦ elim (append_cases s.threads k (calling id) v ev) [
      | inl new ↦ absurd (cc (ap owned new, ov))
      | inr old' ↦ o.one_owner j k act u v old old' ou ov
    ]
  ];
}

Owned-updates :
    (s : System) (id : String) (f : Node → Node)
    → Owned s
    → Owned (record s { registry = update_node id f s.registry })
Owned-updates s id f o = record {
  is_open =
      λ j act t e own. rw (update_node-SameRest id f s.registry).signals (o.is_open j act t e own);
  one_owner = o.one_owner;
}

-- Every step keeps the owners apart and their signals open.
pub Step-Owned : {s s' : System} → Owned s → Step s s' → Owned s'
Step-Owned {s} o (Step.runs i t t' r' at m) = Owned-run s o i t t' r' at (Move-Signalled m)
Step-Owned {s} o (Step.arrives id) = Owned-arrives s id o
Step-Owned {s} o (Step.updates id f) = Owned-updates s id f o

pub Steps-Owned : {s s' : System} → Owned s → Steps s s' → Owned s'
Steps-Owned o Steps.here = o
Steps-Owned o (Steps.next r st) = Step-Owned (Steps-Owned o r) st

signal-Step :
    {s s' : System} (a : ℕ) (out : WakeResult)
    → Owned s
    → Step s s'
    → get_elem? s.registry.signals a ≡ some (some out)
    → get_elem? s'.registry.signals a ≡ some (some out)
signal-Step {s} a out o (Step.runs i t t' r' at m) h =
    kept-run s o i t t' r' at (Move-Signalled m) a out h
signal-Step a out o (Step.arrives id) h = h
signal-Step {s} a out o (Step.updates id f) h = rw (update_node-SameRest id f s.registry).signals h

-- However calls, wakes and other methods interleave, a result that has been signalled stays.
pub signal-Steps :
    {s s' : System} (a : ℕ) (out : WakeResult)
    → Owned s
    → Steps s s'
    → get_elem? s.registry.signals a ≡ some (some out)
    → get_elem? s'.registry.signals a ≡ some (some out)
signal-Steps a out o Steps.here h = h
signal-Steps a out o (Steps.next r st) h =
    signal-Step a out (Steps-Owned o r) st (signal-Steps a out o r h)
