-- ===== src/Scheduler/Best.antt =====
-- `pick_node` against the plain order of Scheduler/Order.antt.
use yuliya_bachelorarbeit.Base.{
  ◌&&◌, ℕ, ℤ, true, false, Option, none, some, List, [], ◌∷◌, arith, ◌≡◌, refl, ap, ◌∙◌, In, inl,
  inr, Bool-cases, ◌⊎◌, sym, subst, ◌≢◌, ◌↔◌, All,
}
use yuliya_bachelorarbeit.Node.{Node}
use yuliya_bachelorarbeit.Scheduler.{Candidates, no_candidates, consider, scan, choose, pick_node}
use yuliya_bachelorarbeit.Scheduler.Order.{class, better, best_so_far, best_from, eligible}

-- A slot holds a node of the slot's class only.
abbrev OfClass : ℤ → ℕ → Option Node → Type 0
OfClass t k none = Unit
OfClass t k (some n) = class t n ≡ k

record Sorted (t : ℤ) (c : Candidates) : Type 0 where
  room : OfClass t 0 c.best_active
  asleep : OfClass t 1 c.best_sleeping
  full : OfClass t 2 c.best_idle_active
  rest : OfClass t 3 c.fallback

consider-Sorted : (t : ℤ) (c : Candidates) (n : Node) → Sorted t c → Sorted t (consider t c n)
unfolding consider
consider-Sorted t c n s = ground arith

choose-consider :
    (t : ℤ) (c : Candidates) (n : Node)
    → Sorted t c
    → choose (consider t c n) ≡ best_so_far t (choose c) n
unfolding choose consider best_so_far
choose-consider t c n s = ground arith

choose-scan :
    (t : ℤ) (c : Candidates) (ns : List Node)
    → Sorted t c
    → choose (scan t c ns) ≡ best_from t (choose c) ns
unfolding scan best_from
choose-scan t c [] s = refl
choose-scan t c (n ∷ ns) s =
    choose-scan t (consider t c n) ns (consider-Sorted t c n s)
    ∙ ap (λ b. best_from t b ns) (choose-consider t c n s)

-- `PickNode`, with its four slots and its priority order, is the search for the first node that no
-- other beats: a lower class wins, and among active nodes of one class the lower load. A node whose
-- load is the threshold is full.
pub pick_node-eq-best_from :
    (nodes : List Node) (t : ℤ) → pick_node nodes t ≡ best_from t none nodes
unfolding pick_node
pick_node-eq-best_from nodes t =
    choose-scan t no_candidates nodes (record { room = tt; asleep = tt; full = tt; rest = tt })

-- Not being beaten passes on.
better_trans :
    (t : ℤ) (a b c : Node) → better t b a ≡ false → better t c b ≡ false → better t c a ≡ false
better_trans t a b c h k = ground arith

better_asym : (t : ℤ) (a b : Node) → better t a b ≡ true → better t b a ≡ false
better_asym t a b h = ground arith

better_irrefl : (t : ℤ) (a : Node) → better t a a ≡ false
better_irrefl t a = ground arith

abbrev Within : ℤ → Option Node → Node → Type 0
Within t none r = Unit
Within t (some x) r = better t x r ≡ false

abbrev pub Unbeaten : ℤ → Node → List Node → Type 0
Unbeaten t r ns = (m : Node) → In m ns → eligible m ≡ true → better t m r ≡ false

abbrev Origin : Option Node → List Node → Node → Type 0
Origin b ns r = (In r ns × (eligible r ≡ true)) ⊎ (b ≡ some r)

Origin-step :
    (t : ℤ) (b : Option Node) (n r : Node) (ns : List Node)
    → Origin (best_so_far t b n) ns r
    → Origin b (n ∷ ns) r
unfolding best_so_far
Origin-step t b n r ns (inl (i, e)) = inl (inr i, e)
Origin-step t none n r ns (inr e) = ground arith
Origin-step t (some x) n r ns (inr e) = ground arith

-- What the new best does not lose to, the old one and the new node do not either.
Within-step :
    (t : ℤ) (b : Option Node) (n r : Node)
    → Within t (best_so_far t b n) r
    → Within t b r × (eligible n ≡ true → better t n r ≡ false)
unfolding best_so_far
Within-step t none n r w = ground arith
Within-step t (some x) n r w = elim (Bool-cases (better t n x)) [
  | inl e ↦ ground (arith, better_asym t n x e, better_trans t r n x, better_trans t r x n)
  | inr e ↦ ground (arith, better_trans t r x n)
]

best_from_lem :
    (t : ℤ) (b : Option Node) (ns : List Node) (r : Node)
    → best_from t b ns ≡ some r
    → Origin b ns r × Within t b r × Unbeaten t r ns
unfolding best_from
best_from_lem t none [] r e = cc
best_from_lem t (some x) [] r e = (inr e, ground (arith, better_irrefl t r), λ m i _. elim i [ ])
best_from_lem t b (n ∷ ns) r e =
    let (origin, within, unbeaten) = best_from_lem t (best_so_far t b n) ns r e in
    let step : Within t b r × (eligible n ≡ true → better t n r ≡ false) =
      Within-step t b n r within in
    (Origin-step t b n r ns origin, step.0, Unbeaten-cons t n r ns step.1 unbeaten)
  where
    Unbeaten-cons :
        (t : ℤ) (n r : Node) (ns : List Node)
        → (eligible n ≡ true → better t n r ≡ false)
        → Unbeaten t r ns
        → Unbeaten t r (n ∷ ns)
    Unbeaten-cons t n r ns h u m (inl e) =
        subst (λ x. eligible x ≡ true → better t x r ≡ false) (sym e) h
    Unbeaten-cons t n r ns h u m (inr i) = u m i

-- A chosen node is one of the nodes given, is neither dead nor dispatch-only, and no such node is of
-- a better class or, where both are active and of one class, lighter.
pub pick_node-Unbeaten :
    (nodes : List Node) (t : ℤ) (n : Node)
    → pick_node nodes t ≡ some n
    → In n nodes × (eligible n ≡ true) × Unbeaten t n nodes
pick_node-Unbeaten nodes t n e =
    let (origin, _, unbeaten) =
      best_from_lem t none nodes n (sym (pick_node-eq-best_from nodes t) ∙ e) in
    elim origin [ inl o ↦ (o.0, o.1, unbeaten) | inr absent ↦ cc absent ]

best_so_far-some : (t : ℤ) (x n : Node) → (y : Node) × (best_so_far t (some x) n ≡ some y)
unfolding best_so_far
best_so_far-some t x n = elim (Bool-cases (eligible n && better t n x)) [
  | inl e ↦ (n, ground arith)
  | inr e ↦ (x, ground arith)
]

best_from-some : (t : ℤ) (x : Node) (ns : List Node) → best_from t (some x) ns ≢ none
unfolding best_from
best_from-some t x [] e = cc
best_from-some t x (n ∷ ns) e =
    let (y, kept) = best_so_far-some t x n in best_from-some t y ns (rw kept at e)

best_from-none :
    (t : ℤ) (ns : List Node) → (best_from t none ns ≡ none) ↔ All (λ n. eligible n ≡ false) ns
unfolding best_from best_so_far
best_from-none t [] = (λ _. tt, λ _. refl)
best_from-none t (n ∷ ns) = elim (Bool-cases (eligible n)) [
  | inl e ↦ (λ h. absurd (best_from-some t n ns (rw e at h)), λ h. cc (e, h.0))
  | inr e ↦ (λ h. (e, (best_from-none t ns).0 (rw e at h)), λ h. rw e ((best_from-none t ns).1 h.1))
]

-- `PickNode` finds no node exactly when every node is dead or dispatch-only.
pub pick_node-none :
    (nodes : List Node) (t : ℤ) → (pick_node nodes t ≡ none) ↔ All (λ n. eligible n ≡ false) nodes
pick_node-none nodes t = rw (pick_node-eq-best_from nodes t) (best_from-none t nodes)
