-- ===== src/Traffic/Loads.antt =====
-- The load of a node counts the requests in flight on it.
use yuliya_bachelorarbeit.Base.{
  ℕ, zero, suc, ◌<◌, ◌≤◌, ◌+◌, pos, Bool, false, String, str_eq, some, List, [], ◌∷◌, length, set,
  count_if, max_int, ◌++◌, get_elem?, if◌then◌else◌, ◌≡◌, refl, sym, subst, inl, inr, arith,
  Option-cases, ap, count_if-append,
}
use yuliya_bachelorarbeit.Base.Dict.{lookup}
use yuliya_bachelorarbeit.Node.{Node, sleeping}
use yuliya_bachelorarbeit.Config.{ControllerConfig}
use yuliya_bachelorarbeit.Registry.{
  Registry, inc_load, dec_load, touch_node, set_status, update_node, raise, lower, with_status,
}
use yuliya_bachelorarbeit.Registry.Nodes.{lookup-update_node}
use yuliya_bachelorarbeit.Traffic.{
  Request, arrived, served_by, finished, Loop, Traffic, Serve, picks, finds_none, admits_active,
  admits_woken, fails, begins, touches, ends, Scale, takes_snapshot, keeps, chooses, fails_to_cut,
  cuts, marks, ends_round, Step, serves_request, arrives, scales, sets_status, Steps, here, next,
  is_on, in_flight,
}

count_if-set :
    (p : Request → Bool) (qs : List Request) (i : ℕ) (q q' : Request)
    → get_elem? qs i ≡ some q
    → count_if p (set qs i q') + (if p q then 1 else 0) ≡ count_if p qs + (if p q' then 1 else 0)
count_if-set p [] i q q' found = absurd (ground (arith, found))
count_if-set p (x ∷ qs) zero q q' found =
    let e : x ≡ q = ground (arith, found) in
    subst
      (λ x.
        count_if p (q' ∷ qs) + (if p q then 1 else 0)
        ≡ count_if p (x ∷ qs) + (if p q' then 1 else 0))
      (sym e) (omega arith)
count_if-set p (x ∷ qs) (suc i) q q' found =
    let rest = count_if-set p qs i q q' found in omega (arith, rest)

length-set : (qs : List Request) (i : ℕ) (q : Request) → length (set qs i q) ≡ length qs
length-set [] i q = refl
length-set (x ∷ qs) zero q = refl
length-set (x ∷ qs) (suc i) q = ap suc (length-set qs i q)

count_if-le : (p : Request → Bool) (qs : List Request) → count_if p qs ≤ length qs
count_if-le p [] = omega arith
count_if-le p (x ∷ qs) = let rest = count_if-le p qs in ground (arith, rest)

length-end : (qs : List Request) → length (qs ++ arrived ∷ []) ≡ suc (length qs)
length-end [] = refl
length-end (x ∷ qs) = ap suc (length-end qs)

-- A request that is not counted leaves room for one more.
count_if-lt :
    (p : Request → Bool) (qs : List Request) (i : ℕ) (q : Request)
    → get_elem? qs i ≡ some q
    → p q ≡ false
    → count_if p qs < length qs
count_if-lt p [] i q found off = absurd (ground (arith, found))
count_if-lt p (x ∷ qs) zero q found off =
    let e : q ≡ x = ground (arith, found) in
    let here : p x ≡ false = subst (λ x. p x ≡ false) e off in
    let rest = count_if-le p qs in ground (arith, here, rest)
count_if-lt p (x ∷ qs) (suc i) q found off =
    let rest = count_if-lt p qs i q found off in ground (arith, rest)

-- A node after an update, from the node before.
before_update :
    (j id : String) (f : Node → Node) (r : Registry) (n' : Node)
    → lookup id (update_node j f r).nodes ≡ some n'
    → (n : Node) × (lookup id r.nodes ≡ some n) × ((if str_eq j id then f n else n) ≡ n')
before_update j id f r n' found = elim (Option-cases (lookup id r.nodes)) [
  | inl gone ↦ absurd (ground (arith, gone, found, lookup-update_node j id f r))
  | inr (n, there) ↦ (n, there, ground (arith, there, found, lookup-update_node j id f r))
]

-- The loads that go with a list of requests.
unfoldable pub LoadsOf : Registry → List Request → Type 0
LoadsOf r qs =
    (id : String) (n : Node) → lookup id r.nodes ≡ some n → n.load ≡ pos (in_flight id qs)

same_loads :
    (j : String) (f : Node → Node) (r : Registry) (qs : List Request)
    → ((n : Node) → (f n).load ≡ n.load)
    → LoadsOf r qs
    → LoadsOf (update_node j f r) qs
unfolding LoadsOf
same_loads j f r qs unmoved loads id n' found =
    let (n, there, e) = before_update j id f r n' found in
    let load = loads id n there in let kept = unmoved n in ground (arith, e, load, kept)

same_count :
    (r : Registry) (qs : List Request) (i : ℕ) (q q' : Request)
    → get_elem? qs i ≡ some q
    → ((id : String) → is_on id q ≡ is_on id q')
    → LoadsOf r qs
    → LoadsOf r (set qs i q')
unfolding LoadsOf in_flight
same_count r qs i q q' found same loads id n there =
    let count = count_if-set (is_on id) qs i q q' found in
    let load = loads id n there in let e = same id in ground (arith, count, load, e)

begin_loads :
    (j : String) (r : Registry) (qs : List Request) (i : ℕ) (q : Request)
    → get_elem? qs i ≡ some q
    → ((id : String) → is_on id q ≡ false)
    → length qs ≤ max_int
    → LoadsOf r qs
    → LoadsOf (inc_load j r) (set qs i (served_by j))
unfolding LoadsOf in_flight inc_load
begin_loads j r qs i q found off room loads id n' there' =
    let (n, there, e) = before_update j id raise r n' there' in
    let count = count_if-set (is_on id) qs i q (served_by j) found in
    let load = loads id n there in
    let out = off id in
    let less = count_if-lt (is_on id) qs i q found out in
    ground (arith, e, load, out, less, room, count)

end_loads :
    (j : String) (r : Registry) (qs : List Request) (i : ℕ)
    → get_elem? qs i ≡ some (served_by j)
    → LoadsOf r qs
    → LoadsOf (dec_load j r) (set qs i finished)
unfolding LoadsOf in_flight dec_load
end_loads j r qs i found loads id n' there' =
    let (n, there, e) = before_update j id lower r n' there' in
    let count = count_if-set (is_on id) qs i (served_by j) finished found in
    let load = loads id n there in ground (arith, e, load, count)

module _ (cfg : ControllerConfig) where
  Step-length : (s t : Traffic) → Step cfg s t → length s.requests ≤ length t.requests
  Step-length s t (serves_request i q q' r' found serve) = omega (arith, length-set s.requests i q')
  Step-length s t arrives = omega (arith, length-end s.requests)
  Step-length s t (scales loop' r' scale) = omega arith
  Step-length s t (sets_status id status now) = omega arith

  Serve-LoadsOf :
      (r r' : Registry) (qs : List Request) (i : ℕ) (q q' : Request)
      → get_elem? qs i ≡ some q
      → Serve cfg r q r' q'
      → length qs ≤ max_int
      → LoadsOf r qs
      → LoadsOf r' (set qs i q')
  unfolding touch_node
  Serve-LoadsOf r r' qs i q q' found (picks n e) room loads =
      same_count r qs i _ _ found (λ id. refl) loads
  Serve-LoadsOf r r' qs i q q' found (finds_none e) room loads =
      same_count r qs i _ _ found (λ id. refl) loads
  Serve-LoadsOf r r' qs i q q' found (admits_active id e) room loads =
      same_count r qs i _ _ found (λ id. refl) loads
  Serve-LoadsOf r r' qs i q q' found (admits_woken id) room loads =
      same_count r qs i _ _ found (λ id. refl) loads
  Serve-LoadsOf r r' qs i q q' found (fails id) room loads =
      same_count r qs i _ _ found (λ id. refl) loads
  Serve-LoadsOf r r' qs i q q' found (begins id) room loads =
      begin_loads id r qs i _ found (λ id. refl) room loads
  Serve-LoadsOf r r' qs i q q' found (touches id now) room loads =
      same_loads id (λ n. record n { last_used = now }) r _ (λ n. refl)
        (same_count r qs i _ _ found (λ id. refl) loads)
  Serve-LoadsOf r r' qs i q q' found (ends id) room loads = end_loads id r qs i found loads

  Scale-LoadsOf :
      (r r' : Registry) (qs : List Request) (l l' : Loop)
      → Scale cfg r l r' l'
      → LoadsOf r qs
      → LoadsOf r' qs
  unfolding set_status
  Scale-LoadsOf r r' qs l l' takes_snapshot loads = loads
  Scale-LoadsOf r r' qs l l' (keeps n ns count now e) loads = loads
  Scale-LoadsOf r r' qs l l' (chooses n ns count now e) loads = loads
  Scale-LoadsOf r r' qs l l' (fails_to_cut n ns count) loads = loads
  Scale-LoadsOf r r' qs l l' (cuts n ns count) loads = loads
  Scale-LoadsOf r r' qs l l' (marks n ns count now) loads =
      same_loads n.id (with_status sleeping now) r qs (λ n. refl) loads
  Scale-LoadsOf r r' qs l l' (ends_round count) loads = loads

  arrival-LoadsOf :
      (r : Registry) (qs : List Request) → LoadsOf r qs → LoadsOf r (qs ++ arrived ∷ [])
  unfolding LoadsOf in_flight
  arrival-LoadsOf r qs loads id n there =
      let load = loads id n there in
      let count = count_if-append (is_on id) qs (arrived ∷ []) in ground (arith, load, count)

  Step-LoadsOf :
      (s t : Traffic)
      → Step cfg s t
      → length s.requests ≤ max_int
      → LoadsOf s.registry s.requests
      → LoadsOf t.registry t.requests
  unfolding set_status
  Step-LoadsOf s t (serves_request i q q' r' found serve) room loads =
      Serve-LoadsOf s.registry r' s.requests i q q' found serve room loads
  Step-LoadsOf s t arrives room loads = arrival-LoadsOf s.registry s.requests loads
  Step-LoadsOf s t (scales loop' r' scale) room loads =
      Scale-LoadsOf s.registry r' s.requests s.loop loop' scale loads
  Step-LoadsOf s t (sets_status id status now) room loads =
      same_loads id (with_status status now) s.registry s.requests (λ n. refl) loads

  -- However requests, the controller and other changes of a status interleave, the load of each node
  -- is the number of requests in flight on it, if it was so at first, and if there have been no more
  -- requests than the largest integer.
  pub Steps-LoadsOf :
      (s t : Traffic)
      → Steps cfg s t
      → length t.requests ≤ max_int
      → LoadsOf s.registry s.requests
      → LoadsOf t.registry t.requests
  Steps-LoadsOf s t here room loads = loads
  Steps-LoadsOf s t (next {t = mid} steps last) room loads =
      let longer = Step-length mid t last in
      let before : length mid.requests ≤ max_int = omega (arith, longer, room) in
      Step-LoadsOf mid t last before (Steps-LoadsOf s mid steps before loads)
