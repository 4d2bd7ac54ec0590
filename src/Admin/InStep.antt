-- ===== src/Admin/InStep.antt =====
-- The proxy and the function store name the same functions, whatever the endpoint is sent.
use yuliya_bachelorarbeit.Base.{
  Bool, true, false, String, str_eq, Option, none, some, List, [], ◌∷◌, if◌then◌else◌, ok, err, ◌≡◌,
  refl, arith, Option-cases, Bool-cases, inl, inr, subst, ◌⊎◌,
}
use yuliya_bachelorarbeit.Base.Dict.{lookup, lookup-insert, lookup-remove, Dict, insert, remove}
use yuliya_bachelorarbeit.Functions.{set_function, remove_function}
use yuliya_bachelorarbeit.Outside.{Outside}
use yuliya_bachelorarbeit.Proxy.{Proxy, add, del, no_ips, function_not_found}
use yuliya_bachelorarbeit.Proxy.Hosts.{Routed, add-Routed, del-Routed}
use yuliya_bachelorarbeit.Registry.{Registry}
use yuliya_bachelorarbeit.Registry.Sweep.{broadcast_function, broadcast_delete}
use yuliya_bachelorarbeit.Admin.{
  Definition, State, add_function, delete_function, change, handle_definition, handle,
  function_name, function_def,
}

abbrev pub has : {V : Type 0} → String → Dict V → Bool
has at m = elim (lookup at m) [ none ↦ false | some v ↦ true ]

-- Every function of the proxy has a container, and is one of the store, and the other way round.
pub record InStep (p : Proxy) (r : Registry) : Type 0 where
  pub routed : Routed p
  pub same : (at : String) → has at p.hosts ≡ has at r.funcs.funcs

has-insert :
    {V : Type 0} (key at : String) (v : V) (m : Dict V)
    → has at (insert key v m) ≡ (if str_eq key at then true else has at m)
has-insert key at v m = ground (arith, lookup-insert key at v m)

has-remove :
    {V : Type 0} (key at : String) (m : Dict V)
    → has at (remove key m) ≡ (if str_eq key at then false else has at m)
has-remove key at m = ground (arith, lookup-remove key at m)

-- `Add` refuses, or enters the containers.
add_cases :
    (name : String) (ips : List String) (p : Proxy)
    → (((add name ips p).0 ≡ err no_ips) × ((add name ips p).1 ≡ p))
      ⊎ (((add name ips p).0 ≡ ok tt)
          × ((add name ips p).1 ≡ record p { hosts = insert name ips p.hosts }))
unfolding add
add_cases name [] p = inl (refl, refl)
add_cases name (ip ∷ ips) p = inr (refl, refl)

-- `Del` refuses, or drops the containers of a function that has some.
del_cases :
    (name : String) (p : Proxy)
    → (((del name p).0 ≡ err function_not_found) × ((del name p).1 ≡ p))
      ⊎ (((del name p).0 ≡ ok tt) × ((del name p).1 ≡ record p { hosts = remove name p.hosts }))
unfolding del
del_cases name p = elim (Option-cases (lookup name p.hosts)) [
  | inl gone ↦ inl (rw (gone, del) (refl, refl))
  | inr (ips, found) ↦ inr (rw (found, del) (refl, refl))
]

module _ {W : Type 0} (o : Outside W) where
  abbrev pub InStepAfter : State o → Type 0
  InStepAfter (p, (r, w)) = InStep p r

  add_function-InStep :
      (name : String) (d : Definition) (p : Proxy) (r : Registry) (w : W)
      → InStep p r
      → InStepAfter (add_function o name d (p, (r, w))).1
  unfolding add_function set_function broadcast_function
  add_function-InStep name d p r w s = elim (add_cases name d.containers p) [
    | inl (refused_0, refused_1) ↦ rw (refused_0, refused_1, add_function) s
    | inr (entered_0, entered_1) ↦
        rw (entered_0, entered_1, add_function)
          (record {
            routed = subst Routed entered_1 (add-Routed name d.containers p s.routed);
            same = λ at.
                rw
                  (
                    has-insert name at d.containers p.hosts,
                    has-insert name at (function_def d) r.funcs.funcs,
                  )
                  (ground (arith, s.same at));
          })
  ]

  delete_function-InStep :
      (name : String) (p : Proxy) (r : Registry) (w : W)
      → InStep p r
      → InStepAfter (delete_function o name (p, (r, w))).1
  unfolding delete_function remove_function broadcast_delete
  delete_function-InStep name p r w s = elim (del_cases name p) [
    | inl (refused_0, refused_1) ↦ rw (refused_0, refused_1, delete_function) s
    | inr (dropped_0, dropped_1) ↦
        rw (dropped_0, dropped_1, delete_function)
          (record {
            routed = subst Routed dropped_1 (del-Routed name p s.routed);
            same = λ at.
                rw (has-remove name at p.hosts, has-remove name at r.funcs.funcs)
                  (ground (arith, s.same at));
          })
  ]

  change-InStep :
      (name : String) (d : Definition) (ips : List String) (p : Proxy) (r : Registry) (w : W)
      → InStep p r
      → InStepAfter (change o name d ips (p, (r, w))).1
  unfolding change
  change-InStep name d [] p r w s = delete_function-InStep name p r w s
  change-InStep name d (ip ∷ ips) p r w s = add_function-InStep name d p r w s

  -- Whatever the endpoint is sent, and whatever it answers, a proxy and a function store that name
  -- the same functions, each with a container, do so afterwards.
  pub handle-InStep :
      (method : String) (parsed : Option Definition) (p : Proxy) (r : Registry) (w : W)
      → InStep p r
      → InStepAfter (handle o method parsed (p, (r, w))).1
  unfolding handle handle_definition
  handle-InStep method parsed p r w s = elim (Bool-cases (str_eq method "POST")) [
    | inr other ↦ rw (other, handle) s
    | inl post ↦ elim (Option-cases parsed) [
      | inl bad ↦ rw (post, handle) (rw (bad, handle) s)
      | inr (d, e) ↦ elim (Option-cases (function_name d.resource)) [
        | inl empty ↦ rw (post, e, handle) (rw (empty, handle_definition) s)
        | inr (name, named) ↦
            rw (post, e, handle)
              (rw (named, handle_definition) (change-InStep name d d.containers p r w s))
      ]
    ]
  ]
