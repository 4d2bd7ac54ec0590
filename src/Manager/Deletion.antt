-- ===== src/Manager/Deletion.antt =====
-- What deletions leave of the functions of a node: one by one, all at once, and by the reaper.
use yuliya_bachelorarbeit.Base.{
  ℕ, ℤ, pos, ◌<ℤ◌, ltb_ℤ→lt, leb_ℤ, since, Bool, true, false, ◌&&◌, String, str_eq, eq_iff, none,
  some, List, [], ◌∷◌, if◌then◌else◌, Result, ok, err, ◌≡◌, ◌≢◌, ◌⊎◌, refl, sym, ◌∙◌, ap, arith, In,
  Option-cases, Bool-cases, Result-cases, inl, inr, subst,
}
use yuliya_bachelorarbeit.Base.Dict.{Dict, lookup, lookup-remove}
use yuliya_bachelorarbeit.Manager.{
  ManagementService, ManagerError, Handler, Host, Notice, deleted, posted, accepted, tell_rproxy,
  delete, names, list, Action,
}
use yuliya_bachelorarbeit.Manager.Rounds.{
  delete_known, each, is_panic, wipe, expired, to_delete, reap,
}

abbrev pub is_done : Result ManagerError (Unit {0}) → Bool
is_done (ok _) = true
is_done (err _) = false

module _ {W : Type 0} (h : Host W) where
  -- A deletion that returns no error drops its function; one that does drops nothing.
  pub delete-lookup :
      (name at : String) (m : ManagementService) (w : W)
      → let (result, (m', w')) = delete h name (m, w) in
        lookup at m'.function_handlers
        ≡ (if is_done result && str_eq name at then none else lookup at m.function_handlers)
  unfolding delete tell_rproxy
  delete-lookup name at m w = elim (Option-cases (lookup name m.function_handlers)) [
    | inl gone ↦ rw (gone, delete) (ground arith)
    | inr (fh, found) ↦ elim (Bool-cases (h.destroy fh w).0) [
      | inr failed ↦ rw (found, delete) (rw failed (ground arith))
      | inl done ↦
          let w1 = (h.destroy fh w).1 in
          elim (Result-cases (accepted (h.post (deleted name) w1).0)) [
            | inl (_, told) ↦
                rw (found, delete) (rw done (rw told (lookup-remove name at m.function_handlers)))
            | inr (e, untold) ↦ rw (found, delete) (rw done (rw untold refl))
          ]
    ]
  ]

  -- An action on a function that drops no other one.
  abbrev DropsOnly : (String → Action h (Unit {0})) → Type 0
  DropsOnly act =
      (name at : String) (m : ManagementService) (w : W)
      → name ≢ at
      → lookup at (act name (m, w)).1.0.function_handlers ≡ lookup at m.function_handlers

  delete-DropsOnly : DropsOnly (delete h)
  delete-DropsOnly name at m w ne = ground (arith, delete-lookup name at m w, eq_iff name at, ne)

  delete_known-DropsOnly : DropsOnly (delete_known h)
  unfolding delete_known
  delete_known-DropsOnly name at m w ne = elim (Option-cases (lookup name m.function_handlers)) [
    | inl gone ↦ rw (gone, delete_known)
    | inr (fh, found) ↦ rw (found, delete_known) (delete-DropsOnly name at m w ne)
  ]

  -- A loop of such actions keeps what it does not name.
  each-kept :
      (act : String → Action h (Unit {0})) (ns : List String) (at : String) (m : ManagementService)
      (w : W)
      → DropsOnly act
      → In at ns
        ⊎ (lookup at (each h act ns (m, w)).1.0.function_handlers ≡ lookup at m.function_handlers)
  unfolding each
  each-kept act [] at m w drops = inr refl
  each-kept act (name ∷ ns) at m w drops = elim (Bool-cases (str_eq name at)) [
    | inl same ↦ inl (inl (ground (arith, eq_iff name at, same)))
    | inr other ↦
        let (result, (m', w')) = act name (m, w) in
        let here = drops name at m w (λ e. ground (arith, eq_iff name at, other, e)) in
        elim (Bool-cases (is_panic result)) [
          | inl panic ↦ inr (rw panic here)
          | inr on ↦ elim (each-kept act ns at m' w' drops) [
            | inl named ↦ inl (inr named)
            | inr kept ↦ inr (rw on (kept ∙ here))
          ]
        ]
  ]

  In-to_delete :
      (idle_timeout : ℤ) (now : ℕ) (times : Dict ℕ) (at : String)
      → In at (to_delete idle_timeout now times)
      → (t : ℕ) × In {A = String × ℕ} (at, t) times × (idle_timeout <ℤ since now t)
  unfolding to_delete
  In-to_delete idle_timeout now [] at m = elim m [ ]
  In-to_delete idle_timeout now ((name, t) ∷ rest) at m =
      elim (Bool-cases (expired idle_timeout now t)) [
        | inl old ↦ elim (rw old at m) [
          | inl same ↦ (t, inl (ap (λ x. (x, t)) same), ltb_ℤ→lt idle_timeout (since now t) old)
          | inr later ↦
              let (t', there, late) = In-to_delete idle_timeout now rest at later in
              (t', inr there, late)
        ]
        | inr young ↦
            let (t', there, late) = In-to_delete idle_timeout now rest at (rw young at m) in
            (t', inr there, late)
      ]

  -- A round of the reaper keeps every function, but for one that the proxy has reported with a last
  -- use longer ago than the timeout, and the timeout is then positive.
  pub reap-kept :
      (idle_timeout : ℤ) (at : String) (m : ManagementService) (w : W)
      → (lookup at (reap h idle_timeout (m, w)).1.0.function_handlers
          ≡ lookup at m.function_handlers)
        ⊎ ((pos 0 <ℤ idle_timeout)
            × ((times : Dict ℕ) × ((h.get_last_used w).0 ≡ some times)
                × ((t : ℕ) × In {A = String × ℕ} (at, t) times
                    × (idle_timeout <ℤ since (h.now (h.get_last_used w).1) t))))
  unfolding reap
  reap-kept idle_timeout at m w = elim (Bool-cases (leb_ℤ idle_timeout (pos 0))) [
    | inl disabled ↦ inl (rw disabled refl)
    | inr enabled ↦ elim (Option-cases (h.get_last_used w).0) [
      | inl silent ↦ inl (rw enabled (rw silent refl))
      | inr (times, told) ↦
          let w' = (h.get_last_used w).1 in
          elim (each-kept (delete_known h) (to_delete idle_timeout (h.now w') times) at m w'
            delete_known-DropsOnly) [
              | inr kept ↦ inl (rw enabled (rw told kept))
              | inl named ↦ inr (
                ground (arith, enabled),
                (times, told, In-to_delete idle_timeout (h.now w') times at named),
              )
            ]
    ]
  ]

  -- A deletion of a function of the node, where neither the backend nor the proxy fails.
  delete_done :
      ((fh : Handler) (w : W) → (h.destroy fh w).0 ≡ true)
      → ((notice : Notice) (w : W) → (h.post notice w).0 ≡ posted 200 true)
      → (name : String) (m : ManagementService) (w : W) (fh : Handler)
      → lookup name m.function_handlers ≡ some fh
      → (delete h name (m, w)).0 ≡ ok tt
  unfolding delete tell_rproxy
  delete_done destroys tells name m w fh found =
      rw (found, delete) (rw (destroys fh w) (rw (tells (deleted name) (h.destroy fh w).1) refl))

  -- A deletion that cannot fail leaves nothing under its name, and so does a loop.
  delete_gone :
      ((fh : Handler) (w : W) → (h.destroy fh w).0 ≡ true)
      → ((notice : Notice) (w : W) → (h.post notice w).0 ≡ posted 200 true)
      → (name : String) (m : ManagementService) (w : W)
      → (lookup name (delete h name (m, w)).1.0.function_handlers ≡ none)
        × (is_panic (delete h name (m, w)).0 ≡ false)
  unfolding delete
  delete_gone destroys tells name m w = elim (Option-cases (lookup name m.function_handlers)) [
    | inl gone ↦ (ground (arith, delete-lookup name name m w, gone), rw (gone, delete) refl)
    | inr (fh, found) ↦
        let done = delete_done destroys tells name m w fh found in
        (delete-lookup name name m w ∙ rw done (ground (arith, eq_iff name name)), ap is_panic done)
  ]

  stays_gone :
      (name at : String) (m : ManagementService) (w : W)
      → lookup at m.function_handlers ≡ none
      → lookup at (delete h name (m, w)).1.0.function_handlers ≡ none
  stays_gone name at m w gone = ground (arith, delete-lookup name at m w, gone)

  each-gone :
      ((fh : Handler) (w : W) → (h.destroy fh w).0 ≡ true)
      → ((notice : Notice) (w : W) → (h.post notice w).0 ≡ posted 200 true)
      → (ns : List String) (at : String) (m : ManagementService) (w : W)
      → In at ns ⊎ (lookup at m.function_handlers ≡ none)
      → let (result, (m', w')) = each h (delete h) ns (m, w) in
        (result ≡ ok tt) × (lookup at m'.function_handlers ≡ none)
  unfolding each
  each-gone destroys tells [] at m w (inl nowhere) = elim nowhere [ ]
  each-gone destroys tells [] at m w (inr gone) = (refl, gone)
  each-gone destroys tells (name ∷ ns) at m w asked =
      let (result, (m', w')) = delete h name (m, w) in
      let (gone, calm) = delete_gone destroys tells name m w in
      rw calm (
        each-gone destroys tells ns at m' w' (elim asked [
          | inr already ↦ inr (stays_gone name at m w already)
          | inl (inl here) ↦ inr (subst (λ x. lookup x m'.function_handlers ≡ none) (sym here) gone)
          | inl (inr later) ↦ inl later
        ]))

  delete_known_gone :
      ((fh : Handler) (w : W) → (h.destroy fh w).0 ≡ true)
      → ((notice : Notice) (w : W) → (h.post notice w).0 ≡ posted 200 true)
      → (name : String) (m : ManagementService) (w : W)
      → (lookup name (delete_known h name (m, w)).1.0.function_handlers ≡ none)
        × (is_panic (delete_known h name (m, w)).0 ≡ false)
  unfolding delete_known
  delete_known_gone destroys tells name m w =
      elim (Option-cases (lookup name m.function_handlers)) [
        | inl gone ↦ rw (gone, delete_known) (gone, refl)
        | inr (fh, found) ↦ rw (found, delete_known) (delete_gone destroys tells name m w)
      ]

  known_stays_gone :
      (name at : String) (m : ManagementService) (w : W)
      → lookup at m.function_handlers ≡ none
      → lookup at (delete_known h name (m, w)).1.0.function_handlers ≡ none
  unfolding delete_known
  known_stays_gone name at m w gone = elim (Option-cases (lookup name m.function_handlers)) [
    | inl out ↦ rw (out, delete_known) gone
    | inr (fh, found) ↦ rw (found, delete_known) (stays_gone name at m w gone)
  ]

  each_known-gone :
      ((fh : Handler) (w : W) → (h.destroy fh w).0 ≡ true)
      → ((notice : Notice) (w : W) → (h.post notice w).0 ≡ posted 200 true)
      → (ns : List String) (at : String) (m : ManagementService) (w : W)
      → In at ns ⊎ (lookup at m.function_handlers ≡ none)
      → lookup at (each h (delete_known h) ns (m, w)).1.0.function_handlers ≡ none
  unfolding each
  each_known-gone destroys tells [] at m w (inl nowhere) = elim nowhere [ ]
  each_known-gone destroys tells [] at m w (inr gone) = gone
  each_known-gone destroys tells (name ∷ ns) at m w asked =
      let (result, (m', w')) = delete_known h name (m, w) in
      let (gone, calm) = delete_known_gone destroys tells name m w in
      rw calm (
        each_known-gone destroys tells ns at m' w' (elim asked [
          | inr already ↦ inr (known_stays_gone name at m w already)
          | inl (inl here) ↦ inr (subst (λ x. lookup x m'.function_handlers ≡ none) (sym here) gone)
          | inl (inr later) ↦ inl later
        ]))

  -- A round of the reaper with a positive timeout drops what is expired in the times it is told.
  pub reap-gone :
      ((fh : Handler) (w : W) → (h.destroy fh w).0 ≡ true)
      → ((notice : Notice) (w : W) → (h.post notice w).0 ≡ posted 200 true)
      → (idle_timeout : ℤ) (times : Dict ℕ) (at : String) (m : ManagementService) (w : W)
      → leb_ℤ idle_timeout (pos 0) ≡ false
      → (h.get_last_used w).0 ≡ some times
      → In at (to_delete idle_timeout (h.now (h.get_last_used w).1) times)
      → lookup at (reap h idle_timeout (m, w)).1.0.function_handlers ≡ none
  unfolding reap
  reap-gone destroys tells idle_timeout times at m w enabled told named = rw enabled (
      rw told (
        each_known-gone destroys tells (to_delete idle_timeout (h.now (h.get_last_used w).1) times)
          at m (h.get_last_used w).1 (inl named)))

  In-names : (at : String) (m : Dict Handler) → In at (names m) ⊎ (lookup at m ≡ none)
  unfolding lookup
  In-names at [] = inr refl
  In-names at ((k, v) ∷ m) = elim (Bool-cases (str_eq k at)) [
    | inl same ↦ inl (inl (ground (arith, eq_iff k at, same)))
    | inr other ↦ elim (In-names at m) [
      | inl there ↦ inl (inr there)
      | inr gone ↦ inr (rw other gone)
    ]
  ]

  -- If neither the backend nor the proxy fails, a wipe reports success and leaves no function.
  pub wipe-empty :
      ((fh : Handler) (w : W) → (h.destroy fh w).0 ≡ true)
      → ((notice : Notice) (w : W) → (h.post notice w).0 ≡ posted 200 true)
      → (m : ManagementService) (w : W)
      → let (result, (m', w')) = wipe h (m, w) in
        (result ≡ ok tt) × ((at : String) → lookup at m'.function_handlers ≡ none)
  unfolding wipe list
  wipe-empty destroys tells m w = (
    (each-gone destroys tells (names m.function_handlers) "" m w
        (In-names "" m.function_handlers)).0,
    λ at.
        (each-gone destroys tells (names m.function_handlers) at m w
          (In-names at m.function_handlers)).1,
  )
