-- ===== src/Manager/Stale.antt =====
-- The proxy's times of use outlive the functions, and the reaper goes by them.
use yuliya_bachelorarbeit.Base.{
  pos, none, ◌∙◌, ℕ, ℤ, ◌<ℤ◌, since, true, String, str_eq, eq_iff, some, List, [], ◌∷◌, ◌≡◌, refl,
  arith, In, Option-cases, Bool-cases, inl, inr,
}
use yuliya_bachelorarbeit.Base.Dict.{Dict, lookup, lookup-insert}
use yuliya_bachelorarbeit.Proxy.{Proxy, add, del}
use yuliya_bachelorarbeit.Manager.Rounds.{expired, to_delete, reap}
use yuliya_bachelorarbeit.Manager.{Host, Handler, Notice, ManagementService, posted}
use yuliya_bachelorarbeit.Manager.Deletion.{reap-gone}

-- A listed time that has expired has its function deleted.
to_delete-In :
    (idle_timeout : ℤ) (now : ℕ) (times : Dict ℕ) (at : String) (t : ℕ)
    → lookup at times ≡ some t
    → expired idle_timeout now t ≡ true
    → In at (to_delete idle_timeout now times)
unfolding lookup to_delete
to_delete-In idle_timeout now [] at t found old = cc
to_delete-In idle_timeout now ((name, s) ∷ rest) at t found old =
    elim (Bool-cases (str_eq name at)) [
      | inl same ↦
          let mine : expired idle_timeout now s ≡ true = ground (arith, found, same, old) in
          rw mine (inl (ground (arith, eq_iff name at, same)))
      | inr other ↦
          let later = to_delete-In idle_timeout now rest at t (rw other at found) old in
          elim (Bool-cases (expired idle_timeout now s)) [
            | inl stale ↦ rw stale (inr later)
            | inr young ↦ rw young later
          ]
    ]

del-times : (name : String) (p : Proxy) → (del name p).1.function_last_used ≡ p.function_last_used
unfolding del
del-times name p = elim (Option-cases (lookup name p.hosts)) [
  | inl gone ↦ rw (gone, del) refl
  | inr (ips, found) ↦ rw (found, del) refl
]

module _ {W : Type 0} (h : Host W) where
  -- A function that the proxy drops and then takes up again, with its containers, is gone from the
  -- node after the next round of the reaper, if its last use in its earlier life is longer ago than
  -- the timeout, the timeout is positive, the round is told the proxy's times, and neither the backend
  -- nor the proxy fails. The proxy has it listed until the round.
  pub reap-add-del :
      ((fh : Handler) (w : W) → (h.destroy fh w).0 ≡ true)
      → ((notice : Notice) (w : W) → (h.post notice w).0 ≡ posted 200 true)
      → (name ip : String) (ips : List String) (p : Proxy) (idle_timeout : ℤ) (t : ℕ)
        (times : Dict ℕ) (m : ManagementService) (w : W)
      → pos 0 <ℤ idle_timeout
      → lookup name p.function_last_used ≡ some t
      → idle_timeout <ℤ since (h.now (h.get_last_used w).1) t
      → (h.get_last_used w).0 ≡ some times
      → lookup name times ≡ lookup name (add name (ip ∷ ips) (del name p).1).1.function_last_used
      → (lookup name (add name (ip ∷ ips) (del name p).1).1.hosts ≡ some (ip ∷ ips))
        × (lookup name (reap h idle_timeout (m, w)).1.0.function_handlers ≡ none)
  unfolding add
  reap-add-del destroys tells name ip ips p idle_timeout t times m w on found old told seen =
      let p' = (add name (ip ∷ ips) (del name p).1).1 in
      let kept : lookup name p'.function_last_used ≡ some t = rw (del-times name p) found in
      (
        ground (arith, lookup-insert name name (ip ∷ ips) (del name p).1.hosts, eq_iff name name),
        reap-gone h destroys tells idle_timeout times name m w (ground (arith, on)) told (
            to_delete-In idle_timeout (h.now (h.get_last_used w).1) times name t (seen ∙ kept)
              (ground (arith, old))),
      )
