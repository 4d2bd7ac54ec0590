-- ===== src/Verify/Report/Backed.antt =====
-- tinyFaaS-ext/cmd/verify-wiring/main.go: the points that a run comes to, and what the flags of a result
-- stand for.
use yuliya_bachelorarbeit.Base.{
  ℕ, zero, suc, ℤ, Result, ◌==◌, ltb, Bool, true, false, not, ◌||◌, String, str_eq, some, List,
  if◌then◌else◌, ◌≡◌, subst, inl, inr, arith, Bool-cases, Option-cases, eq_iff, length,
}
use yuliya_bachelorarbeit.Base.Dict.{Dict}
use yuliya_bachelorarbeit.Node.{Node}
use yuliya_bachelorarbeit.Relay.{Bricklets, RelayError}
use yuliya_bachelorarbeit.Verify.{
  Watts, Bench, Verified, read_all, rose_above, healthy_manager, check_address, check_bricklet,
  settled, watch, set_relay, poll_interval,
}

either_branch :
    {A : Type 0} → (P : A → Type 0) (c : Bool) (x y : A) → P x → P y → P (if c then x else y)
either_branch P true x y p q = p
either_branch P false x y p q = q

module _ {W D : Type 0} (b : Bricklets W) (e : Bench W) (f : Watts D) where
  -- The worlds that the check comes to from `w`.
  pub data Reaches (w : W) : W → Type 0 where
    start : Reaches w w
    rests : (d : ℕ) {v : W} → Reaches w v → Reaches w (e.sleep d v)
    measures : (vcs : List String) {v : W} → Reaches w v → Reaches w (read_all b e f vcs v).1
    asks : (addr : String) {v : W} → Reaches w v → Reaches w (e.get_health addr v).1
    switches :
        (u : String) (c : ℤ) (on : Bool) {v : W} → Reaches w v → Reaches w (set_relay b u c on v).1

  pub Reaches-trans : (u v w : W) → Reaches u v → Reaches v w → Reaches u w
  Reaches-trans u v w first start = first
  Reaches-trans u v w first (rests d second) = rests d (Reaches-trans u v _ first second)
  Reaches-trans u v w first (measures vcs second) = measures vcs (Reaches-trans u v _ first second)
  Reaches-trans u v w first (asks addr second) = asks addr (Reaches-trans u v _ first second)
  Reaches-trans u v w first (switches x c on second) =
      switches x c on (Reaches-trans u v _ first second)

  -- The world in which a worker has been switched on, if its check began in `w`.
  abbrev pub switched_on : List String → Node → W → Result RelayError (Unit {0}) × W
  switched_on vcs n w = set_relay b n.relay_uid n.channel true (read_all b e f vcs w).1

  -- Later its management process answered with status 200.
  abbrev pub Answers : Node → W → Type 0
  Answers n on = (w : W) × Reaches on w × ((e.get_health n.manager_address w).0 ≡ some 200)

  -- Later the current had risen most, and by enough, on its own bricklet.
  abbrev pub Rises : List String → Dict D → Node → W → Type 0
  Rises vcs before n on =
      (w : W) × Reaches on w × (rose_above f before (read_all b e f vcs w).0 f.on_threshold ≡ n.id)

  -- What the flags of a result stand for.
  pub record Backed (vcs : List String) (before : Dict D) (n : Node) (on : W) (r : Verified)
      : Type 0 where
    pub answered : r.address_ok ≡ true → Answers n on
    pub rose : r.bricklet_ok ≡ true → Rises vcs before n on

  healthy_manager-Answers :
      (addr : String) (w : W)
      → (healthy_manager b e f addr w).0 ≡ true
      → (e.get_health addr w).0 ≡ some 200
  unfolding healthy_manager
  healthy_manager-Answers addr w up = elim (Option-cases (e.get_health addr w).0) [
    | inl silent ↦ absurd (ground (arith, silent, up))
    | inr (code, told) ↦ ground (arith, told, up)
  ]

  answer-Backed :
      (vcs : List String) (before : Dict D) (n : Node) (on w : W) (res : Verified)
      → Backed vcs before n on res
      → Reaches on w
      → Backed vcs before n on (
          if (healthy_manager b e f n.manager_address w).0
          then record res { address_ok = true }
          else res)
  answer-Backed vcs before n on w res backed there =
      elim (Bool-cases (healthy_manager b e f n.manager_address w).0) [
        | inr down ↦ rw down backed
        | inl up ↦ rw up (record {
          answered = λ h. (w, there, healthy_manager-Answers n.manager_address w up);
          rose = backed.rose;
        })
      ]

  check_address-Backed :
      (vcs : List String) (before : Dict D) (n : Node) (on : W) (s : Verified × W)
      → Backed vcs before n on s.0 × Reaches on s.1
      → let s' = check_address b e f n s in Backed vcs before n on s'.0 × Reaches on s'.1
  unfolding check_address healthy_manager
  check_address-Backed vcs before n on (res, w) (backed, there) =
      either_branch (λ (s : Verified × W). Backed vcs before n on s.0 × Reaches on s.1)
        res.address_ok (res, w) _ (backed, there)
        (answer-Backed vcs before n on w res backed there, asks n.manager_address there)

  check_bricklet-Backed :
      (vcs : List String) (before : Dict D) (n : Node) (on : W) (s : Verified × W)
      → Backed vcs before n on s.0 × Reaches on s.1
      → let s' = check_bricklet b e f vcs before n s in
        Backed vcs before n on s'.0 × Reaches on s'.1
  unfolding check_bricklet
  check_bricklet-Backed vcs before n on (res, w) (backed, there) =
      let node = rose_above f before (read_all b e f vcs w).0 f.on_threshold in
      elim (Bool-cases (not (str_eq res.saw_bricklet "") || length vcs == 0)) [
        | inl skipped ↦ rw skipped (backed, there)
        | inr looked ↦ elim (Bool-cases (str_eq node "")) [
          | inl none_rose ↦ rw (looked, none_rose) (backed, measures vcs there)
          | inr some_rose ↦
              rw (looked, some_rose)
                (
                  record {
                    answered = backed.answered;
                    rose = λ h. (w, there, (eq_iff node n.id).0 h);
                  },
                  measures vcs there,
                )
        ]
      ]

  pub watch-Backed :
      (fuel : ℕ) (vcs : List String) (before : Dict D) (n : Node) (on : W) (deadline : ℕ)
      (s r : Verified × W)
      → Backed vcs before n on s.0 × Reaches on s.1
      → watch b e f fuel vcs before n deadline s ≡ some r
      → Backed vcs before n on r.0 × Reaches on r.1
  unfolding watch
  watch-Backed zero vcs before n on deadline (res, w) r backed ended =
      absurd (ground (arith, ended))
  watch-Backed (suc fuel) vcs before n on deadline (res, w) r (backed, there) ended =
      let s1 = check_address b e f n (res, e.sleep poll_interval w) in
      let s2 = check_bricklet b e f vcs before n s1 in
      let backed2 = check_bricklet-Backed vcs before n on s1 (
        check_address-Backed vcs before n on (res, e.sleep poll_interval w)
          (backed, rests poll_interval there)) in
      elim (Bool-cases (ltb (e.now w) deadline)) [
        | inr over ↦
            let same : ◌≡◌ {A = Verified × W} (res, w) r = ground (arith, over, ended) in
            subst (λ x. Backed vcs before n on x.0 × Reaches on x.1) same (backed, there)
        | inl early ↦ elim (Bool-cases (settled vcs s2.0)) [
          | inl enough ↦
              let same : s2 ≡ r = ground (arith, early, enough, ended) in
              subst (λ x. Backed vcs before n on x.0 × Reaches on x.1) same backed2
          | inr more ↦
              watch-Backed fuel vcs before n on deadline s2 r backed2
                (ground (arith, early, more, ended))
        ]
      ]
