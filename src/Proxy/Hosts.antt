-- ===== src/Proxy/Hosts.antt =====
-- The table of containers: no function is listed without one, so that a call finds one.
use Prim.Native.String
use yuliya_bachelorarbeit.Base.{
  map, ℕ, zero, suc, ◌<◌, ◌&&◌, Bool-cases, inl, inr, Bool, true, false, String, str_eq, Option,
  none, some, List, [], ◌∷◌, length, get_elem?, if◌then◌else◌, ◌≡◌, ◌≢◌, refl, arith, In,
  Option-cases, ◌&&◌, inl, inr, suc,
}
use yuliya_bachelorarbeit.Base.Dict.{Dict, lookup, lookup-insert, lookup-remove}
use yuliya_bachelorarbeit.Outside.{Outside}
use yuliya_bachelorarbeit.Proxy.{
  Proxy, Status, Client, add, del, Reply, settle, Request, status_error, status_accepted,
  status_not_found, call, call_host, call_sync, request_to, clean_header_key,
}

-- The status of a call, where it is OK.
abbrev pub is_status_ok : Option (Status × List ℕ) → Bool
is_status_ok (some (Status.status_ok, body)) = true
is_status_ok _ = false

-- Every function that the table names has a container.
abbrev pub Routed : Proxy → Type 0
Routed p = (name : String) (ips : List String) → lookup name p.hosts ≡ some ips → ips ≢ []

pub add-Routed :
    (name : String) (ips : List String) (p : Proxy) → Routed p → Routed (add name ips p).1
unfolding add
add-Routed name [] p routed = routed
add-Routed name (ip ∷ ips) p routed =
    λ at found e. ground (arith, lookup-insert name at (ip ∷ ips) p.hosts, routed at found, e)

pub del-Routed : (name : String) (p : Proxy) → Routed p → Routed (del name p).1
unfolding del
del-Routed name p routed at found e =
    ground (arith, lookup-remove name at p.hosts, routed at found, e)

-- A position within a list holds one of its elements.
get_elem?-In :
    (xs : List String) (i : ℕ) → i < length xs → (x : String) × In x xs × (get_elem? xs i ≡ some x)
get_elem?-In [] i below = absurd (omega (arith, below))
get_elem?-In (x ∷ xs) zero below = (x, inl refl, refl)
get_elem?-In (x ∷ xs) (suc i) below =
    let (y, m, e) = get_elem?-In xs i (omega (arith, below)) in (y, inr m, e)

length-pos : (xs : List String) → xs ≢ [] → 0 < length xs
length-pos [] ne = absurd (ne refl)
length-pos (x ∷ xs) ne = omega arith

module _ {W : Type 0} (o : Outside W) (c : Client W) where
  -- What a call leaves: the containers as they were, and the times of use as they were but for the
  -- function's own, which is the time at the end where the status is OK.
  pub record Stamped (name : String) (p : Proxy) (out : Option (Status × List ℕ) × (Proxy × W))
      : Type 0 where
    pub hosts : out.1.0.hosts ≡ p.hosts
    pub used :
        (at : String)
        → lookup at out.1.0.function_last_used ≡ (
            if is_status_ok out.0 && str_eq name at
            then some (o.now out.1.1)
            else lookup at p.function_last_used)

  Stamped-same :
      (name : String) (p : Proxy) (result : Option (Status × List ℕ)) (w : W)
      → is_status_ok result ≡ false
      → Stamped name p (result, (p, w))
  Stamped-same name p result w bad = record { hosts = refl; used = λ at. ground (arith, bad) }

  settle-Stamped :
      (name : String) (reply : Reply) (p : Proxy) (w : W)
      → let (result, p') = settle name (o.now w) reply p in Stamped name p (result, (p', w))
  unfolding settle
  settle-Stamped name Reply.unreachable p w = Stamped-same name p _ w refl
  settle-Stamped name Reply.cut_off p w = Stamped-same name p _ w refl
  settle-Stamped name (Reply.answered status body) p w = record {
    hosts = refl;
    used = λ at. lookup-insert name at (o.now w) p.function_last_used;
  }

  -- A request to a container of a function: its address, the whole payload, and every header, in
  -- its order, under its cleaned key.
  pub record Meant (host : String) (bytes : List ℕ) (given : Dict String) (q : Request)
      : Type 0 where
    pub url : q.url ≡ String.◌++◌ "http://" (String.◌++◌ host ":8000/fn")
    pub payload : q.payload ≡ bytes
    pub headers : q.headers ≡ map (λ h. (clean_header_key h.0, h.1)) given

  -- What the network sees of a call: one request, or none where its address is not valid.
  abbrev pub Sends : Bool → Request → W → W → Type 0
  Sends async q w w' =
      (c.valid_url q.url ≡ false → w' ≡ w)
      × (c.valid_url q.url ≡ true → async ≡ true → w' ≡ c.send_later q w)
      × (c.valid_url q.url ≡ true → async ≡ false → w' ≡ (c.send q w).1)

  call_host-Sends :
      (name : String) (async : Bool) (q : Request) (p : Proxy) (w : W)
      → Sends async q w (call_host o c name async q (p, w)).1.1
  unfolding call_host call_sync
  call_host-Sends name async q p w =
      (λ bad. rw bad refl, λ good later. rw (good, later) refl, λ good now. rw (good, now) refl)

  -- A call of a function that the table names sends exactly one request, to one of the function's
  -- containers, with the payload and every header under its cleaned key, and none only where the
  -- address of that container is not valid, if no entry of the table is empty and `rand.Intn` stays
  -- in its range.
  pub call-Meant :
      (name : String) (payload : List ℕ) (async : Bool) (headers : Dict String) (p : Proxy) (w : W)
      (ips : List String)
      → ((k : ℕ) (w : W) → 0 < k → (c.intn k w).0 < k)
      → Routed p
      → lookup name p.hosts ≡ some ips
      → (host : String) × In host ips
        × ((q : Request) × Meant host payload headers q
            × Sends async q
                (c.intn (length ips) w).1
                (call o c name payload async headers (p, w)).1.1)
  unfolding call
  call-Meant name payload async headers p w ips range routed found =
      let below = range (length ips) w (length-pos ips (routed name ips found)) in
      let (host, m, e) = get_elem?-In ips (c.intn (length ips) w).0 below in
      let q = request_to host payload headers in
      (
        host,
        m,
        (
          q,
          record { url = refl; payload = refl; headers = refl },
          rw (found, call) (rw e (call_host-Sends name async q p (c.intn (length ips) w).1)),
        ),
      )

  call_host-Stamped :
      (name : String) (async : Bool) (q : Request) (p : Proxy) (w : W)
      → Stamped name p (call_host o c name async q (p, w))
  unfolding call_host call_sync
  call_host-Stamped name async q p w = elim (Bool-cases (c.valid_url q.url)) [
    | inr bad ↦ rw bad (Stamped-same name p (some (status_error, [])) w refl)
    | inl good ↦ elim (Bool-cases async) [
      | inl later ↦
          rw (good, later)
            (Stamped-same name p (some (status_accepted, [])) (c.send_later q w) refl)
      | inr now ↦ rw (good, now) (settle-Stamped name (c.send q w).0 p (c.send q w).1)
    ]
  ]

  -- Whatever a call comes to, it leaves the containers as they are and stamps the function with the
  -- time exactly when it answers with status OK.
  pub call-Stamped :
      (name : String) (payload : List ℕ) (async : Bool) (headers : Dict String) (p : Proxy) (w : W)
      → Stamped name p (call o c name payload async headers (p, w))
  unfolding call
  call-Stamped name payload async headers p w = elim (Option-cases (lookup name p.hosts)) [
    | inl gone ↦ rw (gone, call) (Stamped-same name p (some (status_not_found, [])) w refl)
    | inr (ips, found) ↦
        let (i, w') = c.intn (length ips) w in
        elim (Option-cases (get_elem? ips i)) [
          | inl out ↦ rw (found, call) (rw out (Stamped-same name p none w' refl))
          | inr (host, e) ↦
              rw (found, call)
                (rw e (call_host-Stamped name async (request_to host payload headers) p w'))
        ]
  ]
