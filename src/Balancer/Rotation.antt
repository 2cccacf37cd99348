-- ===== src/Balancer/Rotation.antt =====
-- Round robin: while every circuit is closed, consecutive requests go to consecutive backends.
use native.Mathlib.Nat.{mod-lt}
use curf.Common.{
  ℕ, zero, suc, ◌+◌, ◌%◌, ◌≤◌, ◌<◌, ◌≡◌, refl, ap, ◌∙◌, true, false, Option, none, some, List, [],
  ◌∷◌, arith, length, Text, get_elem?, All, map,
}
use curf.Common.Words.{word, add64}
use curf.Config.{round_robin}
use curf.Backend
use curf.Backend.{Backend}
use curf.Common.Address.{IpAddr}
use curf.Balancer.{LoadBalancer, ConnectionGuard, probe, modify, round_robin_loop, select, url_at}
use curf.Balancer.Visits.{turn_slots}

abbrev index_found : Option (Text × ConnectionGuard) → Option ℕ
index_found none = none
index_found (some (url, g)) = some g.index

-- A run of requests, each at its time and from its client, and the backends that they get.
unfoldable pub serve : List (ℕ × Option IpAddr) → LoadBalancer → LoadBalancer × List (Option ℕ)
serve [] lb = (lb, [])
serve ((now, ip) ∷ rest) lb =
    let (lb', r) = select now ip lb in let (last, is) = serve rest lb' in (last, index_found r ∷ is)

abbrev pub AllClosed : List Backend → Type 0
AllClosed = All (λ b. b.circuit_open ≡ false)

probe-closed :
    (now i : ℕ) (bs : List Backend) → i < length bs → AllClosed bs → probe now i bs ≡ (bs, true)
unfolding probe Backend.is_healthy
probe-closed now i [] h c = elim h [ ]
probe-closed now zero (b ∷ bs) h c = ground arith
probe-closed now (suc i) (b ∷ bs) h c = cc (probe-closed now i bs (omega arith) c.1)

modify-AllClosed :
    (i : ℕ) (bs : List Backend) → AllClosed bs → AllClosed (modify Backend.acquire i bs)
unfolding Backend.acquire
modify-AllClosed i [] c = tt
modify-AllClosed zero (b ∷ bs) c = c
modify-AllClosed (suc i) (b ∷ bs) c = (c.0, modify-AllClosed i bs c.1)

length-modify :
    (f : Backend → Backend) (i : ℕ) (bs : List Backend) → length (modify f i bs) ≡ length bs
length-modify f i [] = refl
length-modify f zero (b ∷ bs) = refl
length-modify f (suc i) (b ∷ bs) = ap suc (length-modify f i bs)

-- The first turn finds a closed circuit, and takes it.
abbrev taken : LoadBalancer → LoadBalancer × Option (Text × ConnectionGuard)
taken lb =
    let i = lb.cursor % length lb.backends in
    (
      record lb { backends = modify Backend.acquire i lb.backends; cursor = add64 lb.cursor 1 },
      some (url_at i lb.backends, record { index = i }),
    )

loop-closed :
    (now rounds cursor : ℕ) (bs : List Backend)
    → 0 < rounds
    → 0 < length bs
    → AllClosed bs
    → round_robin_loop now (length bs) rounds cursor bs
      ≡ record { backends = bs; cursor = add64 cursor 1; found = some (cursor % length bs) }
unfolding round_robin_loop
loop-closed now zero cursor bs r pos c = elim r [ ]
loop-closed now (suc rounds) cursor bs r pos c =
    rw (probe-closed now (cursor % length bs) bs (mod-lt cursor {m = length bs} pos) c)

select-taken :
    (now : ℕ) (ip : Option IpAddr) (lb : LoadBalancer)
    → lb.strategy ≡ round_robin
    → 0 < length lb.backends
    → AllClosed lb.backends
    → select now ip lb ≡ taken lb
unfolding select
select-taken now ip lb s pos c =
    ground (arith, loop-closed now (length lb.backends) lb.cursor lb.backends pos pos c)

serve-turns :
    (calls : List (ℕ × Option IpAddr)) (lb : LoadBalancer) (n : ℕ)
    → length lb.backends ≡ n
    → lb.strategy ≡ round_robin
    → 0 < length lb.backends
    → AllClosed lb.backends
    → (serve calls lb).1 ≡ map some (turn_slots n (length calls) lb.cursor)
unfolding serve
serve-turns [] lb n e s pos c = refl
serve-turns ((now, ip) ∷ rest) lb n e s pos c =
    let lb' = (taken lb).0 in
    let m = length-modify Backend.acquire (lb.cursor % length lb.backends) lb.backends in
    let ih =
      serve-turns rest lb' n (m ∙ e) s (omega (arith, m))
        (modify-AllClosed (lb.cursor % length lb.backends) lb.backends c) in
    rw (select-taken now ip lb s pos c)
      (ap (λ k. some (lb.cursor % k) ∷ (serve rest lb').1) e ∙ ap (◌∷◌ (some (lb.cursor % n))) ih)

turn_slots-get :
    (n rounds cursor k : ℕ)
    → cursor + rounds ≤ word
    → k < rounds
    → get_elem? (map some (turn_slots n rounds cursor)) k ≡ some (some ((cursor + k) % n))
turn_slots-get n zero cursor k w h = elim h [ ]
turn_slots-get n (suc rounds) cursor zero w h = let e : cursor + 0 ≡ cursor = omega arith in rw e
turn_slots-get n (suc rounds) cursor (suc k) w h =
    let e : add64 cursor 1 + k ≡ cursor + suc k = omega arith in
    rw (← e) (turn_slots-get n rounds (add64 cursor 1) k (omega arith) (omega arith))

-- Round robin with every circuit closed: of consecutive requests, from whatever clients and at
-- whatever times, the one after `k` others goes to the backend `k` places past the cursor, counted
-- around, as long as the cursor does not wrap.
serve-rotation :
    (calls : List (ℕ × Option IpAddr)) (lb : LoadBalancer) (k : ℕ)
    → lb.strategy ≡ round_robin
    → 0 < length lb.backends
    → AllClosed lb.backends
    → lb.cursor + length calls ≤ word
    → k < length calls
    → get_elem? (serve calls lb).1 k ≡ some (some ((lb.cursor + k) % length lb.backends))
serve-rotation calls lb k s pos c w h =
    ap (λ l. get_elem? l k) (serve-turns calls lb (length lb.backends) refl s pos c)
    ∙ turn_slots-get (length lb.backends) (length calls) lb.cursor k w h
