-- ===== src/Balancer/Atomics/Sharing.antt =====
-- How requests that run at once are spread over the backends.
use curf.Common.{
  Pairs, Pairs-get_elem?, Pairs-set, Pairs-remove_at, Pairs-nil, set_same, ℕ, zero, suc, ◌+◌, ◌*◌,
  ◌%◌, ◌≤◌, ◌<◌, ◌≡◌, refl, ap, sym, ◌∙◌, length-map, false, Option, none, some, List, [], ◌∷◌,
  arith, length, subst, if◌then◌else◌, ltb, Option-cases, inl, inr, get_elem?, All, set, remove_at,
}
use curf.Common.Words.{word, add64}
use curf.Common.Address.{IpAddr}
use curf.Config.{round_robin, DomainConfig}
use curf.Backend
use curf.Backend.{Backend}
use curf.Balancer
use curf.Balancer.{LoadBalancer, modify}
use curf.Balancer.Closed.{AreClosed, modify-AreClosed, new-AreClosed}
use curf.Balancer.Tally.{count}
use curf.Balancer.Atomics.{
  Op, add_active, add_cursor, load_circuit, Prog, done, call, apply, read, program, selects,
}
use curf.Balancer.Atomics.Alone.{urls_of}
use curf.Balancer.Atomics.Probe.{length-modify}
use curf.Balancer.Atomics.Threads.{Threads, Event, starts, goes_on, settle, turn, step, run, idle}
use curf.Balancer.Atomics.Turns.{
  turns, count-turns, Holds, acquires, looks, Serves, fresh, holds, program-Serves, taken,
  count-taken-set, count-taken-remove_at, length-taken-set, length-taken-remove_at,
}

settle_lem :
    {i : ℕ} {p : Prog (Option ℕ)}
    → Holds i p
    → (k : ℕ) (t : Threads) → settle k p t ≡ record t { calls = set t.calls k p }
settle_lem (acquires i f e) k t = refl
settle_lem (looks i f v) k t = refl

read-closed :
    (i : ℕ) (bs : List Backend) → AreClosed bs → read (λ b. b.circuit_open) false i bs ≡ false
read-closed i [] c = refl
read-closed zero (b ∷ bs) c = c.0
read-closed (suc i) (b ∷ bs) c = read-closed i bs c.1

-- All circuits are closed, and the turns of the cursor are those of the guards that are out and of
-- the calls that are under way.
record IsTurning (n : ℕ) (hs : List (Option ℕ)) (t : Threads) : Type 0 where
  strategy : t.lb.strategy ≡ round_robin
  sized : length t.lb.backends ≡ n
  closed : AreClosed t.lb.backends
  matched : Pairs (Serves n) hs t.calls
  counted : (j : ℕ) → count j t.guards + count j (taken hs) ≡ count j (turns n t.lb.cursor)
  given : length t.guards + length (taken hs) ≡ t.lb.cursor

module _ (n : ℕ) (hs : List (Option ℕ)) (now k : ℕ) (t : Threads) (v : IsTurning n hs t) where
  turn-IsTurning :
      (h : Option ℕ) (p : Prog (Option ℕ))
      → Serves n h p
      → t.lb.cursor + 1 < word
      → get_elem? hs k ≡ some h
      → (hs' : List (Option ℕ)) × IsTurning n hs' (turn now k p t)
  unfolding apply
  turn-IsTurning h _ (fresh f w) room at =
      let i = t.lb.cursor % n in
      let next : add64 t.lb.cursor 1 ≡ suc t.lb.cursor = omega arith in
      (
        set hs k (some i),
        rw (settle_lem (w t.lb.cursor) k _) (record {
          strategy = v.strategy;
          sized = v.sized;
          closed = v.closed;
          matched = Pairs-set (Serves n) hs t.calls k (some i) _ v.matched (holds (w t.lb.cursor));
          counted = λ j. rw next (ground (arith, v.counted j, count-taken-set j i hs k at));
          given = rw next (omega (arith, v.given, length-taken-set i hs k at));
        }),
      )
  turn-IsTurning h _ (holds (acquires i f e)) room at = (
    remove_at hs k,
    rw (e _) (record {
      strategy = v.strategy;
      sized = length-modify _ i t.lb.backends ∙ v.sized;
      closed = modify-AreClosed _ (λ b. refl) i t.lb.backends v.closed;
      matched = Pairs-remove_at (Serves n) hs t.calls k v.matched;
      counted = λ j. ground (arith, v.counted j, count-taken-remove_at j i hs k at);
      given = omega (arith, v.given, length-taken-remove_at i hs k at);
    }),
  )
  turn-IsTurning h _ (holds (looks i f w)) room at =
      let down = read-closed i t.lb.backends v.closed in
      (
        hs,
        rw (down, settle_lem w k t)
            (record {
              strategy = v.strategy;
              sized = v.sized;
              closed = v.closed;
              matched =
                  subst (λ xs. Pairs (Serves n) xs (set t.calls k (f false)))
                    (set_same hs k (some i) at)
                    (Pairs-set (Serves n) hs t.calls k (some i) _ v.matched (holds w));
              counted = v.counted;
              given = v.given;
            }),
      )

-- A request calls `select`, or a call under way goes on.
pub data IsRequest : Event → Type 0 where
  asking : (ip : Option IpAddr) → IsRequest (starts (selects ip))
  going_on : (now k : ℕ) → IsRequest (goes_on now k)

step-IsTurning :
    (n : ℕ) (hs : List (Option ℕ)) (t : Threads) (e : Event)
    → 0 < n
    → t.lb.cursor + 1 < word
    → IsRequest e
    → IsTurning n hs t
    → (hs' : List (Option ℕ)) × IsTurning n hs' (step t e)
unfolding step
step-IsTurning n hs t _ pos room (asking ip) v =
    let urls = urls_of t.lb.backends in
    let as_many = length-map (λ (b : Backend). b.url) t.lb.backends ∙ v.sized in
    (
      none ∷ hs,
      record {
        strategy = v.strategy;
        sized = v.sized;
        closed = v.closed;
        matched = (
          subst (λ s. Serves n none (program s urls (selects ip))) (sym v.strategy)
              (program-Serves n urls ip as_many pos),
          v.matched,
        );
        counted = v.counted;
        given = v.given;
      },
    )
step-IsTurning n hs t _ pos room (going_on now k) v = elim (Option-cases (get_elem? t.calls k)) [
  | inl gone ↦ (hs, rw (gone, step) v)
  | inr (p, there) ↦
      let (h, held, serves) = Pairs-get_elem? (Serves n) hs t.calls k v.matched there in
      rw (there, step) (turn-IsTurning n hs now k t v h p serves room held)
]

cursor-settle : (k : ℕ) (p : Prog (Option ℕ)) (t : Threads) → (settle k p t).lb.cursor ≡ t.lb.cursor
cursor-settle k (done none) t = refl
cursor-settle k (done (some i)) t = refl
cursor-settle k (call o f) t = refl

cursor-apply : (now : ℕ) (o : Op) (lb : LoadBalancer) → (apply now o lb).0.cursor ≤ lb.cursor + 1
unfolding apply
cursor-apply now (load_circuit i) lb = omega arith
cursor-apply now (Op.load_last i) lb = omega arith
cursor-apply now (Op.load_active i) lb = omega arith
cursor-apply now (Op.add_failures i) lb = omega arith
cursor-apply now (add_active i) lb = omega arith
cursor-apply now (Op.sub_active i) lb = omega arith
cursor-apply now (Op.store_circuit i b) lb = omega arith
cursor-apply now (Op.store_failures i m) lb = omega arith
cursor-apply now (Op.store_last i m) lb = omega arith
cursor-apply now add_cursor lb = omega arith
cursor-apply now Op.clock lb = omega arith

cursor-turn :
    (now k : ℕ) (p : Prog (Option ℕ)) (t : Threads) → (turn now k p t).lb.cursor ≤ t.lb.cursor + 1
cursor-turn now k (done r) t = rw (cursor-settle k (done r) t) (omega arith)
cursor-turn now k (call o f) t = omega (
  arith,
  cursor-settle k (f (apply now o t.lb).1) (record t { lb = (apply now o t.lb).0 }),
  cursor-apply now o t.lb,
)

cursor-step : (t : Threads) (e : Event) → IsRequest e → (step t e).lb.cursor ≤ t.lb.cursor + 1
unfolding step
cursor-step t _ (asking ip) = omega arith
cursor-step t _ (going_on now k) = elim (Option-cases (get_elem? t.calls k)) [
  | inl gone ↦ rw (gone, step) (omega arith)
  | inr (p, there) ↦ rw (there, step) (cursor-turn now k p t)
]

run-IsTurning :
    (n : ℕ) (hs : List (Option ℕ)) (t : Threads) (es : List Event)
    → 0 < n
    → t.lb.cursor + length es < word
    → All IsRequest es
    → IsTurning n hs t
    → (hs' : List (Option ℕ)) × IsTurning n hs' (run t es)
unfolding run
run-IsTurning n hs t [] pos room only v = (hs, v)
run-IsTurning n hs t (e ∷ es) pos room (this, rest) v =
    let (hs', v') = step-IsTurning n hs t e pos (omega arith) this v in
    run-IsTurning n hs' (step t e) es pos (omega (arith, cursor-step t e this)) rest v'

idle-IsTurning :
    (cfg : DomainConfig)
    → cfg.load_balance ≡ round_robin
    → IsTurning (length cfg.backends) [] (idle cfg)
unfolding Balancer.new
idle-IsTurning cfg s = record {
  strategy = s;
  sized = length-map Backend.new cfg.backends;
  closed = new-AreClosed cfg;
  matched = tt;
  counted = λ j. omega arith;
  given = omega arith;
}

-- Requests call `select` of a new balancer with round robin, their atomic operations interleaved in
-- any order, fewer than 2^64 events in all, and nothing else happens. When no call is under way and
-- k * n + r guards have been given, n the number of backends and r at most n, each backend was given
-- k times, and each of the first r once more.
pub run-turns :
    (cfg : DomainConfig) (es : List Event) (j k r : ℕ)
    → cfg.load_balance ≡ round_robin
    → j < length cfg.backends
    → r ≤ length cfg.backends
    → length es < word
    → All IsRequest es
    → (run (idle cfg) es).calls ≡ []
    → length (run (idle cfg) es).guards ≡ k * length cfg.backends + r
    → count j (run (idle cfg) es).guards ≡ k + (if ltb j r then 1 else 0)
unfolding Balancer.new
run-turns cfg es j k r s lt h few only quiet many =
    let n = length cfg.backends in
    let t = run (idle cfg) es in
    let (hs, v) =
      run-IsTurning n [] (idle cfg) es (omega arith) (omega arith) only (idle-IsTurning cfg s) in
    let none_left = Pairs-nil (Serves n) hs (subst (Pairs (Serves n) hs) quiet v.matched) in
    let no_taken = ap (λ xs. count j (taken xs)) none_left in
    let all_given = ap (λ xs. length (taken xs)) none_left in
    let cursor : t.lb.cursor ≡ k * n + r = omega (arith, v.given, all_given, many) in
    let spread =
      subst (λ c. count j t.guards + count j (taken hs) ≡ count j (turns n c)) cursor
        (v.counted j) in
    omega (arith, spread, no_taken, count-turns n j k r lt h)
