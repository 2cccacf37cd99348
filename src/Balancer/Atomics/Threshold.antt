-- ===== src/Balancer/Atomics/Threshold.antt =====
-- What opens a circuit: never fewer than five failures that were reported, whatever the order of the
-- atomic operations.
use curf.Common.{
  ℕ, suc, ◌+◌, ◌≤◌, ◌<◌, ◌≡◌, refl, Option, none, some, List, [], ◌∷◌, Text, arith, map, subst, ltb,
  Bool-cases, Option-cases, inl, inr, get_elem?, set, remove_at, Pairs, Pairs-get_elem?, Pairs-set,
  Pairs-remove_at,
}
use curf.Config.{DomainConfig}
use curf.Backend
use curf.Backend.{Backend, cb_threshold, cb_reset_secs}
use curf.Balancer
use curf.Balancer.{LoadBalancer, modify, min_key, hash_of}
use curf.Balancer.Closed.{AreClosed, modify-AreClosed, new-AreClosed}
use curf.Balancer.Tally.{count}
use curf.Balancer.Atomics.{add_failures, Prog, done, call, apply, read, release, alone}
use curf.Balancer.Atomics.Alone.{urls_of}
use curf.Balancer.Atomics.Threads.{
  Threads, Event, starts, goes_on, drops, settle, turn, step, run, idle,
}
use curf.Balancer.Atomics.Reports.{Reports, ends, adds, calm, credit, program-Reports}
use curf.Balancer.Atomics.Low.{
  sum, sum-set, sum-remove_at, AreLow, AreLow-modify, AreLow-count, read-AreLow, apply-AreClosed,
  apply-AreLow,
}

-- All circuits are closed, and what the backends have counted and the calls under way may still count
-- is within the number of failures that were reported.
record IsBelow (m : ℕ) (cs : List ℕ) (t : Threads) : Type 0 where
  reached : ℕ
  matched : Pairs Reports cs t.calls
  closed : AreClosed t.lb.backends
  low : AreLow reached t.lb.backends
  budget : reached + sum cs ≤ m

settle-IsBelow :
    (m r c c' k : ℕ) (cs : List ℕ) (p : Prog (Option ℕ)) (t : Threads)
    → get_elem? cs k ≡ some c
    → Pairs Reports cs t.calls
    → AreClosed t.lb.backends
    → AreLow r t.lb.backends
    → r + sum (set cs k c') ≤ m
    → Reports c' p
    → (cs' : List ℕ) × IsBelow m cs' (settle k p t)
settle-IsBelow m r c c' k cs (done none) t at pairs shut low within v = (
  remove_at cs k,
  record {
    reached = r;
    matched = Pairs-remove_at Reports cs t.calls k pairs;
    closed = shut;
    low = low;
    budget = omega (arith, within, sum-set cs k c c' at, sum-remove_at cs k c at);
  },
)
settle-IsBelow m r c c' k cs (done (some i)) t at pairs shut low within v = (
  remove_at cs k,
  record {
    reached = r;
    matched = Pairs-remove_at Reports cs t.calls k pairs;
    closed = shut;
    low = low;
    budget = omega (arith, within, sum-set cs k c c' at, sum-remove_at cs k c at);
  },
)
settle-IsBelow m r c c' k cs (call o f) t at pairs shut low within v = (
  set cs k c',
  record {
    reached = r;
    matched = Pairs-set Reports cs t.calls k c' (call o f) pairs v;
    closed = shut;
    low = low;
    budget = within;
  },
)

turn-IsBelow :
    (m now k c : ℕ) (cs : List ℕ) (p : Prog (Option ℕ)) (t : Threads)
    → m ≤ 4
    → get_elem? cs k ≡ some c
    → Reports c p
    → IsBelow m cs t
    → (cs' : List ℕ) × IsBelow m cs' (turn now k p t)
unfolding apply
turn-IsBelow m now k c cs _ t few at (ends a) v =
    settle-IsBelow m v.reached c c k cs (done a) t at v.matched v.closed v.low
      (omega (arith, v.budget, sum-set cs k c c at)) (ends a)
turn-IsBelow m now k _ cs _ t few at (adds {c} i f w) v =
    let x = read (λ b. b.failures) 0 i t.lb.backends in
    let spent = sum-set cs k (suc c) c at in
    let left = sum-remove_at cs k (suc c) at in
    let lower : x < 4 =
      omega (arith, read-AreLow v.reached i t.lb.backends v.low, v.budget, left) in
    settle-IsBelow m (suc v.reached) (suc c) c k cs (f x)
      (record t { lb = (apply now (add_failures i) t.lb).0 }) at v.matched
      (modify-AreClosed _ (λ b. refl) i t.lb.backends v.closed)
      (AreLow-count v.reached i t.lb.backends (omega (arith, v.budget)) v.low)
      (omega (arith, v.budget, spent)) (w x lower)
turn-IsBelow m now k c cs _ t few at (calm o f e w) v =
    settle-IsBelow m v.reached c c k cs (f (apply now o t.lb).1)
      (record t { lb = (apply now o t.lb).0 }) at v.matched (apply-AreClosed now o t.lb e v.closed)
      (apply-AreLow v.reached now o t.lb e v.low) (omega (arith, v.budget, sum-set cs k c c at))
      (w _)

-- The failures that an event reports.
abbrev pub reported : Event → ℕ
reported (starts m) = credit m
reported (goes_on now k) = 0
reported (drops i) = 0

abbrev pub failures_in : List Event → ℕ
failures_in [] = 0
failures_in (e ∷ es) = reported e + failures_in es

step-IsBelow :
    (m : ℕ) (cs : List ℕ) (t : Threads) (e : Event)
    → m + reported e ≤ 4
    → IsBelow m cs t
    → (cs' : List ℕ) × IsBelow (m + reported e) cs' (step t e)
unfolding step alone release apply
step-IsBelow m cs t (starts method) few v = (
  credit method ∷ cs,
  record {
    reached = v.reached;
    matched = (program-Reports t.lb.strategy (urls_of t.lb.backends) method, v.matched);
    closed = v.closed;
    low = v.low;
    budget = omega (arith, v.budget);
  },
)
step-IsBelow m cs t (goes_on now k) few v =
    let e : m ≡ m + 0 = omega arith in
    subst (λ n. (cs' : List ℕ) × IsBelow n cs' (step t (goes_on now k))) e
      (elim (Option-cases (get_elem? t.calls k)) [
        | inl gone ↦ (cs, rw (gone, step) v)
        | inr (p, there) ↦
            let (c, at, w) = Pairs-get_elem? Reports cs t.calls k v.matched there in
            rw (there, step) (turn-IsBelow m now k c cs p t (omega arith) at w v)
      ])
step-IsBelow m cs t (drops i) few v = elim (Bool-cases (ltb 0 (count i t.guards))) [
  | inl out ↦ (
    cs,
    rw (out, step)
        (record {
          reached = v.reached;
          matched = v.matched;
          closed = modify-AreClosed _ (λ b. refl) i t.lb.backends v.closed;
          low = AreLow-modify v.reached _ i t.lb.backends (λ b h. h) v.low;
          budget = omega (arith, v.budget);
        }),
  )
  | inr none_out ↦ (
    cs,
    rw (none_out, step)
        (record {
          reached = v.reached;
          matched = v.matched;
          closed = v.closed;
          low = v.low;
          budget = omega (arith, v.budget);
        }),
  )
]

run-IsBelow :
    (m : ℕ) (cs : List ℕ) (t : Threads) (es : List Event)
    → m + failures_in es ≤ 4
    → IsBelow m cs t
    → AreClosed (run t es).lb.backends
unfolding run
run-IsBelow m cs t [] few v = v.closed
run-IsBelow m cs t (e ∷ es) few v =
    let (cs', v') = step-IsBelow m cs t e (omega arith) v in
    run-IsBelow (m + reported e) cs' (step t e) es (omega arith) v'

new-AreLow : (urls : List Text) → AreLow 0 (map Backend.new urls)
unfolding Backend.new
new-AreLow [] = tt
new-AreLow (u ∷ us) = (omega arith, new-AreLow us)

-- Calls of the methods of a new balancer run side by side, their atomic operations interleaved in any
-- order. While at most four of the calls report a failure, no circuit is open.
pub run-AreClosed_below :
    (cfg : DomainConfig) (es : List Event)
    → failures_in es ≤ 4
    → AreClosed (run (idle cfg) es).lb.backends
unfolding Balancer.new
run-AreClosed_below cfg es few = run-IsBelow 0 [] (idle cfg) es (omega arith) (record {
  reached = 0;
  matched = tt;
  closed = new-AreClosed cfg;
  low = new-AreLow cfg.backends;
  budget = omega arith;
})
