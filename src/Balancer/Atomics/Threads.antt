-- ===== src/Balancer/Atomics/Threads.antt =====
-- Many calls of a balancer's methods at once: in each step one of them makes its next atomic
-- operation. A call that is done gives its guard, if it has one, to `guards`, from where it is
-- dropped.
use curf.Common.{
  ℕ, Option, none, some, List, [], ◌∷◌, if◌then◌else◌, ltb, get_elem?, set, remove_at,
}
use curf.Config.{DomainConfig}
use curf.Balancer
use curf.Balancer.{LoadBalancer}
use curf.Balancer.Tally.{count, remove}
use curf.Balancer.Atomics.{Prog, done, call, apply, Method, program, release, alone}
use curf.Balancer.Atomics.Alone.{urls_of}

pub record Threads : Type 0 where
  pub lb : LoadBalancer
  pub calls : List (Prog (Option ℕ))
  pub guards : List ℕ

-- A method is called; a call goes on, at a time; a guard of a backend is dropped.
pub data Event : Type 0 where
  starts : Method → Event
  goes_on : (now call : ℕ) → Event
  drops : ℕ → Event

-- What is left of call `k` after its turn.
abbrev pub settle : ℕ → Prog (Option ℕ) → Threads → Threads
settle k (done none) t = record t { calls = remove_at t.calls k }
settle k (done (some i)) t = record t { calls = remove_at t.calls k; guards = i ∷ t.guards }
settle k (call o f) t = record t { calls = set t.calls k (call o f) }

abbrev pub turn : ℕ → ℕ → Prog (Option ℕ) → Threads → Threads
turn now k (done r) t = settle k (done r) t
turn now k (call o f) t = let (lb', x) = apply now o t.lb in settle k (f x) (record t { lb = lb' })

unfoldable pub step : Threads → Event → Threads
step t (starts m) = record t { calls = program t.lb.strategy (urls_of t.lb.backends) m ∷ t.calls }
step t (goes_on now k) = elim (get_elem? t.calls k) [ none ↦ t | some p ↦ turn now k p t ]
step t (drops i) =
    if ltb 0 (count i t.guards)
    then record t { lb = (alone 0 (release i) t.lb).0; guards = remove i t.guards }
    else t

unfoldable pub run : Threads → List Event → Threads
run t [] = t
run t (e ∷ es) = run (step t e) es

abbrev pub idle : DomainConfig → Threads
idle cfg = record { lb = Balancer.new cfg; calls = []; guards = [] }
