-- ===== src/Balancer/Atomics/Counts.antt =====
-- The counts of active requests while calls are under way.
use curf.Common.{
  ℕ, zero, suc, ◌+◌, ◌≤◌, ◌<◌, ◌≡◌, refl, ap, sym, true, Option, none, some, List, [], ◌∷◌, arith,
  length, subst, ltb, Bool-cases, Option-cases, inl, inr, get_elem?, All, All-set, All-remove_at,
  All-get_elem?,
}
use curf.Common.Words.{word, sub64, add64}
use curf.Config.{DomainConfig}
use curf.Backend.{Backend}
use curf.Balancer.{LoadBalancer, modify}
use curf.Balancer.Leases.{fresh-IsLeased, get_elem?-map}
use curf.Balancer.Tally.{
  count, remove, actives, change, Tallies, Tallies-take, Tallies-drop, length-remove-le,
}
use curf.Balancer.Atomics.{Op, add_active, sub_active, Prog, done, call, apply, release, alone}
use curf.Balancer.Atomics.Alone.{urls_of}
use curf.Balancer.Atomics.Threads.{
  Threads, Event, starts, goes_on, drops, settle, turn, step, run, idle,
}
use curf.Balancer.Atomics.Acquires.{keeps_active, Acquires, misses, takes, works, program-Acquires}

actives-modify :
    (f : Backend → Backend) (g : ℕ → ℕ) (i : ℕ) (bs : List Backend)
    → ((b : Backend) → (f b).active ≡ g b.active)
    → actives (modify f i bs) ≡ change g i (actives bs)
actives-modify f g i [] h = refl
actives-modify f g zero (b ∷ bs) h = ap (λ a. a ∷ actives bs) (h b)
actives-modify f g (suc i) (b ∷ bs) h = ap (λ ns. b.active ∷ ns) (actives-modify f g i bs h)

actives_kept :
    (f : Backend → Backend) (i : ℕ) (bs : List Backend)
    → ((b : Backend) → (f b).active ≡ b.active)
    → actives (modify f i bs) ≡ actives bs
actives_kept f i [] h = refl
actives_kept f zero (b ∷ bs) h = ap (λ a. a ∷ actives bs) (h b)
actives_kept f (suc i) (b ∷ bs) h = ap (λ ns. b.active ∷ ns) (actives_kept f i bs h)

apply_quiet :
    (now : ℕ) (o : Op) (lb : LoadBalancer)
    → keeps_active o ≡ true
    → actives (apply now o lb).0.backends ≡ actives lb.backends
unfolding apply
apply_quiet now (Op.load_circuit i) lb e = refl
apply_quiet now (Op.load_last i) lb e = refl
apply_quiet now (Op.load_active i) lb e = refl
apply_quiet now (Op.add_failures i) lb e = actives_kept _ i lb.backends (λ b. refl)
apply_quiet now (add_active i) lb e = cc
apply_quiet now (sub_active i) lb e = cc
apply_quiet now (Op.store_circuit i v) lb e = actives_kept _ i lb.backends (λ b. refl)
apply_quiet now (Op.store_failures i n) lb e = actives_kept _ i lb.backends (λ b. refl)
apply_quiet now (Op.store_last i n) lb e = actives_kept _ i lb.backends (λ b. refl)
apply_quiet now Op.add_cursor lb e = refl
apply_quiet now Op.clock lb e = refl

-- Each count of active requests is the number of guards that are out, and each call under way still
-- makes one more request active just before it gives a guard.
pub record IsCounting (t : Threads) : Type 0 where
  pub tallies : Tallies t.guards (actives t.lb.backends)
  pub acquires : All Acquires t.calls

abbrev size : Threads → ℕ
size t = length t.calls + length t.guards

settle-IsCounting :
    (k : ℕ) (p : Prog (Option ℕ)) (t : Threads)
    → Acquires p
    → IsCounting t
    → IsCounting (settle k p t)
settle-IsCounting k _ t misses v = record {
  tallies = v.tallies;
  acquires = All-remove_at Acquires t.calls k v.acquires;
}
settle-IsCounting k _ t (takes i f e) v = record {
  tallies = v.tallies;
  acquires = All-set Acquires t.calls k _ v.acquires (takes i f e);
}
settle-IsCounting k _ t (works o f c w) v = record {
  tallies = v.tallies;
  acquires = All-set Acquires t.calls k _ v.acquires (works o f c w);
}

turn-IsCounting :
    (now k : ℕ) (p : Prog (Option ℕ)) (t : Threads)
    → length t.guards + 1 < word
    → Acquires p
    → IsCounting t
    → IsCounting (turn now k p t)
unfolding apply
turn-IsCounting now k _ t room misses v = settle-IsCounting k (done none) t misses v
turn-IsCounting now k _ t room (takes i f e) v =
    let added =
      actives-modify (λ b. record b { active = add64 b.active 1 }) (λ n. add64 n 1) i t.lb.backends
        (λ b. refl) in
    rw (e _) (record {
      tallies =
          subst (Tallies (i ∷ t.guards)) (sym added)
            (Tallies-take i t.guards (actives t.lb.backends) room v.tallies);
      acquires = All-remove_at Acquires t.calls k v.acquires;
    })
turn-IsCounting now k _ t room (works o f c w) v =
    settle-IsCounting k (f (apply now o t.lb).1) (record t { lb = (apply now o t.lb).0 }) (w _)
      (record {
        tallies = subst (Tallies t.guards) (sym (apply_quiet now o t.lb c)) v.tallies;
        acquires = v.acquires;
      })

step-IsCounting :
    (t : Threads) (e : Event) → length t.guards + 1 < word → IsCounting t → IsCounting (step t e)
unfolding step alone release apply
step-IsCounting t (starts m) room v = record {
  tallies = v.tallies;
  acquires = (program-Acquires t.lb.strategy (urls_of t.lb.backends) m, v.acquires);
}
step-IsCounting t (goes_on now k) room v = elim (Option-cases (get_elem? t.calls k)) [
  | inl gone ↦ rw (gone, step) v
  | inr (p, there) ↦
      rw (there, step)
        (turn-IsCounting now k p t room (All-get_elem? Acquires t.calls k v.acquires there) v)
]
step-IsCounting t (drops i) room v = elim (Bool-cases (ltb 0 (count i t.guards))) [
  | inl out ↦
      let gone =
        actives-modify (λ b. record b { active = sub64 b.active 1 }) (λ n. sub64 n 1) i
          t.lb.backends (λ b. refl) in
      rw (out, step)
        (record {
          tallies = subst (Tallies (remove i t.guards)) (sym gone) (
              Tallies-drop i t.guards (actives t.lb.backends) (omega arith) (ground arith)
                v.tallies);
          acquires = v.acquires;
        })
  | inr none_out ↦ rw (none_out, step) v
]

length-settle :
    (k : ℕ) (p : Prog (Option ℕ)) (t : Threads) → length (settle k p t).guards ≤ length t.guards + 1
length-settle k (done none) t = omega arith
length-settle k (done (some i)) t = omega arith
length-settle k (call o f) t = omega arith

length-turn :
    (now k : ℕ) (p : Prog (Option ℕ)) (t : Threads)
    → length (turn now k p t).guards ≤ length t.guards + 1
length-turn now k (done r) t = length-settle k (done r) t
length-turn now k (call o f) t =
    length-settle k (f (apply now o t.lb).1) (record t { lb = (apply now o t.lb).0 })

length-step : (t : Threads) (e : Event) → length (step t e).guards ≤ length t.guards + 1
unfolding step
length-step t (starts m) = omega arith
length-step t (goes_on now k) = elim (Option-cases (get_elem? t.calls k)) [
  | inl gone ↦ rw (gone, step) (omega arith)
  | inr (p, there) ↦ rw (there, step) (length-turn now k p t)
]
length-step t (drops i) = ground (arith, length-remove-le i t.guards)

run-IsCounting :
    (t : Threads) (es : List Event)
    → length t.guards + length es < word
    → IsCounting t
    → IsCounting (run t es)
unfolding run
run-IsCounting t [] room v = v
run-IsCounting t (e ∷ es) room v =
    run-IsCounting (step t e) es (omega (arith, length-step t e))
      (step-IsCounting t e (omega arith) v)

-- Calls of the balancer's methods run side by side, their atomic operations interleaved in any order,
-- and guards are dropped in between, fewer than 2^64 events in all. Then at every moment, also while
-- calls are under way, each backend's count of active requests is the number of its guards that are
-- out.
pub run-counts :
    (cfg : DomainConfig) (es : List Event) (j : ℕ) (b : Backend)
    → length es < word
    → get_elem? (run (idle cfg) es).lb.backends j ≡ some b
    → b.active ≡ count j (run (idle cfg) es).guards
run-counts cfg es j b few at =
    let v =
      run-IsCounting (idle cfg) es (omega arith)
        (record { tallies = (fresh-IsLeased cfg).tallies; acquires = tt }) in
    v.tallies j b.active (get_elem?-map (run (idle cfg) es).lb.backends j b at)
