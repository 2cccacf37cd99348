-- ===== src/Balancer/Atomics/Observed.antt =====
-- What a program observes while it runs among others: its operations with their answers.
use curf.Common.{
  ℕ, ◌≡◌, refl, Bool, true, false, List, [], ◌∷◌, if◌then◌else◌, leb, inl, inr, ◌⊎◌, subst,
}
use curf.Common.Words.{sub64}
use curf.Backend.{cb_reset_secs}
use curf.Balancer.{LoadBalancer}
use curf.Balancer.Atomics.{
  Op, clock, load_circuit, load_last, Answer, Prog, done, call, ◌>>=◌, apply, is_healthy, among,
  atomic, store_circuit, store_failures, ◌>>◌,
}

abbrev pub Observation : Type 0
Observation = (o : Op) × Answer o

-- The observations of a program, the last first, after those it is given.
unfoldable pub observed :
    {A : Type 0}
    → List Observation
    → List (ℕ × (LoadBalancer → LoadBalancer))
    → Prog A
    → LoadBalancer
    → List Observation
unfolding apply
observed seen turns (done a) lb = seen
observed seen [] (call o k) lb = seen
observed seen ((now, others) ∷ turns) (call o k) lb =
    let (lb', x) = apply now o (others lb) in observed ((o, x) ∷ seen) turns (k x) lb'

pub data Has (o : Op) (x : Answer o) : List Observation → Type 0 where
  here : (seen : List Observation) → Has o x ((o, x) ∷ seen)
  there : (y : Observation) {seen : List Observation} → Has o x seen → Has o x (y ∷ seen)

-- A relation between observations and result that holds whatever the answers are.
abbrev pub Ensures :
    {A : Type 0} → (List Observation → A → Type 0) → List Observation → Prog A → Type 0
Ensures Q seen (done a) = Q seen a
Ensures Q seen (call o k) = (x : Answer o) → Ensures Q ((o, x) ∷ seen) (k x)

done-inj : {A : Type 0} (b a : A) → done b ≡ done a → b ≡ a
done-inj b a e = cc

module _ {A : Type 0} (Q : List Observation → A → Type 0) where
  pub Ensures-among :
      (p : Prog A) (seen : List Observation) (turns : List (ℕ × (LoadBalancer → LoadBalancer)))
      (lb : LoadBalancer) (a : A)
      → Ensures Q seen p
      → among turns p lb ≡ done a
      → Q (observed seen turns p lb) a
  unfolding among observed
  Ensures-among (done b) seen turns lb a h e = subst (Q seen) (done-inj b a e) h
  Ensures-among (call o k) seen [] lb a h e = cc
  Ensures-among (call o k) seen ((now, others) ∷ turns) lb a h e =
      Ensures-among (k (apply now o (others lb)).1) _ turns _ a (h _) e

  pub Ensures-bind :
      {B : Type 0} (p : Prog B) (f : B → Prog A) (seen : List Observation)
      → Ensures (λ s b. Ensures Q s (f b)) seen p
      → Ensures Q seen (p >>= f)
  Ensures-bind (done b) f seen h = h
  Ensures-bind (call o k) f seen h = λ x. Ensures-bind (k x) f _ (h x)

  pub Ensures-mono :
      (R : List Observation → A → Type 0) (p : Prog A) (seen : List Observation)
      → ((s : List Observation) (a : A) → R s a → Q s a)
      → Ensures R seen p
      → Ensures Q seen p
  Ensures-mono R (done a) seen m h = m seen a h
  Ensures-mono R (call o k) seen m h = λ x. Ensures-mono R (k x) _ m (h x)

-- The backend was seen to be up: its circuit was closed, or its last failure was long enough before
-- the time that was read, by the difference that wraps.
abbrev pub SawUp : ℕ → List Observation → Type 0
SawUp i seen =
    Has (load_circuit i) false seen
    ⊎ ((now : ℕ) × (last : ℕ) × Has clock now seen
        × Has (load_last i) last seen
        × (leb cb_reset_secs (sub64 now last) ≡ true))

abbrev pub SawDown : ℕ → List Observation → Type 0
SawDown i seen =
    Has (load_circuit i) true seen
    × ((now : ℕ) × (last : ℕ) × Has clock now seen
        × Has (load_last i) last seen
        × (leb cb_reset_secs (sub64 now last) ≡ false))

abbrev pub Verdict : ℕ → List Observation → Bool → Type 0
Verdict i seen true = SawUp i seen
Verdict i seen false = SawDown i seen

abbrev pub Extends : List Observation → List Observation → Type 0
Extends before after = (o : Op) (x : Answer o) → Has o x before → Has o x after

pub Extends-SawDown :
    (i : ℕ) (before after : List Observation)
    → Extends before after
    → SawDown i before
    → SawDown i after
Extends-SawDown i before after e (c, (now, last, n, l, t)) =
    (e _ _ c, (now, last, e _ _ n, e _ _ l, t))

pub Extends-SawUp :
    (i : ℕ) (before after : List Observation)
    → Extends before after
    → SawUp i before
    → SawUp i after
Extends-SawUp i before after e (inl c) = inl (e _ _ c)
Extends-SawUp i before after e (inr (now, last, n, l, t)) = inr (now, last, e _ _ n, e _ _ l, t)

module _ (i : ℕ) (seen : List Observation) (now last : ℕ) where
  timed-Verdict :
      (late : Bool)
      → leb cb_reset_secs (sub64 now last) ≡ late
      → Ensures
          (λ s ok. Extends seen s × Verdict i s ok)
          ((load_last i, last) ∷ (clock, now) ∷ (load_circuit i, true) ∷ seen)
          (if late
            then (atomic (store_circuit i false) >> (atomic (store_failures i 0) >> done true))
            else done false)
  timed-Verdict true e = λ u w. (
    (λ o x h. there _ (there _ (there _ (there _ (there _ h))))),
    inr (now, last, there _ (there _ (there _ (here _))), there _ (there _ (here _)), e),
  )
  timed-Verdict false e = (
    (λ o x h. there _ (there _ (there _ h))),
    (there _ (there _ (here _)), (now, last, there _ (here _), here _, e)),
  )

-- A probe says what it saw.
pub is_healthy-Verdict :
    (i : ℕ) (seen : List Observation)
    → Ensures (λ s ok. Extends seen s × Verdict i s ok) seen (is_healthy i)
unfolding is_healthy
is_healthy-Verdict i seen false = (λ o x h. there _ h, inl (here _))
is_healthy-Verdict i seen true =
    λ now last. timed-Verdict i seen now last (leb cb_reset_secs (sub64 now last)) refl
