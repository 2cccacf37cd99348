-- ===== src/Balancer/Atomics/Sound.antt =====
-- What the loops of the three strategies saw of the backends, when other threads run between their
-- operations.
use native.Mathlib.Nat.{mod-lt}
use curf.Common.{
  ℕ, zero, suc, ◌+◌, ◌%◌, ◌<◌, ◌≡◌, refl, Bool, true, false, Option, none, some, List, arith, ltb,
  All, Bool-cases, inl, inr,
}
use curf.Balancer.{min_key}
use curf.Balancer.Visits.{hash_slots}
use curf.Balancer.Atomics.{
  Prog, done, call, ◌>>=◌, is_healthy, round_robin_from, least_from, ip_hash_from,
}
use curf.Balancer.Atomics.Observed.{
  Observation, there, Ensures, Ensures-bind, Ensures-mono, SawUp, SawDown, Verdict, Extends,
  Extends-SawUp, Extends-SawDown, is_healthy-Verdict,
}

-- What follows a probe is told what the probe saw.
Ensures-probe :
    {A : Type 0} (R : List Observation → A → Type 0) (k : ℕ) (f : Bool → Prog A)
    (seen : List Observation)
    → ((s : List Observation) → Extends seen s → SawUp k s → Ensures R s (f true))
    → ((s : List Observation) → Extends seen s → SawDown k s → Ensures R s (f false))
    → Ensures R seen (is_healthy k >>= f)
Ensures-probe R k f seen up down = Ensures-bind R (is_healthy k) f seen (
    Ensures-mono (λ s ok. Ensures R s (f ok)) (λ s ok. Extends seen s × Verdict k s ok)
      (is_healthy k) seen after (is_healthy-Verdict k seen))
  where
    after :
        (s : List Observation) (ok : Bool) → Extends seen s × Verdict k s ok → Ensures R s (f ok)
    after s true v = up s v.0 v.1
    after s false v = down s v.0 v.1

-- A backend is given only when it was seen to be up.
abbrev pub Sound : ℕ → (List Observation → Type 0) → List Observation → Option ℕ → Type 0
Sound n down s none = down s
Sound n down s (some j) = (j < n) × SawUp j s

Sound-mono :
    (n : ℕ) (before after : List Observation → Type 0) (s : List Observation) (a : Option ℕ)
    → (before s → after s)
    → Sound n before s a
    → Sound n after s a
Sound-mono n before after s none f v = f v
Sound-mono n before after s (some j) f v = v

pub Ensures-Sound :
    (n : ℕ) (before after : List Observation → Type 0) (p : Prog (Option ℕ))
    (seen : List Observation)
    → ((s : List Observation) → Extends seen s → before s → after s)
    → Ensures (Sound n before) seen p
    → Ensures (Sound n after) seen p
Ensures-Sound n before after (done a) seen f h =
    Sound-mono n before after seen a (f seen (λ o x h. h)) h
Ensures-Sound n before after (call o k) seen f h =
    λ x. Ensures-Sound n before after (k x) _ (λ s e. f s (λ o' x' h'. e o' x' (there _ h'))) (h x)

pub turns-Sound :
    (n rounds : ℕ) (seen : List Observation)
    → 0 < n
    → Ensures (Sound n (λ s. Unit {0})) seen (round_robin_from n rounds)
unfolding round_robin_from
turns-Sound n zero seen h = tt
turns-Sound n (suc rounds) seen h = λ cursor.
    Ensures-probe (Sound n (λ s. Unit {0})) (cursor % n) _ _ (λ s e v. (mod-lt cursor {m = n} h, v))
      (λ s e v. turns-Sound n rounds s h)

-- All of these backends were seen to be down.
abbrev pub SawAllDown : List ℕ → List Observation → Type 0
SawAllDown slots s = All (λ k. SawDown k s) slots

pub slots-Sound :
    (n hash rounds i : ℕ) (seen : List Observation)
    → 0 < n
    → Ensures
        (Sound n (SawAllDown (hash_slots n hash rounds i)))
        seen
        (ip_hash_from n hash rounds i)
unfolding ip_hash_from
slots-Sound n hash zero i seen h = tt
slots-Sound n hash (suc rounds) i seen h =
    Ensures-probe (Sound n (SawAllDown (hash_slots n hash (suc rounds) i))) ((hash + i) % n) _ _
      (λ s e v. (mod-lt (hash + i) {m = n} h, v))
      (λ s e v.
        Ensures-Sound n (SawAllDown (hash_slots n hash rounds (suc i))) _ _ s
          (λ s' e' d. (Extends-SawDown ((hash + i) % n) s s' e' v, d))
          (slots-Sound n hash rounds (suc i) s h))

-- The best so far was seen to be up.
abbrev IsBest : ℕ → Option (ℕ × ℕ) → List Observation → Type 0
IsBest n none s = Unit {0}
IsBest n (some c) s = (c.0 < n) × SawUp c.0 s

Extends-IsBest :
    (n : ℕ) (best : Option (ℕ × ℕ)) (before after : List Observation)
    → Extends before after
    → IsBest n best before
    → IsBest n best after
Extends-IsBest n none before after e b = tt
Extends-IsBest n (some c) before after e (h, v) = (h, Extends-SawUp c.0 before after e v)

min_key-IsBest :
    (n : ℕ) (best : Option (ℕ × ℕ)) (c : ℕ × ℕ) (s : List Observation)
    → IsBest n best s
    → c.0 < n
    → SawUp c.0 s
    → IsBest n (min_key best c) s
min_key-IsBest n none c s b h v = (h, v)
min_key-IsBest n (some m) c s b h v = elim (Bool-cases (ltb c.1 m.1)) [
  | inl less ↦ rw less (h, v)
  | inr more ↦ rw more b
]

min_key-some : (best : Option (ℕ × ℕ)) (c : ℕ × ℕ) → ¬ (min_key best c ≡ none)
min_key-some none c e = cc
min_key-some (some m) c e = elim (Bool-cases (ltb c.1 m.1)) [ inl less ↦ cc | inr more ↦ cc ]

-- Every backend from `i` on was seen to be down.
abbrev pub SawDownFrom : ℕ → ℕ → List Observation → Type 0
SawDownFrom zero i s = Unit {0}
SawDownFrom (suc rest) i s = SawDown i s × SawDownFrom rest (suc i) s

pub least-Sound :
    (n rest i : ℕ) (best : Option (ℕ × ℕ)) (seen : List Observation)
    → i + rest ≡ n
    → IsBest n best seen
    → Ensures (Sound n (λ s. (best ≡ none) × SawDownFrom rest i s)) seen (least_from rest i best)
unfolding least_from
least-Sound n zero i none seen h b = (refl, tt)
least-Sound n zero i (some c) seen h b = b
least-Sound n (suc rest) i best seen h b =
    Ensures-probe (Sound n (λ s. (best ≡ none) × SawDownFrom (suc rest) i s)) i _ _
      (λ s e v active.
        Ensures-Sound n (λ s. (min_key best (i, active) ≡ none) × SawDownFrom rest (suc i) s) _ _ _
          (λ s' e' d. absurd (min_key-some best (i, active) d.0))
          (least-Sound n rest (suc i) (min_key best (i, active)) _ (omega arith) (
            min_key-IsBest n best (i, active) _
              (Extends-IsBest n best _ _ (λ o x w. there _ (e o x w)) b) (omega arith)
              (Extends-SawUp i _ _ (λ o x w. there _ w) v))))
      (λ s e v.
        Ensures-Sound n (λ s. (best ≡ none) × SawDownFrom rest (suc i) s) _ _ s
          (λ s' e' d. (d.0, (Extends-SawDown i s s' e' v, d.1)))
          (least-Sound n rest (suc i) best s (omega arith) (Extends-IsBest n best _ _ e b)))
