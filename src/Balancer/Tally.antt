-- ===== src/Balancer/Tally.antt =====
-- Counts of active requests against the guards that are out, as lists of numbers.
use curf.Common.{
  ℕ, zero, suc, ◌+◌, ◌-◌, ◌≤◌, ◌<◌, ◌≡◌, refl, ap, sym, ◌∙◌, ◌⊎◌, inl, inr, some, List, [], ◌∷◌,
  map, arith, length, if◌then◌else◌, subst, Text, nat_beq, get_elem?, ◌≢◌,
}
use curf.Common.Words.{word, add64, sub64}
use curf.Backend.{Backend}
use curf.Balancer.{at_url}
use curf.Balancer.View.{View, views, bump}

abbrev pub count : ℕ → List ℕ → ℕ
count i [] = 0
count i (j ∷ js) = if nat_beq i j then suc (count i js) else count i js

abbrev pub remove : ℕ → List ℕ → List ℕ
remove i [] = []
remove i (j ∷ js) = if nat_beq i j then js else j ∷ remove i js

abbrev pub actives : List Backend → List ℕ
actives = map λ b. b.active

abbrev pub change : (ℕ → ℕ) → ℕ → List ℕ → List ℕ
change f i [] = []
change f zero (a ∷ ns) = f a ∷ ns
change f (suc i) (a ∷ ns) = a ∷ change f i ns

abbrev pub Tallies : List ℕ → List ℕ → Type 0
Tallies gs ns = (j a : ℕ) → get_elem? ns j ≡ some a → a ≡ count j gs

pub actives-views : (now : ℕ) (bs : List Backend) → map (λ v. v.active) (views now bs) ≡ actives bs
actives-views now [] = refl
actives-views now (b ∷ bs) = ap (◌∷◌ b.active) (actives-views now bs)

pub change-bump :
    (f : ℕ → ℕ) (i : ℕ) (vs : List View)
    → map (λ v. v.active) (bump f i vs) ≡ change f i (map (λ v. v.active) vs)
change-bump f i [] = refl
change-bump f zero (v ∷ vs) = refl
change-bump f (suc i) (v ∷ vs) = ap (◌∷◌ v.active) (change-bump f i vs)

-- What shows of a bumped view shows of the counts.
pub actives_of_bump :
    (now i : ℕ) (f : ℕ → ℕ) (bs bs' : List Backend)
    → views now bs' ≡ bump f i (views now bs)
    → actives bs' ≡ change f i (actives bs)
actives_of_bump now i f bs bs' e =
    sym (actives-views now bs')
    ∙ ap (map (λ v. v.active)) e
    ∙ change-bump f i (views now bs)
    ∙ ap (change f i) (actives-views now bs)

pub get_elem?-change :
    (f : ℕ → ℕ) (i : ℕ) (ns : List ℕ) (j a : ℕ)
    → get_elem? (change f i ns) j ≡ some a
    → ((i ≢ j) × (get_elem? ns j ≡ some a))
      ⊎ ((i ≡ j) × ((a' : ℕ) × (get_elem? ns j ≡ some a') × (a ≡ f a')))
get_elem?-change f i [] j a e = cc
get_elem?-change f zero (x ∷ ns) zero a e = inr (refl, (x, refl, ground arith))
get_elem?-change f zero (x ∷ ns) (suc j) a e = inl (omega arith, e)
get_elem?-change f (suc i) (x ∷ ns) zero a e = inl (omega arith, e)
get_elem?-change f (suc i) (x ∷ ns) (suc j) a e = elim (get_elem?-change f i ns j a e) [
  | inl (n, h) ↦ inl (omega arith, h)
  | inr (s, h) ↦ inr (ap suc s, h)
]

pub count-le-length : (i : ℕ) (gs : List ℕ) → count i gs ≤ length gs
count-le-length i [] = omega arith
count-le-length i (g ∷ gs) = ground (arith, count-le-length i gs)

pub count-remove :
    (i j : ℕ) (gs : List ℕ)
    → count j (remove i gs) ≡ (if nat_beq i j then count j gs - 1 else count j gs)
count-remove i j [] = ground arith
count-remove i j (g ∷ gs) = ground (arith, count-remove i j gs)

pub length-remove : (i : ℕ) (gs : List ℕ) → 0 < count i gs → length gs ≡ suc (length (remove i gs))
length-remove i [] h = absurd (omega arith)
length-remove i (g ∷ gs) h = ground (arith, length-remove i gs)

pub length-remove-le : (i : ℕ) (gs : List ℕ) → length (remove i gs) ≤ length gs
length-remove-le i [] = omega arith
length-remove-le i (g ∷ gs) = ground (arith, length-remove-le i gs)

pub Tallies-take :
    (i : ℕ) (gs ns : List ℕ)
    → length gs + 1 < word
    → Tallies gs ns
    → Tallies (i ∷ gs) (change (λ n. add64 n 1) i ns)
Tallies-take i gs ns w t j a e = elim (get_elem?-change (λ n. add64 n 1) i ns j a e) [
  | inl (n, h) ↦ ground (arith, t j a h)
  | inr (s, (a', h, e')) ↦ ground (arith, t j a' h, count-le-length j gs)
]

pub Tallies-drop :
    (i : ℕ) (gs ns : List ℕ)
    → length gs < word
    → 0 < count i gs
    → Tallies gs ns
    → Tallies (remove i gs) (change (λ n. sub64 n 1) i ns)
Tallies-drop i gs ns w out t j a e = elim (get_elem?-change (λ n. sub64 n 1) i ns j a e) [
  | inl (n, h) ↦ ground (arith, t j a h, count-remove i j gs)
  | inr (s, (a', h, e')) ↦ ground (
    arith,
    t j a' h,
    count-remove i j gs,
    count-le-length j gs,
    subst (λ k. 0 < count k gs) s out,
  )
]

pub actives-at_url :
    (url : Text) (f : Backend → Backend) (bs : List Backend)
    → ((b : Backend) → (f b).active ≡ b.active)
    → actives (at_url url f bs) ≡ actives bs
unfolding at_url
actives-at_url url f [] h = refl
actives-at_url url f (b ∷ bs) h = ground (arith, h b, actives-at_url url f bs h)
