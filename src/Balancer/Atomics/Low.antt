-- ===== src/Balancer/Atomics/Low.antt =====
-- What an operation does to the counts of failures and to the circuits.
use curf.Common.{
  ℕ, zero, suc, ◌+◌, ◌≤◌, ◌<◌, ◌≡◌, refl, true, false, some, List, [], ◌∷◌, arith, get_elem?, All,
  set, remove_at,
}
use curf.Common.Words.{word, add64}
use curf.Backend.{Backend}
use curf.Balancer.{LoadBalancer, modify}
use curf.Balancer.Closed.{AreClosed, modify-AreClosed}
use curf.Balancer.Atomics.{Op, add_failures, store_circuit, store_failures, apply, read}
use curf.Balancer.Atomics.Reports.{is_calm}

abbrev pub sum : List ℕ → ℕ
sum [] = 0
sum (c ∷ cs) = c + sum cs

pub sum-set :
    (cs : List ℕ) (k c d : ℕ) → get_elem? cs k ≡ some c → sum (set cs k d) + c ≡ sum cs + d
sum-set [] k c d e = cc
sum-set (x ∷ cs) zero c d e = let same : x ≡ c = (ground arith) in omega arith
sum-set (x ∷ cs) (suc k) c d e = omega (arith, sum-set cs k c d e)

pub sum-remove_at :
    (cs : List ℕ) (k c : ℕ) → get_elem? cs k ≡ some c → sum (remove_at cs k) + c ≡ sum cs
sum-remove_at [] k c e = cc
sum-remove_at (x ∷ cs) zero c e = let same : x ≡ c = (ground arith) in omega arith
sum-remove_at (x ∷ cs) (suc k) c e = omega (arith, sum-remove_at cs k c e)

-- Each backend has counted at most so many failures.
abbrev pub AreLow : ℕ → List Backend → Type 0
AreLow m = All λ b. b.failures ≤ m

AreLow-le : (m n : ℕ) (bs : List Backend) → m ≤ n → AreLow m bs → AreLow n bs
AreLow-le m n [] h l = tt
AreLow-le m n (b ∷ bs) h l = (omega (arith, l.0), AreLow-le m n bs h l.1)

pub AreLow-modify :
    (m : ℕ) (f : Backend → Backend) (i : ℕ) (bs : List Backend)
    → ((b : Backend) → b.failures ≤ m → (f b).failures ≤ m)
    → AreLow m bs
    → AreLow m (modify f i bs)
AreLow-modify m f i [] h l = tt
AreLow-modify m f zero (b ∷ bs) h l = (h b l.0, l.1)
AreLow-modify m f (suc i) (b ∷ bs) h l = (l.0, AreLow-modify m f i bs h l.1)

pub AreLow-count :
    (m i : ℕ) (bs : List Backend)
    → m + 1 < word
    → AreLow m bs
    → AreLow (suc m) (modify (λ b. record b { failures = add64 b.failures 1 }) i bs)
AreLow-count m i bs room l = AreLow-raise bs i l
  where
    AreLow-raise :
        (bs : List Backend) (i : ℕ)
        → AreLow m bs
        → AreLow (suc m) (modify (λ b. record b { failures = add64 b.failures 1 }) i bs)
    AreLow-raise [] i l = tt
    AreLow-raise (b ∷ bs) zero l = (omega (arith, l.0), AreLow-le m (suc m) bs (omega arith) l.1)
    AreLow-raise (b ∷ bs) (suc i) l = (omega (arith, l.0), AreLow-raise bs i l.1)

pub read-AreLow : (m i : ℕ) (bs : List Backend) → AreLow m bs → read (λ b. b.failures) 0 i bs ≤ m
read-AreLow m i [] l = omega arith
read-AreLow m zero (b ∷ bs) l = l.0
read-AreLow m (suc i) (b ∷ bs) l = read-AreLow m i bs l.1

closes :
    (i : ℕ) (bs : List Backend)
    → AreClosed bs
    → AreClosed (modify (λ b. record b { circuit_open = false }) i bs)
closes i [] c = tt
closes zero (b ∷ bs) c = (refl, c.1)
closes (suc i) (b ∷ bs) c = (c.0, closes i bs c.1)

pub apply-AreClosed :
    (now : ℕ) (o : Op) (lb : LoadBalancer)
    → is_calm o ≡ true
    → AreClosed lb.backends
    → AreClosed (apply now o lb).0.backends
unfolding apply
apply-AreClosed now (Op.load_circuit i) lb e v = v
apply-AreClosed now (Op.load_last i) lb e v = v
apply-AreClosed now (Op.load_active i) lb e v = v
apply-AreClosed now (add_failures i) lb e v = cc
apply-AreClosed now (Op.add_active i) lb e v = modify-AreClosed _ (λ b. refl) i lb.backends v
apply-AreClosed now (Op.sub_active i) lb e v = modify-AreClosed _ (λ b. refl) i lb.backends v
apply-AreClosed now (store_circuit i true) lb e v = cc
apply-AreClosed now (store_circuit i false) lb e v = closes i lb.backends v
apply-AreClosed now (store_failures i n) lb e v = modify-AreClosed _ (λ b. refl) i lb.backends v
apply-AreClosed now (Op.store_last i n) lb e v = modify-AreClosed _ (λ b. refl) i lb.backends v
apply-AreClosed now Op.add_cursor lb e v = v
apply-AreClosed now Op.clock lb e v = v

pub apply-AreLow :
    (m now : ℕ) (o : Op) (lb : LoadBalancer)
    → is_calm o ≡ true
    → AreLow m lb.backends
    → AreLow m (apply now o lb).0.backends
unfolding apply
apply-AreLow m now (Op.load_circuit i) lb e v = v
apply-AreLow m now (Op.load_last i) lb e v = v
apply-AreLow m now (Op.load_active i) lb e v = v
apply-AreLow m now (add_failures i) lb e v = cc
apply-AreLow m now (Op.add_active i) lb e v = AreLow-modify m _ i lb.backends (λ b h. h) v
apply-AreLow m now (Op.sub_active i) lb e v = AreLow-modify m _ i lb.backends (λ b h. h) v
apply-AreLow m now (store_circuit i true) lb e v = cc
apply-AreLow m now (store_circuit i false) lb e v = AreLow-modify m _ i lb.backends (λ b h. h) v
apply-AreLow m now (store_failures i n) lb e v =
    AreLow-modify m _ i lb.backends (λ b h. ground arith) v
apply-AreLow m now (Op.store_last i n) lb e v = AreLow-modify m _ i lb.backends (λ b h. h) v
apply-AreLow m now Op.add_cursor lb e v = v
apply-AreLow m now Op.clock lb e v = v
