-- ===== src/Balancer/Closed.antt =====
-- Requests never open a circuit: a probe, a choice, a guard that is dropped and a success leave
-- closed circuits closed.
use curf.Common.{
  ℕ, zero, suc, ◌≡◌, refl, false, Option, List, [], ◌∷◌, map, Text, arith, All, Bool-cases, inl,
  inr,
}
use curf.Common.Address.{IpAddr}
use curf.Common.Equality.{◌==◌, list_key, nat_key}
use curf.Config.{DomainConfig}
use curf.Backend
use curf.Backend.{Backend}
use curf.Balancer.Keeping.{probed, select-Keeps}
use curf.Balancer.{
  LoadBalancer, ConnectionGuard, modify, probe, select, drop_guard, at_url, success, new,
}

abbrev pub AreClosed : List Backend → Type 0
AreClosed = All λ b. b.circuit_open ≡ false

pub modify-AreClosed :
    (f : Backend → Backend)
    → ((b : Backend) → (f b).circuit_open ≡ b.circuit_open)
    → (i : ℕ) (bs : List Backend) → AreClosed bs
    → AreClosed (modify f i bs)
modify-AreClosed f same i [] c = tt
modify-AreClosed f same zero (b ∷ bs) c = (ground (arith, same b, c.0), c.1)
modify-AreClosed f same (suc i) (b ∷ bs) c = (c.0, modify-AreClosed f same i bs c.1)

is_healthy-closed :
    (now : ℕ) (b : Backend)
    → b.circuit_open ≡ false
    → (Backend.is_healthy now b).0.circuit_open ≡ false
unfolding Backend.is_healthy
is_healthy-closed now b c = ground arith

probe-AreClosed : (now i : ℕ) (bs : List Backend) → AreClosed bs → AreClosed (probe now i bs).0
unfolding probe
probe-AreClosed now i [] c = tt
probe-AreClosed now zero (b ∷ bs) c = (is_healthy-closed now b c.0, c.1)
probe-AreClosed now (suc i) (b ∷ bs) c = (c.0, probe-AreClosed now i bs c.1)

map-AreClosed : (now : ℕ) (bs : List Backend) → AreClosed bs → AreClosed (map (probed now) bs)
map-AreClosed now [] c = tt
map-AreClosed now (b ∷ bs) c = (is_healthy-closed now b c.0, map-AreClosed now bs c.1)

pub select-AreClosed :
    (now : ℕ) (ip : Option IpAddr) (lb : LoadBalancer)
    → AreClosed lb.backends
    → AreClosed (select now ip lb).0.backends
unfolding Backend.acquire
select-AreClosed =
    select-Keeps AreClosed probe-AreClosed map-AreClosed
      (modify-AreClosed Backend.acquire (λ b. refl))

pub drop_guard-AreClosed :
    (g : ConnectionGuard) (lb : LoadBalancer)
    → AreClosed lb.backends
    → AreClosed (drop_guard g lb).backends
unfolding drop_guard Backend.release
drop_guard-AreClosed g lb c = modify-AreClosed Backend.release (λ b. refl) g.index lb.backends c

at_url-AreClosed :
    (url : Text) (bs : List Backend)
    → AreClosed bs
    → AreClosed (at_url url Backend.record_success bs)
unfolding at_url Backend.record_success
at_url-AreClosed url [] c = tt
at_url-AreClosed url (b ∷ bs) c = elim (Bool-cases (b.url == url)) [
  | inl here ↦ rw (here) (refl, c.1)
  | inr there ↦ rw (there) (c.0, at_url-AreClosed url bs c.1)
]

pub success-AreClosed :
    (url : Text) (lb : LoadBalancer) → AreClosed lb.backends → AreClosed (success url lb).backends
unfolding success
success-AreClosed url lb c = at_url-AreClosed url lb.backends c

new_closed : (urls : List Text) → AreClosed (map Backend.new urls)
unfolding Backend.new
new_closed [] = tt
new_closed (u ∷ us) = (refl, new_closed us)

pub new-AreClosed : (cfg : DomainConfig) → AreClosed (new cfg).backends
unfolding new
new-AreClosed cfg = new_closed cfg.backends
