-- ===== src/Server/Tasks.antt =====
-- The tasks of the listeners, counted by address and by listener.
use curf.Common.{
  remove_at, ℕ, zero, suc, ◌≡◌, refl, ap, ◌∙◌, ◌⊎◌, inl, inr, Bool, true, false, some, List, [],
  ◌∷◌, arith, if◌then◌else◌, get_elem?, set,
}
use curf.Common.Address.{IpAddr, ip_key, ip_beq}
use curf.Security.{SecurityChecker}
use curf.Security.Slots.{IsHeld, count}
use curf.Server.{Listener, http, https, Stage, handshake, serving, Task}

abbrev pub ips : List Task → List IpAddr
ips [] = []
ips (t ∷ ts) = t.ip ∷ ips ts

abbrev pub same_listener : Listener → Listener → Bool
same_listener http http = true
same_listener https https = true
same_listener _ _ = false

abbrev pub tasks_at : Listener → List Task → ℕ
tasks_at l [] = 0
tasks_at l (t ∷ ts) = if same_listener l t.listener then suc (tasks_at l ts) else tasks_at l ts

pub count-remove_at :
    (ip : IpAddr) (ts : List Task) (i : ℕ) (t : Task)
    → get_elem? ts i ≡ some t
    → count ip (ips ts) ≡ (
        if ip_beq ip t.ip
        then suc (count ip (ips (remove_at ts i)))
        else count ip (ips (remove_at ts i)))
count-remove_at ip [] i t e = cc
count-remove_at ip (x ∷ ts) zero t e = ground arith
count-remove_at ip (x ∷ ts) (suc i) t e = ground (arith, count-remove_at ip ts i t e)

pub tasks_at-remove_at :
    (l : Listener) (ts : List Task) (i : ℕ) (t : Task)
    → get_elem? ts i ≡ some t
    → tasks_at l ts ≡ (
        if same_listener l t.listener
        then suc (tasks_at l (remove_at ts i))
        else tasks_at l (remove_at ts i))
tasks_at-remove_at l [] i t e = cc
tasks_at-remove_at l (x ∷ ts) zero t e = ground arith
tasks_at-remove_at l (x ∷ ts) (suc i) t e = ground (arith, tasks_at-remove_at l ts i t e)

-- A handshake that succeeds changes neither the address nor the listener of a task.
module _ (t : Task) where
  pub ips-set :
      (ts : List Task) (i : ℕ)
      → get_elem? ts i ≡ some t
      → ips (set ts i (record t { stage = serving })) ≡ ips ts
  ips-set [] i e = refl
  ips-set (x ∷ ts) zero e = ground arith
  ips-set (x ∷ ts) (suc i) e = ap (◌∷◌ x.ip) (ips-set ts i e)

  pub tasks_at-set :
      (l : Listener) (ts : List Task) (i : ℕ)
      → get_elem? ts i ≡ some t
      → tasks_at l (set ts i (record t { stage = serving })) ≡ tasks_at l ts
  tasks_at-set l [] i e = refl
  tasks_at-set l (x ∷ ts) zero e = ground arith
  tasks_at-set l (x ∷ ts) (suc i) e = ground (arith, tasks_at-set l ts i e)

pub Stage-cases : (st : Stage) → (st ≡ serving) ⊎ (st ≡ handshake)
Stage-cases serving = inl refl
Stage-cases handshake = inr refl

-- Only the numbers of guards count.
pub recount :
    (max : ℕ) (c : SecurityChecker) (gs gs' : List IpAddr)
    → ((ip : IpAddr) → count ip gs ≡ count ip gs')
    → IsHeld max (record { checker = c; guards = gs })
    → IsHeld max (record { checker = c; guards = gs' })
recount max c gs gs' same v = record {
  limit = v.limit;
  counted = λ ip. v.counted ip ∙ same ip;
  within = λ ip. omega (arith, v.within ip, same ip);
}
