-- ===== src/Security/Slots.antt =====
-- The connections of each address: never more than the limit, and as many as there are guards.
use curf.Common.{
  ℕ, suc, ◌+◌, ◌-◌, ◌≤◌, ◌<◌, ◌≡◌, refl, ap, ◌∙◌, ◌↔◌, ◌⊎◌, inl, inr, true, false, List, [], ◌∷◌,
  arith, if◌then◌else◌, ok, err,
}
use curf.Common.Dict.{Dict, lookup, insert, lookup-insert}
use curf.Common.Address.{IpAddr, ip_key, ip_beq, ip_beq_iff}
use curf.Config.{SecurityFlags}
use curf.Security.{
  SecurityChecker, new, or_zero, is_blocked, connections_of, check_and_acquire_connection,
  release_connection, record_tls_failure,
}

-- The guards (`IpConnectionGuard` of src/main.rs) that are alive, by address, beside the checker.
pub record Held : Type 0 where
  pub checker : SecurityChecker
  pub guards : List IpAddr

abbrev pub count : IpAddr → List IpAddr → ℕ
count ip [] = 0
count ip (g ∷ gs) = if ip_beq ip g then suc (count ip gs) else count ip gs

abbrev pub remove : IpAddr → List IpAddr → List IpAddr
remove ip [] = []
remove ip (g ∷ gs) = if ip_beq ip g then gs else g ∷ remove ip gs

-- Connections come and are accepted or refused, guards are dropped, and handshakes fail, in any
-- order.
pub data Step : Held → Held → Type 0 where
  accepts :
      {h : Held} {s : SecurityChecker} (ip : IpAddr)
      → check_and_acquire_connection ip h.checker ≡ (s, ok tt)
      → Step h (record { checker = s; guards = ip ∷ h.guards })
  refuses :
      {h : Held} {s : SecurityChecker} (ip : IpAddr)
      → check_and_acquire_connection ip h.checker ≡ (s, err tt)
      → Step h (record h { checker = s })
  drops :
      {h : Held} (ip : IpAddr)
      → 0 < count ip h.guards
      → Step h (record { checker = release_connection ip h.checker; guards = remove ip h.guards })
  tls_fails :
      {h : Held} (ip : IpAddr) → Step h (record h { checker = record_tls_failure ip h.checker })

pub data Reach (start : Held) : Held → Type 0 where
  here : Reach start start
  next : {h h' : Held} → Reach start h → Step h h' → Reach start h'

-- Each address has as many connections on record as guards alive, and no more than the limit.
pub record IsHeld (max : ℕ) (h : Held) : Type 0 where
  pub limit : h.checker.max_connections_per_ip ≡ max
  pub counted : (ip : IpAddr) → connections_of ip h.checker ≡ count ip h.guards
  pub within : (ip : IpAddr) → count ip h.guards ≤ max

stored :
    (ip j : IpAddr) (n : ℕ) (m : Dict IpAddr ℕ)
    → or_zero (lookup j (insert ip n m)) ≡ (if ip_beq ip j then n else or_zero (lookup j m))
stored ip j n m = ground (arith, lookup-insert ip j n m)

module _ (ip : IpAddr) (s s' : SecurityChecker) where
  accepted :
      check_and_acquire_connection ip s ≡ (s', ok tt)
      → (s' ≡ record s { connections = insert ip (connections_of ip s + 1) s.connections })
        × (connections_of ip s < s.max_connections_per_ip)
        × (is_blocked ip s ≡ false)
  unfolding check_and_acquire_connection
  accepted e = ground arith

  refused :
      check_and_acquire_connection ip s ≡ (s', err tt)
      → ((s' ≡ s) ⊎ (s' ≡ record s { connections = insert ip (connections_of ip s) s.connections }))
        × ((is_blocked ip s ≡ true) ⊎ (s.max_connections_per_ip ≤ connections_of ip s))
  unfolding check_and_acquire_connection
  refused e = ground arith

same_entry :
    (ip j : IpAddr) (s : SecurityChecker)
    → connections_of j (record s { connections = insert ip (connections_of ip s) s.connections })
      ≡ connections_of j s
same_entry ip j s = ground (
  arith,
  stored ip j (connections_of ip s) s.connections,
  ip_beq_iff ip j,
  λ (e : ip ≡ j). ap (λ k. connections_of k s) e,
)

released :
    (ip j : IpAddr) (s : SecurityChecker)
    → connections_of j (release_connection ip s)
      ≡ (if ip_beq ip j then connections_of ip s - 1 else connections_of j s)
unfolding release_connection
released ip j s = ground (
  arith,
  stored ip j (connections_of ip s - 1) s.connections,
  ip_beq_iff ip j,
  λ (e : ip ≡ j). ap (λ k. lookup k s.connections) e,
)

pub count-remove :
    (ip j : IpAddr) (gs : List IpAddr)
    → count j (remove ip gs) ≡ (if ip_beq ip j then count ip gs - 1 else count j gs)
count-remove ip j [] = ground arith
count-remove ip j (g ∷ gs) = ground (
  arith,
  count-remove ip j gs,
  ip_beq_iff ip j,
  ip_beq_iff ip g,
  ip_beq_iff j g,
  λ (e : ip ≡ j). ap (λ k. count k gs) e,
)

tls_kept :
    (ip : IpAddr) (s : SecurityChecker)
    → ((record_tls_failure ip s).connections ≡ s.connections)
      × ((record_tls_failure ip s).max_connections_per_ip ≡ s.max_connections_per_ip)
unfolding record_tls_failure
tls_kept ip s = ground arith

release_kept :
    (ip : IpAddr) (s : SecurityChecker)
    → (release_connection ip s).max_connections_per_ip ≡ s.max_connections_per_ip
unfolding release_connection
release_kept ip s = ground arith

module _ (max : ℕ) where
  pub Step-IsHeld : {h h' : Held} → Step h h' → IsHeld max h → IsHeld max h'
  Step-IsHeld (accepts {h} {s} ip e) v =
      let (same, room, _) = accepted ip h.checker s e in
      record {
        limit = ap (λ c. c.max_connections_per_ip) same ∙ v.limit;
        counted = λ j.
            ap (connections_of j) same
            ∙ stored ip j (connections_of ip h.checker + 1) h.checker.connections
            ∙ ground (
              arith,
              v.counted ip,
              v.counted j,
              ip_beq_iff ip j,
              λ (p : ip ≡ j). ap (λ k. count k h.guards) p,
              ip_beq_iff j ip,
            );
        within = λ j. ground (
          arith,
          v.counted ip,
          v.counted j,
          v.within j,
          v.limit,
          room,
          ip_beq_iff j ip,
          λ (p : j ≡ ip). ap (λ k. count k h.guards) p,
        );
      }
  Step-IsHeld (refuses {h} {s} ip e) v = elim (refused ip h.checker s e).0 [
    | inl same ↦ record {
      limit = ap (λ c. c.max_connections_per_ip) same ∙ v.limit;
      counted = λ j. ap (connections_of j) same ∙ v.counted j;
      within = v.within;
    }
    | inr same ↦ record {
      limit = ap (λ c. c.max_connections_per_ip) same ∙ v.limit;
      counted = λ j. ap (connections_of j) same ∙ same_entry ip j h.checker ∙ v.counted j;
      within = v.within;
    }
  ]
  Step-IsHeld (drops {h} ip out) v = record {
    limit = release_kept ip h.checker ∙ v.limit;
    counted = λ j.
        ground
          (arith, released ip j h.checker, v.counted ip, v.counted j, count-remove ip j h.guards);
    within = λ j. ground (arith, v.within ip, v.within j, count-remove ip j h.guards);
  }
  Step-IsHeld (tls_fails {h} ip) v = record {
    limit = (tls_kept ip h.checker).1 ∙ v.limit;
    counted = λ j. ap (λ m. or_zero (lookup j m)) (tls_kept ip h.checker).0 ∙ v.counted j;
    within = v.within;
  }

  Reach-IsHeld_from : {start h : Held} → IsHeld max start → Reach start h → IsHeld max h
  Reach-IsHeld_from v here = v
  Reach-IsHeld_from v (next r st) = Step-IsHeld st (Reach-IsHeld_from v r)

abbrev pub fresh : ℕ → SecurityFlags → Held
fresh max flags = record { checker = new max flags; guards = [] }

pub fresh-IsHeld : (max : ℕ) (flags : SecurityFlags) → IsHeld max (fresh max flags)
unfolding new lookup
fresh-IsHeld max flags = record { limit = refl; counted = λ ip. refl; within = λ ip. omega arith }

-- After any history of accepted and refused connections, dropped guards and failed handshakes, each
-- address has as many connections on record as it has guards alive, and at most the limit.
pub Reach-IsHeld :
    (max : ℕ) (flags : SecurityFlags) (h : Held) → Reach (fresh max flags) h → IsHeld max h
Reach-IsHeld max flags h r = Reach-IsHeld_from max (fresh-IsHeld max flags) r

-- After any such history a connection is refused exactly when its address is blocked or has as many
-- guards alive as the limit allows.
refused_iff :
    (max : ℕ) (flags : SecurityFlags) (h : Held) (ip : IpAddr)
    → Reach (fresh max flags) h
    → ((check_and_acquire_connection ip h.checker).1 ≡ err tt)
      ↔ ((is_blocked ip h.checker ≡ true) ⊎ (count ip h.guards ≡ max))
unfolding check_and_acquire_connection
refused_iff max flags h ip r =
    let v = Reach-IsHeld max flags h r in ground (arith, v.counted ip, v.within ip, v.limit)
