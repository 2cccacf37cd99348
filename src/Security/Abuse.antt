-- ===== src/Security/Abuse.antt =====
-- TLS abuse: which addresses are blocked after a history of connections and failed handshakes.
use curf.Common.{
  ℕ, suc, ◌+◌, ◌%◌, ◌<◌, ◌≡◌, refl, ap, sym, ◌∙◌, Bool, true, ◌&&◌, List, [], ◌∷◌, arith,
  if◌then◌else◌, leb, ltb, subst, err, length,
}
use curf.Common.Dict.{lookup, lookup-insert}
use curf.Common.Address.{IpAddr, ip_key, ip_beq, ip_beq_iff}
use curf.Config.{SecurityFlags}
use curf.Security.{
  SecurityChecker, new, or_zero, contains_key, is_blocked, tls_failures_of,
  check_and_acquire_connection, release_connection, record_tls_failure,
}

pub data Event : Type 0 where
  connects disconnects tls_fails : IpAddr → Event

unfoldable pub step : SecurityChecker → Event → SecurityChecker
step s (connects ip) = (check_and_acquire_connection ip s).0
step s (disconnects ip) = release_connection ip s
step s (tls_fails ip) = record_tls_failure ip s

unfoldable pub run : SecurityChecker → List Event → SecurityChecker
run s [] = s
run s (e ∷ es) = run (step s e) es

-- The failed handshakes of an address in a history.
abbrev pub failures_in : IpAddr → List Event → ℕ
failures_in ip [] = 0
failures_in ip (tls_fails other ∷ es) =
    if ip_beq other ip then suc (failures_in ip es) else failures_in ip es
failures_in ip (connects other ∷ es) = failures_in ip es
failures_in ip (disconnects other ∷ es) = failures_in ip es

-- The rule: the check is on, and there was a failure that reached the limit.
abbrev pub is_abuser : SecurityFlags → ℕ → Bool
is_abuser flags n = flags.block_tls_abusers && (ltb 0 n && leb flags.max_tls_failures n)

record Knows (flags : SecurityFlags) (ip : IpAddr) (n : ℕ) (s : SecurityChecker) : Type 0 where
  same_flags : s.flags ≡ flags
  failures : tls_failures_of ip s ≡ (if flags.block_tls_abusers then n else 0)
  blocked : is_blocked ip s ≡ is_abuser flags n

-- What an event leaves alone.
connects-keeps :
    (ip : IpAddr) (s : SecurityChecker)
    → let s' = (check_and_acquire_connection ip s).0 in
      (s'.flags ≡ s.flags) × (s'.tls_failures ≡ s.tls_failures) × (s'.blocked_ips ≡ s.blocked_ips)
unfolding check_and_acquire_connection
connects-keeps ip s = ground arith

disconnects-keeps :
    (ip : IpAddr) (s : SecurityChecker)
    → let s' = release_connection ip s in
      (s'.flags ≡ s.flags) × (s'.tls_failures ≡ s.tls_failures) × (s'.blocked_ips ≡ s.blocked_ips)
unfolding release_connection
disconnects-keeps ip s = ground arith

module _ (flags : SecurityFlags) (ip : IpAddr) where
  Knows-keeps :
      (n : ℕ) (s s' : SecurityChecker)
      → (s'.flags ≡ s.flags) × (s'.tls_failures ≡ s.tls_failures) × (s'.blocked_ips ≡ s.blocked_ips)
      → Knows flags ip n s
      → Knows flags ip n s'
  Knows-keeps n s s' (f, t, b) k = record {
    same_flags = f ∙ k.same_flags;
    failures = ap (λ m. or_zero (lookup ip m)) t ∙ k.failures;
    blocked = ap (λ m. contains_key (lookup ip m)) b ∙ k.blocked;
  }

  Knows-tls :
      (n : ℕ) (other : IpAddr) (s : SecurityChecker)
      → n + 1 < 4294967296
      → Knows flags ip n s
      → Knows flags ip (if ip_beq other ip then suc n else n) (record_tls_failure other s)
  unfolding record_tls_failure
  Knows-tls n other s w k =
      let c = (tls_failures_of other s + 1) % 4294967296 in
      let here = λ (e : other ≡ ip). ap (λ j. tls_failures_of j s) e in
      let there = λ (e : other ≡ ip). ap (λ j. is_blocked j s) e in
      record {
        same_flags = ground (arith, k.same_flags);
        failures = ground (
          arith,
          k.same_flags,
          k.failures,
          lookup-insert other ip c s.tls_failures,
          ip_beq_iff other ip,
          here,
        );
        blocked = ground (
          arith,
          k.same_flags,
          k.failures,
          k.blocked,
          lookup-insert other ip tt s.blocked_ips,
          ip_beq_iff other ip,
          here,
          there,
        );
      }

  Knows-run :
      (es : List Event) (n : ℕ) (s : SecurityChecker)
      → n + length es < 4294967296
      → Knows flags ip n s
      → Knows flags ip (failures_in ip es + n) (run s es)
  unfolding run step
  Knows-run [] n s w k = let e : 0 + n ≡ n = omega arith in rw e k
  Knows-run (connects other ∷ es) n s w k =
      Knows-run es n (step s (connects other)) (omega arith)
        (Knows-keeps n s _ (connects-keeps other s) k)
  Knows-run (disconnects other ∷ es) n s w k =
      Knows-run es n (step s (disconnects other)) (omega arith)
        (Knows-keeps n s _ (disconnects-keeps other s) k)
  Knows-run (tls_fails other ∷ es) n s w k =
      let m = if ip_beq other ip then suc n else n in
      let e : failures_in ip (tls_fails other ∷ es) + n ≡ failures_in ip es + m = ground arith in
      subst (λ l. Knows flags ip l (run (step s (tls_fails other)) es)) (sym e)
        (Knows-run es m (step s (tls_fails other)) (ground arith)
          (Knows-tls n other s (omega arith) k))

  Knows-new : (max : ℕ) → Knows flags ip 0 (new max flags)
  unfolding new lookup
  Knows-new max = record { same_flags = refl; failures = ground arith; blocked = ground arith }

  -- After a history of fewer than 2^32 events an address is blocked exactly when the check is on
  -- and at least the limit's number, and at least one, of its own handshakes failed; a blocked
  -- address is refused every connection.
  pub run-blocked :
      (max : ℕ) (es : List Event)
      → length es < 4294967296
      → (is_blocked ip (run (new max flags) es) ≡ is_abuser flags (failures_in ip es))
        × (is_abuser flags (failures_in ip es) ≡ true
            → check_and_acquire_connection ip (run (new max flags) es)
              ≡ (run (new max flags) es, err tt))
  unfolding check_and_acquire_connection
  run-blocked max es w =
      let k = Knows-run es 0 (new max flags) (omega arith) (Knows-new max) in
      let e : failures_in ip es + 0 ≡ failures_in ip es = omega arith in
      let b = k.blocked ∙ ap (is_abuser flags) e in (b, λ h. rw (b ∙ h))
