-- ===== src/Server/Admission.antt =====
-- Which connections are admitted, and that no permit and no connection is lost.
use curf.Common.{
  ℕ, ◌≤◌, ◌≡◌, refl, inl, inr, List, ◌∷◌, arith, if◌then◌else◌, not, ◌&&◌, ltb, ok, err, Result,
  Option-cases,
}
use curf.Common.Address.{IpAddr, ip_key}
use curf.Config.{SecurityFlags}
use curf.Security.{SecurityChecker, check_and_acquire_connection, is_blocked, connections_of}
use curf.Security.Slots.{fresh, count, fresh-IsHeld}
use curf.Server.{
  Listener, http, https, Server, start, semaphore_of, first_stage, admit_checked, admit,
}
use curf.Server.Semaphores.{Semaphore, IsSemaphore}
use curf.Server.Tasks.{ips, tasks_at}
use curf.Server.Caps.{Event, run, IsServing, run-IsServing_from}

-- The server as `main` starts it.
abbrev pub started : (sem : Semaphore) → ℕ → ℕ → SecurityFlags → Server sem
started sem max_conns max_ip flags = start sem max_conns (fresh max_ip flags).checker

module _ (sem : Semaphore) (law : IsSemaphore sem) (max_conns max_ip : ℕ) (flags : SecurityFlags)
    (room : max_conns ≤ sem.max_permits) where
  open sem use {S, try_acquire}

  abbrev server_after : List Event → Server sem
  server_after es = run sem (started sem max_conns max_ip flags) es

  started-IsServing : IsServing sem max_conns max_ip (started sem max_conns max_ip flags)
  unfolding start
  started-IsServing = record {
    held = fresh-IsHeld max_ip flags;
    capped = elim [
      | http ↦ omega (arith, law.available-new max_conns room)
      | https ↦ omega (arith, law.available-new max_conns room)
    ];
  }

  -- The cap is one that a semaphore can hold. After any history of connections, failures to accept
  -- one, handshakes that end well or not, and tasks that end, in any order, each listener has as many permits left as its cap less its tasks, and the checker has as
  -- many connections on record for each address as there are tasks for it, at most the limit.
  pub run-IsServing : (es : List Event) → IsServing sem max_conns max_ip (server_after es)
  run-IsServing es =
      run-IsServing_from sem max_conns max_ip law (started sem max_conns max_ip flags) es
        started-IsServing

  admit_checked-tasks :
      (l : Listener) (ip : IpAddr) (permits : S) (s : Server sem) (c : SecurityChecker)
      (answer : Result (Unit {0}) (Unit {0}))
      → check_and_acquire_connection ip s.security ≡ (c, answer)
      → (admit_checked sem l ip permits (c, answer) s).tasks ≡ (
          if not (is_blocked ip s.security)
            && ltb (connections_of ip s.security) s.security.max_connections_per_ip
          then record { listener = l; ip = ip; stage = first_stage sem l } ∷ s.tasks
          else s.tasks)
  unfolding check_and_acquire_connection
  admit_checked-tasks http ip permits s c (ok u) e = ground arith
  admit_checked-tasks https ip permits s c (ok u) e = ground arith
  admit_checked-tasks l ip permits s c (err u) e = ground arith

  -- The cap is one that a semaphore can hold. After any history of connections, failures to accept
  -- one, handshakes that end well or not, and tasks that end, in any order, a connection to a
  -- listener is given a task exactly when the listener has fewer tasks than its cap, the address is
  -- not blocked, and the address has fewer tasks than its limit; in every other case no task is
  -- added.
  pub admit-tasks :
      (es : List Event) (l : Listener) (ip : IpAddr)
      → let s = server_after es in
        (admit sem l ip s).tasks ≡ (
          if ltb (tasks_at l s.tasks) max_conns
            && (not (is_blocked ip s.security) && ltb (count ip (ips s.tasks)) max_ip)
          then record { listener = l; ip = ip; stage = first_stage sem l } ∷ s.tasks
          else s.tasks)
  unfolding admit
  admit-tasks es l ip =
      let s = server_after es in
      let v = run-IsServing es in
      let r = check_and_acquire_connection ip s.security in
      elim (Option-cases (try_acquire (semaphore_of sem l s))) [
        | inl e ↦ ground (arith, law.try_acquire-none _ e, v.capped l)
        | inr (permits, e) ↦ ground (
          arith,
          law.try_acquire-some _ _ e,
          v.capped l,
          v.held.counted ip,
          v.held.limit,
          admit_checked-tasks l ip permits s r.0 r.1 refl,
        )
      ]
