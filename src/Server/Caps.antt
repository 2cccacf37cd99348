-- ===== src/Server/Caps.antt =====
-- What the semaphores and the checker count is what the tasks hold, at every step.
use curf.Common.{
  remove_at, ℕ, suc, ◌+◌, ◌≡◌, refl, ap, sym, inl, inr, Bool, true, false, Option, none, some, List,
  [], ◌∷◌, arith, if◌then◌else◌, get_elem?, set, ok, err, Result, Option-cases, subst,
}
use curf.Common.Address.{IpAddr, ip_key, ip_beq_iff}
use curf.Security.{
  SecurityChecker, check_and_acquire_connection, release_connection, record_tls_failure,
}
use curf.Security.Slots.{Step, IsHeld, count, remove, count-remove, Step-IsHeld}
use curf.Server.{
  Listener, http, https, Stage, serving, Task, Server, semaphore_of, with_semaphore, admit_checked,
  admit, accept, finish, shake_task, shake,
}
use curf.Server.Semaphores.{Semaphore, IsSemaphore}
use curf.Server.Tasks.{
  ips, same_listener, tasks_at, count-remove_at, tasks_at-remove_at, ips-set, tasks_at-set, recount,
  Stage-cases,
}

pub data Event : Type 0 where
  accepts : Listener → Option IpAddr → Event
  shakes : ℕ → Bool → Event
  ends : ℕ → Event

module _ (sem : Semaphore) where
  open sem use {S, new, try_acquire, release, available}

  -- Connections come or fail to, handshakes end well or not, and tasks end, in any order.
  unfoldable pub step : Server sem → Event → Server sem
  step s (accepts l peer) = accept sem l peer s
  step s (shakes i good) = shake sem i good s
  step s (ends i) = finish sem i s

  unfoldable pub run : Server sem → List Event → Server sem
  run s [] = s
  run s (e ∷ es) = run (step s e) es

  module _ (max_conns max_ip : ℕ) where
    pub record IsServing (s : Server sem) : Type 0 where
      pub held : IsHeld max_ip (record { checker = s.security; guards = ips s.tasks })
      pub capped :
          (l : Listener) → available (semaphore_of sem l s) + tasks_at l s.tasks ≡ max_conns

    module _ (law : IsSemaphore sem) where
      taken :
          (l k : Listener) (permits : S) (s : Server sem)
          → try_acquire (semaphore_of sem l s) ≡ some permits
          → available (semaphore_of sem k s) ≡ (
              if same_listener k l
              then suc (available (semaphore_of sem k (with_semaphore sem l permits s)))
              else available (semaphore_of sem k (with_semaphore sem l permits s)))
      taken http http permits s e = law.try_acquire-some s.http_semaphore permits e
      taken http https permits s e = refl
      taken https http permits s e = refl
      taken https https permits s e = law.try_acquire-some s.https_semaphore permits e

      given_back :
          (l k : Listener) (s : Server sem)
          → available (semaphore_of sem k (with_semaphore sem l (release (semaphore_of sem l s)) s))
            ≡ (if same_listener k l
                then suc (available (semaphore_of sem k s))
                else available (semaphore_of sem k s))
      given_back http http s = law.available-release s.http_semaphore
      given_back http https s = refl
      given_back https http s = refl
      given_back https https s = law.available-release s.https_semaphore

      -- A task holds the permit that its listener took.
      capped_taken :
          (l k : Listener) (ip : IpAddr) (permits : S) (c : SecurityChecker) (s : Server sem)
          → try_acquire (semaphore_of sem l s) ≡ some permits
          → IsServing s
          → let s' = admit_checked sem l ip permits (c, ok tt) s in
            available (semaphore_of sem k s') + tasks_at k s'.tasks ≡ max_conns
      capped_taken http http ip permits c s e v =
          omega (arith, v.capped http, taken http http permits s e)
      capped_taken http https ip permits c s e v = v.capped https
      capped_taken https http ip permits c s e v = v.capped http
      capped_taken https https ip permits c s e v =
          omega (arith, v.capped https, taken https https permits s e)

      admit_taken-IsServing :
          (l : Listener) (ip : IpAddr) (permits : S) (s : Server sem) (c : SecurityChecker)
          (answer : Result (Unit {0}) (Unit {0}))
          → try_acquire (semaphore_of sem l s) ≡ some permits
          → check_and_acquire_connection ip s.security ≡ (c, answer)
          → IsServing s
          → IsServing (admit_checked sem l ip permits (c, answer) s)
      admit_taken-IsServing http ip permits s c (err u) e f v = record {
        held = Step-IsHeld max_ip (Step.refuses ip f) v.held;
        capped = elim [ http ↦ v.capped http | https ↦ v.capped https ];
      }
      admit_taken-IsServing https ip permits s c (err u) e f v = record {
        held = Step-IsHeld max_ip (Step.refuses ip f) v.held;
        capped = elim [ http ↦ v.capped http | https ↦ v.capped https ];
      }
      admit_taken-IsServing http ip permits s c (ok u) e f v = record {
        held = Step-IsHeld max_ip (Step.accepts ip f) v.held;
        capped = λ k. capped_taken http k ip permits c s e v;
      }
      admit_taken-IsServing https ip permits s c (ok u) e f v = record {
        held = Step-IsHeld max_ip (Step.accepts ip f) v.held;
        capped = λ k. capped_taken https k ip permits c s e v;
      }

      admit-IsServing :
          (l : Listener) (ip : IpAddr) (s : Server sem) → IsServing s → IsServing (admit sem l ip s)
      unfolding admit
      admit-IsServing l ip s v = elim (Option-cases (try_acquire (semaphore_of sem l s))) [
        | inl e ↦ subst IsServing (cc) v
        | inr (permits, e) ↦
            let r = check_and_acquire_connection ip s.security in
            subst IsServing (cc) (admit_taken-IsServing l ip permits s r.0 r.1 e refl v)
      ]

      -- What a task leaves behind.
      abbrev left_by : ℕ → Task → Server sem → Server sem
      left_by i t s =
          with_semaphore sem t.listener (release (semaphore_of sem t.listener s)) (record s {
            security = release_connection t.ip s.security;
            tasks = remove_at s.tasks i;
          })

      capped_left :
          (l k : Listener) (ip : IpAddr) (st : Stage) (i : ℕ) (s : Server sem)
          → let t : Task = record { listener = l; ip = ip; stage = st } in
            get_elem? s.tasks i ≡ some t
            → IsServing s
            → available (semaphore_of sem k (left_by i t s)) + tasks_at k (left_by i t s).tasks
              ≡ max_conns
      capped_left http http ip st i s e v =
          let t : Task = record { listener = http; ip = ip; stage = st } in
          omega (
            arith,
            v.capped http,
            law.available-release s.http_semaphore,
            tasks_at-remove_at http s.tasks i t e,
          )
      capped_left http https ip st i s e v =
          let t : Task = record { listener = http; ip = ip; stage = st } in
          omega (arith, v.capped https, tasks_at-remove_at https s.tasks i t e)
      capped_left https http ip st i s e v =
          let t : Task = record { listener = https; ip = ip; stage = st } in
          omega (arith, v.capped http, tasks_at-remove_at http s.tasks i t e)
      capped_left https https ip st i s e v =
          let t : Task = record { listener = https; ip = ip; stage = st } in
          omega (
            arith,
            v.capped https,
            law.available-release s.https_semaphore,
            tasks_at-remove_at https s.tasks i t e,
          )

      remove_at-IsHeld :
          (i : ℕ) (t : Task) (s : Server sem)
          → get_elem? s.tasks i ≡ some t
          → IsServing s
          → IsHeld max_ip (record {
            checker = release_connection t.ip s.security;
            guards = ips (remove_at s.tasks i);
          })
      remove_at-IsHeld i t s e v =
          let there = count-remove_at t.ip s.tasks i t e in
          recount max_ip (release_connection t.ip s.security) (remove t.ip (ips s.tasks))
            (ips (remove_at s.tasks i))
            (λ ip. grind (
              arith,
              count-remove t.ip ip (ips s.tasks),
              count-remove_at ip s.tasks i t e,
              there,
              ip_beq_iff ip t.ip,
              ip_beq_iff t.ip ip,
            ))
            (Step-IsHeld max_ip (Step.drops t.ip (ground (arith, there, ip_beq_iff t.ip t.ip)))
              v.held)

      finish_task :
          (l : Listener) (ip : IpAddr) (st : Stage) (i : ℕ) (s : Server sem)
          → let t : Task = record { listener = l; ip = ip; stage = st } in
            get_elem? s.tasks i ≡ some t → IsServing s → IsServing (left_by i t s)
      finish_task http ip st i s e v = record {
        held = remove_at-IsHeld i (record { listener = http; ip = ip; stage = st }) s e v;
        capped = λ k. capped_left http k ip st i s e v;
      }
      finish_task https ip st i s e v = record {
        held = remove_at-IsHeld i (record { listener = https; ip = ip; stage = st }) s e v;
        capped = λ k. capped_left https k ip st i s e v;
      }

      finish-IsServing : (i : ℕ) (s : Server sem) → IsServing s → IsServing (finish sem i s)
      unfolding finish
      finish-IsServing i s v = elim (Option-cases (get_elem? s.tasks i)) [
        | inl e ↦ subst IsServing (cc) v
        | inr (t, e) ↦ subst IsServing (cc) (finish_task t.listener t.ip t.stage i s e v)
      ]

      failed-IsServing :
          (ip : IpAddr) (s : Server sem)
          → IsServing s
          → IsServing (record s { security = record_tls_failure ip s.security })
      failed-IsServing ip s v = record {
        held = Step-IsHeld max_ip (Step.tls_fails ip) v.held;
        capped = elim [ http ↦ v.capped http | https ↦ v.capped https ];
      }

      serves-IsServing :
          (i : ℕ) (t : Task) (s : Server sem)
          → get_elem? s.tasks i ≡ some t
          → IsServing s
          → IsServing (record s { tasks = set s.tasks i (record t { stage = serving }) })
      serves-IsServing i t s e v = record {
        held =
            recount max_ip s.security (ips s.tasks)
              (ips (set s.tasks i (record t { stage = serving })))
              (λ ip. ap (count ip) (sym (ips-set t s.tasks i e))) v.held;
        capped = elim [
          | http ↦ omega (arith, v.capped http, tasks_at-set t http s.tasks i e)
          | https ↦ omega (arith, v.capped https, tasks_at-set t https s.tasks i e)
        ];
      }

      shake_task-IsServing :
          (i : ℕ) (t : Task) (good : Bool) (s : Server sem)
          → get_elem? s.tasks i ≡ some t
          → IsServing s
          → IsServing (shake_task sem i t good s)
      shake_task-IsServing i t true s e v = serves-IsServing i t s e v
      shake_task-IsServing i t false s e v = finish-IsServing i _ (failed-IsServing t.ip s v)

      shake-IsServing :
          (i : ℕ) (good : Bool) (s : Server sem) → IsServing s → IsServing (shake sem i good s)
      unfolding shake
      shake-IsServing i good s v = elim (Option-cases (get_elem? s.tasks i)) [
        | inl e ↦ subst IsServing (cc) v
        | inr (t, e) ↦ elim (Stage-cases t.stage) [
          | inl g ↦ subst IsServing (cc) v
          | inr g ↦ subst IsServing (cc) (shake_task-IsServing i t good s e v)
        ]
      ]

      step-IsServing : (s : Server sem) (e : Event) → IsServing s → IsServing (step s e)
      unfolding step accept
      step-IsServing s (accepts l none) v = v
      step-IsServing s (accepts l (some ip)) v = admit-IsServing l ip s v
      step-IsServing s (shakes i good) v = shake-IsServing i good s v
      step-IsServing s (ends i) v = finish-IsServing i s v

      pub run-IsServing_from :
          (s : Server sem) (es : List Event) → IsServing s → IsServing (run s es)
      unfolding run
      run-IsServing_from s [] v = v
      run-IsServing_from s (e ∷ es) v = run-IsServing_from (step s e) es (step-IsServing s e v)
