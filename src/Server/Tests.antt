-- ===== src/Server/Tests.antt =====
-- Two listeners with room for one connection each, over a semaphore that is its number of permits.
use curf.Common.{
  ℕ, zero, suc, ◌≡◌, refl, false, Option, none, some, List, [], ◌∷◌, arith, not, ◌&&◌, ltb,
  if◌then◌else◌,
}
use curf.Common.Dict.{lookup, insert}
use curf.Common.Address.{IpAddr, v4}
use curf.Config.{default_security_flags}
use curf.Security.{
  is_blocked, check_and_acquire_connection, release_connection, record_tls_failure, new,
}
use curf.Security.Slots.{count}
use curf.Server.{accept, http, https, serving, admit, finish, shake, start, first_stage}
use curf.Server.Semaphores.{Semaphore, IsSemaphore}
use curf.Server.Tasks.{ips, tasks_at}
use curf.Server.Caps.{Event, accepts, shakes, run, step, IsServing}
use curf.Server.Admission.{started, run-IsServing, admit-tasks}

checker : Unit {0}
unfolding check_and_acquire_connection release_connection record_tls_failure new lookup insert start
    admit accept finish shake step run
checker = tt

abbrev take_one : ℕ → Option ℕ
take_one zero = none
take_one (suc n) = some n

abbrev permits : Semaphore
permits = record {
  S = ℕ;
  new = λ n. n;
  try_acquire = take_one;
  release = suc;
  available = λ n. n;
  max_permits = 100;
}

permits-IsSemaphore : IsSemaphore permits
permits-IsSemaphore = record {
  available-new = λ n room. refl;
  try_acquire-none = elim [ zero ↦ λ e. refl | suc n ↦ λ e. cc ];
  try_acquire-some = elim [ zero ↦ λ s' e. cc | suc n ↦ λ s' e. ground arith ];
  available-release = λ n. refl;
}

abbrev ann : IpAddr
ann = v4 1

abbrev bob : IpAddr
bob = v4 2

-- Ann's connection is served, Bob's does not fit, and a handshake of his fails.
abbrev morning : List Event
morning =
    accepts http (some ann)
    ∷ accepts http none
    ∷ accepts http (some bob)
    ∷ accepts https (some bob)
    ∷ shakes 0 false
    ∷ []

ends_with :
    ((run permits (started permits 1 5 default_security_flags) morning).tasks
      ≡ record { listener = http; ip = ann; stage = serving } ∷ [])
unfolding checker
ends_with = refl

run-IsServing_example :
    IsServing permits 1 5 (run permits (started permits 1 5 default_security_flags) morning)
run-IsServing_example =
    run-IsServing permits permits-IsSemaphore 1 5 default_security_flags (omega arith) morning

admit-tasks_example :
    let s = run permits (started permits 1 5 default_security_flags) morning in
    (admit permits http bob s).tasks ≡ (
      if ltb (tasks_at http s.tasks) 1
        && (not (is_blocked bob s.security) && ltb (count bob (ips s.tasks)) 5)
      then record { listener = http; ip = bob; stage = first_stage permits http } ∷ s.tasks
      else s.tasks)
admit-tasks_example =
    admit-tasks permits permits-IsSemaphore 1 5 default_security_flags (omega arith) morning http
      bob
