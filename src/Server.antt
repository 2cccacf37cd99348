-- ===== src/Server.antt =====
-- src/main.rs: the listeners. One turn of the accept loop of `serve_http` or `serve_https` is
-- `accept`; the task that it spawns is an entry of `tasks` until `finish` drops what it holds, its
-- permit and its `IpConnectionGuard`.
pub mod Semaphores
pub mod Tasks
pub mod Caps
pub mod Admission
mod Tests
use curf.Common.{
  ℕ, zero, suc, Bool, true, false, Option, none, some, List, [], ◌∷◌, if◌then◌else◌, get_elem?, set,
  remove_at, Result, ok, err,
}
use curf.Common.Address.{IpAddr}
use curf.Config.{SecurityFlags}
use curf.Security.{
  SecurityChecker, check_and_acquire_connection, release_connection, record_tls_failure,
}
use Semaphores.{Semaphore}

pub data Listener : Type 0 where
  http https : Listener

-- A task of `serve_https` starts with the handshake.
pub data Stage : Type 0 where
  handshake serving : Stage

pub record Task : Type 0 where
  pub listener : Listener
  pub ip : IpAddr
  pub stage : Stage

module _ (sem : Semaphore) where
  open sem use {S, new, try_acquire, release}

  pub record Server : Type 0 where
    pub security : SecurityChecker
    pub http_semaphore : S
    pub https_semaphore : S
    pub tasks : List Task

  unfoldable pub start : ℕ → SecurityChecker → Server
  start max_conns security = record {
    security = security;
    http_semaphore = new max_conns;
    https_semaphore = new max_conns;
    tasks = [];
  }

  abbrev pub semaphore_of : Listener → Server → S
  semaphore_of http s = s.http_semaphore
  semaphore_of https s = s.https_semaphore

  abbrev pub with_semaphore : Listener → S → Server → Server
  with_semaphore http p s = record s { http_semaphore = p }
  with_semaphore https p s = record s { https_semaphore = p }

  abbrev pub first_stage : Listener → Stage
  first_stage http = serving
  first_stage https = handshake

  -- A connection that is refused by the checker gives its permit back.
  abbrev pub admit_checked :
      Listener → IpAddr → S → SecurityChecker × Result (Unit {0}) (Unit {0}) → Server → Server
  admit_checked l ip permits (security, err _) s = record s { security = security }
  admit_checked l ip permits (security, ok _) s = with_semaphore l permits (record s {
    security = security;
    tasks = record { listener = l; ip = ip; stage = first_stage l } ∷ s.tasks;
  })

  unfoldable pub admit : Listener → IpAddr → Server → Server
  admit l ip s = elim (try_acquire (semaphore_of l s)) [
    | none ↦ s
    | some permits ↦ admit_checked l ip permits (check_and_acquire_connection ip s.security) s
  ]

  -- A turn of the loop, whose `listener.accept()` gives a peer, or an error to be slept over.
  unfoldable pub accept : Listener → Option IpAddr → Server → Server
  unfolding admit
  accept l none s = s
  accept l (some ip) s = admit l ip s

  -- The end of a task, after its connection, an error or a timeout.
  unfoldable pub finish : ℕ → Server → Server
  finish i s = elim (get_elem? s.tasks i) [
    | none ↦ s
    | some t ↦
        with_semaphore t.listener (release (semaphore_of t.listener s))
          (record s { security = release_connection t.ip s.security; tasks = remove_at s.tasks i })
  ]

  abbrev pub shake_task : ℕ → Task → Bool → Server → Server
  shake_task i t true s = record s { tasks = set s.tasks i (record t { stage = serving }) }
  shake_task i t false s = finish i (record s { security = record_tls_failure t.ip s.security })

  -- The end of a handshake: a failure or a timeout is recorded, and the task returns.
  unfoldable pub shake : ℕ → Bool → Server → Server
  shake i good s = elim (get_elem? s.tasks i) [
    | none ↦ s
    | some t ↦ elim t.stage [ serving ↦ s | handshake ↦ shake_task i t good s ]
  ]
