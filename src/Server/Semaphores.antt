-- ===== src/Server/Semaphores.antt =====
-- `tokio::sync::Semaphore` as src/main.rs uses it, and what its documentation says: a semaphore has
-- a number of permits left, `try_acquire_owned` takes one and fails where there is none, and a
-- permit that is dropped comes back. Above `max_permits` there is no semaphore: `new` panics.
use curf.Common.{ℕ, suc, ◌≤◌, ◌≡◌, Option, none, some}

pub record Semaphore : Type 1 where
  pub S : Type 0
  pub new : ℕ → S
  pub max_permits : ℕ
  pub try_acquire : S → Option S
  pub release : S → S
  pub available : S → ℕ

module _ (sem : Semaphore) where
  open sem use {S, new, max_permits, try_acquire, release, available}

  pub record IsSemaphore : Type 0 where
    pub available-new : (n : ℕ) → n ≤ max_permits → available (new n) ≡ n
    pub try_acquire-none : (s : S) → try_acquire s ≡ none → available s ≡ 0
    pub try_acquire-some : (s s' : S) → try_acquire s ≡ some s' → available s ≡ suc (available s')
    pub available-release : (s : S) → available (release s) ≡ suc (available s)
