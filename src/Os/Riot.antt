-- ===== src/Os/Riot.antt =====
-- osutil.c on RIOT: the functions of the kernel are parameters. All but the start of a thread have no result.
use bw2c.Base.{ℕ, ◌≡◌, refl, Option, none, some}

-- `thread_create` returns a number of the new thread, or a negative one, which is `none`.
pub record Kernel : Type 1 where
  pub State : Type 0
  pub kernel_mutex_init : State → State
  pub kernel_mutex_lock : State → State
  pub kernel_mutex_unlock : State → State
  pub kernel_cond_init : State → State
  pub kernel_cond_wait : State → State
  pub kernel_cond_signal : State → State
  pub kernel_cond_broadcast : State → State
  pub kernel_thread_create : State → Option ℕ × State

-- BW2_ERROR_SYSTEM_RESOURCE_UNAVAILABLE
abbrev resource_code : ℕ
resource_code = 8

module _ (lib : Kernel) where
  open lib use {
    State, kernel_mutex_init, kernel_mutex_lock, kernel_mutex_unlock, kernel_cond_init,
    kernel_cond_wait, kernel_cond_signal, kernel_cond_broadcast, kernel_thread_create,
  }

  mutex_init : State → ℕ × State
  mutex_init s = (0, kernel_mutex_init s)

  mutex_lock : State → ℕ × State
  mutex_lock s = (0, kernel_mutex_lock s)

  mutex_unlock : State → ℕ × State
  mutex_unlock s = (0, kernel_mutex_unlock s)

  mutex_destroy : State → ℕ × State
  mutex_destroy s = (0, s)

  cond_init : State → ℕ × State
  cond_init s = (0, kernel_cond_init s)

  cond_wait : State → ℕ × State
  cond_wait s = (0, kernel_cond_wait s)

  cond_signal : State → ℕ × State
  cond_signal s = (0, kernel_cond_signal s)

  cond_broadcast : State → ℕ × State
  cond_broadcast s = (0, kernel_cond_broadcast s)

  cond_destroy : State → ℕ × State
  cond_destroy s = (0, s)

  -- `tid` is what the pointer points to, or NULL. It keeps its value on a failure.
  thread_create : (tid : Option ℕ) → State → ℕ × Option ℕ × State
  thread_create tid s =
      let (id, s') = kernel_thread_create s in
      elim id [
        | none ↦ (resource_code, tid, s')
        | some thread_id ↦ (0, elim tid [ none ↦ none | some _ ↦ some thread_id ], s')
      ]

  -- A failure has one code, and leaves the number alone.
  thread_create_failed :
      (tid : Option ℕ) (s : State)
      → (kernel_thread_create s).0 ≡ none
      → thread_create tid s ≡ (resource_code, tid, (kernel_thread_create s).1)
  unfolding thread_create
  thread_create_failed tid s e = rw (thread_create, e) refl

  -- The others do not fail.
  codes_zero :
      (s : State)
      → ((mutex_init s).0 ≡ 0)
        × ((mutex_lock s).0 ≡ 0)
        × ((mutex_unlock s).0 ≡ 0)
        × ((mutex_destroy s).0 ≡ 0)
        × ((cond_init s).0 ≡ 0)
        × ((cond_wait s).0 ≡ 0)
        × ((cond_signal s).0 ≡ 0)
        × ((cond_broadcast s).0 ≡ 0)
        × ((cond_destroy s).0 ≡ 0)
  unfolding mutex_init mutex_lock mutex_unlock mutex_destroy cond_init cond_wait cond_signal
      cond_broadcast cond_destroy
  codes_zero s = (refl, refl, refl, refl, refl, refl, refl, refl, refl)
