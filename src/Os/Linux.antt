-- ===== src/Os/Linux.antt =====
-- osutil.c on Linux: the functions of pthread are parameters. Each returns 0 or an error number.
use bw2c.Base.{ℕ, ◌≡◌, refl, Option, none, some}

-- The functions on one lock, on one condition variable with its lock, and on threads. `pthread_create` returns
-- a code, and a number of the thread that is good only if the code is 0.
pub record Pthread : Type 1 where
  pub State : Type 0
  pub pthread_mutex_init : State → ℕ × State
  pub pthread_mutex_lock : State → ℕ × State
  pub pthread_mutex_unlock : State → ℕ × State
  pub pthread_mutex_destroy : State → ℕ × State
  pub pthread_cond_init : State → ℕ × State
  pub pthread_cond_wait : State → ℕ × State
  pub pthread_cond_signal : State → ℕ × State
  pub pthread_cond_broadcast : State → ℕ × State
  pub pthread_cond_destroy : State → ℕ × State
  pub pthread_create : State → ℕ × ℕ × State

module _ (lib : Pthread) where
  open lib use {
    State, pthread_mutex_init, pthread_mutex_lock, pthread_mutex_unlock, pthread_mutex_destroy,
    pthread_cond_init, pthread_cond_wait, pthread_cond_signal, pthread_cond_broadcast,
    pthread_cond_destroy, pthread_create,
  }

  mutex_init : State → ℕ × State
  mutex_init s = pthread_mutex_init s

  mutex_lock : State → ℕ × State
  mutex_lock s = pthread_mutex_lock s

  mutex_unlock : State → ℕ × State
  mutex_unlock s = pthread_mutex_unlock s

  mutex_destroy : State → ℕ × State
  mutex_destroy s = pthread_mutex_destroy s

  cond_init : State → ℕ × State
  cond_init s = pthread_cond_init s

  cond_wait : State → ℕ × State
  cond_wait s = pthread_cond_wait s

  cond_signal : State → ℕ × State
  cond_signal s = pthread_cond_signal s

  cond_broadcast : State → ℕ × State
  cond_broadcast s = pthread_cond_broadcast s

  cond_destroy : State → ℕ × State
  cond_destroy s = pthread_cond_destroy s

  -- `tid` is what the pointer points to, or NULL. It is set whatever the code is.
  thread_create : (tid : Option ℕ) → State → ℕ × Option ℕ × State
  thread_create none s = let (rv, pthread_id, s') = pthread_create s in (rv, none, s')
  thread_create (some _) s =
      let (rv, pthread_id, s') = pthread_create s in (rv, some pthread_id, s')

  -- A code that is not 0 is passed on, and the number is stored all the same.
  thread_create_stores :
      (old : ℕ) (s : State)
      → ((thread_create (some old) s).0 ≡ (pthread_create s).0)
        × ((thread_create (some old) s).1 ≡ some (pthread_create s).1)
  unfolding thread_create
  thread_create_stores old s = (refl, refl)

  -- The codes of the others are those of pthread.
  codes_pass :
      (s : State)
      → (mutex_init s ≡ pthread_mutex_init s)
        × (mutex_lock s ≡ pthread_mutex_lock s)
        × (mutex_unlock s ≡ pthread_mutex_unlock s)
        × (mutex_destroy s ≡ pthread_mutex_destroy s)
        × (cond_init s ≡ pthread_cond_init s)
        × (cond_wait s ≡ pthread_cond_wait s)
        × (cond_signal s ≡ pthread_cond_signal s)
        × (cond_broadcast s ≡ pthread_cond_broadcast s)
        × (cond_destroy s ≡ pthread_cond_destroy s)
  unfolding mutex_init mutex_lock mutex_unlock mutex_destroy cond_init cond_wait cond_signal
      cond_broadcast cond_destroy
  codes_pass s = (refl, refl, refl, refl, refl, refl, refl, refl, refl)
