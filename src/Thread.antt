-- ===== src/Thread.antt =====
-- thread/thread.h, thread/thread.cc and thread/utils.cc: ThreadBase and the tools for std::thread.
-- <pthread.h>, <sched.h> and <signal.h> are parameters that change the state `Os` of the system.
pub mod Affinity
pub mod Life
mod Tests
use blue_thread.Prelude.{
  ℕ, zero, suc, Bool, true, false, not, ◌&&◌, Option, none, some, ℤ, pos, negsuc, ltb, length, List,
  [], ◌∷◌, ◌==◌, if◌then◌else◌, M, Outcome, done, threw, aborted, blocked, diverged, ◌>>=◌, ◌>>◌,
  get, pure, throw, assert, modify, when,
}
use blue_thread.BackTrace.{CString}
use blue_thread.Prelude.Integer.{is_zero}
use blue_thread.Pthread.{einval}

-- CPU_SETSIZE of <sched.h>
abbrev pub cpu_setsize : ℕ
cpu_setsize = 1024

-- A result of 0 is success and any other is an error number; `create` gives the new id too, and
-- `sigmask_block` the old mask. `none` from `join` means that the call waits.
pub record PthreadThread (Mask Os : Type 0) : Type 0 where
  pub self : Os → ℕ
  pub sched_setaffinity : ℕ → Os → ℕ × Os
  pub sched_yield : Os → Os
  pub setname : ℕ → CString → Os → ℕ × Os
  pub getname : ℕ → Os → ℕ × CString
  pub create : ℕ → Os → ℕ × ℕ × Os
  pub join : ℕ → Os → Option (ℕ × Os)
  pub detach : ℕ → Os → ℕ × Os
  pub kill : ℕ → ℕ → Os → ℕ × Os
  pub sigmask_block : Os → ℕ × Mask × Os
  pub sigmask_set : Mask → Os → ℕ × Os

-- An id of 0 is no thread.
pub record Thread : Type 0 where
  pub tid : ℤ
  pub thread_id : ℕ
  pub thread_name : CString
  pub cpuid : ℤ

pub record ThreadWorld (Os : Type 0) : Type 0 where
  pub thread : Thread
  pub os : Os

-- x > 0
unfoldable pub is_positive : ℤ → Bool
is_positive (pos zero) = false
is_positive (pos (suc n)) = true
is_positive (negsuc n) = false

-- x >= 0
unfoldable pub is_natural : ℤ → Bool
is_natural (pos n) = true
is_natural (negsuc n) = false

-- x == y
unfoldable pub same_int : ℤ → ℤ → Bool
same_int (pos m) (pos n) = m == n
same_int (negsuc m) (negsuc n) = m == n
same_int _ _ = false

-- -n
unfoldable pub negative : ℕ → ℤ
negative zero = pos 0
negative (suc n) = negsuc n

abbrev pub with_os : {Os : Type 0} → ThreadWorld Os → Os → ThreadWorld Os
with_os w o = record w { os = o }

unfoldable pub construct : {Os : Type 0} → Os → ThreadWorld Os
construct o = record {
  thread = record { tid = pos 0; thread_id = 0; thread_name = []; cpuid = negsuc 0 };
  os = o;
}

unfoldable pub get_thread_id : Thread → ℕ
get_thread_id t = t.thread_id

-- The member function, not the one that asks the system.
unfoldable pub get_tid : Thread → ℤ
get_tid t = t.tid

-- name.resize(std::strlen(name.data()))
unfoldable pub up_to_nul : CString → CString
up_to_nul [] = []
up_to_nul (c ∷ cs) = if c == 0 then [] else c ∷ up_to_nul cs

module _ {Mask Os : Type 0} (p : PthreadThread Mask Os) where
  -- _set_cpu_affinity for a number that is not negative
  unfoldable pub set_affinity : ℕ → M (ThreadWorld Os) ℤ
  unfolding negative
  set_affinity cpu w =
      if ltb cpu cpu_setsize
      then (let (r, o) = p.sched_setaffinity cpu w.os in
          if r == 0
          then done (pos 0) (with_os w (p.sched_yield o))
          else done (negative r) (with_os w o))
      else done (pos 0) w

  -- _set_cpu_affinity
  unfoldable pub set_affinity_of : ℤ → M (ThreadWorld Os) ℤ
  unfolding set_affinity
  set_affinity_of (negsuc n) = pure (pos 0)
  set_affinity_of (pos n) = set_affinity n

  unfoldable pub set_cpu_affinity : ℤ → M (ThreadWorld Os) ℤ
  unfolding same_int get_tid is_natural set_affinity_of
  set_cpu_affinity (negsuc n) w = done (pos 0) w
  set_cpu_affinity (pos n) w =
      if not (ltb n cpu_setsize)
      then done (pos 0) w
      else if not (is_zero w.thread.tid) && same_int (get_tid w.thread) w.thread.tid
      then set_affinity_of (pos n) w
      else done (pos 0) w

  -- Gives the thread its name, and then its entry() runs.
  unfoldable pub name_self : M (ThreadWorld Os) (Unit {0})
  name_self w = done tt (with_os w (p.setname (p.self w.os) w.thread.thread_name w.os).1)

  unfoldable pub put_os :
      ThreadWorld Os → Outcome Os (Unit {0}) → Outcome (ThreadWorld Os) (Unit {0})
  put_os w (done x o) = done x (with_os w o)
  put_os w (threw e o) = threw e (with_os w o)
  put_os w (aborted o) = aborted (with_os w o)
  put_os w (blocked o) = blocked (with_os w o)
  put_os w diverged = diverged

  -- `entry` is the virtual function. It cannot change the private fields.
  unfoldable pub on_os : M Os (Unit {0}) → M (ThreadWorld Os) (Unit {0})
  unfolding put_os
  on_os f w = put_os w (f w.os)

  unfoldable pub entry_wrapper : M Os (Unit {0}) → M (ThreadWorld Os) (Unit {0})
  unfolding get_tid is_positive is_natural set_affinity_of name_self on_os
  entry_wrapper entry = do
    w ← get
    let r = get_tid w.thread
    when (is_positive r) (modify (λ x. record x { thread = record x.thread { tid = r } }))
    v ← get
    when (not (is_zero v.thread.tid) && is_natural v.thread.cpuid)
        (set_affinity_of v.thread.cpuid >>= λ _. pure tt)
    name_self
    on_os entry

  unfoldable pub block_all_signals : M (ThreadWorld Os) Mask
  block_all_signals w =
      let (r, old, o) = p.sigmask_block w.os in (assert (r == 0) >>= λ _. pure old) (with_os w o)

  unfoldable pub restore_signals : Mask → M (ThreadWorld Os) (Unit {0})
  restore_signals old w = let (r, o) = p.sigmask_set old w.os in assert (r == 0) (with_os w o)

  -- &thread_id is written by pthread_create
  unfoldable pub create_native : ℕ → M (ThreadWorld Os) ℕ
  create_native stack_size w =
      let (r, id, o) = p.create stack_size w.os in
      done r (record { thread = record w.thread { thread_id = id }; os = o })

  unfoldable pub try_create : ℕ → M (ThreadWorld Os) ℕ
  unfolding block_all_signals restore_signals create_native
  try_create stack_size = do
    old ← block_all_signals
    r ← create_native stack_size
    restore_signals old
    pure r

  unfoldable pub create : CString → ℕ → M (ThreadWorld Os) (Unit {0})
  unfolding try_create
  create name stack_size = do
    assert (ltb (length name) 16)
    modify (λ x. record x { thread = record x.thread { thread_name = name } })
    r ← try_create stack_size
    assert (r == 0)

  unfoldable pub join_result : ThreadWorld Os → Option (ℕ × Os) → Outcome (ThreadWorld Os) ℕ
  join_result w none = blocked w
  join_result w (some (r, o)) = done r (with_os w o)

  unfoldable pub join : M (ThreadWorld Os) ℕ
  unfolding join_result
  join = do
    w ← get
    assert (not (w.thread.thread_id == 0))
    r ← λ u. join_result u (p.join u.thread.thread_id u.os)
    assert (r == 0)
    modify (λ x. record x { thread = record x.thread { thread_id = 0 } })
    pure r

  unfoldable pub detach : M (ThreadWorld Os) ℕ
  detach w = let (r, o) = p.detach w.thread.thread_id w.os in done r (with_os w o)

  unfoldable pub kill : ℕ → M (ThreadWorld Os) ℤ
  unfolding negative
  kill signal w =
      if w.thread.thread_id == 0
      then done (negative einval) w
      else let (r, o) = p.kill w.thread.thread_id signal w.os in done (pos r) (with_os w o)

  -- The tools for a std::thread with this native handle.
  unfoldable pub throw_unless_zero : ℕ × Os → Outcome Os (Unit {0})
  throw_unless_zero (r, o) = if r == 0 then done tt o else threw r o

  unfoldable pub set_thread_name : ℕ → CString → M Os (Unit {0})
  unfolding throw_unless_zero
  set_thread_name handle name o = throw_unless_zero (p.setname handle name o)

  unfoldable pub get_thread_name : ℕ → M Os CString
  unfolding up_to_nul
  get_thread_name handle o =
      let (r, name) = p.getname handle o in if r == 0 then done (up_to_nul name) o else threw r o

  unfoldable pub kill_thread : ℕ → ℕ → M Os (Unit {0})
  unfolding throw_unless_zero
  kill_thread handle signal o = throw_unless_zero (p.kill handle signal o)
