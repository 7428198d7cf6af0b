-- ===== src/Thread/Affinity.antt =====
-- The thread id and the processor that a ThreadBase remembers, through any sequence of calls.
use blue_thread.Prelude.{
  ℕ, ◌≡◌, refl, inl, inr, Bool, true, false, not, List, [], ◌∷◌, Option, none, some, ℤ, pos, negsuc,
  M, Outcome, done, threw, aborted, blocked, diverged, ◌>>=◌, ◌>>◌, get, pure, assert, modify,
  bind_outcome, ◌==◌, Bool-cases, ltb, length,
}
use blue_thread.BackTrace.{CString}
use blue_thread.Thread.{
  ThreadWorld, PthreadThread, construct, get_tid, is_positive, is_natural, set_cpu_affinity,
  name_self, put_os, on_os, entry_wrapper, block_all_signals, restore_signals, create_native,
  try_create, create, join_result, join, detach, kill, cpu_setsize,
}

-- A call of a member function; the last is what the new thread does, with its entry().
pub data Call (Os : Type 0) : Type 0 where
  call_create : CString → ℕ → Call Os
  call_try_create : ℕ → Call Os
  call_join : Call Os
  call_detach : Call Os
  call_kill : ℕ → Call Os
  call_affinity : ℤ → Call Os
  run_entry : M Os (Unit {0}) → Call Os

module _ {Mask Os : Type 0} (p : PthreadThread Mask Os) where
  abbrev drop : {A : Type 0} → M (ThreadWorld Os) A → M (ThreadWorld Os) (Unit {0})
  drop m = m >>= λ _. pure tt

  unfoldable pub perform : Call Os → M (ThreadWorld Os) (Unit {0})
  perform (call_create name size) = create p name size
  perform (call_try_create size) = drop (try_create p size)
  perform call_join = drop (join p)
  perform call_detach = drop (detach p)
  perform (call_kill signal) = drop (kill p signal)
  perform (call_affinity cpu) = drop (set_cpu_affinity p cpu)
  perform (run_entry entry) = entry_wrapper p entry

  unfoldable pub perform_all : List (Call Os) → M (ThreadWorld Os) (Unit {0})
  unfolding perform
  perform_all [] = pure tt
  perform_all (c ∷ cs) = perform c >> perform_all cs

  -- No thread id and no processor are remembered.
  abbrev pub IsUnset : ThreadWorld Os → Type 0
  IsUnset w = (w.thread.tid ≡ pos 0) × (w.thread.cpuid ≡ negsuc 0)

  abbrev IfDone : {A : Type 0} → Outcome (ThreadWorld Os) A → Type 0
  IfDone (done a w) = IsUnset w
  IfDone _ = Unit

  record Keeps {A : Type 0} (m : M (ThreadWorld Os) A) : Type 0 where
    kept : (w : ThreadWorld Os) → IsUnset w → IfDone (m w)

  bind_done :
      {A B : Type 0} (r : Outcome (ThreadWorld Os) A) (f : A → M (ThreadWorld Os) B)
      → IfDone r
      → ((a : A) → Keeps (f a))
      → IfDone (bind_outcome r f)
  bind_done (done a w) f h k = (k a).kept w h
  bind_done (threw e w) f h k = tt
  bind_done (aborted w) f h k = tt
  bind_done (blocked w) f h k = tt
  bind_done diverged f h k = tt

  bind-Keeps :
      {A B : Type 0} {m : M (ThreadWorld Os) A} {f : A → M (ThreadWorld Os) B}
      → Keeps m
      → ((a : A) → Keeps (f a))
      → Keeps (m >>= f)
  bind-Keeps h k = record { kept = λ w u. bind_done _ _ (h.kept w u) k }

  assert_done : (b : Bool) (w : ThreadWorld Os) → IsUnset w → IfDone (assert b w)
  assert_done true w u = u
  assert_done false w u = tt

  assert-Keeps : (b : Bool) → Keeps (assert b)
  assert-Keeps b = record { kept = assert_done b }

  pure-Keeps : {A : Type 0} (a : A) → Keeps (pure a)
  pure-Keeps a = record { kept = λ w u. u }

  idle : (cpu : ℤ) (w : ThreadWorld Os) → IsUnset w → set_cpu_affinity p cpu w ≡ done (pos 0) w
  unfolding set_cpu_affinity
  idle (negsuc n) w u = refl
  idle (pos n) w u = elim (Bool-cases (ltb n cpu_setsize)) [
    | inl e ↦ simp (e, u.0)
    | inr e ↦ simp (e)
  ]

  get-Keeps : Keeps get
  get-Keeps = record { kept = λ w u. u }

  modify-Keeps :
      (f : ThreadWorld Os → ThreadWorld Os)
      → ((w : ThreadWorld Os) → IsUnset w → IsUnset (f w))
      → Keeps (modify f)
  modify-Keeps f h = record { kept = h }

  set_cpu_affinity-Keeps : (cpu : ℤ) → Keeps (set_cpu_affinity p cpu)
  set_cpu_affinity-Keeps cpu = record { kept = λ w u. rw (idle cpu w u) u }

  put_back : (r : Outcome Os (Unit {0})) (w : ThreadWorld Os) → IsUnset w → IfDone (put_os p w r)
  unfolding put_os
  put_back (done x o) w u = u
  put_back (threw e o) w u = tt
  put_back (aborted o) w u = tt
  put_back (blocked o) w u = tt
  put_back diverged w u = tt

  on_os-Keeps : (f : M Os (Unit {0})) → Keeps (on_os p f)
  unfolding on_os
  on_os-Keeps f = record { kept = λ w. put_back (f w.os) w }

  name_self-Keeps : Keeps (name_self p)
  unfolding name_self
  name_self-Keeps = record { kept = λ w u. u }

  entry_wrapper-eq :
      (entry : M Os (Unit {0})) (w : ThreadWorld Os)
      → IsUnset w
      → entry_wrapper p entry w ≡ bind_outcome (name_self p w) (λ _. on_os p entry)
  unfolding entry_wrapper get_tid is_positive is_natural
  entry_wrapper-eq entry w u = simp (u.0, u.1)

  entry_wrapper-Keeps : (entry : M Os (Unit {0})) → Keeps (entry_wrapper p entry)
  entry_wrapper-Keeps entry = record {
    kept = λ w u. rw (entry_wrapper-eq entry w u) (
        bind_done (name_self p w) (λ _. on_os p entry) (name_self-Keeps.kept w u)
          (λ _. on_os-Keeps entry));
  }

  restore_signals-Keeps : (old : Mask) → Keeps (restore_signals p old)
  unfolding restore_signals
  restore_signals-Keeps old = record {
    kept = λ w u. assert_done ((p.sigmask_set old w.os).0 == 0) _ u;
  }

  block_all_signals-Keeps : Keeps (block_all_signals p)
  unfolding block_all_signals
  block_all_signals-Keeps = record {
    kept = λ w u.
        bind_done _ _ (assert_done ((p.sigmask_block w.os).0 == 0) _ u)
          (λ _. pure-Keeps (p.sigmask_block w.os).1);
  }

  create_native-Keeps : (size : ℕ) → Keeps (create_native p size)
  unfolding create_native
  create_native-Keeps size = record { kept = λ w u. u }

  try_create-Keeps : (size : ℕ) → Keeps (try_create p size)
  unfolding try_create
  try_create-Keeps size = bind-Keeps block_all_signals-Keeps λ old.
      bind-Keeps (create_native-Keeps size)
        λ r. bind-Keeps (restore_signals-Keeps old) λ _. pure-Keeps r

  create-Keeps : (name : CString) (size : ℕ) → Keeps (create p name size)
  unfolding create
  create-Keeps name size = bind-Keeps (assert-Keeps (ltb (length name) 16)) λ _.
      bind-Keeps
        (modify-Keeps (λ x. record x { thread = record x.thread { thread_name = name } })
          (λ w u. u))
        λ _. bind-Keeps (try_create-Keeps size) λ r. assert-Keeps (r == 0)

  joined : (w : ThreadWorld Os) (o : Option (ℕ × Os)) → IsUnset w → IfDone (join_result p w o)
  unfolding join_result
  joined w none u = tt
  joined w (some (r, o)) u = u

  joined-Keeps : Keeps (λ u. join_result p u (p.join u.thread.thread_id u.os))
  joined-Keeps = record { kept = λ v h. joined v (p.join v.thread.thread_id v.os) h }

  join-Keeps : Keeps (join p)
  unfolding join
  join-Keeps = bind-Keeps get-Keeps λ w.
      bind-Keeps (assert-Keeps (not (w.thread.thread_id == 0))) λ _. bind-Keeps joined-Keeps λ r.
        bind-Keeps (assert-Keeps (r == 0)) λ _.
          bind-Keeps
            (modify-Keeps (λ x. record x { thread = record x.thread { thread_id = 0 } }) (λ v h. h))
            λ _. pure-Keeps r

  detach-Keeps : Keeps (detach p)
  unfolding detach
  detach-Keeps = record { kept = λ w u. u }

  kill-Keeps : (signal : ℕ) → Keeps (kill p signal)
  unfolding kill
  kill-Keeps signal = record {
    kept = λ w u. elim (Bool-cases (w.thread.thread_id == 0)) [ inl e ↦ rw e u | inr e ↦ rw e u ];
  }

  perform-Keeps : (c : Call Os) → Keeps (perform c)
  unfolding perform
  perform-Keeps (call_create name size) = create-Keeps name size
  perform-Keeps (call_try_create size) = bind-Keeps (try_create-Keeps size) λ _. pure-Keeps tt
  perform-Keeps call_join = bind-Keeps join-Keeps λ _. pure-Keeps tt
  perform-Keeps call_detach = bind-Keeps detach-Keeps λ _. pure-Keeps tt
  perform-Keeps (call_kill signal) = bind-Keeps (kill-Keeps signal) λ _. pure-Keeps tt
  perform-Keeps (call_affinity cpu) = bind-Keeps (set_cpu_affinity-Keeps cpu) λ _. pure-Keeps tt
  perform-Keeps (run_entry entry) = entry_wrapper-Keeps entry

  perform_all-Keeps : (cs : List (Call Os)) → Keeps (perform_all cs)
  unfolding perform_all
  perform_all-Keeps [] = pure-Keeps tt
  perform_all-Keeps (c ∷ cs) = bind-Keeps (perform-Keeps c) λ _. perform_all-Keeps cs

  -- After any calls of the member functions that return, also after entry_wrapper() has run,
  -- set_cpu_affinity() returns 0 and does nothing, whatever processor it is given.
  pub set_cpu_affinity_idle :
      (cs : List (Call Os)) (o : Os) (w : ThreadWorld Os)
      → perform_all cs (construct o) ≡ done tt w
      → (cpu : ℤ) → set_cpu_affinity p cpu w ≡ done (pos 0) w
  unfolding construct
  set_cpu_affinity_idle cs o w e cpu =
      idle cpu w (rw e at ((perform_all-Keeps cs).kept (construct o) (refl, refl)))
