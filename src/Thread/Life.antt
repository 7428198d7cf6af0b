-- ===== src/Thread/Life.antt =====
-- create(), join() and kill() of a ThreadBase.
use blue_thread.Prelude.{
  ℕ, ◌≡◌, ◌≢◌, refl, ◌⊎◌, inl, inr, none, Bool, true, false, negsuc, Outcome, done, aborted,
  blocked, ◌==◌, Bool-cases, ltb, length, arith,
}
use blue_thread.BackTrace.{CString}
use blue_thread.Thread.{
  ThreadWorld, PthreadThread, block_all_signals, restore_signals, create_native, try_create, create,
  join, kill,
}

module _ {Mask Os : Type 0} (p : PthreadThread Mask Os) where
  -- The documented behaviour of pthread_sigmask, by the mask of the caller: SIG_BLOCK of all signals
  -- gives the old mask, SIG_SETMASK sets one, and pthread_create leaves it.
  pub record SignalMask : Type 0 where
    pub mask : Os → Mask
    pub full : Mask
    pub block_all : (o : Os) → (o' : Os) × (p.sigmask_block o ≡ (0, mask o, o')) × (mask o' ≡ full)
    pub set_mask : (m : Mask) (o : Os) → (o' : Os) × (p.sigmask_set m o ≡ (0, o')) × (mask o' ≡ m)

  -- A thread with the id was made while all signals were blocked, and the mask is as before.
  abbrev pub CreateEnds :
      SignalMask
      → ThreadWorld Os
      → CString
      → ℕ
      → Bool
      → Outcome (ThreadWorld Os) (Unit {0})
      → Type 0
  CreateEnds l w name size false r = r ≡ aborted w
  CreateEnds l w name size true (done _ v) =
      (o u : Os) × (l.mask o ≡ l.full)
      × (p.create size o ≡ (0, v.thread.thread_id, u))
      × (v.thread.thread_name ≡ name)
      × (l.mask v.os ≡ l.mask w.os)
  CreateEnds l w name size true (aborted v) =
      (o : Os) × (l.mask o ≡ l.full) × ((p.create size o).0 ≢ 0) × (l.mask v.os ≡ l.mask w.os)
  CreateEnds l w name size true _ = ⊥

  -- create() aborts with nothing done if the name has 16 characters or more. Otherwise it calls
  -- pthread_create with all signals blocked, puts back the signal mask of the caller in each case, and
  -- returns with the new id and the name if the thread was made, and aborts if not.
  pub create-CreateEnds :
      (l : SignalMask) (w : ThreadWorld Os) (name : CString) (size : ℕ)
      → CreateEnds l w name size (ltb (length name) 16) (create p name size w)
  unfolding create try_create block_all_signals restore_signals create_native
  create-CreateEnds l w name size = elim (Bool-cases (ltb (length name) 16)) [
    | inl e ↦
        let (o, b, f) = l.block_all w.os in
        let (v, s, m) = l.set_mask (l.mask w.os) (p.create size o).2 in
        elim (Bool-cases ((p.create size o).0 == 0)) [
          | inl z ↦ rw (e, b, s, z) (o, (p.create size o).2, f, ground arith, refl, m)
          | inr z ↦ rw (e, b, s, z) (o, f, ground arith, m)
        ]
    | inr e ↦ rw e refl
  ]

  abbrev pub JoinEnds : ThreadWorld Os → Outcome (ThreadWorld Os) ℕ → Type 0
  JoinEnds w (done r v) =
      (r ≡ 0)
      × (v.thread.thread_id ≡ 0)
      × ((signal : ℕ) → kill p signal v ≡ done (negsuc 21) v)
      × (join p v ≡ aborted v)
  JoinEnds w (blocked v) = (v ≡ w) × (p.join w.thread.thread_id w.os ≡ none)
  JoinEnds w (aborted v) = (w.thread.thread_id ≡ 0) ⊎ (p.join w.thread.thread_id w.os ≢ none)
  JoinEnds w _ = ⊥
