-- ===== src/Mutex/Holder.antt =====
-- Who holds a mutex, by the native mutex and by the fields that BlueMutex keeps beside it.
use blue_thread.Prelude.{ℕ, ◌≡◌, Option, none, some}
use blue_thread.Pthread.{PthreadMutex, ErrorCheck}
use blue_thread.Mutex.{Mutex}

module _ {Native : Type 0} {p : PthreadMutex Native} (c : ErrorCheck p) where
  open c use {owner}

  pub record IsFree (x : Mutex Native) : Type 0 where
    pub unowned : owner x.m ≡ none
    pub uncounted : x.locked_count ≡ 0

  pub record HeldBy (t : ℕ) (x : Mutex Native) : Type 0 where
    pub owned : owner x.m ≡ some t
    pub counted : x.locked_count ≡ 1
    pub named : x.locked_by ≡ some t

  -- The fields agree with the native mutex.
  abbrev pub Holder : Mutex Native → Option ℕ → Type 0
  Holder x none = IsFree x
  Holder x (some t) = HeldBy t x
