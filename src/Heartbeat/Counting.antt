-- ===== src/Heartbeat/Counting.antt =====
-- is_healthy(): its result and the two counts, against a count over the handles.
use blue_thread.Prelude.{
  ℕ, suc, ◌+◌, ◌≡◌, ◌≢◌, refl, inl, inr, List, [], ◌∷◌, Option, none, some, Option-cases, Bool,
  true, false, ◌&&◌, ◌||◌, Bool-cases, ◌==◌, if◌then◌else◌, In, length, Outcome, done, aborted,
  blocked, arith,
}
use blue_thread.BackTrace.{BackTrace}
use blue_thread.RwLock.{PthreadRwLock, ReadersWriter}
use blue_thread.SharedMutex.{SharedWorld}
use blue_thread.SharedMutex.Plain.{IsAt, lock_shared_open, unlock_shared_open}
use blue_thread.Heartbeat.{
  Handle, HeartbeatMap, is_past, find_handle, check_all, is_healthy, on_rwlock,
}
use blue_thread.Heartbeat.Deadlines.{check-Verdict}
use blue_thread.Heartbeat.Workers.{IsWellFormed}

-- A handle whose deadline, or suicide deadline, is over.
abbrev pub is_late : Option Handle → ℕ → Bool
is_late none now = false
is_late (some h) now = is_past h.timeout now

abbrev pub is_dead : Option Handle → ℕ → Bool
is_dead none now = false
is_dead (some h) now = is_past h.suicide_timeout now

abbrev pub count_late : (ℕ → Option Handle) → ℕ → List ℕ → ℕ
count_late handles now [] = 0
count_late handles now (a ∷ rest) =
    (if is_late (handles a) now then 1 else 0) + count_late handles now rest

abbrev pub any_dead : (ℕ → Option Handle) → ℕ → List ℕ → Bool
any_dead handles now [] = false
any_dead handles now (a ∷ rest) = is_dead (handles a) now || any_dead handles now rest

module _ {Native : Type 0} where
  abbrev checked :
      Bool → Bool → ℕ → ℕ → HeartbeatMap Native → Outcome (HeartbeatMap Native) (Bool × ℕ × ℕ)
  checked true healthy unhealthy total s = aborted s
  checked false healthy unhealthy total s = done (healthy, unhealthy, total) s

  one_more :
      (ok : Bool) (u t c n : ℕ) (dead : Bool) (s : HeartbeatMap Native)
      → (checked dead ((ok && false) && (c == 0)) (u + 1 + c) (t + 1 + n) s
          ≡ checked dead (ok && (1 + c == 0)) (u + (1 + c)) (t + suc n) s)
        × (checked dead ((ok && true) && (c == 0)) (u + c) (t + 1 + n) s
            ≡ checked dead (ok && (0 + c == 0)) (u + (0 + c)) (t + suc n) s)
  one_more ok u t c n true s = (refl, refl)
  one_more ok u t c n false s = ground arith

  check_all-eq :
      (ws : List ℕ) (now : ℕ) (ok : Bool) (u t : ℕ) (s : HeartbeatMap Native)
      → ((a : ℕ) → In a ws → s.handles a ≢ none)
      → check_all ws now ok u t s
        ≡ checked
            (any_dead s.handles now ws)
            (ok && (count_late s.handles now ws == 0))
            (u + count_late s.handles now ws)
            (t + length ws)
            s
  unfolding check_all find_handle
  check_all-eq [] now ok u t s h = ground arith
  check_all-eq (a ∷ rest) now ok u t s h = elim (Option-cases (s.handles a)) [
    | inl e ↦ absurd (h a (inl refl) e)
    | inr (v, e) ↦ elim (Bool-cases (is_past v.suicide_timeout now)) [
      | inl d ↦ rw (e, check-Verdict v now s, d) refl
      | inr d ↦
          let dead = any_dead s.handles now rest in
          let late = count_late s.handles now rest in
          elim (Bool-cases (is_past v.timeout now)) [
            | inl l ↦
                rw
                  (
                    e,
                    check-Verdict v now s,
                    d,
                    l,
                    check_all-eq rest now (ok && false) (u + 1) (t + 1) s (λ b m. h b (inr m)),
                  )
                  ((one_more ok u t late (length rest) dead s).0)
            | inr l ↦
                rw
                  (
                    e,
                    check-Verdict v now s,
                    d,
                    l,
                    check_all-eq rest now (ok && true) u (t + 1) s (λ b m. h b (inr m)),
                  )
                  ((one_more ok u t late (length rest) dead s).1)
          ]
    ]
  ]

module _ {Native : Type 0} {p : PthreadRwLock Native} (c : ReadersWriter p) where
  abbrev pub HealthEnds : HeartbeatMap Native → ℕ → Outcome (HeartbeatMap Native) Bool → Type 0
  HealthEnds s now (done r t) =
      (any_dead s.handles now s.workers ≡ false)
      × (r ≡ (count_late s.handles now s.workers == 0))
      × (t.unhealthy_workers ≡ count_late s.handles now s.workers)
      × (t.total_workers ≡ length s.workers)
      × (t.workers ≡ s.workers)
      × (t.handles ≡ s.handles)
      × IsWellFormed c t
  HealthEnds s now (aborted t) = any_dead s.handles now s.workers ≡ true
  HealthEnds s now (blocked t) = t ≡ s
  HealthEnds s now _ = ⊥

  -- The map after is_healthy() has returned.
  abbrev reported : HeartbeatMap Native → ℕ → ℕ → SharedWorld Native → HeartbeatMap Native
  reported s u n w = record s { rwlock = w; unhealthy_workers = u; total_workers = n }

  reported-IsWellFormed :
      (s : HeartbeatMap Native) (u n : ℕ) (w : SharedWorld Native)
      → IsWellFormed c s
      → IsAt c none 0 w
      → IsWellFormed c (reported s u n w)
  reported-IsWellFormed s u n w v o = record {
    open_lock = o;
    distinct = v.distinct;
    allocated = v.allocated;
    listed = v.listed;
    fresh = v.fresh;
    items = v.items;
    distinct_nodes = v.distinct_nodes;
    old_nodes = v.old_nodes;
  }

  -- is_healthy() of a well-formed map whose lock is free ends the process exactly if some worker is
  -- over its suicide deadline; else it returns whether no worker is over its deadline, stores the
  -- number of those that are and of all workers, and changes nothing else. It may also have to wait.
  pub is_healthy-HealthEnds :
      (tid : ℕ) (bt : BackTrace) (now : ℕ) (s : HeartbeatMap Native)
      → IsWellFormed c s
      → HealthEnds s now (is_healthy p tid bt now s)
  unfolding is_healthy on_rwlock
  is_healthy-HealthEnds tid bt now s v = elim (lock_shared_open c tid bt s.rwlock v.open_lock) [
    | inl e ↦ rw e refl
    | inr (w, e, o, mine) ↦
        let run = check_all-eq s.workers now true 0 0 (record s { rwlock = w }) v.allocated in
        elim (Bool-cases (any_dead s.handles now s.workers)) [
          | inl d ↦ rw (e, run, d) d
          | inr d ↦
              let (x, f, u) = unlock_shared_open c tid bt w o mine in
              rw (e, run, d, f)
                (d, refl, omega arith, omega arith, refl, refl, reported-IsWellFormed s _ _ x v u)
        ]
  ]
