-- ===== src/Heartbeat/Deadlines.antt =====
-- When the check of a handle fails after reset_timeout() and clear_timeout().
use blue_thread.Prelude.{
  ℕ, ◌+◌, ◌^◌, ◌<◌, ◌≡◌, refl, inl, inr, Bool, true, false, not, ◌&&◌, some, Option-cases,
  Bool-cases, ltb, leb, if◌then◌else◌, update, Outcome, done, aborted, bind_outcome, ==_refl, arith,
}
use blue_thread.Heartbeat.{
  Handle, HeartbeatMap, is_past, check, find_handle, put_handle, with_timeouts, reset_timeout,
  clear_timeout,
}
use blue_thread.Heartbeat.Time.{time_min, add64, signed_less-small, signed_less-negative}

-- A time point that is not before the epoch of the clock.
abbrev pub IsClock : ℕ → Type 0
IsClock t = t < 2 ^ 63

never_past : (now : ℕ) → is_past time_min now ≡ false
unfolding is_past
never_past now = refl

past-small : (was now : ℕ) → IsClock was → IsClock now → is_past was now ≡ ltb was now
unfolding is_past
past-small was now p q = ground (arith, signed_less-small was now p q)

past-negative : (was now : ℕ) → 2 ^ 63 < was → was < 2 ^ 64 → IsClock now → is_past was now ≡ true
unfolding is_past
past-negative was now p q r = ground (arith, signed_less-negative was now (omega arith) q r)

add64-small : (x y : ℕ) → x + y < 2 ^ 64 → add64 x y ≡ x + y
unfolding add64
add64-small x y h = omega arith

-- The suicide deadline as a condition on the times.
abbrev pub kills : ℕ → ℕ → ℕ → Bool
kills t suicide_grace later = ltb 0 suicide_grace && ltb (t + suicide_grace) later

timeout_past :
    (t g later : ℕ)
    → IsClock (t + g)
    → IsClock later
    → is_past (add64 t g) later ≡ ltb (t + g) later
timeout_past t g later p r = rw (add64-small t g (omega arith)) (past-small (t + g) later p r)

suicide_past :
    (t sg later : ℕ)
    → IsClock (t + sg)
    → IsClock later
    → is_past (if ltb 0 sg then add64 t sg else time_min) later ≡ kills t sg later
suicide_past t sg later p r = elim (Bool-cases (ltb 0 sg)) [
  | inl e ↦ rw e (timeout_past t sg later p r)
  | inr e ↦ rw e (never_past later)
]

not-ltb : (a b : ℕ) → not (ltb a b) ≡ leb b a
not-ltb a b = ground arith

module _ {Native : Type 0} where
  -- What a check gives when the suicide deadline is over or not.
  abbrev pub Verdict : Bool → Bool → HeartbeatMap Native → Outcome (HeartbeatMap Native) Bool
  Verdict true healthy s = aborted s
  Verdict false healthy s = done healthy s

  pub check-Verdict :
      (h : Handle) (now : ℕ) (s : HeartbeatMap Native)
      → check h now s ≡ Verdict (is_past h.suicide_timeout now) (not (is_past h.timeout now)) s
  unfolding check
  check-Verdict h now s = elim (Bool-cases (is_past h.suicide_timeout now)) [
    | inl e ↦ rw e refl
    | inr e ↦ rw e refl
  ]

  check-with_timeouts :
      (t g sg later : ℕ) (h : Handle) (s : HeartbeatMap Native)
      → IsClock (t + g)
      → IsClock (t + sg)
      → IsClock later
      → check (with_timeouts t g sg h) later s ≡ Verdict (kills t sg later) (leb later (t + g)) s
  unfolding with_timeouts
  check-with_timeouts t g sg later h s p q r =
      rw
        (
          check-Verdict (with_timeouts t g sg h) later s,
          timeout_past t g later p r,
          suicide_past t sg later q r,
          not-ltb (t + g) later,
        )
        refl

  -- A call that returns has found the handle, which did not have to die.
  reset-put :
      (t a g sg : ℕ) (s s' : HeartbeatMap Native)
      → reset_timeout t a g sg s ≡ done tt s'
      → (h : Handle) × (s.handles a ≡ some h)
        × (s' ≡ record s { handles = update s.handles a (some (with_timeouts t g sg h)) })
  unfolding reset_timeout find_handle put_handle
  reset-put t a g sg s s' e = elim (Option-cases (s.handles a)) [
    | inl f ↦ absurd (ground arith)
    | inr (h, f) ↦ elim (Bool-cases (is_past h.suicide_timeout t)) [
      | inl d ↦ absurd (ground (arith, check-Verdict h t s))
      | inr d ↦ (h, f, ground (arith, check-Verdict h t s))
    ]
  ]

  clear-put :
      (t a : ℕ) (s s' : HeartbeatMap Native)
      → clear_timeout t a s ≡ done tt s'
      → (h : Handle) × (s.handles a ≡ some h)
        × (s' ≡ record s {
          handles =
              update s.handles a
                (some (record h { timeout = time_min; suicide_timeout = time_min }));
        })
  unfolding clear_timeout find_handle put_handle
  clear-put t a s s' e = elim (Option-cases (s.handles a)) [
    | inl f ↦ absurd (ground arith)
    | inr (h, f) ↦ elim (Bool-cases (is_past h.suicide_timeout t)) [
      | inl d ↦ absurd (ground (arith, check-Verdict h t s))
      | inr d ↦ (h, f, ground (arith, check-Verdict h t s))
    ]
  ]

  -- _check() through the pointer, as is_healthy() calls it.
  abbrev pub inspect : ℕ → ℕ → HeartbeatMap Native → Outcome (HeartbeatMap Native) Bool
  inspect a now s = bind_outcome (find_handle a s) (λ h. check h now)

  inspect_put :
      (a now : ℕ) (h : Handle) (s : HeartbeatMap Native)
      → inspect a now (record s { handles = update s.handles a (some h) })
        ≡ check h now (record s { handles = update s.handles a (some h) })
  unfolding find_handle
  inspect_put a now h s = rw (==_refl a) refl

  -- After reset_timeout() at time `t`, a check at time `later` is healthy exactly if the grace is not
  -- over, and it ends the process exactly if there is a suicide grace and it is over. The sums have to
  -- fit in a signed time.
  pub reset-Verdict :
      (t a g sg later : ℕ) (s s' : HeartbeatMap Native)
      → reset_timeout t a g sg s ≡ done tt s'
      → IsClock (t + g)
      → IsClock (t + sg)
      → IsClock later
      → inspect a later s' ≡ Verdict (kills t sg later) (leb later (t + g)) s'
  reset-Verdict t a g sg later s s' e p q r =
      let (h, f, put) = reset-put t a g sg s s' e in
      rw (put, inspect_put a later (with_timeouts t g sg h) s)
        (check-with_timeouts t g sg later h
          (record s { handles = update s.handles a (some (with_timeouts t g sg h)) }) p q r)

  -- A grace with which the deadline, its sum with the time, lies strictly between 2^63 and 2^64 is over
  -- at once: with no suicide grace, every check after reset_timeout() says that the worker is not
  -- healthy, however early it is.
  pub reset_overflow :
      (t a g later : ℕ) (s s' : HeartbeatMap Native)
      → reset_timeout t a g 0 s ≡ done tt s'
      → 2 ^ 63 < t + g
      → t + g < 2 ^ 64
      → IsClock later
      → inspect a later s' ≡ done false s'
  unfolding with_timeouts
  reset_overflow t a g later s s' e p q r =
      let (h, f, put) = reset-put t a g 0 s s' e in
      rw
        (
          put,
          inspect_put a later (with_timeouts t g 0 h) s,
          check-Verdict (with_timeouts t g 0 h) later
              (record s { handles = update s.handles a (some (with_timeouts t g 0 h)) }),
          never_past later,
          add64-small t g q,
          past-negative (t + g) later p q r,
        )
        refl

  -- After clear_timeout() every check of the handle is healthy, at any time, until the next reset.
  pub clear-healthy :
      (t a later : ℕ) (s s' : HeartbeatMap Native)
      → clear_timeout t a s ≡ done tt s'
      → inspect a later s' ≡ done true s'
  clear-healthy t a later s s' e =
      let (h, f, put) = clear-put t a s s' e in
      rw
        (
          put,
          inspect_put a later (record h { timeout = time_min; suicide_timeout = time_min }) s,
          check-Verdict (record h { timeout = time_min; suicide_timeout = time_min }) later
              (record s {
                handles =
                    update s.handles a
                      (some (record h { timeout = time_min; suicide_timeout = time_min }));
              }),
          never_past later,
        )
        refl
