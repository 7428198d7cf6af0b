-- ===== src/ThreadPool/Invariant/Clients.antt =====
-- The steps of the threads that call the pool keep the counts of those in pause() and drain().
use blue_thread.Prelude.{
  ℕ, ◌<◌, ◌≡◌, ◌≢◌, refl, sym, ap, ◌∙◌, inl, inr, Bool, true, false, pos, Bool-cases, ltb, ltb→lt,
  total, total-congr, total-update, weight-le-total, update, arith,
}
use blue_thread.Prelude.Integer.{increment, decrement, is_zero}
use blue_thread.ThreadPool.{Pool}
use blue_thread.ThreadPool.Calls.{
  ClientAt, outside, pausing, holding, draining_at, stopping, joined, wake,
}
use blue_thread.ThreadPool.System.{notify}
use blue_thread.ThreadPool.Invariant.{in_pause, in_drain, ClientInv}

pub wake-in_pause : (c : ClientAt) → in_pause (wake c) ≡ in_pause c
unfolding wake
wake-in_pause outside = refl
wake-in_pause (pausing b) = refl
wake-in_pause holding = refl
wake-in_pause (draining_at w b) = refl
wake-in_pause stopping = refl
wake-in_pause joined = refl

wake-in_drain : (c : ClientAt) → in_drain (wake c) ≡ in_drain c
unfolding wake
wake-in_drain outside = refl
wake-in_drain (pausing b) = refl
wake-in_drain holding = refl
wake-in_drain (draining_at w b) = refl
wake-in_drain stopping = refl
wake-in_drain joined = refl

module _ {Q U : Type 0} {m : ℕ} {client : ℕ → ClientAt} {s : Pool Q U}
    (v : ClientInv m client s) where
  pub kept-ClientInv :
      (t : Pool Q U) → t.paused ≡ s.paused → t.draining ≡ s.draining → ClientInv m client t
  kept-ClientInv t e f = record {
    pauses = e ∙ v.pauses;
    drains = f ∙ v.drains;
    strangers = v.strangers;
  }

  -- A notification moves nobody in or out of a call.
  pub notify-ClientInv : (b : Bool) → ClientInv m (notify b client) s
  unfolding notify wake
  notify-ClientInv true = record {
    pauses = v.pauses ∙ ap pos (total-congr in_pause m _ _ (λ j h. sym (wake-in_pause (client j))));
    drains = v.drains ∙ ap pos (total-congr in_drain m _ _ (λ j h. sym (wake-in_drain (client j))));
    strangers = λ j h. rw (v.strangers j h) refl;
  }
  notify-ClientInv false = v

  module _ (j : ℕ) (lt : j < m) (c : ClientAt) (t : Pool Q U) where
    -- One thread moves, and the pool follows.
    pub moved-ClientInv :
        t.paused ≡ pos (total in_pause m (update client j c))
        → t.draining ≡ pos (total in_drain m (update client j c))
        → ClientInv m (update client j c) t
    moved-ClientInv n k = record {
      pauses = n;
      drains = k;
      strangers = λ i h. ground (arith, v.strangers i h);
    }

    -- It stays in the call that it is in.
    pub stays-ClientInv :
        in_pause c ≡ in_pause (client j)
        → in_drain c ≡ in_drain (client j)
        → t.paused ≡ s.paused
        → t.draining ≡ s.draining
        → ClientInv m (update client j c) t
    stays-ClientInv e f n k =
        moved-ClientInv
          (n ∙ v.pauses ∙ ap pos (omega (arith, total-update in_pause m j client c lt)))
          (k ∙ v.drains ∙ ap pos (omega (arith, total-update in_drain m j client c lt)))

    pub enters_pause-ClientInv :
        in_pause c ≡ 1
        → in_drain c ≡ 0
        → client j ≡ outside
        → t.paused ≡ increment s.paused
        → t.draining ≡ s.draining
        → ClientInv m (update client j c) t
    enters_pause-ClientInv e f a n k =
        moved-ClientInv (ground (arith, v.pauses, total-update in_pause m j client c lt))
          (ground (arith, v.drains, total-update in_drain m j client c lt))

    pub enters_drain-ClientInv :
        in_pause c ≡ 0
        → in_drain c ≡ 1
        → client j ≡ outside
        → t.paused ≡ s.paused
        → t.draining ≡ increment s.draining
        → ClientInv m (update client j c) t
    enters_drain-ClientInv e f a n k =
        moved-ClientInv (ground (arith, v.pauses, total-update in_pause m j client c lt))
          (ground (arith, v.drains, total-update in_drain m j client c lt))

    pub leaves_pause-ClientInv :
        in_pause c ≡ 0
        → in_drain c ≡ 0
        → client j ≡ holding
        → t.paused ≡ decrement s.paused
        → t.draining ≡ s.draining
        → ClientInv m (update client j c) t
    leaves_pause-ClientInv e f a n k =
        moved-ClientInv
          (ground (
            arith,
            v.pauses,
            total-update in_pause m j client c lt,
            weight-le-total in_pause m j client lt,
          ))
          (ground (arith, v.drains, total-update in_drain m j client c lt))

    pub leaves_drain-ClientInv :
        in_pause c ≡ 0
        → in_drain c ≡ 0
        → in_pause (client j) ≡ 0
        → in_drain (client j) ≡ 1
        → t.paused ≡ s.paused
        → t.draining ≡ decrement s.draining
        → ClientInv m (update client j c) t
    leaves_drain-ClientInv e f a b n k =
        moved-ClientInv (ground (arith, v.pauses, total-update in_pause m j client c lt)) (
          ground (
            arith,
            v.drains,
            total-update in_drain m j client c lt,
            weight-le-total in_drain m j client lt,
          ))

  -- A thread in a call has its number below `m`.
  pub inside-lt : (j : ℕ) → client j ≢ outside → j < m
  inside-lt j ne = elim (Bool-cases (ltb j m)) [
    | inl e ↦ ltb→lt j m e
    | inr e ↦ absurd (ne (v.strangers j (ground arith)))
  ]

  pub in_pause-paused : (j : ℕ) → in_pause (client j) ≡ 1 → is_zero s.paused ≡ false
  in_pause-paused j a =
      ground (arith, v.pauses, weight-le-total in_pause m j client (inside-lt j (ground arith)))

  pub in_drain-draining : (j : ℕ) → in_drain (client j) ≡ 1 → is_zero s.draining ≡ false
  in_drain-draining j a =
      ground (arith, v.drains, weight-le-total in_drain m j client (inside-lt j (ground arith)))
