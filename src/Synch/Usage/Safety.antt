-- ===== src/Synch/Usage/Safety.antt =====
-- Each operation of a lock of threads/synch.c in a safe world: it returns, and the world after it is
-- safe.
use oscourse_all_files.Common.{
  ℕ, ◌-◌, ◌≡◌, ◌≢◌, inl, inr, refl, sym, ◌∙◌, ap, Bool, true, false, none, List, [], ◌∷◌, ◌++◌, ok,
  panic, ok_value, ◌==◌, if◌then◌else◌, arith, Bool-cases, ==_iff,
}
use oscourse_all_files.Threads.{
  ready, blocked, dying, is_blocked, Threads, thread_block, thread_unblock, thread_yield,
  thread_exit,
}
use oscourse_all_files.Threads.Schedule.{
  IsScheduled, thread_unblock_panics, thread_unblock_lem, thread_block_lem, thread_yield_lem,
  thread_exit_lem,
}
use oscourse_all_files.Synch.{
  Semaphore, Lock, holds, sema_down_round, sema_try_down, wake_first, sema_up,
  lock_held_by_current_thread, lock_acquire_start, lock_try_acquire_start, lock_release_start,
}
use oscourse_all_files.Synch.Usage.{
  Phase, outside, trying, taken, inside, dropping, World, now, move, with_semaphore,
}
use oscourse_all_files.Synch.Usage.Invariant.{IsSafe}
use oscourse_all_files.Synch.Usage.Move.{take-IsSafe, release-IsSafe, NotLost-move, Counts-move}
use oscourse_all_files.Synch.Usage.Switch.{
  switch-IsSafe, wait-IsSafe, up_alone-IsSafe, up_waiter-IsSafe, upped,
}

-- The world after a result of each operation.
abbrev pub after_down : (w : World) → Bool × (Threads × Semaphore) → World
after_down w (got, (k, s)) = record {
  threads = k;
  lock = with_semaphore w.lock s;
  phase = move w (if got then taken else trying);
}

abbrev pub after_try : (w : World) → Bool × Lock → World
after_try w (success, l) = record w {
  lock = l;
  phase = move w (if success then taken else outside);
}

abbrev pub after_release : (w : World) → Lock → World
after_release w l = record w { lock = l; phase = move w dropping }

abbrev pub after_up : (w : World) → Threads × Semaphore → World
after_up w (k, s) = record { threads = k; lock = with_semaphore w.lock s; phase = move w outside }

module _ {w : World} (s : IsSafe w) where
  -- A thread in the loop of `sema_down` is not the idle thread.
  fewer : Semaphore
  fewer = record w.lock.semaphore { value = w.lock.semaphore.value - 1 }

  not_idle : (p : Phase) → w.phase (now w) ≡ p → p ≢ outside → now w ≢ w.threads.idle_thread
  not_idle p h ne i = ne (sym h ∙ ap w.phase i ∙ s.idle_outside)

  pub lock_acquire_start_lem :
      w.phase (now w) ≡ outside → lock_acquire_start w.threads w.lock ≡ ok tt
  unfolding lock_acquire_start lock_held_by_current_thread
  lock_acquire_start_lem h =
      let free : holds (now w) w.lock.holder ≡ false = ground (arith, s.held (now w), h) in
      rw free refl

  pub sema_down_round_lem :
      w.phase (now w) ≡ trying
      → (r : Bool × (Threads × Semaphore)) × (sema_down_round w.threads w.lock.semaphore ≡ ok r)
        × IsSafe (after_down w r)
  unfolding sema_down_round fewer
  sema_down_round_lem h = elim (Bool-cases (w.lock.semaphore.value == 0)) [
    | inl e ↦
        let (k, ek, sw) = thread_block_lem s.scheduled in
        (
          (
            false,
            (k, record w.lock.semaphore { waiters = w.lock.semaphore.waiters ++ (now w ∷ []) }),
          ),
          rw (e, ek) refl,
          wait-IsSafe s h ((==_iff _ 0).0 e) sw,
        )
    | inr e ↦ (
      (true, (w.threads, fewer)),
      rw e refl,
      take-IsSafe s (rw h refl) (not_idle trying h (λ n. ground (arith, n)))
          (λ n. ground (arith, ==_iff w.lock.semaphore.value 0, e, n)),
    )
  ]

  pub lock_try_acquire_start_lem :
      w.phase (now w) ≡ outside
      → now w ≢ w.threads.idle_thread
      → (r : Bool × Lock) × (lock_try_acquire_start w.threads w.lock ≡ ok r)
        × IsSafe (after_try w r)
  unfolding lock_try_acquire_start sema_try_down lock_held_by_current_thread fewer
  lock_try_acquire_start_lem h ne = elim (Bool-cases (w.lock.semaphore.value == 0)) [
    | inl e ↦ ((false, w.lock), rw (free, e) refl, stays)
    | inr e ↦ (
      (true, with_semaphore w.lock fewer),
      rw (free, e) refl,
      take-IsSafe s (rw h refl) ne (λ n. ground (arith, ==_iff w.lock.semaphore.value 0, e, n)),
    )
  ]
    where
      free : holds (now w) w.lock.holder ≡ false
      free = ground (arith, s.held (now w), h)

      stays : IsSafe (record w { phase = move w outside })
      stays = record {
        scheduled = s.scheduled;
        idle_outside = ground (arith, s.idle_outside);
        counts = Counts-move w.phase (now w) outside (rw h refl) s.counts;
        held = λ t. ground (arith, s.held t, h);
        waiting = λ t. ground (arith, s.waiting t, h);
        not_lost =
            NotLost-move w.threads w.threads w.phase (move w outside)
              (λ t g r. (ground (arith, g, h), r)) s.not_lost;
      }

  pub lock_release_start_lem :
      w.phase (now w) ≡ inside
      → (l : Lock) × (lock_release_start w.threads w.lock ≡ ok l) × IsSafe (after_release w l)
  unfolding lock_release_start lock_held_by_current_thread
  lock_release_start_lem h =
      let held : holds (now w) w.lock.holder ≡ true = ground (arith, s.held (now w), h) in
      (record w.lock { holder = none }, rw held refl, release-IsSafe s h)

  pub sema_up_lem :
      w.phase (now w) ≡ dropping
      → (r : Threads × Semaphore) × (sema_up w.threads w.lock.semaphore ≡ ok r)
        × IsSafe (after_up w r)
  unfolding sema_up wake_first
  sema_up_lem h = from w.lock.semaphore.waiters refl
    where
      from :
          (xs : List ℕ)
          → w.lock.semaphore.waiters ≡ xs
          → (r : Threads × Semaphore) × (sema_up w.threads w.lock.semaphore ≡ ok r)
            × IsSafe (after_up w r)
      from [] e = ((w.threads, upped s []), rw e refl, up_alone-IsSafe s h e)
      from (t ∷ ts) e =
          let (k, ek, safe) = up_waiter-IsSafe s h t ts e in
          ((k, upped s ts), rw (e, ek) refl, safe)

  pub yield_lem :
      (k : Threads) × (thread_yield w.threads ≡ ok k) × IsSafe (record w { threads = k })
  yield_lem =
      let (k, e, sw) = thread_yield_lem s.scheduled in (k, e, switch-IsSafe s ready _ sw (inr refl))

  pub block_lem :
      w.phase (now w) ≡ outside
      → (k : Threads) × (thread_block w.threads ≡ ok k) × IsSafe (record w { threads = k })
  block_lem h =
      let (k, e, sw) = thread_block_lem s.scheduled in
      (k, e, switch-IsSafe s blocked _ sw (inl (rw h refl)))

  pub exit_lem :
      w.phase (now w) ≡ outside
      → (k : Threads) × (thread_exit w.threads ≡ ok k) × IsSafe (record w { threads = k })
  exit_lem h =
      let (k, e, sw) = thread_exit_lem s.scheduled in
      (k, e, switch-IsSafe s dying _ sw (inl (rw h refl)))

  -- Another part of the kernel wakes a thread that is outside.
  pub unblock_lem :
      (t : ℕ) {k : Threads}
      → w.phase t ≡ outside
      → t ≢ w.threads.idle_thread
      → thread_unblock w.threads t ≡ ok k
      → IsSafe (record w { threads = k })
  unblock_lem t {k} h ne e = elim (Bool-cases (is_blocked (w.threads.status t))) [
    | inl b ↦
        ok_value (λ k. IsSafe (record w { threads = k }))
          (from (thread_unblock_lem s.scheduled t b ne)) e
    | inr b ↦ absurd (awake b e)
  ]
    where
      awake : is_blocked (w.threads.status t) ≡ false → thread_unblock w.threads t ≢ ok k
      awake b q =
          let p : thread_unblock w.threads t ≡ panic = thread_unblock_panics w.threads t b in cc

      from :
          (k : Threads) × (thread_unblock w.threads t ≡ ok k)
            × IsScheduled k
            × (k.current ≡ w.threads.current)
            × (k.idle_thread ≡ w.threads.idle_thread)
            × (k.ready_list ≡ w.threads.ready_list ++ (t ∷ []))
            × ((u : ℕ) → k.status u ≡ (if u == t then ready else w.threads.status u))
          → (k : Threads) × (thread_unblock w.threads t ≡ ok k) × IsSafe (record w { threads = k })
      from (k, ek, sk, ck, ik, _, st) = (
        k,
        ek,
        record {
          scheduled = sk;
          idle_outside = rw ik s.idle_outside;
          counts = s.counts;
          held = s.held;
          waiting = λ u. ground (arith, s.waiting u, st u, h);
          not_lost =
              NotLost-move w.threads k w.phase w.phase (λ u g r. (g, ground (arith, r, st u)))
                s.not_lost;
        },
      )
