-- ===== src/Synch/Usage/Exclusion.antt =====
-- What every world that a lock of threads/synch.c can reach satisfies: mutual exclusion, no failed
-- ASSERT and no lost wake-up.
use oscourse_all_files.Common.{
  ℕ, ◌≡◌, ◌≢◌, inl, inr, refl, sym, ◌∙◌, Bool, true, [], ok, ok_value, ◌==◌, arith, ==_iff,
}
use oscourse_all_files.Threads.{Threads, thread_yield}
use oscourse_all_files.Threads.Schedule.{IsScheduled}
use oscourse_all_files.Synch.{
  Semaphore, Lock, holds, sema_down_round, sema_up, lock_acquire_start, lock_acquire_end,
  lock_release_start, lock_init, sema_init,
}
use oscourse_all_files.Synch.Usage.{
  Phase, outside, trying, taken, inside, dropping, World, now, Step, acquire, down, own,
  try_acquire, release, up, yield, block_elsewhere, unblock_elsewhere, exit, Reachable, start, next,
}
use oscourse_all_files.Synch.Usage.Invariant.{is_trying, can_run, IsSafe, Counts, NotLost}
use oscourse_all_files.Synch.Usage.Move.{acquire-IsSafe, own-IsSafe}
use oscourse_all_files.Synch.Usage.Safety.{
  after_down, after_try, after_release, after_up, lock_acquire_start_lem, sema_down_round_lem,
  lock_try_acquire_start_lem, lock_release_start_lem, sema_up_lem, yield_lem, block_lem, exit_lem,
  unblock_lem,
}

Step-IsSafe : {w w' : World} → IsSafe w → Step w w' → IsSafe w'
unfolding lock_acquire_end
Step-IsSafe s (acquire h ne e) = acquire-IsSafe s h ne
Step-IsSafe {w} s (down h e) = ok_value (λ r. IsSafe (after_down w r)) (sema_down_round_lem s h) e
Step-IsSafe s (own h) = own-IsSafe s h
Step-IsSafe {w} s (try_acquire h ne e) =
    ok_value (λ r. IsSafe (after_try w r)) (lock_try_acquire_start_lem s h ne) e
Step-IsSafe {w} s (release h e) =
    ok_value (λ r. IsSafe (after_release w r)) (lock_release_start_lem s h) e
Step-IsSafe {w} s (up h e) = ok_value (λ r. IsSafe (after_up w r)) (sema_up_lem s h) e
Step-IsSafe {w} s (yield e) = ok_value (λ k. IsSafe (record w { threads = k })) (yield_lem s) e
Step-IsSafe {w} s (block_elsewhere h e) =
    ok_value (λ k. IsSafe (record w { threads = k })) (block_lem s h) e
Step-IsSafe s (unblock_elsewhere t h ne e) = unblock_lem s t h ne e
Step-IsSafe {w} s (exit h e) = ok_value (λ k. IsSafe (record w { threads = k })) (exit_lem s h) e

module _ {k : Threads} (s : IsScheduled k) where
  Reachable-IsSafe : {w : World} → Reachable k w → IsSafe w
  unfolding lock_init sema_init
  Reachable-IsSafe start = record {
    scheduled = s;
    idle_outside = refl;
    counts = inl (refl, λ t. refl);
    held = λ t. refl;
    waiting = λ t. refl;
    not_lost = inr (inl refl);
  }
  Reachable-IsSafe (next r st) = Step-IsSafe (Reachable-IsSafe r) st

  -- From scheduled threads and a new lock, in every reachable world at most one thread is between
  -- the return of `lock_acquire` and `lock_release`, and it is the lock's holder.
  pub mutual_exclusion :
      {w : World}
      → Reachable k w
      → (t : ℕ) → w.phase t ≡ inside
      → (holds t w.lock.holder ≡ true) × ((u : ℕ) → w.phase u ≡ inside → u ≡ t)
  mutual_exclusion {w} r t h = (ground (arith, safe.held t, h), λ u hu. only (safe.counts) u hu)
    where
      safe : IsSafe w
      safe = Reachable-IsSafe r

      only : Counts w.lock.semaphore.value w.phase → (u : ℕ) → w.phase u ≡ inside → u ≡ t
      only (inl (v, nobody)) u hu = absurd (ground (arith, nobody t, h))
      only (inr (v, (o, one))) u hu =
          let a : (t == o) ≡ true = ground (arith, one t, h) in
          let b : (u == o) ≡ true = ground (arith, one u, hu) in
          (==_iff u o).0 b ∙ sym ((==_iff t o).0 a)

  -- From scheduled threads and a new lock, in every reachable world each operation of the thread
  -- that runs returns, so that no ASSERT fails: the start of `lock_acquire` outside, a round of
  -- `sema_down`, `lock_release` up to `sema_up`, `sema_up`, which unblocks a waiter, and a
  -- yield at any time.
  pub asserts_hold :
      {w : World}
      → Reachable k w
      → (w.phase (now w) ≡ outside → lock_acquire_start w.threads w.lock ≡ ok tt)
        × (w.phase (now w) ≡ trying
            → (r : Bool × (Threads × Semaphore)) × (sema_down_round w.threads w.lock.semaphore
                ≡ ok r))
        × (w.phase (now w) ≡ inside → (l : Lock) × (lock_release_start w.threads w.lock ≡ ok l))
        × (w.phase (now w) ≡ dropping
            → (r : Threads × Semaphore) × (sema_up w.threads w.lock.semaphore ≡ ok r))
        × ((k' : Threads) × (thread_yield w.threads ≡ ok k'))
  asserts_hold {w} r = (
    lock_acquire_start_lem safe,
    λ h. let (x, e, _) = sema_down_round_lem safe h in (x, e),
    λ h. let (x, e, _) = lock_release_start_lem safe h in (x, e),
    λ h. let (x, e, _) = sema_up_lem safe h in (x, e),
    (let (x, e, _) = yield_lem safe in (x, e)),
  )
    where
      safe : IsSafe w
      safe = Reachable-IsSafe r

  -- From scheduled threads and a new lock, in every reachable world in which the semaphore of the
  -- lock is not 0 while threads wait for it, some thread in the loop of `sema_down` is ready or
  -- running: a wake-up is never lost.
  pub no_lost_wakeup :
      {w : World}
      → Reachable k w
      → w.lock.semaphore.value ≢ 0
      → w.lock.semaphore.waiters ≢ []
      → (t : ℕ) × (w.phase t ≡ trying) × (can_run (w.threads.status t) ≡ true)
  no_lost_wakeup {w} r free some_wait = from ((Reachable-IsSafe r).not_lost)
    where
      in_loop : (p : Phase) → is_trying p ≡ true → p ≡ trying
      in_loop outside h = absurd (ground arith)
      in_loop trying h = refl
      in_loop taken h = absurd (ground arith)
      in_loop inside h = absurd (ground arith)
      in_loop dropping h = absurd (ground arith)

      from :
          NotLost w.threads w.lock.semaphore w.phase
          → (t : ℕ) × (w.phase t ≡ trying) × (can_run (w.threads.status t) ≡ true)
      from (inl z) = absurd (free z)
      from (inr (inl e)) = absurd (some_wait e)
      from (inr (inr (t, g, c))) = (t, in_loop (w.phase t) g, c)
