-- ===== src/Synch/Usage.antt =====
-- The life of a lock of threads/synch.c: the threads that use it, step by step, under a scheduler
-- that may switch threads wherever interrupts are on.
pub mod Invariant
pub mod Move
pub mod Switch
pub mod Safety
pub mod Exclusion
use oscourse_all_files.Common.{
  ℕ, ◌≡◌, ◌≢◌, Bool, true, false, Option, List, ok, if◌then◌else◌, update,
}
use oscourse_all_files.Threads.{
  Threads, is_blocked, thread_block, thread_unblock, thread_yield, thread_exit,
}
use oscourse_all_files.Synch.{
  Semaphore, Lock, sema_down_round, sema_up, lock_acquire_start, lock_acquire_end,
  lock_try_acquire_start, lock_release_start, lock_init,
}

-- Where a thread is: outside, in the loop of `sema_down`, with the semaphore but not yet the
-- holder, between `lock_acquire` and `lock_release`, or in `lock_release` before `sema_up`.
pub data Phase : Type 0 where
  outside trying taken inside dropping : Phase

pub record World : Type 0 where
  pub threads : Threads
  pub lock : Lock
  pub phase : ℕ → Phase

abbrev pub now : World → ℕ
now w = w.threads.current

abbrev pub move : World → Phase → ℕ → Phase
move w p = update w.phase (now w) p

abbrev pub with_semaphore : Lock → Semaphore → Lock
with_semaphore l s = record l { semaphore = s }

-- A step of the running thread, of another part of the kernel that it is in, or of the timer. The
-- idle thread uses no lock.
pub data Step : World → World → Type 0 where
  acquire :
      {w : World}
      → w.phase (now w) ≡ outside
      → now w ≢ w.threads.idle_thread
      → lock_acquire_start w.threads w.lock ≡ ok tt
      → Step w (record w { phase = move w trying })
  down :
      {w : World} {got : Bool} {k : Threads} {s : Semaphore}
      → w.phase (now w) ≡ trying
      → sema_down_round w.threads w.lock.semaphore ≡ ok (got, (k, s))
      → Step w (record {
        threads = k;
        lock = with_semaphore w.lock s;
        phase = move w (if got then taken else trying);
      })
  own :
      {w : World}
      → w.phase (now w) ≡ taken
      → Step w (record w { lock = lock_acquire_end w.threads w.lock; phase = move w inside })
  try_acquire :
      {w : World} {success : Bool} {l : Lock}
      → w.phase (now w) ≡ outside
      → now w ≢ w.threads.idle_thread
      → lock_try_acquire_start w.threads w.lock ≡ ok (success, l)
      → Step w (record w { lock = l; phase = move w (if success then taken else outside) })
  release :
      {w : World} {l : Lock}
      → w.phase (now w) ≡ inside
      → lock_release_start w.threads w.lock ≡ ok l
      → Step w (record w { lock = l; phase = move w dropping })
  up :
      {w : World} {k : Threads} {s : Semaphore}
      → w.phase (now w) ≡ dropping
      → sema_up w.threads w.lock.semaphore ≡ ok (k, s)
      → Step w (record { threads = k; lock = with_semaphore w.lock s; phase = move w outside })
  yield :
      {w : World} {k : Threads} → thread_yield w.threads ≡ ok k → Step w (record w { threads = k })
  block_elsewhere :
      {w : World} {k : Threads}
      → w.phase (now w) ≡ outside
      → thread_block w.threads ≡ ok k
      → Step w (record w { threads = k })
  unblock_elsewhere :
      {w : World} {k : Threads} (t : ℕ)
      → w.phase t ≡ outside
      → t ≢ w.threads.idle_thread
      → thread_unblock w.threads t ≡ ok k
      → Step w (record w { threads = k })
  exit :
      {w : World} {k : Threads}
      → w.phase (now w) ≡ outside
      → thread_exit w.threads ≡ ok k
      → Step w (record w { threads = k })

-- The worlds that can be reached from one in which the lock is new.
pub data Reachable (k : Threads) : World → Type 0 where
  start : Reachable k (record { threads = k; lock = lock_init; phase = λ t. outside })
  next : {w w' : World} → Reachable k w → Step w w' → Reachable k w'
