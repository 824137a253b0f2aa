-- ===== src/Synch/Usage/Invariant.antt =====
-- What every reachable world of a lock of threads/synch.c satisfies.
use oscourse_all_files.Common.{
  ℕ, ◌≡◌, ◌⊎◌, Bool, true, false, ◌&&◌, ◌||◌, List, [], ◌==◌, if◌then◌else◌,
}
use oscourse_all_files.Threads.{ThreadStatus, is_running, is_ready, is_blocked, Threads}
use oscourse_all_files.Threads.Queue.{occurs}
use oscourse_all_files.Threads.Schedule.{IsScheduled}
use oscourse_all_files.Synch.{Semaphore, holds}
use oscourse_all_files.Synch.Usage.{Phase, outside, trying, taken, inside, dropping, World}

abbrev pub is_trying : Phase → Bool
is_trying outside = false
is_trying trying = true
is_trying taken = false
is_trying inside = false
is_trying dropping = false

-- The phases in which a thread has decremented the semaphore.
abbrev pub has_taken : Phase → Bool
has_taken outside = false
has_taken trying = false
has_taken taken = true
has_taken inside = true
has_taken dropping = true

abbrev pub is_inside : Phase → Bool
is_inside outside = false
is_inside trying = false
is_inside taken = false
is_inside inside = true
is_inside dropping = false

abbrev pub can_run : ThreadStatus → Bool
can_run st = is_ready st || is_running st

-- The semaphore counts the threads that have taken it, of which there is at most one.
abbrev pub Counts : ℕ → (ℕ → Phase) → Type 0
Counts value phase =
    ((value ≡ 1) × ((t : ℕ) → has_taken (phase t) ≡ false))
    ⊎ ((value ≡ 0) × ((o : ℕ) × ((t : ℕ) → has_taken (phase t) ≡ (t == o))))

-- Where the semaphore is free, nobody waits or somebody is on the way to take it.
abbrev pub NotLost : Threads → Semaphore → (ℕ → Phase) → Type 0
NotLost k s phase =
    (s.value ≡ 0)
    ⊎ ((s.waiters ≡ []) ⊎ ((t : ℕ) × (is_trying (phase t) ≡ true) × (can_run (k.status t) ≡ true)))

-- The waiters are the threads that are blocked in the loop of `sema_down`.
abbrev pub Waiting : Threads → List ℕ → (ℕ → Phase) → Type 0
Waiting k waiters phase =
    (t : ℕ) → occurs t waiters ≡ (if is_trying (phase t) && is_blocked (k.status t) then 1 else 0)

pub record IsSafe (w : World) : Type 0 where
  pub scheduled : IsScheduled w.threads
  pub idle_outside : w.phase w.threads.idle_thread ≡ outside
  pub counts : Counts w.lock.semaphore.value w.phase
  pub held : (t : ℕ) → is_inside (w.phase t) ≡ holds t w.lock.holder
  pub waiting : Waiting w.threads w.lock.semaphore.waiters w.phase
  pub not_lost : NotLost w.threads w.lock.semaphore w.phase
