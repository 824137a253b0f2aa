-- ===== src/Tests/Locks.antt =====
-- threads/synch.c with three threads besides the idle one, which is thread 0.
use oscourse_all_files.Common.{
  ℕ, ◌≡◌, refl, Bool, true, false, Option, none, some, List, [], ◌∷◌, ok, ◌==◌, if◌then◌else◌,
  arith, update,
}
use oscourse_all_files.Threads.{
  running, ready, blocked, Threads, next_thread_to_run, thread_schedule_tail, schedule,
  thread_unblock, thread_block, thread_yield,
}
use oscourse_all_files.Threads.Schedule.{
  IsScheduled, IsSwitch, leaving, thread_block_lem, thread_yield_lem, thread_unblock_lem,
}
use oscourse_all_files.Synch.{
  Semaphore, Lock, holds, sema_init, sema_down_round, wake_first, sema_up, lock_init,
  lock_held_by_current_thread, lock_acquire_start, lock_acquire_end, lock_release_start,
}
use oscourse_all_files.Synch.Usage.{
  outside, trying, taken, inside, dropping, World, acquire, down, own, release, up, yield,
  Reachable, start, next,
}
use oscourse_all_files.Synch.Usage.Invariant.{can_run}
use oscourse_all_files.Synch.Usage.Exclusion.{mutual_exclusion, asserts_hold, no_lost_wakeup}

-- Thread 1 runs, threads 2 and 3 are ready, and thread 4 is blocked.
abbrev three : Threads
three = record {
  status = λ t.
      if t == 1 then running else (if t == 2 then ready else (if t == 3 then ready else blocked));
  ready_list = 2 ∷ 3 ∷ [];
  idle_thread = 0;
  current = 1;
  thread_ticks = 0;
}

three-IsScheduled : IsScheduled three
three-IsScheduled = record {
  queue = record { listed = λ t. ground arith };
  one = λ t. ground arith;
}

thread_block_example :
    (k' : Threads) × (thread_block three ≡ ok k')
    × IsSwitch (leaving three-IsScheduled blocked (2 ∷ 3 ∷ [])) k'
thread_block_example = thread_block_lem three-IsScheduled

thread_yield_example :
    (k' : Threads) × (thread_yield three ≡ ok k')
    × IsSwitch (leaving three-IsScheduled ready (2 ∷ 3 ∷ 1 ∷ [])) k'
thread_yield_example = thread_yield_lem three-IsScheduled

thread_unblock_example :
    (k' : Threads) × (thread_unblock three 4 ≡ ok k')
    × IsScheduled k'
    × (k'.current ≡ 1)
    × (k'.idle_thread ≡ 0)
    × (k'.ready_list ≡ 2 ∷ 3 ∷ 4 ∷ [])
    × ((u : ℕ) → k'.status u ≡ (if u == 4 then ready else three.status u))
thread_unblock_example = thread_unblock_lem three-IsScheduled 4 refl (λ e. omega arith)

abbrev lock_with : Option ℕ → ℕ → List ℕ → Lock
lock_with holder value waiters = record {
  holder = holder;
  semaphore = record { value = value; waiters = waiters };
}

-- Thread 1 gets the lock.
abbrev first_in : World
first_in = record {
  threads = three;
  lock = lock_with (some 1) 0 [];
  phase = update (update (update (λ t. outside) 1 trying) 1 taken) 1 inside;
}

first_in-Reachable : Reachable three first_in
unfolding sema_init sema_down_round lock_init lock_held_by_current_thread lock_acquire_start
    lock_acquire_end
first_in-Reachable =
    next (next (next start (acquire refl (λ e. omega arith) refl)) (down {got = true} refl refl))
      (own refl)

-- The timer interrupts it, and threads 2 and 3 try in turn.
abbrev second_runs : Threads
second_runs = record three {
  status = update (update three.status 1 ready) 2 running;
  ready_list = 3 ∷ 1 ∷ [];
  current = 2;
}

abbrev third_runs : Threads
third_runs = record three {
  status = update (update second_runs.status 2 blocked) 3 running;
  ready_list = 1 ∷ [];
  current = 3;
}

abbrev first_again : Threads
first_again = record three {
  status = update (update third_runs.status 3 blocked) 1 running;
  ready_list = [];
  current = 1;
}

abbrev two_wait : World
two_wait = record {
  threads = first_again;
  lock = lock_with (some 1) 0 (2 ∷ 3 ∷ []);
  phase = update (update (update (update first_in.phase 2 trying) 2 trying) 3 trying) 3 trying;
}

two_wait-Reachable : Reachable three two_wait
unfolding sema_down_round lock_held_by_current_thread lock_acquire_start thread_yield thread_block
    schedule next_thread_to_run thread_schedule_tail
two_wait-Reachable =
    next
      (next
        (next
          (next (next first_in-Reachable (yield {k = second_runs} refl))
            (acquire refl (λ e. omega arith) refl))
          (down {got = false} {k = third_runs} refl refl))
        (acquire refl (λ e. omega arith) refl))
      (down {got = false} {k = first_again} refl refl)

-- Thread 1 releases the lock, which wakes thread 2.
abbrev one_woken : World
one_woken = record {
  threads = record first_again { status = update first_again.status 2 ready; ready_list = 2 ∷ [] };
  lock = lock_with none 1 (3 ∷ []);
  phase = update (update two_wait.phase 1 dropping) 1 outside;
}

one_woken-Reachable : Reachable three one_woken
unfolding lock_held_by_current_thread lock_release_start sema_up wake_first thread_unblock
one_woken-Reachable = next (next two_wait-Reachable (release refl refl)) (up refl refl)

mutual_exclusion_example :
    (holds 1 two_wait.lock.holder ≡ true) × ((u : ℕ) → two_wait.phase u ≡ inside → u ≡ 1)
mutual_exclusion_example = mutual_exclusion three-IsScheduled two_wait-Reachable 1 refl

no_lost_wakeup_example :
    (t : ℕ) × (one_woken.phase t ≡ trying) × (can_run (one_woken.threads.status t) ≡ true)
no_lost_wakeup_example =
    no_lost_wakeup three-IsScheduled one_woken-Reachable (λ e. omega arith) (λ e. cc)

asserts_hold_example :
    (two_wait.phase 1 ≡ outside → lock_acquire_start two_wait.threads two_wait.lock ≡ ok tt)
    × (two_wait.phase 1 ≡ trying
        → (r : Bool × (Threads × Semaphore)) × (sema_down_round two_wait.threads
              two_wait.lock.semaphore
            ≡ ok r))
    × (two_wait.phase 1 ≡ inside
        → (l : Lock) × (lock_release_start two_wait.threads two_wait.lock ≡ ok l))
    × (two_wait.phase 1 ≡ dropping
        → (r : Threads × Semaphore) × (sema_up two_wait.threads two_wait.lock.semaphore ≡ ok r))
    × ((k' : Threads) × (thread_yield two_wait.threads ≡ ok k'))
asserts_hold_example = asserts_hold three-IsScheduled two_wait-Reachable
