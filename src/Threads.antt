-- ===== src/Threads.antt =====
-- threads/thread.c: the states of the threads, the ready list and the switch between threads.
-- A thread is its number; each operation runs with interrupts off, as one step. The stacks and
-- the pages of the threads are left out.
pub mod Queue
pub mod Schedule
use oscourse_all_files.Common.{
  ℕ, ◌+◌, Bool, true, false, not, List, [], ◌∷◌, ◌++◌, Result, ok, panic, ◌>>=◌, ◌>>◌, assert, leb,
  ◌==◌, if◌then◌else◌, update,
}

-- `enum thread_status`
pub data ThreadStatus : Type 0 where
  running ready blocked dying : ThreadStatus

abbrev pub is_running : ThreadStatus → Bool
is_running running = true
is_running ready = false
is_running blocked = false
is_running dying = false

abbrev pub is_ready : ThreadStatus → Bool
is_ready running = false
is_ready ready = true
is_ready blocked = false
is_ready dying = false

abbrev pub is_blocked : ThreadStatus → Bool
is_blocked running = false
is_blocked ready = false
is_blocked blocked = true
is_blocked dying = false

-- The module's variables, with the status of each thread and the thread that is running.
pub record Threads : Type 0 where
  pub status : ℕ → ThreadStatus
  pub ready_list : List ℕ
  pub idle_thread : ℕ
  pub current : ℕ
  pub thread_ticks : ℕ

-- The thread that is chosen, and the ready list without it.
unfoldable pub next_thread_to_run : Threads → ℕ × List ℕ
next_thread_to_run k = elim k.ready_list [ [] ↦ (k.idle_thread, []) | next ∷ rest ↦ (next, rest) ]

-- The new thread, with its status and its time slice.
unfoldable pub thread_schedule_tail : Threads → Threads
thread_schedule_tail k = record k { status = update k.status k.current running; thread_ticks = 0 }

unfoldable pub schedule : Threads → Result Threads
schedule k =
    let (next, rest) = next_thread_to_run k in
    assert (not (is_running (k.status k.current)))
    >> ok (thread_schedule_tail (record k { ready_list = rest; current = next }))

unfoldable pub thread_unblock : Threads → ℕ → Result Threads
thread_unblock k t = do
  assert (is_blocked (k.status t))
  ok (record k { ready_list = k.ready_list ++ (t ∷ []); status = update k.status t ready })

unfoldable pub thread_block : Threads → Result Threads
thread_block k = schedule (record k { status = update k.status k.current blocked })

unfoldable pub thread_yield : Threads → Result Threads
thread_yield k =
    let queued =
      if k.current == k.idle_thread then k.ready_list else k.ready_list ++ (k.current ∷ []) in
    schedule (record k { ready_list = queued; status = update k.status k.current ready })

-- `thread_exit` after `process_exit`.
pub thread_exit : Threads → Result Threads
thread_exit k = schedule (record k { status = update k.status k.current dying })

-- Whether the thread has to yield when the timer interrupt returns, and the ticks of its slice. The
-- statistics are left out.
pub thread_tick : Threads → Bool × Threads
thread_tick k = let ticks = k.thread_ticks + 1 in (leb 100 ticks, record k { thread_ticks = ticks })
