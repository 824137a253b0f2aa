-- ===== src/Synch.antt =====
-- threads/synch.c: semaphores, locks and condition variables over the threads of threads/thread.c.
-- Each function here runs with interrupts off, from a point where they go off to the next point
-- where they may be on; NULL pointers and calls from interrupt handlers are left out.
pub mod Usage
use oscourse_all_files.Common.{
  ℕ, ◌+◌, ◌-◌, ◌%◌, Bool, true, false, not, Option, none, some, List, [], ◌∷◌, ◌++◌, Result, ok,
  panic, ◌>>=◌, ◌>>◌, assert, ◌==◌, if◌then◌else◌, two_32, map,
}
use oscourse_all_files.Threads.{Threads, thread_block, thread_unblock}

pub record Semaphore : Type 0 where
  pub value : ℕ
  pub waiters : List ℕ

unfoldable pub sema_init : ℕ → Semaphore
sema_init value = record { value = value; waiters = [] }

-- One test of the loop in `sema_down` with what follows it: the semaphore is decremented and the
-- loop ends (true), or the running thread joins the waiters and blocks.
unfoldable pub sema_down_round : Threads → Semaphore → Result (Bool × (Threads × Semaphore))
sema_down_round k s =
    if s.value == 0
    then (thread_block k >>= λ k'.
        ok (false, (k', record s { waiters = s.waiters ++ (k.current ∷ []) })))
    else ok (true, (k, record s { value = s.value - 1 }))

pub sema_try_down : Semaphore → Bool × Semaphore
sema_try_down s = if s.value == 0 then (false, s) else (true, record s { value = s.value - 1 })

-- `list_pop_front` with `thread_unblock`, where there is a waiter.
unfoldable pub wake_first : Threads → List ℕ → Result (Threads × List ℕ)
wake_first k [] = ok (k, [])
wake_first k (t ∷ ts) = do k' ← thread_unblock k t; ok (k', ts)

unfoldable pub sema_up : Threads → Semaphore → Result (Threads × Semaphore)
sema_up k s = do
  (k', rest) ← wake_first k s.waiters
  ok (k', record { value = (s.value + 1) % two_32; waiters = rest })

-- `struct lock`; `none` is a NULL holder.
pub record Lock : Type 0 where
  pub holder : Option ℕ
  pub semaphore : Semaphore

unfoldable pub lock_init : Lock
lock_init = record { holder = none; semaphore = sema_init 1 }

-- Whether `t` is the holder.
abbrev pub holds : ℕ → Option ℕ → Bool
holds t none = false
holds t (some o) = t == o

unfoldable pub lock_held_by_current_thread : Threads → Lock → Bool
lock_held_by_current_thread k l = holds k.current l.holder

-- `lock_acquire` up to its call of `sema_down`, and after it.
unfoldable pub lock_acquire_start : Threads → Lock → Result (Unit {0})
lock_acquire_start k l = assert (not (lock_held_by_current_thread k l))

unfoldable pub lock_acquire_end : Threads → Lock → Lock
lock_acquire_end k l = record l { holder = some k.current }

-- `lock_try_acquire` up to the test of `success`.
pub lock_try_acquire_start : Threads → Lock → Result (Bool × Lock)
lock_try_acquire_start k l =
    let (success, s) = sema_try_down l.semaphore in
    assert (not (lock_held_by_current_thread k l)) >> ok (success, record l { semaphore = s })

-- `lock_release` up to its call of `sema_up`.
unfoldable pub lock_release_start : Threads → Lock → Result Lock
lock_release_start k l = do
  assert (lock_held_by_current_thread k l)
  ok (record l { holder = none })
