-- ===== src/Synch/Usage/Switch.antt =====
-- How the safety of a lock's world survives a switch between threads, and waking one.
use oscourse_all_files.Common.{
  ℕ, ◌+◌, ◌%◌, ◌≡◌, ◌≢◌, ◌⊎◌, inl, inr, refl, sym, ◌∙◌, ap, true, false, ◌&&◌, List, [], ◌∷◌, ◌++◌,
  ok, ◌==◌, if◌then◌else◌, arith, update, ==_refl, two_32,
}
use oscourse_all_files.Threads.{
  ThreadStatus, ready, blocked, is_running, is_ready, is_blocked, Threads, thread_unblock,
}
use oscourse_all_files.Threads.Queue.{occurs, occurs-append}
use oscourse_all_files.Threads.Schedule.{IsScheduled, IsSwitch, leaving, thread_unblock_lem}
use oscourse_all_files.Synch.{Semaphore}
use oscourse_all_files.Synch.Usage.{outside, trying, dropping, World, now, move}
use oscourse_all_files.Synch.Usage.Invariant.{is_trying, has_taken, can_run, IsSafe}
use oscourse_all_files.Synch.Usage.Move.{Counts-move, NotLost-move, alone}

module _ {w : World} (s : IsSafe w) where
  now_status : is_running (w.threads.status (now w)) ≡ true
  now_status = s.scheduled.one (now w) ∙ ==_refl (now w)

  module _ (st : ThreadStatus) (list : List ℕ) {k : Threads}
      (sw : IsSwitch (leaving s.scheduled st list) k) where
    -- The thread that is chosen did not wait for the semaphore.
    chosen_free :
        (is_trying (w.phase k.current) && is_blocked (update w.threads.status (now w) st k.current))
        ≡ false
    chosen_free = from sw.was
      where
        from :
            (is_ready (update w.threads.status (now w) st k.current) ≡ true)
              ⊎ (k.current ≡ w.threads.idle_thread)
            → (is_trying (w.phase k.current)
                && is_blocked (update w.threads.status (now w) st k.current))
              ≡ false
        from (inl r) = ground (arith, r)
        from (inr i) = ground (arith, i, s.idle_outside)

    -- A switch that leaves a waiting thread neither blocked nor dying keeps the world safe.
    pub switch-IsSafe :
        (is_trying (w.phase (now w)) ≡ false) ⊎ (can_run st ≡ true)
        → IsSafe (record w { threads = k })
    switch-IsSafe fit = record {
      scheduled = sw.scheduled;
      idle_outside = ap w.phase sw.idle ∙ s.idle_outside;
      counts = s.counts;
      held = s.held;
      waiting = λ t. ground (arith, s.waiting t, sw.status t, chosen_free, now_status, fit);
      not_lost =
          NotLost-move w.threads k w.phase w.phase
            (λ t g r. (g, ground (arith, r, sw.status t, g, fit))) s.not_lost;
    }

  -- Where the semaphore is 0, the thread that runs joins the waiters and blocks.
  pub wait-IsSafe :
      {k : Threads}
      → w.phase (now w) ≡ trying
      → w.lock.semaphore.value ≡ 0
      → IsSwitch (leaving s.scheduled blocked w.threads.ready_list) k
      → IsSafe (record {
        threads = k;
        lock = record w.lock {
          semaphore = record w.lock.semaphore {
            waiters = w.lock.semaphore.waiters ++ (now w ∷ []);
          };
        };
        phase = move w trying;
      })
  wait-IsSafe {k} h zero_value sw = record {
    scheduled = sw.scheduled;
    idle_outside = rw sw.idle (ground (arith, s.idle_outside, h));
    counts = Counts-move w.phase (now w) trying (rw h refl) s.counts;
    held = λ t. ground (arith, s.held t, h);
    waiting = λ t. ground (
      arith,
      s.waiting t,
      sw.status t,
      chosen_free blocked w.threads.ready_list sw,
      now_status,
      h,
      occurs-append t (now w) w.lock.semaphore.waiters,
    );
    not_lost = inl zero_value;
  }

  -- What `sema_up` leaves of the semaphore that was 0.
  abbrev pub upped : List ℕ → Semaphore
  upped rest = record { value = (w.lock.semaphore.value + 1) % two_32; waiters = rest }

  module _ (h : w.phase (now w) ≡ dropping) where
    nobody : (t : ℕ) → has_taken (move w outside t) ≡ false
    nobody t = ground (arith, (alone s (rw h refl)).1 t)

    one : w.lock.semaphore.value ≡ 0
    one = (alone s (rw h refl)).0

    -- Nobody waits.
    pub up_alone-IsSafe :
        w.lock.semaphore.waiters ≡ []
        → IsSafe
            (record w { lock = record w.lock { semaphore = upped [] }; phase = move w outside })
    up_alone-IsSafe e = record {
      scheduled = s.scheduled;
      idle_outside = ground (arith, s.idle_outside);
      counts = inl (rw one refl, nobody);
      held = λ t. ground (arith, s.held t, h);
      waiting = λ t. ground (arith, s.waiting t, h, ap (occurs t) e);
      not_lost = inr (inl refl);
    }

    module _ (t : ℕ) (ts : List ℕ) (e : w.lock.semaphore.waiters ≡ t ∷ ts) where
      here :
          (u : ℕ)
          → (if u == t then 1 else 0) + occurs u ts
            ≡ (if is_trying (w.phase u) && is_blocked (w.threads.status u) then 1 else 0)
      here u = ap (occurs u) (sym e) ∙ s.waiting u

      first_waits : (is_trying (w.phase t) ≡ true) × (is_blocked (w.threads.status t) ≡ true)
      first_waits = (ground (arith, here t), ground (arith, here t))

      not_idle : t ≢ w.threads.idle_thread
      not_idle i = ground (arith, first_waits, s.idle_outside, i)

      abbrev pub Wakes : Threads → Type 0
      Wakes k = IsSafe (record w {
        threads = k;
        lock = record w.lock { semaphore = upped ts };
        phase = move w outside;
      })

      -- The first waiter is woken: it is blocked, so that the ASSERT of `thread_unblock` holds.
      pub up_waiter-IsSafe : (k : Threads) × (thread_unblock w.threads t ≡ ok k) × Wakes k
      up_waiter-IsSafe = from (thread_unblock_lem s.scheduled t first_waits.1 not_idle)
        where
          from :
              (k : Threads) × (thread_unblock w.threads t ≡ ok k)
                × IsScheduled k
                × (k.current ≡ w.threads.current)
                × (k.idle_thread ≡ w.threads.idle_thread)
                × (k.ready_list ≡ w.threads.ready_list ++ (t ∷ []))
                × ((u : ℕ) → k.status u ≡ (if u == t then ready else w.threads.status u))
              → (k : Threads) × (thread_unblock w.threads t ≡ ok k) × Wakes k
          from (k, ek, sk, _, ik, _, st) = (
            k,
            ek,
            record {
              scheduled = sk;
              idle_outside = rw ik (ground (arith, s.idle_outside));
              counts = inl (rw one refl, nobody);
              held = λ u. ground (arith, s.held u, h);
              waiting = λ u. ground (arith, here u, h, st u, now_status);
              not_lost = inr (inr (t, ground (arith, first_waits, h), ground (arith, st t)));
            },
          )
