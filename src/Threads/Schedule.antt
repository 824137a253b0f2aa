-- ===== src/Threads/Schedule.antt =====
-- What threads/thread.c keeps true of the threads: one thread runs, and the ready list holds each
-- ready thread but the idle one exactly once.
use oscourse_all_files.Common.{
  ℕ, ◌+◌, ◌≡◌, ◌≢◌, refl, Bool, true, false, not, ◌&&◌, List, [], ◌∷◌, ◌++◌, ok, panic, ◌==◌, ◌∙◌,
  if◌then◌else◌, arith, Bool-cases, update, ==_iff, ==_refl, ◌⊎◌, inl, inr,
}
use oscourse_all_files.Threads.{
  ThreadStatus, running, ready, blocked, dying, is_running, is_ready, is_blocked, Threads,
  next_thread_to_run, thread_schedule_tail, schedule, thread_unblock, thread_block, thread_yield,
  thread_exit,
}
use oscourse_all_files.Threads.Queue.{occurs, occurs-append}

abbrev pub waits_to_run : Threads → ℕ → Bool
waits_to_run k t = is_ready (k.status t) && not (t == k.idle_thread)

-- The ready list, as it is also between the two halves of a switch.
pub record IsQueued (k : Threads) : Type 0 where
  pub listed : (t : ℕ) → occurs t k.ready_list ≡ (if waits_to_run k t then 1 else 0)

pub record IsScheduled (k : Threads) : Type 0 where
  pub queue : IsQueued k
  pub one : (t : ℕ) → is_running (k.status t) ≡ (t == k.current)

-- The threads after a switch to `next`.
abbrev switched : Threads → ℕ → List ℕ → Threads
switched k next rest = record k {
  status = update k.status next running;
  ready_list = rest;
  current = next;
  thread_ticks = 0;
}

-- The switch from `k` to `k'`: to the head of the ready list, or to the idle thread when the list
-- is empty; the threads are scheduled again, and no status but that of the chosen one changes.
pub record IsSwitch (k k' : Threads) : Type 0 where
  pub scheduled : IsScheduled k'
  pub idle : k'.idle_thread ≡ k.idle_thread
  pub chosen :
      ((k.ready_list ≡ []) × (k'.ready_list ≡ []) × (k'.current ≡ k.idle_thread))
      ⊎ (k.ready_list ≡ k'.current ∷ k'.ready_list)
  pub was : (is_ready (k.status k'.current) ≡ true) ⊎ (k'.current ≡ k.idle_thread)
  pub status : (t : ℕ) → k'.status t ≡ (if t == k'.current then running else k.status t)

abbrev Switches : Threads → Type 0
Switches k = (k' : Threads) × (schedule k ≡ ok k') × IsSwitch k k'

module _ {k : Threads} (q : IsQueued k) (none : (t : ℕ) → is_running (k.status t) ≡ false) where
  one_runs :
      (next : ℕ) (rest : List ℕ) (t : ℕ)
      → is_running ((switched k next rest).status t) ≡ (t == next)
  one_runs next rest t = elim (Bool-cases (t == next)) [ inl e ↦ rw e refl | inr e ↦ rw e (none t) ]

  switched-IsScheduled :
      (next : ℕ) (rest : List ℕ)
      → ((t : ℕ) → t ≢ next → occurs t rest ≡ occurs t k.ready_list)
      → occurs next rest ≡ 0
      → IsScheduled (switched k next rest)
  switched-IsScheduled next rest others gone = record {
    queue = record {
      listed = λ t. elim (Bool-cases (t == next)) [
        | inl e ↦ let same : t ≡ next = (==_iff t next).0 e in rw (same, ==_refl next) gone
        | inr e ↦ rw e (others t (λ h. ground (arith, ==_iff t next, e, h)) ∙ q.listed t)
      ];
    };
    one = one_runs next rest;
  }

  switches : (xs : List ℕ) → k.ready_list ≡ xs → Switches k
  unfolding schedule next_thread_to_run thread_schedule_tail
  switches [] e = (
    switched k k.idle_thread [],
    rw (none k.current, e) refl,
    record {
      scheduled = here;
      idle = refl;
      chosen = inl (e, refl, refl);
      was = inr refl;
      status = λ t. refl;
    },
  )
    where
      here : IsScheduled (switched k k.idle_thread [])
      here = switched-IsScheduled k.idle_thread [] (λ t ne. rw e refl) refl
  switches (x ∷ xs) e = (
    switched k x xs,
    rw (none k.current, e) refl,
    record {
      scheduled = here;
      idle = refl;
      chosen = inr e;
      was = inl (ground (arith, first x, q.listed x));
      status = λ t. refl;
    },
  )
    where
      first : (t : ℕ) → occurs t k.ready_list ≡ (if t == x then 1 else 0) + occurs t xs
      first t = rw e refl

      here : IsScheduled (switched k x xs)
      here =
          switched-IsScheduled x xs (λ t ne. ground (arith, first t))
            (ground (arith, first x, q.listed x))

  schedule_lem : Switches k
  schedule_lem = switches k.ready_list refl

module _ {k : Threads} (s : IsScheduled k) where
  -- The running thread gives up the processor, with a status `st` other than running.
  module _ (st : ThreadStatus) (stops : is_running st ≡ false) where
    left_none : (t : ℕ) → is_running (update k.status k.current st t) ≡ false
    left_none t = elim (Bool-cases (t == k.current)) [
      | inl e ↦ rw e stops
      | inr e ↦ rw e (s.one t ∙ e)
    ]

  -- What the running thread leaves: the others and, where `queued`, itself at the end of the list.
  abbrev pub leaving : ThreadStatus → List ℕ → Threads
  leaving st list = record k { status = update k.status k.current st; ready_list = list }

  block_queue : IsQueued (leaving blocked k.ready_list)
  block_queue = record { listed = λ t. ground (arith, s.queue.listed t, s.one t) }

  exit_queue : IsQueued (leaving dying k.ready_list)
  exit_queue = record { listed = λ t. ground (arith, s.queue.listed t, s.one t) }

  yield_idle : k.current ≡ k.idle_thread → IsQueued (leaving ready k.ready_list)
  yield_idle e = record { listed = λ t. ground (arith, s.queue.listed t, s.one t, e) }

  yield_other :
      k.current ≢ k.idle_thread → IsQueued (leaving ready (k.ready_list ++ (k.current ∷ [])))
  yield_other ne = record {
    listed =
        λ t. ground (arith, s.queue.listed t, s.one t, occurs-append t k.current k.ready_list, ne);
  }

  -- From scheduled threads, `thread_block` returns, after a switch that leaves the thread that was
  -- running blocked and off the ready list.
  pub thread_block_lem :
      (k' : Threads) × (thread_block k ≡ ok k') × IsSwitch (leaving blocked k.ready_list) k'
  unfolding thread_block
  thread_block_lem = schedule_lem block_queue (left_none blocked refl)

  -- From scheduled threads, `thread_exit` switches in the same way, and leaves the thread that was
  -- running dying.
  pub thread_exit_lem :
      (k' : Threads) × (thread_exit k ≡ ok k') × IsSwitch (leaving dying k.ready_list) k'
  unfolding thread_exit
  thread_exit_lem = schedule_lem exit_queue (left_none dying refl)

  -- From scheduled threads, `thread_yield` returns, after a switch that leaves the thread that was
  -- running ready, at the end of the ready list unless it is the idle thread.
  pub thread_yield_lem :
      (k' : Threads) × (thread_yield k ≡ ok k')
      × IsSwitch
          (leaving ready
            (if k.current == k.idle_thread then k.ready_list else k.ready_list ++ (k.current ∷ [])))
          k'
  unfolding thread_yield
  thread_yield_lem = elim (Bool-cases (k.current == k.idle_thread)) [
    | inl e ↦
        rw e
          (schedule_lem (yield_idle ((==_iff k.current k.idle_thread).0 e)) (left_none ready refl))
    | inr e ↦ rw e (
        schedule_lem (yield_other (λ h. ground (arith, ==_iff k.current k.idle_thread, e, h)))
          (left_none ready refl))
  ]

  abbrev pub woken : ℕ → Threads
  woken t = record k { ready_list = k.ready_list ++ (t ∷ []); status = update k.status t ready }

  -- From scheduled threads, unblocking a blocked thread, other than the idle one, makes it ready at
  -- the end of the ready list; the threads are scheduled still, and the same one runs.
  pub thread_unblock_lem :
      (t : ℕ)
      → is_blocked (k.status t) ≡ true
      → t ≢ k.idle_thread
      → (k' : Threads) × (thread_unblock k t ≡ ok k')
        × IsScheduled k'
        × (k'.current ≡ k.current)
        × (k'.idle_thread ≡ k.idle_thread)
        × (k'.ready_list ≡ k.ready_list ++ (t ∷ []))
        × ((u : ℕ) → k'.status u ≡ (if u == t then ready else k.status u))
  unfolding thread_unblock
  thread_unblock_lem t h ne = (
    woken t,
    rw h refl,
    record {
      queue = record {
        listed = λ u. ground (arith, s.queue.listed u, occurs-append u t k.ready_list, ne, h);
      };
      one = λ u. ground (arith, s.one u, h);
    },
    refl,
    refl,
    refl,
    λ u. refl,
  )

-- A thread that is not blocked fails the ASSERT.
pub thread_unblock_panics :
    (k : Threads) (t : ℕ) → is_blocked (k.status t) ≡ false → thread_unblock k t ≡ panic
unfolding thread_unblock
thread_unblock_panics k t h = rw h refl
