-- ===== src/Synch/Usage/Move.antt =====
-- How the safety of a lock's world survives a step: by what the step does to the phases, to the
-- semaphore and to the threads.
use oscourse_all_files.Common.{
  ℕ, ◌-◌, ◌≡◌, ◌≢◌, inl, inr, refl, ◌∙◌, true, false, none, some, arith, update, ==_refl,
}
use oscourse_all_files.Threads.{is_running, Threads}
use oscourse_all_files.Synch.{Semaphore}
use oscourse_all_files.Synch.Usage.{
  Phase, outside, trying, taken, inside, dropping, World, now, move,
}
use oscourse_all_files.Synch.Usage.Invariant.{
  is_trying, has_taken, is_inside, can_run, Counts, NotLost, IsSafe,
}

-- The holder of a lock has taken the semaphore.
pub not_taken : (p : Phase) → has_taken p ≡ false → is_inside p ≡ false
not_taken outside h = refl
not_taken trying h = refl
not_taken taken h = absurd (ground arith)
not_taken inside h = absurd (ground arith)
not_taken dropping h = refl

pub Counts-move :
    {value : ℕ} (phase : ℕ → Phase) (i : ℕ) (p : Phase)
    → has_taken p ≡ has_taken (phase i)
    → Counts value phase
    → Counts value (update phase i p)
Counts-move phase i p same (inl (v, nobody)) =
    inl (v, λ t. ground (arith, nobody t, nobody i, same))
Counts-move phase i p same (inr (v, (o, one))) =
    inr (v, (o, λ t. ground (arith, one t, one i, same)))

pub NotLost-move :
    (k k' : Threads) {s : Semaphore} (phase phase' : ℕ → Phase)
    → ((t : ℕ)
        → is_trying (phase t) ≡ true
        → can_run (k.status t) ≡ true
        → (is_trying (phase' t) ≡ true) × (can_run (k'.status t) ≡ true))
    → NotLost k s phase
    → NotLost k' s phase'
NotLost-move k k' phase phase' f (inl v) = inl v
NotLost-move k k' phase phase' f (inr (inl e)) = inr (inl e)
NotLost-move k k' phase phase' f (inr (inr (t, g, r))) =
    let (g', r') = f t g r in inr (inr (t, g', r'))

module _ {w : World} (s : IsSafe w) where
  now_running : is_running (w.threads.status (now w)) ≡ true
  now_running = s.scheduled.one (now w) ∙ ==_refl (now w)

  -- The running thread was not in the loop of `sema_down`.
  still_trying :
      (p : Phase)
      → is_trying (w.phase (now w)) ≡ false
      → NotLost w.threads w.lock.semaphore (move w p)
  still_trying p h =
      NotLost-move w.threads w.threads w.phase (move w p) (λ t g r. (ground (arith, g, h), r))
        s.not_lost

  -- A thread outside starts to acquire the lock.
  pub acquire-IsSafe :
      w.phase (now w) ≡ outside
      → now w ≢ w.threads.idle_thread
      → IsSafe (record w { phase = move w trying })
  acquire-IsSafe out ne = record {
    scheduled = s.scheduled;
    idle_outside = ground (arith, s.idle_outside, ne);
    counts = Counts-move w.phase (now w) trying (rw out refl) s.counts;
    held = λ t. ground (arith, s.held t, out);
    waiting = λ t. ground (arith, s.waiting t, out, now_running);
    not_lost = still_trying trying (rw out refl);
  }

  -- A thread that is not yet counted takes the semaphore.
  pub take-IsSafe :
      has_taken (w.phase (now w)) ≡ false
      → now w ≢ w.threads.idle_thread
      → w.lock.semaphore.value ≢ 0
      → IsSafe (record w {
        lock = record w.lock {
          semaphore = record w.lock.semaphore { value = w.lock.semaphore.value - 1 };
        };
        phase = move w taken;
      })
  take-IsSafe before ne free = record {
    scheduled = s.scheduled;
    idle_outside = ground (arith, s.idle_outside, ne);
    counts = from s.counts;
    held = λ t. ground (arith, s.held t, not_taken (w.phase (now w)) before);
    waiting = λ t. ground (arith, s.waiting t, now_running);
    not_lost = inl (emptied s.counts);
  }
    where
      emptied : Counts w.lock.semaphore.value w.phase → w.lock.semaphore.value - 1 ≡ 0
      emptied (inl (v, nobody)) = omega (arith, v)
      emptied (inr (v, one)) = absurd (free v)

      from :
          Counts w.lock.semaphore.value w.phase → Counts (w.lock.semaphore.value - 1) (move w taken)
      from (inl (v, nobody)) = inr (omega (arith, v), (now w, λ t. ground (arith, nobody t)))
      from (inr (v, one)) = absurd (free v)

  -- The thread that has taken the semaphore is the only one.
  pub alone :
      has_taken (w.phase (now w)) ≡ true
      → (w.lock.semaphore.value ≡ 0) × ((t : ℕ) → t ≢ now w → has_taken (w.phase t) ≡ false)
  alone h = from s.counts
    where
      from :
          Counts w.lock.semaphore.value w.phase
          → (w.lock.semaphore.value ≡ 0) × ((t : ℕ) → t ≢ now w → has_taken (w.phase t) ≡ false)
      from (inl (v, nobody)) = absurd (ground (arith, nobody (now w), h))
      from (inr (v, (o, one))) = (v, λ t ne. ground (arith, one t, one (now w), h, ne))

  -- The thread that has taken the semaphore becomes the holder.
  pub own-IsSafe :
      w.phase (now w) ≡ taken
      → IsSafe (record w { lock = record w.lock { holder = some (now w) }; phase = move w inside })
  own-IsSafe h = record {
    scheduled = s.scheduled;
    idle_outside = ground (arith, s.idle_outside, h);
    counts = Counts-move w.phase (now w) inside (rw h refl) s.counts;
    held = λ t. ground (arith, not_taken (w.phase t), (alone (rw h refl)).1 t);
    waiting = λ t. ground (arith, s.waiting t, h);
    not_lost = still_trying inside (rw h refl);
  }

  -- The holder gives the lock up, before it ups the semaphore.
  pub release-IsSafe :
      w.phase (now w) ≡ inside
      → IsSafe (record w { lock = record w.lock { holder = none }; phase = move w dropping })
  release-IsSafe h = record {
    scheduled = s.scheduled;
    idle_outside = ground (arith, s.idle_outside, h);
    counts = Counts-move w.phase (now w) dropping (rw h refl) s.counts;
    held = λ t. ground (arith, not_taken (w.phase t), (alone (rw h refl)).1 t);
    waiting = λ t. ground (arith, s.waiting t, h);
    not_lost = still_trying dropping (rw h refl);
  }
