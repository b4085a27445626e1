-- ===== src/Interprocess/Bounded.antt =====
-- src/cachau/interprocess.py: `coordinate` comes to an end, and how many rounds that takes.
use cachau.Interprocess.{
  LockFiles, ProcessLock, Joined, try_acquire, try_break, wait_more, contended, on_reply, on_value,
  poll_round, poll_loop, coordinate, poll_initial,
}
use cachau.Prelude.Exec.{Result, ok, raise, Exec, continue, ◌>>=◌}
use cachau.Prelude.{
  ℕ, zero, suc, ◌+◌, ◌-◌, ◌*◌, ◌/◌, ◌≤◌, ◌<◌, Bool, true, false, Option, none, some, ◌≡◌, ◌≢◌,
  arith, leb, if◌then◌else◌, Bool-cases, inl, inr,
}

-- Time passes, `sleep` lasts as long as it is told to, and there are finitely many stale locks to
-- break: `stale` bounds them.
pub record Passes {E S V : Type 0} (files : LockFiles S) (fresh_value : Exec E S (Option V))
    (stale_after : ℕ) : Type 0 where
  pub time : S → ℕ
  pub stale : S → ℕ
  pub shown : (s : S) → (files.monotonic s).0 ≡ time s
  pub at_probe : (s : S) → (time s ≤ time (fresh_value s).1) × (stale (fresh_value s).1 ≤ stale s)
  pub at_acquire :
      (lock : ProcessLock) (s : S)
      → (time s ≤ time (try_acquire files lock s).1)
        × (stale (try_acquire files lock s).1 ≤ stale s)
  pub at_break :
      (lock : ProcessLock) (s : S)
      → (time s ≤ time (try_break files lock stale_after s).1)
        × (stale (try_break files lock stale_after s).1
              + (if (try_break files lock stale_after s).0 then 1 else 0)
            ≤ stale s)
  pub at_monotonic :
      (s : S) → (time s ≤ time (files.monotonic s).1) × (stale (files.monotonic s).1 ≤ stale s)
  pub at_sleep :
      (d : ℕ) (s : S) → (time s + d ≤ time (files.sleep d s)) × (stale (files.sleep d s) ≤ stale s)

module _ {E S V : Type 0} (files : LockFiles S) (fresh_value : Exec E S (Option V)) (exhausted : E)
    (stale_after deadline : ℕ) (p : Passes files fresh_value stale_after) where
  -- From this state a wait for `waits` poll intervals reaches the deadline, and `rounds` rounds are
  -- enough for these and for the stale locks.
  abbrev Enough : ℕ → ℕ → ℕ → S → Type 0
  Enough rounds waits interval s =
      (p.stale s + waits ≤ rounds)
      × (deadline ≤ p.time s + poll_initial * waits)
      × (poll_initial ≤ interval)

  abbrev Fine : Result E (Joined V) → Type 0
  Fine r = r ≢ raise exhausted

  -- What is left of the loop ends well wherever its fuel is enough.
  abbrev Ends : ℕ → (ProcessLock → ℕ → ℕ → Exec E S (Joined V)) → Type 0
  Ends fuel again =
      (waits : ℕ) (lock : ProcessLock) (interval broken : ℕ) (s : S)
      → p.stale s + waits < fuel
      → deadline ≤ p.time s + poll_initial * waits
      → poll_initial ≤ interval
      → Fine (again lock interval broken s).0

  wait-Fine :
      (fuel waits : ℕ) (lock : ProcessLock) (interval broken : ℕ) (s : S)
      (again : ProcessLock → ℕ → ℕ → Exec E S (Joined V))
      → Ends fuel again
      → Enough fuel waits interval s
      → Fine
          (wait_more files fresh_value exhausted stale_after deadline lock interval broken again
            s).0
  unfolding wait_more
  wait-Fine fuel waits lock interval broken s again h (a, b, c) =
      elim (Bool-cases (leb deadline (files.monotonic s).0)) [
        | inl e ↦ rw e (λ q. cc)
        | inr e ↦ rw e (
            h (waits - 1) lock _ broken _
              (ground
                (arith, p.shown s, p.at_monotonic s, p.at_sleep interval (files.monotonic s).1))
              (ground
                (arith, p.shown s, p.at_monotonic s, p.at_sleep interval (files.monotonic s).1))
              (ground arith))
      ]

  contended-Fine :
      (fuel waits : ℕ) (lock : ProcessLock) (interval broken : ℕ) (s : S)
      (again : ProcessLock → ℕ → ℕ → Exec E S (Joined V))
      → Ends fuel again
      → Enough fuel waits interval s
      → Fine
          (contended files fresh_value exhausted stale_after deadline lock interval broken again
            s).0
  unfolding contended
  contended-Fine fuel waits lock interval broken s again h (a, b, c) =
      elim (Bool-cases (try_break files lock stale_after s).0) [
        | inl e ↦ rw e (
            h waits lock interval (broken + 1) _ (ground (arith, p.at_break lock s))
              (ground (arith, p.at_break lock s)) c)
        | inr e ↦ rw e (
            wait-Fine fuel waits lock interval broken _ again h
              (ground (arith, p.at_break lock s), ground (arith, p.at_break lock s), c))
      ]

  reply-Fine :
      (reply : Option Bool × ProcessLock) (fuel waits interval broken : ℕ) (s : S)
      (again : ProcessLock → ℕ → ℕ → Exec E S (Joined V))
      → Ends fuel again
      → Enough fuel waits interval s
      → Fine
          (on_reply files fresh_value exhausted stale_after deadline reply interval broken again
            s).0
  unfolding ◌>>=◌
  reply-Fine (none, lock) fuel waits interval broken s again h q = λ x. cc
  reply-Fine (some true, lock) fuel waits interval broken s again h q = λ x. cc
  reply-Fine (some false, lock) fuel waits interval broken s again h q =
      contended-Fine fuel waits lock interval broken s again h q

  value-Fine :
      (r : Result E (Option V)) (fuel waits : ℕ) (lock : ProcessLock) (interval broken : ℕ) (s : S)
      (again : ProcessLock → ℕ → ℕ → Exec E S (Joined V))
      → r ≢ raise exhausted
      → Ends fuel again
      → Enough fuel waits interval s
      → Fine
          (continue r
            (λ v.
              on_value files fresh_value exhausted stale_after deadline v lock interval broken
                again)
            s).0
  value-Fine (raise x) fuel waits lock interval broken s again n h q = λ e. n (ground arith)
  value-Fine (ok (some v)) fuel waits lock interval broken s again n h q = λ x. cc
  value-Fine (ok none) fuel waits lock interval broken s again n h (a, b, c) =
      reply-Fine (try_acquire files lock s).0 fuel waits interval broken
        (try_acquire files lock s).1 again h
        (omega (arith, p.at_acquire lock s), omega (arith, p.at_acquire lock s), c)

  module _ (probes : (s : S) → (fresh_value s).0 ≢ raise exhausted) where
    poll_loop-Ends :
        (fuel : ℕ) → Ends fuel (poll_loop files fresh_value exhausted stale_after deadline fuel)
    unfolding poll_loop poll_round ◌>>=◌
    poll_loop-Ends zero waits lock interval broken s a b c = absurd (omega arith)
    poll_loop-Ends (suc fuel) waits lock interval broken s a b c =
        value-Fine (fresh_value s).0 fuel waits lock interval broken (fresh_value s).1 _ (probes s)
          (poll_loop-Ends fuel) (omega (arith, p.at_probe s), omega (arith, p.at_probe s), c)

-- Rounds enough for the loop: one for each stale lock, one for each of the shortest waits until the
-- deadline, and two more.
abbrev pub enough_rounds : ℕ → ℕ → ℕ
enough_rounds stale max_wait = stale + max_wait / poll_initial + 2

-- Given a round for each stale lock that there may be to break, one for each shortest wait up to
-- `max_wait`, and two more, `coordinate` comes to an outcome: it does not run out of rounds, where
-- time passes as `Passes` says and the probe of the store does not.
pub coordinate-Bounded :
    {E S V : Type 0} (files : LockFiles S) (fresh_value : Exec E S (Option V)) (exhausted : E)
    (stale_after max_wait : ℕ) (p : Passes files fresh_value stale_after)
    (probes : (s : S) → (fresh_value s).0 ≢ raise exhausted) (lock : ProcessLock) (s : S)
    → (coordinate files fresh_value exhausted
        (enough_rounds (p.stale s) max_wait)
        max_wait
        stale_after
        lock
        s).0
      ≢ raise exhausted
unfolding coordinate
coordinate-Bounded files fresh_value exhausted stale_after max_wait p probes lock s =
    poll_loop-Ends files fresh_value exhausted stale_after _ p probes _
      (max_wait / poll_initial + 1) lock poll_initial 0 _ (omega (arith, p.at_monotonic s))
      (omega (arith, p.shown s, p.at_monotonic s)) (omega arith)
