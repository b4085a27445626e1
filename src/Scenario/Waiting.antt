-- ===== src/Scenario/Waiting.antt =====
-- A process that waits for another one, which holds the lock and keeps it alive.
use cachau.Interprocess
use cachau.Interprocess.Bounded.{Passes, enough_rounds, coordinate-Bounded}
use cachau.Interprocess.{
  LockFiles, ProcessLock, already_exists, timeout, coordinate, poll_initial, try_acquire, try_break,
}
use cachau.Prelude.Exec
use cachau.Prelude.Exec.{ok, raise, Exec}
use cachau.Prelude.{ℕ, ◌+◌, true, false, Option, none, some, ◌≡◌, ◌≢◌, refl, arith}

-- The world is the time.
abbrev held_elsewhere : LockFiles ℕ
held_elsewhere = record {
  create_lock = λ p w. (already_exists, w);
  write_token = λ p t w. (true, w);
  unlink = λ p w. (true, w);
  read_token = λ p w. some "other";
  modified_at = λ p w. some w;
  wall_clock = λ w. (w, w);
  monotonic = λ w. (w, w);
  sleep = λ d w. w + d;
  new_token = λ w. ("mine", w);
}

abbrev nothing_yet : Exec (Unit {0}) ℕ (Option ℕ)
nothing_yet w = (ok none, w)

abbrev my_lock : ProcessLock
my_lock = record { path = "key.lock"; token = "mine"; held = false }

-- The deadline is 30 milliseconds away: three rounds.
waited :
    (coordinate held_elsewhere nothing_yet tt 6 30_000 5_000_000 my_lock 0).0
    ≡ ok (timeout, my_lock, 0)
unfolding Interprocess.coordinate Interprocess.poll_loop Interprocess.poll_round
    Interprocess.age_seconds Exec.◌>>=◌
waited = refl

never_stale : (w : ℕ) → (try_break held_elsewhere my_lock 5_000_000 w).0 ≡ false
unfolding Interprocess.try_break Interprocess.age_seconds
never_stale w = ground arith

passing : Passes held_elsewhere nothing_yet 5_000_000
unfolding Interprocess.try_acquire Interprocess.try_break Interprocess.age_seconds
passing = record {
  time = λ w. w;
  stale = λ w. 0;
  shown = λ w. refl;
  at_probe = λ w. (omega arith, omega arith);
  at_acquire = λ lock w. (omega arith, omega arith);
  at_break = λ lock w. (ground arith, ground arith);
  at_monotonic = λ w. (omega arith, omega arith);
  at_sleep = λ d w. (omega arith, omega arith);
}

coordinate-Bounded_example :
    (coordinate held_elsewhere nothing_yet tt
      (enough_rounds (passing.stale 0) 30_000)
      30_000
      5_000_000
      my_lock
      0).0
    ≢ raise tt
coordinate-Bounded_example =
    coordinate-Bounded held_elsewhere nothing_yet tt 5_000_000 30_000 passing (λ s e. ground arith)
      my_lock 0
