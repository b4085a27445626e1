-- ===== src/Interprocess.antt =====
-- src/cachau/interprocess.py: advisory lock files, and `coordinate`, which joins the flight of one
-- key across processes. The operating system's calls are parameters. The heartbeat thread of a
-- holder writes no state of this program: what it does to a lock's age is the operating system's.
pub mod Keeps
pub mod Bounded
use cachau.Prelude.Exec.{ok, raise, Exec, pure, ◌>>=◌, ◌>>◌}
use cachau.Prelude.{
  ℕ, zero, suc, ◌+◌, ◌-◌, ◌*◌, ◌/◌, String, Bool, true, false, ◌&&◌, Option, none, some, str_eq,
  ltb, leb, min_of, if◌then◌else◌,
}

-- `os.open(path, O_CREAT | O_EXCL)`: done, `FileExistsError`, any other `OSError`.
pub data CreateReply : Type 0 where
  created already_exists failed : CreateReply

pub record LockFiles (World : Type 0) : Type 0 where
  pub create_lock : String → World → CreateReply × World
  -- `os.write`, `unlink`, `read_bytes`: false or none stand for an `OSError`
  pub write_token : String → String → World → Bool × World
  pub unlink : String → World → Bool × World
  pub read_token : String → World → Option String
  pub modified_at : String → World → Option ℕ
  pub wall_clock : World → ℕ × World
  pub monotonic : World → ℕ × World
  pub sleep : ℕ → World → World
  pub new_token : World → String × World

pub record ProcessLock : Type 0 where
  pub path : String
  pub token : String
  pub held : Bool

pub data Outcome (V : Type 0) : Type 0 where
  acquired : Outcome V
  served : V → Outcome V
  timeout : Outcome V
  unavailable : Outcome V

-- `age is not None and age > stale_after`
abbrev pub is_stale : Option ℕ → ℕ → Bool
is_stale none stale_after = false
is_stale (some age) stale_after = ltb stale_after age

module _ {World : Type 0} (files : LockFiles World) where
  unfoldable pub new_lock : String → World → ProcessLock × World
  new_lock path w =
      let (token, w') = files.new_token w in
      (record { path = path; token = token; held = false }, w')

  -- `some true`: acquired; `some false`: another holds it; `none`: no lock can be made here.
  unfoldable pub record_token : ProcessLock → World → (Option Bool × ProcessLock) × World
  record_token lock w =
      let (written, w') = files.write_token lock.path lock.token w in
      if written
      then ((some true, record lock { held = true }), w')
      else ((none, lock), (files.unlink lock.path w').1)

  abbrev pub after_create : CreateReply → ProcessLock → World → (Option Bool × ProcessLock) × World
  after_create created lock w = record_token lock w
  after_create already_exists lock w = ((some false, lock), w)
  after_create failed lock w = ((none, lock), w)

  unfoldable pub try_acquire : ProcessLock → World → (Option Bool × ProcessLock) × World
  unfolding record_token
  try_acquire lock w = let (reply, w') = files.create_lock lock.path w in after_create reply lock w'

  -- `max(0.0, time.time() - st_mtime)`, or none; the clock is read before the file
  unfoldable pub age_seconds : ProcessLock → World → Option ℕ × World
  age_seconds lock w =
      let (now, w') = files.wall_clock w in
      (elim (files.modified_at lock.path w') [ none ↦ none | some t ↦ some (now - t) ], w')

  unfoldable pub break_stale : ProcessLock → ℕ → World → Bool × World
  unfolding age_seconds
  break_stale lock stale_after w =
      let (age, w') = age_seconds lock w in
      if is_stale age stale_after then files.unlink lock.path w' else (false, w')

  -- `age is not None and age > stale_after and lock.break_stale(stale_after)`
  unfoldable pub try_break : ProcessLock → ℕ → World → Bool × World
  try_break lock stale_after w =
      let (age, w') = age_seconds lock w in
      if is_stale age stale_after then break_stale lock stale_after w' else (false, w')

  abbrev pub remove_own : ProcessLock → Option String → World → World
  remove_own lock none w = w
  remove_own lock (some content) w =
      if str_eq content lock.token then (files.unlink lock.path w).1 else w

  unfoldable pub release : ProcessLock → World → ProcessLock × World
  release lock w = (
    record lock { held = false },
    if lock.held then remove_own lock (files.read_token lock.path w) w else w,
  )

-- Microseconds: 0.01 and 0.2 seconds.
abbrev pub poll_initial : ℕ
poll_initial = 10_000

abbrev pub poll_cap : ℕ
poll_cap = 200_000

-- The outcome, the lock as it was left, and how many stale locks were broken.
abbrev pub Joined : Type 0 → Type 0
Joined V = Outcome V × ProcessLock × ℕ

-- The `while True` loop of `coordinate`, on fuel. `exhausted` is raised when the fuel is gone.
module _ {E S V : Type 0} (files : LockFiles S) (fresh_value : Exec E S (Option V)) (exhausted : E)
    (stale_after deadline : ℕ) where
  -- The end of a round that did not break a lock.
  unfoldable pub wait_more :
      ProcessLock → ℕ → ℕ → (ProcessLock → ℕ → ℕ → Exec E S (Joined V)) → Exec E S (Joined V)
  wait_more lock interval stale_broken again s =
      let (now, s') = files.monotonic s in
      if leb deadline now
      then (ok (timeout, lock, stale_broken), s')
      else again lock (min_of (interval * 3 / 2) poll_cap) stale_broken (files.sleep interval s')

  -- Another process holds the lock.
  unfoldable pub contended :
      ProcessLock → ℕ → ℕ → (ProcessLock → ℕ → ℕ → Exec E S (Joined V)) → Exec E S (Joined V)
  unfolding wait_more try_break
  contended lock interval stale_broken again s =
      let (broke, s') = try_break files lock stale_after s in
      if broke
      then again lock interval (stale_broken + 1) s'
      else wait_more lock interval stale_broken again s'

  abbrev pub on_reply :
      Option Bool × ProcessLock
      → ℕ
      → ℕ
      → (ProcessLock → ℕ → ℕ → Exec E S (Joined V))
      → Exec E S (Joined V)
  on_reply (none, lock) interval stale_broken again = pure (unavailable, lock, stale_broken)
  on_reply (some true, lock) interval stale_broken again = pure (acquired, lock, stale_broken)
  on_reply (some false, lock) interval stale_broken again =
      contended lock interval stale_broken again

  abbrev pub on_value :
      Option V
      → ProcessLock
      → ℕ
      → ℕ
      → (ProcessLock → ℕ → ℕ → Exec E S (Joined V))
      → Exec E S (Joined V)
  on_value (some v) lock interval stale_broken again s = (ok (served v, lock, stale_broken), s)
  on_value none lock interval stale_broken again s =
      let (reply, s') = try_acquire files lock s in on_reply reply interval stale_broken again s'

  unfoldable pub poll_round :
      ProcessLock → ℕ → ℕ → (ProcessLock → ℕ → ℕ → Exec E S (Joined V)) → Exec E S (Joined V)
  unfolding contended try_acquire
  poll_round lock interval stale_broken again = do
    value ← fresh_value
    on_value value lock interval stale_broken again

  unfoldable pub poll_loop : ℕ → ProcessLock → ℕ → ℕ → Exec E S (Joined V)
  poll_loop zero lock interval stale_broken s = (raise exhausted, s)
  poll_loop (suc fuel) lock interval stale_broken s =
      poll_round lock interval stale_broken (λ l i n t. poll_loop fuel l i n t) s

module _ {E S V : Type 0} (files : LockFiles S) (fresh_value : Exec E S (Option V)) (exhausted : E)
    (fuel max_wait stale_after : ℕ) where
  unfoldable pub coordinate : ProcessLock → Exec E S (Joined V)
  coordinate lock s =
      let (now, s') = files.monotonic s in
      poll_loop files fresh_value exhausted stale_after (now + max_wait) fuel lock poll_initial 0 s'
