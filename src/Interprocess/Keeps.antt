-- ===== src/Interprocess/Keeps.antt =====
-- `coordinate` (src/cachau/interprocess.py) and the invariants of its probe and of the lock files.
use cachau.Interprocess.{
  LockFiles, ProcessLock, Joined, CreateReply, created, already_exists, failed, new_lock,
  try_acquire, age_seconds, try_break, break_stale, release, wait_more, contended, poll_round,
  poll_loop, coordinate, after_create, is_stale, remove_own, record_token, on_reply, on_value,
}
use cachau.Prelude.Exec.Keeps.{Keeps, IsPreorder, Keeps-bind}
use cachau.Prelude.Exec.{Exec, pure}
use cachau.Prelude.{
  ℕ, zero, suc, String, Bool, true, false, Option, none, some, leb, str_eq, if◌then◌else◌,
}

-- Every call of the operating system keeps the relation.
pub record FilesKeep {S : Type 0} (R : S → S → Type 0) (files : LockFiles S) : Type 0 where
  pub order : IsPreorder R
  pub on_create : (p : String) (s : S) → R s (files.create_lock p s).1
  pub on_write : (p t : String) (s : S) → R s (files.write_token p t s).1
  pub on_unlink : (p : String) (s : S) → R s (files.unlink p s).1
  pub on_wall : (s : S) → R s (files.wall_clock s).1
  pub on_monotonic : (s : S) → R s (files.monotonic s).1
  pub on_sleep : (d : ℕ) (s : S) → R s (files.sleep d s)
  pub on_token : (s : S) → R s (files.new_token s).1

-- Either branch of a test.
if_keeps :
    {S A : Type 0} (R : S → S → Type 0) {s : S} (b : Bool) (x y : A × S)
    → R s x.1
    → R s y.1
    → R s (if b then x else y).1
if_keeps R true x y h k = h
if_keeps R false x y h k = k

module _ {S : Type 0} {R : S → S → Type 0} {files : LockFiles S} (k : FilesKeep R files) where
  pub new_lock-Keeps : (path : String) (s : S) → R s (new_lock files path s).1
  unfolding new_lock
  new_lock-Keeps path s = k.on_token s

  record_token-Keeps : (lock : ProcessLock) {s t : S} → R s t → R s (record_token files lock t).1
  unfolding record_token
  record_token-Keeps lock {s} {t} h =
      let wrote = k.order.after h (k.on_write lock.path lock.token t) in
      if_keeps R (files.write_token lock.path lock.token t).0 _ _ wrote
        (k.order.after wrote (k.on_unlink lock.path _))

  after_create-Keeps :
      (reply : CreateReply) (lock : ProcessLock) {s t : S}
      → R s t
      → R s (after_create files reply lock t).1
  after_create-Keeps created lock h = record_token-Keeps lock h
  after_create-Keeps already_exists lock h = h
  after_create-Keeps failed lock h = h

  pub try_acquire-Keeps : (lock : ProcessLock) (s : S) → R s (try_acquire files lock s).1
  unfolding try_acquire
  try_acquire-Keeps lock s =
      after_create-Keeps (files.create_lock lock.path s).0 lock (k.on_create lock.path s)

  pub age_seconds-Keeps : (lock : ProcessLock) (s : S) → R s (age_seconds files lock s).1
  unfolding age_seconds
  age_seconds-Keeps lock s = k.on_wall s

  pub break_stale-Keeps :
      (lock : ProcessLock) (stale_after : ℕ) (s : S) → R s (break_stale files lock stale_after s).1
  unfolding break_stale
  break_stale-Keeps lock stale_after s =
      let aged = age_seconds-Keeps lock s in
      if_keeps R (is_stale (age_seconds files lock s).0 stale_after) _ _
        (k.order.after aged (k.on_unlink lock.path _)) aged

  try_break-Keeps :
      (lock : ProcessLock) (stale_after : ℕ) (s : S) → R s (try_break files lock stale_after s).1
  unfolding try_break
  try_break-Keeps lock stale_after s =
      let aged = age_seconds-Keeps lock s in
      if_keeps R (is_stale (age_seconds files lock s).0 stale_after) _ _
        (k.order.after aged (break_stale-Keeps lock stale_after _)) aged

  remove_own-Keeps :
      (lock : ProcessLock) (content : Option String) (s : S) → R s (remove_own files lock content s)
  remove_own-Keeps lock none s = k.order.here s
  remove_own-Keeps lock (some content) s = own (str_eq content lock.token)
    where
      own : (b : Bool) → R s (if b then (files.unlink lock.path s).1 else s)
      own true = k.on_unlink lock.path s
      own false = k.order.here s

  pub release-Keeps : (lock : ProcessLock) (s : S) → R s (release files lock s).1
  unfolding release
  release-Keeps lock s = own lock.held
    where
      own :
          (b : Bool) → R s (if b then remove_own files lock (files.read_token lock.path s) s else s)
      own true = remove_own-Keeps lock (files.read_token lock.path s) s
      own false = k.order.here s

  module _ {E V : Type 0} {fresh_value : Exec E S (Option V)} (kv : Keeps R fresh_value)
      (exhausted : E) (stale_after deadline : ℕ) where
    module _ (lock : ProcessLock) (interval stale_broken : ℕ)
        {again : ProcessLock → ℕ → ℕ → Exec E S (Joined V)}
        (ka : (l : ProcessLock) (i n : ℕ) → Keeps R (again l i n)) where
      wait_more-Keeps :
          {s t : S}
          → R s t
          → R s
              (wait_more files fresh_value exhausted stale_after deadline lock interval stale_broken
                again t).1
      unfolding wait_more
      wait_more-Keeps {s} {t} h =
          let read = k.order.after h (k.on_monotonic t) in
          if_keeps R (leb deadline (files.monotonic t).0) _ _ read (
            k.order.after (k.order.after read (k.on_sleep interval _))
              ((ka lock _ stale_broken).at _))

      contended-Keeps :
          {s t : S}
          → R s t
          → R s
              (contended files fresh_value exhausted stale_after deadline lock interval stale_broken
                again t).1
      unfolding contended
      contended-Keeps {s} {t} h =
          let tried = k.order.after h (try_break-Keeps lock stale_after t) in
          if_keeps R (try_break files lock stale_after t).0 _ _
            (k.order.after tried ((ka lock interval _).at _)) (wait_more-Keeps tried)

    on_reply-Keeps :
        (reply : Option Bool × ProcessLock) (interval stale_broken : ℕ)
        {again : ProcessLock → ℕ → ℕ → Exec E S (Joined V)}
        → ((l : ProcessLock) (i n : ℕ) → Keeps R (again l i n))
        → {s t : S} → R s t
        → R s
            (on_reply files fresh_value exhausted stale_after deadline reply interval stale_broken
              again t).1
    unfolding pure
    on_reply-Keeps (none, lock) interval stale_broken ka h = h
    on_reply-Keeps (some true, lock) interval stale_broken ka h = h
    on_reply-Keeps (some false, lock) interval stale_broken ka h =
        contended-Keeps lock interval stale_broken ka h

    on_value-Keeps :
        (value : Option V) (lock : ProcessLock) (interval stale_broken : ℕ)
        {again : ProcessLock → ℕ → ℕ → Exec E S (Joined V)}
        → ((l : ProcessLock) (i n : ℕ) → Keeps R (again l i n))
        → Keeps R (
            on_value files fresh_value exhausted stale_after deadline value lock interval
              stale_broken again)
    on_value-Keeps (some v) lock interval stale_broken ka = record { at = λ s. k.order.here s }
    on_value-Keeps none lock interval stale_broken ka = record {
      at = λ s.
          on_reply-Keeps (try_acquire files lock s).0 interval stale_broken ka
            (try_acquire-Keeps lock s);
    }

    poll_loop-Keeps :
        (fuel : ℕ) (lock : ProcessLock) (interval stale_broken : ℕ)
        → Keeps R (
            poll_loop files fresh_value exhausted stale_after deadline fuel lock interval
              stale_broken)
    unfolding poll_loop poll_round
    poll_loop-Keeps zero lock interval stale_broken = record { at = λ s. k.order.here s }
    poll_loop-Keeps (suc fuel) lock interval stale_broken =
        Keeps-bind k.order kv
          λ value. on_value-Keeps value lock interval stale_broken (poll_loop-Keeps fuel)

  pub coordinate-Keeps :
      {E V : Type 0} {fresh_value : Exec E S (Option V)} (exhausted : E)
      (fuel max_wait stale_after : ℕ) (lock : ProcessLock)
      → Keeps R fresh_value
      → Keeps R (coordinate files fresh_value exhausted fuel max_wait stale_after lock)
  unfolding coordinate
  coordinate-Keeps exhausted fuel max_wait stale_after lock kv = record {
    at = λ s.
        k.order.after (k.on_monotonic s)
          ((poll_loop-Keeps kv exhausted stale_after _ fuel lock _ 0).at _);
  }
