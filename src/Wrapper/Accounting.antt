-- ===== src/Wrapper/Accounting.antt =====
-- Hits and misses of src/cachau/decorator.py: what counts as a call, and what does not.
pub mod Misses
pub mod Flights
use cachau.Control.{
  State, Tally, Tallies, hits, miss_not_found, miss_expired, miss_invalidated,
  miss_dependency_changed, miss_verification_failed, add_to, bump, credit, record_hit,
  record_commit,
}
use cachau.Prelude.Exec.Counts.{Same, Same-order}
use cachau.Prelude.{ℕ, zero, suc, ◌+◌, Bool, true, false, ◌≡◌, refl, arith, if◌then◌else◌}
use cachau.Wrapper.Action.{on_budget}
use cachau.Wrapper.Frame.{Frame, AllowsCommit, is_bookkeeping}

abbrev pub misses_of : Tallies → ℕ
misses_of t =
    t miss_not_found
    + t miss_expired
    + t miss_invalidated
    + t miss_dependency_changed
    + t miss_verification_failed

-- `hits + misses` of `stats()`.
abbrev pub calls : {World : Type 0} → State World → ℕ
calls s = s.tallies hits + misses_of s.tallies

bookkeeping-calls :
    (name : Tally) (amount : ℕ) (t : Tallies)
    → is_bookkeeping name ≡ true
    → add_to name amount t hits + misses_of (add_to name amount t) ≡ t hits + misses_of t
bookkeeping-calls hits amount t q = cc
bookkeeping-calls _ amount t q = ground arith

hit-calls :
    (seconds n : ℕ) (t : Tallies)
    → credit seconds n t hits + misses_of (credit seconds n t) ≡ t hits + misses_of t
hit-calls seconds zero t = refl
hit-calls seconds (suc n) t = refl

module _ {World : Type 0} where
  pub calls_frame : Frame (Same {S = State World} calls)
  unfolding on_budget bump
  calls_frame = record {
    order = Same-order calls;
    on_world = λ s w. refl;
    on_clock = λ s r w. refl;
    on_marks = λ s a b c d. refl;
    on_tally = λ n m s q. bookkeeping-calls n m s.tallies q;
    on_touch = λ key s. refl;
    on_forget = λ key s. refl;
    on_admit = λ s b key size e fit. refl;
  }

  pub calls_commit : AllowsCommit (Same {S = State World} calls)
  unfolding record_commit
  calls_commit = record { on_commit = λ o s. refl }

  pub calls-record_hit :
      (coalesced : Bool) (s : State World) → calls (record_hit coalesced s) ≡ calls s + 1
  unfolding record_hit
  calls-record_hit true s = omega (arith, hit-calls s.saved_basis_seconds s.saved_basis_count)
  calls-record_hit false s = omega (arith, hit-calls s.saved_basis_seconds s.saved_basis_count)
