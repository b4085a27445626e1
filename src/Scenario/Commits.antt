-- ===== src/Scenario/Commits.antt =====
-- A write of the scenario's function that is served afterwards.
use cachau.Prelude.Exec.{ok}
use cachau.Prelude.{ℕ, ◌<◌, false, some, ◌≡◌, refl, arith}
use cachau.Scenario.Calls.{program}
use cachau.Scenario.Reports.{stopped, store_laws, the_key, prod}
use cachau.Scenario.{start}
use cachau.Wrapper.Committed.{serve_if_fresh-write}
use cachau.Wrapper.Freshness.{instant}
use cachau.Wrapper.{serve_if_fresh, write, new_entry}

accepted :
    (stopped.store.set the_key (new_entry stopped 7 1005 (some 40) prod) start.world).0 ≡ ok tt
accepted = refl

in_time :
    (x : ℕ)
    → (new_entry stopped 7 1005 (some 40) prod).expires_at ≡ some x
    → instant stopped the_key (write stopped the_key 7 1005 (some 40) prod 5 false start).1 < x
unfolding program
in_time x e = ground arith

serve_if_fresh-write_example :
    (serve_if_fresh stopped the_key prod false
      (write stopped the_key 7 1005 (some 40) prod 5 false start).1).0
    ≡ ok (some 7)
unfolding program
serve_if_fresh-write_example =
    serve_if_fresh-write stopped store_laws the_key 7 1005 (some 40) prod prod 5 false false start
      accepted in_time (λ x. refl)
