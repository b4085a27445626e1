-- ===== src/Decoration/Wrapped.antt =====
-- src/cachau/decorator.py: `_wrap` from its checks to the passes over its store.
use cachau.Backend.Laws.{StoreLaws}
use cachau.Backend.{EntryMetadata, CacheBackend}
use cachau.Decoration.Configure.{Options, Resolved, Decorated, Configured, configure, outside, wrap}
use cachau.Decoration.Purge.{IsReliable}
use cachau.Decoration.Reclaim.{Reclaimed, start_up-Reclaimed}
use cachau.Decoration.Startup.{Started, start_up}
use cachau.Decoration.Valid.{IsConfigured, configure-IsConfigured}
use cachau.Prelude.Exec.{Result, ok, pure, ◌>>=◌}
use cachau.Prelude.Exec.Yields.{bind_ok}
use cachau.Prelude.{ℕ, List, ◌≡◌, ◌∙◌, refl}

module _ {World Exn V : Type 0} (function : Decorated World Exn)
    (store_of : Resolved → CacheBackend World V Exn) where
  outside_ok :
      {A B : Type 0} (r : World → Result Exn A × World) (f : A → B) (w : World) (a : A)
      → (r w).0 ≡ ok a
      → ((λ v. outside function (r v)) >>= (λ b. pure (f b))) w ≡ (ok (f a), (r w).1)
  unfolding ◌>>=◌
  outside_ok r f w a e = rw e refl

  -- Where the checks pass and the store of their choice lists its rows, obeys the contract and
  -- deletes what it is told to, the decoration returns: with options that are valid, and with the
  -- store and the budget as `Reclaimed` says, for the namespace, the code and the limit of the options.
  pub wrap-Reclaimed :
      (fuel : ℕ) (o : Options) (w : World) (c : Configured) (rows : List EntryMetadata)
      → StoreLaws (store_of c.backend)
      → IsReliable (store_of c.backend)
      → (configure function fuel o w).0 ≡ ok c
      → (store_of c.backend).iter_metadata (configure function fuel o w).1 ≡ ok rows
      → (started : Started) × ((wrap function store_of fuel o w).0 ≡ ok (c, started))
        × IsConfigured function.parameters o c
        × Reclaimed
            (store_of c.backend)
            c.config.namespace
            c.config.fingerprint
            rows
            c.max_memory_bytes
            (started, (wrap function store_of fuel o w).1)
  unfolding wrap
  wrap-Reclaimed fuel o w c rows laws reliable h listed =
      let (started, e, r) =
        start_up-Reclaimed (store_of c.backend) laws reliable c.config.namespace
          c.config.fingerprint rows c.max_memory_bytes (configure function fuel o w).1 listed in
      let passes =
        start_up (store_of c.backend) c.max_memory_bytes c.config.namespace c.config.fingerprint in
      let whole : wrap function store_of fuel o w
          ≡ (ok (c, started), (passes (configure function fuel o w).1).1) =
        bind_ok {B = Configured × Started} (configure function fuel o) _ w c h
        ∙ outside_ok {B = Configured × Started} passes (λ s. (c, s)) (configure function fuel o w).1
            started e in
      rw whole (started, refl, configure-IsConfigured function fuel o w c h, r)
