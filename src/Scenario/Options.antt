-- ===== src/Scenario/Options.antt =====
-- Decorating with options, over the store that an earlier process filled.
use cachau.Decoration.Configure.{Options, shared_memory, no, Decorated, Configured, configure, wrap}
use cachau.Decoration.Reclaim.{Reclaimed}
use cachau.Decoration.Startup.{Started}
use cachau.Decoration.Valid.{IsConfigured, configure-IsConfigured}
use cachau.Decoration.Wrapped.{wrap-Reclaimed}
use cachau.Dependencies.Normalize.{nothing}
use cachau.Prelude.Exec.{ok, ◌>>=◌}
use cachau.Prelude.Int.{pos}
use cachau.Prelude.{
  ◌*◌, ◌<◌, String, [], ◌∷◌, false, Option, none, some, str_eq, ◌≡◌, refl, ap, ◌∙◌, arith,
  if◌then◌else◌, contains,
}
use cachau.Scenario.Reports.{store_laws, stopped}
use cachau.Scenario.Restart.{filled, listed, lists, reliable}
use cachau.Scenario.{Room}
use cachau.Settings.Durations.Outcome.{TtlOutcome, parse_ttl-TtlOutcome}
use cachau.Settings.Durations.{parse_ttl, unit_seconds}
use cachau.Settings.{float_limit, in_range, Float, finite, boolean, text}

abbrev read_float : String → Option Float
read_float t =
    if str_eq t "1"
    then some (finite (pos 1_000_000))
    else if str_eq t "100"
    then some (finite (pos 100_000_000))
    else none

abbrev load : Decorated Room (Unit {0})
load = record {
  parameters = "x" ∷ "y" ∷ [];
  function_namespace = "app.load";
  fingerprint = "f0";
  jit_boundary = false;
  machine_code_cache = false;
  warn = λ w. (ok tt, w);
  make_directory = λ name w. (ok tt, w);
  float_of = read_float;
  upper = λ t. t;
}

abbrev options : Options
options = record {
  key_given = false;
  ignore = "y" ∷ [];
  verify = boolean false;
  depends_on = nothing;
  ttl = text "1h";
  max_memory = text "100B";
  namespace = none;
  persist = no;
  backend = none;
  coalesce = "threads";
}

abbrev settled : Configured
settled = record {
  ignored = "y" ∷ [];
  max_memory_bytes = some 100;
  backend = shared_memory;
  config = record {
    namespace = "app.load";
    fingerprint = "f0";
    ttl_seconds = some 3_600_000_000;
    dependencies = [];
    verify_probability = 0;
    process_flight = false;
    jit_boundary = false;
    fuel = 10;
  };
}

settles : configure load 10 options filled ≡ (ok settled, filled)
unfolding configure unit_seconds contains in_range ◌>>=◌
settles = refl

configure-IsConfigured_example : IsConfigured load.parameters options settled
configure-IsConfigured_example =
    configure-IsConfigured load 10 options filled settled (ap (λ p. p.0) settles)

wrap-Reclaimed_example :
    (started : Started) × ((wrap load (λ r. stopped.store) 10 options filled).0
      ≡ ok (settled, started))
    × IsConfigured load.parameters options settled
    × Reclaimed stopped.store "app.load" "f0" listed
        (some 100)
        (started, (wrap load (λ r. stopped.store) 10 options filled).1)
wrap-Reclaimed_example =
    wrap-Reclaimed load (λ r. stopped.store) 10 options filled settled listed store_laws reliable
      (ap (λ p. p.0) settles) (ap (λ p. stopped.store.iter_metadata p.1) settles ∙ lists)

parse_ttl-TtlOutcome_example : TtlOutcome read_float (text "1h") (parse_ttl read_float (text "1h"))
parse_ttl-TtlOutcome_example = parse_ttl-TtlOutcome read_float (text "1h")

hours : unit_seconds "h" ≡ some 3600
unfolding unit_seconds
hours = refl

within : 1_000_000 * 3600 < float_limit * 1_000_000
unfolding float_limit
within = omega arith
