-- ===== src/Scenario/Profiles.antt =====
-- The scenario's function is profiled: a key that is not stored is not stored afterwards.
use cachau.Backend.Laws.{StoreLaws}
use cachau.Memory.Laws.{memory_backend-StoreLaws}
use cachau.Observation.Profiling.{Bound, profile}
use cachau.Observation.Restored.{profile-Restores}
use cachau.Observation.Tidy.{Restores, Absent, IsTidy}
use cachau.Prelude.Exec.{ok}
use cachau.Prelude.{
  String, [], ◌∷◌, none, str_eq, eq_iff, false, ◌≡◌, ◌≢◌, refl, sym, ◌∙◌, arith, Bool-cases, inl,
  inr,
}
use cachau.Scenario.{Room, counter, start}
use mathlib.Core.Path.{subst}

-- No array among the arguments, and a helper that was not declared.
abbrev call : Bound counter
call = record {
  largest = λ a w. (ok none, w);
  helpers = ("helper", "app.helper") ∷ [];
  declared_code = [];
}

laws : StoreLaws counter.store
laws =
    memory_backend-StoreLaws Unit (λ w. w.entries) (λ entries w. record w { entries = entries })
      (λ d w. refl)

apart : (k key : String) → str_eq k key ≡ false → key ≢ k
apart k key d e = ground (arith, d, eq_iff k key, sym e)

deleting :
    (key k : String) (w : Room)
    → Absent counter k w
    → Absent counter k (counter.store.delete key w).1
deleting key k w h = elim (Bool-cases (str_eq k key)) [
  | inr other ↦ laws.other_after_delete key k w (apart k key other) ∙ h
  | inl same ↦
      let f : k ≡ key = ground (arith, same, eq_iff k key) in
      subst (λ j. Absent counter j (counter.store.delete key w).1) (sym f)
        (laws.get_after_delete key w refl)
]

tidy : IsTidy counter call
tidy = record {
  digest = λ args k w h. h;
  func = λ args k w h. h;
  clock = λ k w h. h;
  perf_counter = λ k w h. h;
  size_of = λ value k w h. h;
  fingerprint_of = λ label k w h. h;
  largest = λ args k w h. h;
  get = λ key k w h. h;
  delete = deleting;
  set_other = λ k key e w d h. laws.other_after_set key k e w (apart k key d) ∙ h;
  set_failed = λ key e w x p h. cc;
  deleted = λ key w. laws.get_after_delete key w refl;
}

profile-Restores_example : Restores counter start (profile counter call "x" 2 start).1
profile-Restores_example = profile-Restores counter call tidy "x" 2 start
