-- ===== src/Fingerprint/Unwrap.antt =====
-- src/cachau/fingerprint.py: `unwrap_function`.
use cachau.Fingerprint.Objects.{Heap, has, is_jit_dispatcher}
use cachau.Fingerprint.Unseen.{unseen, unseen-lt, unseen-length}
use cachau.Prelude.{
  ℕ, zero, suc, ◌<◌, List, [], ◌∷◌, true, false, Option, none, some, ◌≡◌, ◌⊎◌, refl, arith, length,
  if◌then◌else◌, ◌==◌, ◌||◌, Bool-cases, inl, inr,
}

module _ (heap : Heap) where
  -- The rest of the loop after its test, for what the function says of itself, whether it was seen and
  -- what the next round returns; `none` is a loop longer than the fuel.
  unfoldable pub unwrap : ℕ → List ℕ → ℕ → Option ℕ
  unwrap zero seen func = none
  unwrap (suc fuel) seen func = elim (heap func).wrapped [
    | none ↦ some func
    | some next ↦
        let rest = unwrap fuel (func ∷ seen) next in
        if is_jit_dispatcher (heap func) || has seen func then some func else rest
  ]

  -- The second is reached from the first through wrappers that are not dispatchers.
  pub data Chain : ℕ → ℕ → Type 0 where
    here : {func : ℕ} → Chain func func
    through :
        {func next last : ℕ}
        → is_jit_dispatcher (heap func) ≡ false
        → (heap func).wrapped ≡ some next
        → Chain next last
        → Chain func last

  longer :
      {func last next : ℕ}
      → Chain func last
      → is_jit_dispatcher (heap last) ≡ false
      → (heap last).wrapped ≡ some next
      → Chain func next
  longer here j w = through j w here
  longer (through j' w' c) j w = through j' w' (longer c j w)

  -- A dispatcher, a function without `__wrapped__`, or one that leads back to itself.
  abbrev pub IsLast : ℕ → Type 0
  IsLast func =
      (is_jit_dispatcher (heap func) ≡ true)
      ⊎ (((heap func).wrapped ≡ none)
          ⊎ ((next : ℕ) × ((heap func).wrapped ≡ some next) × Chain next func))

  -- What was seen leads here.
  abbrev Behind : List ℕ → ℕ → Type 0
  Behind seen func =
      (j : ℕ) → has seen j ≡ true → (next : ℕ) × ((heap j).wrapped ≡ some next) × Chain next func

  behind :
      (seen : List ℕ) (func next : ℕ)
      → Behind seen func
      → is_jit_dispatcher (heap func) ≡ false
      → (heap func).wrapped ≡ some next
      → Behind (func ∷ seen) next
  behind seen func next h jit w j e = elim (Bool-cases (func == j)) [
    | inl same ↦ let f : func ≡ j = ground (arith, same) in (next, (rw f at w), here)
    | inr other ↦ let (k, p, c) = h j (ground (arith, e, other)) in (k, p, longer c jit w)
  ]

  module _ (universe : List ℕ)
      (closed : (i j : ℕ)
        → has universe i ≡ true
        → (heap i).wrapped ≡ some j
        → has universe j ≡ true) where
    unwraps :
        (fuel : ℕ) (seen : List ℕ) (func : ℕ) (w : Option ℕ)
        → has universe func ≡ true
        → unseen universe seen < fuel
        → Behind seen func
        → (heap func).wrapped ≡ w
        → (last : ℕ) × (unwrap fuel seen func ≡ some last) × Chain func last × IsLast last
    unfolding unwrap
    unwraps zero seen func w m h b e = absurd (omega (arith, h))
    unwraps (suc fuel) seen func none m h b e = (func, rw (unwrap, e) refl, here, inr (inl e))
    unwraps (suc fuel) seen func (some next) m h b e =
        elim (Bool-cases (is_jit_dispatcher (heap func))) [
          | inl jit ↦ (func, rw (unwrap, e, jit) refl, here, inl jit)
          | inr jit ↦ elim (Bool-cases (has seen func)) [
            | inl old ↦ (func, rw (unwrap, e, jit, old) refl, here, inr (inr (b func old)))
            | inr new ↦
                let (last, found, c, l) =
                  unwraps fuel (func ∷ seen) next (heap next).wrapped (closed func next m e)
                    (omega (arith, h, unseen-lt universe seen func m new))
                    (behind seen func next b jit e) refl in
                (last, rw (unwrap, e, jit, new) found, through jit e c, l)
          ]
        ]

    -- Unwrapping ends on every chain of wrappers, cycles included, within as many rounds as there are
    -- functions and one more. What it returns is reached from the function through wrappers that are
    -- not dispatchers, and it is a dispatcher, not a wrapper, or on a cycle: it never unwraps a
    -- dispatcher and never stops early.
    pub unwrap-IsLast :
        (func : ℕ)
        → has universe func ≡ true
        → (last : ℕ) × (unwrap (suc (length universe)) [] func ≡ some last)
          × Chain func last
          × IsLast last
    unwrap-IsLast func m =
        unwraps (suc (length universe)) [] func (heap func).wrapped m
          (omega (arith, unseen-length universe [])) (λ j e. cc) refl
