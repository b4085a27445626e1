-- ===== src/Profile.antt =====
-- src/cachau/profile.py: `CacheProfile`, `measure` and `diagnose`. Durations are ticks of one clock.
use cachau.Prelude.{
  ℕ, ◌+◌, ◌*◌, ◌≤◌, ◌<◌, String, Bool, true, false, ◌&&◌, ◌||◌, Option, none, some, ltb, leb, ◌≡◌,
  refl, sym, arith, if◌then◌else◌, Bool-cases, inl, inr,
}

pub data Verdict : Type 0 where
  worth_it : Verdict
  marginal : Verdict
  not_worth_it : Verdict

pub data PrimaryCost : Type 0 where
  key_generation : PrimaryCost
  cache_read : PrimaryCost
  -- `hashing ...`, the largest argument
  hashing : String → PrimaryCost

pub data Recommendation : Type 0 where
  keep : Recommendation
  keep_with_key : String → Recommendation
  provide_key : Recommendation
  do_not_cache : Recommendation
  drop_or_key : Recommendation

pub record Diagnosis : Type 0 where
  pub verdict : Verdict
  pub primary_cost : PrimaryCost
  pub recommendation : Recommendation

-- `compute / hit >= 1.2` and `compute / hit <= 0.8`, where the ratio is infinite for no cost at all.
abbrev pub reaches_worth_it : ℕ → ℕ → Bool
reaches_worth_it compute hit = leb hit 0 || leb (12 * hit) (10 * compute)

abbrev pub reaches_not_worth : ℕ → ℕ → Bool
reaches_not_worth compute hit = ltb 0 hit && leb (10 * compute) (8 * hit)

abbrev pub dominant : Bool → PrimaryCost
dominant true = key_generation
dominant false = cache_read

abbrev pub when_worth_it : Bool → Option (String × ℕ) → Recommendation
when_worth_it true (some (label, nbytes)) = keep_with_key label
when_worth_it _ _ = keep

abbrev pub otherwise : Bool → Bool → Verdict → Option (String × ℕ) → Diagnosis
otherwise true slow verdict (some (label, nbytes)) = record {
  verdict = verdict;
  primary_cost = hashing label;
  recommendation = provide_key;
}
otherwise dominates slow verdict _ = record {
  verdict = verdict;
  primary_cost = dominant dominates;
  recommendation = if slow then do_not_cache else drop_or_key;
}

unfoldable pub diagnose : ℕ → ℕ → ℕ → Option (String × ℕ) → Diagnosis
diagnose compute key read largest_data =
    let hit = key + read in
    let dominates = leb read key in
    if reaches_worth_it compute hit
    then record {
      verdict = worth_it;
      primary_cost = dominant dominates;
      recommendation = when_worth_it dominates largest_data;
    }
    else otherwise dominates (leb key read && ltb compute read)
        (if reaches_not_worth compute hit then not_worth_it else marginal) largest_data

abbrev pub keeps : Recommendation → Bool
keeps keep = true
keeps (keep_with_key label) = true
keeps provide_key = false
keeps do_not_cache = false
keeps drop_or_key = false

abbrev pub OnlyIf : Recommendation → Type 0 → Type 0
OnlyIf do_not_cache P = P
OnlyIf _ P = Unit

-- The band of the ratio that a verdict stands for.
abbrev pub Band : ℕ → ℕ → Verdict → Type 0
Band compute hit worth_it = 12 * hit ≤ 10 * compute
Band compute hit marginal = (10 * compute < 12 * hit) × (8 * hit < 10 * compute)
Band compute hit not_worth_it = (10 * compute ≤ 8 * hit) × (10 * compute < 12 * hit)

abbrev pub is_worth_it : Verdict → Bool
is_worth_it worth_it = true
is_worth_it marginal = false
is_worth_it not_worth_it = false

pub record IsHonest (compute key read : ℕ) (d : Diagnosis) : Type 0 where
  pub banded : Band compute (key + read) d.verdict
  pub consistent : keeps d.recommendation ≡ is_worth_it d.verdict
  pub slow_read : OnlyIf d.recommendation (compute < read)

when_worth_it-keeps :
    (b : Bool) (o : Option (String × ℕ)) (P : Type 0)
    → (keeps (when_worth_it b o) ≡ true) × OnlyIf (when_worth_it b o) P
when_worth_it-keeps true none P = (refl, tt)
when_worth_it-keeps true (some (label, nbytes)) P = (refl, tt)
when_worth_it-keeps false o P = (refl, tt)

not_kept :
    (compute key read : ℕ) (slow : Bool) (verdict : Verdict) (cost : PrimaryCost)
    → Band compute (key + read) verdict
    → is_worth_it verdict ≡ false
    → (slow ≡ true → compute < read)
    → IsHonest compute key read record {
      verdict = verdict;
      primary_cost = cost;
      recommendation = if slow then do_not_cache else drop_or_key;
    }
not_kept compute key read true verdict cost b w s = record {
  banded = b;
  consistent = sym w;
  slow_read = s refl;
}
not_kept compute key read false verdict cost b w s = record {
  banded = b;
  consistent = sym w;
  slow_read = tt;
}

otherwise-IsHonest :
    (compute key read : ℕ) (dominates slow : Bool) (verdict : Verdict) (o : Option (String × ℕ))
    → Band compute (key + read) verdict
    → is_worth_it verdict ≡ false
    → (slow ≡ true → compute < read)
    → IsHonest compute key read (otherwise dominates slow verdict o)
otherwise-IsHonest compute key read true slow verdict (some (label, nbytes)) b w s = record {
  banded = b;
  consistent = sym w;
  slow_read = tt;
}
otherwise-IsHonest compute key read true slow verdict none b w s =
    not_kept compute key read slow verdict _ b w s
otherwise-IsHonest compute key read false slow verdict o b w s =
    not_kept compute key read slow verdict _ b w s

not_worth-IsHonest :
    (compute key read : ℕ) (b : Bool) (o : Option (String × ℕ))
    → reaches_not_worth compute (key + read) ≡ b
    → reaches_worth_it compute (key + read) ≡ false
    → IsHonest compute key read (
        otherwise
          (leb read key)
          (leb key read && ltb compute read)
          (if b then not_worth_it else marginal)
          o)
not_worth-IsHonest compute key read true o e f =
    otherwise-IsHonest compute key read (leb read key) _ not_worth_it o
      (ground (arith, e, f), ground (arith, f)) refl (λ q. ground (arith, q))
not_worth-IsHonest compute key read false o e f =
    otherwise-IsHonest compute key read (leb read key) _ marginal o
      (ground (arith, f), ground (arith, e, f)) refl (λ q. ground (arith, q))

-- A verdict stands for its band of the ratio; caching is recommended where it is worth it and nowhere
-- else; and where a diagnosis says not to cache because recomputing beats reading, it does.
pub diagnose-IsHonest :
    (compute key read : ℕ) (largest_data : Option (String × ℕ))
    → IsHonest compute key read (diagnose compute key read largest_data)
unfolding diagnose
diagnose-IsHonest compute key read o = elim (Bool-cases (reaches_worth_it compute (key + read))) [
  | inl e ↦ rw e record {
    banded = ground (arith, e);
    consistent = (when_worth_it-keeps (leb read key) o (compute < read)).0;
    slow_read = (when_worth_it-keeps (leb read key) o (compute < read)).1;
  }
  | inr e ↦ rw e (not_worth-IsHonest compute key read _ o refl e)
]
