-- ===== src/Dot/Tests.antt =====
-- Dot values, and the theorems of Dot/Aligned and Dot/Typed/Safety at them.
use xtemplate.Prelude.{ℕ, ◌%◌, ◌≡◌, refl, arith, none, some, List, [], ◌∷◌, ◌++◌, map, codes}
use xtemplate.Prelude.Errors.{Result, ok}
use xtemplate.Dot.{DotConfig, Pooled, make_dot, value, cleanup}
use xtemplate.Dot.Typed.{Probed, TypedDot, make_typed_dot, typed_value}
use xtemplate.Dot.Typed.Safety.{HasType, HaveTypes, typed_value_lem}
use xtemplate.Dot.Aligned.{clean_pairs, cleanup_aligned}

abbrev plain : ℕ → DotConfig (List ℕ) ℕ
plain n = record { field_name = codes "A"; value_ = λ w. (w, ok n); cleanup_ = none }

-- Its cleanup writes down the field that it is given.
abbrev noting : ℕ → DotConfig (List ℕ) ℕ
noting n = record {
  field_name = codes "B";
  value_ = λ w. (w, ok n);
  cleanup_ = some (λ v e w. (w ++ v ∷ [], e));
}

abbrev pool : Pooled (List ℕ)
pool = record { world = []; taken = 2 }

abbrev three : List (DotConfig (List ℕ) ℕ)
three = noting 5 ∷ plain 6 ∷ noting 7 ∷ []

three_cleaned : clean_pairs three (5 ∷ 6 ∷ 8 ∷ []) ([], none) ≡ (5 ∷ 8 ∷ [], none)
unfolding clean_pairs
three_cleaned = refl

cleanup_aligned_example :
    cleanup (make_dot three) (5 ∷ 6 ∷ 8 ∷ []) none (record { world = []; taken = 3 })
    ≡ some (
      record { world = (clean_pairs three (5 ∷ 6 ∷ 8 ∷ []) ([], none)).0; taken = 2 },
      (clean_pairs three (5 ∷ 6 ∷ 8 ∷ []) ([], none)).1,
    )
unfolding value make_dot
cleanup_aligned_example =
    cleanup_aligned three pool (record { world = []; taken = 3 }) (5 ∷ 6 ∷ 7 ∷ []) (5 ∷ 6 ∷ 8 ∷ [])
      [] none refl refl

-- Fields of the types 0 and 1: even and odd numbers.
abbrev parity : ℕ → ℕ
parity n = n % 2

abbrev probes : List (Probed (List ℕ) ℕ)
probes =
    record { config = noting 5; mock = some 1 } ∷ record { config = plain 6; mock = some 0 } ∷ []

plain-HasType :
    (n : ℕ) (w u : List ℕ) (v : ℕ)
    → ◌≡◌ {A = List ℕ × Result ℕ} (w, ok n) (u, ok v)
    → parity v ≡ parity n
plain-HasType n w u v h = let same : n ≡ v = ground (arith, h) in rw same

probes-HaveTypes : HaveTypes parity (1 ∷ 0 ∷ []) probes
unfolding HaveTypes HasType
probes-HaveTypes = (((1, refl, refl), plain-HasType 5), (((0, refl, refl), plain-HasType 6), tt))

typed_value_lem_example :
    (d : TypedDot (List ℕ) ℕ) × (make_typed_dot parity probes ≡ some d)
    × (typed_value parity d pool ≡ some (record { world = []; taken = 3 }, ok (5 ∷ 6 ∷ [])))
    × (d.dot ≡ make_dot (noting 5 ∷ plain 6 ∷ []))
    × (d.types ≡ 1 ∷ 0 ∷ [])
    × (map parity (5 ∷ 6 ∷ []) ≡ 1 ∷ 0 ∷ [])
unfolding value make_dot
typed_value_lem_example = typed_value_lem parity (1 ∷ 0 ∷ []) probes pool probes-HaveTypes refl
