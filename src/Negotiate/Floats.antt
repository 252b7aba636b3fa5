-- ===== src/Negotiate/Floats.antt =====
-- The float64 arithmetic that handlers.go uses, as an interface, and one value of it.
use xtemplate.Prelude.{
  ℕ, ◌+◌, ◌-◌, Bool, true, false, Option, none, some, Text, codes, text_eq, leb, ltb, ◌≡◌,
  if◌then◌else◌, refl,
}

-- The type float64 with the constants 0.0, 1.0 and 0.1, its operations and `strconv.ParseFloat`
-- (`none` where it returns an error). Nothing is assumed of it here: the lemmas that need a law
-- of IEEE arithmetic take it as a hypothesis.
pub record Float64 : Type 1 where
  pub F : Type 0
  pub zero : F
  pub one : F
  pub tenth : F
  pub sub : F → F → F
  pub abs : F → F
  pub lt : F → F → Bool
  pub le : F → F → Bool
  pub parse_float : Text → Option F

-- What IEEE arithmetic gives for the constants: 1.0 - 0.0 > 0.1, |0.0 - 0.0| ≤ 0.1 and "0" is 0.0.
pub record IsStandard (f : Float64) : Type 0 where
  pub one_large : f.lt f.tenth (f.sub f.one f.zero) ≡ true
  pub zero_close : f.le (f.abs (f.sub f.zero f.zero)) f.tenth ≡ true
  pub zero_small : f.lt f.tenth (f.sub f.zero f.zero) ≡ false
  pub parse_zero : f.parse_float (codes "0") ≡ some f.zero

-- Tenths with a sign: the pair stands for its first part less its second.
abbrev parse_tenths : Text → Option (ℕ × ℕ)
parse_tenths s =
    if text_eq s (codes "0")
    then some (0, 0)
    else if text_eq s (codes "1")
    then some (10, 0)
    else if text_eq s (codes "0.5")
    then some (5, 0)
    else none

abbrev pub tenths : Float64
unfolding text_eq
tenths = record {
  F = ℕ × ℕ;
  zero = (0, 0);
  one = (10, 0);
  tenth = (1, 0);
  sub = λ x y. (x.0 + y.1, x.1 + y.0);
  abs = λ x. if leb x.1 x.0 then (x.0 - x.1, 0) else (x.1 - x.0, 0);
  lt = λ x y. ltb (x.0 + y.1) (y.0 + x.1);
  le = λ x y. leb (x.0 + y.1) (y.0 + x.1);
  parse_float = parse_tenths;
}

pub tenths-IsStandard : IsStandard tenths
unfolding text_eq
tenths-IsStandard = record {
  one_large = refl;
  zero_close = refl;
  zero_small = refl;
  parse_zero = refl;
}
