-- ===== src/Json.antt =====
-- The JSON values that bodies hold, and Python's numbers.
use runstate.Prelude.{String, ◌≡◌, Bool, true, false, Option, none, some, str_eq, if◌then◌else◌}
use runstate.Prelude.Int.{ℤ, pos}

-- Python's numbers, `int` and `float`, with the comparisons and the subtraction that the code
-- calls. The laws are documented behaviour: comparison is exact and transitive, also between an
-- `int` and a `float`, and total on what compares with 0, which leaves NaN out.
pub record Number (F : Type 0) : Type 0 where
  pub of_int : ℤ → F
  pub le : F → F → Bool
  pub lt : F → F → Bool
  pub sub : F → F → F
  pub le_trans : (a b c : F) → le a b ≡ true → le b c ≡ true → le a c ≡ true
  pub le_of_lt : (a b : F) → lt a b ≡ true → le a b ≡ true
  pub le_of_not_lt :
      (a b : F)
      → le (of_int (pos 0)) a ≡ true
      → le (of_int (pos 0)) b ≡ true
      → lt a b ≡ false
      → le b a ≡ true
  pub zero_le_zero : le (of_int (pos 0)) (of_int (pos 0)) ≡ true

-- An object is a dict: its keys are distinct. Its fields stand in insertion order.
mutual
  pub data Json (F : Type 0) : Type 0 where
    null : Json F
    bool : Bool → Json F
    int : ℤ → Json F
    float : F → Json F
    str : String → Json F
    list : Items F → Json F
    obj : Fields F → Json F

  pub data Items (F : Type 0) : Type 0 where
    nil : Items F
    cons : Json F → Items F → Items F

  pub data Fields (F : Type 0) : Type 0 where
    end : Fields F
    field : String → Json F → Fields F → Fields F

module _ {F : Type 0} where
  abbrev pub get : String → Fields F → Option (Json F)
  get k end = none
  get k (field j v fs) = if str_eq j k then some v else get k fs
