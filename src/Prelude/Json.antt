-- ===== src/Prelude/Json.antt =====
-- Decoded JSON: the values of `json.loads`, and what the program asks of them.
use mathlib.Core.Bool.{Bool}
use mathlib.Core.List.{List, [], ◌∷◌}
use mathlib.Core.Option.{Option, none, some}
use Prim.Native.Nat.{ℕ, zero, suc}
use Prim.Native.String.{String}

-- `negsuc n` is -(n + 1).
pub data ℤ : Type 0 where
  pos : ℕ → ℤ
  negsuc : ℕ → ℤ

-- n + 1
abbrev pub add_one : ℤ → ℤ
add_one (pos n) = pos (suc n)
add_one (negsuc zero) = pos 0
add_one (negsuc (suc n)) = negsuc n

mutual
  pub data Value : Type 0 where
    null : Value
    bool : Bool → Value
    int : ℤ → Value
    float : String → Value
    str : String → Value
    arr : Items → Value
    obj : Fields → Value

  pub data Fields : Type 0 where
    end : Fields
    field : String → Value → Fields → Fields

  pub data Items : Type 0 where
    nil : Items
    cons : Value → Items → Items

abbrev pub items : Items → List Value
items nil = []
items (cons v l) = v ∷ items l

-- In the order of the text; `json.loads` has already dropped repeated names.
abbrev pub members : Fields → List (String × Value)
members end = []
members (field k v l) = (k, v) ∷ members l

abbrev pub of_members : List (String × Value) → Fields
of_members [] = end
of_members ((k, v) ∷ l) = field k v (of_members l)

abbrev pub of_items : List Value → Items
of_items [] = nil
of_items (v ∷ l) = cons v (of_items l)

-- isinstance(v, str), isinstance(v, list), isinstance(v, dict)
abbrev pub as_str : Value → Option String
as_str (str s) = some s
as_str _ = none

abbrev pub as_list : Value → Option (List Value)
as_list (arr l) = some (items l)
as_list _ = none

abbrev pub as_dict : Value → Option (List (String × Value))
as_dict (obj l) = some (members l)
as_dict _ = none

-- isinstance(v, int) and not isinstance(v, bool)
abbrev pub as_int : Value → Option ℤ
as_int (int n) = some n
as_int _ = none
