-- ===== src/Core/Values.antt =====
-- The values of type `unknown`: evidence, metadata and guard parameters.
-- A double is `fin z` for z / 2^1074, of which every finite double is one, or one of the three
-- others; so comparisons of doubles are comparisons of integers.
use loop_engine.Prelude.{
  ℕ, suc, ◌-◌, ◌*◌, ◌≡◌, Bool, true, false, List, [], ◌∷◌, String, Option, none, some, get, put,
  get-put, Dict, arith, if◌then◌else◌, ◌==◌,
}
use loop_engine.Prelude.Int.{ℤ, pos, negsuc, leb_ℤ}
use Prim.Native.Nat.{◌^◌}

pub data Number : Type 0 where
  nan pos_inf neg_inf : Number
  fin : ℤ → Number

-- 2^1074, the number of units in 1.
one_in_units : ℕ
one_in_units = 2 ^ 1074

unfoldable pub number : ℕ → Number
unfolding one_in_units
number n = fin (pos (n * one_in_units))

unfoldable pub number_of_int : ℤ → Number
unfolding one_in_units
number_of_int (pos n) = fin (pos (n * one_in_units))
number_of_int (negsuc n) = fin (negsuc (suc n * one_in_units - 1))

-- `a >= b` on doubles.
unfoldable pub ge_number : Number → Number → Bool
ge_number nan b = false
ge_number pos_inf nan = false
ge_number pos_inf b = true
ge_number neg_inf neg_inf = true
ge_number neg_inf b = false
ge_number (fin a) nan = false
ge_number (fin a) pos_inf = false
ge_number (fin a) neg_inf = true
ge_number (fin a) (fin b) = leb_ℤ b a

mutual
  pub data Value : Type 0 where
    undefined null : Value
    boolean : Bool → Value
    num : Number → Value
    str : String → Value
    array : Items → Value
    object : Fields → Value

  pub data Items : Type 0 where
    nil : Items
    cons : Value → Items → Items

  pub data Fields : Type 0 where
    end : Fields
    field : String → Value → Fields → Fields

-- `Record<string, unknown>`.
abbrev pub Attributes : Type 0
Attributes = Dict Value

unfoldable pub items : Items → List Value
items nil = []
items (cons v vs) = v ∷ items vs

unfoldable pub fields : Fields → Attributes
fields end = []
fields (field k v fs) = (k, v) ∷ fields fs

unfoldable pub array_of : List Value → Items
array_of [] = nil
array_of (v ∷ vs) = cons v (array_of vs)

unfoldable pub object_of : Attributes → Fields
object_of [] = end
object_of ((k, v) ∷ fs) = field k v (object_of fs)

-- `record[key]`: a missing key reads as `undefined`.
unfoldable pub read : String → Attributes → Value
read k m = elim (get k m) [ none ↦ undefined | some v ↦ v ]

-- `record?.[key]`.
unfoldable pub read_opt : String → Option Attributes → Value
read_opt k none = undefined
read_opt k (some m) = read k m

-- `v === true`.
unfoldable pub is_true : Value → Bool
is_true (boolean b) = b
is_true _ = false

-- `a ?? b`.
unfoldable pub or_else : Value → Value → Value
or_else undefined b = b
or_else null b = b
or_else a b = a

pub read-put :
    (j k : String) (v : Value) (m : Attributes)
    → read j (put k v m) ≡ (if k == j then v else read j m)
unfolding read
read-put j k v m = ground (arith, get-put k j v m)
