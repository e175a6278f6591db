-- ===== src/Domain/Value.antt =====
-- The JSON values that `attributes` and `requirements` hold (`dict[str, Any]`).
use Prim.Native.Nat.{◌^◌}
use writ_ai.Prelude.{
  ℕ, suc, ℤ, pos, eqℤ, String, Bool, true, false, not, ◌&&◌, List, [], ◌∷◌, Option, none, some,
  ◌==◌, eqb, if◌then◌else◌,
}

mutual
  -- A number is a whole number of units of 2^-1074, which covers the integers and finite doubles.
  pub data Value : Type 0 where
    null : Value
    boolean : Bool → Value
    number : ℤ → Value
    text : String → Value
    array : Items → Value
    object : Fields → Value

  pub data Items : Type 0 where
    nil : Items
    cons : Value → Items → Items

  pub data Fields : Type 0 where
    end : Fields
    field : String → Value → Fields → Fields

-- `d.get(key)` where `d` is such a dict, `none` if the key is missing.
unfoldable pub find : String → Fields → Option Value
find k end = none
find k (field j v r) = if j == k then some v else find k r

-- `d.get(key)` as Python returns it, with `None` for a missing key.
abbrev pub get : Fields → String → Value
get r k = elim (find k r) [ none ↦ null | some v ↦ v ]

-- `d[key] = value`
unfoldable pub set_field : String → Value → Fields → Fields
set_field k v end = field k v end
set_field k v (field j w r) = if j == k then field j v r else field j w (set_field k v r)

-- `d.update(e)`
unfoldable pub update : Fields → Fields → Fields
unfolding set_field
update r end = r
update r (field k v e) = update (set_field k v r) e

abbrev pub count_fields : Fields → ℕ
count_fields end = 0
count_fields (field k v r) = suc (count_fields r)

abbrev pub field_names : Fields → List String
field_names end = []
field_names (field k v r) = k ∷ field_names r

-- `True == 1` and `False == 0` in Python; this is 1 in units of 2^-1074.
unfoldable pub one : ℤ
one = pos (2 ^ 1074)

abbrev truth : Bool → ℤ
truth true = one
truth false = pos 0

eq_bool : Bool → Bool → Bool
eq_bool true b = b
eq_bool false b = not b

-- `u == v` between such values. Dictionaries are equal when they have as many keys and each key of
-- one has an equal value in the other.
unfoldable mutual
  unfolding eq_bool find

  pub eq_value : Value → Value → Bool
  eq_value null null = true
  eq_value (boolean b) (boolean c) = eq_bool b c
  eq_value (boolean b) (number n) = eqℤ (truth b) n
  eq_value (number n) (boolean c) = eqℤ n (truth c)
  eq_value (number m) (number n) = eqℤ m n
  eq_value (text s) (text t) = s == t
  eq_value (array xs) (array ys) = eq_items xs ys
  eq_value (object r) (object q) = eqb (count_fields r) (count_fields q) && within r q
  eq_value _ _ = false

  pub eq_items : Items → Items → Bool
  eq_items nil nil = true
  eq_items (cons v xs) (cons w ys) = eq_value v w && eq_items xs ys
  eq_items _ _ = false

  pub within : Fields → Fields → Bool
  within end q = true
  within (field k v r) q = elim (find k q) [ none ↦ false | some w ↦ eq_value v w ] && within r q

-- `r == q` between dictionaries.
abbrev pub eq_fields : Fields → Fields → Bool
eq_fields r q = eqb (count_fields r) (count_fields q) && within r q
