-- ===== src/Json.antt =====
-- JSON values and how Go's encoding/json reads a struct from one, the parts that the sources use.
-- An object has each key at most once and in its exact spelling.
use trandingnok.Base.{Bool, false, Option, none, some, List, [], ◌∷◌, String, if◌then◌else◌}
use trandingnok.Float.{Float64, ◌⊖◌, nought}
use text.Mathlib.Text.{◌==◌ as str_eq}

mutual
  pub data Json (R : Type 0) : Type 0 where
    null : Json R
    bool : Bool → Json R
    num : R → Json R
    str : String → Json R
    arr : Items R → Json R
    obj : Fields R → Json R

  pub data Items (R : Type 0) : Type 0 where
    nil : Items R
    cons : Json R → Items R → Items R

  pub data Fields (R : Type 0) : Type 0 where
    end : Fields R
    field : String → Json R → Fields R → Fields R

module _ {R : Type 0} where
  -- The value of a key.
  abbrev pub get : String → Fields R → Option (Json R)
  get k end = none
  get k (field j v fs) = if str_eq j k then some v else get k fs

  -- The fields of a value that is read into a struct: null leaves the struct as it is, and a value
  -- of another kind is an error.
  abbrev pub fields_of : Json R → Option (Fields R)
  fields_of null = some end
  fields_of (obj fs) = some fs
  fields_of _ = none

  -- A field of a type: a missing key and null leave the zero value, another kind is an error.
  abbrev pub string_of : Option (Json R) → Option String
  string_of none = some ""
  string_of (some null) = some ""
  string_of (some (str s)) = some s
  string_of (some _) = none

  abbrev pub bool_of : Option (Json R) → Option Bool
  bool_of none = some false
  bool_of (some null) = some false
  bool_of (some (bool b)) = some b
  bool_of (some _) = none

  abbrev pub num_of : R → Option (Json R) → Option R
  num_of zero_value none = some zero_value
  num_of zero_value (some null) = some zero_value
  num_of zero_value (some (num x)) = some x
  num_of zero_value (some _) = none

  -- The elements of a slice, each read by `read`.
  abbrev pub items_of : {A : Type 0} → (Json R → Option A) → Items R → Option (List A)
  items_of read nil = some []
  items_of read (cons v vs) = elim (read v) [
    | none ↦ none
    | some x ↦ elim (items_of read vs) [ none ↦ none | some xs ↦ some (x ∷ xs) ]
  ]

  abbrev pub list_of : {A : Type 0} → (Json R → Option A) → Option (Json R) → Option (List A)
  list_of read none = some []
  list_of read (some null) = some []
  list_of read (some (arr vs)) = items_of read vs
  list_of read (some _) = none

  -- A slice that is written; none where an element cannot be written.
  abbrev pub items : {A : Type 0} → (A → Option (Json R)) → List A → Option (Items R)
  items write [] = some nil
  items write (x ∷ xs) = elim (write x) [
    | none ↦ none
    | some v ↦ elim (items write xs) [ none ↦ none | some vs ↦ some (cons v vs) ]
  ]

module _ {R : Type 0} ⦃f : Float64 R⦄ where
  -- The float64 values that have a JSON number: NaN and the infinities differ from themselves by
  -- NaN, which equals nothing.
  abbrev pub is_finite : R → Bool
  is_finite x = f.eq (x ⊖ x) nought

  -- encoding/json refuses a value that is not finite.
  unfoldable pub write_num : R → Option (Json R)
  write_num x = if is_finite x then some (num x) else none
