-- ===== src/Json.antt =====
-- Decoded JSON, as `encoding/json` hands it to a target of type `any`: Go's `any` restricted to
-- nil, bool, float64, string, []any and map[string]any. `F` is the type of a float64.
use star_car.Prelude.{Bool, String, Option, none, some, List, [], ◌∷◌, ◌==◌, if◌then◌else◌}

mutual
  pub data Json (F : Type 0) : Type 0 where
    null : Json F
    bool : Bool → Json F
    num : F → Json F
    text : String → Json F
    arr : Items F → Json F
    obj : Fields F → Json F

  pub data Items (F : Type 0) : Type 0 where
    nil : Items F
    cons : Json F → Items F → Items F

  -- `map[string]any`, its entries in no order that the code may rely on.
  pub data Fields (F : Type 0) : Type 0 where
    end : Fields F
    field : String → Json F → Fields F → Fields F

module _ {F : Type 0} where
  -- `v, ok := r[key]`
  unfoldable pub lookup : Fields F → String → Option (Json F)
  lookup end key = none
  lookup (field k v rest) key = if k == key then some v else lookup rest key

  -- `for k := range r`
  unfoldable pub keys : Fields F → List String
  keys end = []
  keys (field k v rest) = k ∷ keys rest

  -- `v.(string)`, with its `ok`.
  abbrev pub as_text : Json F → Option String
  as_text (Json.text s) = some s
  as_text _ = none

  -- `v.(float64)`
  abbrev pub as_num : Json F → Option F
  as_num (Json.num x) = some x
  as_num _ = none

  -- `v.(map[string]any)`
  abbrev pub as_obj : Json F → Option (Fields F)
  as_obj (Json.obj fs) = some fs
  as_obj _ = none

  -- `v.([]any)`
  abbrev pub as_arr : Json F → Option (Items F)
  as_arr (Json.arr xs) = some xs
  as_arr _ = none

  -- A type assertion on an entry of the map; a missing key is a nil, which no assertion accepts.
  abbrev pub read : {A : Type 0} → (Json F → Option A) → Fields F → String → Option A
  read as_type r key = elim (lookup r key) [ none ↦ none | some v ↦ as_type v ]

  -- `s, _ := r[key].(string)`
  abbrev pub text_or_empty : Fields F → String → String
  text_or_empty r key = elim (read as_text r key) [ none ↦ "" | some s ↦ s ]
