-- ===== src/Store/Decode.antt =====
-- store.go: the known fields of a record, and the two decodes whose difference discloses others.
use star_car.Prelude.{
  Bool, true, false, not, String, Option, none, some, List, [], ◌∷◌, map, ◌==◌, select,
  if◌then◌else◌,
}
use star_car.Json.{Json, null, num, text, Fields, end, field, keys}
use star_car.Platform.{Platform}
use star_car.Fold.Record.{contains}

-- The Go types among the struct's fields: string, *float64 and json.RawMessage.
pub data FieldType : Type 0 where
  text_field number_field raw_field : FieldType

-- The tags of `typedRecord`, with their fields' types.
abbrev pub typed_record : List (String × FieldType)
typed_record =
    ("schema", text_field)
    ∷ ("kind", text_field)
    ∷ ("subject", text_field)
    ∷ ("session_id", text_field)
    ∷ ("at", text_field)
    ∷ ("outcome", text_field)
    ∷ ("findings", text_field)
    ∷ ("abstract", text_field)
    ∷ ("envelope", text_field)
    ∷ ("budget", number_field)
    ∷ ("basis", raw_field)
    ∷ ("cost", raw_field)
    ∷ ("context_peak_tokens", number_field)
    ∷ ("producer", text_field)
    ∷ ("model", text_field)
    ∷ ("body_file", text_field)
    ∷ ("normalisation", raw_field)
    ∷ ("integrity", text_field)
    ∷ ("manifest", raw_field)
    ∷ ("subject_basis", text_field)
    ∷ ("task_id", text_field)
    ∷ ("provenance", raw_field)
    ∷ []

-- `buildTypedKeys`: the tags that are not empty.
unfoldable pub typed_keys : List String
typed_keys = select (λ name. not (name == "")) (map (λ f. f.0) typed_record)

module _ ⦃p : Platform⦄ where
  -- The field that a key is decoded into: that of the same spelling, or else the first of the
  -- same folded name.
  unfoldable pub field_named :
      (String → String) → List (String × FieldType) → String → Option FieldType
  field_named name [] key = none
  field_named name ((tag, ty) ∷ fields) key =
      if name tag == name key then some ty else field_named name fields key

  unfoldable pub target : String → Option FieldType
  unfolding field_named
  target key = elim (field_named (λ s. s) typed_record key) [
    | some ty ↦ some ty
    | none ↦ field_named p.fold_name typed_record key
  ]

  -- A null leaves any field as it is; a raw field takes every value.
  unfoldable pub fits : FieldType → Json p.Float → Bool
  fits ty null = true
  fits raw_field v = true
  fits text_field (text s) = true
  fits text_field v = false
  fits number_field (num x) = true
  fits number_field v = false

  unfoldable pub field_error : Option FieldType → String → Json p.Float → Option String
  unfolding fits
  field_error none key v = none
  field_error (some ty) key v = if fits ty v then none else some (p.type_error key v)

  -- The error of `json.Unmarshal(data, &typed)`: that of the first value that does not fit.
  unfoldable pub typed_error : Fields p.Float → Option String
  unfolding target field_error
  typed_error end = none
  typed_error (field key v rest) = elim (field_error (target key) key v) [
    | some e ↦ some e
    | none ↦ typed_error rest
  ]

  -- The keys that no field of `typedRecord` is tagged with.
  unfoldable pub unknown_keys : Fields p.Float → List String
  unfolding keys contains typed_keys
  unknown_keys raw = select (λ k. not (contains typed_keys k)) (keys raw)
