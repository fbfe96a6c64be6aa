-- ===== src/Store/Reading.antt =====
-- store.go: `readOne`, one file's way into the records or into quarantine.
use star_car.Prelude.{
  String, Option, none, some, List, [], ◌∷◌, Result, ok, err, is_empty, sprint, join, length,
  if◌then◌else◌,
}
use star_car.Prelude.Strings.{sort_strings}
use star_car.Time.Parse.{Time, after, parse_rfc3339}
use star_car.Time.Format.{format_rfc3339}
use star_car.Json.{Fields, text_or_empty}
use star_car.Platform.{Platform}
use star_car.Store.Types.{BoardCondition, StoreRecord, Adapter, Disk}
use star_car.Store.Decode.{typed_error, unknown_keys}

module _ ⦃p : Platform⦄ where
  -- A record with the disclosure of its unknown fields, or the reason of its quarantine. (The
  -- code tells the two apart by whether the reason is empty, and none of its reasons is.)
  pub data Reading : Type 0 where
    survivor : StoreRecord → Option BoardCondition → Reading
    quarantine : String → Reading

  unfoldable pub unknown_condition : String → List String → Option BoardCondition
  unfolding sort_strings
  unknown_condition rel unknown =
      if is_empty unknown
      then none
      else some (record {
        code = "record-unrecognised-fields";
        detail = sprint (
            rel
            ∷ ": record carries "
            ∷ p.decimal (length unknown)
            ∷ " unrecognised field(s): "
            ∷ join ", " (sort_strings unknown)
            ∷ []);
        register = "needs-attention";
      })

  -- The checks on `at`, and the record that passes them.
  unfoldable pub check_time : String → Fields p.Float → Time → Reading
  unfolding unknown_condition
  check_time rel fields now =
      let at = text_or_empty fields "at" in
      elim (parse_rfc3339 at) [
        | none ↦ quarantine (
            sprint (
              "has an unparseable or zoneless 'at' value "
              ∷ p.quote at
              ∷ ": "
              ∷ p.parse_error at
              ∷ []))
        | some instant ↦
            if after instant now
            then quarantine (
                sprint (
                  "has a future-dated 'at' value "
                  ∷ p.quote at
                  ∷ " (after this scan's now "
                  ∷ p.quote (format_rfc3339 now)
                  ∷ ")"
                  ∷ []))
            else survivor (record { path = rel; fields = fields })
                (unknown_condition rel (unknown_keys fields))
      ]

  -- Both schemas, the artifact's first.
  unfoldable pub check_schemas : Adapter → String → Fields p.Float → Time → Reading
  unfolding check_time
  check_schemas a rel fields now = elim (a.artifact_schema fields) [
    | some e ↦ quarantine (sprint ("fails starcar-artifact/1 schema validation: " ∷ e ∷ []))
    | none ↦ elim (a.manifest_schema fields) [
      | some e ↦ quarantine (sprint ("fails starcar-manifest/1 schema validation: " ∷ e ∷ []))
      | none ↦ check_time rel fields now
    ]
  ]

  -- The typed decode, once the raw decode has passed.
  unfoldable pub check_types : Adapter → String → Fields p.Float → Time → Reading
  unfolding typed_error check_schemas
  check_types a rel fields now = elim (typed_error fields) [
    | some e ↦ quarantine (sprint ("a known field could not be decoded: " ∷ e ∷ []))
    | none ↦ check_schemas a rel fields now
  ]

  -- What the read and the raw decode of a file give.
  unfoldable pub check_contents :
      Adapter → String → Time → Result (Result (Fields p.Float)) → Reading
  unfolding check_types
  check_contents a rel now (err e) = quarantine (sprint ("could not read the file: " ∷ e ∷ []))
  check_contents a rel now (ok (err e)) =
      quarantine (sprint ("could not parse the JSON: " ∷ e ∷ []))
  check_contents a rel now (ok (ok fields)) = check_types a rel fields now

  unfoldable pub read_one : Adapter → Disk → String → String → Time → Reading
  unfolding check_contents
  read_one a disk path rel now = check_contents a rel now (disk.read_file path)
