-- ===== src/Assemble/Manifest.antt =====
-- assemble.go: `findRawIntentRecord` and `manifestPayload`.
use star_car.Prelude.{◌&&◌, String, Option, none, some, List, [], ◌∷◌, ◌==◌, if◌then◌else◌}
use star_car.Json.{Items, nil, cons, read, as_obj, as_arr, text_or_empty}
use star_car.Platform.{Platform}
use star_car.Store.Types.{StoreRecord}

pub record ManifestMember : Type 0 where
  pub subject : String
  pub role : String
  pub gate : String

module _ ⦃p : Platform⦄ where
  -- The first record of the subject, of the kind "intent", and of the very `at`.
  unfoldable pub find_raw_intent_record : List StoreRecord → String → String → Option StoreRecord
  find_raw_intent_record [] subject at = none
  find_raw_intent_record (r ∷ records) subject at =
      if text_or_empty r.fields "subject" == subject
        && (text_or_empty r.fields "kind" == "intent")
        && (text_or_empty r.fields "at" == at)
      then some r
      else find_raw_intent_record records subject at

  -- The members that are objects with a subject.
  unfoldable pub manifest_members : Items p.Float → List ManifestMember
  manifest_members nil = []
  manifest_members (cons v items) =
      let rest = manifest_members items in
      elim (as_obj v) [
        | none ↦ rest
        | some mm ↦
            if text_or_empty mm "subject" == ""
            then rest
            else record {
              subject = text_or_empty mm "subject";
              role = text_or_empty mm "role";
              gate = text_or_empty mm "gate";
            }
              ∷ rest
      ]

  -- The title and the members; `none` where the manifest is no object.
  unfoldable pub manifest_payload : StoreRecord → Option (String × List ManifestMember)
  unfolding manifest_members
  manifest_payload r = elim (read as_obj r.fields "manifest") [
    | none ↦ none
    | some raw ↦ some (
      text_or_empty raw "title",
      elim (read as_arr raw "members") [ none ↦ [] | some items ↦ manifest_members items ],
    )
  ]
