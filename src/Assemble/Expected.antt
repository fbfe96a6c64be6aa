-- ===== src/Assemble/Expected.antt =====
-- What assemble.go is to give, without its state: maps and filters over the readable manifests.
use star_car.Prelude.{
  Bool, false, ◌&&◌, ◌||◌, String, Option, none, some, List, [], ◌∷◌, ◌++◌, ◌==◌, if◌then◌else◌,
}
use star_car.Platform.{Platform}
use star_car.Paths.{has_prefix}
use star_car.Fold.Entry.{DispatchEntry, IntentEntry}
use star_car.Store.Types.{BoardCondition, StoreRecord}
use star_car.Assemble.Types.{TrainCar, Train, Gate}
use star_car.Assemble.Manifest.{ManifestMember, find_raw_intent_record, manifest_payload}
use star_car.Assemble.Build.{not_found, unreadable}
use star_car.Assemble.Joining.{dispatch_by_subject, car_of}

-- A manifest that the fold chose and whose payload can be read.
pub record Manifest : Type 0 where
  pub id : String
  pub title : String
  pub members : List ManifestMember

-- Whether a member stands in a list.
abbrev pub lists : List ManifestMember → String → Bool
lists [] subject = false
lists (m ∷ ms) subject = m.subject == subject || lists ms subject

-- The claims of a subject: the manifests' ids, one for each time that a manifest lists it.
abbrev pub claims_in : String → List ManifestMember → String → List String
claims_in id [] subject = []
claims_in id (m ∷ ms) subject =
    let rest = claims_in id ms subject in if m.subject == subject then id ∷ rest else rest

abbrev pub claims : List Manifest → String → List String
claims [] subject = []
claims (m ∷ ms) subject = claims_in m.id m.members subject ++ claims ms subject

abbrev pub claimed : List Manifest → String → Bool
claimed [] subject = false
claimed (m ∷ ms) subject = lists m.members subject || claimed ms subject

module _ ⦃p : Platform⦄ where
  -- The manifest of an intent, where there is one.
  abbrev pub manifest_of : List StoreRecord → IntentEntry → Option Manifest
  manifest_of records intent = elim (find_raw_intent_record records intent.subject intent.at) [
    | none ↦ none
    | some r ↦ elim (manifest_payload r) [
      | none ↦ none
      | some payload ↦ some (record { id = intent.subject; title = payload.0; members = payload.1 })
    ]
  ]

  abbrev pub manifests : List StoreRecord → List IntentEntry → List Manifest
  manifests records [] = []
  manifests records (intent ∷ intents) =
      let rest = manifests records intents in
      if has_prefix intent.subject "train:"
      then elim (manifest_of records intent) [ none ↦ rest | some m ↦ m ∷ rest ]
      else rest

  -- The conditions that disclose the manifests that cannot be read.
  abbrev pub faults : List StoreRecord → List IntentEntry → List BoardCondition
  faults records [] = []
  faults records (intent ∷ intents) =
      let rest = faults records intents in
      if has_prefix intent.subject "train:"
      then elim (find_raw_intent_record records intent.subject intent.at) [
        | none ↦ not_found intent ∷ rest
        | some r ↦ elim (manifest_payload r) [
          | none ↦ unreadable intent ∷ rest
          | some payload ↦ rest
        ]
      ]
      else rest

  -- The cars of a train: the members that have a dispatch.
  abbrev pub cars_of : List DispatchEntry → List ManifestMember → List TrainCar
  cars_of dispatches [] = []
  cars_of dispatches (m ∷ ms) =
      let rest = cars_of dispatches ms in
      elim (dispatch_by_subject dispatches m.subject) [ none ↦ rest | some d ↦ car_of m d ∷ rest ]

  -- The subjects of the members that have none.
  abbrev pub declared_of : List DispatchEntry → List ManifestMember → List String
  declared_of dispatches [] = []
  declared_of dispatches (m ∷ ms) =
      let rest = declared_of dispatches ms in
      elim (dispatch_by_subject dispatches m.subject) [ none ↦ m.subject ∷ rest | some d ↦ rest ]

  abbrev pub train_of : List DispatchEntry → Manifest → Train
  train_of dispatches m = record {
    id = m.id;
    title = m.title;
    cars = cars_of dispatches m.members;
    declared_not_observed = declared_of dispatches m.members;
  }

  abbrev pub is_verdict : ManifestMember → DispatchEntry → Bool
  is_verdict m d = m.role == "gate" && d.state == "returned"

  -- The verdict of a gate, under its own name or else as "gate".
  abbrev pub verdict_of : ManifestMember → DispatchEntry → Gate
  verdict_of m d = record {
    name = if m.gate == "" then "gate" else m.gate;
    subject = m.subject;
    outcome = d.outcome;
    at = d.at;
  }

  -- The verdicts of the members that are gates and have returned.
  abbrev pub gates_in : List DispatchEntry → List ManifestMember → List Gate
  gates_in dispatches [] = []
  gates_in dispatches (m ∷ ms) =
      let rest = gates_in dispatches ms in
      elim (dispatch_by_subject dispatches m.subject) [
        | none ↦ rest
        | some d ↦ if is_verdict m d then verdict_of m d ∷ rest else rest
      ]

  abbrev pub gates_of : List DispatchEntry → List Manifest → List Gate
  gates_of dispatches [] = []
  gates_of dispatches (m ∷ ms) = gates_in dispatches m.members ++ gates_of dispatches ms
