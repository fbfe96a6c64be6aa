-- ===== src/Assemble/Build.antt =====
-- assemble.go: `Assemble`, with Joining for the part that joins one manifest to the dispatches.
use mathlib.Core.List.{foldl}
use star_car.Prelude.{
  String, Option, none, some, List, [], ◌∷◌, ◌++◌, map, Result, ok, err, select, sprint, join,
  if◌then◌else◌,
}
use star_car.Prelude.Strings.{sort_strings}
use star_car.Json.{Fields}
use star_car.Platform.{Platform}
use star_car.Paths.{has_prefix}
use star_car.Fold.Record.{contains}
use star_car.Fold.Entry.{DispatchEntry, IntentEntry, Output}
use star_car.Store.Types.{BoardCondition, StoreRecord}
use star_car.Assemble.Types.{Assembled}
use star_car.Assemble.Wire.{dispatch_wire_map}
use star_car.Assemble.Manifest.{ManifestMember, find_raw_intent_record, manifest_payload}
use star_car.Assemble.Joining.{claims_of, collided_members, Progress, add_train}

abbrev pub needs_attention : String → String → BoardCondition
needs_attention code detail = record { code = code; detail = detail; register = "needs-attention" }

module _ ⦃p : Platform⦄ where
  unfoldable pub collided_subjects : Output → List String
  unfolding contains
  collided_subjects out = sort_strings (
      map (λ d. d.subject)
        (select (λ d. contains (map (λ it. it.subject) out.intents) d.subject) out.dispatches))

  abbrev pub namespace_collision : String → BoardCondition
  namespace_collision s = needs_attention "subject-namespace-collision" (
      sprint (
        "subject "
        ∷ p.quote s
        ∷ " appears in both fold.dispatches and fold.intents - the train: partition rule should make this impossible"
        ∷ []))

  unfoldable pub add_condition : BoardCondition → Progress → Progress
  add_condition c progress = record progress { conditions = progress.conditions ++ c ∷ [] }

  abbrev pub not_found : IntentEntry → BoardCondition
  not_found intent = needs_attention "manifest-record-not-found" (
      sprint (
        "the fold named "
        ∷ p.quote intent.subject
        ∷ " at "
        ∷ p.quote intent.at
        ∷ " as the winning manifest, but no matching raw record was found"
        ∷ []))

  abbrev pub unreadable : IntentEntry → BoardCondition
  unreadable intent =
      needs_attention "manifest-payload-unreadable"
        (sprint (p.quote intent.subject ∷ "'s manifest payload could not be read" ∷ []))

  -- What comes of the manifest's raw record and of its payload.
  unfoldable pub add_payload :
      List DispatchEntry → IntentEntry → Option (String × List ManifestMember) → Progress → Progress
  unfolding add_train add_condition
  add_payload dispatches intent none progress = add_condition (unreadable intent) progress
  add_payload dispatches intent (some (title, members)) progress =
      add_train dispatches intent.subject title members progress

  unfoldable pub add_raw :
      List DispatchEntry → IntentEntry → Option StoreRecord → Progress → Progress
  unfolding add_payload manifest_payload
  add_raw dispatches intent none progress = add_condition (not_found intent) progress
  add_raw dispatches intent (some r) progress =
      add_payload dispatches intent (manifest_payload r) progress

  -- One round of the loop over the intents; those that are no manifest are passed over.
  unfoldable pub add_intent :
      List StoreRecord → List DispatchEntry → Progress → IntentEntry → Progress
  unfolding add_raw find_raw_intent_record has_prefix
  add_intent records dispatches progress intent =
      if has_prefix intent.subject "train:"
      then add_raw dispatches intent (find_raw_intent_record records intent.subject intent.at)
          progress
      else progress

  unfoldable pub add_intents : List StoreRecord → Output → Progress → Progress
  unfolding add_intent
  add_intents records out progress = foldl (add_intent records out.dispatches) progress out.intents

  unfoldable pub membership_collision : List (String × List String) → String → BoardCondition
  unfolding claims_of sort_strings
  membership_collision claims s = needs_attention "manifest-membership-collision" (
      sprint (
        "dispatch "
        ∷ p.quote s
        ∷ " is claimed by more than one manifest: "
        ∷ join ", " (sort_strings (claims_of claims s))
        ∷ []))

  -- One round of the loop over the dispatches: the rendering, or a condition.
  unfoldable pub add_rendering : DispatchEntry → Result (Fields p.Float) → Assembled → Assembled
  add_rendering d (ok m) result = record result { dispatches = result.dispatches ++ m ∷ [] }
  add_rendering d (err e) result = record result {
    conditions =
        result.conditions
        ++ needs_attention "dispatch-render-failed" (
            sprint (
              "subject "
              ∷ p.quote d.subject
              ∷ " could not be rendered to the wire shape: "
              ∷ e
              ∷ []))
          ∷ [];
  }

  unfoldable pub add_dispatch : List String → Assembled → DispatchEntry → Assembled
  unfolding add_rendering dispatch_wire_map contains
  add_dispatch assigned result d =
      add_rendering d (dispatch_wire_map d (contains assigned d.subject)) result

  unfoldable pub start_progress : Output → Progress
  unfolding collided_subjects
  start_progress out = record {
    trains = [];
    gates = [];
    conditions = map namespace_collision (collided_subjects out);
    member_claims = [];
    assigned_subjects = [];
  }

  unfoldable pub assemble : List StoreRecord → Output → Assembled
  unfolding add_intents start_progress collided_members membership_collision add_dispatch
  assemble records out =
      let progress = add_intents records out (start_progress out) in
      foldl (add_dispatch progress.assigned_subjects)
        (record {
          trains = progress.trains;
          gates = progress.gates;
          dispatches = [];
          conditions =
              progress.conditions
              ++ map (membership_collision progress.member_claims)
                  (collided_members progress.member_claims);
        })
        out.dispatches
