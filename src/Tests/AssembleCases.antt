-- ===== src/Tests/AssembleCases.antt =====
-- Assembly's theorems at concrete inputs: a train of a dispatch that returned as a gate, of one
-- that is not observed, and of one that a second train claims too.
use star_car.Prelude.{
  ◌+◌, ◌≡◌, refl, true, String, none, some, List, [], ◌∷◌, ◌++◌, map, ltb, length, ok, All,
}
use star_car.Prelude.Int.{ℤ, pos}
use star_car.Json.{Json, Fields, text, null, obj, arr, cons, nil, field, end}
use star_car.Fold.Record.{contains}
use star_car.Fold.Entry.{DispatchEntry, Output}
use star_car.Store.Types.{StoreRecord}
use star_car.Assemble.Wire.{dispatch_wire_map}
use star_car.Assemble.Build.{assemble, namespace_collision}
use star_car.Assemble.Expected.{claims, manifests, faults, train_of, gates_of}
use star_car.Assemble.Surfaces.{
  Reencodes, wire_of, collision_of, trains-assemble, gates-assemble, dispatches-assemble,
  conditions-assemble,
}
use star_car.Assemble.Collisions.{in_both}
use star_car.Prelude.Strings.{IsAscending}
use star_car.Assemble.Keys.{IsShaped, dispatch_wire_map-IsShaped}
use star_car.Assemble.BoardDefs.{
  RawVocabularies, IsUsable, load_vocabularies, load_vocabularies-accounts,
}
use star_car.Time.Parse.{unix_epoch}
use star_car.Fold.Algorithm.{fold}
use star_car.Assemble.Chosen.{Chosen, find_raw_intent_record-Chosen}
use star_car.Tests.FoldRuns.{vocab, run_fold}
use star_car.Tests.Sample.{sample_platform, basic}

abbrev member : String → String → Json ℤ
member subject role = obj (field "subject" (text subject) (field "role" (text role) end))

abbrev manifest : String → Json ℤ → Json ℤ → StoreRecord
manifest id first second = record {
  path = id;
  fields =
      field "manifest"
        (obj (field "title" (text "T") (field "members" (arr (cons first (cons second nil))) end)))
        (basic id "intent" "1970-01-01T00:00:01Z");
}

abbrev records : List StoreRecord
records =
    manifest "train:x" (member "g" "gate") (member "c" "build")
    ∷ manifest "train:y" (member "c" "build") (member "d" "build")
    ∷ []

abbrev entry : String → String → DispatchEntry
entry subject kind = record {
  subject = subject;
  state = kind;
  at = "1970-01-01T00:00:05Z";
  superseded = [];
  winner_kind = kind;
  outcome = "APPROVE";
  spend = null;
  elapsed_seconds = pos 0;
  budget_seconds = none;
  budget_source = "";
}

abbrev out : Output
out = record {
  tier = "tier-1-only";
  generated_at = "1970-01-01T00:00:10Z";
  faults = [];
  discoveries = [];
  dispatches = entry "c" "dispatched" ∷ entry "g" "returned" ∷ [];
  intents =
      record { subject = "train:x"; at = "1970-01-01T00:00:01Z"; superseded = [] }
      ∷ record { subject = "train:y"; at = "1970-01-01T00:00:01Z"; superseded = [] }
      ∷ [];
}

reencodes : Reencodes
reencodes fs = refl

trains-assemble_example :
    (assemble records out).trains ≡ map (train_of out.dispatches) (manifests records out.intents)
trains-assemble_example = trains-assemble records out

gates-assemble_example :
    (assemble records out).gates ≡ gates_of out.dispatches (manifests records out.intents)
gates-assemble_example = gates-assemble records out

dispatches-assemble_example :
    (assemble records out).dispatches ≡ map (wire_of (manifests records out.intents)) out.dispatches
dispatches-assemble_example = dispatches-assemble records out reencodes

conditions-assemble_example :
    (collided : List String) × ((s : String)
      → contains collided s ≡ ltb 1 (length (claims (manifests records out.intents) s)))
    × IsAscending collided
    × ((assemble records out).conditions
        ≡ (map namespace_collision (in_both out) ++ faults records out.intents)
          ++ map (collision_of (manifests records out.intents)) collided)
conditions-assemble_example = conditions-assemble records out reencodes

abbrev wire : Fields ℤ
wire = field "subject" (text "g") (
    field "state" (text "returned") (
      field "at" (text "1970-01-01T00:00:05Z") (
        field "superseded" (arr nil) (
          field "outcome" (text "APPROVE")
            (field "spend" null (field "assigned" (Json.bool true) end))))))

wired : dispatch_wire_map (entry "g" "returned") true ≡ ok wire
unfolding dispatch_wire_map
wired = refl

dispatch_wire_map-IsShaped_example : IsShaped (entry "g" "returned") true wire
dispatch_wire_map-IsShaped_example =
    dispatch_wire_map-IsShaped (entry "g" "returned") true wire reencodes wired

abbrev row : String → Fields ℤ
row register =
    field "id" (text "a") (field "label" (text "A") (field "register" (text register) end))

abbrev raw : RawVocabularies
raw = record {
  positions = row "nominal" ∷ row "loud" ∷ [];
  outcomes = [];
  roles = row "in-progress" ∷ [];
  liveness = [];
}

load_vocabularies-accounts_example :
    let (v, conditions) = load_vocabularies "defs" (ok (ok raw)) in
    All IsUsable (v.positions ++ v.outcomes ++ v.roles ++ v.liveness)
    × (length (v.positions ++ v.outcomes ++ v.roles ++ v.liveness) + length conditions
        ≡ length (raw.positions ++ raw.outcomes ++ raw.roles ++ raw.liveness))
load_vocabularies-accounts_example = load_vocabularies-accounts "defs" raw

abbrev folded : Output
folded = record {
  tier = "tier-1-only";
  generated_at = "1970-01-01T00:00:10Z";
  faults = [];
  discoveries = [];
  dispatches = [];
  intents = out.intents;
}

folding :
    fold (map (λ (r : StoreRecord). r.fields) records) vocab (unix_epoch + 10_000_000_000) []
    ≡ some folded
unfolding run_fold
folding = refl

find_raw_intent_record-Chosen_example : All (Chosen records) folded.intents
find_raw_intent_record-Chosen_example =
    find_raw_intent_record-Chosen records vocab (unix_epoch + 10_000_000_000) [] folded folding
