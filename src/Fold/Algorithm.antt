-- ===== src/Fold/Algorithm.antt =====
-- algorithm.go: `Fold`.
use mathlib.Core.List.{foldl}
use Prim.Native.String
use star_car.Prelude.{
  String, Option, none, some, List, [], ◌∷◌, ◌++◌, is_empty, ◌>>=◌, join, if◌then◌else◌,
}
use star_car.Prelude.Strings.{sort_strings}
use star_car.Time.Parse.{Time}
use star_car.Time.Format.{format_rfc3339}
use star_car.Platform.{Platform}
use star_car.Fold.Record.{Record, Vocab}
use star_car.Fold.Entry.{DispatchEntry, IntentEntry, Output}
use star_car.Fold.Winner.{fold_dispatch_subject, fold_intent_subject}
use star_car.Fold.Groups.{
  SubjectGroup, Groups, discover_record, find_group, group_records, subjects_of,
}

unfoldable pub empty_vocab_files : Vocab → List String
empty_vocab_files vocab =
    (if is_empty vocab.kinds then "kinds.json" ∷ [] else [])
    ++ (if is_empty vocab.outcomes then "outcomes.json" ∷ [] else [])

-- One fault that names every empty source.
unfoldable pub vocab_faults : Vocab → List String
unfolding join empty_vocab_files sort_strings
vocab_faults vocab =
    let files = empty_vocab_files vocab in
    if is_empty files
    then []
    else String.◌++◌ "vocabulary: valid but empty: " (join ", " (sort_strings files)) ∷ []

module _ ⦃p : Platform⦄ where
  pub record FoldOptions : Type 0 where
    pub default_budget_seconds : Option p.Float

  -- `WithDefaultBudgetSeconds`
  unfoldable pub with_default_budget_seconds : p.Float → FoldOptions → FoldOptions
  with_default_budget_seconds seconds o = record { default_budget_seconds = some seconds }

  unfoldable pub apply_options : List (FoldOptions → FoldOptions) → FoldOptions
  apply_options = foldl (λ o opt. opt o) (record { default_budget_seconds = none })

  -- Nothing is discovered against an empty vocabulary.
  unfoldable pub discoveries_of : Vocab → List Record → List String
  unfolding discover_record empty_vocab_files
  discoveries_of vocab records =
      if is_empty (empty_vocab_files vocab) then foldl (discover_record vocab) [] records else []

  -- The dispatch entry of a subject, if it has a dispatch record.
  unfoldable pub dispatches_at :
      String → SubjectGroup → Time → Option p.Float → Option (List DispatchEntry)
  unfolding fold_dispatch_subject
  dispatches_at subject g now budget =
      if is_empty g.dispatch
      then some []
      else (do entry ← fold_dispatch_subject subject g.dispatch now budget; some (entry ∷ []))

  unfoldable pub intents_at : String → SubjectGroup → Option (List IntentEntry)
  unfolding fold_intent_subject
  intents_at subject g =
      if is_empty g.intent
      then some []
      else (do entry ← fold_intent_subject subject g.intent; some (entry ∷ []))

  -- The loop over the sorted subjects. `none` is a panic, of a missing group too.
  unfoldable pub fold_subjects :
      Time → Option p.Float → Groups → List String → Option (List DispatchEntry × List IntentEntry)
  unfolding find_group dispatches_at intents_at
  fold_subjects now budget groups [] = some ([], [])
  fold_subjects now budget groups (subject ∷ subjects) = do
    g ← find_group groups subject
    ds ← dispatches_at subject g now budget
    is ← intents_at subject g
    (dispatches, intents) ← fold_subjects now budget groups subjects
    some (ds ++ dispatches, is ++ intents)

  -- `Fold`; `none` is a panic.
  unfoldable pub fold :
      List Record → Vocab → Time → List (FoldOptions → FoldOptions) → Option Output
  unfolding vocab_faults discoveries_of group_records subjects_of sort_strings fold_subjects
      format_rfc3339 apply_options
  fold records vocab now opts = do
    let o = apply_options opts
    let groups = group_records records
    let subjects = sort_strings (subjects_of groups)
    (dispatches, intents) ← fold_subjects now o.default_budget_seconds groups subjects
    some (record {
      tier = "tier-1-only";
      generated_at = format_rfc3339 now;
      faults = vocab_faults vocab;
      discoveries = discoveries_of vocab records;
      dispatches = dispatches;
      intents = intents;
    })
