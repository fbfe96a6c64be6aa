-- ===== src/Tests/FoldCases.antt =====
-- The fold's theorems at concrete inputs.
use mathlib.Core.List.{mem-cons_self, mem-cons_of_mem}
use star_car.Prelude.{◌+◌, ◌≡◌, refl, ◌&&◌, none, some, List, [], ◌∷◌, map, ◌==◌}
use star_car.Prelude.Int.{ℤ, pos}
use star_car.Prelude.Sort.{IsRanking}
use star_car.Prelude.Strings.{IsAscending}
use star_car.Time.Parse.{Time, unix_epoch, sub_time}
use star_car.Json.{Fields, text, num, field, null}
use star_car.Fold.Record.{Record, contains, str_or_empty}
use star_car.Fold.Entry.{Output, DispatchEntry}
use star_car.Fold.Winner.{
  render_dispatch, fold_dispatch_subject, fold_intent_subject, parse_instant,
}
use star_car.Fold.Algorithm.{fold, discoveries_of}
use star_car.Fold.Grouping.{dispatch_records, intent_records}
use star_car.Fold.Rounds.{find_dispatch, find_intent}
use star_car.Fold.Ranking.{wins_over, fold_dispatch_subject-IsRanking}
use star_car.Fold.Contract.{fold-total, find_dispatch-fold, find_intent-fold, fold-IsAscending}
use star_car.Fold.Budget.{exceeds, whole_seconds, applicable}
use star_car.Fold.Outcomes.{overdue-render, fold_dispatch_subject-returned}
use star_car.Fold.Discovery.{both_filled, any_reveals, contains-discoveries_of}
use star_car.Tests.Sample.{sample_platform, basic}
use star_car.Tests.FoldRuns.{vocab, records, run_fold}

abbrev now : Time
now = unix_epoch + 10_000_000_000

abbrev at_a : List (Fields ℤ)
at_a =
    basic "a" "dispatched" "1970-01-01T00:00:00Z"
    ∷ field "outcome" (text "REJECT") (basic "a" "returned" "1970-01-01T00:00:05Z")
    ∷ []

abbrev entry_a : DispatchEntry
entry_a = record {
  subject = "a";
  state = "returned";
  at = "1970-01-01T00:00:05Z";
  superseded = record { kind = "dispatched"; at = "1970-01-01T00:00:00Z" } ∷ [];
  winner_kind = "returned";
  outcome = "REJECT";
  spend = text "absent";
  elapsed_seconds = pos 0;
  budget_seconds = none;
  budget_source = "";
}

abbrev entry_b : DispatchEntry
entry_b = record {
  subject = "b";
  state = "dispatched";
  at = "1970-01-01T00:00:00Z";
  superseded = [];
  winner_kind = "dispatched";
  outcome = "";
  spend = null;
  elapsed_seconds = pos 10;
  budget_seconds = none;
  budget_source = "";
}

abbrev output : Output
output = record {
  tier = "tier-1-only";
  generated_at = "1970-01-01T00:00:10Z";
  faults = [];
  discoveries = "outcome: REJECT" ∷ [];
  dispatches = entry_a ∷ entry_b ∷ [];
  intents = record { subject = "train:x"; at = "1970-01-01T00:00:01Z"; superseded = [] } ∷ [];
}

ran : fold records vocab now [] ≡ some output
unfolding run_fold
ran = refl

ran_a : fold_dispatch_subject "a" at_a now none ≡ some entry_a
unfolding run_fold
ran_a = refl

fold-total_example : (out : Output) × (fold records vocab now [] ≡ some out)
fold-total_example = fold-total records vocab now []

find_dispatch-fold_example :
    find_dispatch "a" output.dispatches
    ≡ fold_dispatch_subject "a" (dispatch_records "a" records) now none
unfolding run_fold
find_dispatch-fold_example = find_dispatch-fold records vocab now [] output ran "a"

find_intent-fold_example :
    find_intent "train:x" output.intents
    ≡ fold_intent_subject "train:x" (intent_records "train:x" records)
find_intent-fold_example = find_intent-fold records vocab now [] output ran "train:x"

fold-IsAscending_example :
    IsAscending (map (λ e. e.subject) output.dispatches)
    × IsAscending (map (λ e. e.subject) output.intents)
fold-IsAscending_example = fold-IsAscending records vocab now [] output ran

fold_dispatch_subject-IsRanking_example :
    (winner : Record) × (others : List Record) × IsRanking wins_over at_a winner others
    × (fold_dispatch_subject "a" at_a now none ≡ some (render_dispatch "a" winner others now none))
fold_dispatch_subject-IsRanking_example =
    fold_dispatch_subject-IsRanking "a" (basic "a" "dispatched" "1970-01-01T00:00:00Z")
      (field "outcome" (text "REJECT") (basic "a" "returned" "1970-01-01T00:00:05Z") ∷ []) now none

fold_dispatch_subject-returned_example :
    (entry_a.state ≡ "returned") × (entry_a.winner_kind ≡ "returned")
unfolding run_fold
fold_dispatch_subject-returned_example =
    fold_dispatch_subject-returned "a" at_a now none
      (field "outcome" (text "REJECT") (basic "a" "returned" "1970-01-01T00:00:05Z")) entry_a
      (mem-cons_of_mem _ mem-cons_self) refl ran_a

abbrev patient : Fields ℤ
patient = field "budget" (num (pos 9_000_000_000)) (basic "c" "dispatched" "1970-01-01T00:00:00Z")

overdue-render_example : ((render_dispatch "c" patient [] now none).state == "overdue") ≡ (
    str_or_empty patient "kind" == "dispatched"
    && exceeds (whole_seconds (sub_time now (parse_instant patient))) (applicable patient none))
unfolding run_fold
overdue-render_example = overdue-render "c" patient [] now none refl

contains-discoveries_of_example :
    contains (discoveries_of vocab records) "outcome: REJECT"
    ≡ (both_filled vocab && any_reveals vocab records "outcome: REJECT")
contains-discoveries_of_example = contains-discoveries_of vocab records "outcome: REJECT"
