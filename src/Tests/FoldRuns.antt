-- ===== src/Tests/FoldRuns.antt =====
-- Runs of the fold.
use star_car.Prelude.{◌+◌, ◌≡◌, refl, String, Option, none, some, List, [], ◌∷◌, map}
use star_car.Prelude.Int.{ℤ, pos}
use star_car.Time.Parse.{Time, unix_epoch, sub_time, parse_rfc3339}
use star_car.Json.{Fields, text, field}
use star_car.Fold.Record.{Vocab}
use star_car.Fold.Entry.{Output}
use star_car.Prelude.Sort.{sort_stable}
use star_car.Fold.Record.{str_or_empty, number}
use star_car.Fold.Winner.{
  dispatch_less, intent_less, precedence, render_dispatch, render_intent, dispatch_superseded,
  intent_superseded, fold_dispatch_subject, fold_intent_subject, budget_of, elapsed_of, spend_of,
  parse_instant,
}
use star_car.Fold.Algorithm.{FoldOptions, fold, with_default_budget_seconds}
use star_car.Tests.Sample.{sample_platform, basic}

abbrev pub vocab : Vocab
vocab = record { kinds = "dispatched" ∷ "returned" ∷ "intent" ∷ []; outcomes = "APPROVE" ∷ [] }

abbrev pub records : List (Fields ℤ)
records =
    basic "b" "dispatched" "1970-01-01T00:00:00Z"
    ∷ basic "a" "dispatched" "1970-01-01T00:00:00Z"
    ∷ field "outcome" (text "REJECT") (basic "a" "returned" "1970-01-01T00:00:05Z")
    ∷ basic "train:x" "intent" "1970-01-01T00:00:01Z"
    ∷ []

abbrev states : Option Output → List (String × String)
states none = []
states (some out) = map (λ e. (e.subject, e.state)) out.dispatches

abbrev discovered : Option Output → List String
discovered none = []
discovered (some out) = out.discoveries

-- Opens the fold down to the last helper, for runs.
unfoldable pub run_fold :
    List (Fields ℤ) → Vocab → Time → List (FoldOptions → FoldOptions) → Option Output
unfolding fold with_default_budget_seconds parse_rfc3339 dispatch_less intent_less precedence
    str_or_empty render_dispatch render_intent dispatch_superseded intent_superseded
    fold_dispatch_subject fold_intent_subject budget_of number elapsed_of spend_of sub_time
    parse_instant sort_stable
run_fold = fold

states_test :
    states (
      fold records vocab
        (unix_epoch + 10_000_000_000)
        (with_default_budget_seconds (pos 9_000_000_000) ∷ []))
    ≡ ("a", "returned") ∷ ("b", "overdue") ∷ []
unfolding run_fold
states_test = refl

discovered_test : discovered (fold records vocab unix_epoch []) ≡ "outcome: REJECT" ∷ []
unfolding run_fold
discovered_test = refl
