-- ===== src/Fold/Winner.antt =====
-- algorithm.go: the order among one subject's records, and the entry that the first of them gives.
use star_car.Prelude.{
  ℕ, Bool, String, Option, none, some, List, [], ◌∷◌, map, not, ltb, eqb, ◌==◌, if◌then◌else◌,
}
use star_car.Prelude.Int.{ℤ, pos}
use star_car.Prelude.Sort.{sort_stable}
use star_car.Time.Parse.{Time, unix_epoch, after, sub_time, parse_rfc3339}
use star_car.Json.{Json, null, text, lookup}
use star_car.Platform.{Platform}
use star_car.Fold.Record.{Record, str, str_or_empty, number}
use star_car.Fold.Entry.{DispatchSupersededItem, IntentSupersededItem, DispatchEntry, IntentEntry}

-- The package's map; a missing key reads 0.
unfoldable pub precedence : String → ℕ
precedence kind =
    if kind == "returned"
    then 3
    else if kind == "presumed-lost"
    then 2
    else if kind == "dispatched"
    then 1
    else 0

module _ ⦃p : Platform⦄ where
  -- An `at` that is missing, no text or unreadable degrades to the Unix epoch.
  unfoldable pub parse_instant : Record → Time
  unfolding str
  parse_instant r = elim (str r "at") [
    | none ↦ unix_epoch
    | some at ↦ elim (parse_rfc3339 at) [ none ↦ unix_epoch | some t ↦ t ]
  ]

  -- The `less` of a dispatch subject's sort.
  unfoldable pub dispatch_less : Record → Record → Bool
  dispatch_less a b =
      let ka = precedence (str_or_empty a "kind") in
      let kb = precedence (str_or_empty b "kind") in
      if not (eqb ka kb) then ltb kb ka else after (parse_instant a) (parse_instant b)

  -- The `less` of an intent subject's sort.
  unfoldable pub intent_less : Record → Record → Bool
  intent_less a b = after (parse_instant a) (parse_instant b)

  unfoldable pub dispatch_superseded : Record → DispatchSupersededItem
  dispatch_superseded r = record { kind = str_or_empty r "kind"; at = str_or_empty r "at" }

  unfoldable pub intent_superseded : Record → IntentSupersededItem
  intent_superseded r = record { at = str_or_empty r "at" }

  -- The record's cost, unless it is missing or null.
  unfoldable pub spend_of : Record → Json p.Float
  unfolding lookup
  spend_of winner = elim (lookup winner "cost") [
    | none ↦ text "absent"
    | some null ↦ text "absent"
    | some cost ↦ cost
  ]

  -- The budget that applies, and where it comes from.
  unfoldable pub budget_of : Record → Option p.Float → Option (p.Float × String)
  budget_of winner default_budget = elim (number winner "budget") [
    | some b ↦ some (b, "record")
    | none ↦ elim default_budget [ none ↦ none | some b ↦ some (b, "default") ]
  ]

  unfoldable pub elapsed_of : Record → Time → ℤ
  elapsed_of winner now = p.floor_int64 (p.seconds (sub_time now (parse_instant winner)))

  -- The entry before the switch on the winner's kind.
  unfoldable pub base_entry : String → Record → List Record → DispatchEntry
  base_entry subject winner others = record {
    subject = subject;
    state = str_or_empty winner "kind";
    at = str_or_empty winner "at";
    superseded = map dispatch_superseded others;
    winner_kind = str_or_empty winner "kind";
    outcome = "";
    spend = null;
    elapsed_seconds = pos 0;
    budget_seconds = none;
    budget_source = "";
  }

  -- The part of the "dispatched" case under `if budget != nil`.
  unfoldable pub apply_budget : Option (p.Float × String) → DispatchEntry → DispatchEntry
  apply_budget none entry = entry
  apply_budget (some (budget, source)) entry = record entry {
    budget_seconds = some budget;
    budget_source = source;
    state = if p.gtb (p.of_int64 entry.elapsed_seconds) budget then "overdue" else entry.state;
  }

  -- The entry of the winning record, with the records that lost to it.
  unfoldable pub render_dispatch :
      String → Record → List Record → Time → Option p.Float → DispatchEntry
  unfolding base_entry apply_budget
  render_dispatch subject winner others now default_budget =
      let entry = base_entry subject winner others in
      let kind = str_or_empty winner "kind" in
      if kind == "returned"
      then record entry { outcome = str_or_empty winner "outcome"; spend = spend_of winner }
      else if kind == "dispatched"
      then apply_budget (budget_of winner default_budget)
          (record entry { elapsed_seconds = elapsed_of winner now })
      else entry

  -- `none` is the panic of `ranked[0]` where there is no record.
  unfoldable pub fold_dispatch_subject :
      String → List Record → Time → Option p.Float → Option DispatchEntry
  fold_dispatch_subject subject records now default_budget =
      elim (sort_stable dispatch_less records) [
        | [] ↦ none
        | winner ∷ others ↦ some (render_dispatch subject winner others now default_budget)
      ]

  unfoldable pub render_intent : String → Record → List Record → IntentEntry
  render_intent subject winner others = record {
    subject = subject;
    at = str_or_empty winner "at";
    superseded = map intent_superseded others;
  }

  unfoldable pub fold_intent_subject : String → List Record → Option IntentEntry
  fold_intent_subject subject records = elim (sort_stable intent_less records) [
    | [] ↦ none
    | winner ∷ others ↦ some (render_intent subject winner others)
  ]
