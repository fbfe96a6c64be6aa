-- ===== src/Assemble/Wire.antt =====
-- output.go: `DispatchEntry.MarshalJSON`; assemble.go: `dispatchWireMap`.
use star_car.Prelude.{
  Bool, String, none, some, List, [], ◌∷◌, ◌==◌, Result, ok, or_fail, if◌then◌else◌,
}
use star_car.Json.{Json, null, bool, num, text, arr, obj, Items, nil, cons, Fields, end, field}
use star_car.Platform.{Platform}
use star_car.Fold.Entry.{DispatchSupersededItem, DispatchEntry}

module _ ⦃p : Platform⦄ where
  unfoldable pub superseded_items : List DispatchSupersededItem → Items p.Float
  superseded_items [] = nil
  superseded_items (s ∷ ss) =
      cons (obj (field "kind" (text s.kind) (field "at" (text s.at) end))) (superseded_items ss)

  -- The source stands there only where the budget does.
  unfoldable pub budget_fields : DispatchEntry → Fields p.Float
  budget_fields d = elim d.budget_seconds [
    | none ↦ field "budget_seconds" null end
    | some b ↦ field "budget_seconds" (num b) (field "budget_source" (text d.budget_source) end)
  ]

  -- The switch on the winner's kind.
  unfoldable pub kind_fields : DispatchEntry → Fields p.Float
  unfolding budget_fields
  kind_fields d =
      if d.winner_kind == "returned"
      then field "outcome" (text d.outcome) (field "spend" d.spend end)
      else if d.winner_kind == "dispatched"
      then field "elapsed_seconds" (num (p.of_int64 d.elapsed_seconds)) (budget_fields d)
      else end

  -- The map that `MarshalJSON` encodes, its numbers as they are decoded again.
  unfoldable pub entry_fields : DispatchEntry → Fields p.Float
  unfolding superseded_items kind_fields
  entry_fields d = field "subject" (text d.subject) (
      field "state" (text d.state) (
        field "at" (text d.at)
          (field "superseded" (arr (superseded_items d.superseded)) (kind_fields d))))

  -- `m[key] = v`
  unfoldable pub put : String → Json p.Float → Fields p.Float → Fields p.Float
  put key v end = field key v end
  put key v (field k w rest) = if k == key then field k v rest else field k w (put key v rest)

  unfoldable pub dispatch_wire_map : DispatchEntry → Bool → Result (Fields p.Float)
  unfolding entry_fields put
  dispatch_wire_map d assigned =
      or_fail (p.reencode (entry_fields d)) (λ e. e) λ m. ok (put "assigned" (bool assigned) m)
