-- ===== src/Server/Rows.antt =====
-- About the lanes of a snapshot (poll.go, output.go): the rows of the lane of dispatches, and which
-- one shows a subject.
use mathlib.Core.Option
use mathlib.Core.Option.{some-injective}
use star_car.Prelude.Strings.{IsAscending}
use star_car.Time.Parse.{Time}
use star_car.Fold.Record.{Vocab}
use star_car.Fold.Algorithm.{fold}
use star_car.Fold.Winner.{fold_dispatch_subject}
use star_car.Fold.Grouping.{dispatch_records}
use star_car.Fold.Contract.{find_dispatch-fold, fold-IsAscending}
use star_car.Assemble.Build.{assemble}
use star_car.Assemble.Expected.{train_of, gates_of}
use star_car.Assemble.Surfaces.{Reencodes, dispatches-assemble, gates-assemble, trains-assemble}
use star_car.Server.Snapshot.{dispatches_data, gates_data, trains_data}
use star_car.Prelude.{
  sym, ◌∙◌, subst, ◌≡◌, refl, ap, ap₂, inl, inr, Bool-cases, Bool, String, Option, none, some, List,
  [], ◌∷◌, map, ◌==◌, eq_iff, if◌then◌else◌,
}
use star_car.Json.{Fields, bool, text_or_empty, lookup}
use star_car.Platform.{Platform}
use star_car.Fold.Record.{Record}
use star_car.Fold.Entry.{DispatchEntry, Output}
use star_car.Fold.Algorithm.{apply_options, with_default_budget_seconds}
use star_car.Fold.Rounds.{find_dispatch}
use star_car.Store.Types.{StoreRecord, ScanResult}
use star_car.Assemble.Wire.{entry_fields, put}
use star_car.Assemble.Expected.{Manifest, claimed, manifests}
use star_car.Assemble.Surfaces.{wire_of}
use star_car.Server.Snapshot.{Lane, LaneData}
use star_car.Server.Build.{budget_options}

module _ ⦃p : Platform⦄ where
  -- The payload of the first lane with an id.
  abbrev pub payload_of : String → List Lane → Option LaneData
  payload_of id [] = none
  payload_of id (l ∷ ls) = let rest = payload_of id ls in if l.id == id then l.payload else rest

  -- The first row that shows a subject.
  abbrev pub find_row : String → List (Fields p.Float) → Option (Fields p.Float)
  find_row t [] = none
  find_row t (row ∷ rows) =
      let rest = find_row t rows in if text_or_empty row "subject" == t then some row else rest

  abbrev pub record_fields : List StoreRecord → List Record
  record_fields = map (λ (r : StoreRecord). r.fields)

  -- A dispatch as it is rendered.
  abbrev pub row_of : Bool → DispatchEntry → Fields p.Float
  row_of assigned d = put "assigned" (bool assigned) (entry_fields d)

  subject-row_of :
      (assigned : Bool) (d : DispatchEntry)
      → text_or_empty (row_of assigned d) "subject" ≡ d.subject
  unfolding put entry_fields lookup
  subject-row_of assigned d = refl

  pub find_row-map :
      (ms : List Manifest) (t : String) (ds : List DispatchEntry)
      → find_row t (map (wire_of ms) ds) ≡ Option.map (row_of (claimed ms t)) (find_dispatch t ds)
  find_row-map ms t [] = refl
  find_row-map ms t (d ∷ ds) = elim (Bool-cases (d.subject == t)) [
    | inl e ↦
        rw (subject-row_of, e) (ap (λ s. some (row_of (claimed ms s) d)) ((eq_iff d.subject t).0 e))
    | inr e ↦ rw (subject-row_of, e) (find_row-map ms t ds)
  ]

  pub subjects-map :
      (ms : List Manifest) (ds : List DispatchEntry)
      → map (λ row. text_or_empty row "subject") (map (wire_of ms) ds)
        ≡ map (λ (d : DispatchEntry). d.subject) ds
  subjects-map ms [] = refl
  subjects-map ms (d ∷ ds) = ap₂ (λ y ys. y ∷ ys) (subject-row_of _ d) (subjects-map ms ds)

  -- The manifests that can be read of the scanned ones, and the rows of the lane of dispatches.
  abbrev pub manifests_of : ScanResult → Output → List Manifest
  manifests_of result out = manifests result.records out.intents

  abbrev pub rows_of : ScanResult → Output → List (Fields p.Float)
  rows_of result out = map (wire_of (manifests_of result out)) out.dispatches

  budget-budget_options :
      (b : Option p.Float) → (apply_options (budget_options b)).default_budget_seconds ≡ b
  unfolding budget_options apply_options with_default_budget_seconds
  budget-budget_options none = refl
  budget-budget_options (some x) = refl

  -- What the payloads of the three live lanes are to show of a good scan: what assembly makes of
  -- the fold of its records. `row_at` says of the dispatches that each subject's row is the
  -- rendering of the entry of exactly its records.
  pub record Renders (vocab : Vocab) (budget : Option p.Float) (result : ScanResult) (now : Time)
      (out : Output) (payload : String → Option LaneData) : Type 0 where
    pub ran : fold (record_fields result.records) vocab now (budget_options budget) ≡ some out
    pub dispatches : payload "dispatches" ≡ some (dispatches_data (rows_of result out))
    pub gates :
        payload "gates" ≡ some (gates_data (gates_of out.dispatches (manifests_of result out)))
    pub trains :
        payload "trains"
        ≡ some (trains_data (map (train_of out.dispatches) (manifests_of result out)))
    pub row_at :
        (t : String)
        → find_row t (rows_of result out)
          ≡ Option.map (row_of (claimed (manifests_of result out) t)) (
              fold_dispatch_subject t
                (dispatch_records t (record_fields result.records))
                now
                budget)
    pub ascending : IsAscending (map (λ row. text_or_empty row "subject") (rows_of result out))

  pub assemble-Renders :
      (vocab : Vocab) (budget : Option p.Float) (result : ScanResult) (now : Time) (out : Output)
      (payload : String → Option LaneData)
      → Reencodes
      → fold (record_fields result.records) vocab now (budget_options budget) ≡ some out
      → let a = assemble result.records out in
        payload "dispatches" ≡ some (dispatches_data a.dispatches)
        → payload "gates" ≡ some (gates_data a.gates)
        → payload "trains" ≡ some (trains_data a.trains)
        → Renders vocab budget result now out payload
  assemble-Renders vocab budget result now out payload h ran d g t =
      let records = record_fields result.records in
      let opts = budget_options budget in
      record {
        ran = ran;
        dispatches =
            d ∙ ap (λ l. some (dispatches_data l)) (dispatches-assemble result.records out h);
        gates = g ∙ ap (λ l. some (gates_data l)) (gates-assemble result.records out);
        trains = t ∙ ap (λ l. some (trains_data l)) (trains-assemble result.records out);
        row_at = λ s.
            find_row-map (manifests_of result out) s out.dispatches
            ∙ ap (Option.map (row_of (claimed (manifests_of result out) s))) (
                find_dispatch-fold records vocab now opts out ran s
                ∙ ap (fold_dispatch_subject s (dispatch_records s records) now)
                    (budget-budget_options budget));
        ascending =
            subst IsAscending (sym (subjects-map (manifests_of result out) out.dispatches))
              (fold-IsAscending records vocab now opts out ran).0;
      }
