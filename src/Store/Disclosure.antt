-- ===== src/Store/Disclosure.antt =====
-- About the board conditions of `Scan` (store.go).
use mathlib.Core.List.{append-nil}
use star_car.Prelude.{
  ◌≡◌, refl, sym, subst, ap, ◌∙◌, Bool, true, not, ◌&&◌, inl, inr, String, Option, none, some, List,
  [], ◌∷◌, ◌++◌, map, ◌==◌, eq_iff, Bool-cases, option_list, All, length, select, select-append,
  is_empty, join, sprint, arith, if◌then◌else◌,
}
use star_car.Prelude.Strings.{sort_strings}
use star_car.Time.Parse.{Time}
use star_car.Json.{keys}
use star_car.Fold.Record.{contains}
use star_car.Platform.{Platform}
use star_car.Store.Types.{BoardCondition, StoreRecord, ScanResult, Adapter, Disk}
use star_car.Store.Decode.{typed_record, typed_keys, unknown_keys}
use star_car.Store.Reading.{Reading, survivor, quarantine, unknown_condition}
use star_car.Store.Scan.{empty_result, scan_paths, finish_scan}
use star_car.Store.Soundness.{Passed}
use star_car.Store.Readings.{
  survivors, quarantines, quarantine_condition, disclosures, readings, readings-Passed, extended,
  scan_paths-extended,
}

abbrev pub with_code : String → List BoardCondition → List BoardCondition
with_code code = select (λ c. c.code == code)

module _ ⦃p : Platform⦄ where
  abbrev unknown_conditions : List StoreRecord → List BoardCondition
  unknown_conditions [] = []
  unknown_conditions (rec ∷ recs) =
      option_list (unknown_condition rec.path (unknown_keys rec.fields)) ++ unknown_conditions recs

  -- The keys of a record that none of the known fields is named by.
  abbrev pub strange_keys : StoreRecord → List String
  strange_keys rec = select (λ k. not (contains (map (λ f. f.0) typed_record) k)) (keys rec.fields)

  -- What discloses the strange keys of a record.
  abbrev pub strange_condition : StoreRecord → BoardCondition
  strange_condition rec = record {
    code = "record-unrecognised-fields";
    detail = sprint (
        rec.path
        ∷ ": record carries "
        ∷ p.decimal (length (strange_keys rec))
        ∷ " unrecognised field(s): "
        ∷ join ", " (sort_strings (strange_keys rec))
        ∷ []);
    register = "needs-attention";
  }

  -- Exactly the records with strange keys are disclosed so, in record order.
  abbrev pub strange_conditions : List StoreRecord → List BoardCondition
  strange_conditions recs =
      map strange_condition (select (λ rec. not (is_empty (strange_keys rec))) recs)

  unknown-strange : (recs : List StoreRecord) → unknown_conditions recs ≡ strange_conditions recs
  unfolding unknown_condition unknown_keys typed_keys
  unknown-strange [] = refl
  unknown-strange (rec ∷ recs) = elim (Bool-cases (is_empty (strange_keys rec))) [
    | inl e ↦ rw e (unknown-strange recs)
    | inr e ↦ rw e (ap (◌∷◌ (strange_condition rec)) (unknown-strange recs))
  ]

  code-unknown :
      (rel : String) (unknown : List String) (cond : BoardCondition)
      → some cond ≡ unknown_condition rel unknown
      → cond.code ≡ "record-unrecognised-fields"
  unfolding unknown_condition
  code-unknown rel unknown cond h = ground arith

  unknown-at :
      {rel : String} {cond : Option BoardCondition} (rec : StoreRecord)
      → rec.path ≡ rel
      → cond ≡ unknown_condition rel (unknown_keys rec.fields)
      → unknown_condition rec.path (unknown_keys rec.fields) ≡ cond
  unknown-at rec e h = ap (λ x. unknown_condition x (unknown_keys rec.fields)) e ∙ sym h

  module _ (a : Adapter) (now : Time) where
    quarantine-disclosures :
        (rs : List (String × Reading))
        → All (λ x. Passed a now x.0 x.1) rs
        → with_code "record-quarantined" (disclosures rs)
          ≡ map quarantine_condition (quarantines rs)
    quarantine-disclosures [] h = refl
    quarantine-disclosures ((rel, survivor rec none) ∷ rs) h = quarantine-disclosures rs h.1
    quarantine-disclosures ((rel, survivor rec (some cond)) ∷ rs) h =
        rw (code-unknown rel (unknown_keys rec.fields) cond h.0.2) (quarantine-disclosures rs h.1)
    quarantine-disclosures ((rel, quarantine reason) ∷ rs) h =
        ap (◌∷◌ (quarantine_condition (record { path = rel; reason = reason })))
          (quarantine-disclosures rs h.1)

    unknown-disclosures :
        (rs : List (String × Reading))
        → All (λ x. Passed a now x.0 x.1) rs
        → with_code "record-unrecognised-fields" (disclosures rs)
          ≡ unknown_conditions (survivors rs)
    unknown-disclosures [] h = refl
    unknown-disclosures ((rel, survivor rec none) ∷ rs) h =
        rw (unknown-at rec h.0.1 h.0.2) (unknown-disclosures rs h.1)
    unknown-disclosures ((rel, survivor rec (some cond)) ∷ rs) h =
        let code : (cond.code == "record-unrecognised-fields") ≡ true =
          (eq_iff _ _).1 (code-unknown rel (unknown_keys rec.fields) cond h.0.2) in
        rw (unknown-at rec h.0.1 h.0.2) (rw code (ap (◌∷◌ cond) (unknown-disclosures rs h.1)))
    unknown-disclosures ((rel, quarantine reason) ∷ rs) h = unknown-disclosures rs h.1

    every-disclosures :
        (rs : List (String × Reading))
        → All (λ x. Passed a now x.0 x.1) rs
        → with_code "all-records-quarantined" (disclosures rs) ≡ []
    every-disclosures [] h = refl
    every-disclosures ((rel, survivor rec none) ∷ rs) h = every-disclosures rs h.1
    every-disclosures ((rel, survivor rec (some cond)) ∷ rs) h =
        rw (code-unknown rel (unknown_keys rec.fields) cond h.0.2) (every-disclosures rs h.1)
    every-disclosures ((rel, quarantine reason) ∷ rs) h = every-disclosures rs h.1

  -- There were files, and none survived.
  abbrev pub all_quarantined : List String → List StoreRecord → Bool
  all_quarantined paths records = not (is_empty paths) && is_empty records

  abbrev pub all_condition : List String → ScanResult → BoardCondition
  all_condition paths r = record {
    code = "all-records-quarantined";
    detail = sprint (
        p.decimal (length r.quarantined)
        ∷ " of "
        ∷ p.decimal (length paths)
        ∷ " records quarantined"
        ∷ []);
    register = "needs-attention";
  }

  -- The conditions under each of the three codes that a scan uses.
  pub record IsDisclosed (paths : List String) (r : ScanResult) : Type 0 where
    pub quarantined :
        with_code "record-quarantined" r.conditions ≡ map quarantine_condition r.quarantined
    pub unknown : with_code "record-unrecognised-fields" r.conditions ≡ strange_conditions r.records
    pub none_survived :
        with_code "all-records-quarantined" r.conditions
        ≡ (if all_quarantined paths r.records then all_condition paths r ∷ [] else [])

  IsDisclosed-finish :
      (paths : List String) (r : ScanResult)
      → with_code "record-quarantined" r.conditions ≡ map quarantine_condition r.quarantined
      → with_code "record-unrecognised-fields" r.conditions ≡ unknown_conditions r.records
      → with_code "all-records-quarantined" r.conditions ≡ []
      → IsDisclosed paths (finish_scan paths r)
  unfolding finish_scan
  IsDisclosed-finish paths r q u n =
      let last = all_condition paths r ∷ [] in
      let u' = u ∙ unknown-strange r.records in
      let split = λ (code : String). select-append (λ c. c.code == code) r.conditions last in
      elim (Bool-cases (all_quarantined paths r.records)) [
        | inl e ↦
            let f : finish_scan paths r ≡ record r { conditions = r.conditions ++ last } =
              rw e refl in
            subst (IsDisclosed paths) (sym f) (record {
              quarantined = split "record-quarantined" ∙ append-nil _ ∙ q;
              unknown = split "record-unrecognised-fields" ∙ append-nil _ ∙ u';
              none_survived = split "all-records-quarantined" ∙ rw (n, e) refl;
            })
        | inr e ↦
            let f : finish_scan paths r ≡ r = rw e refl in
            subst (IsDisclosed paths) (sym f)
              (record { quarantined = q; unknown = u'; none_survived = rw e n })
      ]

  module _ (a : Adapter) (disk : Disk) (root : String) (now : Time) where
    -- In the scan of any paths, each quarantined file is disclosed with its reason, each record
    -- that has keys which name no known field with those keys, in sorted order, and that no file
    -- survived if there were any; under these three codes nothing else is.
    pub scan_paths-IsDisclosed :
        (paths : List String) → IsDisclosed (sort_strings paths) (scan_paths a disk root now paths)
    scan_paths-IsDisclosed paths =
        let rs = readings a disk root now (sort_strings paths) in
        let passed = readings-Passed a disk root now (sort_strings paths) in
        rw scan_paths-extended (
          IsDisclosed-finish (sort_strings paths) (extended a disk root now empty_result rs)
            (quarantine-disclosures a now rs passed) (unknown-disclosures a now rs passed)
            (every-disclosures a now rs passed))
