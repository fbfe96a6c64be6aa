-- ===== src/Store/Readings.antt =====
-- About the records and the counts that the readings of `Scan` (store.go) leave.
use mathlib.Core.List.{foldl, append_assoc, append-nil}
use star_car.Prelude.{
  suc, ◌+◌, ◌≡◌, refl, ap, ◌∙◌, String, none, some, List, [], ◌∷◌, ◌++◌, map, All, length, sprint,
  arith,
}
use star_car.Prelude.Strings.{sort_strings, length-sort_strings}
use star_car.Time.Parse.{Time}
use star_car.Platform.{Platform}
use star_car.Store.Types.{BoardCondition, QuarantinedRecord, StoreRecord, ScanResult, Adapter, Disk}
use star_car.Store.Reading.{Reading, survivor, quarantine, read_one}
use star_car.Store.Scan.{
  relative_path, add_reading, scan_step, finish_scan, empty_result, scan_paths,
}
use star_car.Store.Soundness.{IsSound, Passed, read_one-Passed}

module _ ⦃p : Platform⦄ where
  -- The survivors among readings, in order.
  abbrev pub survivors : List (String × Reading) → List StoreRecord
  survivors [] = []
  survivors ((rel, survivor rec cond) ∷ rs) = rec ∷ survivors rs
  survivors ((rel, quarantine reason) ∷ rs) = survivors rs

  abbrev pub quarantines : List (String × Reading) → List QuarantinedRecord
  quarantines [] = []
  quarantines ((rel, survivor rec cond) ∷ rs) = quarantines rs
  quarantines ((rel, quarantine reason) ∷ rs) =
      record { path = rel; reason = reason } ∷ quarantines rs

  abbrev pub quarantine_condition : QuarantinedRecord → BoardCondition
  quarantine_condition q = record {
    code = "record-quarantined";
    detail = sprint (q.path ∷ ": " ∷ q.reason ∷ []);
    register = "needs-attention";
  }

  -- What each reading discloses.
  abbrev pub disclosures : List (String × Reading) → List BoardCondition
  disclosures [] = []
  disclosures ((rel, survivor rec none) ∷ rs) = disclosures rs
  disclosures ((rel, survivor rec (some cond)) ∷ rs) = cond ∷ disclosures rs
  disclosures ((rel, quarantine reason) ∷ rs) =
      quarantine_condition (record { path = rel; reason = reason }) ∷ disclosures rs

  module _ (a : Adapter) (disk : Disk) (root : String) (now : Time) where
    -- Each path with its reading.
    abbrev pub readings : List String → List (String × Reading)
    readings =
        map (λ path. let rel = relative_path disk root path in (rel, read_one a disk path rel now))

    -- A scan result with more readings behind it.
    abbrev pub extended : ScanResult → List (String × Reading) → ScanResult
    extended r rs = record {
      records = r.records ++ survivors rs;
      quarantined = r.quarantined ++ quarantines rs;
      conditions = r.conditions ++ disclosures rs;
    }

    extended-add :
        (rel : String) (x : Reading) (r : ScanResult) (rs : List (String × Reading))
        → extended (add_reading rel x r) rs ≡ extended r ((rel, x) ∷ rs)
    unfolding add_reading
    extended-add rel (quarantine reason) r rs = ground (
      arith,
      append_assoc r.quarantined (record { path = rel; reason = reason } ∷ []) (quarantines rs),
      append_assoc r.conditions (quarantine_condition (record { path = rel; reason = reason }) ∷ [])
          (disclosures rs),
    )
    extended-add rel (survivor rec none) r rs =
        ground (arith, append_assoc r.records (rec ∷ []) (survivors rs))
    extended-add rel (survivor rec (some cond)) r rs = ground (
      arith,
      append_assoc r.records (rec ∷ []) (survivors rs),
      append_assoc r.conditions (cond ∷ []) (disclosures rs),
    )

    foldl-readings :
        (r : ScanResult) (paths : List String)
        → foldl (scan_step a disk root now) r paths ≡ extended r (readings paths)
    unfolding scan_step
    foldl-readings r [] =
        ground (arith, append-nil r.records, append-nil r.quarantined, append-nil r.conditions)
    foldl-readings r (path ∷ paths) =
        foldl-readings (scan_step a disk root now r path) paths
        ∙ extended-add _ _ r (readings paths)

    abbrev pub sorted_readings : List String → List (String × Reading)
    sorted_readings paths = readings (sort_strings paths)

    pub scan_paths-extended :
        (paths : List String)
        → scan_paths a disk root now paths
          ≡ finish_scan (sort_strings paths) (extended empty_result (sorted_readings paths))
    unfolding scan_paths
    scan_paths-extended paths =
        ap (finish_scan (sort_strings paths)) (foldl-readings empty_result (sort_strings paths))

    records-finish :
        (paths : List String) (r : ScanResult) → (finish_scan paths r).records ≡ r.records
    unfolding finish_scan
    records-finish paths r = ground arith

    quarantined-finish :
        (paths : List String) (r : ScanResult) → (finish_scan paths r).quarantined ≡ r.quarantined
    unfolding finish_scan
    quarantined-finish paths r = ground arith

    -- The records are the survivors among the readings of the sorted paths, and the quarantine is
    -- the rest, both in path order.
    pub scan_paths-readings :
        (paths : List String)
        → ((scan_paths a disk root now paths).records ≡ survivors (readings (sort_strings paths)))
          × ((scan_paths a disk root now paths).quarantined
              ≡ quarantines (readings (sort_strings paths)))
    scan_paths-readings paths = (
      rw scan_paths-extended (records-finish (sort_strings paths) _),
      rw scan_paths-extended (quarantined-finish (sort_strings paths) _),
    )

    survivors_and_quarantines :
        (rs : List (String × Reading)) → length (survivors rs) + length (quarantines rs) ≡ length rs
    survivors_and_quarantines [] = omega arith
    survivors_and_quarantines ((rel, survivor rec cond) ∷ rs) =
        omega (arith, survivors_and_quarantines rs)
    survivors_and_quarantines ((rel, quarantine reason) ∷ rs) =
        omega (arith, survivors_and_quarantines rs)

    length-readings : (paths : List String) → length (readings paths) ≡ length paths
    length-readings [] = refl
    length-readings (x ∷ xs) = ap suc (length-readings xs)

    -- Each file that the walk collected is in the records or in quarantine, and in one of them.
    pub scan_paths-accounts :
        (paths : List String)
        → length (scan_paths a disk root now paths).records
            + length (scan_paths a disk root now paths).quarantined
          ≡ length paths
    scan_paths-accounts paths =
        rw ((scan_paths-readings paths).0, (scan_paths-readings paths).1)
          (survivors_and_quarantines (readings (sort_strings paths))
            ∙ length-readings (sort_strings paths)
            ∙ length-sort_strings paths)

    pub readings-Passed : (paths : List String) → All (λ x. Passed a now x.0 x.1) (readings paths)
    readings-Passed [] = tt
    readings-Passed (path ∷ paths) =
        (read_one-Passed a now disk path (relative_path disk root path), readings-Passed paths)

    survivors-IsSound :
        (rs : List (String × Reading))
        → All (λ x. Passed a now x.0 x.1) rs
        → All (λ rec. IsSound a now rec.fields) (survivors rs)
    survivors-IsSound [] h = tt
    survivors-IsSound ((rel, survivor rec cond) ∷ rs) h = (h.0.0, survivors-IsSound rs h.1)
    survivors-IsSound ((rel, quarantine reason) ∷ rs) h = survivors-IsSound rs h.1

    pub scan_paths-IsSound :
        (paths : List String)
        → All (λ rec. IsSound a now rec.fields) (scan_paths a disk root now paths).records
    scan_paths-IsSound paths =
        rw ((scan_paths-readings paths).0)
          (survivors-IsSound _ (readings-Passed (sort_strings paths)))
