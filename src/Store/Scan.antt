-- ===== src/Store/Scan.antt =====
-- store.go: `NewAdapter` and `Scan`.
use mathlib.Core.List.{foldl}
use star_car.Prelude.{
  Bool, true, false, not, ◌&&◌, String, none, some, List, [], ◌∷◌, ◌++◌, ◌==◌, Result, ok, err,
  or_fail, is_empty, length, sprint, if◌then◌else◌,
}
use star_car.Prelude.Strings.{sort_strings}
use star_car.Time.Parse.{Time}
use star_car.Platform.{Platform}
use star_car.Paths.{ext}
use star_car.Store.Types.{ScanResult, Schema, Adapter, Visit, failed, entry, Disk}
use star_car.Store.Reading.{Reading, survivor, quarantine, read_one}

module _ ⦃p : Platform⦄ where
  -- `compile` is that of the jsonschema package, of the file of a name in a directory.
  unfoldable pub new_adapter : (String → String → Result Schema) → String → Result Adapter
  new_adapter compile schema_dir =
      or_fail (compile schema_dir "starcar-artifact.schema.json")
        (λ e. sprint ("store: compiling starcar-artifact.schema.json: " ∷ e ∷ []))
        λ artifact.
          or_fail (compile schema_dir "starcar-manifest.schema.json")
            (λ e. sprint ("store: compiling starcar-manifest.schema.json: " ∷ e ∷ []))
            λ manifest. ok (record { artifact_schema = artifact; manifest_schema = manifest })

-- The callback of `filepath.WalkDir`, over the whole walk: the files named *.json, or the first
-- failure.
unfoldable pub collect : List Visit → Result (List String)
unfolding ext
collect [] = ok []
collect (failed e ∷ visits) = err e
collect (entry path name is_dir ∷ visits) =
    or_fail (collect visits) (λ e. e)
      λ paths. ok (if not is_dir && ext name == ".json" then path ∷ paths else paths)

module _ ⦃p : Platform⦄ where
  -- The path relative to the store's root, or else the file's bare name.
  unfoldable pub relative_path : Disk → String → String → String
  relative_path disk root path = elim (disk.rel root path) [ ok rel ↦ rel | err e ↦ disk.base path ]

  -- What one reading adds to the result.
  unfoldable pub add_reading : String → Reading → ScanResult → ScanResult
  add_reading rel (quarantine reason) result = record result {
    quarantined = result.quarantined ++ record { path = rel; reason = reason } ∷ [];
    conditions =
        result.conditions
        ++ record {
          code = "record-quarantined";
          detail = sprint (rel ∷ ": " ∷ reason ∷ []);
          register = "needs-attention";
        }
          ∷ [];
  }
  add_reading rel (survivor rec none) result = record result {
    records = result.records ++ rec ∷ [];
  }
  add_reading rel (survivor rec (some cond)) result = record result {
    records = result.records ++ rec ∷ [];
    conditions = result.conditions ++ cond ∷ [];
  }

  unfoldable pub scan_step : Adapter → Disk → String → Time → ScanResult → String → ScanResult
  unfolding relative_path read_one add_reading
  scan_step a disk root now result path =
      let rel = relative_path disk root path in
      add_reading rel (read_one a disk path rel now) result

  -- The disclosure that not one of the files survived.
  unfoldable pub finish_scan : List String → ScanResult → ScanResult
  finish_scan paths result =
      if not (is_empty paths) && is_empty result.records
      then record result {
        conditions =
            result.conditions
            ++ record {
              code = "all-records-quarantined";
              detail = sprint (
                  p.decimal (length result.quarantined)
                  ∷ " of "
                  ∷ p.decimal (length paths)
                  ∷ " records quarantined"
                  ∷ []);
              register = "needs-attention";
            }
              ∷ [];
      }
      else result

  abbrev pub empty_result : ScanResult
  empty_result = record { records = []; quarantined = []; conditions = [] }

  -- The scan of the files that the walk collected.
  unfoldable pub scan_paths : Adapter → Disk → String → Time → List String → ScanResult
  unfolding scan_step finish_scan sort_strings
  scan_paths a disk root now paths =
      finish_scan (sort_strings paths)
        (foldl (scan_step a disk root now) empty_result (sort_strings paths))

  -- What comes of the walk.
  unfoldable pub scan_collected :
      Adapter → Disk → String → Time → Result (List String) → Result ScanResult
  scan_collected a disk root now (err e) = err (sprint ("store: walking " ∷ root ∷ ": " ∷ e ∷ []))
  scan_collected a disk root now (ok paths) = ok (scan_paths a disk root now paths)

  -- What comes of `os.Stat` and `IsDir`.
  unfoldable pub scan_stat : Adapter → Disk → String → Time → Result Bool → Result ScanResult
  scan_stat a disk root now (err e) =
      err (sprint ("store: " ∷ root ∷ " is missing or unreadable: " ∷ e ∷ []))
  scan_stat a disk root now (ok false) =
      err (sprint ("store: " ∷ root ∷ " is not a directory" ∷ []))
  scan_stat a disk root now (ok true) = scan_collected a disk root now (collect (disk.walk root))

  unfoldable pub scan : Adapter → Disk → String → Time → Result ScanResult
  unfolding scan_stat scan_collected
  scan a disk root now = scan_stat a disk root now (disk.stat root)
