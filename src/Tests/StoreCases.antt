-- ===== src/Tests/StoreCases.antt =====
-- A scan of four files, and the store's theorems at it.
use mathlib.Core.List.Perm
use star_car.Prelude.{
  ◌+◌, ◌≤◌, ◌≡◌, refl, true, false, String, none, some, List, [], ◌∷◌, ◌==◌, Result, ok, err, All,
  sprint, join, if◌then◌else◌,
}
use star_car.Prelude.Int.{ℤ}
use star_car.Prelude.Sort.{sort_stable}
use star_car.Prelude.Strings.{sort_strings}
use star_car.Time.Parse.{Time, unix_epoch, parse_rfc3339}
use star_car.Json.{lookup, Fields, text, field, text_or_empty}
use star_car.Fold.Winner.{parse_instant}
use star_car.Store.Types.{Adapter, Disk, ScanResult, failed, entry}
use star_car.Store.Scan.{scan, scan_paths, collect}
use star_car.Store.Decode.{unknown_keys}
use star_car.Store.Soundness.{IsSound}
use star_car.Store.Accounts.{scan-IsSound, scan_paths-perm, parse_instant-scan}
use star_car.Store.Failures.{IsClassified, scan-IsClassified}
use star_car.Store.Disclosure.{IsDisclosed, scan_paths-IsDisclosed}
use star_car.Tests.Sample.{sample_platform, basic}

abbrev pub now : Time
now = unix_epoch + 10_000_000_000

-- Both schemas accept all records but those of the subject "odd".
abbrev pub adapter : Adapter
adapter = record {
  artifact_schema = λ r. if text_or_empty r "subject" == "odd" then some "no" else none;
  manifest_schema = λ r. none;
}

abbrev pub sound : Fields ℤ
sound = field "colour" (text "red") (basic "a" "dispatched" "1970-01-01T00:00:00Z")

abbrev pub contents : String → Result (Result (Fields ℤ))
contents path =
    if path == "r/a.json"
    then ok (ok sound)
    else if path == "r/b.json"
    then ok (ok (basic "b" "dispatched" "1970-01-01T00:00:00"))
    else if path == "r/c.json"
    then ok (ok (basic "odd" "dispatched" "1970-01-01T00:00:00Z"))
    else err "gone"

abbrev pub disk : Disk
disk = record {
  stat = λ root. ok true;
  walk = λ root.
      entry "r" "r" true
      ∷ entry "r/c.json" "c.json" false
      ∷ entry "r/a.json" "a.json" false
      ∷ entry "r/b.json" "b.json" false
      ∷ entry "r/notes.md" "notes.md" false
      ∷ [];
  read_file = contents;
  rel = λ root path. ok path;
  base = λ path. path;
}

abbrev paths : List String
paths = "r/c.json" ∷ "r/a.json" ∷ "r/b.json" ∷ []

walked : collect (disk.walk "r") ≡ ok paths
unfolding collect
walked = refl

abbrev pub result : ScanResult
result = record {
  records = record { path = "r/a.json"; fields = sound } ∷ [];
  quarantined =
      record {
        path = "r/b.json";
        reason = "has an unparseable or zoneless 'at' value 1970-01-01T00:00:00: parsing time";
      }
      ∷ record { path = "r/c.json"; reason = "fails starcar-artifact/1 schema validation: no" }
      ∷ [];
  conditions =
      record {
        code = "record-unrecognised-fields";
        detail = "r/a.json: record carries n unrecognised field(s): colour";
        register = "needs-attention";
      }
      ∷ record {
        code = "record-quarantined";
        detail =
            "r/b.json: has an unparseable or zoneless 'at' value 1970-01-01T00:00:00: parsing time";
        register = "needs-attention";
      }
      ∷ record {
        code = "record-quarantined";
        detail = "r/c.json: fails starcar-artifact/1 schema validation: no";
        register = "needs-attention";
      }
      ∷ [];
}

pub scanned : scan adapter disk "r" now ≡ ok result
unfolding scan scan_paths collect parse_rfc3339 sprint join sort_stable lookup unknown_keys
scanned = refl

-- The walk of this disk breaks off behind its first file.
abbrev broken : Disk
broken = record disk {
  walk = λ root.
      entry "r/a.json" "a.json" false ∷ failed "denied" ∷ entry "r/b.json" "b.json" false ∷ [];
}

scan-IsClassified_example : IsClassified broken "r" (scan adapter broken "r" now)
scan-IsClassified_example = scan-IsClassified broken "r" adapter now

scan-IsSound_example : All (λ rec. IsSound adapter now rec.fields) result.records
scan-IsSound_example = scan-IsSound adapter disk "r" now result scanned

parse_instant-scan_example :
    All
      (λ rec.
        (t : Time) × (parse_rfc3339 (text_or_empty rec.fields "at") ≡ some t)
        × (parse_instant rec.fields ≡ t)
        × (t ≤ now))
      result.records
parse_instant-scan_example = parse_instant-scan adapter disk "r" now result scanned

scan_paths-perm_example :
    scan_paths adapter disk "r" now ("r/a.json" ∷ "r/b.json" ∷ [])
    ≡ scan_paths adapter disk "r" now ("r/b.json" ∷ "r/a.json" ∷ [])
scan_paths-perm_example =
    scan_paths-perm adapter disk "r" now ("r/a.json" ∷ "r/b.json" ∷ [])
      ("r/b.json" ∷ "r/a.json" ∷ []) (Perm.swap "r/b.json" "r/a.json" [])

scan_paths-IsDisclosed_example :
    IsDisclosed (sort_strings paths) (scan_paths adapter disk "r" now paths)
scan_paths-IsDisclosed_example = scan_paths-IsDisclosed adapter disk "r" now paths
