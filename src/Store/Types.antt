-- ===== src/Store/Types.antt =====
-- store.go: records, quarantine, board conditions, and what the adapter takes from outside.
use star_car.Prelude.{Bool, String, Option, List, Result}
use star_car.Json.{Fields}
use star_car.Platform.{Platform}

-- `Register` is one of "nominal", "in-progress" and "needs-attention".
pub record BoardCondition : Type 0 where
  pub code : String
  pub detail : String
  pub register : String

pub record QuarantinedRecord : Type 0 where
  pub path : String
  pub reason : String

module _ ⦃p : Platform⦄ where
  pub record StoreRecord : Type 0 where
    pub path : String
    pub fields : Fields p.Float

  pub record ScanResult : Type 0 where
    pub records : List StoreRecord
    pub quarantined : List QuarantinedRecord
    pub conditions : List BoardCondition

  -- A compiled schema of the jsonschema package: `none` accepts, `some` carries the error's text.
  abbrev pub Schema : Type 0
  Schema = Fields p.Float → Option String

  pub record Adapter : Type 0 where
    pub artifact_schema : Schema
    pub manifest_schema : Schema

-- What `filepath.WalkDir` hands to its callback, in turn.
pub data Visit : Type 0 where
  failed : String → Visit
  entry : String → String → Bool → Visit

module _ ⦃p : Platform⦄ where
  -- The file system at the time of a scan. A file that can be read is given by what
  -- `encoding/json` makes of it as a map.
  pub record Disk : Type 0 where
    -- `os.Stat`, and whether it is a directory
    pub stat : String → Result Bool
    pub walk : String → List Visit
    pub read_file : String → Result (Result (Fields p.Float))
    -- `filepath.Rel` and `filepath.Base`
    pub rel : String → String → Result String
    pub base : String → String
