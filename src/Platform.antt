-- ===== src/Platform.antt =====
-- What the model takes from the Go runtime and does not define: float64, and the texts that the
-- formatting verbs %q, %v and %d and encoding/json's errors give.
use star_car.Prelude.{ℕ, Bool, String, Result}
use star_car.Prelude.Int.{ℤ}
use star_car.Json.{Json, Fields}

pub record Platform : Type 1 where
  -- float64
  pub Float : Type 0
  -- `d.Seconds()` of a duration in nanoseconds
  pub seconds : ℤ → Float
  -- `int64(math.Floor(x))`
  pub floor_int64 : Float → ℤ
  -- `float64(n)`
  pub of_int64 : ℤ → Float
  -- `x > y`
  pub gtb : Float → Float → Bool
  -- `fmt.Sprintf("%q", s)`
  pub quote : String → String
  -- `fmt.Sprintf("%v", row)`
  pub print_row : Fields Float → String
  -- `fmt.Sprintf("%d", n)`
  pub decimal : ℕ → String
  -- The name under which `encoding/json` looks a key up when no tag is spelled like it.
  pub fold_name : String → String
  -- The text of `encoding/json`'s error for a value that does not fit its field.
  pub type_error : String → Json Float → String
  -- The text of `time.Parse`'s error.
  pub parse_error : String → String
  -- `json.Marshal` of a map, and `json.Unmarshal` of what that gives into a map.
  pub reencode : Fields Float → Result (Fields Float)
