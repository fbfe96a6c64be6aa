-- ===== src/Server/Config.antt =====
-- config.go: the configuration and its overrides from the environment.
use Prim.Native.Char.{code}
use star_car.Prelude.{
  ℕ, ◌+◌, ◌-◌, ◌*◌, Bool, true, false, ◌&&◌, not, String, Option, none, some, [], ◌∷◌, ◌==◌, eqb,
  leb, if◌then◌else◌,
}
use star_car.Prelude.Int.{ℤ, pos, neg_ℕ}
use star_car.Fold.Record.{contains}

pub record Config : Type 0 where
  pub host : String
  pub port : ℤ
  pub poll_ms : ℤ
  pub heartbeat_ms : ℤ
  pub staleness_ms : ℤ
  pub store_path : String
  pub schema_dir : String
  pub board_defs_path : String
  pub web_dir : String
  pub defaults_path : String
  pub demo_mode : Bool

abbrev pub default_config : Config
default_config = record {
  host = "127.0.0.1";
  port = pos 4600;
  poll_ms = pos 1000;
  heartbeat_ms = pos 5000;
  staleness_ms = pos 15000;
  store_path = "";
  schema_dir = "";
  board_defs_path = "";
  web_dir = "";
  defaults_path = "";
  demo_mode = false;
}

-- The decimal digits of a text after those that are read already.
unfoldable pub digits_from : ℕ → String → Option ℕ
digits_from n String.[] = some n
digits_from n (String.◌∷◌ c s) =
    let rest = digits_from (n * 10 + (code c - 48)) s in
    if leb 48 (code c) && leb (code c) 57 then rest else none

unfoldable pub digits : String → Option ℕ
unfolding digits_from
digits s = if s == "" then none else digits_from 0 s

-- 2 ^ 63
abbrev pub int_bound : ℕ
int_bound = 9_223_372_036_854_775_808

-- The number of some digits behind a sign, if it is in range: 2 ^ 63 has no int, -2 ^ 63 has.
unfoldable pub signed : Bool → Option ℕ → Option ℤ
signed negative none = none
signed true (some n) = if leb n int_bound then some (neg_ℕ n) else none
signed false (some n) = if leb (n + 1) int_bound then some (pos n) else none

-- `strconv.Atoi`, its error as `none`: an optional sign, then digits, in the range of an int of
-- 64 bits.
unfoldable pub atoi : String → Option ℤ
unfolding signed digits
atoi String.[] = none
atoi (String.◌∷◌ c s) =
    if eqb (code c) 45
    then signed true (digits s)
    else if eqb (code c) 43
    then signed false (digits s)
    else signed false (digits (String.◌∷◌ c s))

-- `strconv.ParseBool`
unfoldable pub parse_bool : String → Option Bool
unfolding contains
parse_bool s =
    if contains ("1" ∷ "t" ∷ "T" ∷ "TRUE" ∷ "true" ∷ "True" ∷ []) s
    then some true
    else if contains ("0" ∷ "f" ∷ "F" ∷ "FALSE" ∷ "false" ∷ "False" ∷ []) s
    then some false
    else none

-- A text that is set and not empty, or else what is there.
abbrev pub override_text : Option String → String → String
override_text none old = old
override_text (some v) old = if not (v == "") then v else old

-- A number that is set and can be read, or else what is there.
abbrev pub override_int : Option String → ℤ → ℤ
override_int none old = old
override_int (some v) old = elim (atoi v) [ none ↦ old | some n ↦ n ]

abbrev pub override_bool : Option String → Bool → Bool
override_bool none old = old
override_bool (some v) old = elim (parse_bool v) [ none ↦ old | some b ↦ b ]

unfoldable pub apply_env_overrides : Config → (String → Option String) → Config
apply_env_overrides base env = record base {
  host = override_text (env "STARCAR_HOST") base.host;
  port = override_int (env "STARCAR_PORT") base.port;
  poll_ms = override_int (env "STARCAR_POLL_MS") base.poll_ms;
  heartbeat_ms = override_int (env "STARCAR_HEARTBEAT_MS") base.heartbeat_ms;
  staleness_ms = override_int (env "STARCAR_STALENESS_MS") base.staleness_ms;
  store_path = override_text (env "STARCAR_STORE_PATH") base.store_path;
  demo_mode = override_bool (env "STARCAR_DEMO_MODE") base.demo_mode;
}
