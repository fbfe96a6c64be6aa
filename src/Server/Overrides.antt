-- ===== src/Server/Overrides.antt =====
-- About `applyEnvOverrides` (config.go).
use Prim.Native.Char.{code}
use mathlib.Core.Option.{some-injective}
use star_car.Prelude.{
  ℕ, ◌+◌, ◌≤◌, ◌<◌, ◌≡◌, refl, subst, inl, inr, Bool-cases, Option-cases, Bool, true, false, String,
  Option, none, some, ◌==◌, leb, eqb, arith,
}
use star_car.Prelude.Int.{ℤ, pos, neg_ℕ, pos_part, neg_part}
use star_car.Server.Config.{
  Config, digits, int_bound, signed, atoi, parse_bool, override_text, override_int, override_bool,
  apply_env_overrides,
}

text-twice :
    (o : Option String) (s : String) → override_text o (override_text o s) ≡ override_text o s
text-twice none s = refl
text-twice (some v) s = elim (Bool-cases (v == "")) [ inl e ↦ rw e refl | inr e ↦ rw e refl ]

int-twice : (o : Option String) (n : ℤ) → override_int o (override_int o n) ≡ override_int o n
int-twice none n = refl
int-twice (some v) n = elim (Option-cases (atoi v)) [
  | inl e ↦ rw (e, override_int) (rw (e, override_int) refl)
  | inr (m, e) ↦ rw (e, override_int) refl
]

bool-twice :
    (o : Option String) (b : Bool) → override_bool o (override_bool o b) ≡ override_bool o b
bool-twice none b = refl
bool-twice (some v) b = elim (Option-cases (parse_bool v)) [
  | inl e ↦ rw (e, override_bool) (rw (e, override_bool) refl)
  | inr (m, e) ↦ rw (e, override_bool) refl
]

-- To apply the overrides of an environment a second time changes nothing.
pub apply_env_overrides-twice :
    (base : Config) (env : String → Option String)
    → apply_env_overrides (apply_env_overrides base env) env ≡ apply_env_overrides base env
unfolding apply_env_overrides
apply_env_overrides-twice base env = cc (
  text-twice (env "STARCAR_HOST") base.host,
  int-twice (env "STARCAR_PORT") base.port,
  int-twice (env "STARCAR_POLL_MS") base.poll_ms,
  int-twice (env "STARCAR_HEARTBEAT_MS") base.heartbeat_ms,
  int-twice (env "STARCAR_STALENESS_MS") base.staleness_ms,
  text-twice (env "STARCAR_STORE_PATH") base.store_path,
  bool-twice (env "STARCAR_DEMO_MODE") base.demo_mode,
)

-- An int of 64 bits.
abbrev pub IsInt : ℤ → Type 0
IsInt n = (pos_part n < int_bound) × (neg_part n ≤ int_bound)

signed-IsInt : (negative : Bool) (o : Option ℕ) (n : ℤ) → signed negative o ≡ some n → IsInt n
unfolding signed
signed-IsInt negative none n h = cc h
signed-IsInt true (some m) n h = elim (Bool-cases (leb m int_bound)) [
  | inl e ↦ subst IsInt (some-injective (neg_ℕ m) n (rw e at h)) (neg-IsInt m e)
  | inr e ↦ cc (rw e at h)
]
  where
    neg-IsInt : (m : ℕ) → leb m int_bound ≡ true → IsInt (neg_ℕ m)
    neg-IsInt m e = (ground arith, ground arith)
signed-IsInt false (some m) n h = elim (Bool-cases (leb (m + 1) int_bound)) [
  | inl e ↦ subst IsInt (some-injective (pos m) n (rw e at h)) (pos-IsInt m e)
  | inr e ↦ cc (rw e at h)
]
  where
    pos-IsInt : (m : ℕ) → leb (m + 1) int_bound ≡ true → IsInt (pos m)
    pos-IsInt m e = (ground arith, omega arith)

atoi-IsInt : (s : String) (n : ℤ) → atoi s ≡ some n → IsInt n
unfolding atoi
atoi-IsInt String.[] n h = cc h
atoi-IsInt (String.◌∷◌ c s) n h = elim (Bool-cases (eqb (code c) 45)) [
  | inl e ↦ signed-IsInt true (digits s) n (rw e at h)
  | inr e ↦ elim (Bool-cases (eqb (code c) 43)) [
    | inl f ↦ signed-IsInt false (digits s) n (rw (e, f) at h)
    | inr f ↦ signed-IsInt false (digits (String.◌∷◌ c s)) n (rw (e, f) at h)
  ]
]

override-IsInt : (o : Option String) (n : ℤ) → IsInt n → IsInt (override_int o n)
override-IsInt none n h = h
override-IsInt (some v) n h = elim (Option-cases (atoi v)) [
  | inl e ↦ rw (e, override_int) h
  | inr (m, e) ↦ rw (e, override_int) (atoi-IsInt v m e)
]

abbrev pub HasInts : Config → Type 0
HasInts c = IsInt c.port × IsInt c.poll_ms × IsInt c.heartbeat_ms × IsInt c.staleness_ms

-- If the port and the three intervals are ints of 64 bits, they are so after any overrides from
-- the environment.
pub apply_env_overrides-HasInts :
    (base : Config) (env : String → Option String)
    → HasInts base
    → HasInts (apply_env_overrides base env)
unfolding apply_env_overrides
apply_env_overrides-HasInts base env (a, b, c, d) = (
  override-IsInt (env "STARCAR_PORT") base.port a,
  override-IsInt (env "STARCAR_POLL_MS") base.poll_ms b,
  override-IsInt (env "STARCAR_HEARTBEAT_MS") base.heartbeat_ms c,
  override-IsInt (env "STARCAR_STALENESS_MS") base.staleness_ms d,
)
