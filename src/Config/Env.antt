-- ===== src/Config/Env.antt =====
-- The readers of single variables in internal/config/config.go. A variable that is set to the empty
-- text is as one that is not set.
use currency_quotes_service.Prelude.{
  [], ◌∷◌, Option, none, some, Text, ℤ, pos, lebℤ, ltbℤ, if◌then◌else◌,
}

abbrev pub Environment : Type 0
Environment = Text → Option Text

-- `strconv.Atoi`, `time.ParseDuration` and `slog.Level.UnmarshalText`: `none` is an error.
pub record Parsers : Type 0 where
  pub atoi : Text → Option ℤ
  pub parse_duration : Text → Option ℤ
  pub parse_level : Text → Option ℤ

-- What the errors say: the variable, and the value where it is named.
pub data Fault : Type 0 where
  required malformed : Text → Fault
  not_a_positive_count : Text → ℤ → Fault
  not_a_positive_duration : Text → Text → Fault
  port_out_of_range write_timeout_too_short : ℤ → Fault
  stuck_timeout_too_short : ℤ → ℤ → Fault

pub data Loaded (A : Type 0) : Type 0 where
  loaded : A → Loaded A
  failed : Fault → Loaded A

infixl 5 ◌>>=◌ ◌>>◌
abbrev pub ◌>>=◌ : {A B : Type 0} → Loaded A → (A → Loaded B) → Loaded B
loaded a >>= f = f a
failed x >>= f = failed x

abbrev pub ◌>>◌ : {B : Type 0} → Loaded (Unit {0}) → Loaded B → Loaded B
m >> k = m >>= λ _. k

-- `raw, ok := os.LookupEnv(key); !ok || raw == ""`.
abbrev pub set_value : Option Text → Option Text
set_value none = none
set_value (some []) = none
set_value (some (c ∷ s)) = some (c ∷ s)

unfoldable pub required_from_env : Environment → Text → Loaded Text
required_from_env env key = elim (set_value (env key)) [
  | none ↦ failed (required key)
  | some raw ↦ loaded raw
]

unfoldable pub string_from_env : Environment → Text → Text → Text
string_from_env env key def = elim (set_value (env key)) [ none ↦ def | some raw ↦ raw ]

abbrev pub parsed : Text → Option ℤ → Loaded ℤ
parsed key none = failed (malformed key)
parsed key (some v) = loaded v

module _ (p : Parsers) (env : Environment) where
  unfoldable pub int_from_env : Text → ℤ → Loaded ℤ
  int_from_env key def = elim (set_value (env key)) [
    | none ↦ loaded def
    | some raw ↦ parsed key (p.atoi raw)
  ]

  unfoldable pub positive_int_from_env : Text → ℤ → Loaded ℤ
  unfolding int_from_env
  positive_int_from_env key def = do
    v ← int_from_env key def
    if ltbℤ v (pos 1) then failed (not_a_positive_count key v) else loaded v

  abbrev positive_duration : Text → Text → ℤ → Loaded ℤ
  positive_duration key raw v =
      if lebℤ v (pos 0) then failed (not_a_positive_duration key raw) else loaded v

  unfoldable pub duration_from_env : Text → ℤ → Loaded ℤ
  duration_from_env key def = elim (set_value (env key)) [
    | none ↦ loaded def
    | some raw ↦ parsed key (p.parse_duration raw) >>= positive_duration key raw
  ]

  unfoldable pub level_from_env : Text → ℤ → Loaded ℤ
  level_from_env key def = elim (set_value (env key)) [
    | none ↦ loaded def
    | some raw ↦ parsed key (p.parse_level raw)
  ]
