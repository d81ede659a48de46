-- ===== src/Config/Env.antt =====
-- The readers of single variables in src/config.rs. `std::env::var` is a function of the key: no
-- text for a variable that is not set or holds no text.
pub mod Numbers
use Prim.Native.Char.{code}
use Prim.Native.String.{[] as empty, ◌∷◌ as cons, ◌++◌}
use fire_ctrl.Prelude.{
  ℕ, ◌+◌, ◌-◌, ◌*◌, String, Bool, true, false, not, ◌||◌, Option, none, some, ltb, ◌==◌, str_eq,
  Result, ok, err, ◌>>=◌, if◌then◌else◌,
}
use fire_ctrl.Prelude.Text.{is_empty}

abbrev pub Env : Type 0
Env = String → Option String

-- The digits of an unsigned number, with the checks of overflow against its type's largest value.
unfoldable pub parse_digits : ℕ → String → ℕ → Option ℕ
parse_digits largest empty n = some n
parse_digits largest (cons c s) n =
    let d = code c - b'0' in
    elim (ltb (code c) b'0' || ltb b'9' (code c) || ltb largest (n * 10 + d)) [
      | true ↦ none
      | false ↦ parse_digits largest s (n * 10 + d)
    ]

abbrev pub after_sign : String → Option String
after_sign empty = none
after_sign (cons c s) =
    if code c == b'+' then (if is_empty s then none else some s) else some (cons c s)

-- `str::parse` for an unsigned type.
unfoldable pub parse_uint : ℕ → String → Option ℕ
unfolding parse_digits
parse_uint largest s = elim (after_sign s) [ none ↦ none | some t ↦ parse_digits largest t 0 ]

abbrev pub u16_max : ℕ
u16_max = 65535

abbrev pub u32_max : ℕ
u32_max = 4294967295

abbrev pub u64_max : ℕ
u64_max = 18446744073709551615

unfoldable pub env_required_str : Env → String → Result String String
env_required_str env key = elim (env key) [
  | none ↦ err ("Missing required env var: " ++ key)
  | some v ↦ ok v
]

unfoldable pub env_opt : Env → String → Option String
env_opt env key = elim (env key) [ none ↦ none | some v ↦ if is_empty v then none else some v ]

abbrev pub parsed : {A : Type 0} → String → String → String → Option A → Result String A
parsed kind key raw none =
    err ("Invalid " ++ (kind ++ (" value for env var " ++ (key ++ (": " ++ raw)))))
parsed kind key raw (some v) = ok v

unfoldable pub env_required_u16 : Env → String → Result String ℕ
unfolding env_required_str parse_uint
env_required_u16 env key = do
  raw ← env_required_str env key
  parsed "u16" key raw (parse_uint u16_max raw)

unfoldable pub env_required_u32 : Env → String → Result String ℕ
unfolding env_required_str parse_uint
env_required_u32 env key = do
  raw ← env_required_str env key
  parsed "u32" key raw (parse_uint u32_max raw)

unfoldable pub env_required_u64 : Env → String → Result String ℕ
unfolding env_required_str parse_uint
env_required_u64 env key = do
  raw ← env_required_str env key
  parsed "u64" key raw (parse_uint u64_max raw)

-- On a machine with 64 bits.
unfoldable pub env_required_usize : Env → String → Result String ℕ
unfolding env_required_str parse_uint
env_required_usize env key = do
  raw ← env_required_str env key
  parsed "usize" key raw (parse_uint u64_max raw)

abbrev pub is_yes : String → Bool
is_yes v = str_eq v "true" || str_eq v "1" || str_eq v "yes"

abbrev pub is_no : String → Bool
is_no v = str_eq v "false" || str_eq v "0" || str_eq v "no"

unfoldable pub env_required_bool : Env → String → Result String Bool
env_required_bool env key = elim (env key) [
  | none ↦ err ("Missing required env var: " ++ key)
  | some v ↦
      if is_yes v
      then ok true
      else if is_no v
      then ok false
      else err (
          "Invalid bool value for env var "
          ++ (key ++ (": " ++ (v ++ " (expected true/false, 1/0, yes/no)"))))
]

-- `F` is `f64` and `parse` its `str::parse`.
unfoldable pub env_required_f64 :
    {F : Type 0} → (String → Option F) → Env → String → Result String F
unfolding env_required_str
env_required_f64 parse env key = do raw ← env_required_str env key; parsed "f64" key raw (parse raw)
