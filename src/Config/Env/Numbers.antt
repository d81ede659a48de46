-- ===== src/Config/Env/Numbers.antt =====
-- Which variables are read as a number, against the plain value of a numeral.
use Prim.Native.Char.{code}
use Prim.Native.String.{[] as empty, ◌∷◌ as cons, ◌++◌}
use fire_ctrl.Prelude.{
  ℕ, ◌+◌, ◌-◌, ◌*◌, ◌≤◌, String, ◌≡◌, ◌↔◌, refl, false, ◌||◌, Option, none, some, ltb, arith, subst,
  sym, ap, ◌∙◌, Result, ok, ◌>>=◌, ok-injective, Bool-cases, inl, inr,
}
use fire_ctrl.Config.Env.{
  Env, parse_digits, after_sign, parse_uint, parsed, env_required_str, env_required_u16,
  env_required_u32, env_required_u64, env_required_usize,
}

abbrev pub IsDigits : String → Type 0
IsDigits empty = Unit
IsDigits (cons c s) = (b'0' ≤ code c) × (code c ≤ b'9') × IsDigits s

-- The value of the digits behind a number.
abbrev pub value_from : ℕ → String → ℕ
value_from n empty = n
value_from n (cons c s) = value_from (n * 10 + (code c - b'0')) s

value_from-le : (n : ℕ) (s : String) → n ≤ value_from n s
value_from-le n empty = omega arith
value_from-le n (cons c s) = omega (arith, value_from-le (n * 10 + (code c - b'0')) s)

parse_digits_sound :
    (largest : ℕ) (s : String) (n m : ℕ)
    → n ≤ largest
    → parse_digits largest s n ≡ some m
    → IsDigits s × (value_from n s ≡ m) × (m ≤ largest)
unfolding parse_digits
parse_digits_sound largest empty n m k h = (tt, ground arith, ground arith)
parse_digits_sound largest (cons c s) n m k h =
    elim (Bool-cases
      (ltb (code c) b'0' || ltb b'9' (code c) || ltb largest (n * 10 + (code c - b'0')))) [
        | inl e ↦ cc (rw (e, parse_digits) at h)
        | inr e ↦
            let r =
              parse_digits_sound largest s (n * 10 + (code c - b'0')) m (ground arith)
                (rw (e, parse_digits) at h) in
            ((ground arith, ground arith, r.0), r.1, r.2)
      ]

parse_digits_complete :
    (largest : ℕ) (s : String) (n : ℕ)
    → IsDigits s
    → value_from n s ≤ largest
    → parse_digits largest s n ≡ some (value_from n s)
unfolding parse_digits
parse_digits_complete largest empty n d k = refl
parse_digits_complete largest (cons c s) n d k =
    rw (fits (code c) n (value_from-le (n * 10 + (code c - b'0')) s) d.0 d.1 k, parse_digits)
      (parse_digits_complete largest s (n * 10 + (code c - b'0')) d.2 k)
  where
    fits :
        (c n : ℕ) {v : ℕ}
        → n * 10 + (c - b'0') ≤ v
        → b'0' ≤ c
        → c ≤ b'9'
        → v ≤ largest
        → (ltb c b'0' || ltb b'9' c || ltb largest (n * 10 + (c - b'0'))) ≡ false
    fits c n h a b k = ground arith

-- A text that is a numeral of a number, which the type of the largest value holds.
abbrev pub IsNumeral : ℕ → String → ℕ → Type 0
IsNumeral largest s n =
    (t : String) × (after_sign s ≡ some t) × IsDigits t × (value_from 0 t ≡ n) × (n ≤ largest)

pub parse_uint_iff :
    (largest : ℕ) (s : String) (n : ℕ) → (parse_uint largest s ≡ some n) ↔ IsNumeral largest s n
unfolding parse_uint
parse_uint_iff largest s n = (
  λ h. sound (after_sign s) h,
  λ h.
      rw (h.1, parse_uint)
        (parse_digits_complete largest h.0 0 h.2 (subst (λ m. m ≤ largest) (sym h.3) h.4)
          ∙ ap some h.3),
)
  where
    sound :
        (o : Option String)
        → (let r : Option ℕ = elim o [ none ↦ none | some t ↦ parse_digits largest t 0 ] in r)
          ≡ some n
        → (t : String) × (o ≡ some t) × IsDigits t × (value_from 0 t ≡ n) × (n ≤ largest)
    sound none h = cc
    sound (some t) h =
        let r = parse_digits_sound largest t 0 n (omega arith) h in (t, refl, r.0, r.1, r.2)

-- A variable that is set to a numeral of a number.
abbrev pub IsSetTo : Env → String → ℕ → ℕ → Type 0
IsSetTo env key largest n = (raw : String) × (env key ≡ some raw) × IsNumeral largest raw n

parsed_iff :
    (kind key raw : String) (largest n : ℕ)
    → (parsed kind key raw (parse_uint largest raw) ≡ ok n) ↔ IsNumeral largest raw n
parsed_iff kind key raw largest n = (
  λ h. (parse_uint_iff largest raw n).0 (read (parse_uint largest raw) h),
  λ h. rw ((parse_uint_iff largest raw n).1 h) refl,
)
  where
    read : (o : Option ℕ) → parsed kind key raw o ≡ ok n → o ≡ some n
    read none h = cc
    read (some v) h = ap some (ok-injective {E = String} _ _ h)

reader_iff :
    (env : Env) (key kind : String) (largest n : ℕ)
    → ((env_required_str env key >>= λ raw. parsed kind key raw (parse_uint largest raw)) ≡ ok n)
      ↔ IsSetTo env key largest n
unfolding env_required_str
reader_iff env key kind largest n = (
  λ h. set (env key) h,
  λ h. rw (h.1, env_required_str) ((parsed_iff kind key h.0 largest n).1 h.2),
)
  where
    set :
        (o : Option String)
        → ((elim o [ none ↦ Result.err ("Missing required env var: " ++ key) | some v ↦ ok v ])
            >>= λ raw. parsed kind key raw (parse_uint largest raw))
          ≡ ok n
        → (raw : String) × (o ≡ some raw) × IsNumeral largest raw n
    set none h = cc
    set (some raw) h = (raw, refl, (parsed_iff kind key raw largest n).0 h)

-- Each of the four readers of a number succeeds with it exactly when its variable is set to a text
-- that, after a plus sign that may stand before it, is a non-empty string of decimal digits whose
-- value is the number, and the reader's type holds that value. So an unset or empty variable is an
-- error, nothing wraps around, and leading zeros are allowed.
pub env_required_uint_iff :
    (env : Env) (key : String) (n : ℕ)
    → ((env_required_u16 env key ≡ ok n) ↔ IsSetTo env key 65535 n)
      × ((env_required_u32 env key ≡ ok n) ↔ IsSetTo env key 4294967295 n)
      × ((env_required_u64 env key ≡ ok n) ↔ IsSetTo env key 18446744073709551615 n)
      × ((env_required_usize env key ≡ ok n) ↔ IsSetTo env key 18446744073709551615 n)
unfolding env_required_u16 env_required_u32 env_required_u64 env_required_usize
env_required_uint_iff env key n = (
  reader_iff env key "u16" 65535 n,
  reader_iff env key "u32" 4294967295 n,
  reader_iff env key "u64" 18446744073709551615 n,
  reader_iff env key "usize" 18446744073709551615 n,
)
