-- ===== src/Api/Gate.antt =====
-- `check_auth` of src/api.rs and `AuthConfig` of src/config.rs.
use fire_ctrl.Prelude.{
  String, ◌≡◌, refl, ◌↔◌, Bool-cases, ◌⊎◌, inl, inr, Bool, false, not, Option, none, some, arith,
  Result, ok, err, str_eq, str_eq_iff, if◌then◌else◌,
}
use fire_ctrl.Prelude.Text.{strip_prefix, trim}
use fire_ctrl.Models.{AppError}

pub record AuthConfig : Type 0 where
  pub use_db_authentication : Bool
  pub test_api_key : Option String
  pub bull_auth_key : String
  pub allow_local_webhooks : Bool

abbrev trimmed : Option String → Option String
trimmed none = none
trimmed (some s) = some (trim s)

-- The key in the value of the `Authorization` header; `none` also for a value that is no text.
pub bearer_key : Option String → Option String
unfolding strip_prefix trim
bearer_key none = none
bearer_key (some v) = trimmed (strip_prefix "Bearer " v)

abbrev check_key : Option String → AuthConfig → Result AppError Unit
check_key none cfg = err AppError.unauthorized
check_key (some k) cfg = if str_eq k cfg.bull_auth_key then ok tt else elim cfg.test_api_key [
  | none ↦ err AppError.unauthorized
  | some expected ↦ if str_eq k expected then ok tt else err AppError.unauthorized
]

unfoldable pub check_auth : Option String → AuthConfig → Result AppError Unit
check_auth authorization cfg =
    if not cfg.use_db_authentication then ok tt else check_key (bearer_key authorization) cfg

-- The keys that the configuration accepts.
abbrev pub IsAccepted : AuthConfig → String → Type 0
IsAccepted cfg k = (k ≡ cfg.bull_auth_key) ⊎ (cfg.test_api_key ≡ some k)

check_key_accepts :
    (k : String) (cfg : AuthConfig) → IsAccepted cfg k → check_key (some k) cfg ≡ ok tt
check_key_accepts k cfg (inl e) = rw ((str_eq_iff k cfg.bull_auth_key).1 e)
check_key_accepts k cfg (inr e) = ground (arith, str_eq_iff k k)

check_test_key_sound :
    (k : String) (o : Option String)
    → (let r : Result AppError Unit = elim o [
      | none ↦ err AppError.unauthorized
      | some expected ↦ if str_eq k expected then ok tt else err AppError.unauthorized
    ] in
        r)
      ≡ ok tt
    → o ≡ some k
check_test_key_sound k none h = cc
check_test_key_sound k (some e) h = ground (arith, str_eq_iff k e)

check_key_sound :
    (o : Option String) (cfg : AuthConfig)
    → check_key o cfg ≡ ok tt
    → (k : String) × (o ≡ some k) × IsAccepted cfg k
check_key_sound none cfg h = cc
check_key_sound (some k) cfg h = (
  k,
  refl,
  elim (Bool-cases (str_eq k cfg.bull_auth_key)) [
    | inl e ↦ inl ((str_eq_iff k cfg.bull_auth_key).0 e)
    | inr e ↦ inr (check_test_key_sound k cfg.test_api_key (rw e at h))
  ],
)

-- A request passes the gate exactly when authentication is off, or its header carries, after
-- `Bearer ` and trimmed, the queue admin key or the configured test key.
pub check_auth_iff :
    (authorization : Option String) (cfg : AuthConfig)
    → (check_auth authorization cfg ≡ ok tt) ↔ (
        (cfg.use_db_authentication ≡ false)
        ⊎ ((k : String) × (bearer_key authorization ≡ some k) × IsAccepted cfg k))
unfolding check_auth
check_auth_iff authorization cfg = (passes, accepts)
  where
    passes :
        check_auth authorization cfg ≡ ok tt
        → (cfg.use_db_authentication ≡ false)
          ⊎ ((k : String) × (bearer_key authorization ≡ some k) × IsAccepted cfg k)
    passes h = elim (Bool-cases cfg.use_db_authentication) [
      | inl e ↦ inr (check_key_sound (bearer_key authorization) cfg (simp e at h))
      | inr e ↦ inl e
    ]

    accepts :
        (cfg.use_db_authentication ≡ false)
          ⊎ ((k : String) × (bearer_key authorization ≡ some k) × IsAccepted cfg k)
        → check_auth authorization cfg ≡ ok tt
    accepts (inl e) = simp e
    accepts (inr (k, e, a)) = elim (Bool-cases cfg.use_db_authentication) [
      | inl on ↦ simp (on, e) (check_key_accepts k cfg a)
      | inr off ↦ simp off
    ]
