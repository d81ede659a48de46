-- ===== src/Api/Snapshot.antt =====
-- `ResourceSnapshot` of src/api.rs: two readings packed in one 64-bit word, and the gate that reads
-- them. A fraction is given and read in thousandths, the number that `(frac * 1_000.0) as u64` is.
use fire_ctrl.Prelude.{
  ℕ, ◌+◌, ◌*◌, ◌/◌, ◌%◌, ◌^◌, ◌<◌, min, ◌≡◌, ◌↔◌, Bool, false, arith, String, Result, ok, err,
  if◌then◌else◌,
}
use fire_ctrl.Models.{AppError}

abbrev pub u32_max : ℕ
u32_max = 4294967295

-- `(cpu << 32) | ram`: the low half of the shifted word is empty, so `|` adds.
pub store : ℕ → ℕ → ℕ
store cpu_milli ram_milli =
    let cpu = min cpu_milli u32_max in
    let ram = min ram_milli u32_max in (cpu * 2 ^ 32) % 2 ^ 64 + ram

-- `packed >> 32` and `packed & 0xFFFF_FFFF`.
pub load : ℕ → ℕ × ℕ
load packed = (packed / 2 ^ 32, packed % 2 ^ 32)

-- What is loaded is what was stored, each reading clamped to 32 bits.
load-store :
    (cpu ram : ℕ)
    → ((load (store cpu ram)).0 ≡ min cpu u32_max)
      × ((load (store cpu ram)).1 ≡ min ram u32_max)
      × (store cpu ram < 2 ^ 64)
unfolding load store
load-store cpu ram = (omega arith, omega arith, omega arith)

-- The limits of `ResourceConfig`: whether a reading in thousandths is above the limit, and the texts
-- of the two refusals.
pub record Limits : Type 0 where
  pub above_cpu : ℕ → Bool
  pub above_ram : ℕ → Bool
  pub cpu_text : ℕ → String
  pub ram_text : ℕ → String

unfoldable pub check_resources : Limits → ℕ → Result AppError Unit
check_resources l packed =
    let (cpu, ram) = load packed in
    if l.above_cpu cpu
    then err (AppError.resource_limit (l.cpu_text cpu))
    else if l.above_ram ram
    then err (AppError.resource_limit (l.ram_text ram))
    else ok tt

gate_iff :
    (a b : Bool) (x y : AppError)
    → (if◌then◌else◌ {A = Result AppError Unit} a (err x) (if b then err y else ok tt) ≡ ok tt)
      ↔ ((a ≡ false) × (b ≡ false))
gate_iff a b x y = (λ h. ground arith, λ h. ground arith)

-- After the monitor has stored two readings, the gate lets a request pass exactly when neither
-- reading, clamped to 32 bits, is above its limit.
check_resources_iff :
    (l : Limits) (cpu ram : ℕ)
    → (check_resources l (store cpu ram) ≡ ok tt)
      ↔ ((l.above_cpu (min cpu u32_max) ≡ false) × (l.above_ram (min ram u32_max) ≡ false))
unfolding check_resources
check_resources_iff l cpu ram =
    rw ((load-store cpu ram).0, (load-store cpu ram).1) (gate_iff _ _ _ _)
