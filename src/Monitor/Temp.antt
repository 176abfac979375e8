-- ===== src/Monitor/Temp.antt =====
-- src/arch/mb_le/sys/tsensor.c and src/arch/mb_le/services/temp_service.c: the temperature.
use rpv_platforms_evt_driven.Base.{
  ℕ, ◌/◌, ◌%◌, ◌^◌, ◌<◌, ◌≡◌, arith, ◌==◌, ltb, if◌then◌else◌, Bool, false, not, ◌||◌, Option, none,
  some, ℤ, pos, negsuc,
}
use rpv_platforms_evt_driven.Base.Bits.{bit_at}

-- `_tsensor_read`, with the registers that it reads.
unfoldable pub tsensor_read : (is_null : Bool) (sr dt : ℕ) → Option ℕ
tsensor_read is_null sr dt = if is_null || not (bit_at sr 0) then none else some (dt % 2 ^ 16)

-- The product with `T_K`, 2 ^ -4, and its conversion to a byte: exact below 256, and what C leaves
-- undefined, here `overflow`, from there on.
abbrev pub deg_of : (overflow : ℕ → ℕ) (ts : ℕ) → ℕ
deg_of overflow ts = if ltb (ts / 2 ^ 4) (2 ^ 8) then ts / 2 ^ 4 else overflow ts % 2 ^ 8

-- `temp_service`: `ts_temp` after it.
unfoldable pub temp_service : (overflow : ℕ → ℕ) (sr dt : ℕ) → ℕ
temp_service overflow sr dt = elim (tsensor_read false sr dt) [
  | none ↦ 0
  | some ts ↦ deg_of overflow ts
]

pub data TempOut : Type 0 where
  no_temperature : TempOut
  deg_c : ℕ → TempOut

-- `temp_m`
unfoldable pub temp_m : (ts_temp : ℕ) → ℤ × TempOut
temp_m ts_temp = if ts_temp == 0 then (negsuc 0, no_temperature) else (pos 0, deg_c ts_temp)

-- Of a reading below 256 degrees the command prints the whole degrees; below one degree, as without a
-- valid reading, it says that there is no temperature.
pub temp_m-temp_service :
    (overflow : ℕ → ℕ) (sr dt : ℕ)
    → dt % 2 ^ 16 < 2 ^ 12
    → temp_m (temp_service overflow sr dt) ≡ (
        if not (bit_at sr 0) || ltb (dt % 2 ^ 16) (2 ^ 4)
        then (negsuc 0, no_temperature)
        else (pos 0, deg_c (dt % 2 ^ 16 / 2 ^ 4)))
unfolding temp_m temp_service tsensor_read
temp_m-temp_service overflow sr dt small = ground arith
