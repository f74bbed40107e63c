-- ===== src/Rtac/Registers.antt =====
-- neems-data/src/rtac/protocol.rs: how values travel in 16-bit registers.
-- An `i32` is an integer; a `u16` is a number below 65536.
pub mod Words
pub mod Bounds
pub mod Status
use Prim.Native.Nat.{bit_or}
use mathlib.Core.Option
use neems_core.Platform.Float.{Float32}
use neems_core.Rtac.RegisterMap.{status_read_count, alarm_register_count}
use neems_core.Rtac.Protocol.{OperatingMode, mode_from_register, CommandType, command_to_register}
use neems_core.Prelude.{
  ℕ, Option, none, some, List, [], map, ltb, unwrap_or, length, get_or, take, drop, ◌-◌, ◌*◌, ◌/◌,
  ◌%◌, ◌^◌, ◌∷◌, if◌then◌else◌,
}
use neems_core.Prelude.Int.{ℤ, pos, negsuc, ltb_ℤ, leb_ℤ, clamp_ℤ, ◌*ℤ◌}

-- `value >> 16` of an `i32`: an arithmetic shift.
abbrev pub shr_16 : ℤ → ℤ
shr_16 (pos n) = pos (n / 65536)
shr_16 (negsuc n) = negsuc (n / 65536)

-- `(value & 0xffff) as u16`, and `value as u16`: the low 16 bits of the two's complement.
abbrev pub low_16 : ℤ → ℕ
low_16 (pos n) = n % 65536
low_16 (negsuc n) = 65535 - n % 65536

-- The integer that a 32-bit or 16-bit pattern stands for.
abbrev pub signed_32 : ℕ → ℤ
signed_32 w = if ltb w (2 ^ 31) then pos w else negsuc (2 ^ 32 - w - 1)

abbrev pub signed_16 : ℕ → ℤ
signed_16 w = if ltb w (2 ^ 15) then pos w else negsuc (2 ^ 16 - w - 1)

unfoldable pub parse_i32_from_registers : ℕ → ℕ → ℤ
parse_i32_from_registers high low = signed_32 (bit_or (high * 2 ^ 16 % 2 ^ 32) low)

unfoldable pub parse_u32_from_registers : ℕ → ℕ → ℕ
parse_u32_from_registers high low = bit_or (high * 2 ^ 16 % 2 ^ 32) low

unfoldable pub i32_to_registers : ℤ → ℕ × ℕ
i32_to_registers value = (low_16 (shr_16 value), low_16 value)

unfoldable pub u32_to_registers : ℕ → ℕ × ℕ
u32_to_registers value = (value / 65536 % 65536, value % 65536)

-- The loop-free tail of `build_command_registers`, for the ramp.
unfoldable pub ramp_register : ℤ → ℕ
ramp_register ramp =
    if leb_ℤ ramp (pos 0) then 0 else if ltb_ℤ (pos 65535) ramp then 65535 else low_16 ramp

unfoldable pub target_register : Option ℤ → ℕ
target_register target =
    unwrap_or (Option.map (λ s. low_16 (clamp_ℤ s (pos 0) (pos 100) *ℤ pos 100)) target) 0

unfoldable pub build_command_registers : CommandType → Option ℤ → Option ℤ → ℤ → List ℕ
unfolding ramp_register target_register
build_command_registers command target duration ramp =
    let (duration_high, duration_low) = i32_to_registers (unwrap_or duration (pos 0)) in
    command_to_register command
    ∷ target_register target
    ∷ duration_high
    ∷ duration_low
    ∷ ramp_register ramp
    ∷ []

pub record ParsedStatus (F : Type 0) : Type 0 where
  pub mode : OperatingMode
  pub soc_percent : F
  pub power_kw : F
  pub voltage_v : F
  pub current_a : F
  pub temperature_c : F
  pub grid_frequency_hz : F
  pub alarm_registers : List ℕ

module _ (fl : Float32) where
  open fl use {F, of_int, div, mul, clamp, to_u16, to_i16, to_i32}

  -- A literal such as `100.0`.
  abbrev pub lit : ℕ → F
  lit n = of_int (pos n)

  unfoldable pub parse_soc : ℕ → F
  parse_soc r = div (lit r) (lit 100)

  unfoldable pub soc_to_register : F → ℕ
  soc_to_register soc = to_u16 (clamp (mul soc (lit 100)) (lit 0) (lit 10000))

  unfoldable pub parse_voltage : ℕ → F
  parse_voltage r = div (lit r) (lit 10)

  unfoldable pub parse_current : ℕ → F
  parse_current r = div (of_int (signed_16 r)) (lit 10)

  unfoldable pub parse_temperature : ℕ → F
  parse_temperature r = div (of_int (signed_16 r)) (lit 10)

  unfoldable pub parse_grid_frequency : ℕ → F
  parse_grid_frequency r = div (lit r) (lit 100)

  unfoldable pub parse_power_kw : ℕ → ℕ → F
  parse_power_kw high low = div (of_int (parse_i32_from_registers high low)) (lit 1000)

  unfoldable pub voltage_to_register : F → ℕ
  voltage_to_register volts = to_u16 (clamp (mul volts (lit 10)) (lit 0) (lit 65535))

  unfoldable pub current_to_register : F → ℕ
  current_to_register amps =
      low_16 (to_i16 (clamp (mul amps (lit 10)) (of_int (negsuc 32767)) (lit 32767)))

  unfoldable pub temperature_to_register : F → ℕ
  temperature_to_register celsius =
      low_16 (to_i16 (clamp (mul celsius (lit 10)) (of_int (negsuc 32767)) (lit 32767)))

  unfoldable pub grid_frequency_to_register : F → ℕ
  grid_frequency_to_register hz = to_u16 (clamp (mul hz (lit 100)) (lit 0) (lit 65535))

  unfoldable pub power_kw_to_registers : F → ℕ × ℕ
  power_kw_to_registers kw = i32_to_registers (to_i32 (mul kw (lit 1000)))

  -- The fields of `ParsedStatus::from_registers`; the reads are in range where its guard passes.
  unfoldable pub status_fields : List ℕ → ParsedStatus F
  status_fields registers =
      let at : ℕ → ℕ = λ i. get_or registers i 0 in
      record {
        mode = mode_from_register (at 0);
        soc_percent = parse_soc (at 1);
        power_kw = parse_power_kw (at 2) (at 3);
        voltage_v = parse_voltage (at 4);
        current_a = parse_current (at 5);
        temperature_c = parse_temperature (at 6);
        grid_frequency_hz = parse_grid_frequency (at 7);
        alarm_registers = take alarm_register_count (drop 8 registers);
      }

  -- `ParsedStatus::from_registers`
  unfoldable pub status_from_registers : List ℕ → Option (ParsedStatus F)
  unfolding status_fields
  status_from_registers registers =
      if ltb (length registers) status_read_count then none else some (status_fields registers)
