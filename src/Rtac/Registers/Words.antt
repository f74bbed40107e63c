-- ===== src/Rtac/Registers/Words.antt =====
-- Modes, commands and 32-bit values survive the trip through the registers.
use neems_core.Prelude.Bits.{bit_or-shl}
use neems_core.Rtac.Protocol.{
  mode_from_register, mode_to_register, CommandType, command_from_register, command_to_register,
}
use neems_core.Rtac.Registers.{
  parse_i32_from_registers, i32_to_registers, parse_u32_from_registers, u32_to_registers,
  build_command_registers,
}
use neems_core.Prelude.{
  ℕ, refl, Option, none, some, arith, unwrap_or, get_or, ◌-◌, ◌/◌, ◌%◌, ◌^◌, ◌<◌, ◌≡◌, ◌↔◌,
}
use neems_core.Prelude.Int.{ℤ, pos, negsuc, ◌≤ℤ◌}

-- Reading a mode register and writing it back gives the same 16-bit value, known or not.
pub mode_to_register-mode_from_register : (r : ℕ) → mode_to_register (mode_from_register r) ≡ r
unfolding mode_to_register mode_from_register
mode_to_register-mode_from_register r = ground arith

-- A command register holds `r` exactly when it decodes to a command that encodes as `r`.
pub command_registers_iff :
    (r : ℕ) (c : CommandType) → (command_from_register r ≡ some c) ↔ (command_to_register c ≡ r)
unfolding command_from_register command_to_register
command_registers_iff r CommandType.standby = ground arith
command_registers_iff r _ = ground arith

abbrev pub IsI32 : ℤ → Type 0
IsI32 v = (negsuc (2 ^ 31 - 1) ≤ℤ v) × (v ≤ℤ pos (2 ^ 31 - 1))

-- Splitting an `i32` into two registers and joining them gives the value back.
pub parse_i32-i32_to_registers :
    (v : ℤ) → IsI32 v → let (h, l) = i32_to_registers v in parse_i32_from_registers h l ≡ v
unfolding i32_to_registers parse_i32_from_registers
parse_i32-i32_to_registers (pos n) h = ground (arith, bit_or-shl 16 (n / 65536) (n % 65536))
parse_i32-i32_to_registers (negsuc n) h =
    ground (arith, bit_or-shl 16 (65535 - n / 65536 % 65536) (65535 - n % 65536))

-- What the device decodes from a command frame is the command that was sent and, where the
-- duration is none or in the range of `i32`, that duration, with 0 for none.
pub command_frame_decodes :
    (c : CommandType) (target duration : Option ℤ) (ramp : ℤ)
    → IsI32 (unwrap_or duration (pos 0))
    → let rs = build_command_registers c target duration ramp in
      (command_from_register (get_or rs 0 0) ≡ some c)
      × (parse_i32_from_registers (get_or rs 2 0) (get_or rs 3 0) ≡ unwrap_or duration (pos 0))
unfolding build_command_registers
command_frame_decodes c target none ramp h =
    ((command_registers_iff _ c).1 refl, parse_i32-i32_to_registers (pos 0) h)
command_frame_decodes c target (some v) ramp h =
    ((command_registers_iff _ c).1 refl, parse_i32-i32_to_registers v h)

-- Splitting a `u32` into two registers and joining them gives the value back.
pub parse_u32-u32_to_registers :
    (v : ℕ) → v < 2 ^ 32 → let (h, l) = u32_to_registers v in parse_u32_from_registers h l ≡ v
unfolding u32_to_registers parse_u32_from_registers
parse_u32-u32_to_registers v h = ground (arith, bit_or-shl 16 (v / 65536) (v % 65536))
