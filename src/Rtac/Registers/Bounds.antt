-- ===== src/Rtac/Registers/Bounds.antt =====
-- Every register that is written stays in the range that the register map gives it.
use neems_core.Platform.Float.{Float32, IsIeee}
use neems_core.Rtac.Protocol.{CommandType, command_to_register}
use neems_core.Rtac.Registers.{
  build_command_registers, ramp_register, target_register, i32_to_registers, soc_to_register, lit,
}
use neems_core.Prelude.{
  ℕ, refl, inl, inr, true, Option, none, some, List, arith, leb, Bool-cases, length, get_or, ◌*◌,
  ◌≤◌, ◌<◌, ◌≡◌, ◌∙◌, if◌then◌else◌,
}
use neems_core.Prelude.Int.{ℤ, pos, negsuc}

-- What a register of a command holds: a known command code, a target of at most 100.00 percent,
-- and 16-bit words.
abbrev pub IsCommandFrame : List ℕ → Type 0
IsCommandFrame rs =
    (length rs ≡ 5)
    × (get_or rs 0 0 ≤ 5)
    × (get_or rs 1 0 ≤ 10000)
    × (get_or rs 2 0 < 65536)
    × (get_or rs 3 0 < 65536)
    × (get_or rs 4 0 < 65536)

command_to_register_le : (c : CommandType) → command_to_register c ≤ 5
unfolding command_to_register
command_to_register_le CommandType.standby = omega arith
command_to_register_le _ = omega arith

target_register_le : (t : Option ℤ) → target_register t ≤ 10000
unfolding target_register
target_register_le none = omega arith
target_register_le (some (pos n)) = ground arith
target_register_le (some (negsuc n)) = ground arith

ramp_register_lt : (r : ℤ) → ramp_register r < 65536
unfolding ramp_register
ramp_register_lt (pos n) = ground arith
ramp_register_lt (negsuc n) = ground arith

i32_to_registers_lt : (v : ℤ) → ((i32_to_registers v).0 < 65536) × ((i32_to_registers v).1 < 65536)
unfolding i32_to_registers
i32_to_registers_lt (pos n) = (omega arith, omega arith)
i32_to_registers_lt (negsuc n) = (omega arith, omega arith)

-- For any command and any integers, out of range ones included, the five registers form a command
-- frame: code at most 5, target at most 10000, and duration and ramp words below 65536.
pub build_command_registers-IsCommandFrame :
    (c : CommandType) (target duration : Option ℤ) (ramp : ℤ)
    → IsCommandFrame (build_command_registers c target duration ramp)
unfolding build_command_registers
build_command_registers-IsCommandFrame c target none ramp = (
  refl,
  command_to_register_le c,
  target_register_le target,
  (i32_to_registers_lt (pos 0)).0,
  (i32_to_registers_lt (pos 0)).1,
  ramp_register_lt ramp,
)
build_command_registers-IsCommandFrame c target (some d) ramp = (
  refl,
  command_to_register_le c,
  target_register_le target,
  (i32_to_registers_lt d).0,
  (i32_to_registers_lt d).1,
  ramp_register_lt ramp,
)

-- Between 0 and 100 the target register is the percentage in hundredths, and a ramp of 1 to 65535
-- seconds is sent as it is; below and above, both are clamped to the ends of their range.
pub command_clamps :
    (n : ℕ)
    → (target_register (some (pos n)) ≡ (if leb n 100 then n * 100 else 10000))
      × (target_register (some (negsuc n)) ≡ 0)
      × (ramp_register (pos n) ≡ (if leb n 65535 then n else 65535))
      × (ramp_register (negsuc n) ≡ 0)
unfolding target_register ramp_register
command_clamps n = (ground arith, ground arith, ground arith, ground arith)

-- The state of charge register never exceeds 10000 (100.00 percent), whatever the float, NaN too.
pub soc_to_register_le : (fl : Float32) → IsIeee fl → (soc : fl.F) → soc_to_register fl soc ≤ 10000
unfolding soc_to_register
soc_to_register_le fl laws soc = elim (Bool-cases (fl.is_nan x)) [
  | inl nan ↦
      let e : fl.to_u16 (fl.clamp x (lit fl 0) (lit fl 10000)) ≡ 0 =
        laws.to_u16_nan _ (laws.clamp_is_nan x _ _ ordered ∙ nan) in
      omega arith
  | inr number ↦ laws.to_u16_le _ 10000 (laws.clamp_le x _ _ number ordered)
]
  where
    x : fl.F
    x = fl.mul soc (lit fl 100)

    ordered : fl.le (lit fl 0) (lit fl 10000) ≡ true
    ordered = laws.of_int_le 0 10000 (omega arith) (omega arith)
