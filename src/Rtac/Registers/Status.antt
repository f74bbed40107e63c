-- ===== src/Rtac/Registers/Status.antt =====
-- When a block of registers is a status, and what the status then holds.
use neems_core.Platform.Float.{Float32}
use neems_core.Rtac.RegisterMap.{status_read_count, alarm_register_count}
use neems_core.Rtac.Protocol.{mode_to_register}
use neems_core.Rtac.Registers.Words.{mode_to_register-mode_from_register}
use neems_core.Rtac.Registers.{ParsedStatus, status_fields, status_from_registers}
use neems_core.Prelude.{
  ℕ, inl, inr, none, some, List, arith, ltb, ltb→lt, Bool-cases, length, get_or, drop, length-drop,
  length-take, get_or-drop, get_or-take, ◌+◌, ◌<◌, ◌≡◌, ◌∙◌, ◌⊎◌,
}

-- Fewer than 30 registers are refused. Any 30 or more give a status whose mode encodes as the
-- first register and which has the 22 registers from the eighth on as its alarm registers.
pub status_from_registers_lem :
    (fl : Float32) (rs : List ℕ)
    → ((length rs < status_read_count) × (status_from_registers fl rs ≡ none))
      ⊎ ((s : ParsedStatus fl.F) × (status_from_registers fl rs ≡ some s)
          × (mode_to_register s.mode ≡ get_or rs 0 0)
          × (length s.alarm_registers ≡ alarm_register_count)
          × ((i : ℕ)
              → i < alarm_register_count
              → get_or s.alarm_registers i 0 ≡ get_or rs (8 + i) 0))
unfolding status_from_registers
status_from_registers_lem fl rs = elim (Bool-cases (ltb (length rs) status_read_count)) [
  | inl short ↦ inl (ltb→lt _ _ short, rw short)
  | inr long ↦ inr (
    status_fields fl rs,
    rw long,
    mode_to_register-mode_from_register (get_or rs 0 0),
    length-take 22 (drop 8 rs) (ground (arith, length-drop 8 rs)),
    λ i h. get_or-take 22 i (drop 8 rs) 0 h ∙ get_or-drop 8 i rs 0,
  )
]
