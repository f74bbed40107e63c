-- ===== src/Sim/Registers.antt =====
-- The simulated device over Modbus: what a write changes, and that the client reads the device.
use neems_core.Platform.Float.{Float32}
use neems_core.Sim.{
  read_registers, write_registers, write_one, SimState, read_from, register_at, write_from,
}
use neems_core.Rtac.RegisterMap.{
  alarm_register_count, status_read_count, cmd_start_address, cmd_write_count,
}
use neems_core.Rtac.Registers.{
  current_to_register, grid_frequency_to_register, parse_current, parse_grid_frequency,
  parse_power_kw, parse_soc, parse_temperature, parse_voltage, power_kw_to_registers,
  soc_to_register, status_fields, status_from_registers, temperature_to_register,
  voltage_to_register,
}
use neems_core.Rtac.Protocol.{
  OperatingMode, charging, discharging, fault, initializing, mode_from_register, mode_to_register,
  unknown,
}
use neems_core.Prelude.{
  ℕ, zero, suc, refl, sym, ap, inl, inr, true, some, List, [], arith, ltb, leb, Bool-cases, length,
  get_or, drop, length-set, get_or-set_self, get_or-set_ne, ◌+◌, ◌-◌, ◌%◌, ◌^◌, ◌≤◌, ◌<◌, ◌≡◌, ◌∙◌,
  ◌≢◌, ◌&&◌, ◌∷◌, ◌==◌, if◌then◌else◌,
}

-- A write of one value and then of the rest, against a write of both.
cover :
    (a b x v r : ℕ) (vs : List ℕ)
    → b ≡ suc a
    → (if leb b x && ltb x (b + length vs) then get_or vs (x - b) 0 else if a == x then v else r)
      ≡ (if leb a x && ltb x (a + length (v ∷ vs)) then get_or (v ∷ vs) (x - a) 0 else r)
cover a b x v r vs e = elim (Bool-cases (ltb a x)) [
  | inl beyond ↦ let step : x - a ≡ suc (x - b) = ground arith in rw step (ground arith)
  | inr short ↦ elim (Bool-cases (a == x)) [
    | inl same ↦ let none_left : x - a ≡ 0 = ground arith in rw none_left (ground arith)
    | inr before ↦ ground arith
  ]
]

-- The elements of a list from index `i` on, `n` of them.
abbrev window : List ℕ → ℕ → ℕ → List ℕ
window r i zero = []
window r i (suc n) = get_or r i 0 ∷ window r (suc i) n

drop-cons : (r : List ℕ) (i : ℕ) → i < length r → drop i r ≡ get_or r i 0 ∷ drop (suc i) r
drop-cons [] i h = ground arith
drop-cons (x ∷ r) zero h = refl
drop-cons (x ∷ r) (suc i) h = drop-cons r i (ground arith)

drop-all : (r : List ℕ) (i : ℕ) → length r ≤ i → drop i r ≡ []
drop-all [] zero h = refl
drop-all [] (suc i) h = refl
drop-all (x ∷ r) zero h = ground arith
drop-all (x ∷ r) (suc i) h = drop-all r i (ground arith)

window-drop : (r : List ℕ) (i n : ℕ) → i + n ≡ length r → window r i n ≡ drop i r
window-drop r i zero h = sym (drop-all r i (omega arith))
window-drop r i (suc n) h =
    ap (λ l. get_or r i 0 ∷ l) (window-drop r (suc i) n (ground arith))
    ∙ sym (drop-cons r i (ground arith))

window-all : (r : List ℕ) → length r ≡ 22 → window r 0 22 ≡ r
window-all r h = window-drop r 0 22 (sym h)

mode_known :
    (m : OperatingMode) → ((v : ℕ) → m ≢ unknown v) → mode_from_register (mode_to_register m) ≡ m
unfolding mode_from_register mode_to_register
mode_known OperatingMode.standby h = refl
mode_known charging h = refl
mode_known discharging h = refl
mode_known OperatingMode.trickle_charge h = refl
mode_known fault h = refl
mode_known OperatingMode.emergency_stop h = refl
mode_known initializing h = refl
mode_known (unknown v) h = elim (h v refl) [ ]

module _ (fl : Float32) where
  open fl use {F}

  length-write_one : (addr v : ℕ) (regs : List ℕ) → length (write_one fl addr v regs) ≡ length regs
  unfolding write_one
  length-write_one addr v regs = ground (arith, length-set regs (addr - cmd_start_address) v)

  get_or-write_one :
      (addr v : ℕ) (regs : List ℕ) (j : ℕ)
      → length regs ≡ cmd_write_count
      → j < cmd_write_count
      → get_or (write_one fl addr v regs) j 0
        ≡ (if addr == cmd_start_address + j then v else get_or regs j 0)
  unfolding write_one
  get_or-write_one addr v regs j h b = elim (Bool-cases (addr == cmd_start_address + j)) [
    | inl hit ↦
        let at : addr - 100 ≡ j = ground arith in
        let here : (leb cmd_start_address addr && ltb addr (cmd_start_address + cmd_write_count))
            ≡ true =
          ground arith in
        rw hit (rw here (rw at (get_or-set_self regs j v 0 (ground arith))))
    | inr miss ↦ rw miss (ground (arith, get_or-set_ne regs (addr - cmd_start_address) j v 0))
  ]

  -- The registers that are written are those of the block 100 to 104 that the write covers.
  write_from_lem :
      (start i : ℕ) (values regs : List ℕ) (j : ℕ)
      → length regs ≡ cmd_write_count
      → j < cmd_write_count
      → start + i + length values ≤ 65536
      → get_or (write_from fl start i values regs) j 0 ≡ (
          if leb (start + i) (cmd_start_address + j)
            && ltb (cmd_start_address + j) (start + i + length values)
          then get_or values (cmd_start_address + j - (start + i)) 0
          else get_or regs j 0)
  unfolding write_from
  write_from_lem start i [] regs j h b w = ground arith
  write_from_lem start i (v ∷ vs) regs j h b w =
      let low : (start + i) % 65536 ≡ start + i = ground arith in
      let ih =
        write_from_lem start (suc i) vs (write_one fl (start + i) v regs) j
          (length-write_one (start + i) v regs ∙ h) b (ground arith) in
      let one = get_or-write_one (start + i) v regs j h b in
      rw low (
        rw ih
          (rw one (cover (start + i) (start + suc i) (cmd_start_address + j) v _ vs (omega arith))))

  length-write_from :
      (start i : ℕ) (values regs : List ℕ)
      → length (write_from fl start i values regs) ≡ length regs
  unfolding write_from
  length-write_from start i [] regs = refl
  length-write_from start i (v ∷ vs) regs =
      length-write_from start (suc i) vs _ ∙ length-write_one _ v regs

  get_or-read_from :
      (s : SimState F) (start i count k : ℕ)
      → k < count
      → get_or (read_from fl s start i count) k 0 ≡ register_at fl s ((start + (i + k)) % 2 ^ 16)
  unfolding read_from
  get_or-read_from s start i zero k h = ground arith
  get_or-read_from s start i (suc count) zero h = let e : i + 0 ≡ i = omega arith in rw e refl
  get_or-read_from s start i (suc count) (suc k) h =
      let e : i + suc k ≡ suc i + k = omega arith in
      rw e (get_or-read_from s start (suc i) count k (omega arith))

  length-read_from :
      (s : SimState F) (start i count : ℕ) → length (read_from fl s start i count) ≡ count
  unfolding read_from
  length-read_from s start i zero = refl
  length-read_from s start i (suc count) = ap suc (length-read_from s start (suc i) count)

  register_at-cmd :
      (s : SimState F) (addr : ℕ)
      → leb 100 addr && ltb addr 105 ≡ true
      → register_at fl s addr ≡ get_or s.cmd_regs (addr - cmd_start_address) 0
  unfolding register_at
  register_at-cmd s addr h = ground arith

  -- A write that ends at address 65535 at most, to a device with five command registers: every
  -- register from 100 to 104 that it covers then reads as the value written to it, and every other
  -- register, command or status, reads as before.
  pub register_at-write_registers :
      (s : SimState F) (start : ℕ) (values : List ℕ) (addr : ℕ)
      → length s.cmd_regs ≡ cmd_write_count
      → start + length values ≤ 65536
      → register_at fl (write_registers fl start values s) addr ≡ (
          if (leb 100 addr && ltb addr 105) && (leb start addr && ltb addr (start + length values))
          then get_or values (addr - start) 0
          else register_at fl s addr)
  unfolding register_at write_registers
  register_at-write_registers s start values addr h w =
      elim (Bool-cases (leb 100 addr && ltb addr 105)) [
        | inl cmd ↦
            let at : cmd_start_address + (addr - cmd_start_address) ≡ addr = ground arith in
            let e =
              write_from_lem start 0 values s.cmd_regs (addr - cmd_start_address) h (ground arith)
                (ground arith) in
            let z : start + 0 ≡ start = omega arith in
            rw (register_at-cmd (write_registers fl start values s) addr cmd)
              (rw (register_at-cmd s addr cmd) (rw e (rw at (rw z (rw cmd refl)))))
        | inr other ↦ rw other (ground arith)
      ]

  -- For a device in a known mode and with 22 alarm registers, the client's parse of what it reads
  -- from it: the 30 status registers are a status with
  -- the device's mode and all its alarm registers, and each measured value is the device's, as
  -- encoded in its register.
  pub status_from_registers-read_registers :
      (s : SimState F)
      → length s.alarms.registers ≡ alarm_register_count
      → ((v : ℕ) → s.mode ≢ unknown v)
      → status_from_registers fl (read_registers fl s 0 status_read_count)
        ≡ some (record {
          mode = s.mode;
          soc_percent = parse_soc fl (soc_to_register fl s.soc_percent);
          power_kw =
              parse_power_kw fl
                (power_kw_to_registers fl s.power_kw).0
                (power_kw_to_registers fl s.power_kw).1;
          voltage_v = parse_voltage fl (voltage_to_register fl s.voltage_v);
          current_a = parse_current fl (current_to_register fl s.current_a);
          temperature_c = parse_temperature fl (temperature_to_register fl s.temperature_c);
          grid_frequency_hz =
              parse_grid_frequency fl (grid_frequency_to_register fl s.grid_frequency_hz);
          alarm_registers = s.alarms.registers;
        })
  unfolding status_from_registers status_fields read_registers read_from register_at
  status_from_registers-read_registers s h known = rw (mode_known s.mode known) (
      ap
        (λ rs. some (record (status_fields fl (read_registers fl s 0 status_read_count)) {
          alarm_registers = rs;
          mode = s.mode;
        }))
        (window-all s.alarms.registers h))
