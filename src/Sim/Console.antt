-- ===== src/Sim/Console.antt =====
-- neems-rtac-sim/src/control.rs: the console of the simulator. A line is its words; the text of the
-- replies is left out. Lowering a word and reading a number are the standard library's.
use Prim.Native.String.{String}
use neems_core.Rtac.Protocol.{CommandType}
use neems_core.Platform.Float.{Float32}
use neems_core.Sim.{set_alarm, SimState, set_command, set_soc}
use neems_core.Prelude.Texts.{same_text}
use neems_core.Prelude.{
  ℕ, refl, true, false, Option, none, some, List, [], if-keeps, ◌≡◌, ◌||◌, ◌∷◌, if◌then◌else◌,
}

pub data ControlOutcome : Type 0 where
  help_reply status_reply soc_reply command_reply alarm_set_reply alarm_cleared_reply :
      ControlOutcome
  soc_usage alarm_usage unknown_command quit : ControlOutcome

-- What is used of `str`.
pub record WordReader (F : Type 0) : Type 0 where
  pub to_ascii_lowercase : String → String
  pub parse_f32 : String → Option F
  pub parse_u16 : String → Option ℕ

-- The command that a word of the console issues.
unfoldable pub console_command : String → Option CommandType
console_command w =
    if same_text w "charge"
    then some CommandType.charge
    else if same_text w "discharge"
    then some CommandType.discharge
    else if same_text w "trickle"
    then some CommandType.trickle_charge
    else if same_text w "standby"
    then some CommandType.standby
    else if same_text w "estop"
    then some CommandType.emergency_stop
    else if same_text w "clear"
    then some CommandType.clear_faults
    else none

module _ (fl : Float32) where
  open fl use {F}

  unfoldable pub handle_soc : WordReader F → SimState F → List String → SimState F × ControlOutcome
  unfolding set_soc
  handle_soc r s [] = (s, soc_usage)
  handle_soc r s (w ∷ ws) = elim (r.parse_f32 w) [
    | some pct ↦ (set_soc fl pct s, soc_reply)
    | none ↦ (s, soc_usage)
  ]

  unfoldable pub set_numbered : SimState F → String → Option ℕ → SimState F × ControlOutcome
  unfolding set_alarm
  set_numbered s action none = (s, alarm_usage)
  set_numbered s action (some n) =
      if same_text action "set"
      then (set_alarm fl n true s, alarm_set_reply)
      else if same_text action "clear"
      then (set_alarm fl n false s, alarm_cleared_reply)
      else (s, alarm_usage)

  unfoldable pub handle_alarm :
      WordReader F → SimState F → List String → SimState F × ControlOutcome
  unfolding set_numbered
  handle_alarm r s [] = (s, alarm_usage)
  handle_alarm r s (action ∷ []) = (s, alarm_usage)
  handle_alarm r s (action ∷ num ∷ ws) = set_numbered s action (r.parse_u16 num)

  unfoldable pub apply_word : SimState F → String → SimState F × ControlOutcome
  unfolding console_command set_command
  apply_word s w = elim (console_command w) [
    | some c ↦ (set_command fl c s, command_reply)
    | none ↦ (s, unknown_command)
  ]

  unfoldable pub handle_word :
      WordReader F → SimState F → String → List String → SimState F × ControlOutcome
  unfolding handle_soc handle_alarm apply_word
  handle_word r s w rest =
      if same_text w "quit" || same_text w "exit"
      then (s, quit)
      else if same_text w "help" || same_text w "?"
      then (s, help_reply)
      else if same_text w "status"
      then (s, status_reply)
      else if same_text w "soc"
      then handle_soc r s rest
      else if same_text w "alarm"
      then handle_alarm r s rest
      else apply_word s w

  -- `handle_line`, none where the line is empty
  unfoldable pub handle_line :
      WordReader F → SimState F → List String → SimState F × Option ControlOutcome
  unfolding handle_word
  handle_line r s [] = (s, none)
  handle_line r s (w ∷ rest) =
      let (s', reply) = handle_word r s (r.to_ascii_lowercase w) rest in (s', some reply)

  -- The state of a reply: a command's differs in the first command register, that of `soc` in the
  -- clamped charge, that of `alarm` in the alarm set or cleared, and every other's in nothing.
  abbrev pub IsEffect : SimState F → SimState F × ControlOutcome → Type 0
  IsEffect s (s', command_reply) = (c : CommandType) × (s' ≡ set_command fl c s)
  IsEffect s (s', soc_reply) = (pct : F) × (s' ≡ set_soc fl pct s)
  IsEffect s (s', alarm_set_reply) = (n : ℕ) × (s' ≡ set_alarm fl n true s)
  IsEffect s (s', alarm_cleared_reply) = (n : ℕ) × (s' ≡ set_alarm fl n false s)
  IsEffect s (s', help_reply) = s' ≡ s
  IsEffect s (s', status_reply) = s' ≡ s
  IsEffect s (s', soc_usage) = s' ≡ s
  IsEffect s (s', alarm_usage) = s' ≡ s
  IsEffect s (s', unknown_command) = s' ≡ s
  IsEffect s (s', quit) = s' ≡ s

  handle_soc-IsEffect :
      (r : WordReader F) (s : SimState F) (ws : List String) → IsEffect s (handle_soc r s ws)
  unfolding handle_soc
  handle_soc-IsEffect r s [] = refl
  handle_soc-IsEffect r s (w ∷ ws) = by_number (r.parse_f32 w)
    where
      by_number :
          (o : Option F)
          → IsEffect s (elim o [ some pct ↦ (set_soc fl pct s, soc_reply) | none ↦ (s, soc_usage) ])
      by_number none = refl
      by_number (some pct) = (pct, refl)

  set_numbered-IsEffect :
      (s : SimState F) (action : String) (o : Option ℕ) → IsEffect s (set_numbered s action o)
  unfolding set_numbered
  set_numbered-IsEffect s action none = refl
  set_numbered-IsEffect s action (some n) =
      if-keeps (IsEffect s) (same_text action "set") (λ _. (n, refl))
        (λ _. if-keeps (IsEffect s) (same_text action "clear") (λ _. (n, refl)) (λ _. refl))

  handle_alarm-IsEffect :
      (r : WordReader F) (s : SimState F) (ws : List String) → IsEffect s (handle_alarm r s ws)
  unfolding handle_alarm
  handle_alarm-IsEffect r s [] = refl
  handle_alarm-IsEffect r s (w ∷ []) = refl
  handle_alarm-IsEffect r s (w ∷ num ∷ ws) = set_numbered-IsEffect s w (r.parse_u16 num)

  apply_word-IsEffect : (s : SimState F) (w : String) → IsEffect s (apply_word s w)
  unfolding apply_word
  apply_word-IsEffect s w = by_command (console_command w)
    where
      by_command :
          (o : Option CommandType)
          → IsEffect s (elim o [
            | some c ↦ (set_command fl c s, command_reply)
            | none ↦ (s, unknown_command)
          ])
      by_command none = refl
      by_command (some c) = (c, refl)

  -- A word of the console changes the state as its reply says, and in no other way.
  pub handle_word-IsEffect :
      (r : WordReader F) (s : SimState F) (w : String) (rest : List String)
      → IsEffect s (handle_word r s w rest)
  unfolding handle_word
  handle_word-IsEffect r s w rest =
      if-keeps (IsEffect s) (same_text w "quit" || same_text w "exit") (λ _. refl)
        (λ _.
          if-keeps (IsEffect s) (same_text w "help" || same_text w "?") (λ _. refl)
            (λ _.
              if-keeps (IsEffect s) (same_text w "status") (λ _. refl)
                (λ _.
                  if-keeps (IsEffect s) (same_text w "soc") (λ _. handle_soc-IsEffect r s rest)
                    (λ _.
                      if-keeps (IsEffect s) (same_text w "alarm")
                        (λ _. handle_alarm-IsEffect r s rest) (λ _. apply_word-IsEffect s w)))))
