-- ===== src/Rtac/Alarm/Definition.antt =====
-- neems-data/src/rtac/alarm_definitions.rs: zones and alarm points.
use Prim.Native.String.{String}
use neems_core.Prelude.{ℕ}

pub data AlarmZone : Type 0 where
  site breaker_relay meter transformer1 transformer2 rtac facp tesla_site_controller mp1a mp1b mp1c
        mp2a mp2b mp2c :
      AlarmZone

pub AlarmZone-discrete : Discrete AlarmZone
AlarmZone-discrete = hlevel

pub record AlarmDefinition : Type 0 where
  pub alarm_num : ℕ
  pub zone : AlarmZone
  pub name : String
  pub level : ℕ
  pub register_index : ℕ
  pub bit : ℕ

-- The `alarm!` macro.
abbrev pub alarm : ℕ → AlarmZone → String → ℕ → ℕ → ℕ → AlarmDefinition
alarm num zone name level reg bit = record {
  alarm_num = num;
  zone = zone;
  name = name;
  level = level;
  register_index = reg;
  bit = bit;
}
