-- ===== src/Schedules/Active/Latest.antt =====
-- neems-api/src/api/application_rule.rs: which command `get_site_active_command` chooses.
use neems_core.Prelude.Sort.{
  mem-sort_by, sort_by, sort_by-mem, sort_by-ordered, AreSortedBy, IsOrder, Lex,
}
use mathlib.Core.List.{Memᴰ}
use neems_core.Schedules.Model.{ScheduleCommandDto, Site}
use neems_core.Schedules.Active.{
  chosen, ActiveScheduleCommand, active_in, active_of, choose, command_is, get_site_active_command,
  last_of, dto_le, ramp_of, rfind,
}
use mathlib.Core.Path.{subst}
use neems_core.Schedules.Chrono.{Chrono, pred_opt}
use neems_core.Schedules.Db.{Db, Sqlite, find_site, ok}
use neems_core.Schedules.Rules.{EffectiveScheduleResponse, get_effective_schedule}
use neems_core.Prelude.{
  ℕ, zero, suc, ◌*◌, ◌-◌, Option-cases, refl, sym, ap, inl, inr, Bool, true, false, Option, none,
  some, List, [], arith, Bool-cases, ◌≡◌, ◌∙◌, ◌⊎◌, ◌∷◌,
}
use neems_core.Prelude.Int.{ℤ, pos, leb_ℤ, ◌+ℤ◌}

abbrev offset : ScheduleCommandDto → ℤ
offset c = c.execution_offset_seconds

dto_le-IsOrder : IsOrder dto_le
dto_le-IsOrder = record { total = λ x y h. ground arith; transitive = λ x y z h k. ground arith }

dto_le_refl : (x : ScheduleCommandDto) → dto_le x x ≡ true
dto_le_refl x = ground arith

abbrev Ordered : List ScheduleCommandDto → Type 0
Ordered cs = AreSortedBy (Lex dto_le (λ x y. Unit {0})) cs

-- What is found from the end passes the test, and is not before any other that does.
abbrev IsLatest :
    (ScheduleCommandDto → Bool) → List ScheduleCommandDto → ScheduleCommandDto → Type 0
IsLatest p cs c =
    Memᴰ c cs
    × (p c ≡ true)
    × ((d : ScheduleCommandDto) → Memᴰ d cs → p d ≡ true → dto_le d c ≡ true)

rfind-cases :
    (p : ScheduleCommandDto → Bool) (cs : List ScheduleCommandDto)
    → Ordered cs
    → ((c : ScheduleCommandDto) × (rfind p cs ≡ some c) × IsLatest p cs c)
      ⊎ ((rfind p cs ≡ none) × ((d : ScheduleCommandDto) → Memᴰ d cs → p d ≡ false))
unfolding rfind
rfind-cases p [] s = inr (refl, λ d m. elim m [ ])
rfind-cases p (x ∷ xs) s = elim (rfind-cases p xs s.1) [
  | inl (c, e, (m, t, l)) ↦ inl (
    c,
    rw e refl,
    (
      Memᴰ.tail m,
      t,
      λ d n h. elim n [
        | Memᴰ.head k ↦ subst (λ z. dto_le z c ≡ true) (sym k) (s.0 c m).0
        | Memᴰ.tail o ↦ l d o h
      ],
    ),
  )
  | inr (e, none_passes) ↦ elim (Bool-cases (p x)) [
    | inl t ↦ inl (
      x,
      rw (e, t) refl,
      (
        Memᴰ.head refl,
        t,
        λ d n h. elim n [
          | Memᴰ.head k ↦ subst (λ z. dto_le z x ≡ true) (sym k) (dto_le_refl x)
          | Memᴰ.tail o ↦ absurd (cc (h, none_passes d o))
        ],
      ),
    )
    | inr f ↦
        inr (
          rw (e, f) refl,
          λ d n. elim n [ Memᴰ.head k ↦ ap p k ∙ f | Memᴰ.tail o ↦ none_passes d o ],
        )
  ]
]

last_of-IsLatest :
    (x : ScheduleCommandDto) (xs : List ScheduleCommandDto)
    → Ordered (x ∷ xs)
    → IsLatest (λ c. true) (x ∷ xs) (last_of x xs)
unfolding last_of
last_of-IsLatest x [] s = (
  Memᴰ.head refl,
  refl,
  λ d m h. elim m [
    | Memᴰ.head k ↦ subst (λ z. dto_le z x ≡ true) (sym k) (dto_le_refl x)
    | Memᴰ.tail n ↦ elim n [ ]
  ],
)
last_of-IsLatest x (y ∷ ys) s =
    let (m, t, l) = last_of-IsLatest y ys s.1 in
    (
      Memᴰ.tail m,
      refl,
      λ d n h. elim n [
        | Memᴰ.head k ↦ subst (λ z. dto_le z (last_of y ys) ≡ true) (sym k) (s.0 (last_of y ys) m).0
        | Memᴰ.tail o ↦ l d o h
      ],
    )

-- The command of a schedule at a time of day: the last to begin by then today, or, before the
-- first of the day, the last of the day, begun the day before.
abbrev pub IsRunning : List ScheduleCommandDto → ℤ → ScheduleCommandDto → Bool → Type 0
IsRunning cs now_secs c false =
    Memᴰ c cs
    × (leb_ℤ c.execution_offset_seconds now_secs ≡ true)
    × ((d : ScheduleCommandDto)
        → Memᴰ d cs
        → leb_ℤ d.execution_offset_seconds now_secs ≡ true
        → dto_le d c ≡ true)
IsRunning cs now_secs c true =
    Memᴰ c cs
    × ((d : ScheduleCommandDto) → Memᴰ d cs → leb_ℤ d.execution_offset_seconds now_secs ≡ false)
    × ((d : ScheduleCommandDto) → Memᴰ d cs → dto_le d c ≡ true)

choose-IsRunning :
    (now_secs : ℤ) (x : ScheduleCommandDto) (xs : List ScheduleCommandDto)
    → Ordered (x ∷ xs)
    → IsRunning (x ∷ xs) now_secs (choose now_secs x xs).0 (choose now_secs x xs).1
unfolding choose chosen
choose-IsRunning now_secs x xs s =
    elim (rfind-cases (λ c. leb_ℤ c.execution_offset_seconds now_secs) (x ∷ xs) s) [
      | inl (c, e, (m, t, l)) ↦
          subst (λ p. IsRunning (x ∷ xs) now_secs p.0 p.1) (ap (chosen x xs) (sym e)) (m, t, l)
      | inr (e, none_passes) ↦
          let (m, t, l) = last_of-IsLatest x xs s in
          subst (λ p. IsRunning (x ∷ xs) now_secs p.0 p.1) (ap (chosen x xs) (sym e))
            (m, none_passes, λ d n. l d n refl)
    ]

-- The instant at which a command began: its offset after midnight of today, or, where it carries
-- over, of the day before, if there is one.
abbrev pub Began : ℕ → ScheduleCommandDto → Bool → ℤ → Type 0
Began today c false start = start ≡ pos (today * 86400) +ℤ c.execution_offset_seconds
Began today c true start = start ≡ pos ((today - 1) * 86400) +ℤ c.execution_offset_seconds

-- The ramp of the site, or two minutes where the site is not found.
abbrev pub IsRamp : Db → ℕ → ℤ → Type 0
IsRamp db site ramp =
    ((s : Site) × (find_site db site ≡ some s) × (ramp ≡ s.ramp_duration_seconds))
    ⊎ ((find_site db site ≡ none) × (ramp ≡ pos 120))

-- An answer that gives a command of the schedule.
pub record Gives (db : Db) (site today : ℕ) (c : ScheduleCommandDto) (carried_over : Bool)
    (a : ActiveScheduleCommand) : Type 0 where
  pub same_id : a.command_id ≡ c.id
  pub same_type : a.command_type ≡ c.command_type
  pub same_target : a.target_soc_percent ≡ c.target_soc_percent
  pub same_duration : a.duration_seconds ≡ c.duration_seconds
  pub ramp : IsRamp db site a.ramp_duration_seconds
  pub began : Began today c carried_over a.starts_at

ramp_of-IsRamp : (db : Db) (site : ℕ) → IsRamp db site (ramp_of db site)
unfolding ramp_of
ramp_of-IsRamp db site = elim (Option-cases (find_site db site)) [
  | inl e ↦ inr (e, rw e refl)
  | inr (s, e) ↦ inl (s, e, rw e refl)
]

active_of-Began :
    (db : Db) (site today : ℕ) (c : ScheduleCommandDto) (b : Bool)
    → Began today c b (active_of db site today (c, b)).starts_at
unfolding active_of pred_opt
active_of-Began db site today c false = refl
active_of-Began db site zero c true = refl
active_of-Began db site (suc today) c true =
    let e : today ≡ suc today - 1 = omega arith in
    ap (λ d. pos (d * 86400) +ℤ c.execution_offset_seconds) e

active_of-Gives :
    (db : Db) (site today : ℕ) (c : ScheduleCommandDto) (b : Bool)
    → Gives db site today c b (active_of db site today (c, b))
unfolding active_of
active_of-Gives db site today c b = record {
  same_id = refl;
  same_type = refl;
  same_target = refl;
  same_duration = refl;
  ramp = ramp_of-IsRamp db site;
  began = active_of-Began db site today c b;
}

-- What the answer says of a schedule's commands: with none it is no command; otherwise it gives a
-- running command.
pub IsAnswer : Db → ℕ → ℕ → ℤ → List ScheduleCommandDto → Option ActiveScheduleCommand → Type 0
IsAnswer db site today now_secs cs none = (d : ScheduleCommandDto) → ¬ Memᴰ d cs
IsAnswer db site today now_secs cs (some a) =
    (c : ScheduleCommandDto) × (carried_over : Bool) × IsRunning cs now_secs c carried_over
    × Gives db site today c carried_over a

active_in-IsAnswer :
    (db : Db) (site today : ℕ) (now_secs : ℤ) (cs : List ScheduleCommandDto)
    → Ordered cs
    → IsAnswer db site today now_secs cs (active_in db site today now_secs cs)
unfolding active_in IsAnswer
active_in-IsAnswer db site today now_secs [] s = λ d m. elim m [ ]
active_in-IsAnswer db site today now_secs (x ∷ xs) s =
    let (c, b) = choose now_secs x xs in
    (c, b, choose-IsRunning now_secs x xs s, active_of-Gives db site today c b)

IsRunning-mem :
    (cs ds : List ScheduleCommandDto) (now_secs : ℤ) (c : ScheduleCommandDto) (b : Bool)
    → ((d : ScheduleCommandDto) → Memᴰ d cs → Memᴰ d ds)
    → ((d : ScheduleCommandDto) → Memᴰ d ds → Memᴰ d cs)
    → IsRunning cs now_secs c b
    → IsRunning ds now_secs c b
IsRunning-mem cs ds now_secs c false f g (m, t, l) = (f c m, t, λ d n. l d (g d n))
IsRunning-mem cs ds now_secs c true f g (m, t, l) =
    (f c m, (λ d n. t d (g d n)), λ d n. l d (g d n))

IsAnswer-mem :
    (db : Db) (site today : ℕ) (now_secs : ℤ) (cs ds : List ScheduleCommandDto)
    (a : Option ActiveScheduleCommand)
    → ((d : ScheduleCommandDto) → Memᴰ d cs → Memᴰ d ds)
    → ((d : ScheduleCommandDto) → Memᴰ d ds → Memᴰ d cs)
    → IsAnswer db site today now_secs cs a
    → IsAnswer db site today now_secs ds a
unfolding IsAnswer
IsAnswer-mem db site today now_secs cs ds none f g h = λ d m. h d (g d m)
IsAnswer-mem db site today now_secs cs ds (some a) f g (c, b, r, e) =
    (c, b, IsRunning-mem cs ds now_secs c b f g r, e)

-- The active command that a viewer gets, where the site has an effective schedule: no command
-- exactly for a schedule without commands; otherwise the id, the type, the target and the duration
-- of the command of the schedule whose offset is the greatest not after the time of day, with that
-- offset after midnight of today as its start, or, where every offset is later, of the one with the
-- greatest offset, with its offset after midnight of the day before as its start (of today itself,
-- on the calendar's day 0). The command that carries over is that of the schedule of today, whatever
-- schedule the day before had. The ramp is that of the site, or 120 seconds for a site that is not
-- found.
pub get_site_active_command-IsAnswer :
    (c : Chrono) (q : Sqlite) (db : Db) (site today : ℕ) (now_secs : ℤ)
    (e : EffectiveScheduleResponse)
    → get_effective_schedule c q db site today ≡ ok e
    → (a : Option ActiveScheduleCommand) × (get_site_active_command c q db true site today now_secs
        ≡ command_is a)
      × IsAnswer db site today now_secs e.library_item.commands a
unfolding get_site_active_command
get_site_active_command-IsAnswer c q db site today now_secs e h =
    let cs = e.library_item.commands in
    (
      active_in db site today now_secs (sort_by dto_le cs),
      rw h refl,
      IsAnswer-mem db site today now_secs (sort_by dto_le cs) cs
          (active_in db site today now_secs (sort_by dto_le cs)) (λ d m. sort_by-mem dto_le cs d m)
          (λ d m. mem-sort_by dto_le cs d m)
          (active_in-IsAnswer db site today now_secs (sort_by dto_le cs)
            (sort_by-ordered dto_le cs dto_le-IsOrder)),
    )
