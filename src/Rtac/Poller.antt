-- ===== src/Rtac/Poller.antt =====
-- neems-data/src/rtac/schedule_http.rs: the poll of neems-api for the active command. What the HTTP
-- client answers at a tick is an argument; an instant is of an abstract type.
pub mod Cached
use Prim.Native.String.{String}
use mathlib.Core.Option
use neems_core.Rtac.Protocol.{CommandType}
use neems_core.Rtac.Control.{ScheduledCommand}
use neems_core.Prelude.Texts.{same_text}
use neems_core.Prelude.{
  ℕ, Bool, not, Option, none, some, List, [], map, ltb, leb, ◌&&◌, ◌||◌, ◌∷◌, ◌==◌, if◌then◌else◌,
}
use neems_core.Prelude.Int.{ℤ}

pub record ApiClientConfig : Type 0 where
  pub email : String
  pub password : String

-- `has_credentials`
unfoldable pub has_credentials : ApiClientConfig → Bool
has_credentials c = not (same_text c.email "") && not (same_text c.password "")

pub record WireCommand (T : Type 0) : Type 0 where
  pub command_id : ℤ
  pub command_type : String
  pub target_soc_percent : Option ℤ
  pub duration_seconds : Option ℤ
  pub ramp_duration_seconds : ℤ
  pub starts_at : T

-- The command type that a wire name stands for.
unfoldable pub wire_type : String → Option CommandType
wire_type s =
    if same_text s "charge"
    then some CommandType.charge
    else if same_text s "discharge"
    then some CommandType.discharge
    else if same_text s "trickle_charge"
    then some CommandType.trickle_charge
    else none

module _ {T : Type 0} where
  -- `into_scheduled`
  unfoldable pub into_scheduled : WireCommand T → Option (ScheduledCommand T)
  unfolding wire_type
  into_scheduled w =
      Option.map
        (λ t. record {
          id = w.command_id;
          command_type = t;
          starts_at = w.starts_at;
          ends_at = none;
          duration_seconds = w.duration_seconds;
          target_soc_percent = w.target_soc_percent;
          ramp_duration_seconds = some w.ramp_duration_seconds;
        })
        (wire_type w.command_type)

-- The answer to a request: its status, and what its body reads as, none where it does not parse.
pub data Response (B : Type 0) : Type 0 where
  request_failed : Response B
  responded : ℕ → Option B → Response B

abbrev pub is_success : ℕ → Bool
is_success status = leb 200 status && ltb status 300

-- The answers at a tick: to the login, whose body is the session cookie, and to the fetch with a
-- session token.
pub record Tick (T : Type 0) : Type 0 where
  pub login_answer : Response String
  pub fetch_answer : String → Response (Option (WireCommand T))

-- `login`
unfoldable pub login : {T : Type 0} → Tick T → Option String
login tick = elim tick.login_answer [
  | request_failed ↦ none
  | responded status cookie ↦ if is_success status then cookie else none
]

-- The result of `fetch_active_command`.
pub data Fetched (T : Type 0) : Type 0 where
  active : Option (ScheduledCommand T) → Fetched T
  not_authorized transient : Fetched T

unfoldable pub read_body : {T : Type 0} → Option (Option (WireCommand T)) → Fetched T
unfolding into_scheduled
read_body none = transient
read_body (some none) = active none
read_body (some (some w)) = active (into_scheduled w)

unfoldable pub read_answer : {T : Type 0} → Response (Option (WireCommand T)) → Fetched T
unfolding read_body
read_answer request_failed = transient
read_answer (responded status body) =
    if (status == 401) || (status == 403)
    then not_authorized
    else if not (is_success status)
    then transient
    else read_body body

unfoldable pub fetch_active_command : {T : Type 0} → Tick T → String → Fetched T
unfolding read_answer
fetch_active_command tick token = read_answer (tick.fetch_answer token)

pub record Poller (T : Type 0) : Type 0 where
  pub session : Option String
  pub cache : Option (ScheduledCommand T)

-- What the loop does with the result of the fetch.
unfoldable pub take_result : {T : Type 0} → Poller T → Fetched T → Poller T
take_result p (active command) = record p { cache = command }
take_result p not_authorized = record p { session = none }
take_result p transient = p

-- The token of a tick, from the session or a login.
unfoldable pub token_of : {T : Type 0} → Poller T → Tick T → Option String
unfolding login
token_of p tick = elim p.session [ some t ↦ some t | none ↦ login tick ]

-- A tick with the token it has got, or without one.
unfoldable pub poll_with : {T : Type 0} → Poller T → Tick T → Option String → Poller T
unfolding fetch_active_command take_result
poll_with p tick none = p
poll_with p tick (some token) =
    take_result (record p { session = some token }) (fetch_active_command tick token)

unfoldable pub poll : {T : Type 0} → Poller T → Tick T → Poller T
unfolding token_of poll_with
poll p tick = poll_with p tick (token_of p tick)

-- The loop over the ticks.
unfoldable pub poll_all : {T : Type 0} → Poller T → List (Tick T) → Poller T
unfolding poll
poll_all p [] = p
poll_all p (tick ∷ ticks) = poll_all (poll p tick) ticks

-- `run_active_command_poller`, with an HTTP client that could be built
unfoldable pub run_active_command_poller :
    {T : Type 0} → ApiClientConfig → Option (ScheduledCommand T) → List (Tick T) → Poller T
unfolding has_credentials poll_all
run_active_command_poller config cache ticks =
    let start : Poller _ = record { session = none; cache = cache } in
    if has_credentials config then poll_all start ticks else start
