-- ===== src/Rtac/Client/Reconnect.antt =====
-- What the reconnect loop does, and what it never does again.
use neems_core.Rtac.Client.{
  connect_timeout, refused, accepted, connect, ConnectOutcome, ModbusClient, ModbusError, give_up,
  is_connected, reconnect, reconnect_failed, reconnect_loop,
}
use neems_core.Rtac.State.{reconnecting, is_connected_status}
use mathlib.Core.Path.{subst}
use neems_core.Prelude.{
  ℕ, zero, suc, refl, inl, inr, true, false, Option, none, some, arith, ==_iff, Bool-cases, ◌+◌,
  ◌-◌, ◌≤◌, ◌<◌, ◌≡◌, ◌≢◌, ◌⊎◌, ◌==◌,
}

-- No connection is held and every attempt is used up.
pub record IsSpent (c : ModbusClient) : Type 0 where
  pub no_context : c.context ≡ false
  pub not_connected_status : is_connected_status c.connection_status ≡ false
  pub used_up : c.max_reconnect_attempts ≤ c.reconnect_attempts

-- Some attempt is accepted, the first such being `k`: the client then holds a connection and has
-- all its attempts again.
pub record Reconnected (net : ℕ → ConnectOutcome) (used budget : ℕ)
    (r : ModbusClient × Option ModbusError) : Type 0 where
  pub attempt : ℕ
  pub in_budget : (used < attempt) × (attempt ≤ budget)
  pub accepts : net attempt ≡ accepted
  pub first : (j : ℕ) → used < j → j < attempt → net j ≢ accepted
  pub no_error : r.1 ≡ none
  pub now_connected : is_connected r.0 ≡ true
  pub reset : r.0.reconnect_attempts ≡ 0

-- No attempt in the budget is accepted: the client is spent.
pub record GaveUp (net : ℕ → ConnectOutcome) (used budget : ℕ)
    (r : ModbusClient × Option ModbusError) : Type 0 where
  pub all_refused : (j : ℕ) → used < j → j ≤ budget → net j ≢ accepted
  pub gives_error : r.1 ≡ some reconnect_failed
  pub spent : IsSpent r.0

after_attempt : (ℕ → ConnectOutcome) → ModbusClient → ModbusClient
after_attempt net c =
    (connect (net (c.reconnect_attempts + 1))
      (record c { reconnect_attempts = c.reconnect_attempts + 1; context = false })).0

loop_accepted :
    (fuel : ℕ) (net : ℕ → ConnectOutcome) (c : ModbusClient)
    → c.reconnect_attempts < c.max_reconnect_attempts
    → net (c.reconnect_attempts + 1) ≡ accepted
    → Reconnected net c.reconnect_attempts c.max_reconnect_attempts
        (reconnect_loop (suc fuel) net c)
unfolding reconnect_loop is_connected
loop_accepted fuel net c left e = record {
  attempt = c.reconnect_attempts + 1;
  in_budget = (omega arith, omega arith);
  accepts = e;
  first = λ j a b. absurd (omega arith);
  no_error = ground arith;
  now_connected = ground arith;
  reset = ground arith;
}

loop_refused :
    (fuel : ℕ) (net : ℕ → ConnectOutcome) (c : ModbusClient)
    → c.reconnect_attempts < c.max_reconnect_attempts
    → net (c.reconnect_attempts + 1) ≢ accepted
    → (reconnect_loop (suc fuel) net c ≡ reconnect_loop fuel net (after_attempt net c))
      × ((after_attempt net c).reconnect_attempts ≡ c.reconnect_attempts + 1)
      × ((after_attempt net c).max_reconnect_attempts ≡ c.max_reconnect_attempts)
      × ((after_attempt net c).context ≡ false)
unfolding reconnect_loop after_attempt
loop_refused fuel net c left e = (ground arith, ground arith, ground arith, ground arith)

-- The state in which the loop is entered: attempts are left, or the connection is dropped already.
abbrev pub CanDrop : ModbusClient → Type 0
CanDrop c = (c.context ≡ false) ⊎ (c.reconnect_attempts < c.max_reconnect_attempts)

loop_spent :
    (net : ℕ → ConnectOutcome) (c : ModbusClient)
    → c.max_reconnect_attempts ≤ c.reconnect_attempts
    → c.context ≡ false
    → GaveUp net c.reconnect_attempts c.max_reconnect_attempts (reconnect_loop zero net c)
unfolding reconnect_loop give_up is_connected_status
loop_spent net c none_left dropped = record {
  all_refused = λ j a b. absurd (omega arith);
  gives_error = refl;
  spent = record { no_context = dropped; not_connected_status = refl; used_up = none_left };
}

accepted_or_not : (o : ConnectOutcome) → (o ≡ accepted) ⊎ (o ≢ accepted)
accepted_or_not accepted = inl refl
accepted_or_not refused = inr (λ e. cc)
accepted_or_not connect_timeout = inr (λ e. cc)

-- Moves an outcome of the later rounds back over one refused attempt.
earlier_Reconnected :
    (net : ℕ → ConnectOutcome) (used budget : ℕ) (r : ModbusClient × Option ModbusError)
    → net (used + 1) ≢ accepted
    → Reconnected net (used + 1) budget r
    → Reconnected net used budget r
earlier_Reconnected net used budget r refusal o = record {
  attempt = o.attempt;
  in_budget = (omega (arith, o.in_budget), omega (arith, o.in_budget));
  accepts = o.accepts;
  first = λ j a b. elim (Bool-cases (j == used + 1)) [
    | inl here ↦ rw ((==_iff j (used + 1)).0 here) refusal
    | inr later ↦ o.first j (ground arith) b
  ];
  no_error = o.no_error;
  now_connected = o.now_connected;
  reset = o.reset;
}

earlier_GaveUp :
    (net : ℕ → ConnectOutcome) (used budget : ℕ) (r : ModbusClient × Option ModbusError)
    → net (used + 1) ≢ accepted
    → GaveUp net (used + 1) budget r
    → GaveUp net used budget r
earlier_GaveUp net used budget r refusal o = record {
  all_refused = λ j a b. elim (Bool-cases (j == used + 1)) [
    | inl here ↦ rw ((==_iff j (used + 1)).0 here) refusal
    | inr later ↦ o.all_refused j (ground arith) (omega arith)
  ];
  gives_error = o.gives_error;
  spent = o.spent;
}

-- The claim at a number of attempts and a budget, of the result of the loop.
abbrev Outcome : (ℕ → ConnectOutcome) → ℕ → ℕ → ModbusClient × Option ModbusError → Type 0
Outcome net used budget r = Reconnected net used budget r ⊎ GaveUp net used budget r

earlier_Outcome :
    (net : ℕ → ConnectOutcome) (used budget : ℕ) (r : ModbusClient × Option ModbusError)
    → net (used + 1) ≢ accepted
    → Outcome net (used + 1) budget r
    → Outcome net used budget r
earlier_Outcome net used budget r refusal (inl o) =
    inl (earlier_Reconnected net used budget r refusal o)
earlier_Outcome net used budget r refusal (inr o) = inr (earlier_GaveUp net used budget r refusal o)

loop_outcome :
    (fuel : ℕ) (net : ℕ → ConnectOutcome) (c : ModbusClient)
    → c.max_reconnect_attempts - c.reconnect_attempts ≡ fuel
    → CanDrop c
    → Outcome net c.reconnect_attempts c.max_reconnect_attempts (reconnect_loop fuel net c)
loop_outcome zero net c f (inl dropped) = inr (loop_spent net c (omega arith) dropped)
loop_outcome zero net c f (inr left) = absurd (omega arith)
loop_outcome (suc fuel) net c f d = elim (accepted_or_not (net (c.reconnect_attempts + 1))) [
  | inl yes' ↦ inl (loop_accepted fuel net c (omega arith) yes')
  | inr no' ↦
      let (e, one, same, dropped) = loop_refused fuel net c (omega arith) no' in
      let later = loop_outcome fuel net (after_attempt net c) (omega arith) (inl dropped) in
      let r = reconnect_loop fuel net (after_attempt net c) in
      let moved =
        subst (λ b. Outcome net (c.reconnect_attempts + 1) b r) same
          (subst (λ u. Outcome net u (after_attempt net c).max_reconnect_attempts r) one later) in
      rw e (earlier_Outcome net c.reconnect_attempts c.max_reconnect_attempts r no' moved)
]

-- From a client that has attempts left, or that holds no connection, `reconnect` ends in one of two
-- ways: it stops at the first accepted attempt in the budget, connected and with all its attempts
-- again, or every attempt in the budget was refused, it reports that, and the client is spent.
pub reconnect_outcome :
    (net : ℕ → ConnectOutcome) (c : ModbusClient)
    → CanDrop c
    → Reconnected net c.reconnect_attempts c.max_reconnect_attempts (reconnect net c)
      ⊎ GaveUp net c.reconnect_attempts c.max_reconnect_attempts (reconnect net c)
unfolding reconnect
reconnect_outcome net c d =
    loop_outcome (c.max_reconnect_attempts - c.reconnect_attempts) net
      (record c { connection_status = reconnecting }) refl d

-- Once the attempts are used up, `reconnect` fails at once, whatever the network would answer, and
-- leaves the client as spent as it was.
pub reconnect-IsSpent :
    (net : ℕ → ConnectOutcome) (c : ModbusClient)
    → IsSpent c
    → ((reconnect net c).1 ≡ some reconnect_failed) × IsSpent (reconnect net c).0
unfolding reconnect reconnect_loop give_up is_connected_status
reconnect-IsSpent net c h =
    let none_left : c.max_reconnect_attempts - c.reconnect_attempts ≡ 0 =
      omega (arith, h.used_up) in
    rw none_left (ground arith)
