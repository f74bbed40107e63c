-- ===== src/Rtac/Poller/Cached.antt =====
-- neems-data/src/rtac/schedule_http.rs: what the cache of the poller holds, and when it logs in.
use Prim.Native.String.{String}
use neems_core.Prelude.Collect.{◌>>=◌}
use neems_core.Rtac.Poller.{
  Fetched, Poller, not_authorized, poll, poll_all, poll_with, read_answer, take_result, token_of,
  transient, Response, Tick, WireCommand, fetch_active_command, into_scheduled, is_success,
  read_body, request_failed, responded,
}
use neems_core.Rtac.Control.{ScheduledCommand}
use mathlib.Core.List.{Memᴰ}
use mathlib.Core.Path.{subst}
use neems_core.Prelude.{
  ℕ, refl, sym, ap, inl, inr, true, false, Option, none, some, List, [], Bool-cases, ◌≡◌, ◌∙◌, ◌≢◌,
  ◌⊎◌, ◌||◌, ◌∷◌, ◌==◌,
}

-- neems-api answered a tick with success, and its body reads as this command, or as none.
pub record Answered {T : Type 0} (tick : Tick T) (cache : Option (ScheduledCommand T))
    : Type 0 where
  pub token : String
  pub status : ℕ
  pub body : Option (WireCommand T)
  pub answer : tick.fetch_answer token ≡ responded status (some body)
  pub success : is_success status ≡ true
  pub reads : cache ≡ (body >>= into_scheduled)

module _ {T : Type 0} where
  read_body-active :
      (body : Option (Option (WireCommand T))) (cache : Option (ScheduledCommand T))
      → read_body body ≡ Fetched.active cache
      → (b : Option (WireCommand T)) × (body ≡ some b) × (cache ≡ (b >>= into_scheduled))
  unfolding read_body
  read_body-active none cache h = absurd (cc h)
  read_body-active (some none) cache h = (none, refl, cc h)
  read_body-active (some (some w)) cache h = (some w, refl, cc h)

  -- A fetch gives a command, or none, only where neems-api answered so.
  read_answer-active :
      (r : Response (Option (WireCommand T))) (cache : Option (ScheduledCommand T))
      → read_answer r ≡ Fetched.active cache
      → (status : ℕ) × (b : Option (WireCommand T)) × (r ≡ responded status (some b))
        × (is_success status ≡ true)
        × (cache ≡ (b >>= into_scheduled))
  unfolding read_answer
  read_answer-active request_failed cache h = absurd (cc h)
  read_answer-active (responded status body) cache h =
      by_tests (Bool-cases ((status == 401) || (status == 403))) (Bool-cases (is_success status))
    where
      by_tests :
          ((((status == 401) || (status == 403)) ≡ true)
            ⊎ (((status == 401) || (status == 403)) ≡ false))
          → ((is_success status ≡ true) ⊎ (is_success status ≡ false))
          → (s : ℕ) × (b : Option (WireCommand T)) × (responded status body ≡ responded s (some b))
            × (is_success s ≡ true)
            × (cache ≡ (b >>= into_scheduled))
      by_tests (inl e) u = absurd (cc (rw e at h))
      by_tests (inr e) (inr f) = absurd (cc (rw (e, f) at h))
      by_tests (inr e) (inl t) =
          let (b, k, r) = read_body-active body cache (rw (e, t) at h) in
          (status, b, ap (responded status) k, t, r)

  poll_with-cache :
      (p : Poller T) (tick : Tick T) (o : Option String)
      → ((poll_with p tick o).cache ≡ p.cache) ⊎ Answered tick (poll_with p tick o).cache
  unfolding poll_with take_result fetch_active_command
  poll_with-cache p tick none = inl refl
  poll_with-cache p tick (some token) = by_result (fetch_active_command tick token) refl
    where
      by_result :
          (f : Fetched T)
          → fetch_active_command tick token ≡ f
          → ((take_result (record p { session = some token }) f).cache ≡ p.cache)
            ⊎ Answered tick (take_result (record p { session = some token }) f).cache
      by_result (Fetched.active command) e =
          let (status, b, a, t, r) = read_answer-active (tick.fetch_answer token) command e in
          inr (record {
            token = token;
            status = status;
            body = b;
            answer = a;
            success = t;
            reads = r;
          })
      by_result not_authorized e = inl refl
      by_result transient e = inl refl

  -- A command is only ever what neems-api answered at one of the ticks: the cache is as it was at
  -- the start, or holds what the body of a successful answer reads as.
  pub poll_all-cache :
      (p : Poller T) (ticks : List (Tick T))
      → ((poll_all p ticks).cache ≡ p.cache)
        ⊎ ((tick : Tick T) × Memᴰ tick ticks × Answered tick (poll_all p ticks).cache)
  unfolding poll_all poll
  poll_all-cache p [] = inl refl
  poll_all-cache p (tick ∷ ticks) = elim (poll_all-cache (poll p tick) ticks) [
    | inl e ↦ elim (poll_with-cache p tick (token_of p tick)) [
      | inl k ↦ inl (e ∙ k)
      | inr a ↦ inr (tick, Memᴰ.head refl, subst (Answered tick) (sym e) a)
    ]
    | inr (t, m, a) ↦ inr (t, Memᴰ.tail m, a)
  ]

  -- At a tick that has a token, of the session or of a login, the session ends exactly where
  -- the fetch is not authorized; otherwise the token is kept for the next tick.
  pub poll-session :
      (p : Poller T) (tick : Tick T) (token : String)
      → token_of p tick ≡ some token
      → (((poll p tick).session ≡ none) × (fetch_active_command tick token ≡ not_authorized))
        ⊎ (((poll p tick).session ≡ some token)
            × (fetch_active_command tick token ≢ not_authorized))
  unfolding poll poll_with take_result
  poll-session p tick token h = rw h (by_result (fetch_active_command tick token))
    where
      by_result :
          (f : Fetched T)
          → (((take_result (record p { session = some token }) f).session ≡ none)
              × (f ≡ not_authorized))
            ⊎ (((take_result (record p { session = some token }) f).session ≡ some token)
                × (f ≢ not_authorized))
      by_result (Fetched.active command) = inr (refl, λ e. cc e)
      by_result not_authorized = inl (refl, refl)
      by_result transient = inr (refl, λ e. cc e)
