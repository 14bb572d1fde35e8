-- ===== src/Reservations.antt =====
-- libs/core/src/runtime/delivery-reservations.ts: the registry of uncommitted reservations. Ids
-- come from `ulid()`, an argument here; the clock is read once for each call. `expires_at` is
-- computed by `add`, so a plan is registered together with its lifetime.
pub mod Leases
use agent_monitors.Prelude.{
  ℕ, ◌+◌, Bool, true, false, Option, none, some, List, [], ◌∷◌, ◌++◌, map, Text, text_eq, get, put,
  delete, leb, if◌then◌else◌,
}
use agent_monitors.Event.{MonitorEvent}

abbrev pub default_delivery_reservation_ttl_ms : ℕ
default_delivery_reservation_ttl_ms = 30_000

-- The plan of a reservation, over the type of the rendered claim.
pub record Plan (Claim : Type 0) : Type 0 where
  pub session_id : Text
  pub candidates : List MonitorEvent
  pub is_recap : Bool
  pub claim : Claim
  pub expires_at : ℕ

abbrev pub event_ids : List MonitorEvent → List Text
event_ids = map (λ e. e.id)

abbrev pub Registry : Type 0 → Type 0
Registry Claim = List (Text × Plan Claim)

module _ {Claim : Type 0} where
  unfoldable pub add : ℕ → ℕ → Text → Plan Claim → Registry Claim → Registry Claim
  add ttl now id plan m = put id (record plan { expires_at = now + ttl }) m

  -- An expired plan is not returned.
  abbrev pub unexpired : ℕ → Option (Plan Claim) → Option (Plan Claim)
  unexpired now none = none
  unexpired now (some plan) = if leb plan.expires_at now then none else some plan

  unfoldable pub take_plan : ℕ → Text → Registry Claim → Option (Plan Claim) × Registry Claim
  take_plan now id m = (unexpired now (get id m), delete id m)

  unfoldable pub remove : Text → Registry Claim → Option (Plan Claim) × Registry Claim
  remove id m = (get id m, delete id m)

  -- The ids leased for a session, and the registry without the expired plans.
  unfoldable pub reserved_event_ids : ℕ → Text → Registry Claim → List Text × Registry Claim
  reserved_event_ids now session [] = ([], [])
  reserved_event_ids now session ((id, plan) ∷ m) =
      let rest = reserved_event_ids now session m in
      if leb plan.expires_at now then rest else (
        if text_eq plan.session_id session then event_ids plan.candidates ++ rest.0 else rest.0,
        (id, plan) ∷ rest.1,
      )
