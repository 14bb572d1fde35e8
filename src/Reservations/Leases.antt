-- ===== src/Reservations/Leases.antt =====
-- What is leased after an operation on the registry.
use agent_monitors.Prelude.{
  ℕ, ◌≤◌, ◌<◌, ◌≡◌, refl, Bool, ◌&&◌, ◌||◌, not, none, some, List, [], ◌∷◌, Text, text_eq,
  text_eq_refl, includes, any-append, get, put, delete, arith, leb,
}
use agent_monitors.Reservations.{Plan, Registry, event_ids, reserved_event_ids}

module _ {Claim : Type 0} where
  abbrev pub leased : ℕ → Text → Registry Claim → List Text
  leased now session m = (reserved_event_ids now session m).0

  abbrev pub pruned : ℕ → Text → Registry Claim → Registry Claim
  pruned now session m = (reserved_event_ids now session m).1

  -- The ids that one plan leases to a session.
  abbrev pub leases : ℕ → Text → Plan Claim → Text → Bool
  leases now session p k =
      not (leb p.expires_at now)
      && (text_eq p.session_id session && includes (event_ids p.candidates) k)

  leased-cons :
      (now : ℕ) (session id k : Text) (p : Plan Claim) (m : Registry Claim)
      → includes (leased now session ((id, p) ∷ m)) k
        ≡ (leases now session p k || includes (leased now session m) k)
  unfolding reserved_event_ids
  leased-cons now session id k p m =
      ground (arith, any-append (λ j. text_eq j k) (event_ids p.candidates) (leased now session m))

  -- A new reservation adds its own ids to what is leased.
  pub leased-put :
      (now : ℕ) (session id k : Text) (p : Plan Claim) (m : Registry Claim)
      → get id m ≡ none
      → includes (leased now session (put id p m)) k
        ≡ (includes (leased now session m) k || leases now session p k)
  unfolding put get
  leased-put now session id k p [] h = ground (arith, leased-cons now session id k p [])
  leased-put now session id k p ((j, q) ∷ m) h = ground (
    arith,
    leased-cons now session j k q (put id p m),
    leased-cons now session j k q m,
    leased-put now session id k p m,
  )

  -- Reading the registry changes nothing that a later read leases.
  pub leased-pruned :
      (now later : ℕ) (session other : Text) (m : Registry Claim)
      → now ≤ later
      → leased later other (pruned now session m) ≡ leased later other m
  unfolding reserved_event_ids
  leased-pruned now later session other [] h = refl
  leased-pruned now later session other ((j, q) ∷ m) h =
      ground (arith, leased-pruned now later session other m h)

  -- A live plan survives the reading.
  pub get-pruned :
      (now : ℕ) (session id : Text) (p : Plan Claim) (m : Registry Claim)
      → get id m ≡ some p
      → now < p.expires_at
      → get id (pruned now session m) ≡ some p
  unfolding reserved_event_ids get
  get-pruned now session id p [] e h = cc
  get-pruned now session id p ((j, q) ∷ m) e h = ground (arith, get-pruned now session id p m)

  pub get-pruned-none :
      (now : ℕ) (session id : Text) (m : Registry Claim)
      → get id m ≡ none
      → get id (pruned now session m) ≡ none
  unfolding reserved_event_ids get
  get-pruned-none now session id [] e = refl
  get-pruned-none now session id ((j, q) ∷ m) e = ground (arith, get-pruned-none now session id m)

  delete_missing : (id : Text) (m : Registry Claim) → get id m ≡ none → delete id m ≡ m
  unfolding get delete
  delete_missing id [] e = refl
  delete_missing id ((j, q) ∷ m) e = ground (arith, delete_missing id m)

  -- Deleting a fresh entry gives the registry back.
  pub delete-put :
      (id : Text) (p : Plan Claim) (m : Registry Claim)
      → get id m ≡ none
      → delete id (put id p m) ≡ m
  unfolding get put delete
  delete-put id p [] e = ground (arith, text_eq_refl id)
  delete-put id p ((j, q) ∷ m) e = ground (arith, delete-put id p m)

  -- Deleting and reading commute.
  pub delete-pruned :
      (now : ℕ) (session id : Text) (m : Registry Claim)
      → delete id (pruned now session m) ≡ pruned now session (delete id m)
  unfolding reserved_event_ids delete
  delete-pruned now session id [] = refl
  delete-pruned now session id ((j, q) ∷ m) = ground (arith, delete-pruned now session id m)
