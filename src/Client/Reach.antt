-- ===== src/Client/Reach.antt =====
-- When the client reaches the daemon, and on which bus.
use digital_wellbeing.Common.{
  ◌≡◌, refl, Bool, true, false, ◌&&◌, ◌||◌, Option, none, some, is_some, List, [], ◌∷◌, ◌⊎◌, inl,
  inr, Bool-cases, Option-cases, arith,
}
use digital_wellbeing.Client.{
  BusType, ConnectionStatus, Buses, select_daemon_bus, from_scratch, create_proxy, re_resolve,
}

-- A bus that does not have the daemon can start it, and the daemon then owns its name.
abbrev pub can_start : {Proxy : Type 0} → Buses Proxy → BusType → Bool
can_start buses b = buses.starts b && buses.owner_then b

-- The daemon is there: it owns its name on a bus, or a bus can start it.
abbrev pub is_there : {Proxy : Type 0} → Buses Proxy → Bool
is_there buses =
    (buses.has_owner BusType.system || buses.has_owner BusType.session)
    || (can_start buses BusType.system || can_start buses BusType.session)

-- The bus to take: one where the daemon is, and only if it is on neither one that starts it; the
-- system bus before the session bus.
abbrev pub IsBest : {Proxy : Type 0} → Buses Proxy → BusType → Type 0
IsBest buses BusType.system =
    (buses.has_owner BusType.system ≡ true)
    ⊎ (((b : BusType) → buses.has_owner b ≡ false) × (can_start buses BusType.system ≡ true))
IsBest buses BusType.session =
    (buses.has_owner BusType.system ≡ false)
    × ((buses.has_owner BusType.session ≡ true)
        ⊎ ((buses.has_owner BusType.session ≡ false)
            × (can_start buses BusType.system ≡ false)
            × (can_start buses BusType.session ≡ true)))

-- The attempts to get a proxy, in their order, each with the status that it leaves: on the bus of the
-- connection, on the opposite one, and on the bus that was found anew.
abbrev pub opposite : BusType → BusType
opposite BusType.system = BusType.session
opposite BusType.session = BusType.system

abbrev pub attempts :
    {Proxy : Type 0}
    → Buses Proxy
    → ConnectionStatus
    → BusType
    → List (Option Proxy × ConnectionStatus)
attempts buses ConnectionStatus.disconnected best =
    (buses.selected_proxy best, ConnectionStatus.connected best) ∷ []
attempts buses (ConnectionStatus.connected b) best =
    (buses.daemon_proxy b, ConnectionStatus.connected b)
    ∷ (buses.daemon_proxy (opposite b), ConnectionStatus.connected b)
    ∷ (buses.selected_proxy best, ConnectionStatus.connected best)
    ∷ []

-- The first attempt that gave a proxy.
abbrev pub first_proxy :
    {Proxy : Type 0}
    → ConnectionStatus
    → List (Option Proxy × ConnectionStatus)
    → Option Proxy × ConnectionStatus
first_proxy before [] = (none, before)
first_proxy before ((some proxy, status) ∷ rest) = (some proxy, status)
first_proxy before ((none, status) ∷ rest) = first_proxy before rest

module _ {Proxy : Type 0} (buses : Buses Proxy) where
  neither :
      buses.has_owner BusType.system ≡ false
      → buses.has_owner BusType.session ≡ false
      → (b : BusType) → buses.has_owner b ≡ false
  neither h h' BusType.system = h
  neither h h' BusType.session = h'

  select-IsBest :
      is_there buses ≡ true
      → (best : BusType) × (select_daemon_bus buses ≡ some best) × IsBest buses best
  unfolding select_daemon_bus
  select-IsBest there = elim (Bool-cases (buses.has_owner BusType.system)) [
    | inl here ↦ (BusType.system, rw here refl, inl here)
    | inr not_here ↦ elim (Bool-cases (buses.has_owner BusType.session)) [
      | inl here ↦ (BusType.session, rw (not_here, here) refl, (not_here, inl here))
      | inr nowhere ↦ elim (Bool-cases (can_start buses BusType.system)) [
        | inl starts ↦ (
          BusType.system,
          rw (not_here, nowhere, starts) refl,
          inr (neither not_here nowhere, starts),
        )
        | inr stays ↦
            let starts : can_start buses BusType.session ≡ true = ground arith in
            (
              BusType.session,
              rw (not_here, nowhere, stays, starts) refl,
              (not_here, inr (nowhere, stays, starts)),
            )
      ]
    ]
  ]

  from_scratch-first :
      (status : ConnectionStatus) (best : BusType)
      → select_daemon_bus buses ≡ some best
      → from_scratch buses status
        ≡ first_proxy status ((buses.selected_proxy best, ConnectionStatus.connected best) ∷ [])
  unfolding from_scratch
  from_scratch-first status best found = elim (Option-cases (buses.selected_proxy best)) [
    | inl failed ↦ rw (from_scratch, found, failed) refl
    | inr (proxy, made) ↦ rw (from_scratch, found, made) refl
  ]

  create_proxy-first :
      (status : ConnectionStatus) (best : BusType)
      → select_daemon_bus buses ≡ some best
      → create_proxy buses status ≡ first_proxy status (attempts buses status best)
  unfolding create_proxy
  create_proxy-first ConnectionStatus.disconnected best found =
      from_scratch-first ConnectionStatus.disconnected best found
  create_proxy-first (ConnectionStatus.connected BusType.system) best found =
      elim (Option-cases (buses.daemon_proxy BusType.system)) [
        | inr (proxy, made) ↦ rw (create_proxy, made) refl
        | inl failed ↦ elim (Option-cases (buses.daemon_proxy BusType.session)) [
          | inr (proxy, made) ↦ rw (create_proxy, failed, made) refl
          | inl both ↦
              rw (create_proxy, failed, both)
                (from_scratch-first (ConnectionStatus.connected BusType.system) best found)
        ]
      ]
  create_proxy-first (ConnectionStatus.connected BusType.session) best found =
      elim (Option-cases (buses.daemon_proxy BusType.session)) [
        | inr (proxy, made) ↦ rw (create_proxy, made) refl
        | inl failed ↦ elim (Option-cases (buses.daemon_proxy BusType.system)) [
          | inr (proxy, made) ↦ rw (create_proxy, failed, made) refl
          | inl both ↦
              rw (create_proxy, failed, both)
                (from_scratch-first (ConnectionStatus.connected BusType.session) best found)
        ]
      ]

  first_proxy-some :
      (before : ConnectionStatus) (o : Option Proxy) (status : ConnectionStatus)
      (rest : List (Option Proxy × ConnectionStatus))
      → is_some (first_proxy before rest).0 ≡ true
      → is_some (first_proxy before ((o, status) ∷ rest)).0 ≡ true
  first_proxy-some before none status rest h = h
  first_proxy-some before (some proxy) status rest h = refl

  last_some :
      (before : ConnectionStatus) (o : Option Proxy) (status : ConnectionStatus)
      → is_some o ≡ true
      → is_some (first_proxy before ((o, status) ∷ [])).0 ≡ true
  last_some before none status made = absurd (ground arith)
  last_some before (some proxy) status made = refl

  attempts-some :
      (status : ConnectionStatus) (best : BusType)
      → is_some (buses.selected_proxy best) ≡ true
      → is_some (first_proxy status (attempts buses status best)).0 ≡ true
  attempts-some ConnectionStatus.disconnected best made =
      last_some ConnectionStatus.disconnected (buses.selected_proxy best)
        (ConnectionStatus.connected best) made
  attempts-some (ConnectionStatus.connected b) best made =
      let status = ConnectionStatus.connected b in
      first_proxy-some status (buses.daemon_proxy b) status _ (
        first_proxy-some status (buses.daemon_proxy (opposite b)) status _
          (last_some status (buses.selected_proxy best) (ConnectionStatus.connected best) made))

  -- If the daemon owns its name on a bus or a bus can start it, and the bus found anew gives a proxy,
  -- the client gets a proxy whatever its connection status was: the first that it gets from the bus
  -- of its connection, from the opposite one, or from the best bus, which is the one where the
  -- daemon is before one that starts it and the system bus before the session bus. The status stays
  -- in the first two cases and is the best bus in the last. Looking for the daemon again finds the
  -- same best bus and connects to it.
  pub create_proxy-reaches :
      (status : ConnectionStatus)
      → is_there buses ≡ true
      → ((b : BusType) → is_some (buses.selected_proxy b) ≡ true)
      → (best : BusType) × IsBest buses best
        × (create_proxy buses status ≡ first_proxy status (attempts buses status best))
        × (is_some (create_proxy buses status).0 ≡ true)
        × (re_resolve buses ≡ (true, ConnectionStatus.connected best))
  unfolding re_resolve
  create_proxy-reaches status there proxies =
      let (best, found, is_best) = select-IsBest there in
      let first = create_proxy-first status best found in
      (
        best,
        is_best,
        first,
        rw first (attempts-some status best (proxies best)),
        rw (re_resolve, found) refl,
      )
