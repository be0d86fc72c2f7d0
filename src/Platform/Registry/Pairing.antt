-- ===== src/Platform/Registry/Pairing.antt =====
-- The plugin registry's two maps stay inverse to one another.
use digital_wellbeing.Common.{
  ◌≡◌, refl, ◌==◌, if◌then◌else◌, Option, none, some, List, arith, inl, inr, subst, false,
  Option-cases, Bool-cases,
}
use digital_wellbeing.Common.Eq.{nat_eq, string_eq}
use digital_wellbeing.Common.Map.{get, remove, get-remove}
use digital_wellbeing.Platform.Registry.{
  new, PluginInstanceId, ManagerClient, PluginRegistry, drop_replaced, register, unregister,
  unregister_by_uid, focus_proxy_for_uid,
}
use digital_wellbeing.Values.Blocked.{Uid}

-- The two maps are inverse to one another: a user's instance is registered for that user, and an
-- instance is the one that its user's entry names.
pub record IsPaired {Proxy : Type 0} (r : PluginRegistry Proxy) : Type 0 where
  pub forth :
      (uid : Uid) (id : PluginInstanceId)
      → get nat_eq uid r.by_uid ≡ some id
      → (c : ManagerClient Proxy) × (get string_eq id r.clients ≡ some c) × (c.uid ≡ uid)
  pub back :
      (id : PluginInstanceId) (c : ManagerClient Proxy)
      → get string_eq id r.clients ≡ some c
      → get nat_eq c.uid r.by_uid ≡ some id

module _ {Proxy : Type 0} where
  -- A bus name belongs to one user: registering `id` for `uid`, if it is registered at all it is
  -- registered for that user.
  abbrev pub SameOwner : PluginInstanceId → Uid → PluginRegistry Proxy → Type 0
  SameOwner id uid r = (c : ManagerClient Proxy) → get string_eq id r.clients ≡ some c → c.uid ≡ uid

  get-drop_replaced :
      (o : Option PluginInstanceId) (j : PluginInstanceId)
      (m : List (PluginInstanceId × ManagerClient Proxy))
      → get string_eq j (drop_replaced o m) ≡ elim o [
        | none ↦ get string_eq j m
        | some k ↦ if string_eq.beq k j then none else get string_eq j m
      ]
  get-drop_replaced none j m = refl
  get-drop_replaced (some k) j m = get-remove string_eq k j m

module _ {Proxy : Type 0} (id : PluginInstanceId) (uid : Uid) (proxy : Proxy)
    (r : PluginRegistry Proxy) (own : SameOwner id uid r) (v : IsPaired r) where
  register-forth :
      (u : Uid) (i : PluginInstanceId)
      → get nat_eq u (register id uid proxy r).by_uid ≡ some i
      → (c : ManagerClient Proxy) × (get string_eq i (register id uid proxy r).clients ≡ some c)
        × (c.uid ≡ u)
  unfolding register
  register-forth u i h = elim (Bool-cases (uid == u)) [
    | inl same ↦
        (record { uid = uid; proxy = proxy }, ground (arith, string_eq.beq_iff id i), ground arith)
    | inr other ↦
        let before : get nat_eq u r.by_uid ≡ some i =
          ground (arith, get-remove nat_eq uid u r.by_uid) in
        let (c, here, owner) = v.forth u i before in (c, kept c here owner before other, owner)
  ]
    where
      kept :
          (c : ManagerClient Proxy)
          → get string_eq i r.clients ≡ some c
          → c.uid ≡ u
          → get nat_eq u r.by_uid ≡ some i
          → (uid == u) ≡ false
          → get string_eq i (register id uid proxy r).clients ≡ some c
      kept c here owner before other = elim (Option-cases (get nat_eq uid r.by_uid)) [
        | inl fresh ↦
            ground (arith, own c, get-remove string_eq id i r.clients, string_eq.beq_iff id i)
        | inr (o, old) ↦
            let (d, there, owner') = v.forth uid o old in
            ground (
              arith,
              own c,
              get-remove string_eq id i (remove string_eq o r.clients),
              get-remove string_eq o i r.clients,
              string_eq.beq_iff id i,
              string_eq.beq_iff o i,
            )
      ]

  register-back :
      (i : PluginInstanceId) (c : ManagerClient Proxy)
      → get string_eq i (register id uid proxy r).clients ≡ some c
      → get nat_eq c.uid (register id uid proxy r).by_uid ≡ some i
  unfolding register
  register-back i c h = elim (Option-cases (get nat_eq uid r.by_uid)) [
    | inl fresh ↦ ground (
      arith,
      get-remove nat_eq uid c.uid r.by_uid,
      get-remove string_eq id i r.clients,
      v.back i c,
      string_eq.beq_iff id i,
      fresh,
    )
    | inr (o, old) ↦ ground (
      arith,
      get-remove nat_eq uid c.uid r.by_uid,
      get-remove string_eq id i (remove string_eq o r.clients),
      get-remove string_eq o i r.clients,
      v.back i c,
      string_eq.beq_iff id i,
      string_eq.beq_iff o i,
      old,
    )
  ]

module _ {Proxy : Type 0} where
  -- Registering a plugin keeps the two maps inverse to one another, whether or not the user had an
  -- instance before, as long as the bus name is not registered for another user.
  pub register-IsPaired :
      (id : PluginInstanceId) (uid : Uid) (proxy : Proxy) (r : PluginRegistry Proxy)
      → SameOwner id uid r
      → IsPaired r
      → IsPaired (register id uid proxy r)
  register-IsPaired id uid proxy r own v = record {
    forth = register-forth id uid proxy r own v;
    back = register-back id uid proxy r own v;
  }

module _ {Proxy : Type 0} (id : PluginInstanceId) (c : ManagerClient Proxy)
    (r : PluginRegistry Proxy) (v : IsPaired r) (here : get string_eq id r.clients ≡ some c)
    (there : get nat_eq c.uid r.by_uid ≡ some id) where
  without-forth :
      (u : Uid) (i : PluginInstanceId)
      → get nat_eq u (remove nat_eq c.uid r.by_uid) ≡ some i
      → (d : ManagerClient Proxy) × (get string_eq i (remove string_eq id r.clients) ≡ some d)
        × (d.uid ≡ u)
  without-forth u i h =
      let before : get nat_eq u r.by_uid ≡ some i =
        ground (arith, get-remove nat_eq c.uid u r.by_uid) in
      let (d, found, owner) = v.forth u i before in
      (
        d,
        ground (
          arith,
          get-remove string_eq id i r.clients,
          get-remove nat_eq c.uid u r.by_uid,
          string_eq.beq_iff id i,
        ),
        owner,
      )

  without-IsPaired :
      IsPaired
        (record { clients = remove string_eq id r.clients; by_uid = remove nat_eq c.uid r.by_uid })
  without-IsPaired = record {
    forth = without-forth;
    back = λ i d h. ground (
      arith,
      get-remove string_eq id i r.clients,
      get-remove nat_eq c.uid d.uid r.by_uid,
      v.back i d,
      string_eq.beq_iff id i,
    );
  }

module _ {Proxy : Type 0} where
  -- Taking an instance out by its id keeps the two maps inverse to one another.
  pub unregister-IsPaired :
      (id : PluginInstanceId) (r : PluginRegistry Proxy) → IsPaired r → IsPaired (unregister id r)
  unfolding unregister
  unregister-IsPaired id r v = elim (Option-cases (get string_eq id r.clients)) [
    | inl gone ↦ rw (gone, unregister) v
    | inr (c, here) ↦ rw (here, unregister) (without-IsPaired id c r v here (v.back id c here))
  ]

  -- Taking a user's instance out keeps the two maps inverse to one another.
  pub unregister_by_uid-IsPaired :
      (uid : Uid) (r : PluginRegistry Proxy) → IsPaired r → IsPaired (unregister_by_uid uid r)
  unfolding unregister_by_uid
  unregister_by_uid-IsPaired uid r v = elim (Option-cases (get nat_eq uid r.by_uid)) [
    | inl gone ↦ rw (gone, unregister_by_uid) v
    | inr (id, here) ↦
        let (c, there, owner) = v.forth uid id here in
        rw (here, unregister_by_uid)
          (subst
            (λ u. IsPaired (record {
              clients = remove string_eq id r.clients;
              by_uid = remove nat_eq u r.by_uid;
            }))
            owner (without-IsPaired id c r v there (v.back id c there)))
  ]

  -- In a paired registry every user that it lists can be asked for its focus, by a proxy that is
  -- registered for that user.
  pub focus_proxy_of_registered :
      (uid : Uid) (id : PluginInstanceId) (r : PluginRegistry Proxy)
      → IsPaired r
      → get nat_eq uid r.by_uid ≡ some id
      → (proxy : Proxy) × (focus_proxy_for_uid r uid ≡ some (uid, proxy))
  unfolding focus_proxy_for_uid
  focus_proxy_of_registered uid id r v h =
      let (c, here, owner) = v.forth uid id h in (c.proxy, ground arith)

  -- A new registry is empty, and so paired.
  pub new-IsPaired : IsPaired {Proxy = Proxy} new
  unfolding new
  new-IsPaired = record { forth = λ uid id h. ground arith; back = λ id c h. ground arith }
