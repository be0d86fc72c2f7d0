-- ===== src/Blocking/Signals/Reset.antt =====
-- The daily reset lifts the time limits, keeps the permanent blocks, and tells every entry it lifts.
use digital_wellbeing.Common.{
  ◌≡◌, refl, Bool, false, not, ◌&&◌, ◌==◌, if◌then◌else◌, Option, none, some, List, [], ◌∷◌, arith,
  All, inl, inr, Bool-cases,
}
use digital_wellbeing.Common.Eq.{nat_eq}
use digital_wellbeing.Common.Map.{get, retain, IsMap, keep_if, get-retain, retain-IsMap}
use digital_wellbeing.Blocking.Signals.{
  DaemonSignal, Apps, BlockedApps, Told, apps_of, keeps, reset_signals, reset_blocks, reset_all,
  midnight_reset,
}
use digital_wellbeing.Blocking.Signals.Mirror.{shown, is_blocked, IsKeyed, Mirrors, apps_of-valid}
use digital_wellbeing.Values.AppClass.{AppClass, app_class_eq}
use digital_wellbeing.Values.Blocked.{Uid, BlockedAppEntry}

-- An entry that the reset takes out.
abbrev lifts : Option BlockedAppEntry → Bool
lifts none = false
lifts (some entry) = not (keeps entry)

shown-reset_signals :
    (uid u : Uid) (a : AppClass) (apps : Apps) (signals : List DaemonSignal)
    → IsMap app_class_eq apps
    → IsKeyed apps
    → shown (reset_signals uid apps signals) u a
      ≡ (if (uid == u) && lifts (get app_class_eq a apps) then false else shown signals u a)
unfolding reset_signals shown
shown-reset_signals uid u a [] signals d k = ground arith
shown-reset_signals uid u a ((app, entry) ∷ apps) signals d k =
    let told =
      if keeps entry
      then signals
      else DaemonSignal.app_blocked uid entry.app_class false entry.reason ∷ signals in
    ground (
      arith,
      shown-reset_signals uid u a apps told d.1 k.1,
      app_class_eq.beq_iff app a,
      app_class_eq.beq_iff entry.app_class a,
    )

shown-reset_all :
    (u : Uid) (a : AppClass) (blocks : BlockedApps) (signals : List DaemonSignal)
    → IsMap nat_eq blocks
    → All (λ e. IsMap app_class_eq e.1 × IsKeyed e.1) blocks
    → shown (reset_all blocks signals) u a
      ≡ (if lifts (get app_class_eq a (apps_of u blocks)) then false else shown signals u a)
unfolding reset_all
shown-reset_all u a [] signals d v = refl
shown-reset_all u a ((uid, apps) ∷ blocks) signals d v = ground (
  arith,
  shown-reset_all u a blocks (reset_signals uid apps signals) d.1 v.1,
  shown-reset_signals uid u a apps signals v.0.0 v.0.1,
)

retain-IsKeyed : (apps : Apps) → IsKeyed apps → IsKeyed (retain app_class_eq keeps apps)
retain-IsKeyed [] k = tt
retain-IsKeyed ((a, entry) ∷ apps) k = elim (Bool-cases (keeps entry)) [
  | inl kept ↦ rw kept (k.0, retain-IsKeyed apps k.1)
  | inr gone ↦ rw gone (retain-IsKeyed apps k.1)
]

get-reset_blocks :
    (u : Uid) (blocks : BlockedApps)
    → get nat_eq u (reset_blocks blocks) ≡ elim (get nat_eq u blocks) [
      | some apps ↦ some (retain app_class_eq keeps apps)
      | none ↦ none
    ]
unfolding reset_blocks
get-reset_blocks u [] = refl
get-reset_blocks u ((uid, apps) ∷ blocks) = elim (Bool-cases (uid == u)) [
  | inl same ↦ rw same
  | inr other ↦ rw other (get-reset_blocks u blocks)
]

reset_blocks-IsMap :
    (blocks : BlockedApps) → IsMap nat_eq blocks → IsMap nat_eq (reset_blocks blocks)
unfolding reset_blocks
reset_blocks-IsMap [] d = tt
reset_blocks-IsMap ((uid, apps) ∷ blocks) d =
    (rw (get-reset_blocks uid blocks, d.0), reset_blocks-IsMap blocks d.1)

reset_blocks-valid :
    (blocks : BlockedApps)
    → All (λ e. IsMap app_class_eq e.1 × IsKeyed e.1) blocks
    → All (λ e. IsMap app_class_eq e.1 × IsKeyed e.1) (reset_blocks blocks)
unfolding reset_blocks
reset_blocks-valid [] v = tt
reset_blocks-valid ((uid, apps) ∷ blocks) v = (
  (retain-IsMap app_class_eq keeps apps v.0.0, retain-IsKeyed apps v.0.1),
  reset_blocks-valid blocks v.1,
)

get-reset :
    (u : Uid) (a : AppClass) (blocks : BlockedApps)
    → All (λ e. IsMap app_class_eq e.1 × IsKeyed e.1) blocks
    → get app_class_eq a (apps_of u (reset_blocks blocks))
      ≡ keep_if keeps (get app_class_eq a (apps_of u blocks))
get-reset u a blocks v = ground (
  arith,
  get-reset_blocks u blocks,
  get-retain app_class_eq keeps a (apps_of u blocks) (apps_of-valid u blocks v).0,
)

-- The daily reset keeps every permanent entry as it is, takes out every time-limit entry, and adds
-- none, for every user and application.
pub midnight_reset-get :
    (u : Uid) (a : AppClass) (t : Told)
    → Mirrors t
    → get app_class_eq a (apps_of u (midnight_reset t).blocked_apps)
      ≡ keep_if keeps (get app_class_eq a (apps_of u t.blocked_apps))
unfolding midnight_reset
midnight_reset-get u a t m = get-reset u a t.blocked_apps m.apps

-- The daily reset keeps the listener's view equal to the map: an entry that is taken out is told.
pub midnight_reset-Mirrors : (t : Told) → Mirrors t → Mirrors (midnight_reset t)
unfolding midnight_reset is_blocked
midnight_reset-Mirrors t m = record {
  users = reset_blocks-IsMap t.blocked_apps m.users;
  apps = reset_blocks-valid t.blocked_apps m.apps;
  agree = λ u a. ground (
    arith,
    shown-reset_all u a t.blocked_apps t.signals m.users m.apps,
    get-reset u a t.blocked_apps m.apps,
    m.agree u a,
  );
}
