-- ===== src/Blocking/Signals/Mirror.antt =====
-- A listener that follows the AppBlocked signals sees exactly the blocked-apps map.
use digital_wellbeing.Common.{
  ◌≡◌, Bool, false, ◌&&◌, ◌==◌, if◌then◌else◌, Option, none, some, is_some, List, [], ◌∷◌, arith,
  All, inl, inr, Bool-cases,
}
use digital_wellbeing.Common.Eq.{nat_eq}
use digital_wellbeing.Common.Map.{
  get, insert, remove, IsMap, get-remove, get-insert, insert-IsMap, remove-IsMap,
}
use digital_wellbeing.Blocking.Signals.{
  DaemonSignal, Apps, BlockedApps, Told, apps_of, change_apps, tell, apply_outcome,
}
use digital_wellbeing.Values.AppClass.{AppClass, app_class_eq}
use digital_wellbeing.Values.Blocked.{Uid, BlockedAppEntry}

-- What a listener believes of an application: what the newest signal about it said.
unfoldable pub shown : List DaemonSignal → Uid → AppClass → Bool
shown [] uid app = false
shown (DaemonSignal.app_blocked u a blocked reason ∷ older) uid app =
    if (u == uid) && app_class_eq.beq a app then blocked else shown older uid app
shown (_ ∷ older) uid app = shown older uid app

unfoldable pub is_blocked : BlockedApps → Uid → AppClass → Bool
is_blocked blocks uid app = is_some (get app_class_eq app (apps_of uid blocks))

-- Each user's entries are stored under their own application class, no key twice.
abbrev pub IsKeyed : Apps → Type 0
IsKeyed apps = All (λ e. e.1.app_class ≡ e.0) apps

pub record Mirrors (t : Told) : Type 0 where
  pub users : IsMap nat_eq t.blocked_apps
  pub apps : All (λ e. IsMap app_class_eq e.1 × IsKeyed e.1) t.blocked_apps
  pub agree :
      (uid : Uid) (app : AppClass) → shown t.signals uid app ≡ is_blocked t.blocked_apps uid app

pub apps_of-valid :
    (uid : Uid) (blocks : BlockedApps)
    → All (λ e. IsMap app_class_eq e.1 × IsKeyed e.1) blocks
    → IsMap app_class_eq (apps_of uid blocks) × IsKeyed (apps_of uid blocks)
apps_of-valid uid [] h = (tt, tt)
apps_of-valid uid ((u, apps) ∷ blocks) h = elim (Bool-cases (u == uid)) [
  | inl same ↦ rw same h.0
  | inr other ↦ rw other (apps_of-valid uid blocks h.1)
]

remove-IsKeyed :
    (app : AppClass) (apps : Apps) → IsKeyed apps → IsKeyed (remove app_class_eq app apps)
remove-IsKeyed app [] h = tt
remove-IsKeyed app ((a, entry) ∷ apps) h = elim (Bool-cases (app_class_eq.beq a app)) [
  | inl same ↦ rw same (remove-IsKeyed app apps h.1)
  | inr other ↦ rw other (h.0, remove-IsKeyed app apps h.1)
]

remove-valid :
    (uid : Uid) (blocks : BlockedApps)
    → All (λ e. IsMap app_class_eq e.1 × IsKeyed e.1) blocks
    → All (λ e. IsMap app_class_eq e.1 × IsKeyed e.1) (remove nat_eq uid blocks)
remove-valid uid [] h = tt
remove-valid uid ((u, apps) ∷ blocks) h = elim (Bool-cases (u == uid)) [
  | inl same ↦ rw same (remove-valid uid blocks h.1)
  | inr other ↦ rw other (h.0, remove-valid uid blocks h.1)
]

-- Changing one user's applications changes what is blocked for that user only.
is_blocked-insert :
    (u uid : Uid) (app : AppClass) (apps : Apps) (blocks : BlockedApps)
    → is_blocked (insert nat_eq u apps blocks) uid app
      ≡ (if u == uid then is_some (get app_class_eq app apps) else is_blocked blocks uid app)
unfolding is_blocked
is_blocked-insert u uid app apps blocks = ground (arith, get-remove nat_eq u uid blocks)

-- An outcome for an application is none, or an entry of that application.
abbrev pub IsFor : AppClass → Option BlockedAppEntry → Type 0
IsFor app none = Unit
IsFor app (some entry) = entry.app_class ≡ app

change_apps-valid :
    (app : AppClass) (o : Option BlockedAppEntry) (apps : Apps)
    → IsFor app o
    → IsMap app_class_eq apps × IsKeyed apps
    → IsMap app_class_eq (change_apps app o apps) × IsKeyed (change_apps app o apps)
unfolding change_apps
change_apps-valid app (some entry) apps own h =
    (insert-IsMap app_class_eq app entry apps h.0, (own, remove-IsKeyed app apps h.1))
change_apps-valid app none apps own h =
    (remove-IsMap app_class_eq app apps h.0, remove-IsKeyed app apps h.1)

get-change_apps :
    (app a : AppClass) (o : Option BlockedAppEntry) (apps : Apps)
    → get app_class_eq a (change_apps app o apps)
      ≡ (if app_class_eq.beq app a then o else get app_class_eq a apps)
unfolding change_apps
get-change_apps app a (some entry) apps = get-insert app_class_eq app a entry apps
get-change_apps app a none apps = get-remove app_class_eq app a apps

-- If the listener's view of one user's old entries is right, so is its view of the new ones.
shown-tell :
    (uid u : Uid) (app a : AppClass) (o : Option BlockedAppEntry) (apps : Apps)
    (signals : List DaemonSignal)
    → shown signals uid app ≡ is_some (get app_class_eq app apps)
    → shown (tell uid app o apps signals) u a
      ≡ (if (uid == u) && app_class_eq.beq app a then is_some o else shown signals u a)
unfolding tell shown
shown-tell uid u app a (some entry) apps signals h = ground (arith, app_class_eq.beq_iff app a)
shown-tell uid u app a none apps signals h = ground (arith, app_class_eq.beq_iff app a)

-- Applying an evaluation's outcome keeps the listener's view equal to the map, for every outcome.
pub apply_outcome-Mirrors :
    (uid : Uid) (app : AppClass) (o : Option BlockedAppEntry) (t : Told)
    → IsFor app o
    → Mirrors t
    → Mirrors (apply_outcome uid app o t)
unfolding apply_outcome is_blocked
apply_outcome-Mirrors uid app o t own m = record {
  users =
      insert-IsMap nat_eq uid (change_apps app o (apps_of uid t.blocked_apps)) t.blocked_apps
        m.users;
  apps = (
    change_apps-valid app o (apps_of uid t.blocked_apps) own
        (apps_of-valid uid t.blocked_apps m.apps),
    remove-valid uid t.blocked_apps m.apps,
  );
  agree = λ u a. ground (
    arith,
    shown-tell uid u app a o (apps_of uid t.blocked_apps) t.signals (m.agree uid app),
    is_blocked-insert uid u a (change_apps app o (apps_of uid t.blocked_apps)) t.blocked_apps,
    get-change_apps app a o (apps_of uid t.blocked_apps),
    m.agree u a,
  );
}
