-- ===== src/Dbus/Views.antt =====
-- What a caller gets to see.
use Prim.Native.String.{String}
use digital_wellbeing.Common.{
  ℕ, ◌≡◌, refl, ap, ◌∙◌, Bool, true, false, ◌==◌, ◌||◌, if◌then◌else◌, Option, none, some, List, [],
  ◌∷◌, map, filter, any, All, subst, sym, ◌⊎◌, inl, inr, Bool-cases, Option-cases, arith,
}
use digital_wellbeing.Common.Eq.{nat_eq}
use digital_wellbeing.Common.Map.{get}
use digital_wellbeing.Dbus.{
  Call, DaemonInterface, Result, FdoError, authenticate, require_root, blocked_entries_for,
}
use digital_wellbeing.Dbus.Methods.{
  list_policies, list_policies_for_user, get_blocked_apps, get_app_categories,
}
use digital_wellbeing.Policy.{Policy, TimeWindow}
use digital_wellbeing.Policy.Repo
use digital_wellbeing.Policy.Repo.{app_class_str}
use digital_wellbeing.Policy.Rows.{policy_data, row_to_policy, window_of_row}
use digital_wellbeing.Store.Apps.{load_app}
use digital_wellbeing.Store.{AppRow, PolicyTableRow, CategoryRow, Tables, as_i32}
use digital_wellbeing.Store.Categories.{list_rows, list_app_categories}
use digital_wellbeing.Categorization.{list_app_categories_of}
use digital_wellbeing.Store.Policies.{read_policies, order_rows, insert_row, before, schedules_of}
use digital_wellbeing.Values.Blocked.{Uid}

-- What the tables and the map of blocked applications hold of one user.
abbrev pub own_policies : Uid → Tables → List PolicyTableRow
own_policies uid t = filter (λ r. r.user_id == uid) t.policies

abbrev pub own_categories : Uid → Tables → List CategoryRow
own_categories uid t = filter (λ r. r.user_id == uid) t.app_categories

-- An application that one of the user's policies or categories names.
abbrev pub is_app : ℕ → Option ℕ → Bool
is_app id none = false
is_app id (some i) = i == id

abbrev pub names_app : Uid → Tables → ℕ → Bool
names_app uid t id =
    any (λ r. is_app id r.app_id) (own_policies uid t)
    || any (λ r. r.app_id == id) (own_categories uid t)

-- Two daemons that hold the same for a user: its policies, the schedules of each of them, its
-- categories, the texts of the applications that these name, and its blocked applications.
pub record IsSameFor {Proxy : Type 0} (uid : Uid) (d d' : DaemonInterface Proxy) : Type 0 where
  pub policies : own_policies (as_i32 uid) d.tables ≡ own_policies (as_i32 uid) d'.tables
  pub schedules :
      (id : ℕ)
      → any (λ r. r.id == id) (own_policies (as_i32 uid) d.tables) ≡ true
      → filter (λ s. s.policy_id == id) d.tables.schedules
        ≡ filter (λ s. s.policy_id == id) d'.tables.schedules
  pub categories : own_categories (as_i32 uid) d.tables ≡ own_categories (as_i32 uid) d'.tables
  pub apps :
      (id : ℕ)
      → names_app (as_i32 uid) d.tables id ≡ true
      → load_app id d.tables.apps ≡ load_app id d'.tables.apps
  pub blocked : get nat_eq uid d.blocked_apps ≡ get nat_eq uid d'.blocked_apps

list_rows-own :
    (uid : Uid) (apps : List AppRow) (rows : List CategoryRow)
    → list_rows uid (filter (λ r. r.user_id == as_i32 uid) rows) apps ≡ list_rows uid rows apps
unfolding list_rows
list_rows-own uid apps [] = refl
list_rows-own uid apps (r ∷ rows) =
    let rest = list_rows-own uid apps rows in
    elim (Bool-cases (r.user_id == as_i32 uid)) [
      | inr foreign ↦ rw foreign rest
      | inl own ↦ elim (Option-cases (load_app r.app_id apps)) [
        | inl unknown ↦ rw (own, list_rows, own, unknown) rest
        | inr (text, known) ↦ rw (own, list_rows, own, known, rest) refl
      ]
    ]

-- The rows of a list, each with its place.
abbrev Among : {A : Type 0} → A → List A → Type 0
Among x [] = ⊥
Among x (y ∷ ys) = (x ≡ y) ⊎ Among x ys

any-Among :
    {A : Type 0} (p : A → Bool) (x : A) (xs : List A) → Among x xs → p x ≡ true → any p xs ≡ true
any-Among p x [] at h = absurd at
any-Among p x (y ∷ ys) (inl same) h =
    let here : p y ≡ true = subst (λ z. p z ≡ true) same h in rw here refl
any-Among p x (y ∷ ys) (inr later) h = let rest = any-Among p x ys later h in ground arith

All-Among : {A : Type 0} (P : A → Type 0) (xs : List A) → ((x : A) → Among x xs → P x) → All P xs
All-Among P [] h = tt
All-Among P (x ∷ xs) h = (h x (inl refl), All-Among P xs (λ y at. h y (inr at)))

All-insert_row :
    (P : PolicyTableRow → Type 0) (r : PolicyTableRow) (rs : List PolicyTableRow)
    → P r
    → All P rs
    → All P (insert_row r rs)
unfolding insert_row
All-insert_row P r [] h hs = (h, tt)
All-insert_row P r (s ∷ ss) h hs = elim (Bool-cases (before r s)) [
  | inl first ↦ rw first (h, hs)
  | inr later ↦ rw later (hs.0, All-insert_row P r ss h hs.1)
]

All-order_rows :
    (P : PolicyTableRow → Type 0) (rs : List PolicyTableRow) → All P rs → All P (order_rows rs)
unfolding order_rows
All-order_rows P [] h = tt
All-order_rows P (r ∷ rs) h = All-insert_row P r (order_rows rs) h.0 (All-order_rows P rs h.1)

map-alike :
    {A B : Type 0} (f g : A → B) (xs : List A) → All (λ x. f x ≡ g x) xs → map f xs ≡ map g xs
map-alike f g [] h = refl
map-alike f g (x ∷ xs) h = rw (h.0, map-alike f g xs h.1) refl

-- A policy of the user reads the same in both.
abbrev read_row : Tables → PolicyTableRow → Policy
read_row t row =
    row_to_policy row (app_class_str row t) (map window_of_row (schedules_of row.id t.schedules))

read_row-IsSameFor :
    {Proxy : Type 0} (uid : Uid) (d d' : DaemonInterface Proxy) (row : PolicyTableRow)
    → IsSameFor uid d d'
    → Among row (own_policies (as_i32 uid) d.tables)
    → read_row d.tables row ≡ read_row d'.tables row
unfolding app_class_str schedules_of
read_row-IsSameFor uid d d' row same at =
    let windows = same.schedules row.id (any-Among (λ r. r.id == row.id) row _ at (ground arith)) in
    let text : app_class_str row d.tables ≡ app_class_str row d'.tables =
      elim (Option-cases row.app_id) [
        | inl no_app ↦ rw (app_class_str, no_app) refl
        | inr (id, app) ↦
            let named : is_app id row.app_id ≡ true = rw app (ground arith) in
            let some_policy = any-Among (λ r. is_app id r.app_id) row _ at named in
            rw (app_class_str, app, same.apps id (ground (arith, some_policy))) refl
      ] in
    rw (text, windows) refl

list-IsSameFor :
    {Proxy : Type 0} (uid : Uid) (d d' : DaemonInterface Proxy)
    → IsSameFor uid d d'
    → Repo.list false (as_i32 uid) d.tables ≡ Repo.list false (as_i32 uid) d'.tables
unfolding Repo.list read_policies
list-IsSameFor uid d d' same =
    let own = own_policies (as_i32 uid) d.tables in
    map-alike (read_row d.tables) (read_row d'.tables) (order_rows own)
      (All-order_rows _ own (All-Among _ own (λ row at. read_row-IsSameFor uid d d' row same at)))
    ∙ ap (λ rows. map (read_row d'.tables) (order_rows rows)) same.policies

list_rows-alike :
    (uid : Uid) (apps apps' : List AppRow) (rows : List CategoryRow)
    → All (λ r. load_app r.app_id apps ≡ load_app r.app_id apps') rows
    → list_rows uid rows apps ≡ list_rows uid rows apps'
unfolding list_rows
list_rows-alike uid apps apps' [] h = refl
list_rows-alike uid apps apps' (r ∷ rows) h =
    let rest = list_rows-alike uid apps apps' rows h.1 in
    elim (Bool-cases (r.user_id == as_i32 uid)) [
      | inr foreign ↦ rw foreign rest
      | inl own ↦ elim (Option-cases (load_app r.app_id apps)) [
        | inl unknown ↦ rw (own, unknown, sym h.0 ∙ unknown) rest
        | inr (text, known) ↦ rw (own, known, sym h.0 ∙ known, rest) refl
      ]
    ]

app_categories-IsSameFor :
    {Proxy : Type 0} (uid : Uid) (d d' : DaemonInterface Proxy)
    → IsSameFor uid d d'
    → list_app_categories_of uid d.tables ≡ list_app_categories_of uid d'.tables
unfolding list_app_categories_of list_app_categories
app_categories-IsSameFor uid d d' same =
    let own = own_categories (as_i32 uid) d.tables in
    let texts : All (λ r. load_app r.app_id d.tables.apps ≡ load_app r.app_id d'.tables.apps) own =
      All-Among _ own (λ r at.
        let named = any-Among (λ q. q.app_id == r.app_id) r own at (ground arith) in
        same.apps r.app_id (ground (arith, named))) in
    sym (list_rows-own uid d.tables.apps d.tables.app_categories)
    ∙ list_rows-alike uid d.tables.apps d'.tables.apps own texts
    ∙ ap (λ rows. list_rows uid rows d'.tables.apps) same.categories
    ∙ list_rows-own uid d'.tables.apps d'.tables.app_categories

-- A user other than root sees its own policies, blocked applications and categories only: on two
-- daemons that hold the same policies for it, the same schedules of these policies, the same
-- categories, the same texts of the applications that these name, and the same blocked
-- applications, whatever else they hold, the three methods answer the same.
pub views-IsSameFor :
    {Proxy : Type 0} (call : Call Proxy) (to_json : List TimeWindow → String) (uid : Uid)
    (d d' : DaemonInterface Proxy)
    → authenticate call ≡ Result.ok uid
    → (uid == 0) ≡ false
    → IsSameFor uid d d'
    → (list_policies call d to_json ≡ list_policies call d' to_json)
      × (get_blocked_apps call d ≡ get_blocked_apps call d')
      × (get_app_categories call d ≡ get_app_categories call d')
unfolding list_policies get_blocked_apps get_app_categories blocked_entries_for
views-IsSameFor call to_json uid d d' known ordinary same = (
  rw (list_policies, known, ordinary)
      (ap (λ ps. Result.ok (map (policy_data to_json) ps)) (list-IsSameFor uid d d' same)),
  rw (get_blocked_apps, known, ordinary, blocked_entries_for, same.blocked) refl,
  rw (get_app_categories, known) (ap Result.ok (app_categories-IsSameFor uid d d' same)),
)

-- The list of another user's policies is for root only, and it is not that user's: whatever user root
-- asks for, it gets the policies of all users, as from `list_policies`.
pub list_policies_for_user-ignores :
    {Proxy : Type 0} (call : Call Proxy) (d : DaemonInterface Proxy)
    (to_json : List TimeWindow → String) (caller uid : Uid)
    → authenticate call ≡ Result.ok caller
    → list_policies_for_user call d to_json uid ≡ (
        if caller == 0
        then list_policies call d to_json
        else Result.err (FdoError.access_denied "access denied"))
unfolding list_policies_for_user list_policies require_root Repo.list read_policies
list_policies_for_user-ignores call d to_json caller uid known = elim (Bool-cases (caller == 0)) [
  | inl root ↦
      rw
        (list_policies_for_user, list_policies, known, require_root, root, Repo.list, read_policies)
        refl
  | inr user ↦ rw (list_policies_for_user, known, require_root, user) refl
]
