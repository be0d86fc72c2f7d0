-- ===== src/Store/Categories.antt =====
-- crates/daemon/src/store/daos/categories.rs: the statements on `app_categories`. The queries answer
-- with what the tables hold; a statement that names a column which its table does not have fails.
pub mod Batch
pub mod Collect
use Prim.Native.String.{String}
use digital_wellbeing.Common.{
  ℕ, Bool, true, false, not, ◌&&◌, ◌==◌, if◌then◌else◌, Option, none, some, unwrap_or, List, [],
  ◌∷◌, ◌++◌, map, filter, any, is_some,
}
use digital_wellbeing.Common.Eq.{Eq, nat_eq, string_eq, pair_beq, pair_beq_iff}
use digital_wellbeing.Common.Map.{get, insert}
use digital_wellbeing.Store.{AppRow, CategoryRow, Tables, as_i32}
use digital_wellbeing.Store.Apps.{find_app, load_app}
use digital_wellbeing.Values.AppClass
use digital_wellbeing.Values.AppClass.{AppClass}
use digital_wellbeing.Values.Blocked.{Uid}
use digital_wellbeing.Values.Category
use digital_wellbeing.Values.Category.{Category}

-- `DEFAULT_CATEGORY_INT` and `SYSTEM_USER_ID`
abbrev pub default_category : ℕ
default_category = 6

abbrev pub system_user : Uid
system_user = 0

-- A user and an application.
abbrev pub Pair : Type 0
Pair = Uid × ℕ

abbrev pub pair_eq : Eq Pair
pair_eq = record { beq = pair_beq nat_eq nat_eq; beq_iff = pair_beq_iff nat_eq nat_eq }

-- `map.entry(key).or_default().push(value)`
unfoldable pub push_at {ℓ} : {K : Type ℓ} → Eq K → K → ℕ → List (K × List ℕ) → List (K × List ℕ)
push_at e k v m = insert e k (unwrap_or (get e k m) [] ++ v ∷ []) m

-- The pairs by their user.
unfoldable pub group_by_uid : List Pair → List (Uid × List ℕ) → List (Uid × List ℕ)
unfolding push_at
group_by_uid [] groups = groups
group_by_uid ((uid, app_id) ∷ pairs) groups = group_by_uid pairs (push_at nat_eq uid app_id groups)

-- The rows that one query returns.
unfoldable pub rows_for : List ℕ → Uid → Tables → List CategoryRow
rows_for app_ids uid t =
    filter (λ r. any (λ id. id == r.app_id) app_ids && r.user_id == uid && not r.ignore)
      t.app_categories

-- The loop over the rows of a query, which collects their categories by a key.
unfoldable pub collect_rows {ℓ} :
    {K : Type ℓ}
    → Eq K
    → (CategoryRow → K)
    → List CategoryRow
    → List (K × List ℕ)
    → List (K × List ℕ)
unfolding push_at
collect_rows e key [] m = m
collect_rows e key (r ∷ rs) m = collect_rows e key rs (push_at e (key r) r.category m)

-- One query for each user.
unfoldable pub collect_groups :
    List (Uid × List ℕ) → Tables → List (Pair × List ℕ) → List (Pair × List ℕ)
unfolding rows_for collect_rows
collect_groups [] t m = m
collect_groups ((uid, app_ids) ∷ groups) t m =
    collect_groups groups t (collect_rows pair_eq (λ r. (uid, r.app_id)) (rows_for app_ids uid t) m)

-- The last loop: the user's categories, else the system's, else the default.
unfoldable pub populate :
    List Pair
    → List (Pair × List ℕ)
    → List (ℕ × List ℕ)
    → List (Pair × List ℕ)
    → List (Pair × List ℕ)
populate [] user_map sys_map m = m
populate ((uid, app_id) ∷ pairs) user_map sys_map m = populate pairs user_map sys_map (
    insert pair_eq (uid, app_id)
      (unwrap_or (get pair_eq (uid, app_id) user_map)
        (unwrap_or (get nat_eq app_id sys_map) (default_category ∷ [])))
      m)

unfoldable pub resolve_category_map : List Pair → Tables → List (Pair × List ℕ)
unfolding group_by_uid collect_groups collect_rows rows_for populate
resolve_category_map pairs t =
    populate pairs (collect_groups (group_by_uid pairs []) t [])
      (collect_rows nat_eq (λ r. r.app_id) (rows_for (map (λ p. p.1) pairs) system_user t) []) []

-- The join of `app_categories` with `apps` for one application and one user.
unfoldable pub joined_categories : AppClass → Uid → Tables → List ℕ
unfolding load_app
joined_categories app_class uid t =
    map (λ r. r.category)
      (filter
        (λ r.
          not r.ignore
          && r.user_id == uid
          && string_eq.beq (unwrap_or (load_app r.app_id t.apps) "") app_class.text)
        t.app_categories)

-- `filter_map(|v| Category::try_from(v).ok())`
unfoldable pub known_categories : List ℕ → List Category
known_categories [] = []
known_categories (v ∷ vs) = elim (Category.try_from v) [
  | some c ↦ c ∷ known_categories vs
  | none ↦ known_categories vs
]

unfoldable pub resolve_categories_for_app : AppClass → Uid → Tables → List Category
unfolding joined_categories known_categories
resolve_categories_for_app app_class uid t = elim (joined_categories app_class uid t) [
  | v ∷ vs ↦ known_categories (v ∷ vs)
  | [] ↦ known_categories (joined_categories app_class system_user t)
]

-- `AppCategoryRow`
pub record AppCategoryRow : Type 0 where
  pub app_class : AppClass
  pub user_id : Uid
  pub category : Category
  pub display_name : String
  pub icon_path : String
  pub ignore : Bool

-- A row with the application's text; the join drops a row whose application is gone.
unfoldable pub list_rows : Uid → List CategoryRow → List AppRow → List AppCategoryRow
unfolding load_app
list_rows caller [] apps = []
list_rows caller (r ∷ rs) apps =
    if r.user_id == as_i32 caller
    then elim (load_app r.app_id apps) [
      | none ↦ list_rows caller rs apps
      | some text ↦
          record {
            app_class = unwrap_or (AppClass.new text) (record { text = "?" });
            user_id = r.user_id;
            category = unwrap_or (Category.try_from r.category) Category.uncategorized;
            display_name = unwrap_or r.display_name "";
            icon_path = unwrap_or r.icon_path "";
            ignore = r.ignore;
          }
          ∷ list_rows caller rs apps
    ]
    else list_rows caller rs apps

unfoldable pub list_app_categories : Uid → Tables → List AppCategoryRow
unfolding list_rows
list_app_categories caller t = list_rows caller t.app_categories t.apps

-- The columns of `app_categories` in migrations/2026-07-18-000001_initial_schema/up.sql, and whether a
-- statement can be prepared.
abbrev columns : List String
columns = "app_id" ∷ "user_id" ∷ "category" ∷ "display_name" ∷ "icon_path" ∷ "ignore" ∷ []

unfoldable pub prepares : List String → Bool
prepares [] = true
prepares (c ∷ cs) = any (string_eq.beq c) columns && prepares cs

unfoldable pub set_category : ℕ → Uid → ℕ → List CategoryRow → List CategoryRow
set_category app_id uid category [] = []
set_category app_id uid category (r ∷ rs) =
    (if r.app_id == app_id && r.user_id == uid then record r { category = category } else r)
    ∷ set_category app_id uid category rs

-- UPDATE, then INSERT if no row was affected; `none` is an error.
unfoldable pub upsert_app_category : AppClass → Category → Uid → Tables → Option Tables
unfolding find_app prepares set_category Category.to_code
upsert_app_category app_class category caller t = elim (find_app app_class.text t.apps) [
  | none ↦ none
  | some app_id ↦
      let uid = as_i32 caller in
      if not (prepares ("category" ∷ "updated_at" ∷ "app_id" ∷ "user_id" ∷ []))
      then none
      else if any (λ r. r.app_id == app_id && r.user_id == uid) t.app_categories
      then some (record t {
        app_categories = set_category app_id uid (Category.to_code category) t.app_categories;
      })
      else if not (
          prepares (
            "app_id" ∷ "user_id" ∷ "category" ∷ "display_name" ∷ "icon_path" ∷ "ignore"
            ∷ "updated_at" ∷ []))
      then none
      else some (record t {
        app_categories =
            t.app_categories
            ++ record {
              app_id = app_id;
              user_id = uid;
              category = Category.to_code category;
              display_name = none;
              icon_path = none;
              ignore = false;
            }
              ∷ [];
      })
]
