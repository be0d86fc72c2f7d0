-- ===== src/Store/Apps.antt =====
-- crates/daemon/src/store/daos/apps.rs: the application registry. The id of a new row is the
-- database's choice.
use Prim.Native.String.{String}
use digital_wellbeing.Common.{
  ℕ, ◌==◌, Option, none, some, List, [], ◌∷◌, ◌++◌, ◌≡◌, refl, if◌then◌else◌, arith, inl, inr,
  Option-cases,
}
use digital_wellbeing.Common.Eq.{string_eq}
use digital_wellbeing.Store.{AppRow, Tables}
use digital_wellbeing.Values.AppClass.{AppClass}

-- The id of an application's row.
unfoldable pub find_app : String → List AppRow → Option ℕ
find_app app_class [] = none
find_app app_class (r ∷ rs) =
    if string_eq.beq r.app_class app_class then some r.id else find_app app_class rs

-- SELECT, then INSERT if there was no row.
unfoldable pub ensure_app : ℕ → AppClass → Tables → ℕ × Tables
unfolding find_app
ensure_app new_id app_class t = elim (find_app app_class.text t.apps) [
  | some id ↦ (id, t)
  | none ↦ (
    new_id,
    record t { apps = t.apps ++ record { id = new_id; app_class = app_class.text } ∷ [] },
  )
]

-- The text that `batch_load_apps` finds for an id.
unfoldable pub load_app : ℕ → List AppRow → Option String
load_app id [] = none
load_app id (r ∷ rs) = if r.id == id then some r.app_class else load_app id rs

find_app-append :
    (s : String) (rs : List AppRow) (id : ℕ)
    → find_app s rs ≡ none
    → find_app s (rs ++ record { id = id; app_class = s } ∷ []) ≡ some id
unfolding find_app
find_app-append s [] id h = ground (arith, string_eq.beq_iff s s)
find_app-append s (r ∷ rs) id h = ground (arith, find_app-append s rs id)

pub ensure_app_known :
    (new_id : ℕ) (app_class : AppClass) (t : Tables) (id : ℕ)
    → find_app app_class.text t.apps ≡ some id
    → ensure_app new_id app_class t ≡ (id, t)
unfolding ensure_app
ensure_app_known new_id app_class t id known = rw (known, ensure_app) refl

pub ensure_app_unknown :
    (new_id : ℕ) (app_class : AppClass) (t : Tables)
    → find_app app_class.text t.apps ≡ none
    → ensure_app new_id app_class t ≡ (
      new_id,
      record t { apps = t.apps ++ record { id = new_id; app_class = app_class.text } ∷ [] },
    )
unfolding ensure_app
ensure_app_unknown new_id app_class t unknown = rw (unknown, ensure_app) refl

-- Registering an application is done once: after the first time, its id is found and nothing
-- changes any more, whatever id the database would give to a new row.
pub ensure_app_again :
    (new_id other_id : ℕ) (app_class : AppClass) (t : Tables)
    → ensure_app other_id app_class (ensure_app new_id app_class t).1
      ≡ ensure_app new_id app_class t
ensure_app_again new_id other_id app_class t =
    elim (Option-cases (find_app app_class.text t.apps)) [
      | inr (id, known) ↦
          rw (ensure_app_known new_id app_class t id known)
            (ensure_app_known other_id app_class t id known)
      | inl unknown ↦ rw (ensure_app_unknown new_id app_class t unknown) (
          ensure_app_known other_id app_class _ new_id
            (find_app-append app_class.text t.apps new_id unknown))
    ]
