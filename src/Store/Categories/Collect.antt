-- ===== src/Store/Categories/Collect.antt =====
-- What the maps of `resolve_category_map` hold after the rows of the queries.
use digital_wellbeing.Common.{
  ℕ, ◌≡◌, refl, sym, ap, ◌∙◌, not, ◌&&◌, ◌==◌, if◌then◌else◌, Option, some, unwrap_or, List, [],
  ◌∷◌, ◌++◌, filter, any, append_assoc, append-nil, inl, inr, Bool-cases, ==_iff, arith,
}
use digital_wellbeing.Common.Eq.{Eq, nat_eq}
use digital_wellbeing.Common.Map.{get, IsMap, get-insert, insert-IsMap}
use digital_wellbeing.Store.{CategoryRow}
use digital_wellbeing.Store.Categories.{pair_eq, push_at, collect_rows}
use digital_wellbeing.Values.Blocked.{Uid}

-- The categories a user has given to an application, and has not set to be ignored.
abbrev pub given : Uid → ℕ → List CategoryRow → List ℕ
given uid app_id [] = []
given uid app_id (r ∷ rs) =
    if r.app_id == app_id && r.user_id == uid && not r.ignore
    then r.category ∷ given uid app_id rs
    else given uid app_id rs

-- What pushing values one by one makes of an entry.
abbrev pub extend : Option (List ℕ) → List ℕ → Option (List ℕ)
extend o [] = o
extend o (v ∷ vs) = extend (some (unwrap_or o [] ++ v ∷ [])) vs

pub extend-some : (xs vs : List ℕ) → extend (some xs) vs ≡ some (xs ++ vs)
extend-some xs [] = ap some (sym (append-nil xs))
extend-some xs (v ∷ vs) = extend-some (xs ++ v ∷ []) vs ∙ ap some (append_assoc xs (v ∷ []) vs)

module _ {ℓ} {K : Type ℓ} (e : Eq K) where
  pub get-push_at :
      (k j : K) (v : ℕ) (m : List (K × List ℕ))
      → get e j (push_at e k v m) ≡ (if e.beq k j then extend (get e j m) (v ∷ []) else get e j m)
  unfolding push_at
  get-push_at k j v m = elim (Bool-cases (e.beq k j)) [
    | inl same ↦
        rw (get-insert e k j (unwrap_or (get e k m) [] ++ v ∷ []) m, same, (e.beq_iff k j).0 same)
          refl
    | inr other ↦ rw (get-insert e k j (unwrap_or (get e k m) [] ++ v ∷ []) m, other) refl
  ]

  pub push_at-IsMap :
      (k : K) (v : ℕ) (m : List (K × List ℕ)) → IsMap e m → IsMap e (push_at e k v m)
  unfolding push_at
  push_at-IsMap k v m h = insert-IsMap e k (unwrap_or (get e k m) [] ++ v ∷ []) m h

  abbrev values_at : (CategoryRow → K) → K → List CategoryRow → List ℕ
  values_at key j [] = []
  values_at key j (r ∷ rs) =
      if e.beq (key r) j then r.category ∷ values_at key j rs else values_at key j rs

  pub get-collect_rows :
      (key : CategoryRow → K) (j : K) (rs : List CategoryRow) (m : List (K × List ℕ))
      → get e j (collect_rows e key rs m) ≡ extend (get e j m) (values_at key j rs)
  unfolding collect_rows
  get-collect_rows key j [] m = refl
  get-collect_rows key j (r ∷ rs) m = elim (Bool-cases (e.beq (key r) j)) [
    | inl same ↦
        rw
          (
            get-collect_rows key j rs (push_at e (key r) r.category m),
            get-push_at (key r) j r.category m,
            same,
          )
          refl
    | inr other ↦
        rw
          (
            get-collect_rows key j rs (push_at e (key r) r.category m),
            get-push_at (key r) j r.category m,
            other,
          )
          refl
  ]

-- The rows of one query, by application.
pub values_at-rows_for :
    (ids : List ℕ) (uid : Uid) (app_id : ℕ) (rows : List CategoryRow)
    → values_at nat_eq
        (λ r. r.app_id)
        app_id
        (filter (λ r. any (λ id. id == r.app_id) ids && r.user_id == uid && not r.ignore) rows)
      ≡ (if any (λ id. id == app_id) ids then given uid app_id rows else [])
values_at-rows_for ids uid app_id [] = ground arith
values_at-rows_for ids uid app_id (r ∷ rs) =
    let queried = any (λ id. id == r.app_id) ids && r.user_id == uid && not r.ignore in
    let rest = values_at-rows_for ids uid app_id rs in
    elim (Bool-cases (r.app_id == app_id)) [
      | inr other ↦ elim (Bool-cases queried) [
        | inl on ↦ rw (on, other, rest) refl
        | inr off ↦ rw (off, other, rest) refl
      ]
      | inl same ↦
          let at : queried ≡ (any (λ id. id == app_id) ids && r.user_id == uid && not r.ignore) =
            rw ((==_iff r.app_id app_id).0 same) refl in
          elim (Bool-cases queried) [
            | inl on ↦ rw (on, same, rest) (ground (arith, at, on))
            | inr off ↦ rw (off, same, rest) (ground (arith, at, off))
          ]
    ]

pub values_at-pair :
    (of uid : Uid) (app_id : ℕ) (rows : List CategoryRow)
    → values_at pair_eq (λ r. (of, r.app_id)) (uid, app_id) rows
      ≡ (if of == uid then values_at nat_eq (λ r. r.app_id) app_id rows else [])
values_at-pair of uid app_id [] = ground arith
values_at-pair of uid app_id (r ∷ rs) = elim (Bool-cases (of == uid)) [
  | inl same ↦ let rest = values_at-pair of uid app_id rs in ground (arith, same, rest)
  | inr other ↦ let rest = values_at-pair of uid app_id rs in ground (arith, other, rest)
]
