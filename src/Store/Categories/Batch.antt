-- ===== src/Store/Categories/Batch.antt =====
-- The batched lookup of categories beside a lookup for each pair.
use digital_wellbeing.Common.{
  ℕ, ◌≡◌, refl, ap, ◌∙◌, Bool, true, false, ◌&&◌, ◌||◌, ◌==◌, if◌then◌else◌, none, some, unwrap_or,
  List, [], ◌∷◌, ◌++◌, map, any, inl, inr, Bool-cases, ==_iff, arith, subst,
}
use digital_wellbeing.Common.Eq.{nat_eq}
use digital_wellbeing.Common.Map.{get, insert, IsMap, get-insert}
use digital_wellbeing.Store.{Tables}
use digital_wellbeing.Store.Categories.{
  Pair, pair_eq, push_at, group_by_uid, rows_for, collect_rows, collect_groups, populate,
  resolve_category_map, default_category, system_user,
}
use digital_wellbeing.Values.Blocked.{Uid}
use digital_wellbeing.Store.Categories.Collect.{
  given, extend, extend-some, get-push_at, push_at-IsMap, get-collect_rows, values_at-rows_for,
  values_at-pair,
}

abbrev or_else : List ℕ → List ℕ → List ℕ
or_else [] ys = ys
or_else (x ∷ xs) ys = x ∷ xs

-- The user's own, else the system's, else the default.
abbrev pub categories_of : Uid → ℕ → Tables → List ℕ
categories_of uid app_id t =
    or_else (given uid app_id t.app_categories)
      (or_else (given system_user app_id t.app_categories) (default_category ∷ []))

abbrev pub member : Pair → List Pair → Bool
member p pairs = any (λ q. pair_eq.beq q p) pairs

or_default : (xs ys : List ℕ) → unwrap_or (extend none xs) ys ≡ or_else xs ys
or_default [] ys = refl
or_default (x ∷ xs) ys = rw (extend-some (x ∷ []) xs) refl

-- What the queries of some groups find for a pair.
abbrev found : Uid → ℕ → List (Uid × List ℕ) → Tables → List ℕ
found uid app_id groups t =
    if any (λ id. id == app_id) (unwrap_or (get nat_eq uid groups) [])
    then given uid app_id t.app_categories
    else []

get-collect_groups :
    (uid : Uid) (app_id : ℕ) (t : Tables) (groups : List (Uid × List ℕ)) (m : List (Pair × List ℕ))
    → IsMap nat_eq groups
    → get pair_eq (uid, app_id) (collect_groups groups t m)
      ≡ extend (get pair_eq (uid, app_id) m) (found uid app_id groups t)
unfolding collect_groups rows_for
get-collect_groups uid app_id t [] m h = refl
get-collect_groups uid app_id t ((of, ids) ∷ groups) m h =
    let rows = rows_for ids of t in
    let m' = collect_rows pair_eq (λ r. (of, r.app_id)) rows m in
    let step = get-collect_rows pair_eq (λ r. (of, r.app_id)) (uid, app_id) rows m in
    let of_group = values_at-pair of uid app_id rows in
    let rest = get-collect_groups uid app_id t groups m' h.1 in
    elim (Bool-cases (of == uid)) [
      | inr other ↦ rw (rest, step, of_group, other) refl
      | inl same ↦
          let at : of ≡ uid = (==_iff of uid).0 same in
          let absent : get nat_eq uid groups ≡ none =
            subst (λ i. get nat_eq i groups ≡ none) at h.0 in
          rw (rest, step, of_group, same, absent)
            (ap (extend (get pair_eq (uid, app_id) m)) (
              values_at-rows_for ids of app_id t.app_categories
              ∙ ap
                  (λ i.
                    if any (λ id. id == app_id) ids then given i app_id t.app_categories else [])
                  at))
    ]

group_by_uid-IsMap :
    (pairs : List Pair) (groups : List (Uid × List ℕ))
    → IsMap nat_eq groups
    → IsMap nat_eq (group_by_uid pairs groups)
unfolding group_by_uid
group_by_uid-IsMap [] groups h = h
group_by_uid-IsMap ((uid, app_id) ∷ pairs) groups h =
    group_by_uid-IsMap pairs (push_at nat_eq uid app_id groups)
      (push_at-IsMap nat_eq uid app_id groups h)

-- Every pair stands in its user's group.
abbrev grouped : Uid → ℕ → List (Uid × List ℕ) → Bool
grouped uid app_id groups = any (λ id. id == app_id) (unwrap_or (get nat_eq uid groups) [])

any-append :
    (app_id v : ℕ) (xs : List ℕ)
    → any (λ id. id == app_id) (xs ++ v ∷ []) ≡ (any (λ id. id == app_id) xs || (v == app_id))
any-append app_id v [] = ground arith
any-append app_id v (x ∷ xs) = let rest = any-append app_id v xs in ground (arith, rest)

grouped-push_at :
    (uid of : Uid) (app_id v : ℕ) (groups : List (Uid × List ℕ))
    → grouped uid app_id (push_at nat_eq of v groups)
      ≡ (grouped uid app_id groups || (of == uid && (v == app_id)))
grouped-push_at uid of app_id v groups = elim (Bool-cases (of == uid)) [
  | inl same ↦
      rw
        (
          get-push_at nat_eq of uid v groups,
          same,
          any-append app_id v (unwrap_or (get nat_eq uid groups) []),
        )
        refl
  | inr other ↦ rw (get-push_at nat_eq of uid v groups, other) (ground arith)
]

or_assoc : (a b c : Bool) → ((a || b) || c) ≡ (a || (b || c))
or_assoc true b c = refl
or_assoc false b c = refl

grouped-group_by_uid :
    (uid : Uid) (app_id : ℕ) (pairs : List Pair) (groups : List (Uid × List ℕ))
    → grouped uid app_id (group_by_uid pairs groups)
      ≡ (grouped uid app_id groups || member (uid, app_id) pairs)
unfolding group_by_uid
grouped-group_by_uid uid app_id [] groups = ground arith
grouped-group_by_uid uid app_id ((of, v) ∷ pairs) groups =
    rw
      (
        grouped-group_by_uid uid app_id pairs (push_at nat_eq of v groups),
        grouped-push_at uid of app_id v groups,
      )
      (or_assoc (grouped uid app_id groups) (of == uid && (v == app_id))
        (member (uid, app_id) pairs))

-- The answer for a pair: what its user's query found, else the system's, else the default.
abbrev answer : Pair → List (Pair × List ℕ) → List (ℕ × List ℕ) → List ℕ
answer p um sm =
    unwrap_or (get pair_eq p um) (unwrap_or (get nat_eq p.1 sm) (default_category ∷ []))

get-populate :
    (p : Pair) (um : List (Pair × List ℕ)) (sm : List (ℕ × List ℕ)) (pairs : List Pair)
    (m : List (Pair × List ℕ))
    → get pair_eq p (populate pairs um sm m)
      ≡ (if member p pairs then some (answer p um sm) else get pair_eq p m)
unfolding populate
get-populate p um sm [] m = ground arith
get-populate p um sm (q ∷ pairs) m =
    let stored = answer q um sm in
    elim (Bool-cases (pair_eq.beq q p)) [
      | inl same ↦
          let at : answer q um sm ≡ answer p um sm =
            ap (λ x. answer x um sm) ((pair_eq.beq_iff q p).0 same) in
          rw
            (
              get-populate p um sm pairs (insert pair_eq q stored m),
              get-insert pair_eq q p stored m,
              same,
            )
            (ground (arith, at))
      | inr other ↦
          rw
            (
              get-populate p um sm pairs (insert pair_eq q stored m),
              get-insert pair_eq q p stored m,
              other,
            )
            refl
    ]

member-apps :
    (uid : Uid) (app_id : ℕ) (pairs : List Pair)
    → member (uid, app_id) pairs ≡ true
    → any (λ id. id == app_id) (map (λ p. p.1) pairs) ≡ true
member-apps uid app_id [] h = ground (arith, h)
member-apps uid app_id (q ∷ pairs) h = elim (Bool-cases (q.1 == app_id)) [
  | inl same ↦ rw same refl
  | inr other ↦ rw other (member-apps uid app_id pairs (ground (arith, h, other)))
]

answer_of :
    (p : Pair) (um : List (Pair × List ℕ)) (sm : List (ℕ × List ℕ)) (xs ys : List ℕ)
    → get pair_eq p um ≡ extend none xs
    → get nat_eq p.1 sm ≡ extend none ys
    → answer p um sm ≡ or_else xs (or_else ys (default_category ∷ []))
answer_of p um sm xs ys h k =
    rw (answer, h, k)
      (or_default xs (unwrap_or (extend none ys) (default_category ∷ []))
        ∙ ap (or_else xs) (or_default ys (default_category ∷ [])))

-- One batch of queries gives each pair asked for what a query for that pair alone would give: the
-- categories of the user's own rows that are not ignored, in the order of the table, else those of
-- the system user, else the default. A pair that was not asked for has no entry.
pub resolve_category_map-categories_of :
    (pairs : List Pair) (t : Tables) (uid : Uid) (app_id : ℕ)
    → get pair_eq (uid, app_id) (resolve_category_map pairs t)
      ≡ (if member (uid, app_id) pairs then some (categories_of uid app_id t) else none)
unfolding resolve_category_map rows_for
resolve_category_map-categories_of pairs t uid app_id =
    let groups = group_by_uid pairs [] in
    let ids = map (λ p. p.1) pairs in
    let um = collect_groups groups t [] in
    let sm = collect_rows nat_eq (λ r. r.app_id) (rows_for ids system_user t) [] in
    let rows = given system_user app_id t.app_categories in
    get-populate (uid, app_id) um sm pairs [] ∙ elim (Bool-cases (member (uid, app_id) pairs)) [
      | inr absent ↦ rw absent refl
      | inl asked ↦
          let asked_system : (if any (λ id. id == app_id) ids then rows else []) ≡ rows =
            rw (member-apps uid app_id pairs asked) refl in
          rw asked (
            ap some (
              answer_of (uid, app_id) um sm (given uid app_id t.app_categories)
                (given system_user app_id t.app_categories)
                (get-collect_groups uid app_id t groups [] (group_by_uid-IsMap pairs [] tt)
                  ∙ rw (found, grouped-group_by_uid uid app_id pairs [], asked) refl)
                (get-collect_rows nat_eq (λ r. r.app_id) app_id (rows_for ids system_user t) []
                  ∙ ap (extend none)
                      (values_at-rows_for ids system_user app_id t.app_categories ∙ asked_system))))
    ]
