-- ===== src/Usage.antt =====
-- Daily usage: crates/daemon/src/store/daos/daily_usage/accumulate.rs and deltas.rs of the same folder.
-- The HashMaps keyed by user and date are association lists; HashMap iteration is in list order.
pub mod Dates
pub mod Totals
pub mod Walk
pub mod Deltas
pub mod Accounting
pub mod FocusTime
pub mod Once
pub mod Registered
pub mod Order
use Prim.Native.String.{String}
use digital_wellbeing.Common.{ℕ, ◌+◌, ◌≡◌, ◌↔◌, Option, unwrap_or, List, [], ◌∷◌, true, arith}
use digital_wellbeing.Common.Eq.{Eq, nat_eq, string_eq, pair_beq, pair_beq_iff}
use digital_wellbeing.Common.Map.{get, insert}
use digital_wellbeing.Clock.{split_by_utc_day}
use digital_wellbeing.Usage.Dates.{daily_date_str}
use digital_wellbeing.Values.AppClass.{AppClass}
use digital_wellbeing.Values.Blocked.{Uid}
use digital_wellbeing.Values.WindowTitle.{WindowTitle}

-- The fields of `AggKeyApp`, and of `AggKeyTitle` with the two texts last.
abbrev pub AggKeyApp : Type 0
AggKeyApp = String × ℕ

abbrev pub AggKeyTitle : Type 0
AggKeyTitle = AggKeyApp × (String × String)

abbrev pub pair_eq {ℓ κ} : {A : Type ℓ} {B : Type κ} → Eq A → Eq B → Eq (A × B)
pair_eq ea eb = record { beq = pair_beq ea eb; beq_iff = pair_beq_iff ea eb }

abbrev pub app_key_eq : Eq (Uid × AggKeyApp)
app_key_eq = pair_eq nat_eq (pair_eq string_eq nat_eq)

abbrev pub title_key_eq : Eq (Uid × AggKeyTitle)
title_key_eq = pair_eq nat_eq (pair_eq (pair_eq string_eq nat_eq) (pair_eq string_eq string_eq))

-- `OpenFocus`
pub record OpenFocus : Type 0 where
  pub ts_ms : ℕ
  pub app_class : AppClass
  pub app_id : ℕ
  pub title : WindowTitle

-- The two maps that an interval is accumulated into.
pub record Agg : Type 0 where
  pub by_app : List ((Uid × AggKeyApp) × ℕ)
  pub by_title : List ((Uid × AggKeyTitle) × ℕ)

abbrev pub empty : Agg
empty = record { by_app = []; by_title = [] }

-- `*agg.entry(key).or_insert(0) += dur`
abbrev pub add {ℓ} : {K : Type ℓ} → Eq K → K → ℕ → List (K × ℕ) → List (K × ℕ)
add e k dur m = insert e k (unwrap_or (get e k m) 0 + dur) m

-- The loop over the segments.
unfoldable pub accumulate_segments : OpenFocus → Uid → List (ℕ × ℕ) → Agg → Agg
unfolding daily_date_str
accumulate_segments f uid [] agg = agg
accumulate_segments f uid ((day_start_ms, dur) ∷ segs) agg =
    let key : AggKeyApp = (daily_date_str day_start_ms, f.app_id) in
    accumulate_segments f uid segs (record {
      by_app = add app_key_eq (uid, key) dur agg.by_app;
      by_title = add title_key_eq (uid, (key, (f.app_class.text, f.title.text))) dur agg.by_title;
    })

-- `accumulate_range`, called by `accumulate_closed` with the closing time and by `accumulate_open` with
-- the present time.
unfoldable pub accumulate_range : OpenFocus → ℕ → Uid → Agg → Agg
unfolding accumulate_segments split_by_utc_day
accumulate_range f end_ms uid agg = accumulate_segments f uid (split_by_utc_day f.ts_ms end_ms) agg

unfoldable pub accumulate_closed : OpenFocus → ℕ → Uid → Agg → Agg
unfolding accumulate_range
accumulate_closed prev close_ts_ms uid agg = accumulate_range prev close_ts_ms uid agg

unfoldable pub accumulate_open : OpenFocus → ℕ → Uid → Agg → Agg
unfolding accumulate_range
accumulate_open focus now_ms uid agg = accumulate_range focus now_ms uid agg
