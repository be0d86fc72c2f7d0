-- ===== src/Examples/Reports.antt =====
-- The bars of the reports screen over three days, with two totals for one of them.
use Prim.Native.String.{String}
use digital_wellbeing.Common.{
  ℕ, ◌+◌, ◌-◌, ◌*◌, ◌≡◌, refl, true, false, ◌==◌, if◌then◌else◌, none, some, [], ◌∷◌, map, arith,
}
use digital_wellbeing.ReportsScreen.{Hours, DayRange, ReportsData, ReportsViewModel, derive_reports}
use digital_wellbeing.ReportsScreen.Flow.{
  ReportsFlow, ReportsRound, IsDeaf, run_reports, subscribe_reports, run_reports-IsDeaf, refresh,
  disappeared,
}
use digital_wellbeing.ReportsScreen.Bars.{bars_of, bar_of, days_from, derive_reports-bars}

-- Hours as milliseconds.
abbrev in_millis : Hours
in_millis = record {
  F64 = ℕ;
  no_share = 0;
  hours = λ n. n;
  total = λ ns. 0;
  percent = λ a total. a * 100;
}

abbrev date_text : ℕ → String
date_text day = if day == 20653 then "2026-07-18" else "2026-07-19"

abbrev answers : ReportsData
answers = record {
  daily_totals =
      record { date = "2026-07-18"; total_millis = 7200000 }
      ∷ record { date = "2026-07-18"; total_millis = 3600000 }
      ∷ [];
  app_categories = [];
  app_summary = [];
  title_summary = [];
}

abbrev before : ReportsViewModel in_millis
before = record {
  found = some answers;
  date_range = record { start = 0; end = 0 };
  bar_chart = [];
  app_list = [];
  title_list = [];
  total_millis = 0;
  top_app = "";
}

abbrev three_days : DayRange
three_days = record { start = 20652; end = 20654 }

derive_reports-bars_example :
    bars_of in_millis date_text 20653
      (derive_reports in_millis true date_text 20653 three_days before)
    ≡ some (
        map
          (bar_of in_millis date_text 20653 answers.daily_totals)
          (days_from 20652 (20654 + 1 - 20652)))
derive_reports-bars_example =
    derive_reports-bars in_millis date_text 20653 true three_days answers before refl (omega arith)
      (omega arith)

abbrev started : ReportsFlow in_millis true date_text
started = record {
  current_vm = before;
  generation = 0;
  proxy_subscribed = false;
  daemon_available = true;
  streams = 0;
  sent = none;
  panicked = false;
}

abbrev refreshed : ReportsRound
refreshed = record {
  opened = some 4;
  event = refresh;
  selected_range = three_days;
  calls = record {
    bar_totals = λ a b. some answers.daily_totals;
    categories = none;
    apps = λ a b. none;
    titles = λ a b. none;
  };
  today = 20653;
}

run_reports-IsDeaf_example : IsDeaf in_millis true date_text (
    run_reports in_millis true date_text
      (refreshed ∷ record refreshed { event = disappeared } ∷ [])
      (subscribe_reports in_millis true date_text (some 0) started))
run_reports-IsDeaf_example =
    run_reports-IsDeaf in_millis true date_text
      (refreshed ∷ record refreshed { event = disappeared } ∷ []) started refl refl refl
      (tt, (tt, tt))
