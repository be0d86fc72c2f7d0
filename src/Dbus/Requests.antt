-- ===== src/Dbus/Requests.antt =====
-- A method call as data, and its answer by the daemon: the interface of
-- crates/daemon/src/dbus/methods/mod.rs as one step.
use Prim.Native.String.{String}
use digital_wellbeing.Common.{ℕ, List}
use digital_wellbeing.Dbus.{Result, Call, DaemonInterface}
use digital_wellbeing.Dbus.Methods
use digital_wellbeing.Dbus.Reports
use digital_wellbeing.Dbus.Reports.{ReportsRepo}
use digital_wellbeing.Policy.{TimeWindow}
use digital_wellbeing.Policy.Rows.{PolicyInput, PolicyData}
use digital_wellbeing.Reports.{AppUsageSummary, TitleUsageSummary, CategoryUsageSummary, DateTotal}
use digital_wellbeing.Store.Categories.{AppCategoryRow}
use digital_wellbeing.Timeline.{DayEventRow}
use digital_wellbeing.Values.Blocked.{Uid, PolicyId, BlockedAppEntry}
use digital_wellbeing.Values.Category.{Category}

pub data Request : Type 0 where
  list_policies get_blocked_apps list_categories get_app_categories register_plugin
        register_bridge :
      Request
  list_policies_for_user get_blocked_apps_for_user : Uid → Request
  create_policy : PolicyInput → Request
  update_policy : PolicyId → PolicyInput → Request
  delete_policy : PolicyId → Request
  set_app_category : String → Category → Request
  get_app_usage_summary get_title_usage_summary get_category_usage_summary get_daily_bar_totals :
      String → String → Request
  get_app_usage_summary_for_user get_title_usage_summary_for_user
        get_category_usage_summary_for_user get_daily_bar_totals_for_user :
      String → String → Uid → Request
  get_day_events : ℕ → ℕ → Request
  get_day_events_for_user : Uid → ℕ → ℕ → Request

pub data Reply : Type 0 where
  policies : Result (List PolicyData) → Reply
  created : Result PolicyId → Reply
  done : Result Unit → Reply
  blocked : Result (List BlockedAppEntry) → Reply
  app_usage : Result (List AppUsageSummary) → Reply
  title_usage : Result (List TitleUsageSummary) → Reply
  category_usage : Result (List CategoryUsageSummary) → Reply
  bars : Result (List DateTotal) → Reply
  events : Result (List DayEventRow) → Reply
  categories : Result (List Category) → Reply
  app_categories : Result (List AppCategoryRow) → Reply

-- The ids that the database would give to a new policy and to a new application, and serde_json's text
-- of a schedule.
pub record World : Type 0 where
  pub new_id : ℕ
  pub new_app : ℕ
  pub to_json : List TimeWindow → String
  pub reports : ReportsRepo

abbrev pub reply_with : {A B C : Type 0} → (A → B) → A × C → B × C
reply_with f (a, c) = (f a, c)

module _ {Proxy : Type 0} (w : World) (call : Call Proxy) where
  unfoldable pub serve : Request → DaemonInterface Proxy → Reply × DaemonInterface Proxy
  serve Request.list_policies d = (Reply.policies (Methods.list_policies call d w.to_json), d)
  serve (Request.list_policies_for_user uid) d =
      (Reply.policies (Methods.list_policies_for_user call d w.to_json uid), d)
  serve (Request.create_policy input) d =
      reply_with Reply.created (Methods.create_policy call d w.new_id w.new_app input)
  serve (Request.update_policy id input) d =
      reply_with Reply.done (Methods.update_policy call d w.new_app id input)
  serve (Request.delete_policy id) d = reply_with Reply.done (Methods.delete_policy call d id)
  serve Request.register_plugin d = reply_with Reply.done (Methods.register_plugin call d)
  serve Request.register_bridge d = reply_with Reply.done (Methods.register_bridge call d)
  serve Request.get_blocked_apps d = (Reply.blocked (Methods.get_blocked_apps call d), d)
  serve (Request.get_blocked_apps_for_user uid) d =
      (Reply.blocked (Methods.get_blocked_apps_for_user call d uid), d)
  serve (Request.get_app_usage_summary first last) d =
      (Reply.app_usage (Reports.get_app_usage_summary w.reports call first last), d)
  serve (Request.get_app_usage_summary_for_user first last uid) d =
      (Reply.app_usage (Reports.get_app_usage_summary_for_user w.reports call first last uid), d)
  serve (Request.get_title_usage_summary first last) d =
      (Reply.title_usage (Reports.get_title_usage_summary w.reports call first last), d)
  serve (Request.get_title_usage_summary_for_user first last uid) d = (
    Reply.title_usage (Reports.get_title_usage_summary_for_user w.reports call first last uid),
    d,
  )
  serve (Request.get_category_usage_summary first last) d =
      (Reply.category_usage (Reports.get_category_usage_summary w.reports call first last), d)
  serve (Request.get_category_usage_summary_for_user first last uid) d = (
    Reply.category_usage
        (Reports.get_category_usage_summary_for_user w.reports call first last uid),
    d,
  )
  serve (Request.get_daily_bar_totals first last) d =
      (Reply.bars (Reports.get_daily_bar_totals w.reports call first last), d)
  serve (Request.get_daily_bar_totals_for_user first last uid) d =
      (Reply.bars (Reports.get_daily_bar_totals_for_user w.reports call first last uid), d)
  serve (Request.get_day_events start finish) d =
      (Reply.events (Reports.get_day_events w.reports call start finish), d)
  serve (Request.get_day_events_for_user uid start finish) d =
      (Reply.events (Reports.get_day_events_for_user w.reports call uid start finish), d)
  serve Request.list_categories d = (Reply.categories Reports.list_categories, d)
  serve Request.get_app_categories d = (Reply.app_categories (Methods.get_app_categories call d), d)
  serve (Request.set_app_category text category) d =
      reply_with Reply.done (Methods.set_app_category call d text category)
