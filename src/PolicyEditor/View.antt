-- ===== src/PolicyEditor/View.antt =====
-- The policies screen's data: `PoliciesViewModel` of crates/gui/src/policies/domain.rs, and `fetch_all` and
-- `spawn_policies_flow` of crates/gui/src/policies/data, with what the `select!` chooses as a list of rounds.
pub mod Shown
use Prim.Native.String.{String}
use digital_wellbeing.Common.{
  ℕ, suc, ◌-◌, Bool, true, false, not, ◌&&◌, ◌==◌, if◌then◌else◌, Option, none, some, unwrap_or,
  List, [], ◌∷◌, map, ◌≡◌, refl, sym, subst, arith,
}
use digital_wellbeing.Policy.{PolicyTarget}
use digital_wellbeing.Policy.Rows.{PolicyData}
use digital_wellbeing.PolicyEditor.{PolicyConfigForm}
use digital_wellbeing.Store.Categories.{AppCategoryRow}
use digital_wellbeing.Values.AppClass.{AppClass}
use digital_wellbeing.Values.Category.{Category}

pub record PoliciesData : Type 0 where
  pub policies : List PolicyData
  pub categories : List Category
  pub app_list : List AppCategoryRow

pub record PoliciesViewModel : Type 0 where
  pub found : Option PoliciesData
  pub app_list : List AppClass
  pub selected_policy : Option (PolicyTarget × PolicyConfigForm)
  pub categories : List Category
  pub policies : List PolicyData
  pub validation_errors : List String
  pub is_admin : Bool

-- `Default` with the mode of the client.
unfoldable pub new_view : Bool → PoliciesViewModel
new_view is_admin = record {
  found = none;
  app_list = [];
  selected_policy = none;
  categories = [];
  policies = [];
  validation_errors = [];
  is_admin = is_admin;
}

-- `PoliciesViewModel::recompute_derived`
unfoldable pub derive_policies : PoliciesViewModel → PoliciesViewModel
derive_policies vm = elim vm.found [
  | none ↦ record vm { app_list = []; categories = []; policies = []; validation_errors = [] }
  | some d ↦ record vm {
    app_list = map (λ ac. ac.app_class) d.app_list;
    categories = d.categories;
    policies = d.policies;
    validation_errors = [];
  }
]

-- What the daemon answers; `none` is an error, or a call of more than ten seconds.
pub record PoliciesRepo : Type 0 where
  pub listed_policies : Option (List PolicyData)
  pub listed_categories : Option (List Category)
  pub app_categories : Option (List AppCategoryRow)

-- `PoliciesRepo::fetch_all`, which has no error.
unfoldable pub fetch_policies : PoliciesRepo → PoliciesData
fetch_policies repo = record {
  policies = unwrap_or repo.listed_policies [];
  categories = unwrap_or repo.listed_categories [];
  app_list = unwrap_or repo.app_categories [];
}

-- The flag of `appeared` is whether the bus was resolved again.
pub data PoliciesEvent : Type 0 where
  appeared : Bool → PoliciesEvent
  disappeared policy_changed stream_ended refresh : PoliciesEvent

-- One round of the loop: whether a proxy could be made and whether its signal could be received,
-- the event, and the answers while it is handled.
pub record PoliciesRound : Type 0 where
  pub has_proxy : Bool
  pub receives : Bool
  pub event : PoliciesEvent
  pub repo : PoliciesRepo

-- The loop's variables, the number of tasks that forward the signal, and the watch channel's value.
pub record PoliciesFlow : Type 0 where
  pub current_vm : PoliciesViewModel
  pub generation : ℕ
  pub proxy_subscribed : Bool
  pub daemon_available : Bool
  pub streams : ℕ
  pub sent : Option PoliciesViewModel

unfoldable pub start_policies : Bool → PoliciesFlow
unfolding new_view
start_policies is_admin = record {
  current_vm = new_view is_admin;
  generation = 0;
  proxy_subscribed = false;
  daemon_available = true;
  streams = 0;
  sent = none;
}

-- The part of a round before its `select!`.
unfoldable pub subscribe_policies : PoliciesRound → PoliciesFlow → PoliciesFlow
subscribe_policies r s =
    if not s.proxy_subscribed && s.daemon_available && r.has_proxy
    then record s {
      proxy_subscribed = true;
      streams = if r.receives then suc s.streams else s.streams;
    }
    else s

-- `do_full_fetch` of the policies, with the generation that it was started for.
unfoldable pub fetch_view : PoliciesRepo → ℕ → PoliciesFlow → PoliciesFlow
unfolding fetch_policies derive_policies
fetch_view repo fetch_gen s =
    let vm = derive_policies (record s.current_vm { found = some (fetch_policies repo) }) in
    if fetch_gen == s.generation then record s { current_vm = vm; sent = some vm } else s

unfoldable pub fetch_next : PoliciesRepo → PoliciesFlow → PoliciesFlow
unfolding fetch_view
fetch_next repo s = fetch_view repo (suc s.generation) (record s { generation = suc s.generation })

-- The end of a stream is the end of its task.
unfoldable pub handle_event : PoliciesRepo → PoliciesEvent → PoliciesFlow → PoliciesFlow
unfolding fetch_next
handle_event repo (appeared ok) s =
    let s' = record s { daemon_available = ok; proxy_subscribed = false } in
    if ok then fetch_next repo s' else s'
handle_event repo disappeared s = record s { daemon_available = false }
handle_event repo policy_changed s = if s.daemon_available then fetch_next repo s else s
handle_event repo stream_ended s = record s { proxy_subscribed = false; streams = s.streams - 1 }
handle_event repo refresh s = fetch_next repo s

unfoldable pub run_policies : List PoliciesRound → PoliciesFlow → PoliciesFlow
unfolding handle_event subscribe_policies
run_policies [] s = s
run_policies (r ∷ rounds) s =
    run_policies rounds (handle_event r.repo r.event (subscribe_policies r s))
