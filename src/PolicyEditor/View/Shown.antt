-- ===== src/PolicyEditor/View/Shown.antt =====
-- What the policies screen was sent last, by the answers of the daemon.
use digital_wellbeing.Common.{
  suc, ◌≡◌, refl, ap, ◌∙◌, Bool, true, false, not, ◌&&◌, ◌==◌, if◌then◌else◌, Option, none, some,
  unwrap_or, List, [], ◌∷◌, map, sym, subst, arith,
}
use digital_wellbeing.PolicyEditor.View.{
  PoliciesViewModel, PoliciesRepo, PoliciesEvent, PoliciesRound, PoliciesFlow, new_view,
  derive_policies, fetch_policies, start_policies, subscribe_policies, fetch_view, fetch_next,
  handle_event, run_policies, appeared, disappeared, policy_changed, stream_ended, refresh,
}

-- Whether the daemon is taken to be there after an event, and whether the event asks it for all data.
abbrev pub up_after : Bool → PoliciesEvent → Bool
up_after up (appeared ok) = ok
up_after up disappeared = false
up_after up policy_changed = up
up_after up stream_ended = up
up_after up refresh = up

abbrev pub asks : Bool → PoliciesEvent → Bool
asks up (appeared ok) = ok
asks up disappeared = false
asks up policy_changed = up
asks up stream_ended = false
asks up refresh = true

-- The answers in the last of some rounds that asks for data, or earlier ones.
abbrev pub last_answers : Bool → Option PoliciesRepo → List PoliciesRound → Option PoliciesRepo
last_answers up o [] = o
last_answers up o (r ∷ rounds) =
    last_answers (up_after up r.event) (if asks up r.event then some r.repo else o) rounds

-- The screen of some answers: their lists, empty where the daemon gave no answer.
abbrev pub screen_of : Bool → PoliciesRepo → PoliciesViewModel
screen_of is_admin repo =
    let policies = unwrap_or repo.listed_policies [] in
    let categories = unwrap_or repo.listed_categories [] in
    let app_categories = unwrap_or repo.app_categories [] in
    record {
      found =
          some (record { policies = policies; categories = categories; app_list = app_categories });
      app_list = map (λ ac. ac.app_class) app_categories;
      selected_policy = none;
      categories = categories;
      policies = policies;
      validation_errors = [];
      is_admin = is_admin;
    }

abbrev pub screen : Bool → Option PoliciesRepo → Option PoliciesViewModel
screen is_admin none = none
screen is_admin (some repo) = some (screen_of is_admin repo)

-- The flow after rounds with these last answers.
record Tracks (is_admin up : Bool) (o : Option PoliciesRepo) (s : PoliciesFlow) : Type 0 where
  pub available : s.daemon_available ≡ up
  pub shows : s.current_vm ≡ unwrap_or (screen is_admin o) (new_view is_admin)
  pub told : s.sent ≡ screen is_admin o

derive-screen_of :
    (is_admin : Bool) (o : Option PoliciesRepo) (repo : PoliciesRepo)
    → derive_policies (record (unwrap_or (screen is_admin o) (new_view is_admin)) {
      found = some (fetch_policies repo);
    })
      ≡ screen_of is_admin repo
unfolding derive_policies fetch_policies new_view
derive-screen_of is_admin none repo = refl
derive-screen_of is_admin (some before) repo = refl

fetch_next-Tracks :
    (is_admin up : Bool) (o : Option PoliciesRepo) (repo : PoliciesRepo) (s : PoliciesFlow)
    → Tracks is_admin up o s
    → Tracks is_admin up (some repo) (fetch_next repo s)
unfolding fetch_next fetch_view
fetch_next-Tracks is_admin up o repo s h =
    let vm = derive_policies (record s.current_vm { found = some (fetch_policies repo) }) in
    let sends =
      fetch_next repo s
      ≡ record s { current_vm = vm; generation = suc s.generation; sent = some vm } in
    let same : (suc s.generation == suc s.generation) ≡ true = ground arith in
    let is : sends = rw (fetch_next, fetch_view, same) refl in
    let new : vm ≡ screen_of is_admin repo =
      ap
        (λ (v : PoliciesViewModel).
          derive_policies (record v { found = some (fetch_policies repo) }))
        h.shows
      ∙ derive-screen_of is_admin o repo in
    subst (Tracks is_admin up (some repo)) (sym is)
      (record { available = h.available; shows = new; told = ap some new })

handle_event-Tracks :
    (is_admin up : Bool) (o : Option PoliciesRepo) (repo : PoliciesRepo) (event : PoliciesEvent)
    (s : PoliciesFlow)
    → Tracks is_admin up o s
    → Tracks is_admin
        (up_after up event)
        (if asks up event then some repo else o)
        (handle_event repo event s)
unfolding handle_event
handle_event-Tracks is_admin up o repo (appeared true) s h =
    fetch_next-Tracks is_admin true o repo _
      (record { available = refl; shows = h.shows; told = h.told })
handle_event-Tracks is_admin up o repo (appeared false) s h = record {
  available = refl;
  shows = h.shows;
  told = h.told;
}
handle_event-Tracks is_admin up o repo disappeared s h = record {
  available = refl;
  shows = h.shows;
  told = h.told;
}
handle_event-Tracks is_admin true o repo policy_changed s h =
    subst (λ b. Tracks is_admin true (some repo) (if b then fetch_next repo s else s))
      (sym h.available) (fetch_next-Tracks is_admin true o repo s h)
handle_event-Tracks is_admin false o repo policy_changed s h =
    subst (λ b. Tracks is_admin false o (if b then fetch_next repo s else s)) (sym h.available) h
handle_event-Tracks is_admin up o repo stream_ended s h = record {
  available = h.available;
  shows = h.shows;
  told = h.told;
}
handle_event-Tracks is_admin up o repo refresh s h = fetch_next-Tracks is_admin up o repo s h

subscribe-Tracks :
    (is_admin up : Bool) (o : Option PoliciesRepo) (r : PoliciesRound) (s : PoliciesFlow)
    → Tracks is_admin up o s
    → Tracks is_admin up o (subscribe_policies r s)
unfolding subscribe_policies
subscribe-Tracks is_admin up o r s h =
    go (not s.proxy_subscribed && s.daemon_available && r.has_proxy)
  where
    go :
        (test : Bool)
        → Tracks is_admin up o (
            if test
            then record s {
              proxy_subscribed = true;
              streams = if r.receives then suc s.streams else s.streams;
            }
            else s)
    go true = record { available = h.available; shows = h.shows; told = h.told }
    go false = h

run-Tracks :
    (is_admin up : Bool) (o : Option PoliciesRepo) (rounds : List PoliciesRound) (s : PoliciesFlow)
    → Tracks is_admin up o s
    → (run_policies rounds s).sent ≡ screen is_admin (last_answers up o rounds)
unfolding run_policies
run-Tracks is_admin up o [] s h = h.told
run-Tracks is_admin up o (r ∷ rounds) s h =
    run-Tracks is_admin (up_after up r.event) (if asks up r.event then some r.repo else o) rounds
      (handle_event r.repo r.event (subscribe_policies r s))
      (handle_event-Tracks is_admin up o r.repo r.event _ (subscribe-Tracks is_admin up o r s h))

-- After any rounds of the policies flow, what the screen was sent last is exactly the screen of the
-- answers in the last round that asked the daemon for its data: its policies, its categories and
-- the classes of its applications, each list empty where the call failed, in the mode that the
-- flow was started in. The rounds that ask are those in which the daemon appears and is found
-- again, a refresh, and a changed policy while the daemon has not gone; without one nothing was sent.
pub run_policies-shows :
    (is_admin : Bool) (rounds : List PoliciesRound)
    → (run_policies rounds (start_policies is_admin)).sent
      ≡ screen is_admin (last_answers true none rounds)
unfolding start_policies
run_policies-shows is_admin rounds =
    run-Tracks is_admin true none rounds (start_policies is_admin)
      (record { available = refl; shows = refl; told = refl })
