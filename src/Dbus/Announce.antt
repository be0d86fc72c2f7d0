-- ===== src/Dbus/Announce.antt =====
-- What an ordinary caller can do to the daemon, over all the methods: whose policies change, and who is
-- told of a change.
use Prim.Native.String.{String}
use digital_wellbeing.Common.{
  ℕ, ◌^◌, ◌<◌, ◌≡◌, refl, true, false, ◌==◌, none, List, ◌∷◌, inl, inr, ◌⊎◌, Bool-cases,
  Option-cases,
}
use digital_wellbeing.Categorization.{set_app_category as set_app_category_of}
use digital_wellbeing.Dbus.{Result-cases, Call, DaemonInterface, Result, authenticate}
use digital_wellbeing.Dbus.Methods.{
  create_policy, update_policy, delete_policy, register_plugin, register_bridge, set_app_category,
}
use digital_wellbeing.Policy.Owners.{others, IsKeyed}
use digital_wellbeing.Dbus.Ownership.{
  create_policy-others, update_policy-others, delete_policy-others, verify-owned,
}
use digital_wellbeing.Dbus.Requests.{Request, World, serve}
use digital_wellbeing.Policy.Repo
use digital_wellbeing.Policy.Rows.{PolicyInput}
use digital_wellbeing.Store.{Tables, as_i32}
use digital_wellbeing.Store.Apps.{find_app}
use digital_wellbeing.Store.Categories.{upsert_app_category}
use digital_wellbeing.Store.Policies
use digital_wellbeing.Store.Policies.{find_policy}
use digital_wellbeing.Values.AppClass
use digital_wellbeing.Values.AppClass.{AppClass}
use digital_wellbeing.Values.Blocked.{Uid, PolicyId}
use digital_wellbeing.Values.Category.{Category}

-- A change of a category never succeeds: the statement names the column `updated_at`, which the
-- table does not have.
pub set_app_category_fails :
    (app_class : AppClass) (category : Category) (caller : Uid) (t : Tables)
    → set_app_category_of app_class category caller t ≡ none
unfolding set_app_category_of upsert_app_category
set_app_category_fails app_class category caller t =
    elim (Option-cases (find_app app_class.text t.apps)) [
      | inl unknown ↦ rw (set_app_category_of, upsert_app_category, unknown) refl
      | inr (id, known) ↦ rw (set_app_category_of, upsert_app_category, known) refl
    ]

-- Nothing was told, or one announcement, of the user.
abbrev pub IsTold : Uid → List Uid → List Uid → Type 0
IsTold uid before after = (after ≡ before) ⊎ (after ≡ uid ∷ before)

-- The policies of everyone else stand as they stood, and nobody else is announced.
abbrev pub IsOwn : {Proxy : Type 0} → Uid → DaemonInterface Proxy → DaemonInterface Proxy → Type 0
IsOwn uid d d' =
    (others uid d'.tables.policies ≡ others uid d.tables.policies)
    × IsTold uid d.sent d'.sent
    × IsTold uid d.signalled d'.signalled

IsOwn-refl : {Proxy : Type 0} (uid : Uid) (d : DaemonInterface Proxy) → IsOwn uid d d
IsOwn-refl uid d = (refl, inl refl, inl refl)

module _ {Proxy : Type 0} (call : Call Proxy) (d : DaemonInterface Proxy) (caller : Uid) where
  register_plugin-IsOwn : IsOwn caller d (register_plugin call d).1
  unfolding register_plugin
  register_plugin-IsOwn = elim (Option-cases call.sender) [
    | inl unnamed ↦ rw (register_plugin, unnamed) (IsOwn-refl caller d)
    | inr (sender, named) ↦ elim (Result-cases (authenticate call)) [
      | inl (e, refused) ↦ rw (register_plugin, named, refused) (IsOwn-refl caller d)
      | inr (uid, known) ↦ elim (Bool-cases (call.accepts sender)) [
        | inr unfit ↦ rw (register_plugin, named, known, unfit) (IsOwn-refl caller d)
        | inl fit ↦ elim (Option-cases (call.build_proxy sender)) [
          | inl failed ↦ rw (register_plugin, named, known, fit, failed) (IsOwn-refl caller d)
          | inr (proxy, built) ↦
              rw (register_plugin, named, known, fit, built) (refl, inl refl, inl refl)
        ]
      ]
    ]
  ]

  register_bridge-IsOwn : IsOwn caller d (register_bridge call d).1
  unfolding register_bridge
  register_bridge-IsOwn = elim (Option-cases call.sender) [
    | inl unnamed ↦ rw (register_bridge, unnamed) (IsOwn-refl caller d)
    | inr (sender, named) ↦ elim (Result-cases (authenticate call)) [
      | inl (e, refused) ↦ rw (register_bridge, named, refused) (IsOwn-refl caller d)
      | inr (uid, known) ↦ rw (register_bridge, named, known) (refl, inl refl, inl refl)
    ]
  ]

  set_app_category-IsOwn :
      (text : String) (category : Category)
      → IsOwn caller d (set_app_category call d text category).1
  unfolding set_app_category
  set_app_category-IsOwn text category = elim (Result-cases (authenticate call)) [
    | inl (e, refused) ↦ rw (set_app_category, refused) (IsOwn-refl caller d)
    | inr (uid, known) ↦ elim (Option-cases (AppClass.new text)) [
      | inl empty ↦ rw (set_app_category, known, empty) (IsOwn-refl caller d)
      | inr (app, named) ↦
          rw (set_app_category, known, named, set_app_category_fails app category uid d.tables)
            (IsOwn-refl caller d)
    ]
  ]

module _ {Proxy : Type 0} (call : Call Proxy) (d : DaemonInterface Proxy) (caller : Uid)
    (is_caller : authenticate call ≡ Result.ok caller) (ordinary : (caller == 0) ≡ false)
    (fits : caller < 2 ^ 32) where
  abbrev Announced : DaemonInterface Proxy → Type 0
  Announced d' = IsTold caller d.sent d'.sent × IsTold caller d.signalled d'.signalled

  create_policy-Announced :
      (new_id new_app : ℕ) (input : PolicyInput)
      → Announced (create_policy call d new_id new_app input).1
  unfolding create_policy
  create_policy-Announced new_id new_app input = elim (Bool-cases (input.user_id == caller)) [
    | inr foreign ↦ rw (create_policy, is_caller, ordinary, foreign) (inl refl, inl refl)
    | inl own ↦ elim (Option-cases (Repo.create new_id new_app input caller d.tables)) [
      | inl failed ↦ rw (create_policy, is_caller, ordinary, own, failed) (inl refl, inl refl)
      | inr (stored, done) ↦ rw (create_policy, is_caller, ordinary, own, done) (inr refl, inr refl)
    ]
  ]

  update_policy-Announced :
      (new_app : ℕ) (id : PolicyId) (input : PolicyInput)
      → Announced (update_policy call d new_app id input).1
  unfolding update_policy
  update_policy-Announced new_app id input =
      elim (verify-owned (as_i32 id) caller d.tables ordinary fits) [
        | inl (e, refused) ↦ rw (update_policy, is_caller, refused) (inl refl, inl refl)
        | inr (verified, owned) ↦ elim (Option-cases (Repo.update new_app id input d.tables)) [
          | inl failed ↦ rw (update_policy, is_caller, verified, failed) (inl refl, inl refl)
          | inr ((true, t'), done) ↦
              rw (update_policy, is_caller, verified, done) (inr refl, inr refl)
          | inr ((false, t'), done) ↦
              rw (update_policy, is_caller, verified, done) (inl refl, inl refl)
        ]
      ]

  delete_policy-Announced : (id : PolicyId) → Announced (delete_policy call d id).1
  unfolding delete_policy
  delete_policy-Announced id = elim (verify-owned (as_i32 id) caller d.tables ordinary fits) [
    | inl (e, refused) ↦ rw (delete_policy, is_caller, refused) (inl refl, inl refl)
    | inr (verified, owned) ↦ elim (Bool-cases (Repo.delete (as_i32 id) d.tables).0) [
      | inl there ↦ rw (delete_policy, is_caller, verified, there) (inr refl, inr refl)
      | inr gone ↦ rw (delete_policy, is_caller, verified, gone) (inl refl, inl refl)
    ]
  ]

-- A request by a user other than root, whatever method it calls, leaves the policy rows of every other
-- user as they were, and announces a policy change at most of the caller, if no two rows of the
-- table have the same id.
pub serve-IsOwn :
    {Proxy : Type 0} (w : World) (call : Call Proxy) (caller : Uid) (request : Request)
    (d : DaemonInterface Proxy)
    → authenticate call ≡ Result.ok caller
    → (caller == 0) ≡ false
    → caller < 2 ^ 32
    → IsKeyed d.tables.policies
    → IsOwn caller d (serve w call request d).1
unfolding serve
serve-IsOwn w call caller (Request.create_policy input) d known ordinary fits keyed =
    let (sent, signalled) =
      create_policy-Announced call d caller known ordinary fits w.new_id w.new_app input in
    (
      create_policy-others call d caller known ordinary fits w.new_id w.new_app input,
      sent,
      signalled,
    )
serve-IsOwn w call caller (Request.update_policy id input) d known ordinary fits keyed =
    let (sent, signalled) =
      update_policy-Announced call d caller known ordinary fits w.new_app id input in
    (
      update_policy-others call d caller known ordinary fits w.new_app id input keyed,
      sent,
      signalled,
    )
serve-IsOwn w call caller (Request.delete_policy id) d known ordinary fits keyed =
    let (sent, signalled) = delete_policy-Announced call d caller known ordinary fits id in
    (delete_policy-others call d caller known ordinary fits id keyed, sent, signalled)
serve-IsOwn w call caller Request.register_plugin d known ordinary fits keyed =
    register_plugin-IsOwn call d caller
serve-IsOwn w call caller Request.register_bridge d known ordinary fits keyed =
    register_bridge-IsOwn call d caller
serve-IsOwn w call caller (Request.set_app_category text category) d known ordinary fits keyed =
    set_app_category-IsOwn call d caller text category
serve-IsOwn w call caller _ d known ordinary fits keyed = IsOwn-refl caller d
