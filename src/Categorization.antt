-- ===== src/Categorization.antt =====
-- crates/daemon/src/categorization: the categorizer, its keyword classifier and its repository. A point
-- of the monotonic clock is a number of nanoseconds; `to_lowercase` is the standard library's.
use Prim.Native.String.{String}
use text.Mathlib.Text.{find?}
use digital_wellbeing.Common.{
  ℕ, ◌-◌, ◌*◌, ◌≡◌, ◌∙◌, ap, refl, Bool, ltb, if◌then◌else◌, Option, none, some, is_some, List, [],
  ◌∷◌, any, inl, inr, Bool-cases, Option-cases,
}
use digital_wellbeing.Common.Map.{get, insert, remove, get-insert}
use digital_wellbeing.Store.{Tables}
use digital_wellbeing.Store.Categories.{
  AppCategoryRow, resolve_categories_for_app, list_app_categories, upsert_app_category, system_user,
}
use digital_wellbeing.Values.AppClass.{AppClass, app_class_eq}
use digital_wellbeing.Values.Blocked.{Uid}
use digital_wellbeing.Values.Category.{Category}

-- `AiClassifier`
pub record AiClassifier : Type 0 where
  pub classify : AppClass → Option String → Option Category

pub data CategorySource : Type 0 where
  app_category : AppClass → Category → CategorySource
  ai_classified : AppClass → Category → CategorySource
  uncategorized : CategorySource

-- Whether a text contains one of the keywords.
abbrev contains_any : String → List String → Bool
contains_any lower keywords = any (λ kw. is_some (find? lower kw)) keywords

abbrev productivity_kw : List String
productivity_kw =
    "alacritty" ∷ "kitty" ∷ "foot" ∷ "wezterm" ∷ "gnome-terminal" ∷ "konsole" ∷ "terminator"
    ∷ "tmux" ∷ []

abbrev development_kw : List String
development_kw =
    "code" ∷ "idea" ∷ "nvim" ∷ "neovim" ∷ "emacs" ∷ "sublime" ∷ "atom" ∷ "zed" ∷ "jetbrains"
    ∷ "android-studio" ∷ "vim" ∷ "helix" ∷ []

abbrev social_kw : List String
social_kw = "firefox" ∷ "chrome" ∷ "chromium" ∷ "brave" ∷ "zen-browser" ∷ "edge" ∷ "opera" ∷ []

abbrev communication_kw : List String
communication_kw =
    "slack" ∷ "discord" ∷ "telegram" ∷ "element" ∷ "signal" ∷ "whatsapp" ∷ "messenger"
    ∷ "thunderbird" ∷ "outlook" ∷ []

abbrev entertainment_kw : List String
entertainment_kw =
    "spotify" ∷ "steam" ∷ "youtube" ∷ "yt" ∷ "netflix" ∷ "vlc" ∷ "mpv" ∷ "twitch" ∷ []

-- `HeuristicClassifier::match_keywords`
unfoldable pub match_keywords : (String → String) → String → Option Category
match_keywords to_lowercase app_class =
    let lower = to_lowercase app_class in
    if contains_any lower productivity_kw
    then some Category.productivity
    else if contains_any lower development_kw
    then some Category.development
    else if contains_any lower social_kw
    then some Category.social
    else if contains_any lower communication_kw
    then some Category.communication
    else if contains_any lower entertainment_kw
    then some Category.entertainment
    else none

unfoldable pub heuristic : (String → String) → AiClassifier
unfolding match_keywords
heuristic to_lowercase = record {
  classify = λ app_class title. match_keywords to_lowercase app_class.text;
}

-- The nanoseconds of `CACHE_TTL`.
abbrev pub cache_ttl : ℕ
cache_ttl = 60 * 1000000000

abbrev pub CacheMap : Type 0
CacheMap = List (AppClass × (Category × ℕ))

unfoldable pub invalidate : AppClass → CacheMap → CacheMap
invalidate app_class cache = remove app_class_eq app_class cache

-- Without a connection there is no answer; the second lookup is for the system user.
unfoldable pub lookup_db : AppClass → Uid → Option Tables → Option CategorySource
unfolding resolve_categories_for_app
lookup_db app_class uid none = none
lookup_db app_class uid (some t) = elim (resolve_categories_for_app app_class uid t) [
  | c ∷ cs ↦ some (CategorySource.app_category app_class c)
  | [] ↦ elim (resolve_categories_for_app app_class system_user t) [
    | c ∷ cs ↦ some (CategorySource.app_category app_class c)
    | [] ↦ none
  ]
]

-- `lookup_cache` at a time; an entry that is too old is removed.
unfoldable pub lookup_cache : AppClass → ℕ → CacheMap → Option CategorySource × CacheMap
lookup_cache app_class now cache = elim (get app_class_eq app_class cache) [
  | none ↦ (none, cache)
  | some (category, inserted_at) ↦
      if ltb (now - inserted_at) cache_ttl
      then (some (CategorySource.ai_classified app_class category), cache)
      else (none, remove app_class_eq app_class cache)
]

-- `Categorizer::categorize`; `now` is the time, the same at the lookup and at the insertion.
unfoldable pub categorize :
    AiClassifier
    → AppClass
    → Option String
    → Uid
    → ℕ
    → Option Tables
    → CacheMap
    → CategorySource × CacheMap
unfolding lookup_db lookup_cache
categorize ai app_class title uid now db cache = elim (lookup_db app_class uid db) [
  | some source ↦ (source, cache)
  | none ↦
      let (cached, rest) = lookup_cache app_class now cache in
      elim cached [
        | some source ↦ (source, rest)
        | none ↦ elim (ai.classify app_class title) [
          | some category ↦ (
            CategorySource.ai_classified app_class category,
            insert app_class_eq app_class (category, now) rest,
          )
          | none ↦ (CategorySource.uncategorized, rest)
        ]
      ]
]

-- `CategorizationRepo`
unfoldable pub list_categories : List Category
list_categories =
    Category.productivity ∷ Category.communication ∷ Category.entertainment ∷ Category.social
    ∷ Category.development ∷ Category.utilities ∷ Category.uncategorized ∷ []

unfoldable pub list_app_categories_of : Uid → Tables → List AppCategoryRow
unfolding list_app_categories
list_app_categories_of caller t = list_app_categories caller t

unfoldable pub set_app_category : AppClass → Category → Uid → Tables → Option Tables
unfolding upsert_app_category
set_app_category app_class category caller t = upsert_app_category app_class category caller t

-- What the classifier's answer becomes.
abbrev pub asked : AppClass → Option Category → CategorySource
asked app_class none = CategorySource.uncategorized
asked app_class (some category) = CategorySource.ai_classified app_class category

first_asked :
    (ai : AiClassifier) (app_class : AppClass) (title : Option String) (uid : Uid) (now : ℕ)
    (db : Option Tables) (cache : CacheMap) (category : Category)
    → lookup_db app_class uid db ≡ none
    → get app_class_eq app_class cache ≡ none
    → ai.classify app_class title ≡ some category
    → (categorize ai app_class title uid now db cache).1
      ≡ insert app_class_eq app_class (category, now) cache
unfolding categorize lookup_cache
first_asked ai app_class title uid now db cache category no_row uncached known =
    let miss : lookup_cache app_class now cache ≡ (none, cache) =
      rw (uncached, lookup_cache) refl in
    rw (no_row, categorize)
      (rw (miss, known) (ap (λ c. insert app_class_eq app_class (category, now) c.1) miss))

then_answered :
    (ai : AiClassifier) (app_class : AppClass) (title : Option String) (uid : Uid) (at now : ℕ)
    (db : Option Tables) (cache : CacheMap) (category : Category)
    → lookup_db app_class uid db ≡ none
    → get app_class_eq app_class cache ≡ some (category, at)
    → (categorize ai app_class title uid now db cache).0 ≡ (
        if ltb (now - at) cache_ttl
        then CategorySource.ai_classified app_class category
        else asked app_class (ai.classify app_class title))
unfolding categorize lookup_cache
then_answered ai app_class title uid at now db cache category no_row cached =
    rw (no_row, categorize)
      (rw (cached, lookup_cache)
        (elim (Bool-cases (ltb (now - at) cache_ttl)) [
          | inl fresh ↦ rw fresh refl
          | inr old ↦ rw old (elim (Option-cases (ai.classify app_class title)) [
            | inl unknown ↦ rw unknown refl
            | inr (c, answer) ↦ rw answer refl
          ])
        ]))

-- An application without a category in the database, and without one in the cache, that the
-- classifier knows keeps the answer for 60 seconds, for every user and whatever the classifier would
-- say then; from 60 seconds on the classifier's answer is the answer.
pub categorize_again :
    (ai later : AiClassifier) (app_class : AppClass) (title other : Option String)
    (uid caller : Uid) (at now : ℕ) (db : Option Tables) (cache : CacheMap) (category : Category)
    → lookup_db app_class uid db ≡ none
    → lookup_db app_class caller db ≡ none
    → get app_class_eq app_class cache ≡ none
    → ai.classify app_class title ≡ some category
    → (categorize later app_class other caller now db
        (categorize ai app_class title uid at db cache).1).0
      ≡ (if ltb (now - at) cache_ttl
          then CategorySource.ai_classified app_class category
          else asked app_class (later.classify app_class other))
categorize_again ai later app_class title other uid caller at now db cache category no_row no_row'
      uncached known =
    let stored : get app_class_eq app_class (insert app_class_eq app_class (category, at) cache)
        ≡ some (category, at) =
      get-insert app_class_eq app_class app_class (category, at) cache
      ∙ rw ((app_class_eq.beq_iff app_class app_class).1 refl) refl in
    rw (first_asked ai app_class title uid at db cache category no_row uncached known)
      (then_answered later app_class other caller at now db _ category no_row' stored)
