-- ===== src/Values/Category.antt =====
-- `Category` of crates/core/src/valuetypes.rs: its code, its display name and the parser of names.
use Prim.Native.String.{String}
use text.Mathlib.Text.{◌==◌ as same_text}
use digital_wellbeing.Common.{ℕ, ◌≡◌, refl, ◌==◌, if◌then◌else◌, Option, none, some}

pub data Category : Type 0 where
  productivity communication entertainment social development utilities uncategorized : Category

unfoldable pub to_code : Category → ℕ
to_code productivity = 0
to_code communication = 1
to_code entertainment = 2
to_code social = 3
to_code development = 4
to_code utilities = 5
to_code uncategorized = 6

unfoldable pub try_from : ℕ → Option Category
try_from v =
    if v == 0
    then some productivity
    else if v == 1
    then some communication
    else if v == 2
    then some entertainment
    else if v == 3
    then some social
    else if v == 4
    then some development
    else if v == 5
    then some utilities
    else if v == 6
    then some uncategorized
    else none

unfoldable pub name : Category → String
name productivity = "Productivity"
name communication = "Communication"
name entertainment = "Entertainment"
name social = "Social"
name development = "Development"
name utilities = "Utilities"
name uncategorized = "Uncategorized"

unfoldable pub color : Category → String
color productivity = "#4CAF50"
color communication = "#2196F3"
color entertainment = "#FF9800"
color social = "#E91E63"
color development = "#9C27B0"
color utilities = "#607D8B"
color uncategorized = "#9E9E9E"

unfoldable pub icon : Category → String
icon productivity = "terminal"
icon communication = "chat"
icon entertainment = "games"
icon social = "globe"
icon development = "code"
icon utilities = "settings"
icon uncategorized = "help"

unfoldable pub from_name : String → Category
from_name s =
    if same_text s "Productivity"
    then productivity
    else if same_text s "Communication"
    then communication
    else if same_text s "Entertainment"
    then entertainment
    else if same_text s "Social"
    then social
    else if same_text s "Development"
    then development
    else if same_text s "Utilities"
    then utilities
    else uncategorized

-- Every category is recovered from its display name, and from its code.
pub from_name-name : (c : Category) → (from_name (name c) ≡ c) × (try_from (to_code c) ≡ some c)
unfolding from_name name try_from to_code
from_name-name productivity = (refl, refl)
from_name-name communication = (refl, refl)
from_name-name entertainment = (refl, refl)
from_name-name social = (refl, refl)
from_name-name development = (refl, refl)
from_name-name utilities = (refl, refl)
from_name-name uncategorized = (refl, refl)
