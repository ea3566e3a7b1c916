-- ===== src/Auth/Access.antt =====
-- access.go: the user level of a principal and the table of access classes. A level is the number
-- that the source's `iota` gives it.
pub mod Classes
pub mod Laws
use onvif_simulator.Prelude.{
  ℕ, Bool, true, false, ◌&&◌, ◌||◌, not, Option, none, some, String, List, [], ◌∷◌, ltb, leb, ◌==◌,
  if◌then◌else◌,
}
use onvif_simulator.Text.{codes, trim_space, same_text}

pub data AccessClass : Type 0 where
  pre_auth read_system read_system_sensitive read_system_secret : AccessClass
  write_system unrecoverable read_media actuate : AccessClass

abbrev pub level_anonymous : ℕ
level_anonymous = 0

abbrev pub level_user : ℕ
level_user = 1

abbrev pub level_operator : ℕ
level_operator = 2

abbrev pub level_administrator : ℕ
level_administrator = 3

abbrev pub level_extended : ℕ
level_extended = 4

-- The fields of a principal that the policy reads.
pub record Principal : Type 0 where
  pub username : String
  pub roles : List String

unfoldable pub level_of : List ℕ → ℕ
level_of r =
    if same_text r (codes "Administrator") || same_text r (codes "onvif:Administrator")
    then level_administrator
    else if same_text r (codes "Operator") || same_text r (codes "onvif:Operator")
    then level_operator
    else if same_text r (codes "User") || same_text r (codes "onvif:User")
    then level_user
    else if same_text r []
    then level_anonymous
    else level_extended

unfoldable pub role_level : String → ℕ
unfolding level_of
role_level role = level_of (trim_space (codes role))

-- One turn of the loop: a known role that is higher than the best one so far takes its place.
unfoldable pub better : ℕ → ℕ → ℕ
better best l = if ltb best l && not (l == level_extended) then l else best

unfoldable pub best_level : ℕ → List String → ℕ
unfolding better
best_level best [] = best
best_level best (r ∷ rs) = best_level (better best (role_level r)) rs

unfoldable pub principal_level : Option Principal → ℕ
unfolding best_level
principal_level none = level_anonymous
principal_level (some p) = best_level level_anonymous p.roles

unfoldable pub table_allow : ℕ → AccessClass → Bool
table_allow level class = if level == level_administrator then true else elim class [
  | pre_auth ↦ true
  | read_system ↦ leb level_user level
  | read_media ↦ leb level_user level
  | read_system_sensitive ↦ leb level_operator level
  | actuate ↦ leb level_operator level
  | read_system_secret ↦ false
  | write_system ↦ false
  | unrecoverable ↦ false
]

unfoldable pub is_pre_auth : AccessClass → Bool
is_pre_auth pre_auth = true
is_pre_auth _ = false

unfoldable pub allow : Option Principal → AccessClass → Bool
unfolding is_pre_auth table_allow principal_level
allow p class = if is_pre_auth class then true else table_allow (principal_level p) class
