-- ===== src/Auth/Access/Laws.antt =====
-- The policy looks at the best role; what it grants is what some role grants.
use onvif_simulator.Prelude.{
  ℕ, ◌≤◌, Bool, true, false, ◌&&◌, ◌||◌, not, Option, none, some, String, List, [], ◌∷◌, ◌==◌,
  if◌then◌else◌, ◌≡◌, refl, arith, ◌∙◌, ap,
}
use onvif_simulator.Auth.Access.{
  AccessClass, pre_auth, read_system, read_system_sensitive, read_system_secret, write_system,
  unrecoverable, read_media, actuate, Principal, level_of, role_level, better, best_level,
  principal_level, table_allow, is_pre_auth, allow, level_anonymous, level_administrator,
  level_extended,
}
use onvif_simulator.Text.{codes, trim_space}
use onvif_simulator.Prelude.Dict.{Dict, lookup}
use onvif_simulator.Auth.Access.Classes.{class_in}

-- What one role grants by itself. A role that is not a known one grants nothing.
unfoldable pub role_grants : AccessClass → String → Bool
role_grants class role =
    not (role_level role == level_extended) && table_allow (role_level role) class

unfoldable pub some_role_grants : AccessClass → List String → Bool
some_role_grants class [] = false
some_role_grants class (r ∷ rs) = role_grants class r || some_role_grants class rs

level_of-le : (r : List ℕ) → level_of r ≤ 4
unfolding level_of
level_of-le r = ground arith

table_allow-better :
    (best l : ℕ) (class : AccessClass)
    → best ≤ 3
    → l ≤ 4
    → table_allow (better best l) class
      ≡ (table_allow best class || (not (l == level_extended) && table_allow l class))
unfolding table_allow better
table_allow-better best l class h k =
    elim class
      as (λ c.
        table_allow (better best l) c
        ≡ (table_allow best c || (not (l == level_extended) && table_allow l c))) [
          | pre_auth ↦ ground arith
          | read_system ↦ ground arith
          | read_system_sensitive ↦ ground arith
          | read_system_secret ↦ ground arith
          | write_system ↦ ground arith
          | unrecoverable ↦ ground arith
          | read_media ↦ ground arith
          | actuate ↦ ground arith
        ]

better-le : (best l : ℕ) → best ≤ 3 → l ≤ 4 → better best l ≤ 3
unfolding better
better-le best l h k = ground arith

role_level-le : (role : String) → role_level role ≤ 4
unfolding role_level
role_level-le role = level_of-le (trim_space (codes role))

or_assoc : (a b c : Bool) → ((a || b) || c) ≡ (a || (b || c))
or_assoc true b c = refl
or_assoc false b c = refl

best_level-grants :
    (best : ℕ) (rs : List String) (class : AccessClass)
    → best ≤ 3
    → table_allow (best_level best rs) class ≡ (table_allow best class || some_role_grants class rs)
unfolding best_level some_role_grants role_grants
best_level-grants best [] class h = ground arith
best_level-grants best (r ∷ rs) class h =
    best_level-grants (better best (role_level r)) rs class
      (better-le best (role_level r) h (role_level-le r))
    ∙ ap (λ b. b || some_role_grants class rs)
        (table_allow-better best (role_level r) class h (role_level-le r))
    ∙ or_assoc (table_allow best class) (role_grants class r) (some_role_grants class rs)

table_allow-anonymous :
    (class : AccessClass) → table_allow level_anonymous class ≡ is_pre_auth class
unfolding table_allow is_pre_auth
table_allow-anonymous pre_auth = refl
table_allow-anonymous read_system = refl
table_allow-anonymous read_system_sensitive = refl
table_allow-anonymous read_system_secret = refl
table_allow-anonymous write_system = refl
table_allow-anonymous unrecoverable = refl
table_allow-anonymous read_media = refl
table_allow-anonymous actuate = refl

if_same : (b c : Bool) → (if b then true else (b || c)) ≡ (b || c)
if_same true c = refl
if_same false c = refl

-- A principal may do what needs no user and what one of its roles, taken alone, grants, and nothing
-- else; without a principal only the former is allowed.
pub allow-some_role_grants :
    (p : Option Principal) (class : AccessClass)
    → allow p class
      ≡ (is_pre_auth class || elim p [ none ↦ false | some q ↦ some_role_grants class q.roles ])
unfolding allow principal_level
allow-some_role_grants none class =
    ap (λ b. if is_pre_auth class then true else b) (table_allow-anonymous class)
    ∙ or_none (is_pre_auth class)
  where
    or_none : (b : Bool) → (if b then true else b) ≡ (b || false)
    or_none true = refl
    or_none false = refl
allow-some_role_grants (some q) class =
    ap (λ b. if is_pre_auth class then true else b)
      (best_level-grants level_anonymous q.roles class (omega arith)
        ∙ ap (λ b. b || some_role_grants class q.roles) (table_allow-anonymous class))
    ∙ if_same (is_pre_auth class) (some_role_grants class q.roles)

-- Whether one of the roles is that of an administrator.
unfoldable pub has_administrator : List String → Bool
has_administrator [] = false
has_administrator (r ∷ rs) = (role_level r == level_administrator) || has_administrator rs

write_system-administrator :
    (rs : List String) → some_role_grants write_system rs ≡ has_administrator rs
unfolding some_role_grants role_grants has_administrator table_allow
write_system-administrator [] = refl
write_system-administrator (r ∷ rs) = ground (arith, write_system-administrator rs)

class_in-unlisted :
    (m : Dict AccessClass) (op : String) → lookup op m ≡ none → class_in m op ≡ write_system
unfolding class_in
class_in-unlisted m op h = rw (class_in, h) refl

-- An operation that a table does not list is allowed exactly to principals with an administrator's
-- role.
pub unlisted-has_administrator :
    (m : Dict AccessClass) (op : String) (q : Principal)
    → lookup op m ≡ none
    → allow (some q) (class_in m op) ≡ has_administrator q.roles
unfolding is_pre_auth
unlisted-has_administrator m op q h =
    ap (allow (some q)) (class_in-unlisted m op h)
    ∙ allow-some_role_grants (some q) write_system
    ∙ write_system-administrator q.roles
