-- ===== src/Discovery.antt =====
-- internal/onvif/wsdiscovery/match.go: whether this device answers a Probe or a Resolve. Texts are
-- lists of code points.
pub mod Segments
pub mod Laws
mod Tests
use onvif_simulator.Prelude.{
  ℕ, Bool, true, false, ◌&&◌, ◌||◌, not, Option, none, some, String, List, [], ◌∷◌, map, length,
  ltb, ◌==◌, if◌then◌else◌,
}
use mathlib.Core.List.{reverse}
use onvif_simulator.Text.{codes, trim_space, to_lower, same_text}

pub record Url : Type 0 where
  pub scheme : List ℕ
  pub host : List ℕ
  pub path : List ℕ

-- url.Parse, strings.EqualFold and strings.ToLower.
pub record GoUrl : Type 0 where
  pub lower : List ℕ → List ℕ
  pub parse : List ℕ → Option Url
  pub equal_fold : List ℕ → List ℕ → Bool

-- The fields of a probe that the matching reads.
pub record IncomingProbe : Type 0 where
  pub types : List (List ℕ)
  pub scopes : List (List ℕ)
  pub match_by : List ℕ

pub record IncomingResolve : Type 0 where
  pub address : List ℕ

abbrev pub is_empty : List ℕ → Bool
is_empty [] = true
is_empty (c ∷ cs) = false

-- The text before the first colon and the one behind it.
unfoldable pub cut_colon : List ℕ → Option (List ℕ × List ℕ)
cut_colon [] = none
cut_colon (c ∷ cs) =
    let rest = cut_colon cs in
    if c == b':' then some ([], cs) else elim rest [ none ↦ none | some (p, l) ↦ some (c ∷ p, l) ]

abbrev pub ns_device_service : List ℕ
ns_device_service = codes "http://www.onvif.org/ver10/device/wsdl"

-- The only known prefix is `tds`.
unfoldable pub expand_parts : Option (List ℕ × List ℕ) → Option (List ℕ × List ℕ)
expand_parts none = none
expand_parts (some (prefix, local)) =
    if is_empty prefix || is_empty local
    then none
    else if same_text prefix (codes "tds")
    then some (ns_device_service, local)
    else none

unfoldable pub expand_qname : List ℕ → Option (List ℕ × List ℕ)
unfolding cut_colon expand_parts
expand_qname q = expand_parts (cut_colon (trim_space q))

unfoldable pub expanded_equal : Option (List ℕ × List ℕ) → Option (List ℕ × List ℕ) → Bool
expanded_equal (some (ea, la)) (some (eb, lb)) = same_text ea eb && same_text la lb
expanded_equal _ _ = false

unfoldable pub qnames_equal : List ℕ → List ℕ → Bool
unfolding expanded_equal expand_qname
qnames_equal a b = if same_text a b then true else expanded_equal (expand_qname a) (expand_qname b)

unfoldable pub contains_qname : List (List ℕ) → List ℕ → Bool
unfolding qnames_equal
contains_qname [] needle = false
contains_qname (h ∷ hs) needle =
    qnames_equal (trim_space h) (trim_space needle) || contains_qname hs needle

-- Every text that is not blank passes: the loop over the probe's types and over its scopes.
unfoldable pub all_pass : (List ℕ → Bool) → List (List ℕ) → Bool
all_pass test [] = true
all_pass test (p ∷ ps) = (is_empty (trim_space p) || test (trim_space p)) && all_pass test ps

unfoldable pub types_match : List (List ℕ) → List (List ℕ) → Bool
unfolding all_pass contains_qname
types_match probe_types device_types = all_pass (contains_qname device_types) probe_types

abbrev slash : ℕ
slash = b'/'

unfoldable pub drop_slashes : List ℕ → List ℕ
drop_slashes [] = []
drop_slashes (c ∷ cs) = let rest = drop_slashes cs in if c == slash then rest else c ∷ cs

unfoldable pub put_first : ℕ → List (List ℕ) → List (List ℕ)
put_first c [] = (c ∷ []) ∷ []
put_first c (p ∷ ps) = (c ∷ p) ∷ ps

-- strings.Split(p, "/")
unfoldable pub split_slashes : List ℕ → List (List ℕ)
unfolding put_first
split_slashes [] = [] ∷ []
split_slashes (c ∷ cs) =
    let rest = split_slashes cs in if c == slash then [] ∷ rest else put_first c rest

unfoldable pub is_dots : List ℕ → Bool
is_dots p = same_text p (codes ".") || same_text p (codes "..")

-- The loop over the parts; `none` is the return of nil at a part of dots.
unfoldable pub collect : List (List ℕ) → Option (List (List ℕ))
unfolding is_dots
collect [] = some []
collect (p ∷ ps) =
    let rest = collect ps in
    if is_dots p
    then none
    else elim rest [ none ↦ none | some out ↦ some (if is_empty p then out else p ∷ out) ]

unfoldable pub or_no_segments : Option (List (List ℕ)) → List (List ℕ)
or_no_segments none = []
or_no_segments (some out) = out

unfoldable pub path_segments : List ℕ → List (List ℕ)
unfolding drop_slashes split_slashes collect or_no_segments
path_segments path =
    let p = reverse (drop_slashes (reverse (drop_slashes path))) in
    if is_empty p then [] else or_no_segments (collect (split_slashes p))

unfoldable pub prefix_segments : List (List ℕ) → List (List ℕ) → Bool
unfolding same_text
prefix_segments [] long = true
prefix_segments (s ∷ short) [] = false
prefix_segments (s ∷ short) (l ∷ long) = same_text s l && prefix_segments short long

abbrev pub match_by_rfc2396 : List ℕ
match_by_rfc2396 = codes "http://schemas.xmlsoap.org/ws/2005/04/discovery/rfc2396"

abbrev pub match_by_rfc3986 : List ℕ
match_by_rfc3986 = codes "http://schemas.xmlsoap.org/ws/2005/04/discovery/rfc3986"

abbrev pub match_by_strcmp0 : List ℕ
match_by_strcmp0 = codes "http://schemas.xmlsoap.org/ws/2005/04/discovery/strcmp0"

module _ (go : GoUrl) where
  unfoldable pub urls_match : Url → Url → Bool
  unfolding path_segments prefix_segments
  urls_match u1 u2 =
      go.equal_fold u1.scheme u2.scheme
      && same_text (go.lower (trim_space u1.host)) (go.lower (trim_space u2.host))
      && prefix_segments (path_segments u1.path) (path_segments u2.path)

  unfoldable pub parsed_match : Option Url → Option Url → Bool
  unfolding urls_match
  parsed_match (some u1) (some u2) = urls_match u1 u2
  parsed_match _ _ = false

  unfoldable pub scope_path_prefix_match : List ℕ → List ℕ → Bool
  unfolding parsed_match
  scope_path_prefix_match s1 s2 = parsed_match (go.parse s1) (go.parse s2)

  -- The rule for comparing scopes.
  unfoldable pub scope_pair_matches : List ℕ → List ℕ → List ℕ → Bool
  unfolding scope_path_prefix_match
  scope_pair_matches s1 s2 rule =
      if same_text rule match_by_rfc3986 || same_text rule match_by_rfc2396
      then scope_path_prefix_match s1 s2
      else same_text rule match_by_strcmp0 && same_text s1 s2

  unfoldable pub any_scope_matches : List (List ℕ) → List ℕ → List ℕ → Bool
  unfolding scope_pair_matches
  any_scope_matches [] rule s = false
  any_scope_matches (d ∷ ds) rule s =
      scope_pair_matches s (trim_space d) rule || any_scope_matches ds rule s

  unfoldable pub rule_or_default : List ℕ → List ℕ
  rule_or_default rule = if is_empty (trim_space rule) then match_by_rfc2396 else trim_space rule

  unfoldable pub scopes_match : List (List ℕ) → List (List ℕ) → List ℕ → Bool
  unfolding all_pass any_scope_matches rule_or_default
  scopes_match probe_scopes device_scopes rule =
      all_pass (any_scope_matches device_scopes (rule_or_default rule)) probe_scopes

  -- A nil probe is `none`.
  unfoldable pub probe_matches : Option IncomingProbe → List (List ℕ) → List (List ℕ) → Bool
  unfolding types_match scopes_match
  probe_matches none types scopes = false
  probe_matches (some p) types scopes =
      types_match p.types types && scopes_match p.scopes scopes p.match_by

  unfoldable pub match_resolve : Option IncomingResolve → List ℕ → Bool
  match_resolve none address = false
  match_resolve (some r) address =
      not (is_empty (trim_space r.address))
      && go.equal_fold (trim_space r.address) (trim_space address)
