-- ===== src/Simulator/Profiles.antt =====
-- internal/simulator/profile_derive.go: the MJPEG siblings of the profiles, which are kept in memory
-- only; and the tokens that media_provider.go makes up for new profiles.
pub mod Siblings
pub mod Tokens
use Prim.Native.Char.{code}
use Prim.Native.String.{◌++◌}
use mathlib.Core.List
use mathlib.Core.List.{reverse}
use onvif_simulator.Prelude.{
  ℕ, zero, suc, ◌+◌, Bool, true, false, not, ◌&&◌, ◌||◌, Option, none, some, String, List, [], ◌∷◌,
  leb, length, ◌==◌, mem_str, if◌then◌else◌, str_eq,
}
use onvif_simulator.Prelude.Int.{pos}
use onvif_simulator.Text.{codes, is_blank, begins_with}
use onvif_simulator.Config.Types.{ProfileConfig}
use onvif_simulator.Config.Validate.Media.{SourceKind, file, rpicam, unknown, source_kind}

abbrev pub mjpeg_sibling_token_suffix : String
mjpeg_sibling_token_suffix = "_JPEG"

abbrev pub mjpeg_sibling_name_suffix : String
mjpeg_sibling_name_suffix = " (MJPEG)"

-- ProfileConfig.HasSource
unfoldable pub has_source : ProfileConfig → Bool
unfolding source_kind is_blank
has_source p = elim (source_kind p.kind) [
  | file ↦ not (is_blank p.media_file_path)
  | rpicam ↦ elim p.rpicam [ none ↦ false | some r ↦ true ]
  | unknown ↦ false
]

-- strings.HasSuffix
unfoldable pub is_mjpeg_sibling_token : String → Bool
unfolding begins_with
is_mjpeg_sibling_token token =
    begins_with (reverse (codes token)) (reverse (codes mjpeg_sibling_token_suffix))

unfoldable pub has_profile_matching : List ProfileConfig → String → String → Bool
has_profile_matching [] token name = false
has_profile_matching (p ∷ ps) token name =
    str_eq p.token token || str_eq p.name name || has_profile_matching ps token name

abbrev pub with_suffix : String → String
with_suffix token = token ++ mjpeg_sibling_token_suffix

abbrev pub sibling_token : ProfileConfig → String
sibling_token p = with_suffix p.token

abbrev pub sibling_name : ProfileConfig → String
sibling_name p = p.name ++ mjpeg_sibling_name_suffix

-- The fields that are not copied are zero.
unfoldable pub sibling_of : ProfileConfig → ProfileConfig
sibling_of p = record p {
  name = sibling_name p;
  token = sibling_token p;
  encoding = "MJPEG";
  bitrate = pos 0;
  gop_length = pos 0;
}

-- The conditions under which a profile is skipped.
unfoldable pub has_sibling : List ProfileConfig → ProfileConfig → Bool
unfolding has_source is_mjpeg_sibling_token has_profile_matching
has_sibling all p =
    has_source p
    && not (is_mjpeg_sibling_token p.token)
    && not (has_profile_matching all (sibling_token p) (sibling_name p))

-- The loop over the rest of the profiles.
unfoldable pub siblings : List ProfileConfig → List ProfileConfig → List ProfileConfig
unfolding has_sibling sibling_of
siblings all [] = []
siblings all (p ∷ ps) =
    let rest = siblings all ps in if has_sibling all p then sibling_of p ∷ rest else rest

unfoldable pub derive_mjpeg_siblings : List ProfileConfig → List ProfileConfig
unfolding siblings
derive_mjpeg_siblings profiles = siblings profiles profiles

-- snapshotEffectiveProfiles
unfoldable pub effective_profiles : List ProfileConfig → List ProfileConfig → List ProfileConfig
effective_profiles profiles derived = List.◌++◌ profiles derived

-- A character of a token, by its code point: r >= 'a' && r <= 'z' and so on.
unfoldable pub is_token_char : ℕ → Bool
is_token_char c =
    (leb b'a' c && leb c b'z')
    || (leb b'A' c && leb c b'Z')
    || (leb b'0' c && leb c b'9')
    || c == b'_'

unfoldable pub sanitize_token_chars : String → String
unfolding is_token_char
sanitize_token_chars String.[] = ""
sanitize_token_chars (String.◌∷◌ c s) =
    let rest = sanitize_token_chars s in
    if is_token_char (code c) then String.◌∷◌ c rest else "_" ++ rest

module _ (print_int : ℕ → String) where
  -- fmt.Sprintf("%s_%d", base, n)
  abbrev pub candidate : String → ℕ → String
  candidate base n = base ++ ("_" ++ print_int n)

  -- The loop that counts up from `n`, with so many turns left.
  unfoldable pub first_free : List String → String → ℕ → ℕ → Option String
  unfolding mem_str
  first_free taken base n zero = none
  first_free taken base n (suc fuel) =
      let rest = first_free taken base (suc n) fuel in
      if mem_str (candidate base n) taken then rest else some (candidate base n)

  abbrev pub token_base : String → String
  token_base name = "profile_" ++ sanitize_token_chars name

  -- generateProfileToken, with the loop bounded by the number of the profiles and one more turn.
  unfoldable pub generate_profile_token : List String → String → Option String
  unfolding first_free mem_str sanitize_token_chars
  generate_profile_token taken name =
      if mem_str (token_base name) taken
      then first_free taken (token_base name) 2 (suc (length taken))
      else some (token_base name)
