-- ===== src/Config/Update.antt =====
-- update.go: the change that each targeted helper makes to the configuration in memory. Loading
-- before it and saving after it are in Store.
pub mod Keyed
pub mod Runtime
pub mod Safety
pub mod RoundTrip
use onvif_simulator.Prelude.{
  Bool, true, false, Option, none, some, String, List, [], ◌∷◌, ◌++◌, if◌then◌else◌, str_eq,
}
use onvif_simulator.Config.Types.{
  Config, AuthConfig, UserConfig, ProfileConfig, RpiCamConfig, DnsConfig, DefaultGatewayConfig,
  NetworkProtocol, NetworkInterfaceConfig, SystemDateTimeConfig, MetadataConfig, TopicConfig,
}
use onvif_simulator.Config.Validate.Media.{SourceKind, file, rpicam, unknown, source_kind}
use Keyed.{has_key, without_key, modify_first}

pub data UpdateError : Type 0 where
  user_not_found user_already_exists mutate_required : UpdateError
  profile_not_found profile_already_exists topic_not_found : UpdateError
  metadata_not_found metadata_already_exists : UpdateError

pub data Mutated : Type 0 where
  changed : Config → Mutated
  refused : UpdateError → Mutated

abbrev pub user_key : UserConfig → String
user_key u = u.username

abbrev pub profile_key : ProfileConfig → String
profile_key p = p.token

abbrev pub metadata_key : MetadataConfig → String
metadata_key m = m.token

abbrev pub topic_key : TopicConfig → String
topic_key t = t.name

abbrev pub with_users : Config → List UserConfig → Config
with_users c us = record c { auth = record c.auth { users = us } }

abbrev pub with_profiles : Config → List ProfileConfig → Config
with_profiles c ps = record c { media = record c.media { profiles = ps } }

abbrev pub with_metadata : Config → List MetadataConfig → Config
with_metadata c ms = record c { media = record c.media { metadata_configurations = ms } }

abbrev pub with_topics : Config → List TopicConfig → Config
with_topics c ts = record c { events = record c.events { topics = ts } }

unfoldable pub set_auth_enabled : Bool → Config → Mutated
set_auth_enabled b c = changed (record c { auth = record c.auth { enabled = b } })

unfoldable pub add_user : UserConfig → Config → Mutated
unfolding has_key
add_user u c =
    if has_key user_key u.username c.auth.users
    then refused user_already_exists
    else changed (with_users c (c.auth.users ++ (u ∷ [])))

unfoldable pub upsert_user : UserConfig → Config → Mutated
unfolding has_key modify_first
upsert_user u c =
    if has_key user_key u.username c.auth.users
    then changed (with_users c (modify_first user_key (λ old. u) u.username c.auth.users))
    else changed (with_users c (c.auth.users ++ (u ∷ [])))

unfoldable pub remove_user : String → Config → Mutated
unfolding has_key without_key
remove_user name c =
    if has_key user_key name c.auth.users
    then changed (with_users c (without_key user_key name c.auth.users))
    else refused user_not_found

unfoldable pub set_digest_algorithms : List String → Config → Mutated
set_digest_algorithms algs c =
    changed
      (record c { auth = record c.auth { digest = record c.auth.digest { algorithms = algs } } })

unfoldable pub set_jwt_issuer : String → String → String → Config → Mutated
set_jwt_issuer iss aud url c = changed (record c {
  auth = record c.auth { jwt = record c.auth.jwt { issuer = iss; audience = aud; jwks_url = url } };
})

unfoldable pub add_profile : ProfileConfig → Config → Mutated
unfolding has_key
add_profile p c =
    if has_key profile_key p.token c.media.profiles
    then refused profile_already_exists
    else changed (with_profiles c (c.media.profiles ++ (p ∷ [])))

unfoldable pub remove_profile : String → Config → Mutated
unfolding has_key without_key
remove_profile token c =
    if has_key profile_key token c.media.profiles
    then changed (with_profiles c (without_key profile_key token c.media.profiles))
    else refused profile_not_found

unfoldable pub mutate_profile : String → (ProfileConfig → ProfileConfig) → Config → Mutated
unfolding has_key modify_first
mutate_profile token f c =
    if has_key profile_key token c.media.profiles
    then changed (with_profiles c (modify_first profile_key f token c.media.profiles))
    else refused profile_not_found

unfoldable pub set_profile_media_file_path : String → String → Config → Mutated
unfolding mutate_profile
set_profile_media_file_path token path =
    mutate_profile token (λ p. record p { media_file_path = path })

-- What SetProfileKind does to the profile: each variant clears what belongs to the other.
unfoldable pub switch_kind : String → ProfileConfig → ProfileConfig
unfolding source_kind
switch_kind k p = elim (source_kind k) [
  | file ↦ record p { kind = k; rpicam = none }
  | rpicam ↦ record p { kind = k; media_file_path = "" }
  | unknown ↦ record p { kind = k }
]

unfoldable pub set_profile_kind : String → String → Config → Mutated
unfolding mutate_profile
set_profile_kind token k = mutate_profile token (switch_kind k)

unfoldable pub switch_rpicam : Option RpiCamConfig → ProfileConfig → ProfileConfig
switch_rpicam none p = record p { rpicam = none }
switch_rpicam (some r) p = record p { rpicam = some r; kind = "rpicam"; media_file_path = "" }

unfoldable pub set_profile_rpicam : String → Option RpiCamConfig → Config → Mutated
unfolding mutate_profile
set_profile_rpicam token r = mutate_profile token (switch_rpicam r)

unfoldable pub set_profile_snapshot_uri : String → String → Config → Mutated
unfolding mutate_profile
set_profile_snapshot_uri token uri = mutate_profile token (λ p. record p { snapshot_uri = uri })

unfoldable pub set_profile_video_source_token : String → String → Config → Mutated
unfolding mutate_profile
set_profile_video_source_token token source =
    mutate_profile token (λ p. record p { video_source_token = source })
