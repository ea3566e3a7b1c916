-- ===== src/Config/Samples.antt =====
-- Concrete inputs for the tests: a platform, a codec and a configuration with one entry of a kind.
use onvif_simulator.Prelude.{true, false, none, some, [], ◌∷◌, if◌then◌else◌, str_eq, ◌≡◌, sym}
use onvif_simulator.Prelude.Int.{pos}
use onvif_simulator.Text.{codes, begins_with}
use onvif_simulator.Config.Types.{Config, UserConfig, ProfileConfig, MetadataConfig}
use onvif_simulator.Config.Platform.{Platform}
use onvif_simulator.Config.Store.{Codec, Faults, Files}
use onvif_simulator.Config.Store.FirstRun.{default_config}

-- Every text is an http or an onvif address, and "1h" is the only duration.
abbrev pub toy_platform : Platform
toy_platform = record {
  parse_url = λ s. some (record {
    scheme = if begins_with s (codes "onvif:") then codes "onvif" else codes "http";
    host = codes "h";
  });
  parse_duration = λ s. if str_eq s "1h" then some (pos 3600000000000) else none;
  is_rfc3339 = λ s. true;
  is_mac = λ s. true;
  is_cidr = λ s. true;
}

-- A file that holds the configuration itself.
abbrev pub toy_codec : Codec Config
toy_codec = record { marshal_indent = some; append_newline = λ c. c; unmarshal = some }

abbrev pub fresh_config : Config
fresh_config = default_config "0a1b2c3d-0000-4000-8000-00000000000f"

abbrev pub admin : UserConfig
admin = record { username = "admin"; password = "secret"; role = "Administrator" }

abbrev pub main_profile : ProfileConfig
main_profile = record {
  name = "main";
  token = "p0";
  kind = "";
  media_file_path = "/video.mp4";
  rpicam = none;
  encoding = "H264";
  width = pos 1280;
  height = pos 720;
  fps = pos 30;
  bitrate = pos 0;
  gop_length = pos 0;
  snapshot_uri = "";
  video_source_token = "";
}

abbrev pub analytics : MetadataConfig
analytics = record {
  token = "m0";
  name = "meta";
  analytics = true;
  ptz_status = false;
  events = true;
}

abbrev pub full_config : Config
full_config = record fresh_config {
  auth = record fresh_config.auth { enabled = true; users = admin ∷ [] };
  media = record fresh_config.media {
    profiles = main_profile ∷ record main_profile { token = "p1" } ∷ [];
    metadata_configurations = analytics ∷ [];
  };
}

abbrev pub no_faults : Faults Config
no_faults = record {
  path_resolves = true;
  readable = true;
  mkdir_works = true;
  create_works = true;
  chmod_works = true;
  write_works = true;
  partial = fresh_config;
  close_works = true;
  rename_works = true;
  remove_works = true;
}

abbrev pub full_disk : Files Config
full_disk = record { config_file = some full_config; temp_files = [] }

-- The codec reads back what it wrote.
pub toy_law :
    (c : Config) (text : Config)
    → toy_codec.marshal_indent c ≡ some text
    → toy_codec.unmarshal (toy_codec.append_newline text) ≡ some c
toy_law c text h = sym h
