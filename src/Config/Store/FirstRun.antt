-- ===== src/Config/Store/FirstRun.antt =====
-- config.go's `Default` and `EnsureExists`, the configuration of a first run.
use Prim.Native.String.{◌++◌}
use onvif_simulator.Prelude.{
  Bool, true, false, not, Option, none, some, String, [], ◌∷◌, if◌then◌else◌,
}
use onvif_simulator.Prelude.Int.{pos}
use onvif_simulator.Config.Types.{Config}
use onvif_simulator.Config.Platform.{Platform}
use onvif_simulator.Config.Validate.{validate, current_version}
use onvif_simulator.Config.Validate.Device.{default_rtsp_port}
use onvif_simulator.Config.Store.{
  Codec, StoreError, stat_failed, invalid, link_failed, Outcome, ok, err, Files, Faults,
  write_temp_file, newest, older,
}

-- The argument is the text of the fresh UUID.
abbrev pub default_config : String → Config
default_config uuid = record {
  version = current_version;
  device = record {
    uuid = "urn:uuid:" ++ uuid;
    manufacturer = "ONVIF Simulator";
    model = "SimCam-100";
    serial = "SN-0001";
    firmware = "0.1.0";
    scopes =
        "onvif://www.onvif.org/Profile/Streaming" ∷ "onvif://www.onvif.org/name/simulator"
        ∷ "onvif://www.onvif.org/hardware/virtual" ∷ [];
  };
  network = record {
    http_port = pos 8080;
    rtsp_port = default_rtsp_port;
    interface = "";
    xaddrs = [];
  };
  media = record {
    profiles = [];
    max_video_encoder_instances = pos 0;
    metadata_configurations = [];
  };
  auth = record {
    enabled = false;
    users = [];
    digest = record { realm = ""; algorithms = []; nonce_ttl = "" };
    jwt = record {
      enabled = false;
      issuer = "";
      audience = "";
      jwks_url = "";
      public_key_pem = [];
      algorithms = [];
      username_claim = "";
      roles_claim = "";
      clock_skew = "";
      require_tls = none;
    };
  };
  events = record {
    max_pull_points = pos 10;
    max_notification_producers = pos 10;
    subscription_timeout = "1h";
    topics =
        record { name = "tns1:VideoSource/MotionAlarm"; enabled = true }
        ∷ record { name = "tns1:VideoSource/ImageTooBlurry"; enabled = true }
        ∷ record { name = "tns1:VideoSource/ImageTooDark"; enabled = true }
        ∷ record { name = "tns1:VideoSource/ImageTooBright"; enabled = true }
        ∷ record { name = "tns1:Device/Trigger/DigitalInput"; enabled = true }
        ∷ [];
  };
  runtime = record {
    discovery_mode = "Discoverable";
    hostname = "";
    dns = record { from_dhcp = false; search_domain = []; dns_manual = [] };
    default_gateway = record { ipv4_address = []; ipv6_address = [] };
    network_protocols = [];
    network_interfaces = [];
    system_date_and_time = record {
      date_time_type = "";
      daylight_savings = false;
      tz = "";
      manual_date_time_utc = "";
    };
  };
  logging = record { level = ""; file = "" };
}

-- What happens around EnsureExists: the fresh UUID, the file that another process creates between
-- the test and the link, and the outcomes of the two calls that only EnsureExists makes.
pub record FirstRun (Bytes : Type 0) : Type 0 where
  pub uuid : String
  pub stat_works : Bool
  pub rival : Option Bytes
  pub link_works : Bool

module _ {Bytes : Type 0} (go : Platform) (json : Codec Bytes) where
  -- os.Link refuses an existing destination. `env` tells whether it works otherwise.
  unfoldable pub link : FirstRun Bytes → Option Bytes → Files Bytes → Files Bytes × Outcome Bool
  link env (some theirs) f = (record f { config_file = some theirs }, ok false)
  link env none f =
      if env.link_works
      then (record f { config_file = newest f.temp_files }, ok true)
      else (f, err link_failed)

  -- The deferred removal of the temporary file.
  unfoldable pub cleaned : Faults Bytes → Files Bytes × Outcome Bool → Files Bytes × Outcome Bool
  cleaned os (f, r) =
      (if os.remove_works then record f { temp_files = older f.temp_files } else f, r)

  unfoldable pub linked :
      Faults Bytes → FirstRun Bytes → Files Bytes × Option StoreError → Files Bytes × Outcome Bool
  unfolding link cleaned
  linked os env (f, some e) = (f, err e)
  linked os env (f, none) = cleaned os (link env env.rival f)

  unfoldable pub create_default :
      Faults Bytes → FirstRun Bytes → Files Bytes → Files Bytes × Outcome Bool
  unfolding linked write_temp_file
  create_default os env f = elim (validate go (default_config env.uuid)) [
    | some e ↦ (f, err (invalid e))
    | none ↦ linked os env (write_temp_file go json os (default_config env.uuid) f)
  ]

  -- What follows os.Stat, which found the file or did not.
  unfoldable pub when_absent :
      Option Bytes → Faults Bytes → FirstRun Bytes → Files Bytes → Files Bytes × Outcome Bool
  unfolding create_default
  when_absent (some text) os env f = (f, ok false)
  when_absent none os env f = create_default os env f

  unfoldable pub ensure_exists :
      Faults Bytes → FirstRun Bytes → Files Bytes → Files Bytes × Outcome Bool
  unfolding when_absent
  ensure_exists os env f =
      if not env.stat_works then (f, err stat_failed) else when_absent f.config_file os env f
