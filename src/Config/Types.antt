-- ===== src/Config/Types.antt =====
-- The records of internal/config/config.go. A pointer that may be nil is an `Option`; a float32
-- is its bit pattern, since the package hands it on unread.
use onvif_simulator.Prelude.{ℕ, String, Bool, Option, List}
use onvif_simulator.Prelude.Int.{ℤ}

pub record LoggingConfig : Type 0 where
  pub level : String
  pub file : String

pub record DeviceConfig : Type 0 where
  pub uuid : String
  pub manufacturer : String
  pub model : String
  pub serial : String
  pub firmware : String
  pub scopes : List String

pub record NetworkConfig : Type 0 where
  pub http_port : ℤ
  pub rtsp_port : ℤ
  pub interface : String
  pub xaddrs : List String

pub record NetworkInterfaceIpv4 : Type 0 where
  pub enabled : Bool
  pub dhcp : Bool
  pub manual : List String

pub record NetworkInterfaceConfig : Type 0 where
  pub token : String
  pub enabled : Bool
  pub hw_address : String
  pub mtu : ℤ
  pub ipv4 : Option NetworkInterfaceIpv4

pub record DnsConfig : Type 0 where
  pub from_dhcp : Bool
  pub search_domain : List String
  pub dns_manual : List String

pub record DefaultGatewayConfig : Type 0 where
  pub ipv4_address : List String
  pub ipv6_address : List String

pub record NetworkProtocol : Type 0 where
  pub name : String
  pub enabled : Bool
  pub port : List ℤ

pub record SystemDateTimeConfig : Type 0 where
  pub date_time_type : String
  pub daylight_savings : Bool
  pub tz : String
  pub manual_date_time_utc : String

pub record RuntimeConfig : Type 0 where
  pub discovery_mode : String
  pub hostname : String
  pub dns : DnsConfig
  pub default_gateway : DefaultGatewayConfig
  pub network_protocols : List NetworkProtocol
  pub network_interfaces : List NetworkInterfaceConfig
  pub system_date_and_time : SystemDateTimeConfig

pub record TopicConfig : Type 0 where
  pub name : String
  pub enabled : Bool

pub record EventsConfig : Type 0 where
  pub max_pull_points : ℤ
  pub max_notification_producers : ℤ
  pub subscription_timeout : String
  pub topics : List TopicConfig

pub record MetadataConfig : Type 0 where
  pub token : String
  pub name : String
  pub analytics : Bool
  pub ptz_status : Bool
  pub events : Bool

pub record RpiCamConfig : Type 0 where
  pub camera_id : ℤ
  pub width : ℤ
  pub height : ℤ
  pub fps : ℤ
  pub bitrate : ℤ
  pub idr_period : ℤ
  pub hflip : Bool
  pub vflip : Bool
  pub brightness : ℕ
  pub contrast : ℕ
  pub saturation : ℕ
  pub sharpness : ℕ
  pub extra_args : List String

pub record ProfileConfig : Type 0 where
  pub name : String
  pub token : String
  pub kind : String
  pub media_file_path : String
  pub rpicam : Option RpiCamConfig
  pub encoding : String
  pub width : ℤ
  pub height : ℤ
  pub fps : ℤ
  pub bitrate : ℤ
  pub gop_length : ℤ
  pub snapshot_uri : String
  pub video_source_token : String

pub record MediaConfig : Type 0 where
  pub profiles : List ProfileConfig
  pub max_video_encoder_instances : ℤ
  pub metadata_configurations : List MetadataConfig

pub record UserConfig : Type 0 where
  pub username : String
  pub password : String
  pub role : String

pub record DigestConfig : Type 0 where
  pub realm : String
  pub algorithms : List String
  pub nonce_ttl : String

pub record JwtConfig : Type 0 where
  pub enabled : Bool
  pub issuer : String
  pub audience : String
  pub jwks_url : String
  pub public_key_pem : List String
  pub algorithms : List String
  pub username_claim : String
  pub roles_claim : String
  pub clock_skew : String
  pub require_tls : Option Bool

pub record AuthConfig : Type 0 where
  pub enabled : Bool
  pub users : List UserConfig
  pub digest : DigestConfig
  pub jwt : JwtConfig

pub record Config : Type 0 where
  pub version : ℤ
  pub device : DeviceConfig
  pub network : NetworkConfig
  pub media : MediaConfig
  pub auth : AuthConfig
  pub events : EventsConfig
  pub runtime : RuntimeConfig
  pub logging : LoggingConfig
