-- ===== src/Config/Platform.antt =====
-- What internal/config calls of Go's packages `net`, `net/url` and `time`: only whether a text
-- parses, and of a URL the scheme and the host.
use onvif_simulator.Prelude.{ℕ, String, Bool, Option, List}
use onvif_simulator.Prelude.Int.{ℤ}

pub record Url : Type 0 where
  pub scheme : List ℕ
  pub host : List ℕ

pub record Platform : Type 0 where
  pub parse_url : List ℕ → Option Url
  pub parse_duration : String → Option ℤ
  pub is_rfc3339 : String → Bool
  pub is_mac : String → Bool
  pub is_cidr : String → Bool
