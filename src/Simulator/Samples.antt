-- ===== src/Simulator/Samples.antt =====
-- A simulator on the concrete configuration, and the outcomes of its system calls.
use onvif_simulator.Prelude.{ℕ, String, true, false, some}
use onvif_simulator.Prelude.Int.{pos}
use onvif_simulator.Config.Samples.{toy_platform, toy_codec, no_faults, full_disk, full_config}
use onvif_simulator.Config.Types.{Config}
use onvif_simulator.Simulator.AuthChain.{KeyLibrary, password_schemes}
use onvif_simulator.Simulator.State.{Simulator, assembled}
use onvif_simulator.Simulator.Mutators.{Env}

-- Keys are texts, and none is refused.
abbrev pub toy_keys : KeyLibrary
toy_keys = record {
  Raw = String;
  Key = String;
  KeySet = String;
  pem_decode = λ s. some (record { type = "PUBLIC KEY"; bytes = s });
  parse_pkcs1_public_key = some;
  parse_pkix_public_key = some;
  new_key_set = some;
  secret = "secret";
}

abbrev pub calm : ℕ → Env Config
calm n = record { saving = no_faults; reloading = no_faults; at = n }

-- The disk is full when it is written.
abbrev pub full_disk_env : Env Config
full_disk_env = record (calm 2) { saving = record no_faults { write_works = false } }

abbrev pub ready : Simulator Config toy_keys
ready = record (assembled toy_platform toy_codec toy_keys (pos 0) full_disk full_config) {
  auth_chain = password_schemes toy_keys toy_platform full_config;
  auth_enabled = true;
}
