-- ===== src/Simulator/State.antt =====
-- internal/simulator/simulator.go: the state of the simulator, how it is built from the
-- configuration on disk, and reloadFromDisk. The logger is left out.
pub mod Laws
use onvif_simulator.Prelude.{
  ℕ, Bool, true, false, Option, none, some, String, List, [], ◌∷◌, if◌then◌else◌,
}
use onvif_simulator.Prelude.Int.{ℤ}
use onvif_simulator.Config.Types.{Config, ProfileConfig}
use onvif_simulator.Config.Platform.{Platform}
use onvif_simulator.Config.Store.{Codec, Faults, Files, StoreError, Outcome, ok, err, load}
use onvif_simulator.Event.Broker.{Broker, new, update_config}
use onvif_simulator.Auth.UserStore.{UserStore, new_user_store, sync_from_config}
use onvif_simulator.Simulator.{broker_config_from_config}
use onvif_simulator.Simulator.Ring.{EventRing, new_event_ring, clamp_buffer_size}
use onvif_simulator.Simulator.AuthChain
use onvif_simulator.Simulator.AuthChain.{KeyLibrary, ChainError, Built, Scheme, build_auth_chain}

pub record MutationRecord : Type 0 where
  pub time : ℕ
  pub kind : String
  pub target : String
  pub detail : String

-- The fields that the methods below read and write, with the files beside them; `mutations` are the
-- records that OnMutation got, the last one first.
pub record Simulator (Bytes : Type 0) (lib : KeyLibrary) : Type 0 where
  pub files : Files Bytes
  pub cfg : Config
  pub broker : Broker
  pub store : UserStore
  pub auth_chain : List (Scheme lib)
  pub auth_enabled : Bool
  pub ring : EventRing
  pub derived_mjpeg_profiles : List ProfileConfig
  pub mutations : List MutationRecord

pub data SimulatorError : Type 0 where
  store_error : StoreError → SimulatorError
  chain_error : ChainError → SimulatorError

module _ {Bytes : Type 0} (go : Platform) (json : Codec Bytes) (lib : KeyLibrary) where
  -- rebuildAuthChain, given the chain that the configuration asks for.
  unfoldable pub put_chain :
      Config
      → Built (List (Scheme lib))
      → Simulator Bytes lib
      → Simulator Bytes lib × Option SimulatorError
  put_chain c (AuthChain.err e) s = (s, some (chain_error e))
  put_chain c (AuthChain.ok chain) s =
      (record s { auth_chain = chain; auth_enabled = c.auth.enabled }, none)

  -- What reloadFromDisk does with the configuration that it read.
  unfoldable pub adopt :
      Outcome Config → Simulator Bytes lib → Simulator Bytes lib × Option SimulatorError
  unfolding put_chain build_auth_chain update_config broker_config_from_config sync_from_config
  adopt (err e) s = (s, some (store_error e))
  adopt (ok fresh) s = put_chain fresh (build_auth_chain lib go fresh) (record s {
    cfg = fresh;
    broker = update_config (broker_config_from_config go fresh) s.broker;
    store = sync_from_config (some fresh) s.store;
  })

  unfoldable pub reload_from_disk :
      Faults Bytes → Simulator Bytes lib → Simulator Bytes lib × Option SimulatorError
  unfolding adopt load
  reload_from_disk os s = adopt (load go json os s.files) s

  -- The simulator that New builds on a configuration, before its chain.
  unfoldable pub assembled : ℤ → Files Bytes → Config → Simulator Bytes lib
  unfolding new broker_config_from_config sync_from_config new_user_store new_event_ring
      clamp_buffer_size
  assembled event_buffer_size f c = record {
    files = f;
    cfg = c;
    broker = new (broker_config_from_config go c);
    store = sync_from_config (some c) (new_user_store []);
    auth_chain = [];
    auth_enabled = false;
    ring = new_event_ring (clamp_buffer_size event_buffer_size);
    derived_mjpeg_profiles = [];
    mutations = [];
  }

  unfoldable pub new_of : ℤ → Files Bytes → Outcome Config → Outcome (Built (Simulator Bytes lib))
  new_of n f (err e) = err e
  new_of n f (ok c) = elim (build_auth_chain lib go c) [
    | AuthChain.err e ↦ ok (AuthChain.err e)
    | AuthChain.ok chain ↦ ok (
        AuthChain.ok
          (record (assembled n f c) { auth_chain = chain; auth_enabled = c.auth.enabled }))
  ]

  -- New, behind EnsureExists: the configuration is loaded, and a chain that cannot be built is an
  -- error.
  unfoldable pub new_simulator :
      ℤ → Faults Bytes → Files Bytes → Outcome (Built (Simulator Bytes lib))
  unfolding new_of load
  new_simulator event_buffer_size os f = new_of event_buffer_size f (load go json os f)
