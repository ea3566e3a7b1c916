-- ===== src/Simulator/Lifecycle.antt =====
-- internal/simulator/lifecycle.go: Start and Stop, with the RTSP sources that Start registers. The
-- outcome of each call of the network and of the packages rtsp and ffmpeg is an input. Start and
-- Stop release the mutex while they work; here each is one step.
pub mod Sources
pub mod Laws
pub mod Status
pub mod Outcome
pub mod History
mod Tests
use Prim.Native.String.{◌++◌}
use mathlib.Core.List.{reverse}
use onvif_simulator.Prelude.{
  ℕ, zero, suc, ◌-◌, Bool, true, false, not, ◌||◌, Option, none, some, String, List, [], ◌∷◌,
  length, if◌then◌else◌, str_eq,
}
use onvif_simulator.Prelude.Int.{ℤ}
use onvif_simulator.Text.{codes}
use onvif_simulator.Config.Types.{Config, ProfileConfig}
use onvif_simulator.Config.Update.{with_profiles}
use onvif_simulator.Config.Platform.{Platform}
use onvif_simulator.Event.Broker
use onvif_simulator.Event.Broker.{BrokerConfig, update_config}
use onvif_simulator.Event.Broker.Requests.{subscription_manager_path}
use onvif_simulator.Simulator.{broker_config_from_config}
use onvif_simulator.Simulator.AuthChain.{KeyLibrary}
use onvif_simulator.Simulator.State.{Simulator}
use onvif_simulator.Simulator.Profiles.{
  has_source, is_mjpeg_sibling_token, mjpeg_sibling_token_suffix, derive_mjpeg_siblings,
}
use Sources.{
  StartEnv, StartError, listen_failed, start_rtsp_failed, register_source_failed,
  register_sibling_failed, Streaming, broken, silent, streams, start_rtsp_server,
}

-- Of a simulator: what the mutators see, the fields of its life, and the sockets, loops and servers
-- that are open. The server and the discovery channels are set while they are open.
pub record Machine (Bytes : Type 0) (lib : KeyLibrary) : Type 0 where
  pub sim : Simulator Bytes lib
  pub running : Bool
  pub listen_addr : String
  pub http_open : Bool
  pub rtsp_open : Bool
  pub discovery_open : Bool

-- net.SplitHostPort's port, strconv.Atoi, strconv.Itoa and net.JoinHostPort.
pub record Addresses : Type 0 where
  pub split_port : String → Option String
  pub atoi : String → Option ℤ
  pub itoa : ℤ → String
  pub join_host_port : String → String → String

unfoldable pub listen_port : Addresses → String → ℤ → ℤ
listen_port net addr fallback =
    elim (net.atoi (elim (net.split_port addr) [ none ↦ net.itoa fallback | some p ↦ p ])) [
      | none ↦ fallback
      | some n ↦ n
    ]

unfoldable pub http_url : Addresses → String → ℤ → String → String
http_url net host port path = "http://" ++ (net.join_host_port host (net.itoa port) ++ path)

unfoldable pub broker_config_with_addr : BrokerConfig → String → BrokerConfig
broker_config_with_addr base addr = record base { subscription_manager_addr = addr }

-- What listening and startRTSPServer do to the sockets, with their closing on an error.
module _ {Bytes : Type 0} {lib : KeyLibrary} where
  unfoldable pub open_listener : Machine Bytes lib → Machine Bytes lib
  open_listener m = record m { http_open = true }

  unfoldable pub close_listener : Machine Bytes lib → Machine Bytes lib
  close_listener m = record m { http_open = false }

  unfoldable pub open_rtsp : Machine Bytes lib → Machine Bytes lib
  open_rtsp m = record m { rtsp_open = true }

  unfoldable pub stop_rtsp : Machine Bytes lib → Machine Bytes lib
  stop_rtsp m = record m { rtsp_open = false }

  -- srv.Start fails without opening the port; a source that cannot be registered stops the server.
  unfoldable pub rtsp_effect : Streaming → Machine Bytes lib → Machine Bytes lib
  unfolding open_rtsp stop_rtsp
  rtsp_effect silent m = m
  rtsp_effect (broken listen_failed) m = m
  rtsp_effect (broken start_rtsp_failed) m = m
  rtsp_effect (broken register_source_failed) m = stop_rtsp (open_rtsp m)
  rtsp_effect (broken register_sibling_failed) m = stop_rtsp (open_rtsp m)
  rtsp_effect (streams probed sibs) m = open_rtsp m

module _ {Bytes : Type 0} (go : Platform) (net : Addresses) {lib : KeyLibrary} where
  -- The parts that every successful Start starts once the servers listen.
  unfoldable pub opened : StartEnv → String → Machine Bytes lib → Machine Bytes lib
  unfolding update_config broker_config_with_addr broker_config_from_config http_url listen_port
  opened env addr m = record m {
    sim = record m.sim {
      broker =
          update_config
            (broker_config_with_addr (broker_config_from_config go m.sim.cfg) (
              http_url net env.local_addr (listen_port net addr m.sim.cfg.network.http_port)
                subscription_manager_path))
            (Broker.start m.sim.broker);
    };
    running = true;
    listen_addr = addr;
    discovery_open = true;
  }

  -- Without probed profiles the configuration keeps its own.
  unfoldable pub with_media : Streaming → Machine Bytes lib → Machine Bytes lib
  with_media (broken e) m = m
  with_media silent m = record m { sim = record m.sim { derived_mjpeg_profiles = [] } }
  with_media (streams probed sibs) m = record m {
    sim = record m.sim { cfg = with_profiles m.sim.cfg probed; derived_mjpeg_profiles = sibs };
  }

  -- What follows startRTSPServer: on an error the listener is closed.
  unfoldable pub with_streaming :
      StartEnv → String → Streaming → Machine Bytes lib → Machine Bytes lib × Option StartError
  unfolding opened with_media close_listener
  with_streaming env addr (broken e) m = (close_listener m, some e)
  with_streaming env addr silent m = (with_media silent (opened env addr m), none)
  with_streaming env addr (streams probed sibs) m =
      (with_media (streams probed sibs) (opened env addr m), none)

  unfoldable pub start_listening :
      StartEnv → String → Streaming → Machine Bytes lib → Machine Bytes lib × Option StartError
  unfolding with_streaming rtsp_effect open_listener
  start_listening env addr st m = with_streaming env addr st (rtsp_effect st (open_listener m))

  unfoldable pub start_simulator :
      StartEnv → Machine Bytes lib → Machine Bytes lib × Option StartError
  unfolding start_listening start_rtsp_server
  start_simulator env m = if m.running then (m, none) else elim env.listen [
    | none ↦ (m, some listen_failed)
    | some addr ↦ start_listening env addr (start_rtsp_server env m.sim.cfg) m
  ]

pub data StopError : Type 0 where
  shutdown_failed : StopError

module _ {Bytes : Type 0} {lib : KeyLibrary} where
  -- The parts in the order in which Stop ends them. http.Server.Shutdown closes the listener
  -- before it waits for the connections, so the listener is closed even if the wait fails.
  unfoldable pub halted : Machine Bytes lib → Machine Bytes lib
  unfolding close_listener stop_rtsp
  halted m =
      let ended = record m { running = false; discovery_open = false } in
      let closed = stop_rtsp (close_listener ended) in
      record closed {
        sim = record closed.sim { broker = Broker.stop closed.sim.broker };
        listen_addr = "";
      }

  -- `shuts_down` is whether http.Server.Shutdown ends before the context does.
  unfoldable pub stop_simulator : Bool → Machine Bytes lib → Machine Bytes lib × Option StopError
  unfolding halted
  stop_simulator shuts_down m =
      if not m.running
      then (m, none)
      else (halted m, if shuts_down then none else some shutdown_failed)
