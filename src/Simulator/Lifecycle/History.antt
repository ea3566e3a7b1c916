-- ===== src/Simulator/Lifecycle/History.antt =====
-- What is open over a history of starts, stops and changes of the configuration.
use onvif_simulator.Prelude.{Bool, List, [], ◌∷◌}
use onvif_simulator.Config.Platform.{Platform}
use onvif_simulator.Config.Store.{Codec}
use onvif_simulator.Simulator.AuthChain.{KeyLibrary}
use onvif_simulator.Simulator.Mutators.{Env, Command, run_command}
use onvif_simulator.Simulator.Lifecycle.{Machine, Addresses, start_simulator, stop_simulator}
use onvif_simulator.Simulator.Lifecycle.Sources.{StartEnv}

pub data LifeEvent (Bytes : Type 0) : Type 0 where
  starts : StartEnv → LifeEvent Bytes
  stops : Bool → LifeEvent Bytes
  calls : Env Bytes → Command → LifeEvent Bytes

unfoldable pub IsNoStop : {Bytes : Type 0} → LifeEvent Bytes → Type 0
IsNoStop (starts env) = Unit
IsNoStop (stops d) = ⊥
IsNoStop (calls env command) = Unit

module _ {Bytes : Type 0} (go : Platform) (net : Addresses) (json : Codec Bytes)
    {lib : KeyLibrary} where
  unfoldable pub live_event : LifeEvent Bytes → Machine Bytes lib → Machine Bytes lib
  unfolding start_simulator stop_simulator run_command
  live_event (starts env) m = (start_simulator go net env m).0
  live_event (stops shuts_down) m = (stop_simulator shuts_down m).0
  live_event (calls env command) m = record m {
    sim = (run_command go json lib net.itoa env command m.sim).0;
  }

  unfoldable pub live : List (LifeEvent Bytes) → Machine Bytes lib → Machine Bytes lib
  unfolding live_event
  live [] m = m
  live (e ∷ es) m = live es (live_event e m)
