-- ===== src/Simulator/Lifecycle/Outcome.antt =====
-- What is open after a Start.
use onvif_simulator.Prelude.{
  Bool, true, false, not, Option, none, some, String, List, if◌then◌else◌, ◌≡◌, refl, sym, subst,
  ◌∙◌, ◌⊎◌, inl, inr,
}
use onvif_simulator.Config.Types.{Config, ProfileConfig}
use onvif_simulator.Config.Platform.{Platform}
use onvif_simulator.Event.Broker
use onvif_simulator.Simulator.AuthChain.{KeyLibrary}
use onvif_simulator.Simulator.Lifecycle.{
  Machine, Addresses, opened, with_media, with_streaming, start_listening, start_simulator,
  rtsp_effect, open_listener, close_listener, open_rtsp, stop_rtsp,
}
use onvif_simulator.Simulator.Lifecycle.Sources.{
  StartEnv, StartError, listen_failed, start_rtsp_failed, register_source_failed,
  register_sibling_failed, Streaming, broken, silent, streams, with_siblings, with_probed,
  start_rtsp_server, any_source, probe_all, register_mjpeg_siblings,
}
use onvif_simulator.Simulator.Lifecycle.Status.{
  IsWhole, IsClosed, IsServing, closed-IsWhole, serving-IsWhole,
}

-- Which outcomes startRTSPServer has on a configuration with or without a source.
unfoldable Fits : Bool → Streaming → Type 0
Fits b (broken e) = Unit
Fits b silent = b ≡ false
Fits b (streams probed sibs) = b ≡ true

with_siblings-Fits :
    (probed : List ProfileConfig) (o : Option (List ProfileConfig))
    → Fits true (with_siblings probed o)
unfolding Fits with_siblings
with_siblings-Fits probed none = tt
with_siblings-Fits probed (some sibs) = refl

with_probed-Fits :
    (env : StartEnv) (o : Option (List ProfileConfig)) → Fits true (with_probed env o)
unfolding Fits with_probed
with_probed-Fits env none = tt
with_probed-Fits env (some probed) = with_siblings-Fits probed (register_mjpeg_siblings env probed)

start_rtsp_server-Fits :
    (env : StartEnv) (c : Config) → Fits (any_source c.media.profiles) (start_rtsp_server env c)
unfolding start_rtsp_server Fits
start_rtsp_server-Fits env c = decided (any_source c.media.profiles) env.rtsp_start
  where
    decided :
        (b w : Bool)
        → Fits b (
            if not b
            then silent
            else if not w
            then broken start_rtsp_failed
            else with_probed env (probe_all env c.media.profiles))
    decided false w = refl
    decided true false = tt
    decided true true = with_probed-Fits env (probe_all env c.media.profiles)

module _ {Bytes : Type 0} (go : Platform) (net : Addresses) {lib : KeyLibrary} where
  -- A Start that failed leaves nothing open and the rest as it was. One that did not leaves a
  -- simulator that runs: the one that ran before, or one that serves, with an RTSP server exactly
  -- if the configuration has a source, and with the broker started.
  unfoldable pub IsStart : Machine Bytes lib → Machine Bytes lib × Option StartError → Type 0
  IsStart m (n, some e) = (m.running ≡ false) × (n.sim ≡ m.sim) × IsClosed n
  IsStart m (n, none) =
      ((m.running ≡ true) × (n ≡ m))
      ⊎ ((m.running ≡ false)
          × IsServing (any_source m.sim.cfg.media.profiles) n
          × (n.sim.broker.started ≡ true))

  start_listening-IsStart :
      (env : StartEnv) (addr : String) (st : Streaming) (m : Machine Bytes lib)
      → Fits (any_source m.sim.cfg.media.profiles) st
      → m.running ≡ false
      → IsWhole m
      → IsStart m (start_listening go net env addr st m)
  unfolding start_listening rtsp_effect with_streaming IsStart Fits opened with_media open_listener
      close_listener open_rtsp stop_rtsp Broker.start Broker.update_config
  start_listening-IsStart env addr (broken listen_failed) m f h w = (
    h,
    refl,
    record {
      stopped = h;
      http = refl;
      discovery = w.discovery ∙ h;
      rtsp = w.rtsp h;
      address = w.address h;
    },
  )
  start_listening-IsStart env addr (broken start_rtsp_failed) m f h w = (
    h,
    refl,
    record {
      stopped = h;
      http = refl;
      discovery = w.discovery ∙ h;
      rtsp = w.rtsp h;
      address = w.address h;
    },
  )
  start_listening-IsStart env addr (broken register_source_failed) m f h w = (
    h,
    refl,
    record {
      stopped = h;
      http = refl;
      discovery = w.discovery ∙ h;
      rtsp = refl;
      address = w.address h;
    },
  )
  start_listening-IsStart env addr (broken register_sibling_failed) m f h w = (
    h,
    refl,
    record {
      stopped = h;
      http = refl;
      discovery = w.discovery ∙ h;
      rtsp = refl;
      address = w.address h;
    },
  )
  start_listening-IsStart env addr silent m f h w =
      inr (h, record { runs = refl; http = refl; discovery = refl; rtsp = w.rtsp h ∙ sym f }, refl)
  start_listening-IsStart env addr (streams probed sibs) m f h w =
      inr (h, record { runs = refl; http = refl; discovery = refl; rtsp = sym f }, refl)

  listened :
      (env : StartEnv) (o : Option String) (m : Machine Bytes lib)
      → m.running ≡ false
      → IsWhole m
      → IsStart m (elim o [
        | none ↦ (m, some listen_failed)
        | some addr ↦ start_listening go net env addr (start_rtsp_server env m.sim.cfg) m
      ])
  unfolding IsStart
  listened env none m h w = (
    h,
    refl,
    record {
      stopped = h;
      http = w.http ∙ h;
      discovery = w.discovery ∙ h;
      rtsp = w.rtsp h;
      address = w.address h;
    },
  )
  listened env (some addr) m h w =
      start_listening-IsStart env addr (start_rtsp_server env m.sim.cfg) m
        (start_rtsp_server-Fits env m.sim.cfg) h w

  decided :
      (env : StartEnv) (m : Machine Bytes lib) (b : Bool)
      → m.running ≡ b
      → IsWhole m
      → IsStart m (
          if b then (m, none) else elim env.listen [
            | none ↦ (m, some listen_failed)
            | some addr ↦ start_listening go net env addr (start_rtsp_server env m.sim.cfg) m
          ])
  unfolding IsStart
  decided env m true h w = inl (h, refl)
  decided env m false h w = listened env env.listen m h w

  pub started-IsWhole :
      (m : Machine Bytes lib) (r : Machine Bytes lib × Option StartError)
      → IsStart m r
      → IsWhole m
      → IsWhole r.0
  unfolding IsStart
  started-IsWhole m (n, some e) (h, same, c) w = closed-IsWhole n c
  started-IsWhole m (n, none) (inl (h, same)) w = subst IsWhole (sym same) w
  started-IsWhole m (n, none) (inr (h, s, b)) w =
      serving-IsWhole n (any_source m.sim.cfg.media.profiles) s

  start_simulator-running :
      (m : Machine Bytes lib) (env : StartEnv)
      → m.running ≡ true
      → start_simulator go net env m ≡ (m, none)
  unfolding start_simulator
  start_simulator-running m env h = rw (start_simulator, h) refl

  -- A Start on a simulator that runs changes nothing.
  pub started-again :
      (m : Machine Bytes lib) (b : Bool) (env : StartEnv)
      → IsServing b m
      → IsServing b (start_simulator go net env m).0
  started-again m b env s =
      subst (λ (r : Machine Bytes lib × Option StartError). IsServing b r.0)
        (sym (start_simulator-running m env s.runs)) s
