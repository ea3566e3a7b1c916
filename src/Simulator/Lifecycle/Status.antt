-- ===== src/Simulator/Lifecycle/Status.antt =====
-- What is open, and what Stop leaves open: nothing.
use onvif_simulator.Prelude.{
  Bool, true, false, not, ◌&&◌, Option, none, some, if◌then◌else◌, ◌≡◌, refl, sym, ◌∙◌, arith,
}
use onvif_simulator.Simulator.AuthChain.{KeyLibrary}
use onvif_simulator.Simulator.Lifecycle.{
  Machine, stop_simulator, halted, StopError, shutdown_failed, close_listener, stop_rtsp,
}

-- The HTTP listener and the discovery loop are open exactly while the simulator runs; while it does
-- not, no RTSP server is open and there is no address.
pub record IsWhole {Bytes : Type 0} {lib : KeyLibrary} (m : Machine Bytes lib) : Type 0 where
  pub http : m.http_open ≡ m.running
  pub discovery : m.discovery_open ≡ m.running
  pub rtsp : m.running ≡ false → m.rtsp_open ≡ false
  pub address : m.running ≡ false → m.listen_addr ≡ ""

-- Nothing runs and nothing is open.
pub record IsClosed {Bytes : Type 0} {lib : KeyLibrary} (m : Machine Bytes lib) : Type 0 where
  pub stopped : m.running ≡ false
  pub http : m.http_open ≡ false
  pub discovery : m.discovery_open ≡ false
  pub rtsp : m.rtsp_open ≡ false
  pub address : m.listen_addr ≡ ""

-- The simulator runs, with the HTTP listener, the discovery loop, and an RTSP server if `streaming`.
pub record IsServing {Bytes : Type 0} {lib : KeyLibrary} (streaming : Bool) (m : Machine Bytes lib)
    : Type 0 where
  pub runs : m.running ≡ true
  pub http : m.http_open ≡ true
  pub discovery : m.discovery_open ≡ true
  pub rtsp : m.rtsp_open ≡ streaming

pub closed-IsWhole :
    {Bytes : Type 0} {lib : KeyLibrary} (m : Machine Bytes lib) → IsClosed m → IsWhole m
closed-IsWhole m c = record {
  http = c.http ∙ sym c.stopped;
  discovery = c.discovery ∙ sym c.stopped;
  rtsp = λ q. c.rtsp;
  address = λ q. c.address;
}

pub serving-IsWhole :
    {Bytes : Type 0} {lib : KeyLibrary} (m : Machine Bytes lib) (b : Bool)
    → IsServing b m
    → IsWhole m
serving-IsWhole m b s = record {
  http = s.http ∙ sym s.runs;
  discovery = s.discovery ∙ sym s.runs;
  rtsp = λ q. absurd (ground (arith, q, s.runs));
  address = λ q. absurd (ground (arith, q, s.runs));
}

pub stopped-IsClosed :
    {Bytes : Type 0} {lib : KeyLibrary} (shuts_down : Bool) (m : Machine Bytes lib)
    → IsWhole m
    → IsClosed (stop_simulator shuts_down m).0
      × ((stop_simulator shuts_down m).1
          ≡ (if m.running && not shuts_down then some shutdown_failed else none))
unfolding stop_simulator halted close_listener stop_rtsp
stopped-IsClosed {Bytes = Bytes} {lib = lib} shuts_down m w = ended m.running refl shuts_down
  where
    ended :
        (b : Bool)
        → m.running ≡ b
        → (d : Bool)
        → (let r : Machine Bytes lib × Option StopError =
              if not b then (m, none) else (halted m, if d then none else some shutdown_failed) in
            IsClosed r.0 × (r.1 ≡ (if b && not d then some shutdown_failed else none)))
    ended true h true = (
      record { stopped = refl; http = refl; discovery = refl; rtsp = refl; address = refl },
      refl,
    )
    ended true h false = (
      record { stopped = refl; http = refl; discovery = refl; rtsp = refl; address = refl },
      refl,
    )
    ended false h d = (
      record {
        stopped = h;
        http = w.http ∙ h;
        discovery = w.discovery ∙ h;
        rtsp = w.rtsp h;
        address = w.address h;
      },
      refl,
    )
