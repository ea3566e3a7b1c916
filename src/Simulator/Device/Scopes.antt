-- ===== src/Simulator/Device/Scopes.antt =====
-- The scopes as a set that the Device service adds to and removes from.
use onvif_simulator.Prelude.{not, ◌&&◌, String, List, ◌++◌, mem_str, ◌≡◌}
use onvif_simulator.Config.Validate.Uniqueness.{IsDistinct}

-- What adding `ss` to `have` appends: distinct scopes, those of `ss` that were not there.
pub Appends : List String → List String → List String → Type 0
Appends have ss out =
    (fresh : List String) × (out ≡ have ++ fresh)
    × IsDistinct fresh
    × ((t : String) → mem_str t fresh ≡ (mem_str t ss && not (mem_str t have)))
