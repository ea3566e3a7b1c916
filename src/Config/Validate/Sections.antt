-- ===== src/Config/Validate/Sections.antt =====
-- When one section of a valid configuration is replaced, the result is that section's own.
use onvif_simulator.Prelude.{none, ◌≡◌, ◌∙◌}
use onvif_simulator.Config.Types.{Config, MediaConfig, AuthConfig, EventsConfig, RuntimeConfig}
use onvif_simulator.Config.Platform.{Platform}
use onvif_simulator.Config.Errors.{seq-none, seq-first, seq-last}
use onvif_simulator.Config.Validate.{validate}
use onvif_simulator.Config.Validate.Media.{validate_media}
use onvif_simulator.Config.Validate.Auth.{validate_auth}
use onvif_simulator.Config.Validate.Runtime.{validate_runtime, validate_events}

module _ (go : Platform) (c : Config) (h : validate go c ≡ none) where
  pub validate-media :
      (m : MediaConfig) → validate go (record c { media = m }) ≡ validate_media go m
  unfolding validate
  validate-media m =
      let version = seq-none _ _ h in
      let device = seq-none _ _ version.1 in
      let network = seq-none _ _ device.1 in
      let media = seq-none _ _ network.1 in
      seq-first _ _ version.0
      ∙ seq-first _ _ device.0
      ∙ seq-first _ _ network.0
      ∙ seq-last _ _ media.1

  pub validate-auth : (a : AuthConfig) → validate go (record c { auth = a }) ≡ validate_auth go a
  unfolding validate
  validate-auth a =
      let version = seq-none _ _ h in
      let device = seq-none _ _ version.1 in
      let network = seq-none _ _ device.1 in
      let media = seq-none _ _ network.1 in
      let auth = seq-none _ _ media.1 in
      seq-first _ _ version.0
      ∙ seq-first _ _ device.0
      ∙ seq-first _ _ network.0
      ∙ seq-first _ _ media.0
      ∙ seq-last _ _ auth.1

  pub validate-runtime :
      (r : RuntimeConfig) → validate go (record c { runtime = r }) ≡ validate_runtime go r
  unfolding validate
  validate-runtime r =
      let version = seq-none _ _ h in
      let device = seq-none _ _ version.1 in
      let network = seq-none _ _ device.1 in
      let media = seq-none _ _ network.1 in
      let auth = seq-none _ _ media.1 in
      let runtime = seq-none _ _ auth.1 in
      seq-first _ _ version.0
      ∙ seq-first _ _ device.0
      ∙ seq-first _ _ network.0
      ∙ seq-first _ _ media.0
      ∙ seq-first _ _ auth.0
      ∙ seq-last _ _ runtime.1

  pub validate-events :
      (e : EventsConfig) → validate go (record c { events = e }) ≡ validate_events go e
  unfolding validate
  validate-events e =
      let version = seq-none _ _ h in
      let device = seq-none _ _ version.1 in
      let network = seq-none _ _ device.1 in
      let media = seq-none _ _ network.1 in
      let auth = seq-none _ _ media.1 in
      let runtime = seq-none _ _ auth.1 in
      let events = seq-none _ _ runtime.1 in
      seq-first _ _ version.0
      ∙ seq-first _ _ device.0
      ∙ seq-first _ _ network.0
      ∙ seq-first _ _ media.0
      ∙ seq-first _ _ auth.0
      ∙ seq-first _ _ runtime.0
      ∙ seq-last _ _ events.1
