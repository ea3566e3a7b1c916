-- ===== src/Config/Update/Safety.antt =====
-- Which changes keep a valid configuration valid.
use onvif_simulator.Prelude.{
  Bool, Option, none, String, List, [], ◌∷◌, ◌≡◌, refl, inl, inr, ◌∙◌, if_both, Bool-cases, mem_str,
  str_eq, ap,
}
use onvif_simulator.Text.{is_blank}
use onvif_simulator.Config.Types.{
  Config, TopicConfig, DnsConfig, DefaultGatewayConfig, RuntimeConfig,
}
use onvif_simulator.Config.Platform.{Platform}
use onvif_simulator.Config.Errors.{
  ConfigError, ◌⨾◌, events_topic_name_empty, events_topic_name_duplicate, check, seq-none,
  seq-first,
}
use onvif_simulator.Config.Validate.{validate}
use onvif_simulator.Config.Validate.Media.{
  validate_media, validate_profiles, validate_metadata_configs,
}
use onvif_simulator.Config.Validate.Runtime.{validate_runtime, validate_events, validate_topics}
use onvif_simulator.Config.Validate.Uniqueness.{sections_pass}
use onvif_simulator.Config.Validate.Weakening.{
  keep_profiles, keep_metadata, Below-refl, CamerasBelow-refl,
}
use onvif_simulator.Config.Validate.Sections.{validate-media, validate-runtime, validate-events}
use onvif_simulator.Config.Update.{
  Mutated, changed, refused, remove_profile, profile_key, metadata_key, topic_key,
}
use onvif_simulator.Config.Update.Keyed.{has_key, modify_first}
use onvif_simulator.Config.Update.Runtime.{
  remove_metadata_config, set_topic_enabled, set_hostname, set_dns, set_default_gateway,
}

-- A change that was made gave a valid configuration.
unfoldable pub IsSafe : Platform → Mutated → Type 0
IsSafe go (changed c) = validate go c ≡ none
IsSafe go (refused e) = Unit

-- A topic's checks do not read its flag.
topics-enabled :
    (b : Bool) (name : String) (ts : List TopicConfig) (seen : List String)
    → validate_topics seen
        (modify_first topic_key (λ (t : TopicConfig). record t { enabled = b }) name ts)
      ≡ validate_topics seen ts
unfolding validate_topics modify_first
topics-enabled b name [] seen = refl
topics-enabled b name (t ∷ ts) seen = elim (Bool-cases (str_eq t.name name)) [
  | inl e ↦ simp e refl
  | inr e ↦ simp e (
      ap
        (λ r.
          check (is_blank t.name) events_topic_name_empty
          ⨾ check (mem_str t.name seen) events_topic_name_duplicate
          ⨾ r)
        (topics-enabled b name ts (t.name ∷ seen)))
]

both-none : (a b : Option ConfigError) → a ≡ none → b ≡ none → a ⨾ b ≡ none
both-none a b h k = seq-first a b h ∙ k

module _ (go : Platform) (c : Config) (h : validate go c ≡ none) where
  media_parts :
      (validate_profiles go [] [] c.media.profiles ≡ none)
      × (validate_metadata_configs [] c.media.metadata_configurations ≡ none)
  unfolding validate_media
  media_parts = seq-none _ _ (sections_pass go c h).0

  remove_profile-IsSafe : (token : String) → IsSafe go (remove_profile token c)
  unfolding IsSafe remove_profile validate_media
  remove_profile-IsSafe token =
      if_both (IsSafe go) (has_key profile_key token c.media.profiles) _ _
        (validate-media go c h _
          ∙ both-none _ _
              (keep_profiles go _ c.media.profiles [] [] [] [] (Below-refl [])
                (CamerasBelow-refl []) media_parts.0)
              media_parts.1)
        tt

  remove_metadata_config-IsSafe : (token : String) → IsSafe go (remove_metadata_config token c)
  unfolding IsSafe remove_metadata_config validate_media
  remove_metadata_config-IsSafe token =
      if_both (IsSafe go) (has_key metadata_key token c.media.metadata_configurations) _ _
        (validate-media go c h _
          ∙ both-none _ _ media_parts.0
              (keep_metadata _ c.media.metadata_configurations [] [] (Below-refl []) media_parts.1))
        tt

  set_topic_enabled-IsSafe : (name : String) (b : Bool) → IsSafe go (set_topic_enabled name b c)
  unfolding IsSafe set_topic_enabled validate_events
  set_topic_enabled-IsSafe name b =
      let (timeout, topics) = seq-none _ _ (sections_pass go c h).3 in
      if_both (IsSafe go) (has_key topic_key name c.events.topics) _ _
        (validate-events go c h _
          ∙ both-none _ _ timeout (topics-enabled b name c.events.topics [] ∙ topics))
        tt

  runtime-IsSafe :
      (r : RuntimeConfig)
      → validate_runtime go r ≡ none
      → IsSafe go (changed (record c { runtime = r }))
  unfolding IsSafe
  runtime-IsSafe r k = validate-runtime go c h r ∙ k

  -- On a valid configuration the removal of a profile or of a metadata configuration, the switch of
  -- a topic, and a new host name, name service or default gateway are refused or give a valid
  -- configuration.
  pub changes-AreSafe :
      (token : String) (b : Bool) (dns : DnsConfig) (gateway : DefaultGatewayConfig)
      → IsSafe go (remove_profile token c)
        × IsSafe go (remove_metadata_config token c)
        × IsSafe go (set_topic_enabled token b c)
        × IsSafe go (set_hostname token c)
        × IsSafe go (set_dns dns c)
        × IsSafe go (set_default_gateway gateway c)
  unfolding set_hostname set_dns set_default_gateway validate_runtime
  changes-AreSafe token b dns gateway =
      let runtime = (sections_pass go c h).2 in
      (
        remove_profile-IsSafe token,
        remove_metadata_config-IsSafe token,
        set_topic_enabled-IsSafe token b,
        runtime-IsSafe _ runtime,
        runtime-IsSafe _ runtime,
        runtime-IsSafe _ runtime,
      )
