-- ===== src/Simulator/State/Laws.antt =====
-- The parts of the simulator follow the configuration that it reads.
use onvif_simulator.Prelude.{
  Option, none, some, List, [], map, ◌≡◌, ◌≢◌, refl, ◌⊎◌, inl, inr, arith,
}
use onvif_simulator.Prelude.Int.{ℤ}
use onvif_simulator.Config.Types.{Config}
use onvif_simulator.Config.Platform.{Platform}
use onvif_simulator.Config.Update.{user_key}
use onvif_simulator.Config.Validate.{validate}
use onvif_simulator.Config.Validate.Uniqueness.{IsDistinct, validate-IsDistinct}
use onvif_simulator.Config.Store.{
  Codec, Faults, Files, Outcome, ok, err, load, parse_file, validated, parse_failed, StoreError,
}
use onvif_simulator.Event.Broker.{new, update_config, normalize}
use onvif_simulator.Auth.UserStore.{new_user_store}
use onvif_simulator.Auth.UserStore.Laws.{IsMirror, sync_from_config-IsMirror}
use onvif_simulator.Simulator.{broker_config_from_config}
use onvif_simulator.Simulator.AuthChain
use onvif_simulator.Simulator.AuthChain.{KeyLibrary, ChainError, Built, Scheme, build_auth_chain}
use onvif_simulator.Simulator.State.{
  Simulator, SimulatorError, store_error, put_chain, adopt, reload_from_disk, assembled,
}

module _ {Bytes : Type 0} (go : Platform) (json : Codec Bytes) where
  pub load-parse_file :
      (os : Faults Bytes) (f : Files Bytes) (c : Config)
      → load go json os f ≡ ok c
      → parse_file go json f.config_file ≡ ok c
  unfolding load
  load-parse_file os f c h = ground (arith, h)

  valid_of : (c c' : Config) → validated go json c ≡ ok c' → validate go c' ≡ none
  unfolding validated
  valid_of c c' h = ground (arith, h)

  -- What a file reads as was validated.
  decoded_valid :
      (m : Option Config) (c : Config)
      → elim m [ none ↦ err parse_failed | some d ↦ validated go json d ] ≡ ok c
      → validate go c ≡ none
  decoded_valid none c h = absurd (ground (arith, h))
  decoded_valid (some d) c h = valid_of d c h

  pub parse_file-valid :
      (o : Option Bytes) (c : Config) → parse_file go json o ≡ ok c → validate go c ≡ none
  unfolding parse_file
  parse_file-valid none c h = absurd (ground (arith, h))
  parse_file-valid (some text) c h = decoded_valid (json.unmarshal text) c h

  -- The configuration, the broker and the users are those that the file says.
  pub record IsInStep {lib : KeyLibrary} (s : Simulator Bytes lib) : Type 0 where
    pub disk : parse_file go json s.files.config_file ≡ ok s.cfg
    pub broker : s.broker.cfg ≡ normalize (broker_config_from_config go s.cfg)
    pub store : IsMirror s.store s.cfg.auth.users

  -- So are the chain of authenticators and the flag that switches it.
  unfoldable pub IsGuarded : {lib : KeyLibrary} → Simulator Bytes lib → Type 0
  IsGuarded {lib} s =
      (build_auth_chain lib go s.cfg ≡ AuthChain.ok s.auth_chain)
      × (s.auth_enabled ≡ s.cfg.auth.enabled)

  -- What a reload leaves: all as it was, if the file does not load; else the parts in step with the
  -- file, and the chain with them or an error and the chain as it was.
  unfoldable pub IsReload :
      {lib : KeyLibrary}
      → Faults Bytes
      → Simulator Bytes lib
      → Simulator Bytes lib × Option SimulatorError
      → Type 0
  IsReload {lib} os s r =
      ((e : StoreError) × (load go json os s.files ≡ err e) × (r ≡ (s, some (store_error e))))
      ⊎ (IsInStep r.0
          × (load go json os s.files ≡ ok r.0.cfg)
          × (r.0.files ≡ s.files)
          × (((r.1 ≡ none) × IsGuarded r.0)
              ⊎ ((r.1 ≢ none)
                  × (r.0.auth_chain ≡ s.auth_chain)
                  × (r.0.auth_enabled ≡ s.auth_enabled))))

module _ {Bytes : Type 0} (go : Platform) (json : Codec Bytes) (lib : KeyLibrary) where
  names-IsDistinct :
      (o : Option Bytes) (c : Config)
      → parse_file go json o ≡ ok c
      → IsDistinct (map user_key c.auth.users)
  names-IsDistinct o c h = (validate-IsDistinct go c (parse_file-valid go json o c h)).0

  put_chain-IsReload :
      (os : Faults Bytes) (s t : Simulator Bytes lib) (b : Built (List (Scheme lib)))
      → build_auth_chain lib go t.cfg ≡ b
      → IsInStep go json t
      → load go json os s.files ≡ ok t.cfg
      → t.files ≡ s.files
      → t.auth_chain ≡ s.auth_chain
      → t.auth_enabled ≡ s.auth_enabled
      → IsReload go json os s (put_chain go json lib t.cfg b t)
  unfolding put_chain IsReload IsGuarded
  put_chain-IsReload os s t (AuthChain.err e) h i l f a n =
      inr (i, l, f, inr ((λ q. ground (arith, q)), a, n))
  put_chain-IsReload os s t (AuthChain.ok chain) h i l f a n =
      inr
        (record { disk = i.disk; broker = i.broker; store = i.store }, l, f, inl (refl, (h, refl)))

  adopt-IsReload :
      (os : Faults Bytes) (s : Simulator Bytes lib) (o : Outcome Config)
      → load go json os s.files ≡ o
      → IsReload go json os s (adopt go json lib o s)
  unfolding adopt IsReload update_config
  adopt-IsReload os s (err e) h = inl (e, h, refl)
  adopt-IsReload os s (ok c) h =
      put_chain-IsReload os s _ (build_auth_chain lib go c) refl
        (record {
          disk = load-parse_file go json os s.files c h;
          broker = refl;
          store =
              sync_from_config-IsMirror c s.store
                (names-IsDistinct s.files.config_file c (load-parse_file go json os s.files c h));
        })
        h refl refl refl

  pub reload_from_disk-IsReload :
      (os : Faults Bytes) (s : Simulator Bytes lib)
      → IsReload go json os s (reload_from_disk go json lib os s)
  unfolding reload_from_disk
  reload_from_disk-IsReload os s = adopt-IsReload os s (load go json os s.files) refl

  -- The simulator that New builds on a configuration that it loaded.
  pub assembled-IsInStep :
      (n : ℤ) (os : Faults Bytes) (f : Files Bytes) (c : Config)
      → load go json os f ≡ ok c
      → IsInStep go json (assembled go json lib n f c)
  unfolding assembled new
  assembled-IsInStep n os f c h = record {
    disk = load-parse_file go json os f c h;
    broker = refl;
    store =
        sync_from_config-IsMirror c (new_user_store [])
          (names-IsDistinct f.config_file c (load-parse_file go json os f c h));
  }
