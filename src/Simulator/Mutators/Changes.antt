-- ===== src/Simulator/Mutators/Changes.antt =====
-- What a change of the file leaves, with the reload behind it.
use onvif_simulator.Prelude.{
  Option, none, some, String, ◌≡◌, ◌≢◌, refl, sym, subst, ◌∙◌, ◌⊎◌, inl, inr, arith,
}
use onvif_simulator.Prelude.Int.{ℤ}
use onvif_simulator.Config.Types.{Config}
use onvif_simulator.Config.Platform.{Platform}
use onvif_simulator.Config.Update.{Mutated, changed}
use onvif_simulator.Config.Store.{
  Codec, Faults, Files, StoreError, Outcome, ok, err, load, parse_file,
}
use onvif_simulator.Auth.UserStore.{UserStore, after_update}
use onvif_simulator.Simulator.AuthChain.{KeyLibrary}
use onvif_simulator.Simulator.State.{Simulator, SimulatorError, MutationRecord, reload_from_disk}
use onvif_simulator.Simulator.State.Laws.{IsInStep, IsGuarded, IsReload, reload_from_disk-IsReload}
use onvif_simulator.Simulator.Mutators.{record_mutation, reported, after_change}

ok-injective : (a b : Config) → ok a ≡ ok b → a ≡ b
ok-injective a b h = ground (arith, h)

pub after_update-fields :
    {Bytes : Type 0} (r : Files Bytes × Option StoreError) (g : UserStore → UserStore)
    (s : UserStore)
    → ((after_update r g s).0 ≡ r.0)
      × ((after_update r g s).2 ≡ r.1)
      × (r.1 ≢ none → (after_update r g s).1 ≡ s)
unfolding after_update
after_update-fields (f, none) g s = (refl, refl, λ h. absurd (h refl))
after_update-fields (f, some e) g s = (refl, refl, λ h. refl)

module _ {Bytes : Type 0} (go : Platform) (json : Codec Bytes) {lib : KeyLibrary} where
  -- Nothing of the configuration file and of the live state changed.
  abbrev pub Untouched : Simulator Bytes lib → Simulator Bytes lib → Type 0
  Untouched s t =
      (t.files.config_file ≡ s.files.config_file)
      × (t.cfg ≡ s.cfg)
      × (t.broker ≡ s.broker)
      × (t.store ≡ s.store)
      × (t.auth_chain ≡ s.auth_chain)
      × (t.auth_enabled ≡ s.auth_enabled)
      × (t.mutations ≡ s.mutations)

  -- The file has the change, and the simulator follows it with no error, or an error is returned
  -- with the old chain in place and the other parts in step with the file or as they were, but for
  -- the users.
  abbrev pub Landed :
      Faults Bytes
      → Simulator Bytes lib
      → Config
      → Simulator Bytes lib × Option SimulatorError
      → Type 0
  Landed os s c' r =
      (parse_file go json r.0.files.config_file ≡ ok c')
      × (((r.1 ≡ none) × IsInStep go json r.0 × IsGuarded go json r.0 × (r.0.cfg ≡ c'))
          ⊎ ((r.1 ≢ none)
              × (r.0.auth_chain ≡ s.auth_chain)
              × (r.0.auth_enabled ≡ s.auth_enabled)
              × (IsInStep go json r.0
                  ⊎ ((e : StoreError) × (load go json os r.0.files ≡ err e)
                      × (r.0.cfg ≡ s.cfg)
                      × (r.0.broker ≡ s.broker)))))

  -- A call with this change of the configuration, on a file that loads as `before`.
  unfoldable pub IsOutcome :
      Faults Bytes
      → (Config → Mutated)
      → Outcome Config
      → Simulator Bytes lib
      → Simulator Bytes lib × Option SimulatorError
      → Type 0
  IsOutcome os mutate before s r =
      ((r.1 ≢ none) × Untouched s r.0)
      ⊎ ((c : Config) × (c' : Config) × (before ≡ ok c)
          × (mutate c ≡ changed c')
          × Landed os s c' r)

  -- A simulator whose live state, but for the users, is that of another one.
  abbrev SameLive : Simulator Bytes lib → Simulator Bytes lib → Type 0
  SameLive s t =
      (t.cfg ≡ s.cfg)
      × (t.broker ≡ s.broker)
      × (t.auth_chain ≡ s.auth_chain)
      × (t.auth_enabled ≡ s.auth_enabled)

  reported-Landed :
      (itoa : ℤ → String) (os : Faults Bytes) (m : MutationRecord) (s t : Simulator Bytes lib)
      (c' : Config) (r : Simulator Bytes lib × Option SimulatorError)
      → IsReload go json os t r
      → parse_file go json t.files.config_file ≡ ok c'
      → SameLive s t
      → Landed os s c' (reported go json lib itoa m r)
  unfolding IsReload IsGuarded reported record_mutation
  reported-Landed itoa os m s t c' r (inl (e, l, q)) p (c, b, a, n) =
      subst (λ r. Landed os s c' (reported go json lib itoa m r)) (sym q)
        (p, inr ((λ h. ground (arith, h)), a, n, inr (e, l, c, b)))
  reported-Landed itoa os m s t c' (u, none) (inr (i, l, f, inl (n, g))) p live =
      let q = subst (λ x. parse_file go json x.config_file ≡ ok c') (sym f) p in
      (
        q,
        inl (
          refl,
          record { disk = i.disk; broker = i.broker; store = i.store },
          g,
          ok-injective u.cfg c' (sym i.disk ∙ q),
        ),
      )
  reported-Landed itoa os m s t c' (u, some x) (inr (i, l, f, inl (n, g))) p live =
      absurd (ground (arith, n))
  reported-Landed itoa os m s t c' (u, none) (inr (i, l, f, inr (ne, a, n))) p live =
      absurd (ne refl)
  reported-Landed itoa os m s t c' (u, some x) (inr (i, l, f, inr (ne, a, n))) p (c, b, a', n') = (
    subst (λ x. parse_file go json x.config_file ≡ ok c') (sym f) p,
    inr (ne, a ∙ a', n ∙ n', inl i),
  )

  -- A change of the file that failed, or one that was committed.
  pub refused_change :
      (itoa : ℤ → String) (os : Faults Bytes) (m : MutationRecord) (s t : Simulator Bytes lib)
      (e : Option StoreError)
      → e ≢ none
      → Untouched s t
      → ((after_change go json lib itoa os m t e).1 ≢ none)
        × Untouched s (after_change go json lib itoa os m t e).0
  unfolding after_change
  refused_change itoa os m s t none ne u = absurd (ne refl)
  refused_change itoa os m s t (some e) ne u = ((λ h. ground (arith, h)), u)

  pub committed_change :
      (itoa : ℤ → String) (os : Faults Bytes) (m : MutationRecord) (s t : Simulator Bytes lib)
      (e : Option StoreError) (c' : Config)
      → e ≡ none
      → parse_file go json t.files.config_file ≡ ok c'
      → SameLive s t
      → Landed os s c' (after_change go json lib itoa os m t e)
  unfolding after_change
  committed_change itoa os m s t (some e) c' h p live = absurd (ground (arith, h))
  committed_change itoa os m s t none c' h p live =
      reported-Landed itoa os m s t c' (reload_from_disk go json lib os t)
        (reload_from_disk-IsReload go json lib os t) p live
