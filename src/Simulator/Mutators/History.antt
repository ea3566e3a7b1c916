-- ===== src/Simulator/Mutators/History.antt =====
-- The live state over a history of calls.
use onvif_simulator.Prelude.{
  Bool, true, ◌&&◌, Option, some, String, List, [], ◌∷◌, All, ◌≡◌, ◌≢◌, refl, sym, ap, subst, ◌∙◌,
  inl, inr, arith,
}
use onvif_simulator.Prelude.Int.{ℤ}
use onvif_simulator.Config.Types.{Config}
use onvif_simulator.Config.Platform.{Platform}
use onvif_simulator.Config.Update.{Mutated}
use onvif_simulator.Config.Store.{
  Codec, Faults, Files, StoreError, Outcome, ok, err, load, parse_file,
}
use onvif_simulator.Event.Broker.{normalize}
use onvif_simulator.Auth.UserStore.Laws.{IsMirror}
use onvif_simulator.Simulator.{broker_config_from_config}
use onvif_simulator.Simulator.AuthChain
use onvif_simulator.Simulator.AuthChain.{KeyLibrary, Built, Scheme, build_auth_chain}
use onvif_simulator.Simulator.State.{Simulator, SimulatorError, new_simulator, new_of, assembled}
use onvif_simulator.Simulator.State.Laws.{IsInStep, assembled-IsInStep}
use onvif_simulator.Simulator.Mutators.{Env, Command, planned, run_command}
use onvif_simulator.Simulator.Mutators.Changes.{Untouched, IsOutcome}
use onvif_simulator.Simulator.Mutators.Outcome.{run_command-IsOutcome}

-- The path is known and the file can be read when it is read again.
abbrev pub can_reload : {Bytes : Type 0} → Faults Bytes → Bool
can_reload os = os.path_resolves && os.readable

module _ {Bytes : Type 0} (go : Platform) (json : Codec Bytes) where
  load-readable :
      (os : Faults Bytes) (f : Files Bytes) (c : Config) (e : StoreError)
      → can_reload os ≡ true
      → parse_file go json f.config_file ≡ ok c
      → load go json os f ≢ err e
  unfolding load
  load-readable os f c e h p l = ground (arith, h, p, l)

module _ {Bytes : Type 0} (go : Platform) (json : Codec Bytes) {lib : KeyLibrary} where
  -- The calls of a history, whatever each of them returns.
  unfoldable pub run_all :
      (ℤ → String) → List (Env Bytes × Command) → Simulator Bytes lib → Simulator Bytes lib
  unfolding run_command
  run_all itoa [] s = s
  run_all itoa ((env, command) ∷ rest) s =
      run_all itoa rest (run_command go json lib itoa env command s).0

  untouched-IsInStep :
      (s t : Simulator Bytes lib) → Untouched go json s t → IsInStep go json s → IsInStep go json t
  untouched-IsInStep s t (f, c, b, u, a, n, m) i = record {
    disk = ap (parse_file go json) f ∙ i.disk ∙ ap ok (sym c);
    broker =
        ap (λ x. x.cfg) b ∙ i.broker ∙ ap (λ x. normalize (broker_config_from_config go x)) (sym c);
    store =
        subst (λ x. IsMirror x t.cfg.auth.users) (sym u)
          (subst (λ x. IsMirror s.store x.auth.users) (sym c) i.store);
  }

  outcome-IsInStep :
      (os : Faults Bytes) (mutate : Config → Mutated) (before : Outcome Config)
      (s : Simulator Bytes lib) (r : Simulator Bytes lib × Option SimulatorError)
      → can_reload os ≡ true
      → IsOutcome go json os mutate before s r
      → IsInStep go json s
      → IsInStep go json r.0
  unfolding IsOutcome
  outcome-IsInStep os mutate before s r h (inl (ne, u)) i = untouched-IsInStep s r.0 u i
  outcome-IsInStep os mutate before s r h (inr (c, c', l, m, (p, inl (n, j, g, e)))) i = j
  outcome-IsInStep os mutate before s r h (inr (c, c', l, m, (p, inr (ne, a, n, inl j)))) i = j
  outcome-IsInStep os mutate before s r h (inr (c, c', l, m, (p, inr (ne, a, n, inr (e, x, y, z)))))
        i =
      absurd (load-readable go json os r.0.files c' e h p x)

-- A property of the simulator that New returns, if it does.
OfNew :
    {Bytes : Type 0} {lib : KeyLibrary}
    → (Simulator Bytes lib → Type 0)
    → Outcome (Built (Simulator Bytes lib))
    → Type 0
OfNew P (err e) = Unit
OfNew P (ok (AuthChain.err e)) = Unit
OfNew P (ok (AuthChain.ok s)) = P s

module _ {Bytes : Type 0} (go : Platform) (json : Codec Bytes) (lib : KeyLibrary) where
  new_of-IsInStep :
      (n : ℤ) (os : Faults Bytes) (f : Files Bytes) (o : Outcome Config)
      → load go json os f ≡ o
      → OfNew (IsInStep go json) (new_of go json lib n f o)
  unfolding new_of OfNew
  new_of-IsInStep n os f (err e) h = tt
  new_of-IsInStep n os f (ok c) h = chained (build_auth_chain lib go c)
    where
      fresh : IsInStep go json (assembled go json lib n f c)
      fresh = assembled-IsInStep go json lib n os f c h

      chained :
          (b : Built (List (Scheme lib)))
          → OfNew (IsInStep go json) (elim b [
            | AuthChain.err e ↦ ok (AuthChain.err e)
            | AuthChain.ok chain ↦ ok (
                AuthChain.ok (record (assembled go json lib n f c) {
                  auth_chain = chain;
                  auth_enabled = c.auth.enabled;
                }))
          ])
      chained (AuthChain.err e) = tt
      chained (AuthChain.ok chain) = record {
        disk = fresh.disk;
        broker = fresh.broker;
        store = fresh.store;
      }

module _ {Bytes : Type 0} (go : Platform) (json : Codec Bytes) {lib : KeyLibrary}
    (law : (c : Config) (text : Bytes)
      → json.marshal_indent c ≡ some text
      → json.unmarshal (json.append_newline text) ≡ some c) where
  run_all-IsInStep :
      (itoa : ℤ → String) (calls : List (Env Bytes × Command)) (s : Simulator Bytes lib)
      → All (λ (x : Env Bytes × Command). can_reload x.0.reloading ≡ true) calls
      → IsInStep go json s
      → IsInStep go json (run_all go json itoa calls s)
  unfolding run_all
  run_all-IsInStep itoa [] s h i = i
  run_all-IsInStep itoa ((env, command) ∷ rest) s (h, hs) i = run_all-IsInStep itoa rest _ hs (
      outcome-IsInStep go json env.reloading (planned command) (load go json env.saving s.files) s _
        h (run_command-IsOutcome go json law itoa env command s) i)

  -- From the simulator that New returns, over every history of calls in which the file can be read
  -- again after each change, whatever else fails and whatever the calls return: the live
  -- configuration is what the file reads as, the broker has the settings and the topics of it, and
  -- the user store has its users. It assumes that JSON reads back what it wrote.
  pub run_all-new_simulator-IsInStep :
      (itoa : ℤ → String) (n : ℤ) (os : Faults Bytes) (f : Files Bytes) (s : Simulator Bytes lib)
      (calls : List (Env Bytes × Command))
      → new_simulator go json lib n os f ≡ ok (AuthChain.ok s)
      → All (λ (x : Env Bytes × Command). can_reload x.0.reloading ≡ true) calls
      → IsInStep go json (run_all go json itoa calls s)
  unfolding new_simulator OfNew
  run_all-new_simulator-IsInStep itoa n os f s calls e h = run_all-IsInStep itoa calls s h (
      subst (OfNew (IsInStep go json)) e
        (new_of-IsInStep go json lib n os f (load go json os f) refl))
