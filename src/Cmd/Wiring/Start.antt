-- ===== src/Cmd/Wiring/Start.antt =====
-- cmd/routes-provisioner: from the configuration's file to the program.
use dynamic_routes_provision.Base.{String, ◌≡◌, ◌≢◌, sym, ap, ◌∙◌, true}
use dynamic_routes_provision.Core.Result.{Result, ok, Action, ◌>>=◌, wrapping}
use dynamic_routes_provision.Core.Result.Rules.{continue-step, ok-injective}
use dynamic_routes_provision.Cmd.Config.{Config, validate}
use dynamic_routes_provision.Cmd.Config.Defaults.{Viper, defaults, set_defaults, checked, load}
use dynamic_routes_provision.Cmd.Wiring.Parts.{Env, Program}
use dynamic_routes_provision.Cmd.Wiring.Program.{start}
use dynamic_routes_provision.Cmd.Wiring.Ready.{Ready, Starts}
use dynamic_routes_provision.Cmd.Wiring.Complete.{wire-Ready}

-- A sequence that returns a value ends with the rest of it doing so.
rest_of :
    {W A B : Type 0} (m : Action W A) (f : A → Action W B) (w w' : W) (b : B)
    → (m >>= f) w ≡ (ok b, w')
    → (a : A) × (v : W) × (f a v ≡ (ok b, w'))
rest_of m f w w' b h = let (a, e, rest) = continue-step (m w).0 f (m w).1 h in (a, (m w).1, rest)

module _ {W : Type 0} (v : Viper W) where
  checked-valid : (c cfg : Config) (w w' : W) → checked v c w ≡ (ok cfg, w') → validate cfg ≡ ok tt
  unfolding checked
  checked-valid c cfg w w' h =
      let (a, valid, same) = continue-step (validate c) _ w h in
      ap validate (sym (ok-injective (ap (λ (r : Result Config × W). r.0) same))) ∙ valid

  -- Only a configuration that passed the check is loaded.
  load-valid :
      (path : String) (cfg : Config) (w w' : W)
      → load v path w ≡ (ok cfg, w')
      → validate cfg ≡ ok tt
  unfolding load
  load-valid path cfg w w' h =
      let (a₁, w₁, h₁) = rest_of (set_defaults v defaults) _ w w' cfg h in
      let (a₂, w₂, h₂) = rest_of (v.set_config_file path) _ w₁ w' cfg h₁ in
      let (a₃, w₃, h₃) = rest_of (wrapping "read config file" v.read_in_config) _ w₂ w' cfg h₂ in
      let (a₄, w₄, h₄) = rest_of (v.set_env_prefix "ROUTES") _ w₃ w' cfg h₃ in
      let (a₅, w₅, h₅) = rest_of (v.set_env_key_replacer "::" "_") _ w₄ w' cfg h₄ in
      let (a₆, w₆, h₆) = rest_of v.automatic_env _ w₅ w' cfg h₅ in
      let (c, w₇, h₇) = rest_of (wrapping "unmarshal config" v.unmarshal) _ w₆ w' cfg h₆ in
      checked-valid c cfg w₇ w' h₇

  -- Where a configuration is loaded whose issuer is not acme-dns, the calls outside succeed and the
  -- durations that it uses can be parsed, and a lease in MongoDB comes with MongoDB as the datasource:
  -- the program starts, with a trigger, a desired state, an issuer and a provisioner that are not nil,
  -- a store and an elector just when they are enabled, a client for each of them that speaks to
  -- Kubernetes, and an endpoint for the Netscaler.
  pub start-Ready :
      {D : Type 0} (e : Env W D) (path : String) (cfg : Config) (w w' : W)
      → load v path w ≡ (ok cfg, w')
      → Starts e cfg
      → cfg.certificate.provider ≢ "acme-dns"
      → (cfg.leader_election.enabled ≡ true
          → cfg.leader_election.provider ≡ "mongo"
          → cfg.datasource.provider ≡ "mongodb")
      → (p : Program D) × ((start v e path w).0 ≡ ok p) × Ready cfg p
  unfolding start
  start-Ready e path cfg w w' loaded st other there =
      let (p, made, good) = wire-Ready e cfg st (load-valid path cfg w w' loaded) other there w' in
      (p, rw loaded made, good)
