-- ===== src/Logging/Boot.antt =====
-- crates/logging/src/lib.rs: how a program brings its log up. A refusal, which prints its line and
-- ends the program, is an error; the subscriber of the tracing library is what it is set up with.
mod Tests
use common_rust.Prelude.{
  Option, none, some, [], ◌∷◌, ◌++◌, ◌==◌, list_eq, nat_eq, list_beq, if◌then◌else◌, ◌≡◌, refl, inl,
  inr,
}
use common_rust.Prelude.Result.{Result, ok, err, ◌>>=◌, Result-cases}
use common_rust.Prelude.Text.{Text, codes}
use common_rust.Config.Refusal.{Refusal}
use common_rust.Config.Class.{
  Deployment, prod, dev, deployment_text, deployment_variable, parse_deployment,
}
use common_rust.Logging.Filter.{LevelFilter, Designators, designators_variable}
use common_rust.Logging.Config.{
  Format, LogConfig, Log, parse_log, resolve, from_log, env_filter, assemble, parse_format,
  rust_log_variable, log_format_variable,
}

-- What `install` is called with.
pub record Install (F : Type 0) : Type 0 where
  pub format : Format
  pub directives : F
  pub designators : Designators

-- The environment with the deployment class in its variable.
abbrev pub under : Deployment → (Text → Option Text) → Text → Option Text
under d var name = if name == deployment_variable then some (deployment_text d) else var name

parse-deployment_text : (d : Deployment) → parse_deployment (some (deployment_text d)) ≡ ok d
unfolding parse_deployment list_beq
parse-deployment_text prod = refl
parse-deployment_text dev = refl

bind_assoc :
    {A B C : Type 0} (m : Result Refusal A) (f : A → Result Refusal B) (g : B → Result Refusal C)
    → (m >>= f) >>= g ≡ m >>= (λ a. f a >>= g)
bind_assoc (ok a) f g = refl
bind_assoc (err e) f g = refl

module _ {F : Type 0} (level_of : Text → Option LevelFilter) (try_new : Text → Result Text F) where
  unfoldable pub init_with : LogConfig → Result Refusal (Install F)
  unfolding env_filter
  init_with c = do
    directives ← env_filter level_of try_new c
    ok (record { format = c.format; directives = directives; designators = c.designators })

  -- `LogConfig::from_env`
  unfoldable pub from_env : (Text → Option Text) → Result Refusal LogConfig
  unfolding resolve
  from_env var =
      resolve level_of try_new (var log_format_variable) (var deployment_variable)
        (var rust_log_variable) (var designators_variable)

  unfoldable pub init : (Text → Option Text) → Result Refusal (Install F)
  unfolding from_env init_with
  init var = from_env var >>= init_with

  -- `config` is what `common_config::load` gives.
  unfoldable pub boot_sealed :
      {T : Type 0}
      → (T → Deployment)
      → Result Refusal T
      → (Text → Option Text)
      → Result Refusal (T × Install F)
  unfolding parse_log assemble init_with
  boot_sealed deployment loaded var = do
    config ← loaded
    log ← parse_log (var log_format_variable) (var designators_variable)
    c ← from_log level_of try_new log (deployment config) (var rust_log_variable)
    i ← init_with c
    ok (config, i)

  -- A program whose configuration is loaded brings up the log that the environment alone would give, if
  -- the variable of the deployment class held the class of that configuration, and refuses as that
  -- would.
  pub boot_sealed-init :
      {T : Type 0} (deployment : T → Deployment) (config : T) (var : Text → Option Text)
      → boot_sealed deployment (ok config) var
        ≡ (init (under (deployment config) var) >>= λ i. ok (config, i))
  unfolding boot_sealed init from_env resolve parse_log list_beq
  boot_sealed-init {T} deployment config var =
      let d : Deployment = deployment config in
      let assembled : Format → Result Refusal LogConfig =
        λ f. assemble level_of try_new f d (var rust_log_variable) (var designators_variable) in
      rw (parse-deployment_text d) (elim (Result-cases (parse_format (var log_format_variable))) [
        | inl (f, e) ↦
            rw (e, bind_assoc {C = T × Install F} (assembled f) init_with (λ i. ok (config, i)))
              refl
        | inr (x, e) ↦ rw e refl
      ])
