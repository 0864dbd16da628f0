-- ===== src/Startup/Config.antt =====
-- api/v1alpha1/meteorconfig_types.go: the configuration of the operator. `C` is controller-runtime's
-- `ControllerManagerConfigurationSpec`, and `empty` its zero value.
use meteor_operator.Prelude.{Bool, false, Option, none}
use meteor_operator.Kube.Meta.{ObjectMeta, TypeMeta, named}
use meteor_operator.Kube.Client.{Error}

pub record MeteorConfigSpec (C : Type 0) : Type 0 where
  pub type_meta : TypeMeta
  pub manager : C
  pub enable_shower : Bool

pub record MeteorConfig (C : Type 0) : Type 0 where
  pub type_meta : TypeMeta
  pub meta : ObjectMeta
  pub spec : MeteorConfigSpec C

module _ {C : Type 0} (empty : C) where
  abbrev no_type : TypeMeta
  no_type = record { api_version = ""; kind = "" }

  -- `meteorv1alpha1.MeteorConfig{}`
  abbrev pub initial_config : MeteorConfig C
  initial_config = record {
    type_meta = no_type;
    meta = named "" "";
    spec = record { type_meta = no_type; manager = empty; enable_shower = false };
  }

  -- `Complete`, which controller-runtime calls for the settings of the manager.
  unfoldable pub complete : MeteorConfig C → C × Option Error
  complete config = (empty, none)
