-- ===== src/Cre/Build/Params.antt =====
-- The parameters of the PipelineRun, and what admission by the webhook means for them.
use meteor_operator.Prelude.{
  String, ◌≡◌, ◌≢◌, ◌⊎◌, Bool, true, not, ◌&&◌, Option, none, some, List, [], ◌∷◌, ◌==◌, any, find,
  arith,
}
use meteor_operator.Tekton.{Param, string_param}
use meteor_operator.Api.Cre.{CreSpec, CustomRuntimeEnvironment}
use meteor_operator.Api.Cre.Webhook.Laws.{IsComplete}
use meteor_operator.Cre.Build.{package_list_params, build_params, params}

-- No two parameters share a name.
abbrev pub names_distinct : List Param → Bool
names_distinct [] = true
names_distinct (p ∷ ps) = not (any (λ q. q.name == p.name) ps) && names_distinct ps

-- Whatever the resource, no two parameters of its run share a name.
pub params-names_distinct : (cre : CustomRuntimeEnvironment) → names_distinct (params cre) ≡ true
unfolding params build_params package_list_params
params-names_distinct cre = ground arith

-- The parameter of a name.
abbrev pub param : String → List Param → Option Param
param name ps = find (λ p. p.name == name) ps

-- The run is given the base image and no runtime, or the complete runtime and no base image.
abbrev pub OneBaseGiven : CreSpec → List Param → Type 0
OneBaseGiven spec ps =
    ((param "baseImage" ps ≡ some (string_param "baseImage" spec.base_image))
      × (spec.base_image ≢ "")
      × (param "osName" ps ≡ none)
      × (param "osVersion" ps ≡ none)
      × (param "pythonVersion" ps ≡ none))
    ⊎ ((param "baseImage" ps ≡ none)
        × IsComplete spec.runtime_environment
        × (param "osName" ps ≡ some (string_param "osName" spec.runtime_environment.os_name))
        × (param "osVersion" ps
            ≡ some (string_param "osVersion" spec.runtime_environment.os_version))
        × (param "pythonVersion" ps
            ≡ some (string_param "pythonVersion" spec.runtime_environment.python_version)))
