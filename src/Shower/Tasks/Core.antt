-- ===== src/Shower/Tasks/Core.antt =====
-- What the objects of a Shower are made from.
use meteor_operator.Prelude.{String, ◌≡◌, refl, List, [], ◌∷◌, ◌==◌, Bool-cases, inl, inr}
use meteor_operator.Kube.Conditions.{condition_true}
use meteor_operator.Kube.Library.{Library}
use meteor_operator.Api.Shower.{Shower}
use meteor_operator.Shower.Ensure.{Ensured, get_failed, create_failed, update_failed, created, kept}
use meteor_operator.Shower.Objects.{Deployment, Route}
use meteor_operator.Shower.Actions.{copy_available, note_deployment, note_route}
use meteor_operator.Shower.Tasks.{Kind, Object}
use meteor_operator.Shower.Tasks.Acts.{note}

-- The Shower without its status, but for the image.
abbrev pub core : Shower → Shower
core s = record s {
  status = record {
    phase = "";
    conditions = [];
    observed_generation = 0;
    image = s.status.image;
    url = "";
  };
}

copy_available-core :
    (lib : Library) (s : Shower) (cs : List (String × String))
    → core (copy_available lib s cs) ≡ core s
copy_available-core lib s [] = refl
copy_available-core lib s ((type, status) ∷ cs) = elim (Bool-cases (type == "Available")) [
  | inr h ↦ rw h (copy_available-core lib s cs)
  | inl h ↦ elim (Bool-cases (status == condition_true)) [
    | inl k ↦ rw (h, k) refl
    | inr k ↦ rw (h, k) refl
  ]
]

note_deployment-core :
    (lib : Library) (s : Shower) (e : Ensured Deployment) → core (note_deployment lib s e) ≡ core s
unfolding note_deployment
note_deployment-core lib s (create_failed e) = refl
note_deployment-core lib s created = refl
note_deployment-core lib s (kept x) = copy_available-core lib s x.conditions
note_deployment-core lib s (get_failed e) = refl
note_deployment-core lib s (update_failed e) = refl

note_route-core : (s : Shower) (e : Ensured Route) → core (note_route s e) ≡ core s
unfolding note_route
note_route-core s (kept x) = refl
note_route-core s (create_failed e) = refl
note_route-core s created = refl
note_route-core s (get_failed e) = refl
note_route-core s (update_failed e) = refl

pub note-core :
    (lib : Library) (K : Kind) (s : Shower) (e : Ensured (Object K))
    → core (note lib K s e) ≡ core s
note-core lib Kind.accounts s e = refl
note-core lib Kind.roles s e = refl
note-core lib Kind.bindings s e = refl
note-core lib Kind.deployments s e = note_deployment-core lib s e
note-core lib Kind.services s e = refl
note-core lib Kind.monitors s e = refl
note-core lib Kind.routes s e = note_route-core s e
