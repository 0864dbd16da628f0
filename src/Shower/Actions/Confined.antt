-- ===== src/Shower/Actions/Confined.antt =====
-- The Roles and the RoleBindings that the actions of a Shower's reconciliation write.
use mathlib.Core.List.{Memᴰ}
use meteor_operator.Prelude.{
  String, ◌≡◌, ◌⊎◌, refl, sym, ap, ◌∙◌, not, ◌||◌, Bool, true, false, Option, none, some,
  some-injective, List, [], ◌∷◌, ◌==◌, map, All, Bool-cases, inl, inr, if◌then◌else◌,
}
use meteor_operator.Kube.Meta.{NamespacedName, ObjectMeta, named}
use meteor_operator.Kube.Client.{
  Result, ok, err, Resource, done, Ends, Ends-bind, Ends-if, Ends-done,
}
use meteor_operator.Kube.Library.{Library, KeepsKey}
use meteor_operator.Api.Shower.{Shower}
use meteor_operator.Shower.Objects.{
  PolicyRule, Role, Subject, RoleRef, RoleBinding, Route, equal_lists, equal_rules, equal_subjects,
  equal_role_refs,
}
use meteor_operator.Shower.Ensure.{ensure}
use meteor_operator.Shower.Ensure.Writes.{
  Keeps, after_create-keeps, after_update-keeps, ensure-keeps,
}
use meteor_operator.Shower.Desired.{
  Groups, shower_rules, pipeline_rules, external_rules, account, role_ref, change_role,
  change_binding, shower_name, pipeline_name, external_name,
}
use meteor_operator.Shower.Route.{
  route_differs, change_route, new_route, after_get_route, ensure_route,
}
use meteor_operator.Shower.Actions.{
  Api, Action, owned_meta, ensure_role, ensure_binding, reconcile_route, own_actions,
  external_actions,
}

abbrev pub externals_of : Shower → List String
externals_of s = map (λ service. service.namespace) s.spec.external_services

-- In its own namespace a Shower grants the rules of the shower and of the pipelines; in the
-- namespace of an external service it grants the rules for such a service.
abbrev pub IsGrantOf : Groups → (namespace : String) → List String → Role → Type 0
IsGrantOf g namespace externals x =
    ((x.meta.namespace ≡ namespace) × ((x.rules ≡ shower_rules) ⊎ (x.rules ≡ pipeline_rules g)))
    ⊎ (Memᴰ x.meta.namespace externals × (x.rules ≡ external_rules g))

-- In its own namespace a Shower gives a Role to one service account of this namespace; in the
-- namespace of an external service, to the account "pipeline" of the Shower's namespace.
abbrev pub IsAccessOf : (namespace : String) → List String → RoleBinding → Type 0
IsAccessOf namespace externals x =
    ((x.meta.namespace ≡ namespace) × ((name : String) × (x.subjects ≡ account name namespace)))
    ⊎ (Memᴰ x.meta.namespace externals × (x.subjects ≡ account "pipeline" namespace))

-- The server answers a `Get` with an object of the namespace that was asked for.
abbrev pub AnswersInPlace : {W T : Type 0} → (T → ObjectMeta) → Resource W T → Type 0
AnswersInPlace {W = W} {T = T} meta_of R =
    (k : NamespacedName) (w : W) (x : T)
    → (R.get k w).0 ≡ ok x
    → (meta_of x).namespace ≡ k.namespace

-- The calls for the Shower and for the other kinds keep `P`.
pub record Undisturbed {W : Type 0} (P : W → Type 0) (api : Api W) : Type 0 where
  pub shower_get : (k : NamespacedName) (w : W) → P w → P (api.showers.get k w).1
  pub shower_update : (s : Shower) (w : W) → P w → P (api.showers.update_status s w).1
  pub accounts : Keeps P (λ _. Unit) api.service_accounts
  pub deployments : Keeps P (λ _. Unit) api.deployments
  pub services : Keeps P (λ _. Unit) api.services
  pub monitors : Keeps P (λ _. Unit) api.service_monitors
  pub routes : Keeps P (λ _. Unit) api.routes

pub if-eq-some : {A : Type 0} (b : Bool) (a c : A) → (if b then some a else none) ≡ some c → c ≡ a
if-eq-some true a c h = sym (some-injective h)
if-eq-some false a c h = cc

changed_role :
    (rules : List PolicyRule) (x y : Role)
    → change_role rules x ≡ some y
    → y ≡ record x { rules = rules }
unfolding change_role
changed_role rules x y h =
    if-eq-some (not (equal_lists equal_rules x.rules rules)) (record x { rules = rules }) y h

changed_binding :
    (subjects : List Subject) (ref : RoleRef) (x y : RoleBinding)
    → change_binding subjects ref x ≡ some y
    → y ≡ record x { subjects = subjects; role_ref = ref }
unfolding change_binding
changed_binding subjects ref x y h =
    if-eq-some
      (not (equal_lists equal_subjects x.subjects subjects) || not (equal_role_refs x.role_ref ref))
      (record x { subjects = subjects; role_ref = ref }) y h

module _ {W : Type 0} (lib : Library) (keeps : KeepsKey lib) (groups : Groups) (api : Api W)
    (P : W → Type 0) (home : String) (externals : List String)
    (roles_in_place : AnswersInPlace (λ (x : Role). x.meta) api.roles)
    (bindings_in_place : AnswersInPlace (λ (x : RoleBinding). x.meta) api.role_bindings)
    (roles : Keeps P (IsGrantOf groups home externals) api.roles)
    (bindings : Keeps P (IsAccessOf home externals) api.role_bindings)
    (rest : Undisturbed P api) where
  abbrev pub IsConfined : Action lib groups api → Type 0
  IsConfined action = (s : Shower) (w : W) → P w → Ends (λ t. P t.world) (action s w)

  role-IsConfined :
      (name : Shower → String) (namespace : String) (rules : List PolicyRule)
      → ((x : Role)
          → x.meta.namespace ≡ namespace
          → x.rules ≡ rules
          → IsGrantOf groups home externals x)
      → IsConfined (λ s w. done (ensure_role lib groups api (name s) namespace rules s w))
  role-IsConfined name namespace rules may s w =
      ensure-keeps P (IsGrantOf groups home externals) api.roles roles _ _ (change_role rules) w
        (may (record { meta = owned_meta lib groups api s (name s) namespace; rules = rules })
          (ap (λ k. k.namespace) (keeps s.type_meta s.meta (named (name s) namespace))) refl)
        (λ x y got changed.
          let is = changed_role rules x y changed in
          may y (ap (λ r. r.meta.namespace) is ∙ roles_in_place _ w x got) (ap (λ r. r.rules) is))

  binding-IsConfined :
      (name user : Shower → String) (namespace : String)
      → ((s : Shower) (x : RoleBinding)
          → x.meta.namespace ≡ namespace
          → x.subjects ≡ account (user s) home
          → IsAccessOf home externals x)
      → IsConfined (λ s w. done (
          ensure_binding lib groups api
            (name s)
            namespace
            (account (user s) home)
            (role_ref groups (name s))
            s
            w))
  binding-IsConfined name user namespace may s w =
      let subjects = account (user s) home in
      let ref = role_ref groups (name s) in
      ensure-keeps P (IsAccessOf home externals) api.role_bindings bindings _ _
        (change_binding subjects ref) w
        (may s
          (record {
            meta = owned_meta lib groups api s (name s) namespace;
            subjects = subjects;
            role_ref = ref;
          })
          (ap (λ k. k.namespace) (keeps s.type_meta s.meta (named (name s) namespace))) refl)
        (λ x y got changed.
          let is = changed_binding subjects ref x y changed in
          may s y (ap (λ r. r.meta.namespace) is ∙ bindings_in_place _ w x got)
            (ap (λ r. r.subjects) is))

  got_route-IsConfined :
      (s : Shower) (answer : Result Route × W)
      → P answer.1
      → Ends (λ e. P e.1) (after_get_route lib api.routes s home answer)
  unfolding after_get_route
  got_route-IsConfined s (ok res, w) p =
      Ends-if _ (route_differs s res) _ _
        (Ends-bind _ (change_route s res) _ (λ changed e.
          after_update-keeps P (λ _. Unit) api.routes rest.routes (api.routes.update changed w)
            (rest.routes.update changed w tt p)))
        p
  got_route-IsConfined s (err e, w) p = elim (Bool-cases e.not_found) [
    | inl h ↦ rw h (
        after_create-keeps P (λ _. Unit) api.routes rest.routes _
          (rest.routes.create (new_route lib api.routes s home) w tt p))
    | inr h ↦ rw h p
  ]

  route-IsConfined : IsConfined (λ s w. reconcile_route lib groups api home s w)
  unfolding ensure_route
  route-IsConfined s w p =
      let k : NamespacedName = record { name = shower_name s; namespace = home } in
      Ends-bind _ (ensure_route lib api.routes s home w) _ (λ ended e.
        Ends-done (λ x. P x.1) _
          (got_route-IsConfined s (api.routes.get k w) (rest.routes.get k w p)) e)

  plain-IsConfined :
      {T : Type 0} (R : Resource W T) (k : NamespacedName) (fresh : T) (change : T → Option T)
      (w : W)
      → Keeps P (λ _. Unit) R
      → P w
      → P (ensure R k fresh change w).1
  plain-IsConfined R k fresh change w K p =
      ensure-keeps P (λ _. Unit) R K k fresh change w tt (λ x y got changed. tt) p

  pub own_actions-All : All IsConfined (own_actions lib groups api home)
  own_actions-All = (
    (λ s w p. plain-IsConfined api.service_accounts _ _ _ w rest.accounts p),
    (
      role-IsConfined _ home shower_rules (λ x m r. inl (m, inl r)),
      (
        binding-IsConfined shower_name shower_name home (λ s x m r. inl (m, (shower_name s, r))),
        (
          role-IsConfined _ home (pipeline_rules groups) (λ x m r. inl (m, inr r)),
          (
            binding-IsConfined pipeline_name (λ _. "pipeline") home
                (λ s x m r. inl (m, ("pipeline", r))),
            (
              (λ s w p. plain-IsConfined api.deployments _ _ _ w rest.deployments p),
              (
                (λ s w p. plain-IsConfined api.services _ _ _ w rest.services p),
                (
                  (λ s w p. plain-IsConfined api.service_monitors _ _ _ w rest.monitors p),
                  (route-IsConfined, tt),
                ),
              ),
            ),
          ),
        ),
      ),
    ),
  )

  pub external_actions-All :
      (names : List String)
      → ((n : String) → Memᴰ n names → Memᴰ n externals)
      → All IsConfined (external_actions lib groups api home names)
  external_actions-All [] sub = tt
  external_actions-All (n ∷ names) sub = elim (Bool-cases (n == "")) [
    | inl h ↦ rw h (external_actions-All names (λ m d. sub m (Memᴰ.tail d)))
    | inr h ↦ rw h (
      role-IsConfined _ n (external_rules groups)
          (λ x m r. inr (sub x.meta.namespace (Memᴰ.head m), r)),
      (
        binding-IsConfined (external_name home) (λ _. "pipeline") n
            (λ s x m r. inr (sub x.meta.namespace (Memᴰ.head m), r)),
        external_actions-All names (λ m d. sub m (Memᴰ.tail d)),
      ),
    )
  ]
