-- ===== src/Shower/Reconcile/Confined.antt =====
-- The Roles and the RoleBindings that the reconciliation of a Shower writes.
use mathlib.Core.List.{Memᴰ}
use mathlib.Core.Path.{subst}
use meteor_operator.Prelude.{
  String, ◌≡◌, refl, not, Option, none, some, List, [], ◌∷◌, ◌++◌, All, Option-cases, inl, inr,
}
use meteor_operator.Kube.Meta.{NamespacedName, is_unset}
use meteor_operator.Kube.Client.{Result, ok, err, Error, Ends, Ends-bind, Ends-if, Ends-done}
use meteor_operator.Kube.Library.{Library, KeepsKey}
use meteor_operator.Api.Shower.{Shower}
use meteor_operator.Shower.Objects.{Role, RoleBinding}
use meteor_operator.Shower.Ensure.Writes.{Keeps}
use meteor_operator.Shower.Desired.{Groups}
use meteor_operator.Shower.Actions.{Api, Turn, Action, own_actions, external_actions}
use meteor_operator.Shower.Reconcile.{
  refresh_status, actions, continue, run_actions, after_status_update, reconcile,
}
use meteor_operator.Shower.Actions.Confined.{
  externals_of, IsGrantOf, IsAccessOf, AnswersInPlace, Undisturbed, IsConfined, own_actions-All,
  external_actions-All,
}

module _ {W : Type 0} (lib : Library) (keeps : KeepsKey lib) (groups : Groups) (api : Api W)
    (P : W → Type 0) (home : String) (externals : List String)
    (roles_in_place : AnswersInPlace (λ (x : Role). x.meta) api.roles)
    (bindings_in_place : AnswersInPlace (λ (x : RoleBinding). x.meta) api.role_bindings)
    (roles : Keeps P (IsGrantOf groups home externals) api.roles)
    (bindings : Keeps P (IsAccessOf home externals) api.role_bindings)
    (rest : Undisturbed P api) where
  abbrev Confined : Action lib groups api → Type 0
  Confined =
      IsConfined lib keeps groups api P home externals roles_in_place bindings_in_place roles
        bindings rest

  append-All :
      (xs ys : List (Action lib groups api))
      → All Confined xs
      → All Confined ys
      → All Confined (xs ++ ys)
  append-All [] ys a b = b
  append-All (x ∷ xs) ys (h, a) b = (h, append-All xs ys a b)

  continue-keeps :
      (next : Action lib groups api) (t : Turn W)
      → Confined next
      → P t.world
      → Ends (λ u. P u.world) (continue lib groups api next t)
  continue-keeps next t c p = elim (Option-cases t.error) [
    | inl n ↦ rw n (c t.shower t.world p)
    | inr (e, n) ↦ rw n p
  ]

  run_actions-IsConfined :
      (xs : List (Action lib groups api))
      → All Confined xs
      → Confined (run_actions lib groups api xs)
  unfolding run_actions
  run_actions-IsConfined [] a s w p = p
  run_actions-IsConfined (x ∷ xs) (h, a) s w p = Ends-bind _ (x s w) _ (λ t e.
      continue-keeps (run_actions lib groups api xs) t (run_actions-IsConfined xs a)
        (Ends-done (λ u. P u.world) (x s w) (h s w p) e))

  pub actions-IsConfined :
      (s : Shower)
      → externals_of s ≡ externals
      → Confined (run_actions lib groups api (actions lib groups api home s))
  actions-IsConfined s same = run_actions-IsConfined (actions lib groups api home s) (
      append-All (own_actions lib groups api home)
        (external_actions lib groups api home (externals_of s))
        (own_actions-All lib keeps groups api P home externals roles_in_place bindings_in_place
          roles bindings rest)
        (external_actions-All lib keeps groups api P home externals roles_in_place bindings_in_place
          roles bindings rest (externals_of s) (λ n d. subst (Memᴰ n) same d)))

module _ {W : Type 0} (lib : Library) (groups : Groups) (api : Api W) where
  answered-keeps :
      (P : W → Type 0) (original : Option Error) (answer : Result Shower × W)
      → P answer.1
      → P (after_status_update lib groups api original answer).1
  answered-keeps P none (ok _, w) p = p
  answered-keeps P (some e) (ok _, w) p = p
  answered-keeps P none (err e, w) p = p
  answered-keeps P (some _) (err e, w) p = p

  -- Reconciling a Shower keeps every statement about the cluster that no call but a write of a Role or
  -- of a RoleBinding can change, and that the following writes keep. In the request's namespace: of a
  -- Role with the rules of a shower or of its pipelines, and of a RoleBinding for one service account
  -- of this namespace. In the namespace of an external service of the Shower: of a Role with the rules
  -- for such a service, and of a RoleBinding for the account "pipeline" of the request's namespace. So
  -- no other Role or RoleBinding is written, unless the reconciliation panics, when the server answers
  -- a `Get` with an object of the namespace that was asked for, and a new object keeps its key when
  -- its owner is set.
  pub reconcile-confined :
      (P : W → Type 0) (req : NamespacedName) (w w' : W) (s : Shower)
      → KeepsKey lib
      → AnswersInPlace (λ (x : Role). x.meta) api.roles
      → AnswersInPlace (λ (x : RoleBinding). x.meta) api.role_bindings
      → Keeps P (IsGrantOf groups req.namespace (externals_of s)) api.roles
      → Keeps P (IsAccessOf req.namespace (externals_of s)) api.role_bindings
      → Undisturbed P api
      → api.showers.get req w ≡ (ok s, w')
      → P w
      → Ends (λ x. P x.1) (reconcile lib groups api req w)
  unfolding reconcile
  reconcile-confined P req w w' s keeps at_roles at_bindings roles bindings rest got p =
      let p' : P w' = subst (λ a. P a.1) got (rest.shower_get req w p) in
      rw got (
        Ends-if _ (not (is_unset s.meta.deletion_timestamp)) _ _ p' (
          Ends-bind _ _ _ (λ t e.
            answered-keeps P t.error (api.showers.update_status t.shower t.world) (
              rest.shower_update t.shower t.world (
                Ends-done (λ u. P u.world) _
                  (actions-IsConfined lib keeps groups api P req.namespace (externals_of s) at_roles
                    at_bindings roles bindings rest (record s { status = refresh_status s }) refl
                    (record s { status = refresh_status s }) w' p')
                  e)))))
