-- ===== src/Api/Cre/Aggregate/Bag.antt =====
-- The conditions of a CustomRuntimeEnvironment without their order.
use mathlib.Core.List.{Perm}
use mathlib.Core.Logic.{∥∥₁_elim}
use mathlib.Core.Quot
use mathlib.Core.Quot.{Quot}
use meteor_operator.Prelude.{◌≡◌, sym, ap, ◌∙◌, List}
use meteor_operator.Kube.Conditions.{Condition}
use meteor_operator.Api.Common.{Phase}
use meteor_operator.Api.Cre.{CustomRuntimeEnvironment, aggregate_phase}
use meteor_operator.Api.Cre.Aggregate.{phase_of, phase_of-Permᴰ, Phase-set, aggregate_phase_lem}

abbrev pub Bag : Type 0
Bag = Quot (λ (xs ys : List Condition). Perm xs ys)

abbrev pub bag : CustomRuntimeEnvironment → Bag
bag cre = Quot.mk cre.status.conditions

-- The phase of a bag of conditions.
unfoldable pub bag_phase : Bag → Phase
bag_phase = Quot.lift Phase-set phase_of (λ xs ys p. ∥∥₁_elim p (Phase-set _ _) phase_of-Permᴰ)

aggregate_phase-bag : (cre : CustomRuntimeEnvironment) → aggregate_phase cre ≡ bag_phase (bag cre)
unfolding bag_phase
aggregate_phase-bag cre = aggregate_phase_lem cre

-- `AggregatePhase` sees the conditions as a bag: two resources whose conditions are the same bag have the
-- same phase, in whatever order and by whatever edits the lists came about.
pub aggregate_phase-eq_bag :
    (a b : CustomRuntimeEnvironment) → bag a ≡ bag b → aggregate_phase a ≡ aggregate_phase b
aggregate_phase-eq_bag a b h = aggregate_phase-bag a ∙ ap bag_phase h ∙ sym (aggregate_phase-bag b)
