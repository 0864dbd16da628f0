-- ===== src/Kube/Doubles.antt =====
-- Concrete stand-ins for the parameters: the condition functions on keyed lists, and a cluster that
-- holds at most one object of a kind. They show that the assumptions can be met, and run the tests.
use meteor_operator.Prelude.{
  String, ◌≡◌, ◌≢◌, refl, sym, inl, inr, true, false, Option, none, some, List, [], ◌∷◌, ◌++◌, ◌==◌,
  All, arith, eq_iff, text-cases, if◌then◌else◌,
}
use meteor_operator.Kube.Conditions.{
  Condition, find_condition, IsListMap, ConditionOps, AreConditionOps,
}
use meteor_operator.Kube.Client.{Error, Result, ok, err, Resource}
use meteor_operator.Kube.Library.{Library}

unfoldable pub set_condition : List Condition → Condition → List Condition
set_condition [] c = c ∷ []
set_condition (d ∷ ds) c = if d.type == c.type then c ∷ ds else d ∷ set_condition ds c

unfoldable pub remove_condition : List Condition → String → List Condition
remove_condition [] t = []
remove_condition (d ∷ ds) t =
    let rest = remove_condition ds t in if d.type == t then rest else d ∷ rest

set_condition-All :
    (t : String) (cs : List Condition) (c : Condition)
    → c.type ≢ t
    → All (λ d. d.type ≢ t) cs
    → All (λ d. d.type ≢ t) (set_condition cs c)
unfolding set_condition
set_condition-All t [] c n h = (n, tt)
set_condition-All t (d ∷ ds) c n h = ground (arith, set_condition-All t ds c n h.1)

set_condition-IsListMap :
    (cs : List Condition) (c : Condition) → IsListMap cs → IsListMap (set_condition cs c)
unfolding set_condition
set_condition-IsListMap [] c h = (tt, tt)
set_condition-IsListMap (d ∷ ds) c h = elim (text-cases d.type c.type) [
  | inl e ↦ rw ((eq_iff d.type c.type).1 e) (rw (sym e) (h.0), h.1)
  | inr n ↦ ground (
    arith,
    eq_iff d.type c.type,
    set_condition-IsListMap ds c h.1,
    set_condition-All d.type ds c (λ e. n (sym e)) h.0,
  )
]

find-set_condition :
    (cs : List Condition) (c : Condition) (t : String)
    → find_condition t (set_condition cs c) ≡ (if c.type == t then some c else find_condition t cs)
unfolding set_condition
find-set_condition [] c t = refl
find-set_condition (d ∷ ds) c t =
    ground
      (arith, eq_iff d.type c.type, eq_iff d.type t, eq_iff c.type t, find-set_condition ds c t)

remove_condition-All :
    (t u : String) (cs : List Condition)
    → All (λ d. d.type ≢ t) cs
    → All (λ d. d.type ≢ t) (remove_condition cs u)
unfolding remove_condition
remove_condition-All t u [] h = tt
remove_condition-All t u (d ∷ ds) h = ground (arith, remove_condition-All t u ds h.1)

remove_condition-IsListMap :
    (cs : List Condition) (u : String) → IsListMap cs → IsListMap (remove_condition cs u)
unfolding remove_condition
remove_condition-IsListMap [] u h = tt
remove_condition-IsListMap (d ∷ ds) u h =
    ground (arith, remove_condition-IsListMap ds u h.1, remove_condition-All d.type u ds h.0)

find-remove_condition :
    (cs : List Condition) (u t : String)
    → find_condition t (remove_condition cs u) ≡ (if u == t then none else find_condition t cs)
unfolding remove_condition
find-remove_condition [] u t = ground arith
find-remove_condition (d ∷ ds) u t =
    ground (arith, eq_iff d.type u, eq_iff d.type t, eq_iff u t, find-remove_condition ds u t)

abbrev pub keyed_ops : ConditionOps
keyed_ops = record {
  set_status_condition = set_condition;
  remove_status_condition = remove_condition;
}

pub keyed_ops-AreConditionOps : AreConditionOps keyed_ops
keyed_ops-AreConditionOps = record {
  set-IsListMap = set_condition-IsListMap;
  find-set = λ cs c t _. find-set_condition cs c t;
  remove-IsListMap = remove_condition-IsListMap;
  find-remove = λ cs u t _. find-remove_condition cs u t;
}

abbrev pub missing_object : Error
missing_object = record { not_found = true; message = "not found" }

abbrev pub refusal : Error
refusal = record { not_found = false; message = "forbidden" }

abbrev pub drop_text : List String → String → List String
drop_text [] f = []
drop_text (g ∷ gs) f = let rest = drop_text gs f in if g == f then rest else g ∷ rest

-- References are not tracked by the stand-in.
abbrev pub plain_library : Library
plain_library = record {
  conditions = keyed_ops;
  set_controller_reference = λ _ owner controlled. controlled;
  new_controller_ref = λ kind meta. record {
    api_version = kind.api_version;
    kind = kind.kind;
    name = meta.name;
    uid = meta.uid;
    controller = some true;
    block_owner_deletion = some true;
  };
  add_finalizer = λ fs f. fs ++ f ∷ [];
  remove_finalizer = drop_text;
  no_showers_found = record { not_found = true; message = "no showers found" };
  shower_conflict = record { not_found = false; message = "shower conflict" };
}

abbrev pub answer {ℓ} : {A : Type ℓ} → Option A → Result A
answer none = err missing_object
answer (some a) = ok a

abbrev pub listed {ℓ} : {A : Type ℓ} → Option A → List A
listed none = []
listed (some a) = a ∷ []

-- A kind with at most one object, which is the state; writes are accepted.
abbrev pub single : (T : Type 0) → Resource (Option T) T
single T = record {
  get = λ _ w. (answer w, w);
  list = λ w. (ok (listed w), w);
  create = λ x w. (ok x, some x);
  update = λ x w. (ok x, some x);
  update_status = λ x w. (ok x, some x);
  delete = λ _ w. (none, none);
}

-- The same, with every creation refused.
abbrev pub refusing : (T : Type 0) → Resource (Option T) T
refusing T = record (single T) { create = λ _ w. (err refusal, w) }

-- A kind of which the cluster, whatever its state, answers with the one object given.
abbrev pub constant : {W : Type 0} (T : Type 0) → T → Resource W T
constant T x = record {
  get = λ _ w. (ok x, w);
  list = λ w. (ok (x ∷ []), w);
  create = λ y w. (ok y, w);
  update = λ y w. (ok y, w);
  update_status = λ y w. (ok y, w);
  delete = λ _ w. (none, w);
}

-- A kind of which there is no object, and that cannot be written.
abbrev pub nothing : {W : Type 0} (T : Type 0) → Resource W T
nothing T = record {
  get = λ _ w. (err missing_object, w);
  list = λ w. (ok [], w);
  create = λ _ w. (err refusal, w);
  update = λ _ w. (err missing_object, w);
  update_status = λ _ w. (err missing_object, w);
  delete = λ _ w. (some missing_object, w);
}
