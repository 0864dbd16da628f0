-- ===== src/Cre/Build/Index.antt =====
-- The closure `statusIndex` of `reconcilePipelineRun`.
use meteor_operator.Prelude.{
  ℕ, zero, suc, String, ◌≡◌, refl, inl, inr, Option, none, some, List, [], ◌∷◌, ◌++◌, ◌==◌, length,
  get_elem?, arith, eq_iff, Bool-cases,
}
use meteor_operator.Api.Common.{PipelineResult}
use meteor_operator.Api.Cre.{CustomRuntimeEnvironment}
use meteor_operator.Cre.Build.{run_name, find_index, index_or_append, status_index}

-- Some entry at the position carries the name.
abbrev pub NamedAt : String → List PipelineResult → ℕ → Type 0
NamedAt name prs i = (pr : PipelineResult) × (get_elem? prs i ≡ some pr) × (pr.name ≡ name)

find_index-NamedAt :
    (name : String) (prs : List PipelineResult) (i : ℕ)
    → find_index name prs ≡ some i
    → NamedAt name prs i
unfolding find_index
find_index-NamedAt name [] i h = cc
find_index-NamedAt name (pr ∷ prs) zero h = elim (Bool-cases (pr.name == name)) [
  | inl p ↦ (pr, refl, (eq_iff pr.name name).0 p)
  | inr p ↦ absurd (ground arith)
]
find_index-NamedAt name (pr ∷ prs) (suc i) h = find_index-NamedAt name prs i (ground arith)

get_elem?-last {ℓ} :
    {A : Type ℓ} (xs : List A) (x : A) → get_elem? (xs ++ x ∷ []) (length xs) ≡ some x
get_elem?-last [] x = refl
get_elem?-last (y ∷ xs) x = get_elem?-last xs x

index_or_append-NamedAt :
    (name : String) (o : Option ℕ) (result : PipelineResult) (prs : List PipelineResult)
    → find_index name prs ≡ o
    → result.name ≡ name
    → let (i, after) = index_or_append o result prs in NamedAt name after i
index_or_append-NamedAt name none result prs h n = (result, get_elem?-last prs result, n)
index_or_append-NamedAt name (some i) result prs h n = find_index-NamedAt name prs i h

find_index-append_some :
    (name : String) (prs more : List PipelineResult) (i : ℕ)
    → find_index name prs ≡ some i
    → find_index name (prs ++ more) ≡ some i
unfolding find_index
find_index-append_some name [] more i h = cc
find_index-append_some name (pr ∷ prs) more zero h = ground arith
find_index-append_some name (pr ∷ prs) more (suc i) h =
    ground (arith, find_index-append_some name prs more i)

find_index-append_none :
    (name : String) (prs : List PipelineResult) (result : PipelineResult)
    → find_index name prs ≡ none
    → result.name ≡ name
    → find_index name (prs ++ result ∷ []) ≡ some (length prs)
unfolding find_index
find_index-append_none name [] result h n = ground (arith, eq_iff result.name name)
find_index-append_none name (pr ∷ prs) result h n =
    ground (arith, find_index-append_none name prs result)

-- The position that `statusIndex` returns holds a result with the resource's name.
pub status_index-NamedAt :
    (cre : CustomRuntimeEnvironment)
    → NamedAt cre.meta.name (status_index cre).1 (status_index cre).0
unfolding status_index
status_index-NamedAt cre = index_or_append-NamedAt cre.meta.name _ _ _ refl refl

index_or_append_again :
    (name : String) (o : Option ℕ) (result : PipelineResult) (prs : List PipelineResult)
    → find_index name prs ≡ o
    → result.name ≡ name
    → let (i, after) = index_or_append o result prs in
      index_or_append (find_index name after) result after ≡ (i, after)
index_or_append_again name none result prs h n = rw (find_index-append_none name prs result h n)
index_or_append_again name (some i) result prs h n = rw h

-- Asked again of the list that it returned, it answers the same position and appends nothing, so
-- repeated reconciliations of a resource keep one result for it.
pub status_index_again :
    (cre : CustomRuntimeEnvironment)
    → status_index (record cre { status = record cre.status { pipelines = (status_index cre).1 } })
      ≡ status_index cre
unfolding status_index run_name
status_index_again cre = index_or_append_again cre.meta.name _ _ cre.status.pipelines refl refl
