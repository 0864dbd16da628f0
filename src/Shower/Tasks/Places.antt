-- ===== src/Shower/Tasks/Places.antt =====
-- Different objects of a Shower have different places.
use Prim.Native.Char.{Char, code}
use Prim.Native.String
use text.Mathlib.TextLemmas.{
  append_assoc, append-nil, append_cancel_left, cons-append, head-eq_of_cons-eq,
}
use meteor_operator.Prelude.{
  String, ◌≡◌, ◌≢◌, ◌⊎◌, refl, sym, ap, ◌∙◌, inl, inr, text-cases, sprintf, arith,
}
use meteor_operator.Kube.Meta.{NamespacedName}
use meteor_operator.Api.Shower.{Shower}
use meteor_operator.Shower.Desired.{shower_name, pipeline_name, external_name}
use meteor_operator.Shower.Tasks.{Kind, Slot, Task, slot_name, slot_key}

-- The letter after "meteor-".
abbrev letter : Slot → Char
letter Slot.own = "s"
letter Slot.pipeline = "p"
letter (Slot.external n) = "e"

abbrev tail : (home : String) → Shower → Slot → String
tail home s Slot.own = String.◌++◌ "hower-" s.meta.name
tail home s Slot.pipeline = String.◌++◌ "ipeline-" s.meta.name
tail home s (Slot.external n) =
    String.◌++◌ "xternal-" (String.◌++◌ home (String.◌++◌ "-" s.meta.name))

after_meteor :
    (c : Char) (word rest : String)
    → String.◌++◌ (String.◌++◌ "meteor-" (String.◌∷◌ c word)) rest
      ≡ String.◌++◌ "meteor-" (String.◌∷◌ c (String.◌++◌ word rest))
after_meteor c word rest =
    append_assoc "meteor-" (String.◌∷◌ c word) rest
    ∙ ap (String.◌++◌ "meteor-") (cons-append c word rest)

slot_name-eq :
    (home : String) (s : Shower) (σ : Slot)
    → slot_name home s σ ≡ String.◌++◌ "meteor-" (String.◌∷◌ (letter σ) (tail home s σ))
unfolding shower_name pipeline_name external_name sprintf
slot_name-eq home s Slot.own = rw (append-nil s.meta.name) (after_meteor "s" "hower-" s.meta.name)
slot_name-eq home s Slot.pipeline =
    rw (append-nil s.meta.name) (after_meteor "p" "ipeline-" s.meta.name)
slot_name-eq home s (Slot.external n) =
    rw (append-nil s.meta.name)
      (after_meteor "e" "xternal-" (String.◌++◌ home (String.◌++◌ "-" s.meta.name)))

slot_name-letter :
    (home : String) (s : Shower) (σ τ : Slot)
    → slot_name home s σ ≡ slot_name home s τ
    → letter σ ≡ letter τ
slot_name-letter home s σ τ e = head-eq_of_cons-eq (
    append_cancel_left "meteor-" (String.◌∷◌ (letter σ) (tail home s σ))
      (String.◌∷◌ (letter τ) (tail home s τ))
      (sym (slot_name-eq home s σ) ∙ e ∙ slot_name-eq home s τ))

same_letter :
    (home : String) (s : Shower) (σ τ : Slot)
    → letter σ ≡ letter τ
    → slot_key home s σ ≡ slot_key home s τ
    → σ ≡ τ
same_letter home s Slot.own Slot.own l e = refl
same_letter home s Slot.pipeline Slot.pipeline l e = refl
same_letter home s (Slot.external m) (Slot.external n) l e =
    ap Slot.external (ap (λ (k : NamespacedName). k.namespace) e)
same_letter home s Slot.own Slot.pipeline l e = absurd (omega (arith, ap code l))
same_letter home s Slot.own (Slot.external n) l e = absurd (omega (arith, ap code l))
same_letter home s Slot.pipeline Slot.own l e = absurd (omega (arith, ap code l))
same_letter home s Slot.pipeline (Slot.external n) l e = absurd (omega (arith, ap code l))
same_letter home s (Slot.external m) Slot.own l e = absurd (omega (arith, ap code l))
same_letter home s (Slot.external m) Slot.pipeline l e = absurd (omega (arith, ap code l))

-- The names and the namespaces tell the objects of a kind apart.
pub slot_key-injective :
    (home : String) (s : Shower) (σ τ : Slot) → slot_key home s σ ≡ slot_key home s τ → σ ≡ τ
slot_key-injective home s σ τ e =
    same_letter home s σ τ (slot_name-letter home s σ τ (ap (λ (k : NamespacedName). k.name) e)) e

Slot-cases : (σ τ : Slot) → (σ ≡ τ) ⊎ (σ ≢ τ)
Slot-cases Slot.own Slot.own = inl refl
Slot-cases Slot.pipeline Slot.pipeline = inl refl
Slot-cases (Slot.external m) (Slot.external n) = elim (text-cases m n) [
  | inl e ↦ inl (ap Slot.external e)
  | inr d ↦ inr (λ e. d (cc))
]
Slot-cases Slot.own Slot.pipeline = inr (λ e. cc)
Slot-cases Slot.own (Slot.external n) = inr (λ e. cc)
Slot-cases Slot.pipeline Slot.own = inr (λ e. cc)
Slot-cases Slot.pipeline (Slot.external n) = inr (λ e. cc)
Slot-cases (Slot.external m) Slot.own = inr (λ e. cc)
Slot-cases (Slot.external m) Slot.pipeline = inr (λ e. cc)

Kind-discrete : Discrete Kind
Kind-discrete = hlevel

-- Two tasks write different objects.
abbrev pub AreApart : (home : String) → Shower → Task → Task → Type 0
AreApart home s t u = (t.kind ≢ u.kind) ⊎ (slot_key home s u.slot ≢ slot_key home s t.slot)

same_task : (t u : Task) → t.kind ≡ u.kind → t.slot ≡ u.slot → t ≡ u
same_task t u k σ i = record { kind = k i; slot = σ i }

pub Task-cases : (home : String) (s : Shower) (t u : Task) → (t ≡ u) ⊎ AreApart home s t u
Task-cases home s t u = elim (Kind-discrete t.kind u.kind) [
  | no d ↦ inr (inl d)
  | yes k ↦ elim (Slot-cases t.slot u.slot) [
    | inl σ ↦ inl (same_task t u k σ)
    | inr d ↦ inr (inr (λ e. d (sym (slot_key-injective home s u.slot t.slot e))))
  ]
]
