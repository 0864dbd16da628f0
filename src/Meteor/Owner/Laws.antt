-- ===== src/Meteor/Owner/Laws.antt =====
-- Which Shower a Meteor gets.
use meteor_operator.Prelude.{
  String, ◌≡◌, refl, ◌∙◌, ap, Bool, true, false, ◌||◌, Option, none, some, List, [], ◌∷◌, ◌==◌, any,
  map_get, arith, if◌then◌else◌,
}
use meteor_operator.Kube.Client.{ok}
use meteor_operator.Kube.Library.{Library}
use meteor_operator.Api.Shower.{Shower}
use meteor_operator.Meteor.State.{Reconciler, Api}
use meteor_operator.Meteor.Owner.{
  selector_key, Pointer, walk, pointed_to, pick, by_label, choose_shower, own, after_list,
  find_owner_shower,
}

abbrev pub is_some {ℓ} : {A : Type ℓ} → Option A → Bool
is_some none = false
is_some (some _) = true

abbrev pub last : Shower → List Shower → Shower
last s [] = s
last s (t ∷ ts) = last t ts

abbrev is_variable : Pointer → Bool
is_variable Pointer.kept = false
is_variable Pointer.loop_variable = true

walked :
    (v : String) (before : Option Shower) (s : Shower) (p : Pointer) (ss : List Shower)
    → pointed_to before (walk v (some s) p ss)
      ≡ (if is_variable p || any (λ t. t.meta.name == v) ss then some (last s ss) else before)
walked v before s Pointer.kept [] = refl
walked v before s Pointer.loop_variable [] = refl
walked v before s p (t ∷ ts) =
    ground (arith, walked v before t Pointer.loop_variable ts, walked v before t p ts)

-- With a name that is found, the pointer sees the variable's last value.
pub pick_lem :
    (v : String) (before : Option Shower) (s : Shower) (ss : List Shower)
    → pick v before (s ∷ ss)
      ≡ (if any (λ t. t.meta.name == v) (s ∷ ss) then some (last s ss) else before)
pick_lem v before s ss =
    ground (arith, walked v before s Pointer.loop_variable ss, walked v before s Pointer.kept ss)

-- Whether the Meteor's label names one of the Showers.
abbrev pub is_selected : Option String → List Shower → Bool
is_selected none items = false
is_selected (some v) items = any (λ t. t.meta.name == v) items

-- Whether there is a Shower to take: the only one, one that the label selects, or one that an
-- earlier reconciliation left behind.
abbrev pub is_identified : Reconciler → List Shower → Bool
is_identified r [] = false
is_identified r (s ∷ []) = true
is_identified r (s ∷ t ∷ ss) =
    is_selected (map_get r.meteor.meta.labels selector_key) (s ∷ t ∷ ss) || is_some r.shower

abbrev label_of : Reconciler → Option String
label_of r = map_get r.meteor.meta.labels selector_key

module _ {W : Type 0} (lib : Library) (api : Api W) (r : Reconciler) (w w' : W) where
  own-error :
      (o : Option Shower) (v : W)
      → is_some (own lib api r o v).error ≡ (if is_some o then false else true)
  unfolding own
  own-error none v = refl
  own-error (some s) v = refl

  by_label-is_some :
      (l : Option String) (b : Option Shower) (s t : Shower) (ss : List Shower)
      → is_some (by_label l b (s ∷ t ∷ ss)) ≡ (is_selected l (s ∷ t ∷ ss) || is_some b)
  by_label-is_some none b s t ss = refl
  by_label-is_some (some v) b s t ss = ground (arith, pick_lem v b s (t ∷ ss))

  -- When the Showers could be listed, `findOwnerShower` fails exactly when none can be identified.
  pub find_owner_shower-error :
      (items : List Shower)
      → api.showers.list w ≡ (ok items, w')
      → is_some (find_owner_shower lib api r w).error
        ≡ (if is_identified r items then false else true)
  unfolding find_owner_shower after_list choose_shower own
  find_owner_shower-error [] h = rw h refl
  find_owner_shower-error (s ∷ []) h = rw h refl
  find_owner_shower-error (s ∷ t ∷ ss) h = rw h (
      own-error (by_label (label_of r) r.shower (s ∷ t ∷ ss)) w'
      ∙ ap (λ b. if b then false else true) (by_label-is_some (label_of r) r.shower s t ss))

  -- With two Showers or more, of which the label selects one, the Meteor gets the last of the list,
  -- selected or not.
  pub find_owner_shower-last :
      (v : String) (s t : Shower) (ss : List Shower)
      → api.showers.list w ≡ (ok (s ∷ t ∷ ss), w')
      → map_get r.meteor.meta.labels selector_key ≡ some v
      → any (λ x. x.meta.name == v) (s ∷ t ∷ ss) ≡ true
      → (find_owner_shower lib api r w).reconciler.shower ≡ some (last t ss)
  unfolding find_owner_shower after_list choose_shower own
  find_owner_shower-last v s t ss h l a = rw (h, l, pick_lem v r.shower s (t ∷ ss), a) refl
