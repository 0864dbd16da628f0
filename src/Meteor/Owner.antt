-- ===== src/Meteor/Owner.antt =====
-- controllers/meteor/meteor_controller.go: `findOwnerShower`.
pub mod Laws
use meteor_operator.Prelude.{
  String, Bool, Option, none, some, List, [], ◌∷◌, ◌==◌, map_get, if◌then◌else◌,
}
use meteor_operator.Kube.Client.{Error, Result, ok, err}
use meteor_operator.Kube.Library.{Library}
use meteor_operator.Api.Meteor.{Meteor}
use meteor_operator.Api.Shower.{Shower}
use meteor_operator.Meteor.State.{Reconciler, Api, Step}

-- `SelectorKey`
abbrev pub selector_key : String
selector_key = "shower.meteor.zone"

-- What `r.Shower` holds during the inner loop: the pointer from before, or the address of the loop's
-- one variable.
pub data Pointer : Type 0 where
  kept : Pointer
  loop_variable : Pointer

-- The inner loop, with the variable `s` and the pointer.
abbrev pub walk :
    String → (variable : Option Shower) → Pointer → List Shower → Option Shower × Pointer
walk v variable p [] = (variable, p)
walk v variable p (s ∷ ss) =
    walk v (some s) (if s.meta.name == v then Pointer.loop_variable else p) ss

-- What the pointer points to after the loop.
abbrev pub pointed_to : (before : Option Shower) → Option Shower × Pointer → Option Shower
pointed_to before (variable, Pointer.kept) = before
pointed_to before (variable, Pointer.loop_variable) = variable

abbrev pub pick : String → Option Shower → List Shower → Option Shower
pick v before items = pointed_to before (walk v none Pointer.kept items)

-- The loop over the labels: only the one with the selector's key has an effect.
abbrev pub by_label : Option String → Option Shower → List Shower → Option Shower
by_label none before items = before
by_label (some v) before items = pick v before items

-- `r.Shower` after the branches on the number of items.
unfoldable pub choose_shower : Meteor → Option Shower → List Shower → Option Shower
choose_shower m before [] = before
choose_shower m before (s ∷ []) = some s
choose_shower m before (s ∷ t ∷ ss) =
    by_label (map_get m.meta.labels selector_key) before (s ∷ t ∷ ss)

module _ {W : Type 0} (lib : Library) (api : Api W) where
  -- The end: `r.Shower` is tested, and becomes the controller of the Meteor.
  unfoldable pub own : Reconciler → Option Shower → W → Step W
  own r none w = record {
    error = some (lib.shower_conflict);
    reconciler = record r { shower = none };
    world = w;
  }
  own r (some s) w = record {
    error = none;
    reconciler = record r {
      shower = some s;
      meteor = record r.meteor {
        meta = lib.set_controller_reference s.type_meta s.meta r.meteor.meta;
      };
    };
    world = w;
  }

  unfoldable pub after_list : Reconciler → Result (List Shower) → W → Step W
  unfolding choose_shower own
  after_list r (err e) w = record { error = some e; reconciler = r; world = w }
  after_list r (ok []) w = record { error = some (lib.no_showers_found); reconciler = r; world = w }
  after_list r (ok (s ∷ ss)) w = own r (choose_shower r.meteor r.shower (s ∷ ss)) w

  unfoldable pub find_owner_shower : Reconciler → W → Step W
  unfolding after_list
  find_owner_shower r w = let (items, w') = api.showers.list w in after_list r items w'
