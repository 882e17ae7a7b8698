-- ===== src/Synaptics/Fingers/Marked.antt =====
-- freeAndMarkVirtualFingers of VoodooPS2Trackpad/VoodooPS2SynapticsTouchPad.cpp: the types of the
-- fingers that go on.
use voodoo_ps2_focal_tech.Common.{
  ℕ, zero, suc, ◌<◌, ◌≡◌, ◌≢◌, refl, sym, ap, ◌∙◌, arith, List, [], ◌∷◌, map, take, replicate, true,
  false, Option, none, some, get_or, set, modify, length, length-set, length-replicate,
  get_or-set_self, get_or-set_ne, get_or-modify_ne, All, Bool-cases, inl, inr, ◌⊎◌, ◌==◌, if_then,
  if_else,
}
use voodoo_ps2_focal_tech.Average.{reset}
use voodoo_ps2_focal_tech.Synaptics.{Synaptics, HwState, VirtualFinger}
use voodoo_ps2_focal_tech.Synaptics.Fingers.{
  FingerTypes, no_virtual_finger, virtual, release, touch_again, set_type, forget_type, mark_finger,
  mark_fingers, free_and_mark_virtual_fingers,
}
use voodoo_ps2_focal_tech.Synaptics.Fingers.Typed.{IsTyped}
use voodoo_ps2_focal_tech.Synaptics.Fingers.Freed.{IsFreed, free_and_mark_virtual_fingers-IsFreed}

get_or-map :
    (f : VirtualFinger → VirtualFinger) (vs : List VirtualFinger) (j : ℕ)
    → f no_virtual_finger ≡ no_virtual_finger
    → get_or (map f vs) j no_virtual_finger ≡ f (get_or vs j no_virtual_finger)
get_or-map f [] j h = sym h
get_or-map f (v ∷ vs) zero h = refl
get_or-map f (v ∷ vs) (suc j) h = get_or-map f vs j h

-- The physical finger goes on with a virtual one that touches.
abbrev pub GoesOn : Synaptics → HwState → Type 0
GoesOn s f = (j : ℕ) → f.virtual_finger_index ≡ some j → (virtual j s).touch ≡ true

-- Midway: every finger has the type that it had in `s`, and one that is marked touched in `s` and its
-- type is not free.
record IsMarked (e : FingerTypes) (s m : Synaptics) : Type 0 where
  size : length m.free_finger_types ≡ e.count
  same_type : (j : ℕ) → (virtual j m).finger_type ≡ (virtual j s).finger_type
  touched :
      (j : ℕ)
      → (virtual j m).touch ≡ true
      → ((virtual j s).touch ≡ true)
        × (get_or m.free_finger_types (virtual j m).finger_type false ≡ false)

-- Marking finger `k` with type `t`.
again : (k t : ℕ) → Synaptics → Synaptics
again k t m = record m {
  virtual_finger_states = modify m.virtual_finger_states k touch_again;
  free_finger_types = set m.free_finger_types t false;
}

type-modify :
    (f : VirtualFinger → VirtualFinger) (vs : List VirtualFinger) (k j : ℕ)
    → ((v : VirtualFinger) → (f v).finger_type ≡ v.finger_type)
    → (get_or (modify vs k f) j no_virtual_finger).finger_type
      ≡ (get_or vs j no_virtual_finger).finger_type
type-modify f [] k j h = refl
type-modify f (v ∷ vs) zero zero h = h v
type-modify f (v ∷ vs) zero (suc j) h = refl
type-modify f (v ∷ vs) (suc k) zero h = refl
type-modify f (v ∷ vs) (suc k) (suc j) h = type-modify f vs k j h

again-touched :
    (k t j : ℕ) (m : Synaptics)
    → (virtual j (again k t m)).touch ≡ true
    → (j ≡ k) ⊎ ((virtual j m).touch ≡ true)
unfolding again
again-touched k t j m on = elim (Bool-cases (j == k)) [
  | inl equal ↦ inl (ground (arith, equal))
  | inr differ ↦
      let other : k ≢ j = λ e. ground (arith, differ, e) in
      inr (
        sym (
          ap (λ (v : VirtualFinger). v.touch)
            (get_or-modify_ne m.virtual_finger_states k j touch_again no_virtual_finger other))
        ∙ on)
]

again-taken :
    (k t u : ℕ) (m : Synaptics)
    → t < length m.free_finger_types
    → (u ≡ t) ⊎ (get_or m.free_finger_types u false ≡ false)
    → get_or (again k t m).free_finger_types u false ≡ false
unfolding again
again-taken k t u m room before = elim (Bool-cases (u == t)) [
  | inl equal ↦
      let same : u ≡ t = ground (arith, equal) in
      ap (λ n. get_or (set m.free_finger_types t false) n false) same
      ∙ get_or-set_self m.free_finger_types t false false room
  | inr differ ↦
      let other : t ≢ u = λ e. ground (arith, differ, e) in
      get_or-set_ne m.free_finger_types t u false false other
      ∙ elim before [ inl same ↦ absurd (other (sym same)) | inr taken ↦ taken ]
]

again-IsMarked :
    (e : FingerTypes) (k : ℕ) (s m : Synaptics)
    → IsTyped e s
    → IsMarked e s m
    → (virtual k s).touch ≡ true
    → IsMarked e s (again k (virtual k m).finger_type m)
unfolding again
again-IsMarked e k s m typed h on =
    let t = (virtual k m).finger_type in
    let (low, high, taken) = typed.typed k on in
    let room : t < length m.free_finger_types = omega (arith, h.same_type k, h.size) in
    let kept : (j : ℕ) → (virtual j (again k t m)).finger_type ≡ (virtual j m).finger_type =
      λ j. type-modify touch_again m.virtual_finger_states k j (λ v. refl) in
    record {
      size = length-set m.free_finger_types t false ∙ h.size;
      same_type = λ j. kept j ∙ h.same_type j;
      touched = λ j now. elim (again-touched k t j m now) [
        | inl same ↦ (
          ap (λ n. (virtual n s).touch) same ∙ on,
          again-taken k t _ m room (inl (kept j ∙ ap (λ n. (virtual n m).finger_type) same)),
        )
        | inr before ↦
            let (was, used) = h.touched j before in
            (
              was,
              again-taken k t _ m room
                  (inr (ap (λ n. get_or m.free_finger_types n false) (kept j) ∙ used)),
            )
      ];
    }

mark_finger-IsMarked :
    (e : FingerTypes) (r : Option ℕ) (s m : Synaptics)
    → IsTyped e s
    → ((j : ℕ) → r ≡ some j → (virtual j s).touch ≡ true)
    → IsMarked e s m
    → IsMarked e s (mark_finger r m)
unfolding mark_finger again
mark_finger-IsMarked e none s m typed on h = h
mark_finger-IsMarked e (some k) s m typed on h = again-IsMarked e k s m typed h (on k refl)

mark_fingers-IsMarked :
    (e : FingerTypes) (fs : List HwState) (s m : Synaptics)
    → IsTyped e s
    → All (GoesOn s) fs
    → IsMarked e s m
    → IsMarked e s (mark_fingers fs m)
unfolding mark_fingers
mark_fingers-IsMarked e [] s m typed on h = h
mark_fingers-IsMarked e (f ∷ fs) s m typed (on, later) h =
    mark_fingers-IsMarked e fs s _ typed later
      (mark_finger-IsMarked e f.virtual_finger_index s m typed on h)

freed-IsMarked :
    (e : FingerTypes) (s : Synaptics)
    → IsMarked e s (record s {
      virtual_finger_states = map release s.virtual_finger_states;
      free_finger_types = set (replicate e.count true) e.undefined false;
    })
unfolding reset
freed-IsMarked e s =
    let at = λ (j : ℕ). get_or-map release s.virtual_finger_states j refl in
    record {
      size = length-set (replicate e.count true) e.undefined false ∙ length-replicate e.count true;
      same_type = λ j. ap (λ (v : VirtualFinger). v.finger_type) (at j);
      touched =
          λ j on. absurd (ground (arith, sym (ap (λ (v : VirtualFinger). v.touch) (at j)) ∙ on));
    }

-- A finger that touches keeps its type to the end.
forget_type-touching :
    (e : FingerTypes) (j : ℕ) (vs : List VirtualFinger)
    → (get_or (map (forget_type e) vs) j no_virtual_finger).touch ≡ true
    → get_or (map (forget_type e) vs) j no_virtual_finger ≡ get_or vs j no_virtual_finger
forget_type-touching e j [] on = refl
forget_type-touching e zero (v ∷ vs) on = elim (Bool-cases v.touch) [
  | inl touching ↦ if_then v.touch v (set_type e.undefined v) touching
  | inr lifted ↦
      let same = if_else v.touch v (set_type e.undefined v) lifted in
      absurd (ground (arith, lifted, sym (ap (λ (u : VirtualFinger). u.touch) same) ∙ on))
]
forget_type-touching e (suc j) (v ∷ vs) on = forget_type-touching e j vs on

forgotten-IsTyped :
    (e : FingerTypes) (s m : Synaptics)
    → IsTyped e s
    → IsMarked e s m
    → IsTyped e (record m { virtual_finger_states = map (forget_type e) m.virtual_finger_states })
forgotten-IsTyped e s m typed h =
    let after : Synaptics = record m {
      virtual_finger_states = map (forget_type e) m.virtual_finger_states;
    } in
    let kept : (j : ℕ) → (virtual j after).touch ≡ true → virtual j after ≡ virtual j m =
      λ j. forget_type-touching e j m.virtual_finger_states in
    let kind : (j : ℕ)
        → (virtual j after).touch ≡ true
        → (virtual j after).finger_type ≡ (virtual j m).finger_type =
      λ j on. ap (λ (v : VirtualFinger). v.finger_type) (kept j on) in
    let before : (j : ℕ)
        → (virtual j after).touch ≡ true
        → ((virtual j s).touch ≡ true)
          × (get_or m.free_finger_types (virtual j m).finger_type false ≡ false) =
      λ j on. h.touched j (sym (ap (λ (v : VirtualFinger). v.touch) (kept j on)) ∙ on) in
    let same : (j : ℕ)
        → (virtual j after).touch ≡ true
        → (virtual j after).finger_type ≡ (virtual j s).finger_type =
      λ j on. kind j on ∙ h.same_type j in
    record {
      size = h.size;
      typed = λ j on.
          let (low, high, taken) = typed.typed j (before j on).0 in
          (
            omega (arith, same j on),
            omega (arith, same j on),
            ap (λ n. get_or m.free_finger_types n false) (kind j on) ∙ (before j on).1,
          );
      apart = λ j k on_j on_k equal.
          typed.apart j k (before j on_j).0 (before k on_k).0
            (sym (same j on_j) ∙ equal ∙ same k on_k);
    }

-- If no two touching fingers share a type and the physical fingers that count go on with touching
-- virtual ones, then after freeAndMarkVirtualFingers no two share a type either, and every type in use is
-- again not free. A virtual finger touches afterwards exactly if one of these physical fingers names it,
-- and then keeps its type; and each type but the undefined one is free exactly if no virtual finger that
-- they name had it.
pub free_and_mark_virtual_fingers-IsTyped :
    (e : FingerTypes) (s : Synaptics)
    → IsTyped e s
    → All (GoesOn s) (take s.clamped_finger_count s.finger_states)
    → IsTyped e (free_and_mark_virtual_fingers e s)
      × IsFreed e
          (take s.clamped_finger_count s.finger_states)
          s
          (free_and_mark_virtual_fingers e s)
unfolding free_and_mark_virtual_fingers
free_and_mark_virtual_fingers-IsTyped e s typed goes = (
  forgotten-IsTyped e s _ typed (
      mark_fingers-IsMarked e (take s.clamped_finger_count s.finger_states) s _ typed goes
        (freed-IsMarked e s)),
  free_and_mark_virtual_fingers-IsFreed e s,
)
