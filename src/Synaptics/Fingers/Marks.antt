-- ===== src/Synaptics/Fingers/Marks.antt =====
-- Marking fingers as used, one physical finger after the other: which virtual fingers touch and which
-- types are free.
use voodoo_ps2_focal_tech.Common.{
  ℕ, zero, suc, ◌<◌, ◌≡◌, ◌≢◌, refl, ap, ◌∙◌, arith, List, [], ◌∷◌, Bool, false, not, ◌&&◌, ◌||◌,
  Option, none, some, get_or, set, modify, length, length-set, length-modify, get_or-set_self,
  get_or-set_ne, get_or-modify_self, get_or-modify_ne, Bool-cases, inl, inr, ◌==◌,
}
use voodoo_ps2_focal_tech.Synaptics.{Synaptics, HwState, VirtualFinger}
use voodoo_ps2_focal_tech.Synaptics.Fingers.{
  no_virtual_finger, virtual, touch_again, mark_finger, mark_fingers,
}

-- The physical finger goes on with virtual finger `j`.
abbrev pub names : ℕ → Option ℕ → Bool
names j none = false
names j (some k) = k == j

-- One of the physical fingers goes on with virtual finger `j`.
unfoldable pub is_named : ℕ → List HwState → Bool
is_named j [] = false
is_named j (f ∷ fs) = names j f.virtual_finger_index || is_named j fs

abbrev pub has_type : List VirtualFinger → ℕ → Option ℕ → Bool
has_type vs t none = false
has_type vs t (some k) = (get_or vs k no_virtual_finger).finger_type == t

-- One of the physical fingers goes on with a virtual finger of type `t`.
unfoldable pub is_used : List VirtualFinger → ℕ → List HwState → Bool
is_used vs t [] = false
is_used vs t (f ∷ fs) = has_type vs t f.virtual_finger_index || is_used vs t fs

type-modify :
    (vs : List VirtualFinger) (k j : ℕ)
    → (get_or (modify vs k touch_again) j no_virtual_finger).finger_type
      ≡ (get_or vs j no_virtual_finger).finger_type
type-modify [] k j = refl
type-modify (v ∷ vs) zero zero = refl
type-modify (v ∷ vs) zero (suc j) = refl
type-modify (v ∷ vs) (suc k) zero = refl
type-modify (v ∷ vs) (suc k) (suc j) = type-modify vs k j

-- Marking one finger: it touches, its type is taken, and the rest is as it was.
mark_finger-touch :
    (r : Option ℕ) (j : ℕ) (m : Synaptics)
    → j < length m.virtual_finger_states
    → (virtual j (mark_finger r m)).touch ≡ (names j r || (virtual j m).touch)
unfolding mark_finger
mark_finger-touch none j m h = refl
mark_finger-touch (some k) j m h = elim (Bool-cases (k == j)) [
  | inl same ↦
      let here : k ≡ j = ground (arith, same) in
      rw same (
        ap (λ n. (get_or (modify m.virtual_finger_states n touch_again) j no_virtual_finger).touch)
          here
        ∙ ap (λ (v : VirtualFinger). v.touch)
            (get_or-modify_self m.virtual_finger_states j touch_again no_virtual_finger h))
  | inr other ↦
      let away : k ≢ j = λ e. ground (arith, other, e) in
      rw other (
        ap (λ (v : VirtualFinger). v.touch)
          (get_or-modify_ne m.virtual_finger_states k j touch_again no_virtual_finger away))
]

mark_finger-type :
    (r : Option ℕ) (j : ℕ) (m : Synaptics)
    → (virtual j (mark_finger r m)).finger_type ≡ (virtual j m).finger_type
unfolding mark_finger
mark_finger-type none j m = refl
mark_finger-type (some k) j m = type-modify m.virtual_finger_states k j

mark_finger-free :
    (r : Option ℕ) (t : ℕ) (m : Synaptics)
    → t < length m.free_finger_types
    → get_or (mark_finger r m).free_finger_types t false
      ≡ (not (has_type m.virtual_finger_states t r) && get_or m.free_finger_types t false)
unfolding mark_finger
mark_finger-free none t m h = refl
mark_finger-free (some k) t m h = elim (Bool-cases ((virtual k m).finger_type == t)) [
  | inl same ↦
      let here : (virtual k m).finger_type ≡ t = ground (arith, same) in
      rw same (
        ap (λ n. get_or (set m.free_finger_types n false) t false) here
        ∙ get_or-set_self m.free_finger_types t false false h)
  | inr other ↦
      let away : (virtual k m).finger_type ≢ t = λ e. ground (arith, other, e) in
      rw other (get_or-set_ne m.free_finger_types (virtual k m).finger_type t false false away)
]

mark_finger-sizes :
    (r : Option ℕ) (m : Synaptics)
    → (length (mark_finger r m).virtual_finger_states ≡ length m.virtual_finger_states)
      × (length (mark_finger r m).free_finger_types ≡ length m.free_finger_types)
unfolding mark_finger
mark_finger-sizes none m = (refl, refl)
mark_finger-sizes (some k) m = (
  length-modify m.virtual_finger_states k touch_again,
  length-set m.free_finger_types (virtual k m).finger_type false,
)

has_type-mark_finger :
    (r q : Option ℕ) (t : ℕ) (m : Synaptics)
    → has_type (mark_finger r m).virtual_finger_states t q ≡ has_type m.virtual_finger_states t q
has_type-mark_finger r none t m = refl
has_type-mark_finger r (some k) t m = ap (λ n. n == t) (mark_finger-type r k m)

is_used-mark_finger :
    (r : Option ℕ) (t : ℕ) (fs : List HwState) (m : Synaptics)
    → is_used (mark_finger r m).virtual_finger_states t fs ≡ is_used m.virtual_finger_states t fs
unfolding is_used
is_used-mark_finger r t [] m = refl
is_used-mark_finger r t (f ∷ fs) m =
    rw (has_type-mark_finger r f.virtual_finger_index t m, is_used-mark_finger r t fs m) refl

pub mark_fingers-touch :
    (fs : List HwState) (j : ℕ) (m : Synaptics)
    → j < length m.virtual_finger_states
    → (virtual j (mark_fingers fs m)).touch ≡ (is_named j fs || (virtual j m).touch)
unfolding mark_fingers is_named
mark_fingers-touch [] j m h = refl
mark_fingers-touch (f ∷ fs) j m h =
    let r = f.virtual_finger_index in
    ground (
      arith,
      mark_fingers-touch fs j (mark_finger r m) (omega (arith, h, mark_finger-sizes r m)),
      mark_finger-touch r j m h,
    )

pub mark_fingers-free :
    (fs : List HwState) (t : ℕ) (m : Synaptics)
    → t < length m.free_finger_types
    → get_or (mark_fingers fs m).free_finger_types t false
      ≡ (not (is_used m.virtual_finger_states t fs) && get_or m.free_finger_types t false)
unfolding mark_fingers is_used
mark_fingers-free [] t m h = refl
mark_fingers-free (f ∷ fs) t m h =
    let r = f.virtual_finger_index in
    ground (
      arith,
      mark_fingers-free fs t (mark_finger r m) (omega (arith, h, mark_finger-sizes r m)),
      mark_finger-free r t m h,
      is_used-mark_finger r t fs m,
    )

pub mark_fingers-type :
    (fs : List HwState) (j : ℕ) (m : Synaptics)
    → (virtual j (mark_fingers fs m)).finger_type ≡ (virtual j m).finger_type
unfolding mark_fingers
mark_fingers-type [] j m = refl
mark_fingers-type (f ∷ fs) j m =
    mark_fingers-type fs j (mark_finger f.virtual_finger_index m)
    ∙ mark_finger-type f.virtual_finger_index j m

pub length-mark_fingers :
    (fs : List HwState) (m : Synaptics)
    → length (mark_fingers fs m).virtual_finger_states ≡ length m.virtual_finger_states
unfolding mark_fingers
length-mark_fingers [] m = refl
length-mark_fingers (f ∷ fs) m =
    length-mark_fingers fs (mark_finger f.virtual_finger_index m)
    ∙ (mark_finger-sizes f.virtual_finger_index m).0
