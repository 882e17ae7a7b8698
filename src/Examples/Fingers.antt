-- ===== src/Examples/Fingers.antt =====
-- Touching fingers of the Synaptics driver (VoodooPS2Trackpad/VoodooPS2SynapticsTouchPad.cpp).
use voodoo_ps2_focal_tech.Common.{
  ℕ, zero, suc, ◌<◌, ◌≡◌, refl, arith, [], ◌∷◌, ◌++◌, true, false, not, ◌&&◌, ◌==◌, some, replicate,
  length, get_or,
}
use voodoo_ps2_focal_tech.FocalTech.{InputEvent, index_finger}
use voodoo_ps2_focal_tech.FocalTech.Touch.{no_transducer}
use voodoo_ps2_focal_tech.FocalTech.Touch.Filled.{numbers_from}
use voodoo_ps2_focal_tech.Alps.{Outside}
use voodoo_ps2_focal_tech.Synaptics.{Synaptics, HwState, VirtualFinger, dimensions, frame}
use voodoo_ps2_focal_tech.Synaptics.Fingers.{
  FingerTypes, no_virtual_finger, virtual, assign_virtual_finger, free_and_mark_virtual_fingers,
}
use voodoo_ps2_focal_tech.Synaptics.Fingers.Started.{Starts}
use voodoo_ps2_focal_tech.Synaptics.Fingers.Freed.{IsFreed}
use voodoo_ps2_focal_tech.Synaptics.Fingers.Typed.{IsTyped, assign_virtual_finger-IsTyped}
use voodoo_ps2_focal_tech.Synaptics.Fingers.Marked.{free_and_mark_virtual_fingers-IsTyped}
use voodoo_ps2_focal_tech.Synaptics.Touch.{Limits, send_touch_data}
use voodoo_ps2_focal_tech.Synaptics.Touch.Shown.{is_touching, Shows, sent_if, send_touch_data-Shows}
use voodoo_ps2_focal_tech.Examples.Pads.{extended}

abbrev hand : FingerTypes
hand = record { undefined = 0; index_finger = 1; count = 6 }

abbrev outside : Outside
outside = record { finger_type = λ n. index_finger; now = 1000; curve = λ p. p }

abbrev touching : ℕ → VirtualFinger
touching t = record no_virtual_finger { touch = true; finger_type = t }

abbrev at_virtual : ℕ → HwState
at_virtual j = record { x = 3000; y = 2000; z = 60; w = 8; virtual_finger_index = some j }

-- The index and the middle finger touch; the second physical finger is the first virtual one.
abbrev two : Synaptics
two = record extended {
  finger_states = at_virtual 1 ∷ at_virtual 0 ∷ [];
  virtual_finger_states = touching 1 ∷ touching 2 ∷ no_virtual_finger ∷ [];
  free_finger_types = false ∷ false ∷ false ∷ true ∷ true ∷ true ∷ [];
  clamped_finger_count = 2;
  last_finger_count = 2;
  input_event = record { transducers = replicate 10 no_transducer; contact_count = 0 };
}

-- Virtual finger 0 has type 1, and 1 has type 2.
two-touch :
    (j : ℕ)
    → (virtual j two).touch ≡ true
    → ((virtual j two).finger_type ≡ suc j)
      × (j < 2)
      × (get_or two.free_finger_types (virtual j two).finger_type false ≡ false)
two-touch zero on = (refl, omega arith, refl)
two-touch (suc zero) on = (refl, omega arith, refl)
two-touch (suc (suc zero)) on = absurd (ground (arith, on))
two-touch (suc (suc (suc j))) on = absurd (ground (arith, on))

two-IsTyped : IsTyped hand two
two-IsTyped = record {
  size = refl;
  typed = λ j on. let (kind, small, taken) = two-touch j on in (omega arith, omega arith, taken);
  apart = λ j k on_j on_k same.
      let (kind_j, small_j, taken_j) = two-touch j on_j in
      let (kind_k, small_k, taken_k) = two-touch k on_k in omega arith;
}

assign_virtual_finger-IsTyped_example :
    IsTyped hand (assign_virtual_finger hand 1 two)
    × (j : ℕ) × Starts 1 j two (assign_virtual_finger hand 1 two)
assign_virtual_finger-IsTyped_example =
    assign_virtual_finger-IsTyped hand 1 3 2 two two-IsTyped (omega arith) (omega arith) refl
      (omega arith) (omega arith) (omega arith) refl

two_goes_on : (i : ℕ) → i < 2 → (j : ℕ) → some i ≡ some j → (virtual j two).touch ≡ true
two_goes_on i small zero same = refl
two_goes_on i small (suc zero) same = refl
two_goes_on i small (suc (suc j)) same = absurd (ground (arith, small, same))

free_and_mark_virtual_fingers-IsTyped_example :
    IsTyped hand (free_and_mark_virtual_fingers hand two)
    × IsFreed hand (at_virtual 1 ∷ at_virtual 0 ∷ []) two (free_and_mark_virtual_fingers hand two)
free_and_mark_virtual_fingers-IsTyped_example =
    free_and_mark_virtual_fingers-IsTyped hand two two-IsTyped
      (two_goes_on 1 (omega arith), (two_goes_on 0 (omega arith), tt))

send_touch_data-Shows_example :
    let ids = numbers_from is_touching 0 two.virtual_finger_states in
    let t = send_touch_data outside two in
    (l : Limits) × (event : InputEvent) × Shows ids event
    × (t.log
        ≡ (two.log ++ sent_if l.changed (dimensions l.min_x l.max_x l.min_y l.max_y))
          ++ sent_if (not (length ids == 0 && two.last_sent_finger_count == 0)) (frame event))
    × (t.last_sent_finger_count ≡ length ids)
send_touch_data-Shows_example =
    send_touch_data-Shows outside two (omega arith) (omega arith) (omega arith) refl
