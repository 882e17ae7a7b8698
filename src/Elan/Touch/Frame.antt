-- ===== src/Elan/Touch/Frame.antt =====
-- The frame that `sendTouchData` of VoodooPS2Trackpad/VoodooPS2Elan.cpp sends: which fingers it holds.
use voodoo_ps2_focal_tech.Common.{
  ℕ, ◌≡◌, List, [], ◌∷◌, map, Bool, false, if◌then◌else◌, length, take, drop, All, bit_or, ◌==◌,
}
use voodoo_ps2_focal_tech.FocalTech.{Transducer, InputEvent}
use voodoo_ps2_focal_tech.FocalTech.Touch.Filled.{mark, shown}
use voodoo_ps2_focal_tech.Elan.{Elan, VirtualFinger, Message, trackpoint}
use voodoo_ps2_focal_tech.Elan.Touch.{buttons_changed, changed_buttons}

abbrev pub is_touching : VirtualFinger → Bool
is_touching v = v.touch

-- An event that holds the fingers with the numbers `ids`, in order, and no other contact.
abbrev pub Holds : List ℕ → InputEvent → Type 0
Holds ids e =
    (e.contact_count ≡ length ids)
    × (take e.contact_count (map mark e.transducers) ≡ map shown ids)
    × All (λ (t : Transducer). t.is_valid ≡ false) (drop e.contact_count e.transducers)

-- The message about the buttons that goes with `n` fingers: on a pad with buttons of its own, those that
-- are down if no finger touches, and those that went down if one does and a button changed.
abbrev pub button_messages : ℕ → Elan → List Message
button_messages n s =
    if s.info.is_buttonpad
    then []
    else if n == 0
    then trackpoint (bit_or s.left_button s.right_button) 0 0 ∷ []
    else if buttons_changed s
    then trackpoint (changed_buttons s) 0 0 ∷ []
    else []
