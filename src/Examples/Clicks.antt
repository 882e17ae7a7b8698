-- ===== src/Examples/Clicks.antt =====
-- Clicks, force clicks and the thumb of the touchpad driver (FocalTech/).
use voodoo_ps2_focal_tech.Common.{
  ℕ, zero, suc, ◌*◌, ◌≤◌, ◌≡◌, refl, arith, List, [], ◌∷◌, ◌++◌, true, false, get_or, replicate,
  some,
}
use voodoo_ps2_focal_tech.FocalTech.{
  Driver, Transducer, new_driver, no_finger, no_hardware, button_message, touch_message,
}
use voodoo_ps2_focal_tech.FocalTech.Touch.{no_transducer, finger_type_for_index}
use voodoo_ps2_focal_tech.Common.{length, map, All, drop, take}
use voodoo_ps2_focal_tech.FocalTech.{no_virtual_finger}
use voodoo_ps2_focal_tech.FocalTech.Touch.{build_event}
use voodoo_ps2_focal_tech.FocalTech.Touch.Filled.{mark, shown}
use voodoo_ps2_focal_tech.FocalTech.Touch.Pressed.{contact_of}
use voodoo_ps2_focal_tech.FocalTech.Touch.Contacts.{touching_from, build_event-touching}
use voodoo_ps2_focal_tech.FocalTech.Click.{is_usable, has_moved, find_click}
use voodoo_ps2_focal_tech.FocalTech.Click.Search.{raw_finger, lowness, Clicked, find_click_lowest}
use voodoo_ps2_focal_tech.FocalTech.Report.{force_timer_fired}
use voodoo_ps2_focal_tech.FocalTech.Report.Force.{IsReported}
use voodoo_ps2_focal_tech.FocalTech.Report.Run.{
  packet, timer, run, step, run-IsReported, force_timer_fired_log,
}

-- One finger in the lower right of a pad of 1000 by 800.
abbrev clicking : Driver
clicking = record (new_driver (replicate 10 no_transducer)) {
  has_device = true;
  voodoo_input = true;
  has_force_timer = true;
  x_max = 1000;
  y_max = 800;
  hardware = record no_hardware {
    fingers =
        record { active = true; valid = true; x = 900; y = 100 }
        ∷ no_finger
        ∷ no_finger
        ∷ no_finger
        ∷ no_finger
        ∷ [];
    pressed = true;
  };
}

-- The same finger holds a left click for which the timer runs.
abbrev holding : Driver
holding = record clicking {
  fingers =
      record no_virtual_finger {
        touching = true;
        current = record { x = 900; y = 700; pressure = 0; width = 7 };
      }
      ∷ no_virtual_finger
      ∷ [];
  last_buttons = 1;
  left_button = 1;
  click_was_pressed = true;
  force_eligible = true;
  force_finger = some 0;
  force_start_x = 900;
  force_start_y = 100;
}

holding-IsReported : IsReported holding
holding-IsReported = ground arith

run-IsReported_example :
    IsReported (run (packet (6 ∷ 0x14 ∷ 0 ∷ 0 ∷ 100 ∷ 0 ∷ []) ∷ timer ∷ []) holding)
run-IsReported_example =
    run-IsReported (packet (6 ∷ 0x14 ∷ 0 ∷ 0 ∷ 100 ∷ 0 ∷ []) ∷ timer ∷ []) holding
      holding-IsReported

still_down : is_usable (get_or holding.hardware.fingers 0 no_finger) ≡ true
still_down = refl

unmoved : has_moved 900 100 (get_or holding.hardware.fingers 0 no_finger) ≡ false
unfolding has_moved
unmoved = refl

force_timer_fired_log_example :
    let event = (force_timer_fired holding).input_event in
    ((force_timer_fired holding).force_active ≡ true)
    × ((force_timer_fired holding).log
        ≡ (holding.log ++ button_message 0 ∷ []) ++ touch_message event ∷ [])
    × (take event.contact_count (map contact_of event.transducers)
        ≡ record {
          is_valid = true;
          number = 0;
          has_pressure = true;
          place = record { x = 900; y = 700; pressure = 255; width = 10 };
        }
          ∷ [])
force_timer_fired_log_example =
    force_timer_fired_log holding 0 holding-IsReported refl refl refl (omega arith) still_down
      unmoved (omega arith) (omega arith)

forced : (run (timer ∷ []) holding).force_active ≡ true
unfolding run step
forced =
    (force_timer_fired_log holding 0 holding-IsReported refl refl refl (omega arith) still_down
      unmoved (omega arith) (omega arith)).0

find_click_lowest_example :
    (k : ℕ) × Clicked clicking k
    × (lowness 1000 800 (raw_finger clicking 0) ≤ (find_click clicking).click_y)
find_click_lowest_example = find_click_lowest clicking 0 (omega arith) refl

only_first : (k : ℕ) → is_usable (raw_finger clicking k) ≡ true → k ≡ 0
only_first zero h = refl
only_first (suc zero) h = cc
only_first (suc (suc zero)) h = cc
only_first (suc (suc (suc zero))) h = cc
only_first (suc (suc (suc (suc zero)))) h = cc
only_first (suc (suc (suc (suc (suc k))))) h = cc

abbrev contact : ℕ → ℕ → Transducer
contact i y = record no_transducer {
  finger_type = finger_type_for_index i;
  current_coordinates = record { x = 100 * i; y = y; pressure = 0; width = 7 };
}

abbrev four_contacts : List Transducer
four_contacts = contact 0 300 ∷ contact 1 700 ∷ contact 2 200 ∷ contact 3 100 ∷ []

-- Two of five fingers touch.
abbrev touching : Driver
touching = record clicking {
  fingers =
      no_virtual_finger
      ∷ record no_virtual_finger { touching = true }
      ∷ no_virtual_finger
      ∷ record no_virtual_finger { touching = true }
      ∷ no_virtual_finger
      ∷ [];
}

build_event-touching_example :
    let e = build_event touching in
    let ids = touching_from 0 touching.fingers in
    (e.contact_count ≡ length ids)
    × (take e.contact_count (map mark e.transducers) ≡ map shown ids)
    × All (λ (t : Transducer). t.is_valid ≡ false) (drop e.contact_count e.transducers)
build_event-touching_example = build_event-touching touching (omega arith) (omega arith)
