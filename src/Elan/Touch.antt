-- ===== src/Elan/Touch.antt =====
-- `sendTouchData` and `GetBestFingerType` of VoodooPS2Trackpad/VoodooPS2Elan.cpp: the frame of the
-- fingers that touch, and the buttons below the pad. `now` is the uptime in nanoseconds.

pub mod Frame
use voodoo_ps2_focal_tech.Common.{
  ℕ, zero, suc, List, [], ◌∷◌, map, Bool, true, false, not, ◌&&◌, ◌||◌, if◌then◌else◌, ◌==◌, ltb,
  leb, modify, bit_or, u8,
}
use voodoo_ps2_focal_tech.FocalTech.{
  Transducer, InputEvent, FingerType, index_finger, middle_finger, ring_finger, thumb,
  little_finger,
}
use voodoo_ps2_focal_tech.FocalTech.Touch.{Filling, assign_thumb}
use voodoo_ps2_focal_tech.Alps.Touch.{sub64}
use voodoo_ps2_focal_tech.Elan.{Elan, VirtualFinger, frame, trackpoint, emit}

unfoldable pub best_finger_type : ℕ → FingerType
best_finger_type zero = index_finger
best_finger_type (suc zero) = middle_finger
best_finger_type (suc (suc zero)) = ring_finger
best_finger_type (suc (suc (suc zero))) = thumb
best_finger_type (suc (suc (suc (suc zero)))) = little_finger
best_finger_type (suc (suc (suc (suc (suc _))))) = index_finger

-- The transducer that finger `i` writes as number `count`: in the force touch mode for buttons the
-- button of a buttonpad becomes pressure.
unfoldable pub fill_transducer : Elan → ℕ → ℕ → VirtualFinger → Transducer → Transducer
fill_transducer s i count v t =
    let down = s.info.is_buttonpad && v.button in
    let forced = s.force_touch_button && down in
    let pressed = record (v.now) { pressure = 255; width = 10 } in
    record t {
      current_coordinates = if forced then pressed else v.now;
      previous_coordinates = v.prev;
      is_valid = true;
      is_physical_button_down = down && not forced;
      is_transducer_active = true;
      secondary_id = i;
      finger_type = best_finger_type count;
      is_finger = true;
      supports_pressure = forced;
    }

unfoldable pub fill : Elan → ℕ → List VirtualFinger → Filling → Filling
fill s i [] a = a
fill s i (v ∷ vs) a = fill s (suc i) vs (
    if v.touch
    then record {
      transducers = modify a.transducers a.count (fill_transducer s i a.count v);
      count = suc a.count;
    }
    else a)

abbrev pub clear_transducer : Transducer → Transducer
clear_transducer t = record t {
  is_valid = false;
  is_physical_button_down = false;
  is_transducer_active = false;
}

-- The transducers from number `n` on are marked as unused.
unfoldable pub clear_from : ℕ → List Transducer → List Transducer
clear_from zero ts = map clear_transducer ts
clear_from (suc n) [] = []
clear_from (suc n) (t ∷ ts) = t ∷ clear_from n ts

unfoldable pub build_event : Elan → InputEvent
build_event s =
    let filled =
      fill s 0 s.virtual_finger (record { transducers = s.input_event.transducers; count = 0 }) in
    let typed =
      if leb 4 filled.count
      then assign_thumb filled.count filled.transducers
      else filled.transducers in
    record { transducers = clear_from filled.count typed; contact_count = u8 filled.count }

-- The buttons that changed, as far as they are down.
unfoldable pub changed_buttons : Elan → ℕ
changed_buttons s =
    bit_or (if s.last_left_button == s.left_button then 0 else s.left_button)
      (if s.last_right_button == s.right_button then 0 else s.right_button)

abbrev pub buttons_changed : Elan → Bool
buttons_changed s =
    not (s.last_left_button == s.left_button) || not (s.last_right_button == s.right_button)

unfoldable pub report_buttons : ℕ → Elan → Elan
report_buttons count s =
    let sent =
      if count == 0
      then emit (trackpoint (bit_or s.left_button s.right_button) 0 0) s
      else if buttons_changed s
      then emit (trackpoint (changed_buttons s) 0 0) s
      else s in
    if s.info.is_buttonpad
    then s
    else record sent { last_left_button = s.left_button; last_right_button = s.right_button }

-- Input is ignored for a time after a key or the trackpoint.
unfoldable pub send_touch_data : ℕ → Elan → Elan
send_touch_data now s =
    let event = build_event s in
    let stored = record s { input_event = event } in
    let sent = if s.voodoo_input then emit (frame event) stored else stored in
    if ltb (sub64 now s.keytime) s.maxaftertyping
    then s
    else report_buttons event.contact_count sent
