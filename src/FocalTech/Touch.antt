-- ===== src/FocalTech/Touch.antt =====
-- `sendTouchData` and `sendButtons` (FocalTech/Source/VoodooPS2FocalTech.part04.inc and
-- part05.inc): the contacts of a frame, the choice of the thumb, and the button report.
pub mod Thumb
pub mod Filled
pub mod Contacts
pub mod Pressed
use voodoo_ps2_focal_tech.Common.{
  ℕ, zero, suc, ◌+◌, List, [], ◌∷◌, map, Bool, ◌&&◌, false, true, not, ltb, leb, ◌==◌,
  if◌then◌else◌, Option, none, some, get_or, modify, bit_or, u8, take,
}
use voodoo_ps2_focal_tech.FocalTech.{
  Coordinates, VirtualFinger, FingerType, index_finger, middle_finger, ring_finger, thumb,
  little_finger, Transducer, InputEvent, Driver, emit, touch_message, button_message, origin,
}

unfoldable pub finger_type_for_index : ℕ → FingerType
finger_type_for_index zero = index_finger
finger_type_for_index (suc zero) = middle_finger
finger_type_for_index (suc (suc zero)) = ring_finger
finger_type_for_index (suc (suc (suc zero))) = thumb
finger_type_for_index (suc (suc (suc (suc zero)))) = little_finger
finger_type_for_index (suc (suc (suc (suc (suc _))))) = index_finger

abbrev pub is_thumb : FingerType → Bool
is_thumb thumb = true
is_thumb _ = false

abbrev pub is_index : Option ℕ → ℕ → Bool
is_index none i = false
is_index (some j) i = i == j

-- The transducer that finger `i` writes as number `count`; the forced finger reports pressure.
unfoldable pub fill_transducer : Bool → ℕ → ℕ → VirtualFinger → Transducer → Transducer
fill_transducer forced i count f t =
    let pressed = record (f.current) { pressure = 255; width = 10 } in
    record t {
      current_coordinates = if forced then pressed else f.current;
      previous_coordinates = f.previous;
      is_valid = true;
      is_physical_button_down = false;
      is_transducer_active = true;
      supports_pressure = forced;
      secondary_id = i;
      finger_type = finger_type_for_index count;
      is_finger = true;
    }

pub record Filling : Type 0 where
  pub transducers : List Transducer
  pub count : ℕ

unfoldable pub fill_one : Bool → Option ℕ → ℕ → VirtualFinger → Filling → Filling
fill_one force_active force_finger i f a =
    if f.touching
    then record {
      transducers =
          modify a.transducers a.count
            (fill_transducer (force_active && is_index force_finger i) i a.count f);
      count = suc a.count;
    }
    else a

unfoldable pub fill : Bool → Option ℕ → ℕ → List VirtualFinger → Filling → Filling
fill force_active force_finger i [] a = a
fill force_active force_finger i (f ∷ fs) a =
    fill force_active force_finger (suc i) fs (fill_one force_active force_finger i f a)

-- The loop that looks for the lowest contact and for the present thumb.
pub record ThumbSearch : Type 0 where
  pub max_y : ℕ
  pub new_thumb : ℕ
  pub old_thumb : ℕ

unfoldable pub compare_thumb : ℕ → Transducer → ThumbSearch → ThumbSearch
compare_thumb i t a =
    let lower = ltb a.max_y t.current_coordinates.y in
    record {
      max_y = if lower then t.current_coordinates.y else a.max_y;
      new_thumb = if lower then i else a.new_thumb;
      old_thumb = if is_thumb t.finger_type then i else a.old_thumb;
    }

unfoldable pub thumb_search : ℕ → List Transducer → ThumbSearch → ThumbSearch
thumb_search i [] a = a
thumb_search i (t ∷ ts) a = thumb_search (suc i) ts (compare_thumb i t a)

abbrev pub set_type : FingerType → Transducer → Transducer
set_type k t = record t { finger_type = k }

abbrev pub no_transducer : Transducer
no_transducer = record {
  current_coordinates = origin;
  previous_coordinates = origin;
  is_valid = false;
  is_physical_button_down = false;
  is_transducer_active = false;
  supports_pressure = false;
  secondary_id = 0;
  finger_type = index_finger;
  is_finger = false;
}

-- The old thumb takes the lowest contact's type, and the lowest contact becomes the thumb.
unfoldable pub assign_thumb : ℕ → List Transducer → List Transducer
assign_thumb count ts =
    let found =
      thumb_search 0 (take count ts) (record { max_y = 0; new_thumb = 0; old_thumb = 0 }) in
    let old_type = (get_or ts found.new_thumb no_transducer).finger_type in
    modify (modify ts found.old_thumb (set_type old_type)) found.new_thumb (set_type thumb)

abbrev pub clear_transducer : Transducer → Transducer
clear_transducer t = record t {
  is_valid = false;
  is_physical_button_down = false;
  is_transducer_active = false;
  supports_pressure = false;
}

-- `for (i = count; i < VOODOO_INPUT_MAX_TRANSDUCERS; ++i)`
unfoldable pub clear_from : ℕ → List Transducer → List Transducer
clear_from zero ts = map clear_transducer ts
clear_from (suc n) [] = []
clear_from (suc n) (t ∷ ts) = t ∷ clear_from n ts

unfoldable pub build_event : Driver → InputEvent
build_event s =
    let filled =
      fill s.force_active s.force_finger 0 s.fingers
        (record { transducers = s.input_event.transducers; count = 0 }) in
    let typed =
      if leb 4 filled.count
      then assign_thumb filled.count filled.transducers
      else filled.transducers in
    record { transducers = clear_from filled.count typed; contact_count = u8 filled.count }

unfoldable pub send_buttons : ℕ → Driver → Driver
send_buttons buttons s = if s.voodoo_input then emit (button_message buttons) s else s

abbrev pub current_buttons : Driver → ℕ
current_buttons s = if s.force_active then s.right_button else bit_or s.left_button s.right_button

-- The button report goes out only when the buttons change.
unfoldable pub report_buttons : Driver → Driver
report_buttons s =
    if current_buttons s == s.last_buttons
    then s
    else (let sent = send_buttons (current_buttons s) s in
        record sent { last_buttons = current_buttons s })

unfoldable pub send_touch_data : Driver → Driver
send_touch_data s =
    let event = build_event s in
    let stored = record s { input_event = event } in
    report_buttons (if s.voodoo_input then emit (touch_message event) stored else stored)
