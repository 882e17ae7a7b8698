-- ===== src/Synaptics/Touch.antt =====
-- `sendTouchData` of VoodooPS2Trackpad/VoodooPS2SynapticsTouchPad.cpp: the frame of the virtual fingers
-- that touch. A pad that reports beyond its range makes the range grow by the way.

pub mod Shown
use voodoo_ps2_focal_tech.Common.{
  ℕ, suc, ◌+◌, ◌/◌, List, [], ◌∷◌, Bool, true, false, not, ◌&&◌, ◌||◌, if◌then◌else◌, ◌==◌, ltb,
  modify, u8, u32, sub32, lt_signed32,
}
use voodoo_ps2_focal_tech.FocalTech.{Transducer, InputEvent}
use voodoo_ps2_focal_tech.FocalTech.Touch.{Filling}
use voodoo_ps2_focal_tech.Alps.{ForceTouchMode, disabled, button, threshold, value, custom, Outside}
use voodoo_ps2_focal_tech.Alps.Touch.{sub64, is_button_mode}
use voodoo_ps2_focal_tech.Average.{average}
use voodoo_ps2_focal_tech.Synaptics.{Synaptics, VirtualFinger, Message, dimensions, frame, emit}

-- The position is an int and the limits are unsigned, so both are compared without a sign.
unfoldable pub clip_no_update_limits : ℕ → ℕ → ℕ → ℕ
clip_no_update_limits v minimum maximum =
    let raised = if ltb v minimum then minimum else v in
    if ltb maximum raised then maximum else raised

-- clip: the position, the least and the largest value, and whether one of these changed.
unfoldable pub clip : ℕ → ℕ → ℕ → ℕ → ℕ × ℕ × ℕ × Bool
clip v minimum maximum margin =
    let below = ltb v (sub32 minimum margin) in
    let above = ltb (u32 (maximum + margin)) v in
    let least = if below then u32 (v + margin) else minimum in
    let largest = if above then sub32 v margin else maximum in
    (clip_no_update_limits v least largest, least, largest, below || above)

-- The limits of the pad, and whether they changed in this report.
pub record Limits : Type 0 where
  pub min_x : ℕ
  pub max_x : ℕ
  pub min_y : ℕ
  pub max_y : ℕ
  pub changed : Bool

-- Where a finger is on the pad, y turned upside down, and the limits after it.
unfoldable pub clip_finger : Synaptics → VirtualFinger → Limits → ℕ × ℕ × Limits
clip_finger s v l =
    let (x, min_x, max_x, changed_x) = clip (average v.x_avg) l.min_x l.max_x s.margin_size_x in
    let (y, min_y, max_y, changed_y) = clip (average v.y_avg) l.min_y l.max_y s.margin_size_y in
    (
      sub32 x min_x,
      sub32 (u32 (max_y + 1)) y,
      record {
        min_x = min_x;
        max_x = max_x;
        min_y = min_y;
        max_y = max_y;
        changed = l.changed || changed_x || changed_y;
      },
    )

unfoldable pub custom_pressure : Outside → Synaptics → ℕ → ℕ
custom_pressure e s p =
    if not (s.clamped_finger_count == 1)
    then (if lt_signed32 s.force_threshold p then 255 else 0)
    else if not (lt_signed32 p s.custom_down_threshold)
    then 255
    else if not (lt_signed32 s.custom_up_threshold p)
    then 0
    else e.curve p

unfoldable pub finger_pressure : Outside → Synaptics → ForceTouchMode → VirtualFinger → ℕ
finger_pressure e s button v = if v.button then 255 else 0
finger_pressure e s threshold v = if lt_signed32 s.force_threshold v.pressure then 255 else 0
finger_pressure e s value v = v.pressure
finger_pressure e s custom v = custom_pressure e s v.pressure
finger_pressure e s disabled v = 0

unfoldable pub fill_transducer :
    Outside → Synaptics → ℕ → ℕ → ℕ → VirtualFinger → Transducer → Transducer
fill_transducer e s i x y v t = record t {
  previous_coordinates = t.current_coordinates;
  current_coordinates = record {
    x = x;
    y = y;
    pressure = finger_pressure e s s.force_touch_mode v;
    width = v.pressure / 2;
  };
  is_valid = true;
  is_transducer_active = true;
  secondary_id = i;
  finger_type = e.finger_type v.finger_type;
  is_finger = true;
  supports_pressure = true;
  is_physical_button_down = not (is_button_mode s.force_touch_mode) && v.button;
}

abbrev pub fill_one : Outside → Synaptics → ℕ → VirtualFinger → Limits → Filling → Limits × Filling
fill_one e s i v l a =
    let (x, y, l') = clip_finger s v l in
    (
      l',
      record {
        transducers = modify a.transducers a.count (fill_transducer e s i x y v);
        count = suc a.count;
      },
    )

-- The loop over the virtual fingers from number `i` on.
unfoldable pub fill :
    Outside → Synaptics → ℕ → List VirtualFinger → Limits → Filling → Limits × Filling
fill e s i [] l a = (l, a)
fill e s i (v ∷ vs) l a =
    let next = if v.touch then fill_one e s i v l a else (l, a) in fill e s (suc i) vs next.0 next.1

-- The frame, and the limits that it was made with.
unfoldable pub build_event : Outside → Synaptics → Limits × InputEvent
build_event e s =
    let limits : Limits = record {
      min_x = s.logical_min_x;
      max_x = s.logical_max_x;
      min_y = s.logical_min_y;
      max_y = s.logical_max_y;
      changed = false;
    } in
    let start : Filling = record { transducers = s.input_event.transducers; count = 0 } in
    let (l, filled) = fill e s 0 s.virtual_finger_states limits start in
    (l, record { transducers = filled.transducers; contact_count = u8 filled.count })

-- The messages of a report, and what it leaves. The frame without fingers is sent only once.
unfoldable pub send_event : Limits × InputEvent → Synaptics → Synaptics
send_event (l, event) s =
    let stored = record s {
      logical_min_x = l.min_x;
      logical_max_x = l.max_x;
      logical_min_y = l.min_y;
      logical_max_y = l.max_y;
      input_event = event;
    } in
    let told =
      if l.changed then emit (dimensions l.min_x l.max_x l.min_y l.max_y) stored else stored in
    let sent =
      if event.contact_count == 0 && s.last_sent_finger_count == 0
      then told
      else emit (frame event) told in
    record sent {
      last_finger_count = s.clamped_finger_count;
      last_sent_finger_count = event.contact_count;
    }

-- Input is ignored for a time after a key, and while the number of fingers changes.
unfoldable pub send_touch_data : Outside → Synaptics → Synaptics
send_touch_data e s =
    let wait = if s.keycode == s.special_key then s.maxafterspecialtyping else s.maxaftertyping in
    if ltb (sub64 e.now s.keytime) wait
    then s
    else if not (s.last_finger_count == s.clamped_finger_count)
    then record s { last_finger_count = s.clamped_finger_count }
    else send_event (build_event e s) s
