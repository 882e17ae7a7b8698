-- ===== src/Alps/Touch.antt =====
-- What VoodooPS2Trackpad/VoodooPS2ALPSGlidePoint.cpp does with a decoded packet: voodooTrackpoint,
-- alps_buttons, prepareVoodooInput and sendTouchData. A finger count is taken to be below 2 ^ 31.
pub mod Kept
pub mod Placed
use voodoo_ps2_focal_tech.Common.{
  ℕ, zero, suc, ◌+◌, ◌-◌, ◌%◌, List, [], ◌∷◌, map, Bool, true, false, not, ◌&&◌, ◌||◌,
  if◌then◌else◌, Option, none, some, ◌==◌, ltb, leb, get_or, modify, u8, u32, sub32, neg32,
  sign_extend8, lt_signed32,
}
use voodoo_ps2_focal_tech.Alps.{
  Alps, Fields, Position, nowhere, proto_v8, VirtualFinger, ForceTouchMode, disabled, button,
  threshold, value, custom, relative, scroll, frame, emit, Outside, is_buttonpad, max_touches,
}
use voodoo_ps2_focal_tech.FocalTech.{Transducer, InputEvent, FingerType}
use voodoo_ps2_focal_tech.FocalTech.Touch.{Filling, assign_thumb}

-- voodooTrackpoint(kIOMessageVoodooTrackpointRelativePointer, x, y, buttons): x and y are SInt8.
unfoldable pub send_relative : ℕ → ℕ → ℕ → Alps → Alps
send_relative x y buttons s = emit (relative (sign_extend8 (u8 x)) (sign_extend8 (u8 y)) buttons) s

-- voodooTrackpoint(kIOMessageVoodooTrackpointScrollWheel, x, y, buttons).
unfoldable pub send_scroll : ℕ → ℕ → Alps → Alps
send_scroll x y s = emit (scroll (neg32 (sign_extend8 (u8 y))) (neg32 (sign_extend8 (u8 x)))) s

-- The buttons of the event, none before any is set, and whether one is held.
pub record Click : Type 0 where
  pub buttons : Option ℕ
  pub clicked : Bool

-- `if (down && !was_down) ... else if (was_down && !down) ...`, for a button with mask `mask`.
unfoldable pub click : ℕ → Bool → Bool → Click → Click
click mask was_down down c =
    if down && not was_down
    then record { buttons = some mask; clicked = true }
    else if was_down && not down
    then record { buttons = some 0; clicked = false }
    else c

unfoldable pub send_click : Option ℕ → Alps → Alps
send_click none s = s
send_click (some buttons) s = emit (relative 0 0 buttons) s

-- `if (last_clicked != clicked)`, where the click was `was`.
unfoldable pub send_change : Bool → Click → Alps → Alps
send_change was c s =
    if (was && not c.clicked) || (not was && c.clicked) then send_click c.buttons s else s

unfoldable pub click_all : Fields → Alps → Click
click_all f s =
    let start : Click = record { buttons = none; clicked = s.clicked } in
    let pad = if is_buttonpad s then start else click 1 s.left f.left start in
    click 1 s.left_ts f.ts_left
      (click 4 s.middle (f.middle || f.ts_middle) (click 2 s.right (f.right || f.ts_right) pad))

unfoldable pub alps_buttons : Fields → Alps → Alps
alps_buttons f s =
    let c = click_all f s in
    send_change s.clicked c (record s {
      left = f.left;
      right = f.right || f.ts_right;
      middle = f.middle || f.ts_middle;
      left_ts = f.ts_left;
      clicked = c.clicked;
    })

-- Where finger `i` is put: the third and fourth one are beside the others, except on version 8.
unfoldable pub finger_position : Bool → ℕ → List Position → Position
finger_position true i mt = get_or mt i nowhere
finger_position false zero mt = get_or mt 0 nowhere
finger_position false (suc zero) mt = get_or mt 1 nowhere
finger_position false (suc (suc zero)) mt = record {
  x = u32 ((get_or mt 0 nowhere).x + 5);
  y = u32 ((get_or mt 0 nowhere).y + 5);
}
finger_position false (suc (suc (suc _))) mt = record {
  x = sub32 (get_or mt 1 nowhere).x 5;
  y = u32 ((get_or mt 1 nowhere).y + 5);
}

-- Above X_MAX_POSITIVE the value is negative on ABS_POS_BITS bits; at it, it is XMAX.
unfoldable pub fix_sign : ℕ → ℕ
fix_sign v = if ltb 8176 v then sub32 v 8192 else if v == 8176 then 6143 else v

unfoldable pub place_finger : Fields → Alps → ℕ → VirtualFinger → VirtualFinger
place_finger f s i v =
    let p = finger_position (s.proto_version == proto_v8) i f.mt in
    record v { x = fix_sign p.x; y = fix_sign p.y; pressure = u8 f.pressure; touch = true }

abbrev pub set_button : Bool → VirtualFinger → VirtualFinger
set_button b v = record v { button = b }

-- The loop over the fingers from `i` on, `n` of them.
unfoldable pub place_fingers : Fields → Alps → ℕ → ℕ → List VirtualFinger → List VirtualFinger
place_fingers f s zero i vs = vs
place_fingers f s (suc n) i vs =
    place_fingers f s n (suc i)
      (modify (modify vs i (place_finger f s i)) 0 (set_button (is_buttonpad s && f.left)))

abbrev pub min : ℕ → ℕ → ℕ
min a b = if ltb b a then b else a

abbrev pub release : VirtualFinger → VirtualFinger
release v = record v { touch = false }

-- The pressure of a finger and whether it reports pressure, for each force touch mode.
unfoldable pub custom_pressure : Outside → Alps → ℕ → ℕ
custom_pressure e s p =
    if not (s.clamped_finger_count == 1)
    then (if lt_signed32 s.force_threshold p then 255 else 0)
    else if not (lt_signed32 p s.custom_down_threshold)
    then 255
    else if not (lt_signed32 s.custom_up_threshold p)
    then 0
    else e.curve p

unfoldable pub finger_pressure : Outside → Alps → ForceTouchMode → VirtualFinger → ℕ
finger_pressure e s button v = if v.button then 255 else 0
finger_pressure e s threshold v = if lt_signed32 s.force_threshold v.pressure then 255 else 0
finger_pressure e s value v = v.pressure
finger_pressure e s custom v = custom_pressure e s v.pressure
finger_pressure e s disabled v = 0

abbrev pub reports_pressure : ForceTouchMode → Bool
reports_pressure disabled = false
reports_pressure _ = true

abbrev pub is_button_mode : ForceTouchMode → Bool
is_button_mode button = true
is_button_mode _ = false

unfoldable pub fill_transducer : Outside → Alps → ℕ → VirtualFinger → Transducer → Transducer
fill_transducer e s i v t = record t {
  previous_coordinates = t.current_coordinates;
  current_coordinates = record (t.current_coordinates) {
    x = v.x;
    y = sub32 (s.logical_max_y + 1) v.y;
    pressure = finger_pressure e s s.force_touch_mode v;
  };
  is_valid = true;
  is_transducer_active = true;
  secondary_id = i;
  finger_type = e.finger_type (i % 4);
  is_finger = true;
  supports_pressure = reports_pressure s.force_touch_mode;
  is_physical_button_down = not (is_button_mode s.force_touch_mode) && v.button;
}

unfoldable pub fill : Outside → Alps → ℕ → List VirtualFinger → Filling → Filling
fill e s i [] a = a
fill e s i (v ∷ vs) a = fill e s (suc i) vs (
    if v.touch
    then record {
      transducers = modify a.transducers a.count (fill_transducer e s i v);
      count = suc a.count;
    }
    else a)

unfoldable pub build_event : Outside → Alps → InputEvent
build_event e s =
    let filled =
      fill e s 0 s.virtual_fingers
        (record { transducers = s.input_event.transducers; count = 0 }) in
    record {
      transducers =
          if leb 4 filled.count
          then assign_thumb filled.count filled.transducers
          else filled.transducers;
      contact_count = u8 filled.count;
    }

abbrev pub sub64 : ℕ → ℕ → ℕ
sub64 a b = (a + 0x1_0000_0000_0000_0000 - b) % 0x1_0000_0000_0000_0000

-- Input is ignored for a time after a key, and while the number of fingers changes.
unfoldable pub send_touch_data : Outside → Alps → Alps
send_touch_data e s =
    let event = build_event e s in
    let stored = record s { input_event = event } in
    if ltb (sub64 e.now s.keytime) s.maxaftertyping
    then s
    else if not (s.last_finger_count == s.clamped_finger_count)
    then record s { last_finger_count = s.clamped_finger_count }
    else (if s.voodoo_input then emit (frame event) stored else stored)

unfoldable pub prepare_voodoo_input : Outside → Fields → ℕ → Alps → Alps
prepare_voodoo_input e f fingers s =
    let placed = record s {
      virtual_fingers = place_fingers f s (min 4 fingers) 0 (map release s.virtual_fingers);
      clamped_finger_count = if ltb max_touches fingers then max_touches else fingers;
      report_voodoo_input = s.report_voodoo_input || ltb 0 fingers;
    } in
    let quiet = record placed {
      report_voodoo_input = not (fingers == 0 && s.last_finger_count == 0);
    } in
    if placed.report_voodoo_input then send_touch_data e quiet else placed
