-- ===== src/Elan/Absolute.antt =====
-- `elantechRescale` and `elantechReportAbsoluteV1` to V3 of VoodooPS2Trackpad/VoodooPS2Elan.cpp: the
-- packets of a pad that reports a number of fingers and one or two positions. The other fingers are
-- made up around the position: `h` is 100, and the sine and cosine of 30 degrees give 50 and 86.

pub mod Range
use voodoo_ps2_focal_tech.Common.{
  ℕ, suc, ◌+◌, ◌*◌, ◌/◌, ◌%◌, ◌^◌, List, Bool, true, false, not, ◌&&◌, ◌||◌, if◌then◌else◌, ◌==◌,
  ltb, modify, bit_and, low_bits, u32, sub32,
}
use voodoo_ps2_focal_tech.Alps.{byte, field}
use voodoo_ps2_focal_tech.Elan.{Elan, VirtualFinger, FingerPos, sizes, dimensions, emit}
use voodoo_ps2_focal_tech.Elan.Check.{PacketType, v3_head}
use voodoo_ps2_focal_tech.Elan.Touch.{send_touch_data}

-- A size in hundredths of the resolution, which is not 0.
abbrev pub physical : ℕ → ℕ → ℕ
physical size res = u32 (u32 (size + 1) * 100) / res

-- The messages of a rescale.
unfoldable pub announce : Elan → Elan
announce s =
    let w = sub32 s.info.x_max s.info.x_min in
    let h = sub32 s.info.y_max s.info.y_min in
    let set = emit (sizes w h (physical w s.info.x_res) (physical h s.info.y_res)) s in
    if s.voodoo_input
    then emit (dimensions s.info.x_min s.info.x_max s.info.y_min s.info.y_max) set
    else set

unfoldable pub rescale : ℕ → ℕ → Elan → Elan
rescale x y s =
    let wide = ltb s.info.x_max x in
    let high = ltb s.info.y_max y in
    let grown = record s {
      info = record (s.info) {
        x_max = if wide then x else s.info.x_max;
        y_max = if high then y else s.info.y_max;
      };
    } in
    if wide || high then announce grown else s

-- A finger that touches at (x, y): it has no earlier position if it is `fresh`.
unfoldable pub place : Bool → Bool → ℕ → ℕ → VirtualFinger → VirtualFinger
place button fresh x y v =
    let now = record (v.now) { x = x; y = y } in
    record v { touch = true; button = button; prev = if fresh then now else v.now; now = now }

abbrev pub lift : VirtualFinger → VirtualFinger
lift v = record v { touch = false }

-- The first three fingers are lifted, and the buttons are taken from byte 0.
unfoldable pub lift_all : List ℕ → Elan → Elan
lift_all p s = record s {
  virtual_finger = modify (modify (modify s.virtual_finger 0 lift) 1 lift) 2 lift;
  left_button = field (byte p 0) 0 1;
  right_button = bit_and (byte p 0) 2;
}

abbrev pub any_button : List ℕ → Bool
any_button p = not (low_bits (byte p 0) 2 == 0)

abbrev pub put : ℕ → Bool → Bool → ℕ → ℕ → Elan → Elan
put i button fresh x y s = record s {
  virtual_finger = modify s.virtual_finger i (place button fresh x y);
}

-- Three fingers around (x, y).
unfoldable pub put_three : Bool → Bool → ℕ → ℕ → Elan → Elan
put_three button fresh x y s =
    put 2 button fresh (u32 (x + 86)) (u32 (y + 50))
      (put 1 button fresh (sub32 x 86) (u32 (y + 50)) (put 0 button fresh x (sub32 y 100) s))

-- Two fingers around (x, y), on version 1.
unfoldable pub put_two : Bool → Bool → ℕ → ℕ → Elan → Elan
put_two button fresh x y s =
    put 1 button fresh (u32 (x + 86)) (u32 (y + 50)) (put 0 button fresh x (sub32 y 100) s)

unfoldable pub fingers_v1 : List ℕ → Elan → ℕ
fingers_v1 p s =
    if ltb s.info.fw_version 0x02_0000
    then field (byte p 1) 7 1 + field (byte p 1) 4 2
    else field (byte p 0) 6 2

unfoldable pub place_v1 : List ℕ → ℕ → ℕ → ℕ → Elan → Elan
place_v1 p fingers x y s =
    let button = any_button p in
    let fresh = not (s.last_fingers == fingers) in
    if fingers == 1
    then put 0 button fresh x y s
    else if fingers == 2
    then put_two button fresh x y s
    else if fingers == 3
    then put_three button fresh x y s
    else s

unfoldable pub report_absolute_v1 : ℕ → List ℕ → Elan → Elan
report_absolute_v1 now p s =
    let fingers = fingers_v1 p s in
    let x = field (byte p 1) 2 2 * 256 + byte p 2 in
    let y = sub32 s.info.y_max (field (byte p 1) 0 2 * 256 + byte p 3) in
    let first_ones = s.info.jumpy_cursor && fingers == 1 && ltb s.single_finger_reports 2 in
    let again =
      if s.info.jumpy_cursor && not (fingers == 1)
      then record s { single_finger_reports = 0 }
      else s in
    if first_ones
    then record s { single_finger_reports = suc s.single_finger_reports }
    else send_touch_data now
        (record (place_v1 p fingers x y (lift_all p again)) { last_fingers = fingers })

-- From version 2 on: one finger or two at their positions, or three around the first.
unfoldable pub place_v2 : List ℕ → ℕ → FingerPos → FingerPos → Elan → Elan
place_v2 p fingers first second s =
    let button = any_button p in
    let fresh = not (s.last_fingers == 1) && not (s.last_fingers == 2) in
    let one = put 0 button fresh first.x first.y s in
    if fingers == 1
    then one
    else if fingers == 2
    then put 1 button (not (s.last_fingers == 2)) second.x second.y one
    else if fingers == 3
    then put_three button (not (s.last_fingers == 3)) first.x first.y s
    else s

unfoldable pub finish : ℕ → List ℕ → ℕ → FingerPos → FingerPos → Elan → Elan
finish now p fingers first second s =
    send_touch_data now
      (record (place_v2 p fingers first second (lift_all p s)) { last_fingers = fingers })

-- The twelve bits of each coordinate.
abbrev pub full_x : List ℕ → ℕ
full_x p = low_bits (byte p 1) 4 * 256 + byte p 2

abbrev pub full_y : List ℕ → ℕ
full_y p = low_bits (byte p 4) 4 * 256 + byte p 5

abbrev pub nowhere : FingerPos
nowhere = record { x = 0; y = 0 }

unfoldable pub report_absolute_v2 : ℕ → List ℕ → Elan → Elan
report_absolute_v2 now p s =
    let fingers = field (byte p 0) 6 2 in
    let full : FingerPos = record { x = full_x p; y = sub32 s.info.y_max (full_y p) } in
    let low_a : FingerPos = record {
      x = (field (byte p 0) 4 1 * 256 + byte p 1) * 4;
      y = sub32 s.info.y_max ((field (byte p 0) 5 1 * 256 + byte p 2) * 4);
    } in
    let low_b : FingerPos = record {
      x = (field (byte p 3) 4 1 * 256 + byte p 4) * 4;
      y = sub32 s.info.y_max ((field (byte p 3) 5 1 * 256 + byte p 5) * 4);
    } in
    if fingers == 2
    then finish now p fingers low_a low_b s
    else if fingers == 0
    then finish now p fingers nowhere nowhere s
    else finish now p fingers full nowhere s

abbrev pub is_head : PacketType → Bool
is_head v3_head = true
is_head _ = false

-- The head packet of two fingers only keeps the position of the first one.
unfoldable pub keep_head : List ℕ → Elan → Elan
keep_head p s = record s { mt = record { x = full_x p; y = sub32 s.info.y_max (full_y p) } }

unfoldable pub report_absolute_v3 : ℕ → PacketType → List ℕ → Elan → Elan
report_absolute_v3 now kind p s =
    let fingers = field (byte p 0) 6 2 in
    let scaled = rescale (full_x p) (full_y p) s in
    let here : FingerPos = record { x = full_x p; y = sub32 scaled.info.y_max (full_y p) } in
    if fingers == 2
    then (if is_head kind then keep_head p s else finish now p fingers s.mt here scaled)
    else if fingers == 0
    then finish now p fingers nowhere nowhere s
    else finish now p fingers here nowhere scaled
