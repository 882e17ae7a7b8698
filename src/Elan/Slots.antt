-- ===== src/Elan/Slots.antt =====
-- Version 4 of VoodooPS2Trackpad/VoodooPS2Elan.cpp, which tracks up to five fingers: the status packet
-- says which fingers touch, a head packet places one, and a motion packet moves one or two.

pub mod Positions
pub mod Heads
use voodoo_ps2_focal_tech.Common.{
  ℕ, zero, suc, ◌+◌, ◌-◌, ◌*◌, ◌/◌, ◌%◌, ◌^◌, List, [], ◌∷◌, Bool, true, false, not, if◌then◌else◌,
  ◌==◌, modify, bit_and, bit_set, low_bits, u32, sub32, sign_extend8,
}
use voodoo_ps2_focal_tech.Alps.{byte, field}
use voodoo_ps2_focal_tech.Elan.{Elan, VirtualFinger}
use voodoo_ps2_focal_tech.Elan.Check.{
  PacketType, unknown, debounce, v3_head, v3_tail, v4_head, v4_motion, v4_status, trackpoint,
}
use voodoo_ps2_focal_tech.Elan.Touch.{send_touch_data}
use voodoo_ps2_focal_tech.Elan.Absolute.{any_button, full_x, full_y}

abbrev pub take_buttons : List ℕ → Elan → Elan
take_buttons p s = record s {
  left_button = field (byte p 0) 0 1;
  right_button = bit_and (byte p 0) 2;
}

-- The loop over the fingers from `i` on: finger `i` touches if bit `i` of the mask is set.
unfoldable pub touch_fingers : ℕ → ℕ → List VirtualFinger → List VirtualFinger
touch_fingers mask i [] = []
touch_fingers mask i (v ∷ vs) = record v { touch = bit_set mask i } ∷ touch_fingers mask (suc i) vs

unfoldable pub count_fingers : ℕ → ℕ → List VirtualFinger → ℕ
count_fingers mask i [] = 0
count_fingers mask i (v ∷ vs) = (if bit_set mask i then 1 else 0) + count_fingers mask (suc i) vs

unfoldable pub status_v4 : ℕ → List ℕ → Elan → Elan
status_v4 now p s =
    let fingers = low_bits (byte p 1) 5 in
    let count = count_fingers fingers 0 s.virtual_finger in
    let told = record (take_buttons p s) {
      virtual_finger = touch_fingers fingers 0 s.virtual_finger;
      held_fingers = count;
      head_packets_count = 0;
    } in
    if count == 0 then send_touch_data now told else told

-- The finger of a head packet; its identifier is one more, and 0 stands for none. The source writes past its
-- array of five where the identifier is 6 or 7; here that writes nothing, and the theorem on head packets
-- leaves such packets out.
unfoldable pub place_head : List ℕ → ℕ → VirtualFinger → VirtualFinger
place_head p y_max v = record v {
  button = any_button p;
  prev = v.now;
  pressure = field (byte p 1) 4 4 * 16 + field (byte p 4) 4 4;
  width = field (byte p 0) 4 4;
  now = record (v.now) { x = full_x p; y = sub32 y_max (full_y p) };
}

unfoldable pub head_v4 : ℕ → List ℕ → Elan → Elan
head_v4 now p s =
    let id = field (byte p 3) 5 3 in
    let counted = record (take_buttons p s) {
      head_packets_count = u32 (s.head_packets_count + 1);
    } in
    let placed = record counted {
      virtual_finger = modify s.virtual_finger (id - 1) (place_head p s.info.y_max);
    } in
    if id == 0
    then counted
    else if placed.head_packets_count == placed.held_fingers
    then send_touch_data now (record placed { head_packets_count = 0 })
    else placed

-- A finger moves by a difference of signed bytes, times the weight.
unfoldable pub move : List ℕ → ℕ → ℕ → ℕ → VirtualFinger → VirtualFinger
move p weight dx dy v = record v {
  button = any_button p;
  prev = v.now;
  now = record (v.now) {
    x = u32 (v.now.x + sign_extend8 dx * weight);
    y = sub32 v.now.y (u32 (sign_extend8 dy * weight));
  };
}

unfoldable pub motion_v4 : ℕ → List ℕ → Elan → Elan
motion_v4 now p s =
    let id = field (byte p 0) 5 3 in
    let sid = field (byte p 3) 5 3 in
    let weight = if bit_set (byte p 0) 4 then 5 else 1 in
    let told = take_buttons p s in
    let first = modify s.virtual_finger (id - 1) (move p weight (byte p 1) (byte p 2)) in
    let second = modify first (sid - 1) (move p weight (byte p 4) (byte p 5)) in
    if id == 0
    then told
    else send_touch_data now (record told { virtual_finger = if sid == 0 then first else second })

-- elantechReportAbsoluteV4.
unfoldable pub report_absolute_v4 : ℕ → PacketType → List ℕ → Elan → Elan
report_absolute_v4 now v4_status p s = status_v4 now p s
report_absolute_v4 now v4_head p s = head_v4 now p s
report_absolute_v4 now v4_motion p s = motion_v4 now p s
report_absolute_v4 now _ p s = s
