-- ===== src/FocalTech/Report.antt =====
-- `reportState`, `processPacket` and `forceTimerFired` (FocalTech/Source/VoodooPS2FocalTech
-- .part03.inc to .part05.inc): a packet or the force timer becomes a report.
pub mod Frame
pub mod Fingers
pub mod Force
pub mod Run
use voodoo_ps2_focal_tech.Common.{
  ℕ, List, [], ◌∷◌, Bool, ◌&&◌, ◌||◌, false, true, not, ltb, ◌==◌, if◌then◌else◌, Option, none,
  some, map, get_or, bit_and, sub32, u8, low_bits,
}
use voodoo_ps2_focal_tech.FocalTech.{
  Finger, no_finger, Hardware, VirtualFinger, Coordinates, Driver, max_fingers,
}
use voodoo_ps2_focal_tech.FocalTech.Packet.{
  byte, process_touch_packet, process_absolute_packet, process_relative_packet,
}
use voodoo_ps2_focal_tech.FocalTech.Click.{
  clamp_position, is_usable, update_click, recheck_force, has_moved,
}
use voodoo_ps2_focal_tech.FocalTech.Touch.{send_touch_data, send_buttons}

-- One round of the loop over the virtual fingers.
unfoldable pub update_finger : ℕ → ℕ → ℕ → Finger → VirtualFinger → VirtualFinger
update_finger x_max y_max width raw v =
    let current : Coordinates = record {
      x = clamp_position x_max raw.x;
      y = sub32 y_max (clamp_position y_max raw.y);
      pressure = 0;
      width = u8 width;
    } in
    if is_usable raw
    then record {
      previous = if v.touching then v.current else current;
      current = current;
      touching = true;
    }
    else record v { touching = false }

unfoldable pub update_fingers : ℕ → ℕ → ℕ → List Finger → List VirtualFinger → List VirtualFinger
update_fingers x_max y_max width [] vs = vs
update_fingers x_max y_max width (f ∷ fs) [] = []
update_fingers x_max y_max width (f ∷ fs) (v ∷ vs) =
    update_finger x_max y_max width f v ∷ update_fingers x_max y_max width fs vs

abbrev pub button_mask : Driver → ℕ
button_mask s = if s.hardware.pressed then (if s.click_right then 2 else 1) else 0

unfoldable pub place_fingers : Driver → Driver
place_fingers s = record s {
  fingers = update_fingers s.x_max s.y_max s.hardware.width s.hardware.fingers s.fingers;
  left_button = bit_and (button_mask s) 1;
  right_button = bit_and (button_mask s) 2;
}

unfoldable pub report_state : Driver → Driver
report_state s = send_touch_data (place_fingers (recheck_force (update_click s)))

-- The handler that the packet's type selects; none for an unknown type.
unfoldable pub decode_packet : List ℕ → Hardware → Option Hardware
decode_packet packet h =
    let kind = low_bits (byte packet 0) 4 in
    if kind == 0x3
    then some (process_touch_packet packet h)
    else if kind == 0x6
    then some (process_absolute_packet packet h)
    else if kind == 0x9
    then some (process_relative_packet packet h)
    else none

abbrev pub report_decoded : Option Hardware → Driver → Driver × Bool
report_decoded none s = (s, false)
report_decoded (some h) s = (report_state (record s { hardware = h }), true)

unfoldable pub process_packet : List ℕ → Driver → Driver × Bool
process_packet packet s = report_decoded (decode_packet packet s.hardware) s

abbrev pub give_up : Driver → Driver
give_up s = record s { force_eligible = false }

-- `if (_lastButtons & 0x01U) { sendButtons(0); _lastButtons = 0; }`
unfoldable pub release_left : Driver → Driver
release_left s =
    if low_bits s.last_buttons 1 == 1
    then (let sent = send_buttons 0 s in record sent { last_buttons = 0 })
    else s

-- The hold time is over: a transition from the left button to synthetic pressure.
unfoldable pub start_force : Driver → Driver
start_force s =
    send_touch_data (release_left (record s { force_eligible = false; force_active = true }))

abbrev pub force_at : Option ℕ → Driver → Driver
force_at none s = s
force_at (some i) s =
    let raw = get_or s.hardware.fingers i no_finger in
    if not (ltb i max_fingers)
    then s
    else if not (is_usable raw)
    then give_up s
    else if has_moved s.force_start_x s.force_start_y raw
    then give_up s
    else start_force s

unfoldable pub force_timer_fired : Driver → Driver
force_timer_fired s =
    if not s.force_eligible || s.force_active || not s.hardware.pressed || s.click_right
    then s
    else force_at s.force_finger s
