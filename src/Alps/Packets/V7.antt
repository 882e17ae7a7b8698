-- ===== src/Alps/Packets/V7.antt =====
-- The packet handlers of version 7 (VoodooPS2Trackpad/VoodooPS2ALPSGlidePoint.cpp).
use voodoo_ps2_focal_tech.Common.{
  ℕ, ◌*◌, List, Bool, true, false, not, ◌&&◌, ◌||◌, if◌then◌else◌, ◌==◌, bit_or, bit_set, neg32,
  sign_extend8,
}
use voodoo_ps2_focal_tech.Alps.{
  Alps, no_fields, Outside, byte, field, is_dualpoint, ForceTouchMode, disabled,
}
use voodoo_ps2_focal_tech.Alps.Touch.{alps_buttons, prepare_voodoo_input}
use voodoo_ps2_focal_tech.Alps.Packets.{button_mask, send_stick, decode, reverse_y}

unfoldable pub process_trackstick_v7 : List ℕ → Alps → Alps
process_trackstick_v7 p s =
    let x = sign_extend8 (
      bit_or (bit_or (field (byte p 2) 0 6) (field (byte p 2) 7 1 * 128))
        (field (byte p 3) 4 1 * 64)) in
    let y = sign_extend8 (
      bit_or
        (bit_or (bit_or (field (byte p 3) 0 3) (field (byte p 4) 3 3 * 8))
          (field (byte p 4) 7 1 * 128))
        (field (byte p 3) 5 1 * 64)) in
    let buttons =
      button_mask (bit_set (byte p 1) 0) (bit_set (byte p 1) 1) (bit_set (byte p 1) 2) in
    if is_dualpoint s
    then send_stick x (neg32 y) (bit_or buttons s.last_touchpad_buttons)
        (record s { last_trackstick_buttons = buttons })
    else s

abbrev pub is_disabled : ForceTouchMode → Bool
is_disabled disabled = true
is_disabled _ = false

unfoldable pub process_touchpad_v7 : Outside → List ℕ → Alps → Alps
process_touchpad_v7 e p s =
    let (decoded, f) = decode s p no_fields in
    let turned = reverse_y s f in
    let pressed = record turned {
      pressure = if is_disabled s.force_touch_mode then f.pressure else s.z_finger;
    } in
    if s.ignoreall || not decoded
    then s
    else alps_buttons pressed (prepare_voodoo_input e pressed f.fingers s)

unfoldable pub process_packet_v7 : Outside → List ℕ → Alps → Alps
process_packet_v7 e p s =
    if byte p 0 == 0x48
      && not (bit_set (byte p 4) 0)
      && bit_set (byte p 4) 1
      && bit_set (byte p 4) 2
      && not (bit_set (byte p 4) 6)
    then process_trackstick_v7 p s
    else process_touchpad_v7 e p s
