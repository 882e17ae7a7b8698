-- ===== src/Alps/Packets.antt =====
-- The packet handlers of VoodooPS2Trackpad/VoodooPS2ALPSGlidePoint.cpp for versions 1 to 6. The buttons
-- of a packet are bits of a mask: left 1, right 2, middle 4.
pub mod V7
pub mod V8
pub mod Buttons
pub mod Sequence
pub mod Merge
pub mod Bitmap4
use voodoo_ps2_focal_tech.Common.{
  div_signed, ℕ, zero, suc, ◌+◌, ◌-◌, ◌*◌, ◌/◌, ◌%◌, List, [], ◌∷◌, Bool, true, false, not, ◌&&◌,
  ◌||◌, if◌then◌else◌, Option, none, ◌==◌, ltb, leb, get_or, set, bit_or, bit_set, sub32, neg32,
  is_neg32, sign_extend8,
}
use voodoo_ps2_focal_tech.Alps.{
  Alps, Fields, no_fields, nowhere, Position, proto_v1, Outside, byte, field, is_dualpoint,
  has_stick_bits, has_wheel, Decoder, pinnacle, rushmore, dolphin, packet_v7, ss4_v2,
}
use voodoo_ps2_focal_tech.Alps.Decode.{decode_pinnacle, decode_rushmore, decode_dolphin}
use voodoo_ps2_focal_tech.Alps.Decode.V7.{decode_packet_v7}
use voodoo_ps2_focal_tech.Alps.Decode.V8.{decode_ss4_v2}
use voodoo_ps2_focal_tech.Alps.Bitmap.{process_bitmap}
use voodoo_ps2_focal_tech.Alps.Touch.{
  send_relative, send_scroll, alps_buttons, prepare_voodoo_input,
}

abbrev pub button_mask : Bool → Bool → Bool → ℕ
button_mask left right middle =
    (if left then 1 else 0) + (if right then 2 else 0) + (if middle then 4 else 0)

-- The fields of a packet of version 1 or 2.
pub record Single : Type 0 where
  pub left : Bool
  pub right : Bool
  pub middle : Bool
  pub x : ℕ
  pub y : ℕ

unfoldable pub decode_v1_v2 : Bool → List ℕ → Single
decode_v1_v2 true p = record {
  left = bit_set (byte p 2) 4;
  right = bit_set (byte p 2) 3;
  middle = false;
  x = bit_or (byte p 1) (field (byte p 0) 0 3 * 128);
  y = bit_or (byte p 4) (field (byte p 3) 0 3 * 128);
}
decode_v1_v2 false p = record {
  left = bit_set (byte p 3) 0;
  right = bit_set (byte p 3) 1;
  middle = bit_set (byte p 3) 2;
  x = bit_or (byte p 1) (field (byte p 2) 3 4 * 128);
  y = bit_or (byte p 4) (field (byte p 3) 4 3 * 128);
}

-- `((packet[2] << 1) & 0x08) - ((packet[0] >> 4) & 0x07)`.
abbrev pub scroll_amount : List ℕ → ℕ
scroll_amount p = sub32 (field (byte p 2) 2 1 * 8) (field (byte p 0) 4 3)

unfoldable pub alps_process_packet_v1_v2 : List ℕ → Alps → Alps
alps_process_packet_v1_v2 p s =
    let d = decode_v1_v2 (s.proto_version == proto_v1) p in
    let dx = if ltb 383 d.x then sub32 d.x 768 else d.x in
    let dy = neg32 (if ltb 255 d.y then sub32 d.y 512 else d.y) in
    let stick = has_stick_bits s in
    let buttons =
      button_mask (d.left || (stick && bit_set (byte p 0) 0))
        (d.right || (stick && bit_set (byte p 0) 1))
        (d.middle || (stick && bit_set (byte p 0) 2)) in
    let finger = bit_set (byte p 2) 1 in
    let z = if bit_set (byte p 2) 0 && not finger then 40 else byte p 5 in
    let stored = record s { prev_fin = finger } in
    let moved = if ltb 30 z then send_relative d.x d.y buttons stored else stored in
    if s.ignoreall
    then s
    else if is_dualpoint s && byte p 5 == 127
    then send_relative dx dy 0 s
    else if has_wheel s && not (scroll_amount p == 0)
    then send_scroll 0 (neg32 (scroll_amount p)) moved
    else moved

-- In scroll mode, with the middle button held, the stick scrolls.
abbrev pub send_stick : ℕ → ℕ → ℕ → Alps → Alps
send_stick x y buttons s =
    if bit_set buttons 2 then send_scroll x y s else send_relative x y buttons s

unfoldable pub process_trackstick_v3 : List ℕ → Alps → Alps
process_trackstick_v3 p s =
    let x = sign_extend8 (bit_or (field (byte p 0) 5 1 * 128) (field (byte p 1) 0 7)) in
    let y = sign_extend8 (bit_or (field (byte p 0) 4 1 * 128) (field (byte p 2) 0 7)) in
    let pressed =
      button_mask (bit_set (byte p 3) 0) (bit_set (byte p 3) 1) (bit_set (byte p 3) 2) in
    let quirk = s.trackstick_buttons || not (pressed == 0) in
    let raw_buttons = if quirk then pressed else 0 in
    let buttons = if raw_buttons == 0 then s.last_buttons else raw_buttons in
    if not (is_dualpoint s)
      || not (bit_set (byte p 0) 6)
      || (byte p 1 == 0x7f && byte p 2 == 0x7f && byte p 4 == 0x7f)
    then s
    else send_stick (div_signed x 8) (neg32 (div_signed y 8)) buttons
        (record s { trackstick_buttons = quirk; last_buttons = buttons })

-- What `decode_fields` points to, with the value that it returns.
unfoldable pub decode_with : Decoder → Alps → List ℕ → Fields → Bool × Fields
decode_with d s p f = elim d [
  | pinnacle ↦ (true, decode_pinnacle p f)
  | rushmore ↦ (true, decode_rushmore p f)
  | dolphin ↦ (true, decode_dolphin s p f)
  | packet_v7 ↦ decode_packet_v7 s p f
  | ss4_v2 ↦ (true, decode_ss4_v2 s p f)
]

abbrev pub decode : Alps → List ℕ → Fields → Bool × Fields
decode s p f = decode_with (s.decode_fields) s p f

-- `f.mt[0] = f.st`, and the y axes turned.
abbrev pub use_st : Fields → Fields
use_st f = record f { mt = set f.mt 0 f.st }

abbrev pub reverse_y : Alps → Fields → Fields
reverse_y s f =
    let p = get_or f.mt 0 nowhere in
    let q = get_or f.mt 1 nowhere in
    record f {
      mt =
          set (set f.mt 0 (record p { y = sub32 s.y_max p.y })) 1
            (record q { y = sub32 s.y_max q.y });
    }

-- The fields and count of a packet that completes a sequence or stands alone.
unfoldable pub finish_semi_mt : Outside → Fields → ℕ → Alps → Alps
finish_semi_mt e f fingers s =
    let single = record s { multi_packet = 0; second_touch = none } in
    let turned = reverse_y s (use_st f) in
    if ltb fingers 2
    then alps_buttons turned
        (prepare_voodoo_input e turned (if ltb 0 f.pressure then 1 else 0) single)
    else alps_buttons (reverse_y s f)
        (prepare_voodoo_input e (reverse_y s f) fingers (record s { multi_packet = 0 }))

-- alps_process_touchpad_packet_v3_v5. A bitmap packet that follows its position packet is merged with
-- it; a bitmap packet alone is dropped; a first packet is kept until the next one comes.
unfoldable pub process_touchpad_v3_v5 : Outside → List ℕ → Alps → Alps
process_touchpad_v3_v5 e p s =
    let f = (decode s p no_fields).1 in
    let both = (decode s s.multi_data f).1 in
    let (count, merged, after) = process_bitmap both s in
    if s.ignoreall
    then s
    else if not (s.multi_packet == 0) && f.is_mp
    then (if merged.is_mp
        then after
        else finish_semi_mt e merged (if count == 0 then 0 else f.fingers) after)
    else if f.is_mp
    then s
    else if f.first_mp
    then record s { multi_packet = 1; multi_data = p }
    else finish_semi_mt e f 0 s

unfoldable pub process_packet_v3 : Outside → List ℕ → Alps → Alps
process_packet_v3 e p s =
    if byte p 5 == 0x3f then process_trackstick_v3 p s else process_touchpad_v3_v5 e p s

-- `right` and `middle` are bit fields of one bit, so that `packet[3] & 0x02` stores 0 in them.
unfoldable pub process_packet_v6 : List ℕ → Alps → Alps
process_packet_v6 p s =
    let x = bit_or (byte p 1) (field (byte p 3) 5 1 * 128) in
    let y = bit_or (byte p 2) (field (byte p 3) 6 1 * 128) in
    let lifted = x == 0x7f && y == 0x7f && byte p 4 == 0x7f in
    let left = bit_set (byte p 3) 0 in
    let right = bit_set (field (byte p 3) 1 1 * 2) 0 in
    let middle = bit_set (field (byte p 3) 2 1 * 4) 0 in
    if s.ignoreall
    then s
    else if byte p 5 == 0x7f
    then (if is_dualpoint s
        then send_relative (div_signed (if lifted then 0 else x) 4)
            (div_signed (neg32 (if lifted then 0 else y)) 4) (button_mask left right middle)
            (record s { left = left; right = right; middle = middle })
        else s)
    else send_relative (bit_or (byte p 1) (field (byte p 3) 3 4 * 128))
        (bit_or (byte p 2) (field (byte p 4) 3 4 * 128)) (button_mask left right false) s

-- The bitmaps of three packets of version 4, and the position of each.
abbrev pub v4_x_map : List ℕ → ℕ
v4_x_map m =
    bit_or
      (bit_or (bit_or (field (byte m 2) 0 5 * 1024) (field (byte m 3) 5 2 * 256))
        (field (byte m 0) 0 6 * 4))
      (field (byte m 1) 5 2)

abbrev pub v4_y_map : List ℕ → ℕ
v4_y_map m =
    bit_or (bit_or (field (byte m 5) 0 1 * 1024) (field (byte m 3) 0 5 * 32)) (field (byte m 1) 0 5)

abbrev pub v4_position : List ℕ → Position
v4_position p = record {
  x = bit_or (bit_or (field (byte p 1) 0 7 * 16) (field (byte p 3) 4 2 * 4)) (field (byte p 0) 4 2);
  y = bit_or (field (byte p 2) 0 7 * 16) (field (byte p 3) 0 4);
}

unfoldable pub finish_v4 : Outside → Fields → Alps → Alps
finish_v4 e f s =
    let single = record (use_st f) { fingers = if ltb 0 f.pressure then 1 else 0 } in
    if ltb f.fingers 2
    then alps_buttons single
        (prepare_voodoo_input e single single.fingers (record s { second_touch = none }))
    else alps_buttons f (prepare_voodoo_input e f f.fingers s)

abbrev pub v4_fields : List ℕ → Fields → Fields
v4_fields p f = record f {
  fingers = 0;
  left = bit_set (byte p 4) 0;
  right = bit_set (byte p 4) 1;
  st = v4_position p;
  pressure = field (byte p 5) 0 7;
}

-- `f` is what the stack holds: the handler sets only some of its fields.
unfoldable pub process_packet_v4 : Outside → Fields → List ℕ → Alps → Alps
process_packet_v4 e f p s =
    let step = if bit_set (byte p 6) 6 then 0 else s.multi_packet in
    let stored = set (set s.multi_data (2 * step) (byte p 6)) (2 * step + 1) (byte p 7) in
    let decoded = v4_fields p f in
    let mapped = record decoded { x_map = v4_x_map stored; y_map = v4_y_map stored } in
    let (count, placed, after) =
      process_bitmap mapped (record s { multi_packet = 0; multi_data = stored }) in
    if s.ignoreall || leb 3 step
    then (if s.ignoreall then s else record s { multi_packet = step })
    else if leb 2 step
    then finish_v4 e (record placed { fingers = count }) after
    else finish_v4 e decoded (record s { multi_packet = suc step; multi_data = stored })
