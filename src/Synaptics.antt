-- ===== src/Synaptics.antt =====
-- `ApplePS2SynapticsTouchPad` (VoodooPS2Trackpad/VoodooPS2SynapticsTouchPad.cpp and .h): its byte stream,
-- and what its packets say. A signed word is its bit pattern, and the trackpoint reports are the
-- entries of `log`, the oldest first, without their time stamps.
pub mod Stream
pub mod Buttons
pub mod Fingers
pub mod Touch
use voodoo_ps2_focal_tech.Common.{
  ℕ, zero, suc, ◌+◌, ◌-◌, ◌*◌, ◌/◌, ◌%◌, ◌^◌, List, [], ◌∷◌, ◌++◌, Bool, true, false, not, ◌&&◌,
  ◌||◌, if◌then◌else◌, ◌==◌, ltb, leb, Option, none, modify, bit_and, bit_or, bit_xor, bit_set,
  low_bits, u32, neg32,
}
use voodoo_ps2_focal_tech.Average.{Average}
use voodoo_ps2_focal_tech.Ring.{Ring, write_at_head, advance_head}
use voodoo_ps2_focal_tech.FocalTech.{InputEvent}
use voodoo_ps2_focal_tech.FocalTech.Stream.{InterruptResult, packet_ready, packet_buffering}
use voodoo_ps2_focal_tech.Alps.{byte, field, ForceTouchMode}
use voodoo_ps2_focal_tech.Alps.Touch.{fix_sign, min}
use voodoo_ps2_focal_tech.Sentelic.{delta}

abbrev pub ring_size : ℕ
ring_size = 192

abbrev pub packet_length : ℕ
packet_length = 6

abbrev pub max_fingers : ℕ
max_fingers = 5

-- synaptics_hw_state; the index of the virtual finger is none for -1.
pub record HwState : Type 0 where
  pub x : ℕ
  pub y : ℕ
  pub z : ℕ
  pub w : ℕ
  pub virtual_finger_index : Option ℕ

abbrev pub no_state : HwState
no_state = record { x = 0; y = 0; z = 0; w = 0; virtual_finger_index = none }

-- synaptics_virtual_finger_state; a finger type is its number.
pub record VirtualFinger : Type 0 where
  pub x_avg : Average
  pub y_avg : Average
  pub pressure : ℕ
  pub width : ℕ
  pub touch : Bool
  pub button : Bool
  pub finger_type : ℕ

-- A trackpoint report: its buttons, dx and dy; the dimensions, least and largest x and then y; and a
-- frame of contacts.
pub data Message : Type 0 where
  trackpoint : ℕ → ℕ → ℕ → Message
  dimensions : ℕ → ℕ → ℕ → ℕ → Message
  frame : InputEvent → Message

pub record Synaptics : Type 0 where
  pub ring : Ring
  pub packet_byte_count : ℕ
  pub lastdata : ℕ
  pub finger_states : List HwState
  pub virtual_finger_states : List VirtualFinger
  pub free_finger_types : List Bool
  pub clamped_finger_count : ℕ
  pub agm_finger_count : ℕ
  pub z_finger : ℕ
  pub extended_btns : ℕ
  pub middle_btn : Bool
  pub one_btn_clickpad : Bool
  pub clickpad_pressed : Bool
  pub last_extended_buttons : ℕ
  pub last_passthru_buttons : ℕ
  pub last_finger_count : ℕ
  pub last_sent_finger_count : ℕ
  pub logical_min_x : ℕ
  pub logical_max_x : ℕ
  pub logical_min_y : ℕ
  pub logical_max_y : ℕ
  pub margin_size_x : ℕ
  pub margin_size_y : ℕ
  pub force_touch_mode : ForceTouchMode
  pub force_threshold : ℕ
  pub custom_down_threshold : ℕ
  pub custom_up_threshold : ℕ
  pub keytime : ℕ
  pub keycode : ℕ
  pub special_key : ℕ
  pub maxafterspecialtyping : ℕ
  pub maxaftertyping : ℕ
  pub input_event : InputEvent
  pub log : List Message

abbrev pub emit : Message → Synaptics → Synaptics
emit m s = record s { log = s.log ++ m ∷ [] }

-- A packet whose first byte is 0 stands for an error, and its second byte for the reason.
unfoldable pub queue_error : ℕ → Synaptics → Synaptics
queue_error reason s = record s {
  ring = advance_head ring_size packet_length (write_at_head 1 reason (write_at_head 0 0 s.ring));
  packet_byte_count = 0;
}

unfoldable pub store_byte : ℕ → Synaptics → Synaptics × InterruptResult
store_byte x s =
    let stored = record s {
      ring = write_at_head s.packet_byte_count x s.ring;
      packet_byte_count = u32 (s.packet_byte_count + 1);
    } in
    if stored.packet_byte_count == packet_length
    then (
      record stored {
        ring = advance_head ring_size packet_length stored.ring;
        packet_byte_count = 0;
      },
      packet_ready,
    )
    else (stored, packet_buffering)

-- $AA $00 is a spontaneous reset; byte 0 and byte 3 have constant bits.
unfoldable pub interrupt_occurred : ℕ → Synaptics → Synaptics × InterruptResult
interrupt_occurred x s =
    let seen = record s { lastdata = x } in
    if s.lastdata == 0xaa && x == 0
    then (queue_error 0xaa s, packet_ready)
    else if s.packet_byte_count == 0 && not (bit_and x 0xc8 == 0x80)
    then (queue_error 0 seen, packet_ready)
    else if s.packet_byte_count == 3 && not (bit_and x 0xc8 == 0xc0)
    then (queue_error 3 seen, packet_ready)
    else store_byte x seen

-- The width field: it says how many fingers there are, or which other kind of packet it is.
unfoldable pub w_of : List ℕ → ℕ
w_of p = field (byte p 0) 4 2 * 4 + field (byte p 0) 2 1 * 2 + field (byte p 3) 2 1

-- The bits of byte 4 go to the even places and those of byte 5 to the odd ones, from bit `i` on.
unfoldable pub spread : ℕ → ℕ → ℕ → ℕ → ℕ
spread zero i b4 b5 = 0
spread (suc n) i b4 b5 =
    field b4 i 1 * 2 ^ (2 * i) + field b5 i 1 * 2 ^ (2 * i + 1) + spread n (suc i) b4 b5

-- synaptics_parse_ext_btns: the buttons change only with a packet that has them.
unfoldable pub parse_ext_btns : List ℕ → ℕ → Synaptics → ℕ × Synaptics
parse_ext_btns p w s =
    let changed = not (field (byte p 0) 1 1 == field (byte p 3) 1 1) in
    let buttons =
      low_bits (spread ((s.extended_btns + 1) / 2) 0 (byte p 4) (byte p 5)) s.extended_btns in
    if not changed || w == 2
    then (s.last_extended_buttons, s)
    else (buttons, record s { last_extended_buttons = buttons })

-- The middle button of a packet and of a clickpad: the first bits of bytes 0 and 3 differ.
abbrev pub middle_differs : List ℕ → Bool
middle_differs p = not (field (byte p 0) 0 1 == field (byte p 3) 0 1)

-- The first half of synaptics_parse_hw_state.
unfoldable pub parse_buttons : List ℕ → Synaptics → ℕ × Synaptics
parse_buttons p s =
    let pressed =
      if s.one_btn_clickpad then record s { clickpad_pressed = middle_differs p } else s in
    let middle = if s.middle_btn && middle_differs p then 4 else 0 in
    let plain = bit_or (low_bits (byte p 0) 2) middle in
    let (extended, after) = parse_ext_btns p (w_of p) pressed in
    if ltb 0 s.extended_btns then (bit_or plain extended, after) else (plain, pressed)

-- A packet of the stick behind the pad.
unfoldable pub parse_passthru : List ℕ → ℕ → Synaptics → Synaptics
parse_passthru p buttons s =
    let passed = low_bits (byte p 1) 3 in
    let dx = delta (bit_set (byte p 1) 4) (byte p 4) in
    let dy = delta (bit_set (byte p 1) 5) (byte p 5) in
    emit (trackpoint (bit_or buttons passed) dx (neg32 dy))
      (record s { last_passthru_buttons = passed })

abbrev pub place : ℕ → ℕ → ℕ → ℕ → HwState → HwState
place x y z w f = record f { x = fix_sign x; y = fix_sign y; z = z; w = w }

-- synaptics_parse_agm_packet: the second finger, or the number of fingers.
unfoldable pub parse_agm_packet : List ℕ → Synaptics → Synaptics
parse_agm_packet p s =
    let kind = field (byte p 5) 4 2 in
    let x = (low_bits (byte p 4) 4 * 256 + byte p 1) * 2 in
    let y = (field (byte p 4) 4 4 * 256 + byte p 2) * 2 in
    let z = (field (byte p 3) 4 2 * 16 + low_bits (byte p 5) 4) * 2 in
    let w = 8 + (field (byte p 5) 0 1 * 4 + field (byte p 2) 0 1 * 2 + field (byte p 1) 0 1) in
    if kind == 1
    then record s { finger_states = modify s.finger_states 1 (place x y z w) }
    else if kind == 2
    then record s { agm_finger_count = low_bits (byte p 1) 4 }
    else s

-- The first finger of a normal packet. With several fingers, bits of z and of the position are its
-- width: bit 0 of byte 4 among them, as `buf[4] & 2 >> 1` is read by C.
unfoldable pub parse_finger : List ℕ → ℕ → HwState → HwState
parse_finger p w f =
    let x = byte p 4 + low_bits (byte p 1) 4 * 256 + field (byte p 3) 4 1 * 0x1000 in
    let y = byte p 5 + field (byte p 1) 4 4 * 256 + field (byte p 3) 5 1 * 0x1000 in
    let z = byte p 2 in
    if leb 4 w
    then place x y z w f
    else place x y (z / 2 * 2)
        (8 + (field z 0 1 * 4 + field (byte p 5) 1 1 * 2 + field (byte p 4) 0 1)) f

abbrev pub max : ℕ → ℕ → ℕ
max a b = if ltb b a then a else b

abbrev pub no_width : HwState → HwState
no_width f = record f { w = 0 }

-- The count of fingers, where the pressure is `z`; on the other values of w it is 0.
unfoldable pub count_fingers : ℕ → ℕ → Synaptics → Synaptics
count_fingers z w s =
    if ltb z s.z_finger
    then record s {
      clamped_finger_count = 0;
      agm_finger_count = 0;
      finger_states = modify s.finger_states 0 no_width;
    }
    else if leb 4 w
    then record s { clamped_finger_count = 1; agm_finger_count = 0 }
    else if w == 0
    then record s { clamped_finger_count = max 2 (min s.agm_finger_count max_fingers) }
    else if w == 1
    then record s { clamped_finger_count = max 3 (min s.agm_finger_count max_fingers) }
    else record s { clamped_finger_count = 0 }

-- synaptics_parse_normal_packet up to the clamped finger count.
unfoldable pub decode_normal_packet : List ℕ → ℕ → Synaptics → Synaptics
decode_normal_packet p w s =
    let z = if leb 4 w then byte p 2 else byte p 2 / 2 * 2 in
    count_fingers z w (record s { finger_states = modify s.finger_states 0 (parse_finger p w) })
