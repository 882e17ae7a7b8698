-- ===== src/Alps.antt =====
-- The state of `ApplePS2ALPSGlidePoint` (VoodooPS2Trackpad/VoodooPS2ALPSGlidePoint.h) that its packet
-- handlers use: `alps_data`, `alps_fields` and the members of the class. A signed field is kept as
-- its bit pattern; `second_touch` is an Option with `none` for -1. The messages to VoodooInput are
-- the entries of `log`, the oldest first, without their time stamps.
pub mod Decode
pub mod Bitmap
pub mod Touch
pub mod Packets
pub mod Stream
pub mod Identify
use voodoo_ps2_focal_tech.Common.{
  ℕ, ◌+◌, ◌*◌, ◌/◌, ◌%◌, ◌^◌, ◌++◌, List, [], ◌∷◌, Bool, true, false, Option, none, replicate,
  get_or, bit_set, ltb, if◌then◌else◌, sub32, u32,
}
use voodoo_ps2_focal_tech.Ring.{Ring}
use voodoo_ps2_focal_tech.FocalTech.{InputEvent, FingerType}

abbrev pub max_touches : ℕ
max_touches = 5

-- input_mt_pos.
pub record Position : Type 0 where
  pub x : ℕ
  pub y : ℕ

abbrev pub nowhere : Position
nowhere = record { x = 0; y = 0 }

-- alps_fields: the decoded form of a packet.
pub record Fields : Type 0 where
  pub x_map : ℕ
  pub y_map : ℕ
  pub fingers : ℕ
  pub pressure : ℕ
  pub st : Position
  pub mt : List Position
  pub first_mp : Bool
  pub is_mp : Bool
  pub left : Bool
  pub right : Bool
  pub middle : Bool
  pub ts_left : Bool
  pub ts_right : Bool
  pub ts_middle : Bool

-- memset(&f, 0, sizeof(f)).
abbrev pub no_fields : Fields
no_fields = record {
  x_map = 0;
  y_map = 0;
  fingers = 0;
  pressure = 0;
  st = nowhere;
  mt = replicate 5 nowhere;
  first_mp = false;
  is_mp = false;
  left = false;
  right = false;
  middle = false;
  ts_left = false;
  ts_right = false;
  ts_middle = false;
}

-- ALPS_PROTO_V1 to V9, by their numbers; V3_RUSHMORE is 0x310.
abbrev pub proto_v1 : ℕ
proto_v1 = 0x100

abbrev pub proto_v3 : ℕ
proto_v3 = 0x300

abbrev pub proto_v4 : ℕ
proto_v4 = 0x400

abbrev pub proto_v5 : ℕ
proto_v5 = 0x500

abbrev pub proto_v7 : ℕ
proto_v7 = 0x700

abbrev pub proto_v8 : ℕ
proto_v8 = 0x800

-- alps_virtual_finger_state; the finger type is not used.
pub record VirtualFinger : Type 0 where
  pub x : ℕ
  pub y : ℕ
  pub pressure : ℕ
  pub touch : Bool
  pub button : Bool

abbrev pub no_virtual_finger : VirtualFinger
no_virtual_finger = record { x = 0; y = 0; pressure = 0; touch = false; button = false }

-- ForceTouchMode.
pub data ForceTouchMode : Type 0 where
  disabled button threshold value custom : ForceTouchMode

-- The functions that `process_packet` and `decode_fields` point to.
pub data PacketHandler : Type 0 where
  process_v1_v2 process_v3 process_v4 touchpad_v3_v5 process_v6 process_v7 process_ss4_v2 :
      PacketHandler

pub data Decoder : Type 0 where
  pinnacle rushmore dolphin packet_v7 ss4_v2 : Decoder

-- The messages: a relative motion with buttons, a scroll, a frame of contacts.
pub data Message : Type 0 where
  relative : ℕ → ℕ → ℕ → Message
  scroll : ℕ → ℕ → Message
  frame : InputEvent → Message

pub record Alps : Type 0 where
  pub proto_version : ℕ
  pub process_packet : PacketHandler
  pub decode_fields : Decoder
  pub byte0 : ℕ
  pub mask0 : ℕ
  pub dev_id : List ℕ
  pub flags : ℕ
  pub x_max : ℕ
  pub y_max : ℕ
  pub x_bits : ℕ
  pub y_bits : ℕ
  pub prev_fin : Bool
  pub multi_packet : ℕ
  pub second_touch : Option ℕ
  pub multi_data : List ℕ
  pub trackstick_buttons : Bool
  pub bad_data : Bool
  pub pktsize : ℕ
  pub packet_byte_count : ℕ
  pub ring : Ring
  pub ignoreall : Bool
  pub left : Bool
  pub right : Bool
  pub middle : Bool
  pub left_ts : Bool
  pub clicked : Bool
  pub last_buttons : ℕ
  pub last_trackstick_buttons : ℕ
  pub last_touchpad_buttons : ℕ
  pub virtual_fingers : List VirtualFinger
  pub clamped_finger_count : ℕ
  pub last_finger_count : ℕ
  pub report_voodoo_input : Bool
  pub voodoo_input : Bool
  pub input_event : InputEvent
  pub logical_max_y : ℕ
  pub force_touch_mode : ForceTouchMode
  pub force_threshold : ℕ
  pub custom_down_threshold : ℕ
  pub custom_up_threshold : ℕ
  pub z_finger : ℕ
  pub keytime : ℕ
  pub maxaftertyping : ℕ
  pub log : List Message

-- The bits of `flags`.
abbrev pub is_dualpoint : Alps → Bool
is_dualpoint s = bit_set s.flags 1

abbrev pub has_wheel : Alps → Bool
has_wheel s = bit_set s.flags 3

abbrev pub is_interleaved : Alps → Bool
is_interleaved s = bit_set s.flags 7

abbrev pub has_stick_bits : Alps → Bool
has_stick_bits s = bit_set s.flags 8

abbrev pub is_buttonpad : Alps → Bool
is_buttonpad s = bit_set s.flags 9

abbrev pub emit : Message → Alps → Alps
emit m s = record s { log = s.log ++ m ∷ [] }

-- What is not in the repository: `kMT2FingerTypeIndexFinger + n` of the enumeration of VoodooInput, the
-- time now, and the curve of FORCE_TOUCH_CUSTOM between its thresholds, which is of doubles.
pub record Outside : Type 0 where
  pub finger_type : ℕ → FingerType
  pub now : ℕ
  pub curve : ℕ → ℕ

abbrev pub byte : List ℕ → ℕ → ℕ
byte packet k = get_or packet k 0

-- `x & (2^n - 1) << k`, moved down to bit 0.
abbrev pub field : ℕ → ℕ → ℕ → ℕ
field x k n = x / 2 ^ k % 2 ^ n
