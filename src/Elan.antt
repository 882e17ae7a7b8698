-- ===== src/Elan.antt =====
-- The state of `ApplePS2Elan` (VoodooPS2Trackpad/VoodooPS2Elan.h): `elantech_device_info`, the parts of
-- `elantech_data` that packets use, and the members of the class. An `int` is kept as its bit pattern.
-- The messages to VoodooInput and the properties that a rescale sets are the entries of `log`, the
-- oldest first, without their time stamps.
pub mod Check
pub mod Touch
pub mod Absolute
pub mod Slots
pub mod Trackpoint
pub mod Stream
pub mod Query
pub mod Setup
use voodoo_ps2_focal_tech.Common.{ℕ, ◌++◌, List, [], ◌∷◌, Bool, true, false, replicate}
use voodoo_ps2_focal_tech.Ring.{Ring}
use voodoo_ps2_focal_tech.FocalTech.{Coordinates, InputEvent, origin}

abbrev pub max_fingers : ℕ
max_fingers = 5

-- elan_virtual_finger_state; the finger type is not used.
pub record VirtualFinger : Type 0 where
  pub prev : Coordinates
  pub now : Coordinates
  pub pressure : ℕ
  pub width : ℕ
  pub touch : Bool
  pub button : Bool

abbrev pub no_virtual_finger : VirtualFinger
no_virtual_finger = record {
  prev = origin;
  now = origin;
  pressure = 0;
  width = 0;
  touch = false;
  button = false;
}

-- finger_pos.
pub record FingerPos : Type 0 where
  pub x : ℕ
  pub y : ℕ

-- elantech_device_info; `debug` is only for messages to the system's log.
pub record DeviceInfo : Type 0 where
  pub capabilities : List ℕ
  pub samples : List ℕ
  pub hw_version : ℕ
  pub fw_version : ℕ
  pub x_min : ℕ
  pub y_min : ℕ
  pub x_max : ℕ
  pub y_max : ℕ
  pub x_res : ℕ
  pub y_res : ℕ
  pub x_traces : ℕ
  pub y_traces : ℕ
  pub width : ℕ
  pub bus : ℕ
  pub paritycheck : Bool
  pub jumpy_cursor : Bool
  pub reports_pressure : Bool
  pub crc_enabled : Bool
  pub set_hw_resolution : Bool
  pub is_buttonpad : Bool
  pub has_trackpoint : Bool
  pub has_middle_button : Bool

-- `elantech_device_info info {}`.
abbrev pub no_info : DeviceInfo
no_info = record {
  capabilities = replicate 3 0;
  samples = replicate 3 0;
  hw_version = 0;
  fw_version = 0;
  x_min = 0;
  y_min = 0;
  x_max = 0;
  y_max = 0;
  x_res = 0;
  y_res = 0;
  x_traces = 0;
  y_traces = 0;
  width = 0;
  bus = 0;
  paritycheck = false;
  jumpy_cursor = false;
  reports_pressure = false;
  crc_enabled = false;
  set_hw_resolution = false;
  is_buttonpad = false;
  has_trackpoint = false;
  has_middle_button = false;
}

-- A trackpoint report with its buttons, dx and dy; a frame; the properties that a rescale sets, the
-- logical sizes and then the physical ones; the dimensions.
pub data Message : Type 0 where
  trackpoint : ℕ → ℕ → ℕ → Message
  frame : InputEvent → Message
  sizes : ℕ → ℕ → ℕ → ℕ → Message
  dimensions : ℕ → ℕ → ℕ → ℕ → Message

pub record Elan : Type 0 where
  pub info : DeviceInfo
  pub single_finger_reports : ℕ
  pub mt : FingerPos
  pub parity : List ℕ
  pub voodoo_input : Bool
  pub packet_byte_count : ℕ
  pub packet_length : ℕ
  pub ring : Ring
  pub input_event : InputEvent
  pub left_button : ℕ
  pub right_button : ℕ
  pub last_left_button : ℕ
  pub last_right_button : ℕ
  pub last_fingers : ℕ
  pub held_fingers : ℕ
  pub head_packets_count : ℕ
  pub virtual_finger : List VirtualFinger
  pub force_touch_button : Bool
  pub ignoreall : Bool
  pub keytime : ℕ
  pub maxaftertyping : ℕ
  pub log : List Message

abbrev pub emit : Message → Elan → Elan
emit m s = record s { log = s.log ++ m ∷ [] }
