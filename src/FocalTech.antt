-- ===== src/FocalTech.antt =====
-- The state of `ApplePS2FocalTech` (FocalTech/VoodooPS2FocalTech.h) and what it lets the outside
-- see. A `SInt32` is kept as its bit pattern, `_forceFinger` as an Option with `none` for -1, and
-- the messages, timer calls and registry writes are the entries of `log`, the oldest first. The
-- time stamps of the messages, which the driver only copies from the clock, are left out.
pub mod Packet
pub mod Click
pub mod Touch
pub mod Report
pub mod Stream
pub mod Setup
use voodoo_ps2_focal_tech.Common.{
  ℕ, ◌++◌, List, [], ◌∷◌, Bool, true, false, Option, none, replicate,
}
use voodoo_ps2_focal_tech.Ring.{Ring}

abbrev pub packet_length : ℕ
packet_length = 6

abbrev pub max_fingers : ℕ
max_fingers = 5

abbrev pub ring_size : ℕ
ring_size = 192

-- kForceHoldMS, kForceMoveCancel and kWakeDelayMS.
abbrev pub force_hold_ms : ℕ
force_hold_ms = 2000

abbrev pub force_move_cancel : ℕ
force_move_cancel = 100

abbrev pub wake_delay_ms : ℕ
wake_delay_ms = 1000

-- FocalTechFingerState and FocalTechHardwareState.
pub record Finger : Type 0 where
  pub active : Bool
  pub valid : Bool
  pub x : ℕ
  pub y : ℕ

pub record Hardware : Type 0 where
  pub fingers : List Finger
  pub width : ℕ
  pub pressed : Bool

-- TouchCoordinates, of the VoodooInput messages.
pub record Coordinates : Type 0 where
  pub x : ℕ
  pub y : ℕ
  pub pressure : ℕ
  pub width : ℕ

-- FocalTechVirtualFinger.
pub record VirtualFinger : Type 0 where
  pub previous : Coordinates
  pub current : Coordinates
  pub touching : Bool

pub data FingerType : Type 0 where
  index_finger middle_finger ring_finger thumb little_finger : FingerType

-- VoodooInputTransducer and VoodooInputEvent, the fields that the driver writes.
pub record Transducer : Type 0 where
  pub current_coordinates : Coordinates
  pub previous_coordinates : Coordinates
  pub is_valid : Bool
  pub is_physical_button_down : Bool
  pub is_transducer_active : Bool
  pub supports_pressure : Bool
  pub secondary_id : ℕ
  pub finger_type : FingerType
  pub is_finger : Bool

pub record InputEvent : Type 0 where
  pub transducers : List Transducer
  pub contact_count : ℕ

-- What publishRuntimeDiagnostics writes to the registry; the last packet only if there is one.
pub record Diagnostics : Type 0 where
  pub port : ℕ
  pub aux_nubs : ℕ
  pub irq_bytes : ℕ
  pub packets : ℕ
  pub valid_packets : ℕ
  pub invalid_packets : ℕ
  pub legacy_fallback : Bool
  pub last_packet : Option (List ℕ × Bool)

pub data Effect : Type 0 where
  cancel_timeout : Effect
  set_timeout_ms : ℕ → Effect
  touch_message : InputEvent → Effect
  button_message : ℕ → Effect
  diagnostics : Diagnostics → Effect
  publish_input : ℕ → ℕ → Effect
  sleep_ms : ℕ → Effect

pub record Driver : Type 0 where
  pub has_device : Bool
  pub voodoo_input : Bool
  pub has_force_timer : Bool
  pub interrupt_installed : Bool
  pub power_installed : Bool
  pub input_published : Bool
  pub legacy_compatibility_path : Bool
  pub provider_port : ℕ
  pub aux_nub_count : ℕ
  pub irq_byte_count : ℕ
  pub packet_count : ℕ
  pub valid_packet_count : ℕ
  pub invalid_packet_count : ℕ
  pub packet_byte_count : ℕ
  pub ring : Ring
  pub x_max : ℕ
  pub y_max : ℕ
  pub hardware : Hardware
  pub fingers : List VirtualFinger
  pub input_event : InputEvent
  pub left_button : ℕ
  pub right_button : ℕ
  pub last_buttons : ℕ
  pub click_was_pressed : Bool
  pub click_right : Bool
  pub force_eligible : Bool
  pub force_active : Bool
  pub force_finger : Option ℕ
  pub force_start_x : ℕ
  pub force_start_y : ℕ
  pub log : List Effect

-- The initialisers of the members; `transducers` is the zeroed array of the input event.
abbrev pub no_finger : Finger
no_finger = record { active = false; valid = false; x = 0; y = 0 }

abbrev pub origin : Coordinates
origin = record { x = 0; y = 0; pressure = 0; width = 0 }

abbrev pub no_virtual_finger : VirtualFinger
no_virtual_finger = record { previous = origin; current = origin; touching = false }

abbrev pub no_hardware : Hardware
no_hardware = record { fingers = replicate 5 no_finger; width = 0; pressed = false }

abbrev pub new_driver : List Transducer → Driver
new_driver transducers = record {
  has_device = false;
  voodoo_input = false;
  has_force_timer = false;
  interrupt_installed = false;
  power_installed = false;
  input_published = false;
  legacy_compatibility_path = false;
  provider_port = 0;
  aux_nub_count = 0;
  irq_byte_count = 0;
  packet_count = 0;
  valid_packet_count = 0;
  invalid_packet_count = 0;
  packet_byte_count = 0;
  ring = record { cells = replicate ring_size 0; head = 0; tail = 0 };
  x_max = 0;
  y_max = 0;
  hardware = no_hardware;
  fingers = replicate 5 no_virtual_finger;
  input_event = record { transducers = transducers; contact_count = 0 };
  left_button = 0;
  right_button = 0;
  last_buttons = 0;
  click_was_pressed = false;
  click_right = false;
  force_eligible = false;
  force_active = false;
  force_finger = none;
  force_start_x = 0;
  force_start_y = 0;
  log = [];
}

abbrev pub emit : Effect → Driver → Driver
emit e s = record s { log = s.log ++ e ∷ [] }
