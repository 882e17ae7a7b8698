-- ===== src/Examples/Pads.antt =====
-- Runs of the Elan, Sentelic and Synaptics drivers (VoodooPS2Trackpad/).
use voodoo_ps2_focal_tech.Common.{
  ℕ, ◌+◌, ◌*◌, ◌%◌, ◌≤◌, ◌<◌, ◌≡◌, ◌≢◌, ◌⊎◌, inl, inr, refl, arith, none, List, [], ◌∷◌, true,
  false, length-replicate, get_or, replicate, bit_set, low_bits, neg32,
}
use voodoo_ps2_focal_tech.Ring.{IsRing, count}
use voodoo_ps2_focal_tech.FocalTech.Touch.{no_transducer}
use voodoo_ps2_focal_tech.Alps.{byte, field, disabled}
use voodoo_ps2_focal_tech.Examples.Pad.{answering}
use voodoo_ps2_focal_tech.Elan.{Elan, no_info, no_virtual_finger, trackpoint, emit}
use voodoo_ps2_focal_tech.Elan.Check.{setup_parity, v3_tail}
use voodoo_ps2_focal_tech.Elan.Check.Parity.{ones, setup_parity-ones}
use voodoo_ps2_focal_tech.Elan.Touch.{send_touch_data}
use voodoo_ps2_focal_tech.Elan.Absolute.{report_absolute_v3, full_x, full_y}
use voodoo_ps2_focal_tech.Elan.Absolute.Range.{report_absolute_v3-IsOnPad}
use voodoo_ps2_focal_tech.Elan.Slots.{status_v4, head_v4, count_fingers}
use voodoo_ps2_focal_tech.Elan.Slots.Positions.{position, put_by}
use voodoo_ps2_focal_tech.Elan.Slots.Heads.{run_heads, touches, bits, status_heads}
use voodoo_ps2_focal_tech.Elan.Trackpoint.{report_trackpoint}
use voodoo_ps2_focal_tech.Elan.Trackpoint.Signs.{
  encode_trackpoint, report_trackpoint-encode_trackpoint,
}
use voodoo_ps2_focal_tech.Elan.Stream.{ring_size, drain}
use voodoo_ps2_focal_tech.Elan.Stream.Drain.{
  IsStream, Event, byte as arrive, work, run, run-IsStream,
}
use voodoo_ps2_focal_tech.Elan.Query.{query_info}
use voodoo_ps2_focal_tech.Elan.Query.Configured.{Given, IsConfigured, query_info-IsConfigured}
use voodoo_ps2_focal_tech.Elan.Setup.{reset_touchpad, message, set_device_power_state}
use voodoo_ps2_focal_tech.Elan.Setup.Power.{IsFresh, Sized, wake-IsFresh}
use voodoo_ps2_focal_tech.Sentelic.{Sentelic}
use voodoo_ps2_focal_tech.Sentelic.Registers.{mangle, select}
use voodoo_ps2_focal_tech.Sentelic.Registers.Mangle.{is_reserved, unmangle, mangle-unmangle}
use voodoo_ps2_focal_tech.Sentelic.Bytes
use voodoo_ps2_focal_tech.Synaptics.{Synaptics, interrupt_occurred, parse_ext_btns}
use voodoo_ps2_focal_tech.Synaptics.Buttons.{button_bit, parse_ext_btns-button_bit}
use voodoo_ps2_focal_tech.Synaptics.Stream.{IsSynced, interrupt_occurred-IsSynced}

-- A pad of version 4 that waits for packets.
abbrev slots : Elan
slots = record {
  info = record no_info { hw_version = 4; x_max = 3000; y_max = 2000; x_res = 31; y_res = 31 };
  single_finger_reports = 0;
  mt = record { x = 0; y = 0 };
  parity = replicate 256 0;
  voodoo_input = true;
  packet_byte_count = 0;
  packet_length = 6;
  ring = record { cells = replicate 192 0; head = 186; tail = 186 };
  input_event = record { transducers = replicate 10 no_transducer; contact_count = 0 };
  left_button = 0;
  right_button = 0;
  last_left_button = 0;
  last_right_button = 0;
  last_fingers = 0;
  held_fingers = 0;
  head_packets_count = 0;
  virtual_finger = replicate 5 no_virtual_finger;
  force_touch_button = true;
  ignoreall = false;
  keytime = 0;
  maxaftertyping = 500;
  log = [];
}

slots-IsRing : IsRing ring_size slots.ring
slots-IsRing = record {
  size = length-replicate {A = ℕ} 192 0;
  small = omega arith;
  head_in = omega arith;
  tail_in = omega arith;
}

slots-IsStream : IsStream slots
slots-IsStream = record {
  is_ring = slots-IsRing;
  size = inr refl;
  head_aligned = refl;
  tail_aligned = refl;
  incomplete = omega arith;
}

-- The status of the first and the third finger, and a head packet of each.
abbrev status : List ℕ
status = 0 ∷ 5 ∷ 0 ∷ 0x10 ∷ 0 ∷ 0 ∷ []

abbrev head_of : ℕ → List ℕ
head_of id = 0x20 ∷ 0x04 ∷ 10 ∷ (id * 32 + 0x11) ∷ 3 ∷ 20 ∷ []

two_named : 2 ≡ count_fingers (low_bits (byte status 1) 5) 0 slots.virtual_finger
unfolding count_fingers
two_named = refl

status_heads_example :
    let t = run_heads ((900, head_of 1) ∷ []) (status_v4 899 status slots) in
    (t.log ≡ slots.log)
    × (u : Elan) × (head_v4 901 (head_of 3) t ≡ send_touch_data 901 u)
    × (u.log ≡ slots.log)
    × (touches u ≡ bits (low_bits (byte status 1) 5) 0 slots.virtual_finger)
    × ((k : ℕ)
        → k < 5
        → position k u.virtual_finger
          ≡ put_by 2000 k
              ((900, head_of 1) ∷ (901, head_of 3) ∷ [])
              (position k slots.virtual_finger))
status_heads_example =
    status_heads 899 status ((900, head_of 1) ∷ []) (901, head_of 3) slots refl
      ((λ e. omega arith, omega arith), tt) (λ e. omega arith, omega arith) two_named

abbrev events : List Event
events =
    arrive 1 ∷ arrive 2 ∷ arrive 3 ∷ arrive 4 ∷ work (λ n. n) ∷ arrive 5 ∷ arrive 6 ∷ arrive 7 ∷ []

run-IsStream_example :
    let t = run events slots in
    let u = drain (λ n. n) t in
    IsStream t
    × IsStream u
    × (count ring_size u.ring ≡ 0)
    × (u.packet_byte_count ≡ t.packet_byte_count)
    × (u.ring.head ≡ t.ring.head)
    × (u.ring.cells ≡ t.ring.cells)
run-IsStream_example = run-IsStream events (λ n. n) slots slots-IsStream

report_trackpoint-encode_trackpoint_example :
    report_trackpoint 700 (encode_trackpoint 4 0xffff_fffb 9) slots
    ≡ emit (trackpoint 4 0xffff_fffb (neg32 9)) (record slots { keytime = 700 })
report_trackpoint-encode_trackpoint_example =
    report_trackpoint-encode_trackpoint 700 4 0xffff_fffb 9 slots (omega arith)
      (inr (omega arith, omega arith)) (inl (omega arith))

setup_parity-ones_example : get_or (setup_parity slots.parity) 0xc4 0 ≡ (ones 8 0xc4 + 1) % 2
setup_parity-ones_example =
    setup_parity-ones slots.parity 0xc4 (length-replicate {A = ℕ} 256 0) (omega arith)

-- One finger beyond the lower edge of the pad.
abbrev beyond : List ℕ
beyond = 0x4c ∷ 0x03 ∷ 0x10 ∷ 0x0c ∷ 0x0f ∷ 0x80 ∷ []

report_absolute_v3-IsOnPad_example :
    let t = report_absolute_v3 900 v3_tail beyond slots in
    let v = (get_or t.virtual_finger 0 no_virtual_finger).now in
    (v.x ≡ full_x beyond)
    × (v.x ≤ t.info.x_max)
    × (v.y + full_y beyond ≡ t.info.y_max)
    × (3000 ≤ t.info.x_max)
    × (2000 ≤ t.info.y_max)
report_absolute_v3-IsOnPad_example =
    report_absolute_v3-IsOnPad 900 v3_tail beyond slots refl (omega arith) (omega arith)
      (omega arith)

abbrev pressing : Elan
pressing = record slots {
  virtual_finger =
      no_virtual_finger
      ∷ record no_virtual_finger { touch = true }
      ∷ no_virtual_finger
      ∷ record no_virtual_finger { touch = true; button = true }
      ∷ no_virtual_finger
      ∷ [];
}

query_info-IsConfigured_example : Given IsConfigured (query_info (answering 1) 2 false slots 0)
query_info-IsConfigured_example = query_info-IsConfigured (answering 1) 2 false slots 0

slots-Sized : Sized slots
slots-Sized = (
  length-replicate {A = ℕ} 192 0,
  length-replicate {A = ℕ} 256 0,
  record { versions = (omega arith, omega arith); length = inr (omega arith, refl) },
)

wake-IsFresh_example :
    let bus = answering 1 in
    IsFresh (set_device_power_state bus 2 200 3 true slots 0).0
    × IsFresh (message bus 2 200 3 (reset_touchpad 1) slots 0).1
    × ((message bus 2 200 3 (reset_touchpad 1) slots 0).1.ignoreall ≡ false)
wake-IsFresh_example = wake-IsFresh (answering 1) 2 200 3 slots 0 slots-Sized

mangle-unmangle_example :
    (is_reserved (mangle 0xf2) ≡ false)
    × (mangle 0xf2 < 256)
    × (unmangle 0xcc 0x68 (select 0x66 0xcc 0x68 0xf2) (mangle 0xf2) ≡ 0xf2)
mangle-unmangle_example =
    mangle-unmangle 0x66 0xcc 0x68 0xf2 (λ e. omega arith) (λ e. omega arith) (λ e. omega arith)
      (omega arith)

-- A Sentelic pad with packets of four bytes.
abbrev fsp : Sentelic
fsp = record {
  packet_byte_count = 0;
  packet_size = 4;
  ring = record { cells = replicate 128 0; head = 124; tail = 124 };
  touch_pad_mode_byte = 4;
  log = [];
}

fsp-IsStream : Bytes.IsStream fsp
fsp-IsStream = record {
  is_ring = record {
    size = length-replicate {A = ℕ} 128 0;
    small = omega arith;
    head_in = omega arith;
    tail_in = omega arith;
  };
  head_aligned = refl;
  tail_aligned = refl;
  size_low = omega arith;
  size_high = omega arith;
  incomplete = omega arith;
  in_sync = λ some_bytes. absurd (omega arith);
}

abbrev moves : List ℕ
moves = 0xfa ∷ 0x08 ∷ 1 ∷ 2 ∷ 3 ∷ 0x18 ∷ []

receive-drain-IsStream_example :
    let t = Bytes.receive moves fsp in
    Bytes.IsStream t
    × (ps : List (List ℕ)) × Bytes.IsDrained ps t (voodoo_ps2_focal_tech.Sentelic.drain t)
receive-drain-IsStream_example = Bytes.receive-drain-IsStream moves fsp fsp-IsStream

-- A Synaptics pad with six extended buttons, after the first byte of a packet.
abbrev pub extended : Synaptics
extended = record {
  ring = record { cells = 0x82 ∷ replicate 191 0; head = 0; tail = 0 };
  packet_byte_count = 1;
  lastdata = 0x82;
  finger_states = replicate 5 (record { x = 0; y = 0; z = 0; w = 0; virtual_finger_index = none });
  virtual_finger_states = [];
  free_finger_types = [];
  clamped_finger_count = 0;
  agm_finger_count = 0;
  z_finger = 45;
  extended_btns = 6;
  middle_btn = false;
  one_btn_clickpad = true;
  clickpad_pressed = false;
  last_extended_buttons = 1;
  last_passthru_buttons = 0;
  last_finger_count = 0;
  last_sent_finger_count = 0;
  logical_min_x = 1472;
  logical_max_x = 5472;
  logical_min_y = 1408;
  logical_max_y = 4448;
  margin_size_x = 0;
  margin_size_y = 0;
  force_touch_mode = disabled;
  force_threshold = 100;
  custom_down_threshold = 90;
  custom_up_threshold = 20;
  keytime = 0;
  keycode = 0;
  special_key = 0x80;
  maxafterspecialtyping = 0;
  maxaftertyping = 0;
  input_event = record { transducers = []; contact_count = 0 };
  log = [];
}

abbrev changed : List ℕ
changed = 0x82 ∷ 0 ∷ 0 ∷ 0xc0 ∷ 0x05 ∷ 0x02 ∷ []

parse_ext_btns-button_bit_example :
    let (buttons, t) = parse_ext_btns changed 0 extended in
    (t.last_extended_buttons ≡ buttons)
    × (field (byte changed 0) 1 1 ≢ field (byte changed 3) 1 1
        → (let w : ℕ = 0 in w ≢ 2)
        → bit_set buttons 3 ≡ button_bit (byte changed 4) (byte changed 5) 3)
    × ((field (byte changed 0) 1 1 ≡ field (byte changed 3) 1 1) ⊎ (let w : ℕ = 0 in w ≡ 2)
        → buttons ≡ extended.last_extended_buttons)
parse_ext_btns-button_bit_example = parse_ext_btns-button_bit changed 0 3 extended (omega arith)

extended-IsSynced : IsSynced extended
extended-IsSynced = record {
  is_ring = record {
    size = refl;
    small = omega arith;
    head_in = omega arith;
    tail_in = omega arith;
  };
  head_aligned = refl;
  tail_aligned = refl;
  incomplete = omega arith;
  byte_0 = λ some_bytes. refl;
  byte_3 = λ many. absurd (omega arith);
}

interrupt_occurred-IsSynced_example : IsSynced (interrupt_occurred 0x10 extended).0
interrupt_occurred-IsSynced_example = interrupt_occurred-IsSynced 0x10 extended extended-IsSynced
