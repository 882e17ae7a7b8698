-- ===== src/Mouse.antt =====
-- `ApplePS2Mouse` (VoodooPS2Mouse/VoodooPS2Mouse.cpp): cutting bytes into packets, decoding a packet
-- and faking a middle button. Times are nanoseconds that the caller passes in; `log` lists the
-- pointer and scroll events sent on, and `button_timer` says whether the button timer is running.
pub mod Middle
pub mod Motion
pub mod Bytes
use voodoo_ps2_focal_tech.Common.{
  ℕ, zero, suc, ◌+◌, ◌-◌, ◌*◌, ◌/◌, ◌%◌, ◌^◌, List, [], ◌∷◌, ◌++◌, Bool, ◌&&◌, ◌||◌, true, false,
  not, ltb, leb, ◌==◌, if◌then◌else◌, bit_and, bit_or, bit_set, low_bits, shr, u8, u32, neg32,
  get_or,
}
use voodoo_ps2_focal_tech.Ring.{
  Ring, write_at_head, advance_head, advance_tail, count, read_at_tail,
}

pub data ButtonState : Type 0 where
  no_buttons middle wait4two wait4none noop : ButtonState

-- MBComingFrom.
pub data Source : Type 0 where
  from_timer from_mouse : Source

pub data PointerEvent : Type 0 where
  pointer : ℕ → ℕ → ℕ → PointerEvent
  scroll : ℕ → PointerEvent

pub record Mouse : Type 0 where
  pub fake_middle_button : Bool
  pub button_count : ℕ
  pub max_middle_click_time : ℕ
  pub mouse_y_inverter : ℕ
  pub scroll_y_inverter : ℕ
  pub is_explorer : Bool
  pub packet_length : ℕ
  pub button_state : ButtonState
  pub pending_buttons : ℕ
  pub button_time : ℕ
  pub button_timer : Bool
  pub last_buttons : ℕ
  pub last_data : ℕ
  pub packet_byte_count : ℕ
  pub mouse_reset_count : ℕ
  pub ring : Ring
  pub log : List PointerEvent

abbrev pub packet_length_max : ℕ
packet_length_max = 4

abbrev pub ring_size : ℕ
ring_size = 128

abbrev pub send : PointerEvent → Mouse → Mouse
send e m = record m { log = m.log ++ e ∷ [] }

abbrev pub is_timer : Source → Bool
is_timer from_timer = true
is_timer from_mouse = false

-- `now_ns - _buttontime > _maxmiddleclicktime`, on 64 bits.
abbrev pub sub64 : ℕ → ℕ → ℕ
sub64 a b = (a + 2 ^ 64 - b) % 2 ^ 64

abbrev pub is_timeout : Source → ℕ → Mouse → Bool
is_timeout from now m = is_timer from || ltb m.max_middle_click_time (sub64 now m.button_time)

-- A single button comes down, or one of two goes up: wait for the other.
abbrev pub wait_as : ButtonState → ℕ → ℕ → Mouse → Mouse
wait_as state buttons now m = record m {
  pending_buttons = buttons;
  button_time = now;
  button_timer = true;
  button_state = state;
}

-- The wait is over.
abbrev pub settle_as : ButtonState → Mouse → Mouse
settle_as state m = record m { pending_buttons = 0; button_timer = false; button_state = state }

abbrev pub enter : ButtonState → Mouse → Mouse
enter state m = record m { button_state = state }

abbrev pub send_pending_if : Bool → ℕ → Mouse → Mouse
send_pending_if b buttons m =
    if b then send (pointer 0 0 (bit_or buttons m.pending_buttons)) m else m

abbrev pub idle_or_noop : ℕ → ButtonState
idle_or_noop buttons = if buttons == 0 then no_buttons else noop

-- The first switch of middleButton: the state machine.
unfoldable pub transition : ButtonState → ℕ → ℕ → Source → Mouse → Mouse
transition no_buttons buttons now from m =
    if bit_set buttons 2
    then enter noop m
    else if buttons == 3
    then enter middle m
    else if not (buttons == 0)
    then wait_as wait4two buttons now m
    else m
transition wait4two buttons now from m =
    let timeout = is_timeout from now m in
    if not timeout && buttons == 3
    then settle_as middle m
    else if timeout || not (buttons == m.pending_buttons)
    then settle_as (idle_or_noop buttons)
        (send_pending_if (is_timer from || bit_and buttons m.pending_buttons == 0) buttons m)
    else m
transition middle buttons now from m =
    if buttons == 0
    then enter no_buttons m
    else if not (low_bits buttons 2 == 3)
    then wait_as wait4none buttons now m
    else m
transition wait4none buttons now from m =
    let timeout = is_timeout from now m in
    if not timeout && buttons == 0
    then settle_as no_buttons m
    else if timeout || not (buttons == m.pending_buttons)
    then settle_as (idle_or_noop buttons) (send_pending_if (is_timer from) buttons m)
    else m
transition noop buttons now from m = if buttons == 0 then enter no_buttons m else m

-- The second switch: what is reported in the new state. `buttons &= ~0x3` drops the two low bits.
unfoldable pub reported : ButtonState → ℕ → ℕ
reported middle buttons = 4
reported wait4none buttons = buttons - low_bits buttons 2
reported wait4two buttons = buttons - low_bits buttons 2
reported no_buttons buttons = buttons
reported noop buttons = buttons

unfoldable pub middle_button : ℕ → ℕ → Source → Mouse → ℕ × Mouse
middle_button buttons now from m =
    let m' = transition m.button_state buttons now from m in
    if not m.fake_middle_button || leb m.button_count 2
    then (buttons, m)
    else (reported m'.button_state buttons, m')

unfoldable pub on_button_timer : ℕ → Mouse → Mouse
on_button_timer now m = (middle_button m.last_buttons now from_timer m).1

-- The buttons and motion of a packet, as patterns; the wheel's nibble is widened to 32 bits.
abbrev pub byte : List ℕ → ℕ → ℕ
byte packet k = get_or packet k 0

abbrev pub packet_buttons : Bool → List ℕ → ℕ
packet_buttons fourth packet =
    if fourth
    then bit_or (low_bits (byte packet 0) 3) (low_bits (shr (byte packet 3) 4) 2 * 8)
    else low_bits (byte packet 0) 3

abbrev pub packet_dx : List ℕ → ℕ
packet_dx packet = bit_or (if bit_set (byte packet 0) 4 then 0xffff_ff00 else 0) (byte packet 1)

abbrev pub packet_dy : List ℕ → ℕ
packet_dy packet =
    neg32 (bit_or (if bit_set (byte packet 0) 5 then 0xffff_ff00 else 0) (byte packet 2))

abbrev pub packet_dz : List ℕ → ℕ
packet_dz packet = let z = low_bits (byte packet 3) 4 in if ltb z 8 then z else z + 0xffff_fff0

unfoldable pub dispatch_packet : List ℕ → ℕ → Mouse → Mouse
dispatch_packet packet now m =
    let long = ltb 3 m.packet_length in
    let dz = if long then packet_dz packet else 0 in
    let (buttons, m') =
      middle_button (packet_buttons (long && m.is_explorer) packet) now from_mouse m in
    let moved =
      send (pointer (packet_dx packet) (u32 (m.mouse_y_inverter * packet_dy packet)) buttons)
        (record m' { last_buttons = buttons }) in
    if dz == 0 then moved else send (scroll (neg32 (u32 (m.scroll_y_inverter * dz)))) moved

-- interruptOccurred; `true` is kPS2IR_packetReady.
unfoldable pub interrupt_occurred : ℕ → Mouse → Mouse × Bool
interrupt_occurred x m =
    let mark = λ (b : ℕ).
      advance_head ring_size packet_length_max (write_at_head 1 b (write_at_head 0 0 m.ring)) in
    let seen = record m { last_data = x } in
    let written = write_at_head m.packet_byte_count x m.ring in
    let counted = u32 (m.packet_byte_count + 1) in
    if m.last_data == 0xaa && x == 0
    then (record m { ring = mark 0xaa; packet_byte_count = 0 }, true)
    else if m.packet_byte_count == 0 && (x == 0xfa || not (bit_set x 3))
    then (if ltb m.mouse_reset_count 5
        then (record seen { mouse_reset_count = m.mouse_reset_count + 1; ring = mark 0xfa }, true)
        else (seen, false))
    else if counted == m.packet_length
    then (
      record seen {
        mouse_reset_count = 0;
        ring = advance_head ring_size packet_length_max written;
        packet_byte_count = 0;
      },
      true,
    )
    else (record seen { ring = written; packet_byte_count = counted }, false)

-- packetReady, with fuel: a packet that begins with 0 is a mark, and is skipped.
abbrev pub tail_packet : Mouse → List ℕ
tail_packet m =
    read_at_tail 0 m.ring
    ∷ read_at_tail 1 m.ring
    ∷ read_at_tail 2 m.ring
    ∷ read_at_tail 3 m.ring
    ∷ []

unfoldable pub handle_packet : ℕ → Mouse → Mouse
handle_packet now m =
    let done = if read_at_tail 0 m.ring == 0 then m else dispatch_packet (tail_packet m) now m in
    record done { ring = advance_tail ring_size packet_length_max done.ring }

unfoldable pub packet_loop : ℕ → ℕ → Mouse → Mouse
packet_loop zero now m = m
packet_loop (suc fuel) now m =
    let rest = packet_loop fuel now (handle_packet now m) in
    if leb packet_length_max (count ring_size m.ring) then rest else m

unfoldable pub packet_ready : ℕ → Mouse → Mouse
packet_ready now m = packet_loop 33 now m
