-- ===== src/Sentelic.antt =====
-- `ApplePS2SentelicFSP` (VoodooPS2Trackpad/VoodooPS2SentelicFSP.cpp): its byte stream and its packets.
-- A signed word is its bit pattern; the dispatched events are the entries of `log`, the oldest first,
-- without their times.
pub mod Registers
pub mod Motion
pub mod Bytes
use voodoo_ps2_focal_tech.Common.{
  ℕ, zero, suc, ◌+◌, ◌-◌, ◌*◌, ◌/◌, ◌%◌, ◌^◌, List, [], ◌∷◌, ◌++◌, Bool, true, false, not, ◌&&◌,
  ◌||◌, if◌then◌else◌, ◌==◌, leb, bit_set, bit_and, bit_or, low_bits, u8, u32, sub32, neg32,
}
use voodoo_ps2_focal_tech.Ring.{Ring, count, reset, write_at_head, advance_head, advance_tail}
use voodoo_ps2_focal_tech.FocalTech.Stream.{InterruptResult, packet_ready, packet_buffering}
use voodoo_ps2_focal_tech.Alps.{byte}
use voodoo_ps2_focal_tech.Alps.Stream.{packet_from}

-- kPacketLengthMax, and the size of the ring.
abbrev pub packet_length_max : ℕ
packet_length_max = 4

abbrev pub ring_size : ℕ
ring_size = 128

-- dispatchRelativePointerEventX(dx, dy, buttons) and dispatchScrollWheelEventX(dz, 0, 0).
pub data Message : Type 0 where
  pointer : ℕ → ℕ → ℕ → Message
  wheel : ℕ → Message

pub record Sentelic : Type 0 where
  pub packet_byte_count : ℕ
  pub packet_size : ℕ
  pub ring : Ring
  pub touch_pad_mode_byte : ℕ
  pub log : List Message

abbrev pub emit : Message → Sentelic → Sentelic
emit m s = record s { log = s.log ++ m ∷ [] }

-- kModeByteValueGesturesEnabled and kModeByteValueGesturesDisabled.
abbrev pub gestures_enabled : ℕ
gestures_enabled = 0

abbrev pub gestures_disabled : ℕ
gestures_disabled = 4

unfoldable pub interrupt_occurred : ℕ → Sentelic → Sentelic × InterruptResult
interrupt_occurred x s =
    let stored = record s {
      ring = write_at_head s.packet_byte_count x s.ring;
      packet_byte_count = u32 (s.packet_byte_count + 1);
    } in
    if s.packet_byte_count == 0 && (x == 0xfa || not (bit_set x 3))
    then (s, packet_buffering)
    else if stored.packet_byte_count == s.packet_size
    then (
      record stored {
        ring = advance_head ring_size packet_length_max stored.ring;
        packet_byte_count = 0;
      },
      packet_ready,
    )
    else (stored, packet_buffering)

-- A tap on the pad has packet type 3: its buttons count only if gestures are enabled.
unfoldable pub buttons_of : List ℕ → Sentelic → ℕ
buttons_of p s =
    if s.touch_pad_mode_byte == gestures_enabled || not (byte p 0 / 64 == 3)
    then low_bits (byte p 0) 3
    else 0

abbrev pub delta : Bool → ℕ → ℕ
delta negative d = bit_or (if negative then 0xffff_ff00 else 0) d

unfoldable pub dispatch_packet : List ℕ → Sentelic → Sentelic
dispatch_packet p s =
    let dx = delta (bit_set (byte p 0) 4) (byte p 1) in
    let dy = neg32 (delta (bit_set (byte p 0) 5) (byte p 2)) in
    let moved = emit (pointer dx dy (buttons_of p s)) s in
    if s.packet_size == 4
    then emit (wheel (sub32 (bit_and (byte p 3) 8) (low_bits (byte p 3) 3))) moved
    else moved

unfoldable pub handle_packet : Sentelic → Sentelic
handle_packet s =
    let handled = dispatch_packet (packet_from 4 0 s.ring) s in
    record handled { ring = advance_tail ring_size packet_length_max handled.ring }

-- The loop of packetReady, with fuel for the packets that the ring can hold.
unfoldable pub packet_loop : ℕ → Sentelic → Sentelic
packet_loop zero s = s
packet_loop (suc fuel) s =
    let rest = packet_loop fuel (handle_packet s) in
    if leb packet_length_max (count ring_size s.ring) then rest else s

unfoldable pub drain : Sentelic → Sentelic
drain s = packet_loop 33 s

-- setParamProperties, for the value of "Clicking".
unfoldable pub set_clicking : ℕ → Sentelic → Sentelic
set_clicking clicking s = record s {
  touch_pad_mode_byte = if bit_set clicking 0 then gestures_enabled else gestures_disabled;
}

-- What setDevicePowerState(kPS2C_EnableDevice) forgets.
unfoldable pub clear_packets : Sentelic → Sentelic
clear_packets s = record s { packet_byte_count = 0; ring = reset s.ring }
