-- ===== src/Alps/Stream.antt =====
-- The byte stream of VoodooPS2Trackpad/VoodooPS2ALPSGlidePoint.cpp: interruptOccurred stores the bytes
-- of a packet and gives up a packet that cannot be one, and packetReady handles what is complete.
pub mod Steady
pub mod Receive
use voodoo_ps2_focal_tech.Common.{
  ℕ, zero, suc, ◌+◌, ◌-◌, ◌/◌, ◌%◌, ◌^◌, List, [], ◌∷◌, Bool, true, false, not, ◌&&◌, ◌||◌,
  if◌then◌else◌, ◌==◌, ltb, leb, get_or, bit_and, bit_set, u32, low_bits,
}
use voodoo_ps2_focal_tech.Ring.{
  Ring, count, write_at_head, read_at_tail, advance_head, advance_tail,
}
use voodoo_ps2_focal_tech.Alps.{
  Alps, Fields, Outside, PacketHandler, process_v1_v2, process_v3, process_v4, touchpad_v3_v5,
  process_v6, process_v7, process_ss4_v2, proto_v5, proto_v7, proto_v8, is_interleaved,
}
use voodoo_ps2_focal_tech.Alps.Packets.{
  alps_process_packet_v1_v2, process_packet_v3, process_packet_v4, process_touchpad_v3_v5,
  process_packet_v6,
}
use voodoo_ps2_focal_tech.Alps.Packets.V7.{process_packet_v7}
use voodoo_ps2_focal_tech.Alps.Packets.V8.{process_packet_ss4_v2}

abbrev pub ring_size : ℕ
ring_size = 192

-- PS2InterruptResult.
pub data InterruptResult : Type 0 where
  packet_ready packet_buffering : InterruptResult

abbrev pub packet_at : ℕ → Ring → ℕ
packet_at k r = get_or r.cells (r.head + k) 0

-- A packet of three bytes, from a device behind the pad: not on version 8.
abbrev pub is_bare : Alps → Ring → Bool
is_bare s r = not (s.proto_version == proto_v8) && bit_and (packet_at 0 r) 0xc8 == 0x08

-- The packet was interrupted by a PS/2 packet.
abbrev pub is_stuffed : Alps → Ring → Bool
is_stuffed s r = is_interleaved s && leb 4 s.packet_byte_count && low_bits (packet_at 3 r) 4 == 0xf

-- From version 1 to 4 the bytes after the first one have bit 7 clear.
abbrev pub has_high_bit : Alps → Ring → Bool
has_high_bit s r =
    ltb s.proto_version proto_v5
    && leb 2 s.packet_byte_count
    && leb s.packet_byte_count s.pktsize
    && bit_set (packet_at (s.packet_byte_count - 1) r) 7

abbrev pub is_invalid_v7 : Alps → Ring → Bool
is_invalid_v7 s r =
    s.proto_version == proto_v7
    && ((s.packet_byte_count == 3 && not (bit_set (packet_at 2 r) 6))
        || (s.packet_byte_count == 4
            && not (bit_set (packet_at 3 r) 6 && bit_set (packet_at 3 r) 3))
        || (s.packet_byte_count == 6 && bit_set (packet_at 5 r) 6))

abbrev pub is_invalid_ss4 : Alps → Ring → Bool
is_invalid_ss4 s r =
    s.proto_version == proto_v8
    && ((s.packet_byte_count == 4 && not (bit_set (packet_at 3 r) 3))
        || (s.packet_byte_count == 6 && bit_set (packet_at 5 r) 4))

unfoldable pub is_bad : Alps → Ring → Bool
is_bad s r =
    is_stuffed s r
    || not (bit_and (packet_at 0 r) s.mask0 == s.byte0)
    || has_high_bit s r
    || is_invalid_v7 s r
    || is_invalid_ss4 s r

abbrev pub store : ℕ → Alps → Ring → Alps
store x s r = record s {
  bad_data = false;
  ring = write_at_head s.packet_byte_count x r;
  packet_byte_count = u32 (s.packet_byte_count + 1);
}

-- The packet is given up: its slot is passed on, to be dropped.
abbrev pub give_up : Alps → Ring → Alps
give_up s r = record s { bad_data = true; ring = advance_head ring_size s.pktsize r }

abbrev pub finish_slot : Alps → Alps
finish_slot s = record s { ring = advance_head ring_size s.pktsize s.ring }

unfoldable pub interrupt_occurred : ℕ → Alps → Alps × InterruptResult
interrupt_occurred x s =
    let r = if s.packet_byte_count == 0 then write_at_head 0 x s.ring else s.ring in
    let stored = store x s r in
    if is_bare s r
    then (if s.packet_byte_count == 3
        then (give_up s r, packet_ready)
        else (stored, packet_buffering))
    else if is_bad s r
    then (give_up s r, packet_ready)
    else if stored.packet_byte_count == s.pktsize
    then (finish_slot stored, packet_ready)
    else (stored, packet_buffering)

unfoldable pub process_with : PacketHandler → Outside → Fields → List ℕ → Alps → Alps
process_with h e f p s = elim h [
  | process_v1_v2 ↦ alps_process_packet_v1_v2 p s
  | process_v3 ↦ process_packet_v3 e p s
  | process_v4 ↦ process_packet_v4 e f p s
  | touchpad_v3_v5 ↦ process_touchpad_v3_v5 e p s
  | process_v6 ↦ process_packet_v6 p s
  | process_v7 ↦ process_packet_v7 e p s
  | process_ss4_v2 ↦ process_packet_ss4_v2 e p s
]

abbrev pub process_packet : Outside → Fields → List ℕ → Alps → Alps
process_packet e f p s = process_with (s.process_packet) e f p s

-- `n` bytes at tail(), from the `k`-th on.
abbrev pub packet_from : ℕ → ℕ → Ring → List ℕ
packet_from zero k r = []
packet_from (suc n) k r = read_at_tail k r ∷ packet_from n (suc k) r

-- `f` is what the stack holds where a handler does not set its fields.
unfoldable pub handle_packet : Outside → Fields → Alps → Alps
handle_packet e f s =
    let p = packet_from s.pktsize 0 s.ring in
    let handled = if s.bad_data || s.ignoreall then s else process_packet e f p s in
    record handled {
      packet_byte_count = 0;
      ring = advance_tail ring_size handled.pktsize handled.ring;
    }

-- The loop of packetReady, with fuel for the packets that the ring can hold.
unfoldable pub packet_loop : ℕ → Outside → Fields → Alps → Alps
packet_loop zero e f s = s
packet_loop (suc fuel) e f s =
    let rest = packet_loop fuel e f (handle_packet e f s) in
    if leb s.pktsize (count ring_size s.ring) then rest else s

unfoldable pub drain : Outside → Fields → Alps → Alps
drain e f s = packet_loop ring_size e f s
