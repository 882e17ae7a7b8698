-- ===== src/FocalTech/Stream.antt =====
-- `interruptOccurred` and `packetReady` (FocalTech/Source/VoodooPS2FocalTech.part03.inc): the bytes
-- of the interrupt become packets in the ring buffer, and the work loop processes them.
pub mod Receive
pub mod Drain
use voodoo_ps2_focal_tech.Common.{
  ℕ, zero, suc, ◌+◌, ◌/◌, List, [], ◌∷◌, Bool, ◌||◌, leb, ◌==◌, if◌then◌else◌, Option, none, some,
  low_bits, u32, ◌%◌, ◌^◌,
}
use voodoo_ps2_focal_tech.Ring.{write_at_head, advance_head, advance_tail, count, read_at_tail}
use voodoo_ps2_focal_tech.FocalTech.{
  Driver, Diagnostics, diagnostics, emit, packet_length, ring_size,
}
use voodoo_ps2_focal_tech.FocalTech.Report.{process_packet}

-- PS2InterruptResult.
pub data InterruptResult : Type 0 where
  packet_ready packet_buffering : InterruptResult

abbrev pub u64 : ℕ → ℕ
u64 n = n % 2 ^ 64

unfoldable pub interrupt_occurred : ℕ → Driver → Driver × InterruptResult
interrupt_occurred x s =
    let written = write_at_head s.packet_byte_count x s.ring in
    let counted = u32 (s.packet_byte_count + 1) in
    let s' = record s { irq_byte_count = u64 (s.irq_byte_count + 1) } in
    if counted == packet_length
    then (
      record s' { ring = advance_head ring_size packet_length written; packet_byte_count = 0 },
      packet_ready,
    )
    else (record s' { ring = written; packet_byte_count = counted }, packet_buffering)

-- The packet at the tail, which never wraps around.
unfoldable pub tail_packet : Driver → List ℕ
tail_packet s =
    read_at_tail 0 s.ring
    ∷ read_at_tail 1 s.ring
    ∷ read_at_tail 2 s.ring
    ∷ read_at_tail 3 s.ring
    ∷ read_at_tail 4 s.ring
    ∷ read_at_tail 5 s.ring
    ∷ []

unfoldable pub publish_runtime_diagnostics : Option (List ℕ × Bool) → Driver → Driver
publish_runtime_diagnostics packet s =
    emit
      (diagnostics (record {
        port = s.provider_port;
        aux_nubs = s.aux_nub_count;
        irq_bytes = s.irq_byte_count;
        packets = s.packet_count;
        valid_packets = s.valid_packet_count;
        invalid_packets = s.invalid_packet_count;
        legacy_fallback = s.legacy_compatibility_path;
        last_packet = packet;
      }))
      s

abbrev pub count_packet : Bool → Driver → Driver
count_packet valid s =
    if valid
    then record s { valid_packet_count = u64 (s.valid_packet_count + 1) }
    else record s { invalid_packet_count = u64 (s.invalid_packet_count + 1) }

-- One round of the loop of packetReady.
unfoldable pub handle_packet : Driver → Driver
handle_packet s =
    let packet = tail_packet s in
    let (done, valid) =
      process_packet packet (record s { packet_count = u64 (s.packet_count + 1) }) in
    let counted = count_packet valid done in
    let published =
      if leb counted.packet_count 4 || low_bits counted.packet_count 5 == 0
      then publish_runtime_diagnostics (some (packet, valid)) counted
      else counted in
    record published { ring = advance_tail ring_size packet_length published.ring }

-- The loop, with fuel.
unfoldable pub packet_loop : ℕ → Driver → Driver
packet_loop zero s = s
packet_loop (suc fuel) s =
    let rest = packet_loop fuel (handle_packet s) in
    if leb packet_length (count ring_size s.ring) then rest else s

-- More rounds than packets fit the ring.
unfoldable pub packet_ready_action : Driver → Driver
packet_ready_action s = packet_loop 33 s
