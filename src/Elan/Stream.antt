-- ===== src/Elan/Stream.antt =====
-- The byte stream of VoodooPS2Trackpad/VoodooPS2Elan.cpp: interruptOccurred cuts the bytes into packets,
-- and packetReady hands each to the version's check and report.
pub mod Steady
pub mod Drain
use voodoo_ps2_focal_tech.Common.{
  ℕ, zero, suc, ◌+◌, List, [], ◌∷◌, Bool, not, ◌&&◌, if◌then◌else◌, ◌==◌, leb, u32,
}
use voodoo_ps2_focal_tech.Ring.{Ring, count, write_at_head, advance_head, advance_tail}
use voodoo_ps2_focal_tech.FocalTech.Stream.{InterruptResult, packet_ready, packet_buffering}
use voodoo_ps2_focal_tech.Alps.Stream.{packet_from}
use voodoo_ps2_focal_tech.Elan.{Elan}
use voodoo_ps2_focal_tech.Elan.Check.{
  PacketType, unknown, debounce, trackpoint, debounce_check_v2, packet_check_v1, packet_check_v2,
  packet_check_v3, packet_check_v4,
}
use voodoo_ps2_focal_tech.Elan.Absolute.{report_absolute_v1, report_absolute_v2, report_absolute_v3}
use voodoo_ps2_focal_tech.Elan.Slots.{report_absolute_v4}
use voodoo_ps2_focal_tech.Elan.Trackpoint.{report_trackpoint}

abbrev pub ring_size : ℕ
ring_size = 192

unfoldable pub interrupt_occurred : ℕ → Elan → Elan × InterruptResult
interrupt_occurred x s =
    let stored = record s {
      ring = write_at_head s.packet_byte_count x s.ring;
      packet_byte_count = u32 (s.packet_byte_count + 1);
    } in
    if stored.packet_byte_count == s.packet_length
    then (
      record stored {
        ring = advance_head ring_size s.packet_length stored.ring;
        packet_byte_count = 0;
      },
      packet_ready,
    )
    else (stored, packet_buffering)

unfoldable pub process_v1 : ℕ → List ℕ → Elan → Elan
process_v1 now p s =
    if s.info.paritycheck && not (packet_check_v1 p s) then s else report_absolute_v1 now p s

unfoldable pub process_v2 : ℕ → List ℕ → Elan → Elan
process_v2 now p s =
    if debounce_check_v2 p
    then s
    else if s.info.paritycheck && not (packet_check_v2 p s.info.reports_pressure)
    then s
    else report_absolute_v2 now p s

unfoldable pub process_v3 : PacketType → ℕ → List ℕ → Elan → Elan
process_v3 unknown now p s = s
process_v3 debounce now p s = s
process_v3 trackpoint now p s = report_trackpoint now p s
process_v3 kind now p s = report_absolute_v3 now kind p s

unfoldable pub process_v4 : PacketType → ℕ → List ℕ → Elan → Elan
process_v4 unknown now p s = s
process_v4 trackpoint now p s = report_trackpoint now p s
process_v4 kind now p s = report_absolute_v4 now kind p s

unfoldable pub process_packet : ℕ → List ℕ → Elan → Elan
process_packet now p s =
    if s.info.hw_version == 1
    then process_v1 now p s
    else if s.info.hw_version == 2
    then process_v2 now p s
    else if s.info.hw_version == 3
    then process_v3 (packet_check_v3 p s.info.crc_enabled) now p s
    else if s.info.hw_version == 4
    then process_v4 (packet_check_v4 p s.info) now p s
    else s

unfoldable pub handle_packet : ℕ → Elan → Elan
handle_packet now s =
    let handled = if s.ignoreall then s else process_packet now (packet_from 6 0 s.ring) s in
    record handled { ring = advance_tail ring_size handled.packet_length handled.ring }

-- The loop of packetReady, with fuel for the packets that the ring can hold. `clock` says when each
-- round runs, by the fuel that it leaves.
unfoldable pub packet_loop : ℕ → (ℕ → ℕ) → Elan → Elan
packet_loop zero clock s = s
packet_loop (suc fuel) clock s =
    let rest = packet_loop fuel clock (handle_packet (clock fuel) s) in
    if leb s.packet_length (count ring_size s.ring) then rest else s

unfoldable pub drain : (ℕ → ℕ) → Elan → Elan
drain clock s = packet_loop 49 clock s
