-- ===== src/Mouse/Bytes.antt =====
-- The byte stream of the mouse.
use voodoo_ps2_focal_tech.Common.{ℕ, ◌%◌, ◌≤◌, ◌<◌, ◌≡◌, inl, refl, arith, true, bit_set, get_or}
use voodoo_ps2_focal_tech.Ring.{Ring, IsRing, write_at_head, advance_head}
use voodoo_ps2_focal_tech.Ring.Framed.{
  Divides, IsFramed, write_at_head-IsFramed, write_at_head-head, advance_head-IsFramed,
}
use voodoo_ps2_focal_tech.Mouse.{Mouse, interrupt_occurred, ring_size, packet_length_max}

pub record IsStream (m : Mouse) : Type 0 where
  pub is_ring : IsRing ring_size m.ring
  pub head_aligned : m.ring.head % 4 ≡ 0
  pub tail_aligned : m.ring.tail % 4 ≡ 0
  pub length_low : 3 ≤ m.packet_length
  pub length_high : m.packet_length ≤ 4
  pub incomplete : m.packet_byte_count < m.packet_length
  pub in_sync : 0 < m.packet_byte_count → bit_set (get_or m.ring.cells m.ring.head 0) 3 ≡ true

abbrev fits : Divides ring_size packet_length_max
fits = inl (refl, refl)

-- A packet is put together and passed on.
passed :
    (k x : ℕ) (r : Ring)
    → IsFramed ring_size packet_length_max r
    → IsFramed ring_size packet_length_max
        (advance_head ring_size packet_length_max (write_at_head k x r))
passed k x r h =
    advance_head-IsFramed ring_size packet_length_max (write_at_head k x r) fits
      (write_at_head-IsFramed ring_size packet_length_max r fits k x h)

-- Every byte, whatever the mouse sends, leaves the offsets of the ring at packet boundaries, the
-- packet under way incomplete and begun with a byte that has the sync bit, if they were so before.
pub interrupt_occurred-IsStream :
    (x : ℕ) (m : Mouse) → IsStream m → IsStream (interrupt_occurred x m).0
unfolding interrupt_occurred
interrupt_occurred-IsStream x m h =
    let framed : IsFramed ring_size packet_length_max m.ring =
      (h.is_ring, h.head_aligned, h.tail_aligned) in
    let write = write_at_head-IsFramed ring_size packet_length_max m.ring fits in
    ground (
      arith,
      h,
      framed,
      passed 1 0xaa (write_at_head 0 0 m.ring) (write 0 0 framed),
      passed 1 0xfa (write_at_head 0 0 m.ring) (write 0 0 framed),
      passed m.packet_byte_count x m.ring framed,
      write m.packet_byte_count x framed,
      write_at_head-head ring_size m.packet_byte_count x m.ring h.is_ring,
    )
