-- ===== src/Keyboard/Packets.antt =====
-- The packets of the keyboard in the ring.
use voodoo_ps2_focal_tech.Common.{
  ℕ, zero, suc, ◌+◌, ◌/◌, ◌%◌, ◌≤◌, ◌<◌, ◌≡◌, refl, arith, ◌∙◌, length, length-set, get_or, set,
  get_or-set_self, get_or-set_ne, u8,
}
use voodoo_ps2_focal_tech.Ring.{Ring, IsRing, write_at_head, advance_head, advance_tail}
use voodoo_ps2_focal_tech.Ring.Queue.{advance_head-IsRing, advance_tail-IsRing}
use voodoo_ps2_focal_tech.Keyboard.{
  Keyboard, ring_size, packet_length, write_time, buffer_packet, packetize, interrupt_occurred,
  key_code_raw,
}
use voodoo_ps2_focal_tech.Keyboard.Held.{length-key_down, length-key_up}

pub record IsFramed (r : Ring) : Type 0 where
  pub is_ring : IsRing ring_size r
  pub head_aligned : r.head % 16 ≡ 0
  pub tail_aligned : r.tail % 16 ≡ 0

write_at_head-IsFramed : (k x : ℕ) (r : Ring) → IsFramed r → IsFramed (write_at_head k x r)
unfolding write_at_head
write_at_head-IsFramed k x r h = ground (arith, h, length-set r.cells (r.head + k) x)

write_time-IsFramed : (n k time : ℕ) (r : Ring) → IsFramed r → IsFramed (write_time n k time r)
unfolding write_time
write_time-IsFramed zero k time r h = h
write_time-IsFramed (suc n) k time r h =
    write_time-IsFramed n (k + 1) (time / 256) (write_at_head k (u8 time) r)
      (write_at_head-IsFramed k (u8 time) r h)

advance_head-IsFramed : (r : Ring) → IsFramed r → IsFramed (advance_head ring_size packet_length r)
unfolding advance_head
advance_head-IsFramed r h =
    let is_ring = h.is_ring in
    let head_aligned = h.head_aligned in
    let tail_aligned = h.tail_aligned in
    record {
      is_ring = advance_head-IsRing ring_size packet_length r is_ring (omega arith);
      head_aligned = ground arith;
      tail_aligned = ground arith;
    }

pub buffer_packet-IsFramed :
    (time a b : ℕ) (r : Ring) → IsFramed r → IsFramed (buffer_packet time a b r)
unfolding buffer_packet
buffer_packet-IsFramed time a b r h =
    advance_head-IsFramed _ (
      write_time-IsFramed 8 8 time _
        (write_at_head-IsFramed 1 b _ (write_at_head-IsFramed 0 a r h)))

pub advance_tail-IsFramed :
    (r : Ring) → IsFramed r → IsFramed (advance_tail ring_size packet_length r)
unfolding advance_tail
advance_tail-IsFramed r h = record {
  is_ring = advance_tail-IsRing ring_size packet_length r h.is_ring (omega arith);
  head_aligned = h.head_aligned;
  tail_aligned = ground (arith, h, h.is_ring);
}

pub write_time-ends :
    (n k time : ℕ) (r : Ring)
    → ((write_time n k time r).head ≡ r.head) × ((write_time n k time r).tail ≡ r.tail)
unfolding write_time write_at_head
write_time-ends zero k time r = (refl, refl)
write_time-ends (suc n) k time r =
    write_time-ends n (k + 1) (time / 256) (write_at_head k (u8 time) r)

-- The bytes of the time lie after offset `k`.
write_time-before :
    (n k time i : ℕ) (r : Ring)
    → i < r.head + k
    → get_or (write_time n k time r).cells i 0 ≡ get_or r.cells i 0
unfolding write_time write_at_head
write_time-before zero k time i r lt = refl
write_time-before (suc n) k time i r lt =
    write_time-before n (k + 1) (time / 256) i (write_at_head k (u8 time) r) (omega arith)
    ∙ get_or-set_ne r.cells (r.head + k) i (u8 time) 0 (λ e. omega arith)

cells-advance_head : (n move : ℕ) (r : Ring) → (advance_head n move r).cells ≡ r.cells
unfolding advance_head
cells-advance_head n move r = ground arith

pub buffer_packet-bytes :
    (time a b : ℕ) (r : Ring)
    → IsFramed r
    → (get_or (buffer_packet time a b r).cells r.head 0 ≡ a)
      × (get_or (buffer_packet time a b r).cells (r.head + 1) 0 ≡ b)
unfolding buffer_packet write_at_head
buffer_packet-bytes time a b r h =
    let first = write_at_head 0 a r in
    let both = write_at_head 1 b first in
    let is_ring = h.is_ring in
    let aligned = h.head_aligned in
    let fits : r.head + 1 < 512 = omega (arith, is_ring.head_in) in
    let size : length r.cells ≡ 512 = is_ring.size in
    let sized : length (set r.cells (r.head + 0) a) ≡ 512 =
      omega (arith, length-set r.cells (r.head + 0) a) in
    let stored : get_or first.cells r.head 0 ≡ a =
      ground (arith, size, get_or-set_self r.cells (r.head + 0) a 0) in
    rw (cells-advance_head ring_size packet_length (write_time 8 8 time both)) (
      write_time-before 8 8 time r.head both (omega arith)
          ∙ get_or-set_ne first.cells (r.head + 1) r.head b 0 (λ e. omega arith)
          ∙ stored,
      write_time-before 8 8 time (r.head + 1) both (omega arith)
          ∙ get_or-set_self first.cells (r.head + 1) b 0 (omega arith),
    )

-- The stream between two bytes: the key numbers of a packet are below 512, so each key has its bit.
pub record IsStream (m : Keyboard) : Type 0 where
  pub framed : IsFramed m.ring
  pub units : length m.key_bit_vector ≡ 16
  pub extend_low : m.extend_count ≤ 2

-- Every byte keeps the ring at packet boundaries, the vector at 16 units and the count at most 2.
pub interrupt_occurred-IsStream :
    (time x : ℕ) (m : Keyboard) → IsStream m → IsStream (interrupt_occurred time x m).0
unfolding interrupt_occurred packetize
interrupt_occurred-IsStream time x m h = ground (
  arith,
  h,
  buffer_packet-IsFramed time 0 0xaa m.ring h.framed,
  buffer_packet-IsFramed time (u8 (m.extend_count + 1)) x m.ring h.framed,
  length-key_down m.key_bit_vector (key_code_raw m.extend_count x),
  length-key_up m.key_bit_vector (key_code_raw m.extend_count x),
)
