-- ===== src/Synaptics/Stream.antt =====
-- The byte stream of the pad.
use voodoo_ps2_focal_tech.Common.{
  ℕ, ◌+◌, ◌%◌, ◌<◌, ◌≡◌, ◌≢◌, inr, refl, arith, Bool, true, false, not, ◌&&◌, ◌==◌, if◌then◌else◌,
  bit_and, u32, get_or, get_or-set_self, get_or-set_ne,
}
use voodoo_ps2_focal_tech.Ring.{Ring, IsRing, write_at_head, advance_head}
use voodoo_ps2_focal_tech.Ring.Framed.{
  Divides, IsFramed, write_at_head-IsFramed, advance_head-IsFramed,
}
use voodoo_ps2_focal_tech.FocalTech.Stream.{InterruptResult, packet_ready, packet_buffering}
use voodoo_ps2_focal_tech.Synaptics.{
  Synaptics, interrupt_occurred, queue_error, store_byte, ring_size, packet_length,
}

abbrev pub at_head : ℕ → Ring → ℕ
at_head k r = get_or r.cells (r.head + k) 0

pub record IsSynced (s : Synaptics) : Type 0 where
  pub is_ring : IsRing ring_size s.ring
  pub head_aligned : s.ring.head % 6 ≡ 0
  pub tail_aligned : s.ring.tail % 6 ≡ 0
  pub incomplete : s.packet_byte_count < 6
  pub byte_0 : 0 < s.packet_byte_count → bit_and (at_head 0 s.ring) 0xc8 ≡ 0x80
  pub byte_3 : 3 < s.packet_byte_count → bit_and (at_head 3 s.ring) 0xc8 ≡ 0xc0

abbrev fits : Divides ring_size packet_length
fits = inr (refl, inr refl)

abbrev framed : {s : Synaptics} → IsSynced s → IsFramed ring_size packet_length s.ring
framed h = (h.is_ring, h.head_aligned, h.tail_aligned)

-- Between packets.
begin :
    (s : Synaptics) → IsFramed ring_size packet_length s.ring → s.packet_byte_count ≡ 0 → IsSynced s
begin s (ring, head, tail) none_yet = record {
  is_ring = ring;
  head_aligned = head;
  tail_aligned = tail;
  incomplete = omega arith;
  byte_0 = λ some_bytes. absurd (omega arith);
  byte_3 = λ more. absurd (omega arith);
}

queue_error-IsSynced : (reason : ℕ) (s : Synaptics) → IsSynced s → IsSynced (queue_error reason s)
unfolding queue_error
queue_error-IsSynced reason s h =
    let marked = write_at_head-IsFramed ring_size packet_length s.ring fits 0 0 (framed h) in
    let first = write_at_head 0 0 s.ring in
    let both = write_at_head-IsFramed ring_size packet_length first fits 1 reason marked in
    begin (queue_error reason s)
      (advance_head-IsFramed ring_size packet_length (write_at_head 1 reason first) fits both) refl

-- A stored byte is the one at its place, and the bytes before it stay.
written :
    (k x j : ℕ) (r : Ring)
    → IsFramed ring_size packet_length r
    → k < 6
    → let w = write_at_head k x r in
      (w.head ≡ r.head) × (at_head k w ≡ x) × (j ≢ k → at_head j w ≡ at_head j r)
unfolding write_at_head
written k x j r (ring, head, tail) small = (
  refl,
  get_or-set_self r.cells (r.head + k) x 0 (ground (arith, ring, head)),
  λ other. get_or-set_ne r.cells (r.head + k) (r.head + j) x 0 (λ e. other (omega arith)),
)

abbrev IsGood : ℕ → Synaptics → Type 0
IsGood x s =
    (s.packet_byte_count ≡ 0 → bit_and x 0xc8 ≡ 0x80)
    × (s.packet_byte_count ≡ 3 → bit_and x 0xc8 ≡ 0xc0)

if-IsSynced :
    (b : Bool) (x y : Synaptics × InterruptResult)
    → (b ≡ true → IsSynced x.0)
    → (b ≡ false → IsSynced y.0)
    → IsSynced (if b then x else y).0
if-IsSynced true x y h g = h refl
if-IsSynced false x y h g = g refl

store_byte-IsSynced :
    (x : ℕ) (s : Synaptics) → IsSynced s → IsGood x s → IsSynced (store_byte x s).0
unfolding store_byte
store_byte-IsSynced x s h good =
    let k = s.packet_byte_count in
    let r = write_at_head k x s.ring in
    let kept = write_at_head-IsFramed ring_size packet_length s.ring fits k x (framed h) in
    let (head, here, first) = written k x 0 s.ring (framed h) h.incomplete in
    let (head3, here3, third) = written k x 3 s.ring (framed h) h.incomplete in
    let stored : Synaptics = record s { ring = r; packet_byte_count = u32 (k + 1) } in
    if-IsSynced (u32 (k + 1) == packet_length) _ (stored, packet_buffering)
      (λ full.
        begin
          (record stored { ring = advance_head ring_size packet_length r; packet_byte_count = 0 })
          (advance_head-IsFramed ring_size packet_length r fits kept) refl)
      (λ more. record {
        is_ring = kept.0;
        head_aligned = kept.1;
        tail_aligned = kept.2;
        incomplete = ground (arith, more, h.incomplete);
        byte_0 = λ some_bytes. ground (arith, h.byte_0, good, here, first, h.incomplete);
        byte_3 = λ many. ground (arith, h.byte_3, good, here3, third, h.incomplete, many);
      })

-- Every byte, whatever the pad sends, leaves the ring's offsets at packet boundaries and the packet
-- under way incomplete, with the constant bits of byte 0 and, once it is there, of byte 3.
pub interrupt_occurred-IsSynced :
    (x : ℕ) (s : Synaptics) → IsSynced s → IsSynced (interrupt_occurred x s).0
unfolding interrupt_occurred
interrupt_occurred-IsSynced x s h =
    let seen : Synaptics = record s { lastdata = x } in
    let same : IsSynced seen = record {
      is_ring = h.is_ring;
      head_aligned = h.head_aligned;
      tail_aligned = h.tail_aligned;
      incomplete = h.incomplete;
      byte_0 = h.byte_0;
      byte_3 = h.byte_3;
    } in
    if-IsSynced (s.lastdata == 0xaa && x == 0) (queue_error 0xaa s, packet_ready) _
      (λ reset. queue_error-IsSynced 0xaa s h)
      (λ _.
        if-IsSynced (s.packet_byte_count == 0 && not (bit_and x 0xc8 == 0x80))
          (queue_error 0 seen, packet_ready) _ (λ bad. queue_error-IsSynced 0 seen same)
          (λ good_0.
            if-IsSynced (s.packet_byte_count == 3 && not (bit_and x 0xc8 == 0xc0))
              (queue_error 3 seen, packet_ready) (store_byte x seen)
              (λ bad. queue_error-IsSynced 3 seen same)
              (λ good_3.
                store_byte-IsSynced x seen same (
                  λ first. ground (arith, good_0, first),
                  λ third. ground (arith, good_3, third),
                ))))
