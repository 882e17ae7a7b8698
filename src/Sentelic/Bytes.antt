-- ===== src/Sentelic/Bytes.antt =====
-- The byte stream of the pad, and a run of the work loop.
use voodoo_ps2_focal_tech.Common.{
  ℕ, zero, suc, ◌*◌, ◌%◌, ◌≤◌, ◌<◌, ◌≡◌, refl, sym, arith, ap, ◌∙◌, List, [], ◌∷◌, ◌++◌, true,
  bit_set, get_or, leb, Bool-cases, inl, inr, ◌==◌, All, length,
}
use voodoo_ps2_focal_tech.Ring.{Ring, IsRing, count, write_at_head, read_at_tail, advance_tail}
use voodoo_ps2_focal_tech.Ring.Window.{window}
use voodoo_ps2_focal_tech.Ring.Queue.{contents, count-lt, contents-advance_tail}
use voodoo_ps2_focal_tech.FocalTech.Stream.Drain.{join}
use voodoo_ps2_focal_tech.Alps.Stream.{packet_from}
use voodoo_ps2_focal_tech.Ring.Framed.{
  Divides, IsFramed, write_at_head-IsFramed, write_at_head-head, advance_head-IsFramed,
  advance_tail-IsFramed, count-advance_tail, nothing_left,
}
use voodoo_ps2_focal_tech.Sentelic.{
  Sentelic, interrupt_occurred, buttons_of, dispatch_packet, handle_packet, packet_loop, drain,
  ring_size, packet_length_max,
}

pub record IsStream (s : Sentelic) : Type 0 where
  pub is_ring : IsRing ring_size s.ring
  pub head_aligned : s.ring.head % 4 ≡ 0
  pub tail_aligned : s.ring.tail % 4 ≡ 0
  pub size_low : 3 ≤ s.packet_size
  pub size_high : s.packet_size ≤ 4
  pub incomplete : s.packet_byte_count < s.packet_size
  pub in_sync : 0 < s.packet_byte_count → bit_set (get_or s.ring.cells s.ring.head 0) 3 ≡ true

abbrev fits : Divides ring_size packet_length_max
fits = inl (refl, refl)

abbrev framed : {s : Sentelic} → IsStream s → IsFramed ring_size packet_length_max s.ring
framed h = (h.is_ring, h.head_aligned, h.tail_aligned)

interrupt_occurred-IsStream :
    (x : ℕ) (s : Sentelic) → IsStream s → IsStream (interrupt_occurred x s).0
unfolding interrupt_occurred
interrupt_occurred-IsStream x s h =
    let written =
      write_at_head-IsFramed ring_size packet_length_max s.ring fits s.packet_byte_count x
        (framed h) in
    ground (
      arith,
      h,
      written,
      advance_head-IsFramed ring_size packet_length_max (write_at_head s.packet_byte_count x s.ring)
          fits written,
      write_at_head-head ring_size s.packet_byte_count x s.ring h.is_ring,
    )

-- The packet at the tail is dispatched, and nothing of the stream but the ring's tail changes.
slot : Sentelic → List ℕ
slot s = packet_from 4 0 s.ring

handle_packet-ring :
    (s : Sentelic)
    → handle_packet s ≡ record (dispatch_packet (slot s) s) {
      ring = advance_tail ring_size packet_length_max s.ring;
    }
unfolding handle_packet dispatch_packet slot
handle_packet-ring s = elim (Bool-cases (s.packet_size == 4)) [
  | inl four ↦ rw four refl
  | inr three ↦ rw three refl
]

-- A round frees a packet's bytes, and leaves the packet under way alone.
handle_packet-kept :
    (s : Sentelic)
    → let t = handle_packet s in
      (t.ring ≡ advance_tail ring_size packet_length_max s.ring)
      × (t.packet_size ≡ s.packet_size)
      × (t.packet_byte_count ≡ s.packet_byte_count)
unfolding handle_packet dispatch_packet
handle_packet-kept s = ground arith

advance_tail-head :
    (r : Ring)
    → ((advance_tail ring_size packet_length_max r).head ≡ r.head)
      × ((advance_tail ring_size packet_length_max r).cells ≡ r.cells)
unfolding advance_tail
advance_tail-head r = (refl, refl)

handle_packet-IsStream : (s : Sentelic) → IsStream s → IsStream (handle_packet s)
handle_packet-IsStream s h =
    let (ring, size, bytes) = handle_packet-kept s in
    let (is_ring, head, tail) =
      advance_tail-IsFramed ring_size packet_length_max s.ring fits (framed h) in
    let (same_head, same_cells) = advance_tail-head s.ring in
    record {
      is_ring = rw ring is_ring;
      head_aligned = rw ring head;
      tail_aligned = rw ring tail;
      size_low = omega (arith, size, h);
      size_high = omega (arith, size, h);
      incomplete = omega (arith, size, bytes, h);
      in_sync = λ some_bytes. rw (ring, same_head, same_cells) (h.in_sync (omega (arith, bytes)));
    }

-- The packets are dispatched one after the other.
unfoldable pub dispatch_all : List (List ℕ) → Sentelic → Sentelic
dispatch_all [] s = s
dispatch_all (p ∷ ps) s = dispatch_all ps (dispatch_packet p s)

-- Dispatching does not read the ring.
dispatch_packet-ring :
    (p : List ℕ) (r : Ring) (s : Sentelic)
    → dispatch_packet p (record s { ring = r }) ≡ record (dispatch_packet p s) { ring = r }
unfolding dispatch_packet buttons_of
dispatch_packet-ring p r s = elim (Bool-cases (s.packet_size == 4)) [
  | inl four ↦ rw four refl
  | inr three ↦ rw three refl
]

dispatch_all-ring :
    (ps : List (List ℕ)) (r : Ring) (s : Sentelic)
    → dispatch_all ps (record s { ring = r }) ≡ record (dispatch_all ps s) { ring = r }
unfolding dispatch_all
dispatch_all-ring [] r s = refl
dispatch_all-ring (p ∷ ps) r s =
    ap (dispatch_all ps) (dispatch_packet-ring p r s) ∙ dispatch_all-ring ps r (dispatch_packet p s)

queued : Sentelic → List ℕ
queued s = contents ring_size s.ring

tail_window :
    (s : Sentelic)
    → IsStream s
    → window ring_size s.ring.cells packet_length_max s.ring.tail ≡ slot s
unfolding window slot read_at_tail
tail_window s h = ground (arith, h, h.is_ring)

queued-handle_packet :
    (s : Sentelic)
    → IsStream s
    → packet_length_max ≤ count ring_size s.ring
    → queued s ≡ slot s ++ queued (handle_packet s)
unfolding queued
queued-handle_packet s h held =
    contents-advance_tail ring_size packet_length_max s.ring h.is_ring (omega arith) held
    ∙ rw (tail_window s h, (handle_packet-kept s).0) refl

queued-empty : (s : Sentelic) → count ring_size s.ring ≡ 0 → queued s ≡ []
unfolding queued contents window
queued-empty s none_held = rw none_held refl

-- The ring was emptied into the packets `ps`, which were dispatched in order.
pub record IsDrained (ps : List (List ℕ)) (s t : Sentelic) : Type 0 where
  pub stream : IsStream t
  pub empty : count ring_size t.ring ≡ 0
  pub joined : join ps ≡ contents ring_size s.ring
  pub fours : All (λ (p : List ℕ). length p ≡ 4) ps
  pub head : t.ring.head ≡ s.ring.head
  pub cells : t.ring.cells ≡ s.ring.cells
  pub bytes : t.packet_byte_count ≡ s.packet_byte_count
  pub dispatched : t ≡ record (dispatch_all ps s) { ring = t.ring }

IsDrained-round :
    (ps : List (List ℕ)) (s t : Sentelic)
    → IsStream s
    → packet_length_max ≤ count ring_size s.ring
    → IsDrained ps (handle_packet s) t
    → IsDrained (slot s ∷ ps) s t
unfolding join dispatch_all slot queued
IsDrained-round ps s t h held d =
    let (ring, size, bytes) = handle_packet-kept s in
    let (same_head, same_cells) = advance_tail-head s.ring in
    record {
      stream = d.stream;
      empty = d.empty;
      joined = ap (λ (q : List ℕ). slot s ++ q) d.joined ∙ sym (queued-handle_packet s h held);
      fours = (refl, d.fours);
      head = d.head ∙ ap (λ (r : Ring). r.head) ring ∙ same_head;
      cells = d.cells ∙ ap (λ (r : Ring). r.cells) ring ∙ same_cells;
      bytes = d.bytes ∙ bytes;
      dispatched =
          d.dispatched
          ∙ ap (λ (u : Sentelic). record u { ring = t.ring })
              (ap (dispatch_all ps) (handle_packet-ring s)
                ∙ dispatch_all-ring ps (advance_tail ring_size packet_length_max s.ring)
                    (dispatch_packet (slot s) s));
    }

packet_loop-IsDrained :
    (fuel : ℕ) (s : Sentelic)
    → IsStream s
    → count ring_size s.ring < 4 * fuel
    → (ps : List (List ℕ)) × IsDrained ps s (packet_loop fuel s)
unfolding packet_loop join dispatch_all
packet_loop-IsDrained zero s h few = absurd (omega arith)
packet_loop-IsDrained (suc fuel) s h few =
    elim (Bool-cases (leb packet_length_max (count ring_size s.ring))) [
      | inl more ↦ rw more (
          let (ring, size, bytes) = handle_packet-kept s in
          let held : packet_length_max ≤ count ring_size s.ring = ground (arith, more) in
          let less = count-advance_tail ring_size packet_length_max s.ring fits (framed h) held in
          let (ps, drained) =
            packet_loop-IsDrained fuel (handle_packet s) (handle_packet-IsStream s h)
              (omega (arith, less, ap (count ring_size) ring)) in
          (slot s ∷ ps, IsDrained-round ps s _ h held drained))
      | inr stop ↦ rw stop (
          let none_held =
            nothing_left ring_size packet_length_max s.ring fits (framed h)
              (ground (arith, stop)) in
          (
            [],
            record {
              stream = h;
              empty = none_held;
              joined = sym (unfold queued in queued-empty s none_held);
              fours = tt;
              head = refl;
              cells = refl;
              bytes = refl;
              dispatched = refl;
            },
          ))
    ]

unfoldable pub receive : List ℕ → Sentelic → Sentelic
receive [] s = s
receive (x ∷ xs) s = receive xs (interrupt_occurred x s).0

-- After any bytes, however many packets they make, the offsets of the ring stand between packets, and
-- a packet under way began with a byte that has the sync bit. One run of the work loop then dispatches,
-- oldest first, slots of four bytes whose bytes in order are the queue, and empties the ring; nothing
-- changes beyond what dispatching these slots does and the ring's tail, so that the bytes of the packet
-- under way, their place and their count are kept.
pub receive-drain-IsStream :
    (xs : List ℕ) (s : Sentelic)
    → IsStream s
    → let t = receive xs s in IsStream t × (ps : List (List ℕ)) × IsDrained ps t (drain t)
unfolding receive drain
receive-drain-IsStream [] s h =
    let (ps, drained) =
      packet_loop-IsDrained 33 s h (omega (arith, count-lt ring_size s.ring h.is_ring)) in
    (h, ps, drained)
receive-drain-IsStream (x ∷ xs) s h =
    receive-drain-IsStream xs (interrupt_occurred x s).0 (interrupt_occurred-IsStream x s h)
