-- ===== src/Elan/Stream/Drain.antt =====
-- Bytes and runs of the work loop in any order.
use voodoo_ps2_focal_tech.Common.{
  ℕ, zero, suc, ◌*◌, ◌%◌, ◌<◌, ◌≡◌, ◌⊎◌, refl, ap, ◌∙◌, arith, List, [], ◌∷◌, Bool, true, false,
  if◌then◌else◌, leb, Bool-cases, inl, inr,
}
use voodoo_ps2_focal_tech.Ring.{Ring, IsRing, count, write_at_head, advance_tail}
use voodoo_ps2_focal_tech.Ring.Queue.{count-lt}
use voodoo_ps2_focal_tech.Ring.Framed.{
  Divides, IsFramed, write_at_head-IsFramed, advance_head-IsFramed, advance_tail-IsFramed,
  count-advance_tail, nothing_left,
}
use voodoo_ps2_focal_tech.Alps.Stream.{packet_from}
use voodoo_ps2_focal_tech.Elan.{Elan}
use voodoo_ps2_focal_tech.Elan.Stream.{
  ring_size, interrupt_occurred, process_packet, handle_packet, packet_loop, drain,
}
use voodoo_ps2_focal_tech.Elan.Stream.Steady.{IsSteady, process_packet-IsSteady}

pub record IsStream (s : Elan) : Type 0 where
  pub is_ring : IsRing ring_size s.ring
  pub size : (s.packet_length ≡ 4) ⊎ (s.packet_length ≡ 6)
  pub head_aligned : s.ring.head % s.packet_length ≡ 0
  pub tail_aligned : s.ring.tail % s.packet_length ≡ 0
  pub incomplete : s.packet_byte_count < s.packet_length

abbrev fits : {n : ℕ} → (n ≡ 4) ⊎ (n ≡ 6) → Divides ring_size n
fits size = inr (refl, size)

abbrev framed : {s : Elan} → IsStream s → IsFramed ring_size s.packet_length s.ring
framed h = (h.is_ring, h.head_aligned, h.tail_aligned)

interrupt_occurred-IsStream : (x : ℕ) (s : Elan) → IsStream s → IsStream (interrupt_occurred x s).0
unfolding interrupt_occurred
interrupt_occurred-IsStream x s h =
    let n = s.packet_length in
    let written =
      write_at_head-IsFramed ring_size n s.ring (fits h.size) s.packet_byte_count x (framed h) in
    ground (
      arith,
      h,
      written,
      advance_head-IsFramed ring_size n (write_at_head s.packet_byte_count x s.ring) (fits h.size)
          written,
    )

handled-IsSteady :
    (b : Bool) (now : ℕ) (p : List ℕ) (s : Elan)
    → IsSteady s (if b then s else process_packet now p s)
handled-IsSteady true now p s = record {
  ring = refl;
  packet_length = refl;
  packet_byte_count = refl;
}
handled-IsSteady false now p s = process_packet-IsSteady now p s

-- A round frees a packet's bytes, and leaves the packet under way alone.
handle_packet-kept :
    (now : ℕ) (s : Elan)
    → let t = handle_packet now s in
      (t.ring ≡ advance_tail ring_size s.packet_length s.ring)
      × (t.packet_length ≡ s.packet_length)
      × (t.packet_byte_count ≡ s.packet_byte_count)
unfolding handle_packet
handle_packet-kept now s =
    let p = packet_from 6 0 s.ring in
    let kept = handled-IsSteady s.ignoreall now p s in
    let handled = if s.ignoreall then s else process_packet now p s in
    (
      ap (λ n. advance_tail ring_size n handled.ring) kept.packet_length
          ∙ ap (advance_tail ring_size s.packet_length) kept.ring,
      kept.packet_length,
      kept.packet_byte_count,
    )

framed-IsStream :
    (n : ℕ) (r : Ring) (t : Elan)
    → (n ≡ 4) ⊎ (n ≡ 6)
    → IsFramed ring_size n r
    → t.ring ≡ r
    → t.packet_length ≡ n
    → t.packet_byte_count < n
    → IsStream t
framed-IsStream n r t size (h, p, q) ring same few = record {
  is_ring = rw ring h;
  size = rw same size;
  head_aligned = rw (ring, same) p;
  tail_aligned = rw (ring, same) q;
  incomplete = omega arith;
}

handle_packet-IsStream : (now : ℕ) (s : Elan) → IsStream s → IsStream (handle_packet now s)
handle_packet-IsStream now s h =
    let (ring, same, bytes) = handle_packet-kept now s in
    framed-IsStream s.packet_length (advance_tail ring_size s.packet_length s.ring)
      (handle_packet now s) h.size
      (advance_tail-IsFramed ring_size s.packet_length s.ring (fits h.size) (framed h)) ring same
      (omega (arith, h, bytes))

advance_tail-kept :
    (n : ℕ) (r : Ring)
    → ((advance_tail ring_size n r).head ≡ r.head) × ((advance_tail ring_size n r).cells ≡ r.cells)
unfolding advance_tail
advance_tail-kept n r = (refl, refl)

abbrev IsEmptied : Elan → Elan → Type 0
IsEmptied s t =
    IsStream t
    × (count ring_size t.ring ≡ 0)
    × (t.packet_byte_count ≡ s.packet_byte_count)
    × (t.ring.head ≡ s.ring.head)
    × (t.ring.cells ≡ s.ring.cells)

packet_loop-IsEmptied :
    (fuel : ℕ) (clock : ℕ → ℕ) (s : Elan)
    → IsStream s
    → count ring_size s.ring < 4 * fuel
    → IsEmptied s (packet_loop fuel clock s)
unfolding packet_loop
packet_loop-IsEmptied zero clock s h few = absurd (omega arith)
packet_loop-IsEmptied (suc fuel) clock s h few =
    elim (Bool-cases (leb s.packet_length (count ring_size s.ring))) [
      | inl more ↦ rw more (
          let (ring, same, bytes) = handle_packet-kept (clock fuel) s in
          let less =
            count-advance_tail ring_size s.packet_length s.ring (fits h.size) (framed h)
              (ground (arith, more)) in
          let rest =
            packet_loop-IsEmptied fuel clock (handle_packet (clock fuel) s)
              (handle_packet-IsStream (clock fuel) s h)
              (omega (arith, less, h.size, ap (count ring_size) ring)) in
          let (same_head, same_cells) = advance_tail-kept s.packet_length s.ring in
          (
            rest.0,
            rest.1,
            rest.2 ∙ bytes,
            rest.3 ∙ ap (λ (r : Ring). r.head) ring ∙ same_head,
            rest.4 ∙ ap (λ (r : Ring). r.cells) ring ∙ same_cells,
          ))
      | inr stop ↦ rw stop (
        h,
        nothing_left ring_size s.packet_length s.ring (fits h.size) (framed h)
            (ground (arith, stop)),
        refl,
        refl,
        refl,
      )
    ]

-- The work loop ends with an empty ring, and keeps the bytes of the packet under way.
drain-IsEmptied : (clock : ℕ → ℕ) (s : Elan) → IsStream s → IsEmptied s (drain clock s)
unfolding drain
drain-IsEmptied clock s h =
    packet_loop-IsEmptied 49 clock s h (omega (arith, count-lt ring_size s.ring h.is_ring))

-- What happens to the driver: a byte arrives, or the work loop runs.
pub data Event : Type 0 where
  byte : ℕ → Event
  work : (ℕ → ℕ) → Event

unfoldable pub run : List Event → Elan → Elan
run [] s = s
run (byte x ∷ es) s = run es (interrupt_occurred x s).0
run (work clock ∷ es) s = run es (drain clock s)

-- However bytes and runs of the work loop alternate, and however late the loop runs, the offsets of
-- the ring stay at packet boundaries inside the array and the packet under way stays incomplete; a
-- last run of the work loop empties the ring and leaves the packet under way: its place, the count of
-- its bytes and every cell of the array. A write of a version 4 packet behind the array of fingers counts
-- as no write.
pub run-IsStream :
    (es : List Event) (clock : ℕ → ℕ) (s : Elan)
    → IsStream s
    → let t = run es s in
      let u = drain clock t in
      IsStream t
      × IsStream u
      × (count ring_size u.ring ≡ 0)
      × (u.packet_byte_count ≡ t.packet_byte_count)
      × (u.ring.head ≡ t.ring.head)
      × (u.ring.cells ≡ t.ring.cells)
unfolding run
run-IsStream [] clock s h =
    let emptied = drain-IsEmptied clock s h in
    (h, emptied.0, emptied.1, emptied.2, emptied.3, emptied.4)
run-IsStream (byte x ∷ es) clock s h =
    run-IsStream es clock (interrupt_occurred x s).0 (interrupt_occurred-IsStream x s h)
run-IsStream (work c ∷ es) clock s h = run-IsStream es clock (drain c s) (drain-IsEmptied c s h).0
