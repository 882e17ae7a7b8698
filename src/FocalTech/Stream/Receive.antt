-- ===== src/FocalTech/Stream/Receive.antt =====
-- The interrupt routine and its specification: bytes are cut into packets of six, a packet that is
-- complete joins a queue, and one that finds the queue full is dropped whole. The queue is the
-- ring's contents, the incomplete packet stands beyond the ring's head.
use voodoo_ps2_focal_tech.Common.{
  ℕ, suc, ◌+◌, ◌%◌, ◌<◌, ◌≡◌, refl, ◌≢◌, ◌∙◌, ap, arith, List, [], ◌∷◌, ◌++◌, ltb, ◌==◌,
  if◌then◌else◌, length, length-append, set, get_or-set_self, length-set, Bool-cases, inl, inr,
  true, false, u32,
}
use voodoo_ps2_focal_tech.Ring.{Ring, IsRing, count, write_at_head, advance_head}
use voodoo_ps2_focal_tech.Ring.Window.{window, length-window, window-set, window_snoc, offset}
use voodoo_ps2_focal_tech.Ring.Queue.{
  contents, length-contents, count-lt, contents-advance_head, advance_head_full,
  advance_head-IsRing,
}
use voodoo_ps2_focal_tech.FocalTech.{Driver, packet_length, ring_size}
use voodoo_ps2_focal_tech.FocalTech.Stream.{
  InterruptResult, packet_ready, packet_buffering, interrupt_occurred,
}

-- The ring's offsets stand between packets, and the packet under way is incomplete.
pub record IsAligned (s : Driver) : Type 0 where
  pub is_ring : IsRing ring_size s.ring
  pub head_aligned : s.ring.head % 6 ≡ 0
  pub tail_aligned : s.ring.tail % 6 ≡ 0
  pub incomplete : s.packet_byte_count < 6

-- The abstract state: the queued bytes and those of the incomplete packet.
abbrev pub queued : Driver → List ℕ
queued s = contents ring_size s.ring

unfoldable pub partial : Driver → List ℕ
partial s = window ring_size s.ring.cells s.packet_byte_count s.ring.head

pub record Received : Type 0 where
  pub queue : List ℕ
  pub started : List ℕ
  pub result : InterruptResult

-- The specification: a complete packet is queued if fewer than 31 wait.
unfoldable pub receive : ℕ → List ℕ → List ℕ → Received
receive x queue started =
    let packet = started ++ x ∷ [] in
    if length packet == packet_length
    then record {
      queue = if ltb (length queue + packet_length) ring_size then queue ++ packet else queue;
      started = [];
      result = packet_ready;
    }
    else record { queue = queue; started = packet; result = packet_buffering }

module _ (x : ℕ) (s : Driver) (h : IsAligned s) where
  -- The byte goes to a free cell.
  abbrev slot : ℕ
  slot = s.ring.head + s.packet_byte_count

  abbrev written : Ring
  written = write_at_head s.packet_byte_count x s.ring

  written-IsRing : IsRing ring_size written
  unfolding write_at_head
  written-IsRing = ground (arith, h, h.is_ring, length-set s.ring.cells slot x)

  slot-free : (m : ℕ) → m < count ring_size s.ring → offset ring_size s.ring.tail m ≢ slot
  unfolding count
  slot-free m below e = ground (arith, h, h.is_ring)

  contents-written : contents ring_size written ≡ contents ring_size s.ring
  unfolding contents write_at_head count
  contents-written =
      window-set ring_size s.ring.cells (count ring_size s.ring) s.ring.tail slot x
        h.is_ring.tail_in (omega (arith, count-lt ring_size s.ring h.is_ring)) slot-free

  partial-written :
      window ring_size written.cells (suc s.packet_byte_count) s.ring.head ≡ partial s ++ x ∷ []
  unfolding partial write_at_head
  partial-written =
      let at_end : offset ring_size s.ring.head s.packet_byte_count ≡ slot = ground (arith, h) in
      let in_ring : slot < length s.ring.cells = omega (arith, h, h.is_ring) in
      window_snoc ring_size (set s.ring.cells slot x) s.packet_byte_count s.ring.head
        h.is_ring.head_in (omega (arith, h))
      ∙ rw
          (
            at_end,
            get_or-set_self s.ring.cells slot x 0 in_ring,
            window-set ring_size s.ring.cells s.packet_byte_count s.ring.head slot x
                h.is_ring.head_in (omega (arith, h)) (λ m below e. ground (arith, h, h.is_ring)),
          )
          refl

  length-packet : length (partial s ++ x ∷ []) ≡ suc s.packet_byte_count
  unfolding partial
  length-packet = omega (
    arith,
    length-append (partial s) (x ∷ []),
    length-window ring_size s.ring.cells s.packet_byte_count s.ring.head,
  )

  abbrev advanced : Ring
  advanced = advance_head ring_size packet_length written

  count-written : count ring_size written ≡ count ring_size s.ring
  unfolding write_at_head count
  count-written = refl

  whole_packet :
      s.packet_byte_count ≡ 5
      → window ring_size written.cells packet_length written.head ≡ partial s ++ x ∷ []
  unfolding write_at_head
  whole_packet full =
      ap (λ (k : ℕ). window ring_size written.cells k s.ring.head) (omega arith) ∙ partial-written

  -- A packet that is complete joins the queue, if it fits.
  contents-advanced :
      s.packet_byte_count ≡ 5
      → contents ring_size advanced ≡ (
          if ltb (count ring_size s.ring + 6) ring_size
          then contents ring_size s.ring ++ (partial s ++ x ∷ [])
          else contents ring_size s.ring)
  contents-advanced full = elim (Bool-cases (ltb (count ring_size s.ring + 6) ring_size)) [
    | inl fits ↦ rw fits (
        contents-advance_head ring_size packet_length written written-IsRing
          (ground (arith, count-written))
        ∙ rw (contents-written, whole_packet full) refl)
    | inr no_room ↦ rw no_room (
        ap (contents ring_size) (
          advance_head_full ring_size packet_length written written-IsRing (omega arith)
            (ground (arith, count-written)) (omega arith))
        ∙ contents-written)
  ]

  advanced-aligned : (advanced.head % 6 ≡ 0) × (advanced.tail % 6 ≡ 0)
  unfolding advance_head write_at_head
  advanced-aligned = ground (arith, h, h.is_ring)

abbrev Refines : ℕ → Driver → Type 0
Refines x s =
    let (s', result) = interrupt_occurred x s in
    let spec = receive x (queued s) (partial s) in
    IsAligned s' × (queued s' ≡ spec.queue) × (partial s' ≡ spec.started) × (result ≡ spec.result)

complete : (x : ℕ) (s : Driver) → IsAligned s → s.packet_byte_count ≡ 5 → Refines x s
unfolding interrupt_occurred receive partial window
complete x s h full =
    let counted : (u32 (s.packet_byte_count + 1) == packet_length) ≡ true = ground arith in
    let spec : (length (partial s ++ x ∷ []) == packet_length) ≡ true =
      ground (arith, length-packet x s h) in
    rw (counted, spec, length-contents ring_size s.ring)
      (
        record {
          is_ring =
              advance_head-IsRing ring_size packet_length (written x s h) (written-IsRing x s h)
                (omega arith);
          head_aligned = (advanced-aligned x s h).0;
          tail_aligned = (advanced-aligned x s h).1;
          incomplete = omega arith;
        },
        contents-advanced x s h full,
        refl,
        refl,
      )

buffered : (x : ℕ) (s : Driver) → IsAligned s → s.packet_byte_count ≢ 5 → Refines x s
unfolding interrupt_occurred receive partial write_at_head
buffered x s h part =
    let counted : (u32 (s.packet_byte_count + 1) == packet_length) ≡ false = ground (arith, h) in
    let spec : (length (partial s ++ x ∷ []) == packet_length) ≡ false =
      ground (arith, length-packet x s h) in
    let stored : u32 (s.packet_byte_count + 1) ≡ suc s.packet_byte_count = omega (arith, h) in
    rw (counted, spec, stored)
      (
        record {
          is_ring = written-IsRing x s h;
          head_aligned = h.head_aligned;
          tail_aligned = h.tail_aligned;
          incomplete = omega (arith, h);
        },
        contents-written x s h,
        partial-written x s h,
        refl,
      )

-- Every received byte does to the queue and to the packet under way what the specification says,
-- with the same answer to the controller, and the offsets stay aligned.
pub interrupt_occurred-receive :
    (x : ℕ) (s : Driver)
    → IsAligned s
    → let (s', result) = interrupt_occurred x s in
      let spec = receive x (queued s) (partial s) in
      IsAligned s' × (queued s' ≡ spec.queue) × (partial s' ≡ spec.started) × (result ≡ spec.result)
interrupt_occurred-receive x s h = elim (Bool-cases (s.packet_byte_count == 5)) [
  | inl full ↦ complete x s h (ground arith)
  | inr part ↦ buffered x s h (ground arith)
]
