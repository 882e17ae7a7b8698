-- ===== src/Alps/Stream/Receive.antt =====
-- The stream when packetReady runs as soon as a packet is ready.
use voodoo_ps2_focal_tech.Common.{
  ℕ, zero, suc, ◌+◌, ◌%◌, ◌≤◌, ◌<◌, ◌≡◌, ◌⊎◌, ◌≢◌, u32, get_or-set_self, get_or-set_ne, set,
  bit_and, refl, contrary, sym, ap, ◌∙◌, arith, List, Bool, true, false, not, ◌&&◌, ◌||◌, ◌==◌,
  if◌then◌else◌, leb, Bool-cases, inl, inr, length-set, length,
}
use voodoo_ps2_focal_tech.Ring.{
  Ring, IsRing, count, write_at_head, advance_head, advance_tail, count_between,
}
use voodoo_ps2_focal_tech.Alps.{Alps, Fields, Outside, proto_v8}
use voodoo_ps2_focal_tech.Alps.Stream.{
  ring_size, interrupt_occurred, InterruptResult, packet_ready, packet_buffering, is_bare, is_bad,
  store, give_up, finish_slot, handle_packet, packet_loop, drain, process_packet, packet_from,
  packet_at,
}
use voodoo_ps2_focal_tech.Alps.Stream.Steady.{IsSteady, process_packet-IsSteady}

-- The ring is empty at the start of a slot, and the packet under way is incomplete; if it begins like
-- a bare one, it has three bytes at most.
pub record IsStream (s : Alps) : Type 0 where
  pub is_ring : IsRing ring_size s.ring
  pub empty : s.ring.head ≡ s.ring.tail
  pub aligned : s.ring.head % s.pktsize ≡ 0
  pub size : (s.pktsize ≡ 6) ⊎ (s.pktsize ≡ 8)
  pub incomplete : s.packet_byte_count < s.pktsize
  pub bare_short : is_bare s s.ring ≡ true → s.packet_byte_count ≤ 3

-- One slot waits: it begins at the tail, and the head stands behind it.
record IsReady (s : Alps) : Type 0 where
  is_ring : IsRing ring_size s.ring
  aligned : s.ring.tail % s.pktsize ≡ 0
  size : (s.pktsize ≡ 6) ⊎ (s.pktsize ≡ 8)
  one_slot : s.ring.head ≡ (s.ring.tail + s.pktsize) % 192

-- packetReady runs when the interrupt says so.
abbrev pub answer : Outside → Fields → Alps × InterruptResult → Alps
answer e f (t, packet_ready) = drain e f t
answer e f (t, packet_buffering) = t

abbrev pub receive : Outside → Fields → ℕ → Alps → Alps
receive e f x s = answer e f (interrupt_occurred x s)

answer-if :
    (e : Outside) (f : Fields) (b : Bool) (x y : Alps × InterruptResult)
    → (b ≡ true → IsStream (answer e f x))
    → (b ≡ false → IsStream (answer e f y))
    → IsStream (answer e f (if b then x else y))
answer-if e f true x y h g = h refl
answer-if e f false x y h g = g refl

freed-IsStream :
    (n : ℕ) (r : Ring) (t : Alps)
    → IsRing ring_size r
    → r.tail % n ≡ 0
    → (n ≡ 6) ⊎ (n ≡ 8)
    → r.head ≡ (r.tail + n) % 192
    → t.ring ≡ advance_tail ring_size n r
    → t.pktsize ≡ n
    → t.packet_byte_count ≡ 0
    → IsStream t
unfolding advance_tail
freed-IsStream n r t h aligned size one_slot ring pktsize none_yet = record {
  is_ring = rw ring (ground (arith, h, size));
  empty = rw ring (ground (arith, h, size, one_slot));
  aligned = rw (ring, pktsize) (ground (arith, h, size, one_slot, aligned));
  size = ground (arith, size, pktsize);
  incomplete = ground (arith, size, pktsize, none_yet);
  bare_short = λ bare. omega (arith, none_yet);
}

handled-IsSteady :
    (b : Bool) (e : Outside) (f : Fields) (p : List ℕ) (s : Alps)
    → IsSteady s (if b then s else process_packet e f p s)
handled-IsSteady true e f p s = (refl, refl)
handled-IsSteady false e f p s = process_packet-IsSteady e f p s

handle_packet-IsStream :
    (e : Outside) (f : Fields) (s : Alps) → IsReady s → IsStream (handle_packet e f s)
unfolding handle_packet
handle_packet-IsStream e f s h =
    let p = packet_from s.pktsize 0 s.ring in
    let (ring, pktsize) = handled-IsSteady (s.bad_data || s.ignoreall) e f p s in
    let handled = if s.bad_data || s.ignoreall then s else process_packet e f p s in
    freed-IsStream s.pktsize s.ring (handle_packet e f s) h.is_ring h.aligned h.size h.one_slot
      (ap (λ n. advance_tail ring_size n handled.ring) pktsize
        ∙ ap (advance_tail ring_size s.pktsize) ring)
      pktsize refl

packet_loop-IsStream :
    (fuel : ℕ) (e : Outside) (f : Fields) (s : Alps) → IsStream s → packet_loop fuel e f s ≡ s
unfolding packet_loop count count_between
packet_loop-IsStream zero e f s h = refl
packet_loop-IsStream (suc fuel) e f s h =
    let none_left : leb s.pktsize (count ring_size s.ring) ≡ false =
      ground (arith, h, h.empty, h.size) in
    rw none_left refl

loop-IsStream :
    (fuel : ℕ) (e : Outside) (f : Fields) (s : Alps)
    → IsReady s
    → IsStream (packet_loop (suc fuel) e f s)
unfolding packet_loop count count_between
loop-IsStream fuel e f s h =
    let waits : leb s.pktsize (count ring_size s.ring) ≡ true =
      ground (arith, h, h.is_ring, h.size) in
    let next = handle_packet-IsStream e f s h in
    rw (waits, packet_loop-IsStream fuel e f (handle_packet e f s) next) next

drain-IsStream : (e : Outside) (f : Fields) (s : Alps) → IsReady s → IsStream (drain e f s)
unfolding drain
drain-IsStream e f s h = loop-IsStream 191 e f s h

-- A slot that is passed on: its bytes are written, and no byte is outside it.
passed-IsReady :
    (n : ℕ) (r : Ring) (t : Alps)
    → IsRing ring_size r
    → r.head ≡ r.tail
    → r.head % n ≡ 0
    → (n ≡ 6) ⊎ (n ≡ 8)
    → t.ring ≡ advance_head ring_size n r
    → t.pktsize ≡ n
    → IsReady t
unfolding advance_head count count_between
passed-IsReady n r t h empty aligned size ring pktsize = record {
  is_ring = rw ring (ground (arith, h, size));
  aligned = rw (ring, pktsize) (ground (arith, h, empty, aligned, size));
  size = ground (arith, size, pktsize);
  one_slot = rw (ring, pktsize) (ground (arith, h, empty, aligned, size));
}

written-IsRing : (k x : ℕ) (r : Ring) → IsRing ring_size r → IsRing ring_size (write_at_head k x r)
unfolding write_at_head
written-IsRing k x r h = ground (arith, h, length-set r.cells (r.head + k) x)

-- The first byte of the packet under way, before a byte is stored and after.
abbrev begin : ℕ → Alps → Ring
begin x s = if s.packet_byte_count == 0 then write_at_head 0 x s.ring else s.ring

begin-kept :
    (x : ℕ) (s : Alps)
    → IsStream s
    → IsRing ring_size (begin x s)
      × ((begin x s).head ≡ s.ring.head)
      × ((begin x s).tail ≡ s.ring.tail)
      × (packet_at 0 (write_at_head s.packet_byte_count x (begin x s)) ≡ packet_at 0 (begin x s))
      × (s.packet_byte_count ≢ 0 → begin x s ≡ s.ring)
unfolding write_at_head
begin-kept x s h = elim (Bool-cases (s.packet_byte_count == 0)) [
  | inl first ↦
      let none_yet : s.packet_byte_count ≡ 0 = ground (arith, first) in
      let cells = set s.ring.cells (s.ring.head + 0) x in
      let here : s.ring.head + 0 < length s.ring.cells =
        omega (arith, h.is_ring, h.is_ring.head_in, h.is_ring.size) in
      rw (first, none_yet)
        (
          unfold write_at_head in written-IsRing 0 x s.ring h.is_ring,
          refl,
          refl,
          get_or-set_self cells (s.ring.head + 0) x 0
                (omega (arith, here, length-set s.ring.cells (s.ring.head + 0) x))
              ∙ sym (get_or-set_self s.ring.cells (s.ring.head + 0) x 0 here),
          λ more. absurd (more refl),
        )
  | inr later ↦ rw later (
    h.is_ring,
    refl,
    refl,
    get_or-set_ne s.ring.cells (s.ring.head + s.packet_byte_count) (s.ring.head + 0) x 0
        (λ e. ground (arith, later, e)),
    λ more. refl,
  )
]

-- A byte that is stored without completing the packet.
stored-IsStream :
    (x : ℕ) (s : Alps)
    → IsStream s
    → suc s.packet_byte_count < s.pktsize
    → (is_bare s (begin x s) ≡ true → s.packet_byte_count < 3)
    → IsStream (store x s (begin x s))
stored-IsStream x s h fits bare =
    let (ring, head, tail, first, same) = begin-kept x s h in
    let r = begin x s in
    record {
      is_ring = written-IsRing s.packet_byte_count x r ring;
      empty = unfold write_at_head in (head ∙ h.empty ∙ sym tail);
      aligned = unfold write_at_head in (ap (λ n. n % s.pktsize) head ∙ h.aligned);
      size = h.size;
      incomplete = ground (arith, fits, h.size);
      bare_short = λ b. ground (
        arith,
        fits,
        h.size,
        bare
            (ap (λ c. not (s.proto_version == proto_v8) && bit_and c 0xc8 == 0x08) (sym first) ∙ b),
      );
    }

stored-IsReady : (x : ℕ) (s : Alps) → IsStream s → IsReady (finish_slot (store x s (begin x s)))
stored-IsReady x s h =
    let (ring, head, tail, first, same) = begin-kept x s h in
    let r = write_at_head s.packet_byte_count x (begin x s) in
    passed-IsReady s.pktsize r (finish_slot (store x s (begin x s)))
      (written-IsRing s.packet_byte_count x (begin x s) ring)
      (unfold write_at_head in (head ∙ h.empty ∙ sym tail))
      (unfold write_at_head in (ap (λ n. n % s.pktsize) head ∙ h.aligned)) h.size refl refl

given_up-IsReady : (x : ℕ) (s : Alps) → IsStream s → IsReady (give_up s (begin x s))
given_up-IsReady x s h =
    let (ring, head, tail, first, same) = begin-kept x s h in
    passed-IsReady s.pktsize (begin x s) (give_up s (begin x s)) ring (head ∙ h.empty ∙ sym tail)
      (ap (λ n. n % s.pktsize) head ∙ h.aligned) h.size refl refl

bare_three :
    (x : ℕ) (s : Alps) → IsStream s → is_bare s (begin x s) ≡ true → s.packet_byte_count ≤ 3
bare_three x s h bare = elim (Bool-cases (s.packet_byte_count == 0)) [
  | inl first ↦ ground (arith, first)
  | inr later ↦
      h.bare_short
        (ap (is_bare s) (sym ((begin-kept x s h).4 (λ e. ground (arith, later, e)))) ∙ bare)
]

-- If packetReady runs as soon as a packet is ready, then after each byte, whatever it is and whatever
-- the handlers do, the ring is empty at the start of a slot again and fewer bytes than a packet are
-- kept, if this was so before.
pub receive-IsStream :
    (e : Outside) (f : Fields) (x : ℕ) (s : Alps) → IsStream s → IsStream (receive e f x s)
unfolding interrupt_occurred
receive-IsStream e f x s h =
    let r = begin x s in
    let given_up = drain-IsStream e f (give_up s r) (given_up-IsReady x s h) in
    let full = drain-IsStream e f (finish_slot (store x s r)) (stored-IsReady x s h) in
    let stored = stored-IsStream x s h in
    answer-if e f (is_bare s r) _ _
      (λ bare.
        answer-if e f (s.packet_byte_count == 3) _ _ (λ at_three. given_up)
          (λ fewer.
            stored (ground (arith, fewer, h.size, bare_three x s h bare))
              (λ b. ground (arith, fewer, bare_three x s h bare))))
      (λ own.
        answer-if e f (is_bad s r) _ _ (λ bad. given_up)
          (λ good.
            answer-if e f (u32 (s.packet_byte_count + 1) == s.pktsize) _ _ (λ last. full)
              (λ more.
                stored (ground (arith, more, h.size, h.incomplete))
                  (λ b. absurd (contrary b own)))))
