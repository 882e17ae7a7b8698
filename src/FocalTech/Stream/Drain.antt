-- ===== src/FocalTech/Stream/Drain.antt =====
-- A run of `packetReady`.
use voodoo_ps2_focal_tech.Common.{
  ℕ, ◌+◌, ◌≤◌, ◌<◌, ◌≡◌, refl, ◌∙◌, arith, List, [], ◌∷◌, ◌++◌, length, All,
}
use voodoo_ps2_focal_tech.Ring.{Ring, count, advance_tail, read_at_tail}
use voodoo_ps2_focal_tech.Ring.Window.{window}
use voodoo_ps2_focal_tech.Ring.Queue.{contents-advance_tail}
use voodoo_ps2_focal_tech.FocalTech.{Driver, packet_length, ring_size}
use voodoo_ps2_focal_tech.FocalTech.Report.Frame.{process_packet-SameStream}
use voodoo_ps2_focal_tech.FocalTech.Stream.{
  tail_packet, handle_packet, publish_runtime_diagnostics, u64,
}
use voodoo_ps2_focal_tech.FocalTech.Stream.Receive.{IsAligned, queued, partial}

-- The rounds of the loop, with the packets that they process.
pub data Drains : Driver → List (List ℕ) → Driver → Type 0 where
  empty : {s : Driver} → count ring_size s.ring < packet_length → Drains s [] s
  round :
      {s t : Driver} {ps : List (List ℕ)}
      → packet_length ≤ count ring_size s.ring
      → Drains (handle_packet s) ps t
      → Drains s (tail_packet s ∷ ps) t

unfoldable pub join : List (List ℕ) → List ℕ
join [] = []
join (p ∷ ps) = p ++ join ps

-- A round moves the ring's tail, and leaves the packet under way alone.
handle_packet-ring :
    (s : Driver) → (handle_packet s).ring ≡ advance_tail ring_size packet_length s.ring
unfolding handle_packet publish_runtime_diagnostics
handle_packet-ring s = ground (
  arith,
  process_packet-SameStream (tail_packet s) (record s { packet_count = u64 (s.packet_count + 1) }),
)

tail_window :
    (s : Driver)
    → IsAligned s
    → window ring_size s.ring.cells packet_length s.ring.tail ≡ tail_packet s
unfolding window tail_packet read_at_tail
tail_window s h = ground (arith, h, h.is_ring)

-- A round takes the oldest packet off the queue.
pub queued-handle_packet :
    (s : Driver)
    → IsAligned s
    → packet_length ≤ count ring_size s.ring
    → queued s ≡ tail_packet s ++ queued (handle_packet s)
queued-handle_packet s h held =
    contents-advance_tail ring_size packet_length s.ring h.is_ring (omega arith) held
    ∙ rw (tail_window s h, handle_packet-ring s) refl

abbrev Drained : Driver → Driver → Type 0
Drained s t =
    (ps : List (List ℕ)) × Drains s ps t
    × (join ps ≡ queued s)
    × All (λ p. length p ≡ 6) ps
    × IsAligned t
    × (queued t ≡ [])
    × (partial t ≡ partial s)
