-- ===== src/Keyboard/Repeat.antt =====
-- The makes and breaks of one key among the packets that the ring takes in.
use mathlib.Core.Path.{subst}
use voodoo_ps2_focal_tech.Common.{
  ℕ, ◌+◌, ◌-◌, ◌≤◌, ◌<◌, ◌≢◌, ltb, sym, ◌∙◌, if_then, if_else, ◌≡◌, inl, inr, refl, arith, List, [],
  ◌∷◌, Bool, true, false, not, ◌==◌, if◌then◌else◌, Option, none, some, bit_set, get_or, u8,
  Bool-cases, ◌&&◌, ◌||◌, length,
}
use voodoo_ps2_focal_tech.Ring.{
  Ring, count, count_between, write_at_head, advance_head, advance_tail,
}
use voodoo_ps2_focal_tech.Keyboard.{
  ring_size, packet_length, Keyboard, interrupt_occurred, packetize, buffer_packet, key_code_raw,
  is_key_down, key_down, key_up, is_breakless,
}
use voodoo_ps2_focal_tech.Keyboard.Held.{is_key_down-key_down, is_key_down-key_up}
use voodoo_ps2_focal_tech.Keyboard.Packets.{
  IsStream, IsFramed, buffer_packet-bytes, interrupt_occurred-IsStream, write_time-ends,
  advance_tail-IsFramed,
}

-- The packet that a byte completed: a make (true) or a break of `key`.
unfoldable pub reported : ℕ → Keyboard × Bool → ℕ → Option Bool
reported key (m, ready) head =
    let a = get_or m.ring.cells head 0 in
    let b = get_or m.ring.cells (head + 1) 0 in
    if ready && (not (a == 0) && key_code_raw (a - 1) b == key)
    then some (not (bit_set b 7))
    else none

unfoldable pub prepend : Option Bool → List Bool → List Bool
prepend none events = events
prepend (some e) events = e ∷ events

-- What happens to the ring: a byte arrives with its time, or the work loop takes a packet off.
pub data Event : Type 0 where
  byte : ℕ → ℕ → Event
  taken : Event

-- The `advanceTail` with which packetReady drops a packet.
unfoldable pub take_packet : Keyboard → Keyboard
take_packet m = record m { ring = advance_tail ring_size packet_length m.ring }

-- The packet that a byte completed, if the ring took it in: a refused one does not move the head.
abbrev queued_one : ℕ → Keyboard × Bool → ℕ → Option Bool
queued_one key next head = if next.0.ring.head == head then none else reported key next head

-- The makes and breaks of `key` that the ring takes in.
unfoldable pub queued : ℕ → List Event → Keyboard → List Bool
queued key [] m = []
queued key (byte time x ∷ rest) m =
    let next = interrupt_occurred time x m in
    prepend (queued_one key next m.ring.head) (queued key rest next.0)
queued key (taken ∷ rest) m = queued key rest (take_packet m)

-- Each byte finds room for a packet.
unfoldable pub has_room : List Event → Keyboard → Bool
has_room [] m = true
has_room (byte time x ∷ rest) m =
    ltb (count ring_size m.ring + packet_length) ring_size
    && has_room rest (interrupt_occurred time x m).0
has_room (taken ∷ rest) m = has_room rest (take_packet m)

-- No make while the key is down.
unfoldable pub IsAlternating : Bool → List Bool → Type 0
IsAlternating down [] = true ≡ true
IsAlternating down (true ∷ rest) = (down ≡ false) × IsAlternating true rest
IsAlternating down (false ∷ rest) = IsAlternating false rest

-- How one byte moves the state of a key.
Moves : Bool → Option Bool → Bool → Type 0
Moves before none after = after ≡ before
Moves before (some true) after = (before ≡ false) × (after ≡ true)
Moves before (some false) after = after ≡ false

flags-kept : (time x : ℕ) (m : Keyboard) → (interrupt_occurred time x m).0.ps2_flags ≡ m.ps2_flags
unfolding interrupt_occurred packetize
flags-kept time x m = ground arith

reported-buffered :
    (key time a b : ℕ) (m n : Keyboard)
    → IsFramed m.ring
    → n.ring ≡ buffer_packet time a b m.ring
    → reported key (n, true) m.ring.head
      ≡ (if not (a == 0) && key_code_raw (a - 1) b == key then some (not (bit_set b 7)) else none)
unfolding reported
reported-buffered key time a b m n h e =
    let (first, second) = buffer_packet-bytes time a b m.ring h in rw (e, first, second) refl

reported-quiet : (key : ℕ) (m : Keyboard) (head : ℕ) → reported key (m, false) head ≡ none
unfolding reported
reported-quiet key m head = refl

not_ready :
    (key : ℕ) (next : Keyboard × Bool) (head : ℕ) → next.1 ≡ false → reported key next head ≡ none
unfolding reported
not_ready key (m, ready) head e = rw e refl

code-inverse : (extended x : ℕ) → extended ≤ 1 → u8 (extended + 1) - 1 ≡ extended
code-inverse extended x h = omega arith

finished_report :
    (key time extended x : ℕ) (m : Keyboard) (v : List ℕ)
    → IsFramed m.ring
    → extended ≤ 1
    → reported key
        (
          record m { key_bit_vector = v; ring = buffer_packet time (u8 (extended + 1)) x m.ring },
          true,
        )
        m.ring.head
      ≡ (if key_code_raw extended x == key then some (not (bit_set x 7)) else none)
finished_report key time extended x m v h le =
    rw
      (reported-buffered key time (u8 (extended + 1)) x m
        (record m { key_bit_vector = v; ring = buffer_packet time (u8 (extended + 1)) x m.ring }) h
        refl)
      (ground arith)

packetize-Moves :
    (key time extended x : ℕ) (m : Keyboard)
    → IsFramed m.ring
    → length m.key_bit_vector ≡ 16
    → extended ≤ 1
    → is_breakless key m ≡ false
    → Moves
        (is_key_down key m.key_bit_vector)
        (reported key (packetize time extended x m) m.ring.head)
        (is_key_down key (packetize time extended x m).0.key_bit_vector)
unfolding packetize Moves
packetize-Moves key time extended x m h units le plain =
    let code = key_code_raw extended x in
    let v = m.key_bit_vector in
    let report = λ (w : List ℕ). finished_report key time extended x m w h le in
    elim (Bool-cases (is_breakless code m)) [
      | inl breakless ↦ rw (breakless, report v) (ground arith)
      | inr ordinary ↦ elim (Bool-cases (bit_set x 7)) [
        | inl up ↦
            rw
              (
                ordinary,
                up,
                report (key_up code v),
                up,
                is_key_down-key_up v code key (omega arith),
              )
              (ground arith)
        | inr down ↦ elim (Bool-cases (is_key_down code v)) [
          | inl held ↦ rw (ordinary, down, held, reported-quiet key m m.ring.head) refl
          | inr free ↦
              rw
                (
                  ordinary,
                  down,
                  free,
                  report (key_down code v),
                  down,
                  is_key_down-key_down v code key (omega arith),
                )
                (ground arith)
        ]
      ]
    ]

interrupt_occurred-Moves :
    (key time x : ℕ) (m : Keyboard)
    → IsStream m
    → is_breakless key m ≡ false
    → Moves
        (is_key_down key m.key_bit_vector)
        (reported key (interrupt_occurred time x m) m.ring.head)
        (is_key_down key (interrupt_occurred time x m).0.key_bit_vector)
unfolding interrupt_occurred Moves
interrupt_occurred-Moves key time x m h plain =
    let seen = record m { last_data = x } in
    let finished = record seen { extend_count = m.extend_count - 1 } in
    let quiet = λ (n : Keyboard). reported-quiet key n m.ring.head in
    elim (Bool-cases (m.last_data == 0xaa && x == 0)) [
      | inl reset ↦
          rw
            (
              reset,
              reported-buffered key time 0 0xaa m
                  (record m { ring = buffer_packet time 0 0xaa m.ring; extend_count = 0 }) h.framed
                  refl,
            )
            refl
      | inr usual ↦ elim (Bool-cases (x == 0xfa || x == 0xfe)) [
        | inl error ↦ rw (usual, error, quiet seen) refl
        | inr code ↦ elim (Bool-cases (x == 0xe0)) [
          | inl one ↦ rw (usual, code, one, quiet (record seen { extend_count = 1 })) refl
          | inr no_e0 ↦ elim (Bool-cases (x == 0xe1)) [
            | inl two ↦ rw (usual, code, no_e0, two, quiet (record seen { extend_count = 2 })) refl
            | inr no_e1 ↦ elim (Bool-cases (m.extend_count == 0 || m.extend_count == 1)) [
              | inl last ↦
                  rw (usual, code, no_e0, no_e1, last)
                    (packetize-Moves key time m.extend_count x finished h.framed h.units
                      (ground arith) plain)
              | inr more ↦ rw (usual, code, no_e0, no_e1, more, quiet finished) refl
            ]
          ]
        ]
      ]
    ]

alternates :
    (before : Bool) (e : Option Bool) (after : Bool) (rest : List Bool)
    → Moves before e after
    → IsAlternating after rest
    → IsAlternating before (prepend e rest)
unfolding prepend IsAlternating Moves
alternates before none after rest moved h = subst (λ b. IsAlternating b rest) moved h
alternates before (some true) after rest (up, down) h =
    (up, subst (λ b. IsAlternating b rest) down h)
alternates before (some false) after rest up h = subst (λ b. IsAlternating b rest) up h

-- A packet that is offered to a ring with room moves its head.
buffer_packet-head :
    (time a b : ℕ) (r : Ring)
    → IsFramed r
    → count ring_size r + packet_length < ring_size
    → (buffer_packet time a b r).head ≢ r.head
unfolding buffer_packet advance_head write_at_head count count_between
buffer_packet-head time a b r h room =
    let (same_head, same_tail) =
      write_time-ends 8 8 time (write_at_head 1 b (write_at_head 0 a r)) in
    ground (arith, h.is_ring, room, same_head, same_tail)

ready-head :
    (time x : ℕ) (m : Keyboard)
    → IsStream m
    → count ring_size m.ring + packet_length < ring_size
    → (interrupt_occurred time x m).1 ≡ true
    → (interrupt_occurred time x m).0.ring.head ≢ m.ring.head
unfolding interrupt_occurred packetize
ready-head time x m h room ready = ground (
  arith,
  ready,
  buffer_packet-head time 0 0xaa m.ring h.framed room,
  buffer_packet-head time (u8 (m.extend_count + 1)) x m.ring h.framed room,
)

queued_one-reported :
    (key time x : ℕ) (m : Keyboard)
    → IsStream m
    → count ring_size m.ring + packet_length < ring_size
    → queued_one key (interrupt_occurred time x m) m.ring.head
      ≡ reported key (interrupt_occurred time x m) m.ring.head
queued_one-reported key time x m h room =
    let next = interrupt_occurred time x m in
    elim (Bool-cases (next.0.ring.head == m.ring.head)) [
      | inr moved ↦
          if_else (next.0.ring.head == m.ring.head) none (reported key next m.ring.head) moved
      | inl still ↦ elim (Bool-cases next.1) [
        | inl ready ↦ absurd (ready-head time x m h room ready (ground (arith, still)))
        | inr buffering ↦
            if_then (next.0.ring.head == m.ring.head) none (reported key next m.ring.head) still
            ∙ sym (not_ready key next m.ring.head buffering)
      ]
    ]

take_packet-IsStream : (m : Keyboard) → IsStream m → IsStream (take_packet m)
unfolding take_packet
take_packet-IsStream m h = record {
  framed = advance_tail-IsFramed m.ring h.framed;
  units = h.units;
  extend_low = h.extend_low;
}

take_packet-kept :
    (m : Keyboard)
    → ((take_packet m).key_bit_vector ≡ m.key_bit_vector)
      × ((take_packet m).ps2_flags ≡ m.ps2_flags)
unfolding take_packet
take_packet-kept m = (refl, refl)

-- Whatever bytes arrive at whatever times, and whenever the work loop takes packets off the ring, as long as
-- each byte finds room for a packet: the packets that the ring takes in never hold a make of a key that has
-- a break code while the key is down, so that between two makes of the key there is a break of it.
pub events-IsAlternating :
    (key : ℕ) (es : List Event) (m : Keyboard)
    → IsStream m
    → is_breakless key m ≡ false
    → has_room es m ≡ true
    → IsAlternating (is_key_down key m.key_bit_vector) (queued key es m)
unfolding queued IsAlternating has_room
events-IsAlternating key [] m h plain room = refl
events-IsAlternating key (byte time x ∷ rest) m h plain room =
    let next = interrupt_occurred time x m in
    let here : count ring_size m.ring + packet_length < ring_size = ground (arith, room) in
    let later : has_room rest next.0 ≡ true = ground (arith, room) in
    alternates (is_key_down key m.key_bit_vector) (queued_one key next m.ring.head)
      (is_key_down key next.0.key_bit_vector) (queued key rest next.0)
      (subst
        (λ e. Moves (is_key_down key m.key_bit_vector) e (is_key_down key next.0.key_bit_vector))
        (sym (queued_one-reported key time x m h here))
        (interrupt_occurred-Moves key time x m h plain))
      (events-IsAlternating key rest next.0 (interrupt_occurred-IsStream time x m h)
        (rw (flags-kept time x m) plain) later)
events-IsAlternating key (taken ∷ rest) m h plain room =
    let (same, flags) = take_packet-kept m in
    subst (λ v. IsAlternating (is_key_down key v) (queued key rest (take_packet m))) same
      (events-IsAlternating key rest (take_packet m) (take_packet-IsStream m h) (rw flags plain)
        room)
