-- ===== src/FocalTech/Packet.antt =====
-- The three packet handlers of FocalTech/Source/VoodooPS2FocalTech.part03.inc: how a packet of six
-- bytes changes the hardware state.
pub mod Decode
use voodoo_ps2_focal_tech.Common.{
  ℕ, suc, ◌+◌, ◌-◌, ◌*◌, List, [], ◌∷◌, Bool, ◌&&◌, ◌||◌, false, ◌==◌, ltb, leb, if◌then◌else◌,
  bit_or, shr, low_bits, bit_set, modify, u32, sign_extend8, get_or, true, not,
}
use voodoo_ps2_focal_tech.FocalTech.{Finger, Hardware, max_fingers}

-- A packet is the six bytes at the ring's tail.
abbrev pub byte : List ℕ → ℕ → ℕ
byte packet k = get_or packet k 0

-- The body of the loop of processTouchPacket, for finger `i`.
abbrev pub set_active : ℕ → ℕ → Finger → Finger
set_active mask i f =
    let active = bit_set mask i in
    record f { active = active; valid = if active then f.valid else false }

unfoldable pub touch_fingers : ℕ → ℕ → List Finger → List Finger
touch_fingers mask i [] = []
touch_fingers mask i (f ∷ fs) = set_active mask i f ∷ touch_fingers mask (suc i) fs

unfoldable pub process_touch_packet : List ℕ → Hardware → Hardware
process_touch_packet packet h = record h {
  fingers = touch_fingers (byte packet 1) 0 h.fingers;
  pressed = bit_set (byte packet 0) 4;
}

abbrev pub set_position : ℕ → ℕ → Finger → Finger
set_position x y f = record f { x = x; y = y; valid = true }

-- `id` is `(packet[1] >> 4) - 1`: the byte's upper half is 0 for no finger.
unfoldable pub process_absolute_packet : List ℕ → Hardware → Hardware
process_absolute_packet packet h =
    let slot = shr (byte packet 1) 4 in
    let id = slot - 1 in
    if slot == 0 || leb max_fingers id then h else record h {
      pressed = bit_set (byte packet 0) 4;
      fingers = modify h.fingers id (
          set_position (bit_or (low_bits (byte packet 1) 4 * 256) (byte packet 2))
            (bit_or (byte packet 3 * 256) (byte packet 4)));
      width = shr (byte packet 5) 4;
    }

-- `fingers[i].x += static_cast<SInt8>(dx)`, and so for y.
abbrev pub move_by : ℕ → ℕ → Finger → Finger
move_by dx dy f = record f { x = u32 (f.x + sign_extend8 dx); y = u32 (f.y + sign_extend8 dy) }

-- One half of a relative packet; `slot` is the finger's number, from 1.
unfoldable pub move_slot : ℕ → ℕ → ℕ → List Finger → List Finger
move_slot slot dx dy fs =
    if not (slot == 0) && ltb (slot - 1) max_fingers
    then modify fs (slot - 1) (move_by dx dy)
    else fs

unfoldable pub process_relative_packet : List ℕ → Hardware → Hardware
process_relative_packet packet h =
    let first = low_bits (shr (byte packet 0) 4) 3 in
    let second = low_bits (shr (byte packet 3) 4) 3 in
    let moved = move_slot first (byte packet 1) (byte packet 2) h.fingers in
    record h {
      pressed = not (shr (byte packet 0) 7 == 0);
      fingers = move_slot second (byte packet 4) (byte packet 5) moved;
    }
