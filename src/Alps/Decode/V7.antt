-- ===== src/Alps/Decode/V7.antt =====
-- The decoder of version 7 (VoodooPS2Trackpad/VoodooPS2ALPSGlidePoint.cpp): alps_get_packet_id_v7,
-- alps_get_finger_coordinate_v7, alps_get_mt_count and alps_decode_packet_v7.
use voodoo_ps2_focal_tech.Common.{
  ℕ, ◌+◌, ◌*◌, ◌/◌, ◌^◌, List, [], ◌∷◌, Bool, true, false, not, ◌&&◌, ◌||◌, if◌then◌else◌, ◌==◌,
  get_or, set, bit_or, bit_set, sub32, clear_bit,
}
use voodoo_ps2_focal_tech.Alps.{Alps, Fields, Position, nowhere, byte, field, is_buttonpad}

-- V7_PACKET_ID_*.
pub data PacketId : Type 0 where
  idle two multi new unknown : PacketId

unfoldable pub packet_id : List ℕ → PacketId
packet_id p =
    if bit_set (byte p 4) 6
    then two
    else if bit_set (byte p 4) 0
    then multi
    else if bit_set (byte p 0) 4
        && not (bit_set (byte p 4) 0 || bit_set (byte p 4) 1 || bit_set (byte p 4) 6)
    then new
    else if byte p 1 == 0 && byte p 4 == 0
    then idle
    else unknown

abbrev pub first_finger : List ℕ → Position
first_finger p = record {
  x =
      bit_or
        (bit_or (bit_or (field (byte p 2) 7 1 * 0x800) (field (byte p 2) 0 6 * 32))
          (field (byte p 3) 4 2 * 8))
        (field (byte p 3) 0 3);
  y = bit_or (byte p 1 * 8) (field (byte p 0) 0 3);
}

abbrev pub second_finger : List ℕ → Position
second_finger p = record {
  x =
      bit_or (bit_or (field (byte p 3) 7 1 * 0x800) (field (byte p 4) 7 1 * 0x400))
        (field (byte p 4) 0 6 * 16);
  y = bit_or (field (byte p 5) 7 1 * 0x400) (field (byte p 5) 0 6 * 16);
}

-- `x & ~(2^k - 1)`.
abbrev pub clear_low : ℕ → ℕ → ℕ
clear_low x k = x / 2 ^ k * 2 ^ k

-- The bits of the second finger that the kind of packet does not hold.
unfoldable pub complete_second : PacketId → List ℕ → Position → Position
complete_second two p q =
    let y = bit_or q.y 0xf in
    record { x = if y == 0x7ff && clear_low q.x 4 == 0xff0 then 0 else clear_low q.x 4; y = y }
complete_second multi p q = record {
  x = clear_low q.x 6;
  y = bit_or (bit_or (clear_bit q.y 5) (field (byte p 4) 1 1 * 32)) 0x1f;
}
complete_second new p q = record {
  x = bit_or (clear_low q.x 6) (field (byte p 0) 5 1 * 32);
  y = bit_or q.y 0xf;
}
complete_second idle p q = q
complete_second unknown p q = q

abbrev pub turn_y : Position → Position
turn_y p = record p { y = sub32 0x7ff p.y }

unfoldable pub finger_coordinates : PacketId → List ℕ → List Position → List Position
finger_coordinates id p mt =
    set (set mt 0 (turn_y (first_finger p))) 1 (turn_y (complete_second id p (second_finger p)))

unfoldable pub mt_count : List Position → ℕ
mt_count [] = 0
mt_count (p ∷ mt) = (if not (p.x == 0) || not (p.y == 0) then 1 else 0) + mt_count mt

abbrev pub is_two : PacketId → Bool
is_two two = true
is_two _ = false

-- A single touch that is reported as the second one is moved to the first.
unfoldable pub move_single : Fields → Fields
move_single f =
    let p = get_or f.mt 0 nowhere in
    if f.fingers == 1 && p.x == 0 && p.y == 0
    then record f { mt = set (set f.mt 0 (get_or f.mt 1 nowhere)) 1 nowhere }
    else f

unfoldable pub decode_touch_v7 : Alps → PacketId → List ℕ → Fields → Fields
decode_touch_v7 s id p f =
    let mt = finger_coordinates id p f.mt in
    let fingers = if is_two id then mt_count mt else 3 + field (byte p 5) 0 2 in
    let placed = record f { mt = mt; left = bit_set (byte p 0) 7 } in
    move_single (
      if is_buttonpad s
      then record placed {
        fingers =
            fingers
            + (if bit_set (byte p 0) 5 then 1 else 0)
            + (if bit_set (byte p 0) 4 then 1 else 0);
      }
      else record placed {
        fingers = fingers;
        right = bit_set (byte p 0) 5;
        middle = bit_set (byte p 0) 4;
      })

unfoldable pub decode_packet_v7 : Alps → List ℕ → Fields → Bool × Fields
decode_packet_v7 s p f = elim (packet_id p) [
  | idle ↦ (true, f)
  | unknown ↦ (false, f)
  | new ↦ (false, f)
  | two ↦ (true, decode_touch_v7 s two p f)
  | multi ↦ (true, decode_touch_v7 s multi p f)
]
