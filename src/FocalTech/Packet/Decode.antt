-- ===== src/FocalTech/Packet/Decode.antt =====
-- The packet handlers against an independent encoder of the FocalTech packet layout.
use voodoo_ps2_focal_tech.Common.{
  ℕ, zero, suc, ◌+◌, ◌-◌, ◌*◌, ◌/◌, ◌%◌, ◌<◌, ◌≡◌, ◌≢◌, refl, arith, List, [], ◌∷◌, Bool, false,
  if◌then◌else◌, length, get_or, modify, bit_or_fields, bit_set, ◌&&◌, leb, ◌==◌, ◌||◌, bit_or,
}
use voodoo_ps2_focal_tech.FocalTech.{Finger, Hardware, no_finger}
use voodoo_ps2_focal_tech.FocalTech.Packet.{
  process_absolute_packet, set_position, move_by, touch_fingers,
}

abbrev pub flag : Bool → ℕ
flag b = if b then 1 else 0

-- An absolute packet: type 6, the finger's number from 1, 12 bits of x, 16 of y, the width.
abbrev pub encode_absolute : ℕ → ℕ → ℕ → ℕ → Bool → List ℕ
encode_absolute id x y width pressed =
    (flag pressed * 16 + 6)
    ∷ ((id + 1) * 16 + x / 256)
    ∷ (x % 256)
    ∷ (y / 256)
    ∷ (y % 256)
    ∷ (width * 16)
    ∷ []

rejoin : (v : ℕ) → bit_or (v / 256 * 256) (v % 256) ≡ v
rejoin v = omega (arith, bit_or_fields 8 (v / 256) (v % 256) (omega arith))

-- A report of a finger's absolute position is decoded to that position, width and button state,
-- and touches no other finger.
pub process_absolute_packet-encode_absolute :
    (id x y width : ℕ) (pressed : Bool) (h : Hardware)
    → id < 5
    → x < 0x1000
    → y < 0x1_0000
    → width < 16
    → process_absolute_packet (encode_absolute id x y width pressed) h ≡ record h {
      pressed = pressed;
      fingers = modify h.fingers id (set_position x y);
      width = width;
    }
unfolding process_absolute_packet
process_absolute_packet-encode_absolute id x y width pressed h p q r w =
    let slot : ((id + 1) * 16 + x / 256) / 16 ≡ id + 1 = omega arith in
    let low : ((id + 1) * 16 + x / 256) % 16 ≡ x / 256 = omega arith in
    let number : id + 1 - 1 ≡ id = omega arith in
    let wide : width * 16 / 16 ≡ width = omega arith in
    let down : bit_set (flag pressed * 16 + 6) 4 ≡ pressed = ground arith in
    let in_range : (id + 1 == 0 || leb 5 id) ≡ false = ground arith in
    rw (slot, low, number, wide, down, rejoin x, rejoin y, in_range) refl

-- Every finger's activity is its bit of the mask, a finger that is lifted loses its position, and
-- the stored positions stay.
pub touch_fingers_lem :
    (mask i k : ℕ) (fs : List Finger)
    → k < length fs
    → let f = get_or fs k no_finger in
      get_or (touch_fingers mask i fs) k no_finger
      ≡ record f { active = bit_set mask (i + k); valid = bit_set mask (i + k) && f.valid }
unfolding touch_fingers
touch_fingers_lem mask i k [] h = elim h [ ]
touch_fingers_lem mask i zero (f ∷ fs) h =
    let first : i + 0 ≡ i = omega arith in rw first (ground arith)
touch_fingers_lem mask i (suc k) (f ∷ fs) h =
    let next : i + suc k ≡ suc i + k = omega arith in
    rw next (touch_fingers_lem mask (suc i) k fs (omega arith))

-- A relative packet: type 9, the pressed flag in the top bit, two fingers from 1 and 0 for none.
abbrev pub encode_relative : ℕ → ℕ → ℕ → ℕ → ℕ → ℕ → Bool → List ℕ
encode_relative first dx1 dy1 second dx2 dy2 pressed =
    (flag pressed * 128 + first * 16 + 9) ∷ dx1 ∷ dy1 ∷ (second * 16) ∷ dx2 ∷ dy2 ∷ []

-- The motion opposite to a signed byte other than -128.
abbrev pub opposite : ℕ → ℕ
opposite d = (256 - d) % 256

-- A motion and the one opposite to it bring a finger back to where it was, on 32-bit coordinates.
pub move_back :
    (dx dy : ℕ) (f : Finger)
    → dx < 256
    → dy < 256
    → dx ≢ 128
    → dy ≢ 128
    → f.x < 0x1_0000_0000
    → f.y < 0x1_0000_0000
    → move_by (opposite dx) (opposite dy) (move_by dx dy f) ≡ f
move_back dx dy f p q n m x y = ground arith
