-- ===== src/Sentelic/Motion.antt =====
-- A packet of the pad against an independent encoder.
use voodoo_ps2_focal_tech.Common.{
  ℕ, ◌+◌, ◌-◌, ◌*◌, ◌/◌, ◌%◌, ◌≤◌, ◌<◌, ◌≡◌, ◌⊎◌, all_below, all_below-lt, ltb, if_then, ◌∙◌,
  Bool-cases, inl, inr, refl, arith, List, [], ◌∷◌, Bool, true, not, ◌||◌, if◌then◌else◌, ◌==◌,
  bit_set, bit_and, low_bits, neg32, sub32, leb,
}
use voodoo_ps2_focal_tech.Mouse.Motion.{IsMotion, sign, join_sign}
use voodoo_ps2_focal_tech.Sentelic.{
  Sentelic, pointer, wheel, emit, buttons_of, dispatch_packet, gestures_enabled,
}

-- A packet of type `kind`: two sign bits, the sync bit and three buttons, two motions, and the turn of
-- the wheel in four bits of two's complement.
abbrev pub encode_packet : ℕ → ℕ → ℕ → ℕ → ℕ → List ℕ
encode_packet kind buttons dx dy turn =
    (kind * 64 + sign dy * 32 + sign dx * 16 + 8 + buttons)
    ∷ (dx % 256)
    ∷ (dy % 256)
    ∷ (turn % 16)
    ∷ []

-- A turn of the wheel from -8 to 7, as a pattern.
abbrev pub IsTurn : ℕ → Type 0
IsTurn z = (z < 8) ⊎ ((0xffff_fff8 ≤ z) × (z < 0x1_0000_0000))

abbrev is_turned : ℕ → Bool
is_turned n = sub32 (bit_and n 8) (low_bits n 3) == (if ltb n 8 then neg32 n else 16 - n)

turns_checked : all_below is_turned 16 ≡ true
unfolding all_below
turns_checked = refl

wheel_turn : (z : ℕ) → IsTurn z → sub32 (bit_and (z % 16) 8) (low_bits (z % 16) 3) ≡ neg32 z
wheel_turn z h =
    let fields = all_below-lt is_turned 16 (z % 16) turns_checked (omega arith) in
    let value : (if ltb (z % 16) 8 then neg32 (z % 16) else 16 - z % 16) ≡ neg32 z =
      elim (Bool-cases (ltb (z % 16) 8)) [
        | inl low ↦ rw low (ground (arith, h, low))
        | inr high ↦ rw high (ground (arith, h, high))
      ] in
    ground (arith, fields, value)

flags :
    (kind buttons dx dy : ℕ)
    → buttons < 8
    → let p0 = kind * 64 + sign dy * 32 + sign dx * 16 + 8 + buttons in
      (bit_set p0 4 ≡ leb 256 dx)
      × (bit_set p0 5 ≡ leb 256 dy)
      × (low_bits p0 3 ≡ buttons)
      × (p0 / 64 ≡ kind)
flags kind buttons dx dy h = ground arith

-- A four-byte packet is passed on as the motion that it encodes, with y turned to the screen's
-- direction, and then the turn of the wheel, reversed; its buttons are passed on unless it has type 3,
-- that of a tap, and gestures are off.
pub dispatch_packet-encode_turn :
    (kind buttons dx dy turn : ℕ) (s : Sentelic)
    → buttons < 8
    → IsMotion dx
    → IsMotion dy
    → IsTurn turn
    → s.packet_size ≡ 4
    → dispatch_packet (encode_packet kind buttons dx dy turn) s
      ≡ emit (wheel (neg32 turn)) (
          emit
            (pointer dx
              (neg32 dy)
              (if s.touch_pad_mode_byte == gestures_enabled || not (kind == 3) then buttons else 0))
            s)
unfolding dispatch_packet buttons_of
dispatch_packet-encode_turn kind buttons dx dy turn s b hx hy hz four =
    let (sign_x, sign_y, low, type) = flags kind buttons dx dy b in
    let large : (s.packet_size == 4) ≡ true = ground arith in
    if_then (s.packet_size == 4) _ _ large
    ∙ rw (sign_x, sign_y, low, type, join_sign dx hx, join_sign dy hy, wheel_turn turn hz) refl
