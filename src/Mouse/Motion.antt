-- ===== src/Mouse/Motion.antt =====
-- Decoding a mouse packet against an independent encoder, and the middle button over two packets.
use voodoo_ps2_focal_tech.Common.{
  ℕ, ◌+◌, ◌*◌, ◌%◌, ◌≤◌, ◌<◌, ◌≡◌, ◌⊎◌, refl, arith, List, [], ◌∷◌, false, if◌then◌else◌, bit_or,
  low_bits, bit_set, bit_or_fields, Bool-cases, inl, inr, u32, neg32, leb, ltb,
}
use voodoo_ps2_focal_tech.Mouse.{
  Source, from_mouse, Mouse, pointer, send, middle_button, dispatch_packet,
}

-- A motion of nine bits: from 0 to 255, or from -256 to -1 as a pattern.
abbrev pub IsMotion : ℕ → Type 0
IsMotion d = (d < 256) ⊎ ((0xffff_ff00 ≤ d) × (d < 0x1_0000_0000))

abbrev pub sign : ℕ → ℕ
sign d = if leb 256 d then 1 else 0

-- A three-byte packet: sign bits, the sync bit and three buttons, then the two motions.
abbrev pub encode_packet : ℕ → ℕ → ℕ → List ℕ
encode_packet buttons dx dy =
    (sign dy * 32 + sign dx * 16 + 8 + buttons) ∷ (dx % 256) ∷ (dy % 256) ∷ []

pub join_sign : (d : ℕ) → IsMotion d → bit_or (if leb 256 d then 0xffff_ff00 else 0) (d % 256) ≡ d
join_sign d h = elim (Bool-cases (leb 256 d)) [
  | inl negative ↦ rw negative (ground (arith, bit_or_fields 8 0xff_ffff (d % 256) (omega arith)))
  | inr positive ↦ rw positive (ground (arith, bit_or_fields 8 0 (d % 256) (omega arith)))
]

flags :
    (buttons dx dy : ℕ)
    → buttons < 8
    → let p0 = sign dy * 32 + sign dx * 16 + 8 + buttons in
      (bit_set p0 4 ≡ leb 256 dx) × (bit_set p0 5 ≡ leb 256 dy) × (low_bits p0 3 ≡ buttons)
flags buttons dx dy h = ground arith

not_faked :
    (buttons now : ℕ) (from : Source) (m : Mouse)
    → m.fake_middle_button ≡ false
    → middle_button buttons now from m ≡ (buttons, m)
unfolding middle_button
not_faked buttons now from m h = ground arith

-- A packet that a three-byte mouse sends is passed on as the motion and buttons that it encodes,
-- with y turned to the screen's direction, if no middle button is faked.
pub dispatch_packet-encode_packet :
    (buttons dx dy now : ℕ) (m : Mouse)
    → buttons < 8
    → IsMotion dx
    → IsMotion dy
    → m.fake_middle_button ≡ false
    → m.packet_length ≡ 3
    → dispatch_packet (encode_packet buttons dx dy) now m
      ≡ send
          (pointer dx (u32 (m.mouse_y_inverter * neg32 dy)) buttons)
          (record m { last_buttons = buttons })
unfolding dispatch_packet
dispatch_packet-encode_packet buttons dx dy now m b hx hy f three =
    let (sign_x, sign_y, low) = flags buttons dx dy b in
    let short : ltb 3 m.packet_length ≡ false = ground arith in
    rw
      (
        short,
        sign_x,
        sign_y,
        low,
        join_sign dx hx,
        join_sign dy hy,
        not_faked buttons now from_mouse m f,
      )
      refl
