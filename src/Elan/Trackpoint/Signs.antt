-- ===== src/Elan/Trackpoint/Signs.antt =====
-- The packets of the stick against an independent encoder: sign bits in bytes 0 and 3, their
-- complements in the bytes 1 to 3, and the low eight bits of each motion.
use voodoo_ps2_focal_tech.Common.{
  ℕ, ◌+◌, ◌-◌, ◌*◌, ◌%◌, ◌<◌, ◌≡◌, refl, arith, List, [], ◌∷◌, true, Bool-cases, inl, inr, leb,
  neg32, sub32, bit_xor, low_bits,
}
use voodoo_ps2_focal_tech.Mouse.Motion.{IsMotion, sign}
use voodoo_ps2_focal_tech.Elan.{Elan, trackpoint, emit}
use voodoo_ps2_focal_tech.Elan.Trackpoint.{is_trackpoint, report_trackpoint}

abbrev pub encode_trackpoint : ℕ → ℕ → ℕ → List ℕ
encode_trackpoint buttons dx dy =
    (sign dy * 32 + sign dx * 16 + buttons)
    ∷ ((1 - sign dx) * 128)
    ∷ ((1 - sign dy) * 128)
    ∷ ((1 - sign dy) * 32 + (1 - sign dx) * 16 + 6)
    ∷ (dx % 256)
    ∷ (dy % 256)
    ∷ []

join_sign : (d : ℕ) → IsMotion d → sub32 (d % 256) (bit_xor ((1 - sign d) * 128) 0x80 * 2) ≡ d
join_sign d h = elim (Bool-cases (leb 256 d)) [
  | inl negative ↦ rw negative (ground (arith, h, negative))
  | inr positive ↦ rw positive (ground (arith, h, positive))
]

join_sign_back :
    (d : ℕ) → IsMotion d → sub32 (bit_xor ((1 - sign d) * 128) 0x80 * 2) (d % 256) ≡ neg32 d
join_sign_back d h = elim (Bool-cases (leb 256 d)) [
  | inl negative ↦ rw negative (ground (arith, h, negative))
  | inr positive ↦ rw positive (ground (arith, h, positive))
]

encoded-is_trackpoint :
    (buttons dx dy : ℕ)
    → buttons < 8
    → (low_bits (sign dy * 32 + sign dx * 16 + buttons) 3 ≡ buttons)
      × (is_trackpoint (encode_trackpoint buttons dx dy) ≡ true)
unfolding is_trackpoint
encoded-is_trackpoint buttons dx dy h = (ground arith, ground arith)

-- A packet that the stick sends, its y sign in bit 5 and its x sign in bit 4 of byte 0, is reported
-- as the motion and buttons that it encodes, with y turned to the screen's direction, and the time
-- is kept to ignore the pad for a while.
pub report_trackpoint-encode_trackpoint :
    (now buttons dx dy : ℕ) (s : Elan)
    → buttons < 8
    → IsMotion dx
    → IsMotion dy
    → report_trackpoint now (encode_trackpoint buttons dx dy) s
      ≡ emit (trackpoint buttons dx (neg32 dy)) (record s { keytime = now })
unfolding report_trackpoint
report_trackpoint-encode_trackpoint now buttons dx dy s b hx hy =
    let (low, taken) = encoded-is_trackpoint buttons dx dy b in
    rw (taken, low, join_sign dx hx, join_sign_back dy hy) refl

-- The layout that the comment gives to byte 0, with the x sign in bit 5 and the y sign in bit 4, is
-- refused whenever the two signs differ.
pub comment_layout_refused :
    (now buttons dx dy b4 b5 : ℕ) (s : Elan)
    → buttons < 8
    → (sign dx + sign dy ≡ 1)
    → report_trackpoint now
        ((sign dx * 32 + sign dy * 16 + buttons)
          ∷ ((1 - sign dx) * 128)
          ∷ ((1 - sign dy) * 128)
          ∷ ((1 - sign dy) * 32 + (1 - sign dx) * 16 + 6)
          ∷ b4
          ∷ b5
          ∷ [])
        s
      ≡ s
unfolding report_trackpoint is_trackpoint
comment_layout_refused now buttons dx dy b4 b5 s h differ = ground arith
