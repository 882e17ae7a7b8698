-- ===== src/Alps/Decode/Positions.antt =====
-- The pinnacle layout against an independent encoder, for position packets and for bitmap packets.
use voodoo_ps2_focal_tech.Common.{
  ℕ, ◌+◌, ◌*◌, ◌/◌, ◌%◌, ◌<◌, ◌≡◌, refl, ap, ◌∙◌, arith, List, [], ◌∷◌, Bool, true, false,
  if◌then◌else◌, bit_or, bit_set, bit_or_fields,
}
use voodoo_ps2_focal_tech.Alps.{Fields, field}
use voodoo_ps2_focal_tech.Alps.Decode.{decode_pinnacle, decode_buttons_v3}

-- The two buttons groups of a packet: left, right and middle.
pub record Buttons : Type 0 where
  pub left : Bool
  pub right : Bool
  pub middle : Bool

-- A position packet with x, y, pressure, whether a bitmap follows, and the buttons of the pad and of
-- the stick; a bitmap packet with both maps and the count of fingers less one.
pub data Report : Type 0 where
  position : ℕ → ℕ → ℕ → Bool → Buttons → Buttons → Report
  bitmap : ℕ → ℕ → ℕ → Report

abbrev pub flag : Bool → ℕ
flag b = if b then 1 else 0

abbrev pub mask : Buttons → ℕ
mask b = flag b.left + flag b.right * 2 + flag b.middle * 4

abbrev pub encode : Report → List ℕ
encode (position x y z more pad stick) =
    (x % 4 * 16)
    ∷ (x / 16)
    ∷ (y / 16)
    ∷ (mask stick * 16 + mask pad)
    ∷ (flag more * 64 + x / 4 % 4 * 16 + y % 16)
    ∷ z
    ∷ []
encode (bitmap xs ys n) =
    (64 + xs % 4 * 16)
    ∷ (xs / 4 % 128)
    ∷ (ys / 2 % 128)
    ∷ (ys / 256 * 16)
    ∷ (xs / 512 * 2 + ys % 2)
    ∷ n
    ∷ []

-- The widths of the fields.
abbrev pub IsReport : Report → Type 0
IsReport (position x y z more pad stick) = (x < 2048) × (y < 2048) × (z < 128)
IsReport (bitmap xs ys n) = (xs < 0x8000) × (ys < 2048) × (n < 4)

abbrev pub received : Report → Fields → Fields
received (position x y z more pad stick) f = record f {
  first_mp = more;
  is_mp = false;
  st = record { x = x; y = y };
  pressure = z;
  left = pad.left;
  right = pad.right;
  middle = pad.middle;
  ts_left = stick.left;
  ts_right = stick.right;
  ts_middle = stick.middle;
}
received (bitmap xs ys n) f = record f {
  first_mp = bit_set xs 14;
  is_mp = true;
  fingers = n + 1;
  x_map = xs;
  y_map = ys;
}

join_x : (x : ℕ) → bit_or (bit_or (x / 16 * 16) (x / 4 % 4 * 4)) (x % 4) ≡ x
join_x x =
    ap (λ (t : ℕ). bit_or t (x % 4)) (upper ∙ regroup)
    ∙ omega (arith, bit_or_fields 2 (x / 4) (x % 4) (omega arith))
  where
    upper : bit_or (x / 16 * 16) (x / 4 % 4 * 4) ≡ x / 16 * 16 + x / 4 % 4 * 4
    upper = bit_or_fields 4 (x / 16) (x / 4 % 4 * 4) (omega arith)

    regroup : x / 16 * 16 + x / 4 % 4 * 4 ≡ x / 4 * 4
    regroup = omega arith

join_y : (y : ℕ) → bit_or (y / 16 * 16) (y % 16) ≡ y
join_y y = omega (arith, bit_or_fields 4 (y / 16) (y % 16) (omega arith))

join_x_map : (x : ℕ) → x < 0x8000 → bit_or (bit_or (x / 512 * 512) (x / 4 % 128 * 4)) (x % 4) ≡ x
join_x_map x h =
    ap (λ (t : ℕ). bit_or t (x % 4)) (upper ∙ regroup)
    ∙ omega (arith, bit_or_fields 2 (x / 4) (x % 4) (omega arith))
  where
    upper : bit_or (x / 512 * 512) (x / 4 % 128 * 4) ≡ x / 512 * 512 + x / 4 % 128 * 4
    upper = bit_or_fields 9 (x / 512) (x / 4 % 128 * 4) (omega arith)

    regroup : x / 512 * 512 + x / 4 % 128 * 4 ≡ x / 4 * 4
    regroup = omega arith

join_y_map : (y : ℕ) → y < 2048 → bit_or (bit_or (y / 256 * 256) (y / 2 % 128 * 2)) (y % 2) ≡ y
join_y_map y h =
    ap (λ (t : ℕ). bit_or t (y % 2)) (upper ∙ regroup)
    ∙ omega (arith, bit_or_fields 1 (y / 2) (y % 2) (omega arith))
  where
    upper : bit_or (y / 256 * 256) (y / 2 % 128 * 2) ≡ y / 256 * 256 + y / 2 % 128 * 2
    upper = bit_or_fields 8 (y / 256) (y / 2 % 128 * 2) (omega arith)

    regroup : y / 256 * 256 + y / 2 % 128 * 2 ≡ y / 2 * 2
    regroup = omega arith

-- Every report that fits its fields is decoded to what it says: coordinates, pressure, buttons and
-- the announcement of a bitmap, or the two bitmaps and the count of fingers. A bitmap packet has no
-- announcement of its own: in that place it holds bit 14 of the x bitmap.
pub decode_pinnacle-encode :
    (r : Report) (f : Fields) → IsReport r → decode_pinnacle (encode r) f ≡ received r f
unfolding decode_pinnacle decode_buttons_v3
decode_pinnacle-encode (position x y z more pad stick) f (hx, hy, hz) =
    let first = flag more * 64 + x / 4 % 4 * 16 + y % 16 in
    let both = mask stick * 16 + mask pad in
    let e1 : field (x / 16) 0 7 ≡ x / 16 = omega arith in
    let e2 : field (y / 16) 0 7 ≡ y / 16 = omega arith in
    let e3 : field first 4 2 ≡ x / 4 % 4 = omega arith in
    let e4 : field first 0 4 ≡ y % 16 = omega arith in
    let e5 : field (x % 4 * 16) 4 2 ≡ x % 4 = omega arith in
    let e6 : field z 0 7 ≡ z = omega arith in
    let b0 : bit_set (x % 4 * 16) 6 ≡ false = ground arith in
    let b1 : bit_set first 6 ≡ more = ground arith in
    let l : bit_set both 0 ≡ pad.left = ground arith in
    let r : bit_set both 1 ≡ pad.right = ground arith in
    let m : bit_set both 2 ≡ pad.middle = ground arith in
    let tl : bit_set both 4 ≡ stick.left = ground arith in
    let tr : bit_set both 5 ≡ stick.right = ground arith in
    let tm : bit_set both 6 ≡ stick.middle = ground arith in
    rw (b0, b1, l, r, m, tl, tr, tm, e1, e2, e3, e4, e5, e6, join_x x, join_y y) refl
decode_pinnacle-encode (bitmap xs ys n) f (hx, hy, hn) =
    let e1 : field (xs / 512 * 2 + ys % 2) 1 6 ≡ xs / 512 = omega arith in
    let e2 : field (xs / 4 % 128) 0 7 ≡ xs / 4 % 128 = omega arith in
    let e3 : field (64 + xs % 4 * 16) 4 2 ≡ xs % 4 = omega arith in
    let e4 : field (ys / 256 * 16) 4 3 ≡ ys / 256 = omega arith in
    let e5 : field (ys / 2 % 128) 0 7 ≡ ys / 2 % 128 = omega arith in
    let e6 : field (xs / 512 * 2 + ys % 2) 0 1 ≡ ys % 2 = omega arith in
    let e7 : field n 0 2 ≡ n = omega arith in
    let b0 : bit_set (64 + xs % 4 * 16) 6 ≡ true = ground arith in
    let b1 : bit_set (xs / 512 * 2 + ys % 2) 6 ≡ bit_set xs 14 = ground arith in
    rw (b0, b1, e1, e2, e3, e4, e5, e6, e7, join_x_map xs hx, join_y_map ys hy) refl
