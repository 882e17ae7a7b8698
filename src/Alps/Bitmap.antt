-- ===== src/Alps/Bitmap.antt =====
-- `alps_get_bitmap_points` and `alps_process_bitmap` (VoodooPS2Trackpad/VoodooPS2ALPSGlidePoint.cpp):
-- two bitmaps, of the electrodes touched on each axis, become the box around all contacts. Products are of
-- 32 bits, and wrap. The axes have at least two electrodes: with one the source divides by zero.
pub mod Points
pub mod Corners
use voodoo_ps2_focal_tech.Common.{
  ℕ, zero, suc, ◌+◌, ◌-◌, ◌*◌, ◌/◌, ◌%◌, List, [], ◌∷◌, map, Bool, true, false, if◌then◌else◌,
  Option, none, some, ◌==◌, ◌||◌, ltb, get_or, set, sub32, u32, lt_signed32, div_signed,
}
use voodoo_ps2_focal_tech.Alps.{Alps, Fields, Position, nowhere, proto_v3, proto_v4, proto_v5}
use voodoo_ps2_focal_tech.Alps.Decode.{max}

-- alps_bitmap_point.
pub record Point : Type 0 where
  pub start_bit : ℕ
  pub num_bits : ℕ

abbrev pub no_point : Point
no_point = record { start_bit = 0; num_bits = 0 }

-- The variables of the loop over the bits of a map: `on_high` says that `point` is `high`.
pub record Scan : Type 0 where
  pub low : Point
  pub high : Point
  pub fingers : ℕ
  pub on_high : Bool
  pub prev_bit : Bool

abbrev pub grow : Point → Point
grow p = record p { num_bits = p.num_bits + 1 }

abbrev pub begin : ℕ → Point
begin i = record { start_bit = i; num_bits = 1 }

abbrev pub update_point : (Point → Point) → Scan → Scan
update_point f a = if a.on_high then record a { high = f a.high } else record a { low = f a.low }

-- One round: a run of ones begins, goes on, or ends.
unfoldable pub scan_bit : ℕ → Bool → Scan → Scan
scan_bit i true a =
    let grown =
      if a.prev_bit
      then update_point grow a
      else update_point (λ p. begin i) (record a { fingers = a.fingers + 1 }) in
    record grown { prev_bit = true }
scan_bit i false a = if a.prev_bit then record a { on_high = true; prev_bit = false } else a

-- `for (i = 0; map != 0; i++, map >>= 1)`, with fuel for the bits of the map.
unfoldable pub scan : ℕ → ℕ → ℕ → Scan → Scan
scan zero i bits a = a
scan (suc fuel) i bits a =
    let rest = scan fuel (suc i) (bits / 2) (scan_bit i (bits % 2 == 1) a) in
    if bits == 0 then a else rest

abbrev pub no_scan : Scan
no_scan = record { low = no_point; high = no_point; fingers = 0; on_high = false; prev_bit = false }

-- A map is a 32-bit word.
unfoldable pub get_bitmap_points : ℕ → Scan
get_bitmap_points bits = scan 32 0 bits no_scan

-- `if (fingers == 1)`: a single contact is divided between the two points.
unfoldable pub divide_single : Scan → Scan
divide_single a =
    let i = (a.low.num_bits - 1) / 2 in
    if a.fingers == 1
    then record a {
      low = record (a.low) { num_bits = a.low.num_bits - i };
      high = record { start_bit = a.low.start_bit + i; num_bits = max i 1 };
    }
    else a

-- The middle of a point, in units of the pad: a signed quotient of 32 bits.
unfoldable pub coordinate : ℕ → ℕ → Point → ℕ
coordinate size bits p =
    div_signed (u32 (size * (2 * p.start_bit + p.num_bits - 1))) (2 * (bits - 1))

-- The corners, from the top left clockwise, before the axes are turned.
unfoldable pub box : Alps → Scan → Scan → List Position
box s xs ys =
    let left = coordinate s.x_max s.x_bits xs.low in
    let right = coordinate s.x_max s.x_bits xs.high in
    let top = coordinate s.y_max s.y_bits ys.low in
    let bottom = coordinate s.y_max s.y_bits ys.high in
    record { x = left; y = top }
    ∷ record { x = right; y = top }
    ∷ record { x = right; y = bottom }
    ∷ record { x = left; y = bottom }
    ∷ []

-- The x bitmap is reversed on version 5, the y bitmap on versions 3 and 4.
unfoldable pub turn : Alps → Position → Position
turn s p = record {
  x = if s.proto_version == proto_v5 then sub32 s.x_max p.x else p.x;
  y = if s.proto_version == proto_v3 || s.proto_version == proto_v4 then sub32 s.y_max p.y else p.y;
}

unfoldable pub corners : Alps → Scan → Scan → List Position
corners s xs ys = map (turn s) (box s xs ys)

-- `dx * dx + dy * dy`, on 32 bits.
unfoldable pub distance : Position → Position → ℕ
distance p q = u32 (sub32 p.x q.x * sub32 p.x q.x + sub32 p.y q.y * sub32 p.y q.y)

-- The loop over the corners: the index found so far and its distance.
unfoldable pub find_closest : Position → ℕ → List Position → Option ℕ × ℕ → Option ℕ × ℕ
find_closest st i [] best = best
find_closest st i (c ∷ cs) (found, closest) =
    find_closest st (suc i) cs
      (if lt_signed32 (distance st c) closest then (some i, distance st c) else (found, closest))

-- `(second_touch + 2) % 4`, where -1 gives 1.
abbrev pub opposite : Option ℕ → ℕ
opposite none = 1
opposite (some i) = (i + 2) % 4

-- The corner of the second touch, chosen once in a sequence of two touches.
unfoldable pub second_corner : Option ℕ → Position → List Position → ℕ
second_corner (some i) st cs = i
second_corner none st cs = opposite (find_closest st 0 cs (none, 0x7fff_ffff)).0

-- alps_process_bitmap: the count of fingers, with the fields and the state after it.
unfoldable pub process_bitmap : Fields → Alps → ℕ × Fields × Alps
process_bitmap f s =
    let xs = get_bitmap_points f.x_map in
    let ys = get_bitmap_points f.y_map in
    let cs = corners s (divide_single xs) (divide_single ys) in
    let chosen = second_corner s.second_touch f.st cs in
    if f.x_map == 0 || f.y_map == 0 then (0, f, s) else (
      max xs.fingers ys.fingers,
      record f { mt = set (set f.mt 0 f.st) 1 (get_or cs chosen nowhere) },
      record s { second_touch = some chosen },
    )
