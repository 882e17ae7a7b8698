-- ===== src/Alps/Bitmap/Corners.antt =====
-- The corners that the bitmaps give, and the second contact.
use native.Mathlib.Nat.{div-le_of_le-mul, mul-le-mul_left, pow-le-pow_right, pow-suc, mul_comm}
use voodoo_ps2_focal_tech.Common.{
  ℕ, zero, suc, ◌+◌, ◌-◌, ◌*◌, ◌/◌, ◌^◌, ◌≤◌, ◌<◌, ◌≡◌, ◌≢◌, ◌∙◌, refl, ap, arith, List, [], ◌∷◌,
  Bool, true, false, ltb, ◌%◌, bit_set-suc, Option, none, some, Bool-cases, inl, inr, ◌==◌, get_or,
  set, map, length, length-set, get_or-set_self, get_or-set_ne, ◌||◌, bit_at_least, bit_set, leb,
  u32, div_signed,
}
use voodoo_ps2_focal_tech.Alps.{Alps, Fields, Position, nowhere}
use voodoo_ps2_focal_tech.Alps.Bitmap.{
  Point, Scan, get_bitmap_points, divide_single, coordinate, box, turn, corners, find_closest,
  opposite, second_corner, process_bitmap,
}
use voodoo_ps2_focal_tech.Alps.Bitmap.Points.{get_bitmap_points-IsRuns}

div_signed-small : (x d : ℕ) → x < 0x8000_0000 → div_signed (u32 x) d ≡ x / d
div_signed-small x d small =
    let same : u32 x ≡ x = omega arith in
    let positive : leb 0x8000_0000 x ≡ false = ground arith in rw (same, positive) refl

abbrev IsIn : ℕ → Point → Type 0
IsIn bits p = (1 ≤ p.num_bits) × (p.start_bit + p.num_bits ≤ bits)

-- The product of a size and twice the number of electrodes is a positive int.
abbrev IsShort : ℕ → ℕ → Type 0
IsShort size bits = size * (2 * bits) < 0x8000_0000

coordinate-le :
    (size bits : ℕ) (p : Point)
    → 2 ≤ bits
    → IsShort size bits
    → IsIn bits p
    → coordinate size bits p ≤ size
unfolding coordinate
coordinate-le size bits p long short h =
    let product = size * (2 * p.start_bit + p.num_bits - 1) in
    let below : product ≤ size * (2 * bits) = mul-le-mul_left size (omega (arith, h)) in
    let plain : div_signed (u32 product) (2 * (bits - 1)) ≡ product / (2 * (bits - 1)) =
      div_signed-small product (2 * (bits - 1)) (omega (arith, below, short)) in
    rw plain (
      div-le_of_le-mul (2 * (bits - 1))
        (rw (mul_comm (2 * (bits - 1)) size) (mul-le-mul_left size (omega (arith, h)))))

size-lt : (size bits : ℕ) → 2 ≤ bits → IsShort size bits → size < 0x8000_0000
size-lt size bits long short =
    let once : size * 1 ≤ size * (2 * bits) = mul-le-mul_left size (omega arith) in
    omega (arith, once, short)

high_bit_in : (m bits j : ℕ) → m < 2 ^ bits → bit_set m j ≡ true → j < bits
high_bit_in m bits j small on = elim (Bool-cases (ltb j bits)) [
  | inl lt ↦ ground arith
  | inr ge ↦ absurd (
      omega (
        arith,
        bit_at_least m j on,
        pow-le-pow_right {n = 2} (omega arith) {i = bits} {j = j} (ground arith),
      ))
]

some_bit_set : (fuel m : ℕ) → m < 2 ^ fuel → m ≢ 0 → (j : ℕ) × (bit_set m j ≡ true)
some_bit_set zero m small some_bit = absurd (some_bit (ground arith))
some_bit_set (suc fuel) m small some_bit = elim (Bool-cases (m % 2 == 1)) [
  | inl odd ↦ (0, ground arith)
  | inr even ↦
      let (j, on) =
        some_bit_set fuel (m / 2) (ground (arith, pow-suc 2 fuel)) (λ e. some_bit (ground arith)) in
      (suc j, bit_set-suc m j ∙ on)
]

has_run : (m : ℕ) → m < 2 ^ 32 → m ≢ 0 → 1 ≤ (get_bitmap_points m).fingers
has_run m small some_bit =
    let (j, on) = some_bit_set 32 m small some_bit in
    let runs = (get_bitmap_points-IsRuns m j small).1 in ground (arith, on, runs.none_at_all)

run-IsIn :
    (m bits : ℕ) (p : Point)
    → m < 2 ^ bits
    → 1 ≤ p.num_bits
    → bit_set m (p.start_bit + p.num_bits - 1) ≡ true
    → IsIn bits p
run-IsIn m bits p small long on =
    (long, omega (arith, high_bit_in m bits (p.start_bit + p.num_bits - 1) small on))

low-IsIn : (m bits : ℕ) → m < 2 ^ 32 → m < 2 ^ bits → m ≢ 0 → IsIn bits (get_bitmap_points m).low
low-IsIn m bits word small some_bit =
    let p = (get_bitmap_points m).low in
    let last = (p.start_bit + p.num_bits - 1) in
    let runs = (get_bitmap_points-IsRuns m last word).1 in
    let found = has_run m word some_bit in
    let long = runs.low_long found in
    run-IsIn m bits p small long (runs.in_low found (omega (arith, long)) (omega (arith, long)))

high-IsIn :
    (m bits : ℕ)
    → m < 2 ^ 32
    → m < 2 ^ bits
    → 2 ≤ (get_bitmap_points m).fingers
    → IsIn bits (get_bitmap_points m).high
high-IsIn m bits word small several =
    let p = (get_bitmap_points m).high in
    let last = (p.start_bit + p.num_bits - 1) in
    let runs = (get_bitmap_points-IsRuns m last word).1 in
    let long = (runs.high_long several).0 in
    run-IsIn m bits p small long (runs.in_high several (omega (arith, long)) (omega (arith, long)))

divide_single-IsIn :
    (m bits : ℕ)
    → m < 2 ^ 32
    → m < 2 ^ bits
    → m ≢ 0
    → IsIn bits (divide_single (get_bitmap_points m)).low
      × IsIn bits (divide_single (get_bitmap_points m)).high
unfolding divide_single
divide_single-IsIn m bits word small some_bit = ground (
  arith,
  has_run m word some_bit,
  low-IsIn m bits word small some_bit,
  high-IsIn m bits word small,
)

abbrev pub IsOnPad : Alps → Position → Type 0
IsOnPad s p = (p.x ≤ s.x_max) × (p.y ≤ s.y_max)

turn-IsOnPad :
    (s : Alps) (p : Position)
    → s.x_max < 0x8000_0000
    → s.y_max < 0x8000_0000
    → IsOnPad s p
    → IsOnPad s (turn s p)
unfolding turn
turn-IsOnPad s p small_x small_y h = ground arith

opposite-lt : (found : Option ℕ) → opposite found < 4
opposite-lt none = omega arith
opposite-lt (some i) = omega arith

-- A corner chosen before is the index of one.
abbrev pub is_corner : Option ℕ → Bool
is_corner none = true
is_corner (some i) = ltb i 4

second_corner-lt :
    (chosen : Option ℕ) (st : Position) (cs : List Position)
    → is_corner chosen ≡ true
    → second_corner chosen st cs < 4
unfolding second_corner
second_corner-lt none st cs h = opposite-lt (find_closest st 0 cs (none, 0x7fff_ffff)).0
second_corner-lt (some i) st cs h = ground arith

second_corner_kept :
    (chosen : Option ℕ) (st : Position) (cs : List Position) (j : ℕ)
    → chosen ≡ some j
    → second_corner chosen st cs ≡ j
unfolding second_corner
second_corner_kept chosen st cs j e = rw e refl

-- The axes have at least two electrodes, a size times twice the electrodes of its axis is a positive int,
-- and each map fits its axis.
pub record HasMaps (f : Fields) (s : Alps) : Type 0 where
  pub x_word : f.x_map < 2 ^ 32
  pub y_word : f.y_map < 2 ^ 32
  pub x_small : f.x_map < 2 ^ s.x_bits
  pub y_small : f.y_map < 2 ^ s.y_bits
  pub x_some : f.x_map ≢ 0
  pub y_some : f.y_map ≢ 0
  pub x_long : 2 ≤ s.x_bits
  pub y_long : 2 ≤ s.y_bits
  pub x_size : s.x_max * (2 * s.x_bits) < 0x8000_0000
  pub y_size : s.y_max * (2 * s.y_bits) < 0x8000_0000

box_corner-IsOnPad :
    (s : Alps) (xs ys : Scan) (j : ℕ)
    → 2 ≤ s.x_bits
    → 2 ≤ s.y_bits
    → IsShort s.x_max s.x_bits
    → IsShort s.y_max s.y_bits
    → IsIn s.x_bits xs.low × IsIn s.x_bits xs.high
    → IsIn s.y_bits ys.low × IsIn s.y_bits ys.high
    → j < 4
    → IsOnPad s (get_or (box s xs ys) j nowhere)
unfolding box
box_corner-IsOnPad s xs ys j xl yl xn yn (x1, x2) (y1, y2) h = ground (
  arith,
  coordinate-le s.x_max s.x_bits xs.low xl xn x1,
  coordinate-le s.x_max s.x_bits xs.high xl xn x2,
  coordinate-le s.y_max s.y_bits ys.low yl yn y1,
  coordinate-le s.y_max s.y_bits ys.high yl yn y2,
)

get_or-map :
    (g : Position → Position) (cs : List Position) (j : ℕ)
    → j < length cs
    → get_or (map g cs) j nowhere ≡ g (get_or cs j nowhere)
get_or-map g [] j h = absurd (omega arith)
get_or-map g (c ∷ cs) zero h = refl
get_or-map g (c ∷ cs) (suc j) h = get_or-map g cs j (omega arith)

corner-IsOnPad :
    (f : Fields) (s : Alps) (j : ℕ)
    → HasMaps f s
    → j < 4
    → IsOnPad s (
        get_or
          (corners s
            (divide_single (get_bitmap_points f.x_map))
            (divide_single (get_bitmap_points f.y_map)))
          j
          nowhere)
unfolding corners box
corner-IsOnPad f s j h lt =
    let xs = divide_single (get_bitmap_points f.x_map) in
    let ys = divide_single (get_bitmap_points f.y_map) in
    rw (get_or-map (turn s) (box s xs ys) j lt) (
      turn-IsOnPad s (get_or (box s xs ys) j nowhere) (size-lt s.x_max s.x_bits h.x_long h.x_size)
        (size-lt s.y_max s.y_bits h.y_long h.y_size)
        (box_corner-IsOnPad s xs ys j h.x_long h.y_long h.x_size h.y_size
          (divide_single-IsIn f.x_map s.x_bits h.x_word h.x_small h.x_some)
          (divide_single-IsIn f.y_map s.y_bits h.y_word h.y_small h.y_some) lt))

-- Where both maps have bits and fit their axes, of at least two electrodes, the size of the pad times twice
-- the electrodes is below 2 ^ 31 on each axis, and a second touch chosen before is one of four: at least one finger is counted, the first contact is the position
-- of the packet, the second lies on the pad, and the second touch is one of four again, the same as
-- before if it was chosen then.
pub process_bitmap-IsOnPad :
    (f : Fields) (s : Alps)
    → HasMaps f s
    → length f.mt ≡ 5
    → is_corner s.second_touch ≡ true
    → (1 ≤ (process_bitmap f s).0)
      × (get_or (process_bitmap f s).1.mt 0 nowhere ≡ f.st)
      × IsOnPad s (get_or (process_bitmap f s).1.mt 1 nowhere)
      × (is_corner (process_bitmap f s).2.second_touch ≡ true)
      × ((j : ℕ) → s.second_touch ≡ some j → (process_bitmap f s).2.second_touch ≡ some j)
unfolding process_bitmap
process_bitmap-IsOnPad f s h size chosen =
    let xs = get_bitmap_points f.x_map in
    let ys = get_bitmap_points f.y_map in
    let cs = corners s (divide_single xs) (divide_single ys) in
    let k = second_corner s.second_touch f.st cs in
    let k_lt : k < 4 = second_corner-lt s.second_touch f.st cs chosen in
    let not_empty : (f.x_map == 0 || f.y_map == 0) ≡ false = ground (arith, h.x_some, h.y_some) in
    rw not_empty (
      ground (arith, has_run f.x_map h.x_word h.x_some),
      get_or-set_ne (set f.mt 0 f.st) 1 0 (get_or cs k nowhere) nowhere
            (λ e. absurd (omega (arith, e)))
          ∙ get_or-set_self f.mt 0 f.st nowhere (omega (arith, size)),
      rw
          (get_or-set_self (set f.mt 0 f.st) 1 (get_or cs k nowhere) nowhere
            (omega (arith, size, length-set f.mt 0 f.st)))
          (corner-IsOnPad f s k h k_lt),
      ground (arith, k_lt),
      λ j e. ap some (second_corner_kept s.second_touch f.st cs j e),
    )
