-- ===== src/Alps/Decode.antt =====
-- The decoders of VoodooPS2Trackpad/VoodooPS2ALPSGlidePoint.cpp for the touchpads of versions 3 and 5:
-- alps_decode_buttons_v3, alps_decode_pinnacle, alps_decode_rushmore and alps_decode_dolphin. All of
-- them return true.
pub mod Positions
pub mod V7
pub mod V8
use voodoo_ps2_focal_tech.Common.{
  ℕ, ◌+◌, ◌*◌, ◌/◌, ◌%◌, ◌^◌, List, [], ◌∷◌, Bool, true, false, if◌then◌else◌, bit_or, bit_set, ltb,
}
use voodoo_ps2_focal_tech.Alps.{Fields, Position, Alps, byte, field}

unfoldable pub decode_buttons_v3 : List ℕ → Fields → Fields
decode_buttons_v3 p f = record f {
  left = bit_set (byte p 3) 0;
  right = bit_set (byte p 3) 1;
  middle = bit_set (byte p 3) 2;
  ts_left = bit_set (byte p 3) 4;
  ts_right = bit_set (byte p 3) 5;
  ts_middle = bit_set (byte p 3) 6;
}

-- The position of pinnacle and rushmore: eleven bits of each coordinate.
abbrev pub pinnacle_position : List ℕ → Position
pinnacle_position p = record {
  x = bit_or (bit_or (field (byte p 1) 0 7 * 16) (field (byte p 4) 4 2 * 4)) (field (byte p 0) 4 2);
  y = bit_or (field (byte p 2) 0 7 * 16) (field (byte p 4) 0 4);
}

abbrev pub decode_pinnacle_position : List ℕ → Fields → Fields
decode_pinnacle_position p f =
    decode_buttons_v3 p (record f { st = pinnacle_position p; pressure = field (byte p 5) 0 7 })

abbrev pub pinnacle_x_map : List ℕ → ℕ
pinnacle_x_map p =
    bit_or (bit_or (field (byte p 4) 1 6 * 512) (field (byte p 1) 0 7 * 4)) (field (byte p 0) 4 2)

abbrev pub pinnacle_y_map : List ℕ → ℕ
pinnacle_y_map p =
    bit_or (bit_or (field (byte p 3) 4 3 * 256) (field (byte p 2) 0 7 * 2)) (field (byte p 4) 0 1)

unfoldable pub decode_pinnacle : List ℕ → Fields → Fields
decode_pinnacle p f =
    let marked = record f { first_mp = bit_set (byte p 4) 6; is_mp = bit_set (byte p 0) 6 } in
    if bit_set (byte p 0) 6
    then record marked {
      fingers = field (byte p 5) 0 2 + 1;
      x_map = pinnacle_x_map p;
      y_map = pinnacle_y_map p;
    }
    else decode_pinnacle_position p marked

abbrev pub max : ℕ → ℕ → ℕ
max a b = if ltb a b then b else a

unfoldable pub decode_rushmore : List ℕ → Fields → Fields
decode_rushmore p f =
    let marked = record f { first_mp = bit_set (byte p 4) 6; is_mp = bit_set (byte p 5) 6 } in
    if bit_set (byte p 5) 6
    then record marked {
      fingers = max (field (byte p 5) 0 2) (field (byte p 5) 2 2) + 1;
      x_map = bit_or (field (byte p 5) 4 1 * 0x8000) (pinnacle_x_map p);
      y_map = bit_or (field (byte p 5) 5 1 * 0x800) (pinnacle_y_map p);
    }
    else decode_pinnacle_position p marked

-- The 35 bits of the profiles; `(p[3] & 0x70) << 27` puts bits 4 to 6 at 31 to 33.
abbrev pub palm_data : List ℕ → ℕ
palm_data p =
    bit_or
      (bit_or
        (bit_or
          (bit_or
            (bit_or (bit_or (field (byte p 1) 0 7) (field (byte p 2) 0 7 * 2 ^ 7))
              (field (byte p 4) 0 7 * 2 ^ 14))
            (field (byte p 5) 0 7 * 2 ^ 21))
          (field (byte p 3) 0 3 * 2 ^ 28))
        (field (byte p 3) 4 3 * 2 ^ 31))
      (field (byte p 0) 0 1 * 2 ^ 34)

unfoldable pub decode_dolphin : Alps → List ℕ → Fields → Fields
decode_dolphin s p f =
    let marked = record f { first_mp = bit_set (byte p 0) 1; is_mp = bit_set (byte p 0) 5 } in
    if bit_set (byte p 0) 5
    then record marked {
      fingers = bit_or (field (byte p 0) 1 2) (field (byte p 0) 4 1 * 4);
      y_map = palm_data p % 2 ^ s.y_bits;
      x_map = palm_data p / 2 ^ s.y_bits % 2 ^ s.x_bits;
    }
    else decode_buttons_v3 p (record marked {
      st = record {
        x = bit_or (field (byte p 1) 0 7) (field (byte p 4) 0 4 * 128);
        y = bit_or (field (byte p 2) 0 7) (field (byte p 4) 4 4 * 128);
      };
      pressure = if bit_set (byte p 0) 2 then 0 else field (byte p 5) 0 7;
    })
