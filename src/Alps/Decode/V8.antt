-- ===== src/Alps/Decode/V8.antt =====
-- The decoder of version 8, SS4 (VoodooPS2Trackpad/VoodooPS2ALPSGlidePoint.cpp and its macros in
-- VoodooPS2ALPSGlidePoint.h): alps_get_pkt_id_ss4_v2 and alps_decode_ss4_v2, which returns true.
use voodoo_ps2_focal_tech.Common.{
  ℕ, ◌+◌, ◌*◌, ◌%◌, List, Bool, true, false, not, ◌&&◌, ◌||◌, if◌then◌else◌, ◌==◌, ltb, get_or, set,
  bit_or, bit_set,
}
use voodoo_ps2_focal_tech.Alps.{
  Alps, Fields, no_fields, Position, nowhere, byte, field, is_buttonpad,
}

-- SS4_PACKET_ID_*.
pub data PacketId : Type 0 where
  idle one two multi stick : PacketId

-- SS4_IS_IDLE_V2.
abbrev pub is_idle : List ℕ → Bool
is_idle p =
    byte p 0 == 0x18
    && byte p 1 == 0x10
    && byte p 2 == 0
    && not (bit_set (byte p 3) 7)
    && bit_set (byte p 3) 3
    && byte p 4 == 0x10
    && byte p 5 == 0

unfoldable pub packet_id : List ℕ → PacketId
packet_id p =
    if bit_set (byte p 3) 5
    then (if bit_set (byte p 3) 4 then multi else stick)
    else if bit_set (byte p 3) 4
    then two
    else if is_idle p
    then idle
    else one

-- SS4_1F_X_V2, SS4_1F_Y_V2 and SS4_1F_Z_V2.
abbrev pub one_x : List ℕ → ℕ
one_x p =
    bit_or
      (bit_or (bit_or (field (byte p 0) 0 3) (field (byte p 1) 0 4 * 8))
        (field (byte p 1) 5 3 * 128))
      (field (byte p 2) 5 3 * 1024)

abbrev pub one_y : List ℕ → ℕ
one_y p =
    bit_or
      (bit_or (bit_or (field (byte p 2) 0 4) (field (byte p 3) 6 2 * 16))
        (field (byte p 4) 0 4 * 64))
      (field (byte p 4) 5 2 * 1024)

abbrev pub one_z : List ℕ → ℕ
one_z p =
    bit_or (bit_or (field (byte p 5) 0 4) (field (byte p 5) 5 3 * 16)) (field (byte p 4) 7 1 * 128)

-- IS_SS4PLUS_DEV.
abbrev pub is_plus : Alps → Bool
is_plus s = byte s.dev_id 0 == 0x73 && byte s.dev_id 1 == 0x03 && byte s.dev_id 2 == 0x28

-- SS4_STD_MF_X_V2 and its three variants, of the bytes of finger `i`.
abbrev pub std_x : ℕ → ℕ → ℕ
std_x a b = bit_or (field a 0 3 * 32) (field b 3 5 * 256)

abbrev pub plus_std_x : ℕ → ℕ → ℕ
plus_std_x a b = bit_or (field a 0 3 * 16) (field b 3 5 * 128)

abbrev pub std_y : ℕ → ℕ → ℕ
std_y b c = bit_or (bit_or (field b 1 1 * 16) (field c 0 4 * 32)) (field c 5 3 * 512)

unfoldable pub multi_x : Bool → Bool → ℕ → ℕ → ℕ
multi_x true true a b = bit_or (plus_std_x a b) (field a 7 1 * 8)
multi_x true false a b = bit_or (std_x a b) (field a 7 1 * 16)
multi_x false true a b = plus_std_x a b
multi_x false false a b = std_x a b

unfoldable pub multi_y : Bool → ℕ → ℕ → ℕ → ℕ
multi_y true a b c = bit_or (std_y b c) (field a 6 1 * 8)
multi_y false a b c = std_y b c

-- The finger of the bytes from `k` on: 0 for the first of a packet, 3 for the second.
abbrev pub finger_at : Alps → List ℕ → ℕ → Position
finger_at s p k = record {
  x = multi_x (is_buttonpad s) (is_plus s) (byte p k) (byte p (1 + k));
  y = multi_y (is_buttonpad s) (byte p k) (byte p (1 + k)) (byte p (2 + k));
}

-- SS4_PLUS_MFPACKET_NO_AX_BL and its variants: the position of a finger that is not there.
unfoldable pub no_data : Alps → Position
no_data s = record {
  x =
      if is_buttonpad s
      then (if is_plus s then 4088 else 8176)
      else (if is_plus s then 4080 else 8160);
  y = if is_buttonpad s then 4088 else 4080;
}

abbrev pub same_place : Position → Position → Bool
same_place p q = p.x == q.x && p.y == q.y

unfoldable pub decode_one : List ℕ → Fields → Fields
decode_one p f =
    let pressure = one_z p * 2 % 128 in
    record f {
      mt = set f.mt 0 (record { x = one_x p; y = one_y p });
      pressure = pressure;
      fingers = if ltb 0 pressure then 1 else 0;
      first_mp = false;
      is_mp = false;
    }

-- SS4_MF_Z_V2(p, 0) and SS4_IS_MF_CONTINUE(p).
unfoldable pub decode_two : Alps → List ℕ → Fields → Fields
decode_two s p f = record f {
  mt = set (set f.mt 0 (finger_at s p 0)) 1 (finger_at s p 3);
  pressure = if bit_set (byte p 1) 0 || bit_set (byte p 1) 2 then 0x30 else 0;
  fingers = if bit_set (byte p 2) 4 then f.fingers else 2;
  first_mp = bit_set (byte p 2) 4;
  is_mp = false;
}

unfoldable pub decode_multi : Alps → List ℕ → Fields → Fields
decode_multi s p f =
    let placed = record f {
      mt = set (set f.mt 2 (finger_at s p 0)) 3 (finger_at s p 3);
      first_mp = false;
      is_mp = true;
    } in
    if bit_set (byte p 2) 4
    then record placed { fingers = 5 }
    else if same_place (get_or placed.mt 3 nowhere) (no_data s)
    then record placed { fingers = 3; mt = set placed.mt 3 nowhere }
    else record placed { fingers = 4 }

-- Bits 5 to 7 of the first byte, for the pad or the stick.
unfoldable pub decode_stick_buttons : List ℕ → Fields → Fields
decode_stick_buttons p f = record f {
  first_mp = false;
  is_mp = false;
  ts_left = bit_set (byte p 0) 5;
  ts_right = bit_set (byte p 0) 6;
  ts_middle = bit_set (byte p 0) 7;
}

unfoldable pub decode_pad_buttons : Alps → List ℕ → Fields → Fields
decode_pad_buttons s p f = record f {
  left = bit_set (byte p 0) 5;
  right = if is_buttonpad s then f.right else bit_set (byte p 0) 6;
  middle = if is_buttonpad s then f.middle else bit_set (byte p 0) 7;
}

-- The switch on the kind of packet.
unfoldable pub decode_as : PacketId → Alps → List ℕ → Fields → Fields
decode_as stick s p f = decode_stick_buttons p f
decode_as one s p f = decode_pad_buttons s p (decode_one p f)
decode_as two s p f = decode_pad_buttons s p (decode_two s p f)
decode_as multi s p f = decode_pad_buttons s p (decode_multi s p f)
decode_as idle s p f = decode_pad_buttons s p no_fields

unfoldable pub decode_ss4_v2 : Alps → List ℕ → Fields → Fields
decode_ss4_v2 s p f = decode_as (packet_id p) s p f
