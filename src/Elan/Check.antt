-- ===== src/Elan/Check.antt =====
-- Which packet it is (VoodooPS2Trackpad/VoodooPS2Elan.cpp): elantechDebounceCheckV2 and
-- elantechPacketCheckV1 to V4, and the parity table that elantechSetupPS2 fills.

pub mod Parity
use voodoo_ps2_focal_tech.Common.{
  ℕ, zero, suc, ◌+◌, ◌-◌, ◌/◌, ◌%◌, ◌^◌, List, [], ◌∷◌, Bool, true, false, not, ◌&&◌, ◌||◌,
  if◌then◌else◌, ◌==◌, ltb, get_or, set, replicate, bit_and, bit_xor, low_bits,
}
use voodoo_ps2_focal_tech.Alps.{byte, field}
use voodoo_ps2_focal_tech.Elan.{DeviceInfo, Elan}

-- PACKET_UNKNOWN to PACKET_TRACKPOINT.
pub data PacketType : Type 0 where
  unknown debounce v3_head v3_tail v4_head v4_motion v4_status trackpoint : PacketType

abbrev pub is_packet : List ℕ → List ℕ → Bool
is_packet [] p = true
is_packet (x ∷ xs) [] = false
is_packet (x ∷ xs) (y ∷ ys) = x == y && is_packet xs ys

unfoldable pub debounce_check_v2 : List ℕ → Bool
debounce_check_v2 p = is_packet (0x84 ∷ 0xff ∷ 0xff ∷ 0x02 ∷ 0xff ∷ 0xff ∷ []) p

-- The loop of elantechSetupPS2 from entry `i` on.
unfoldable pub fill_parity : ℕ → ℕ → List ℕ → List ℕ
fill_parity zero i t = t
fill_parity (suc n) i t =
    fill_parity n (suc i) (set t i (bit_xor (get_or t (bit_and i (i - 1)) 0) 1))

unfoldable pub setup_parity : List ℕ → List ℕ
setup_parity t = fill_parity 255 1 (set t 0 1)

-- The parity bits of byte 0 for the bytes 1 to 3: the first two are swapped on early firmware.
unfoldable pub packet_check_v1 : List ℕ → Elan → Bool
packet_check_v1 p s =
    let early = ltb s.info.fw_version 0x02_0000 in
    let p1 = if early then field (byte p 0) 5 1 else field (byte p 0) 4 1 in
    let p2 = if early then field (byte p 0) 4 1 else field (byte p 0) 5 1 in
    let p3 = field (byte p 0) 2 1 in
    get_or s.parity (byte p 1) 0 == p1
    && get_or s.parity (byte p 2) 0 == p2
    && get_or s.parity (byte p 3) 0 == p3

unfoldable pub packet_check_v2 : List ℕ → Bool → Bool
packet_check_v2 p reports_pressure =
    if reports_pressure
    then bit_and (byte p 0) 0x0c == 0x04 && bit_and (byte p 3) 0x0f == 0x02
    else if bit_and (byte p 0) 0xc0 == 0x80
    then bit_and (byte p 0) 0x0c == 0x0c && bit_and (byte p 3) 0x0e == 0x08
    else bit_and (byte p 0) 0x3c == 0x3c
      && bit_and (byte p 1) 0xf0 == 0
      && bit_and (byte p 3) 0x3e == 0x38
      && bit_and (byte p 4) 0xf0 == 0

unfoldable pub packet_check_v3 : List ℕ → Bool → PacketType
packet_check_v3 p crc_enabled =
    if is_packet (0xc4 ∷ 0xff ∷ 0xff ∷ 0x02 ∷ 0xff ∷ 0xff ∷ []) p
    then debounce
    else if crc_enabled
    then (if bit_and (byte p 3) 0x09 == 0x08
        then v3_head
        else if bit_and (byte p 3) 0x09 == 0x09
        then v3_tail
        else unknown)
    else if bit_and (byte p 0) 0x0c == 0x04 && bit_and (byte p 3) 0xcf == 0x02
    then v3_head
    else if bit_and (byte p 0) 0x0c == 0x0c && bit_and (byte p 3) 0xce == 0x0c
    then v3_tail
    else if bit_and (byte p 3) 0x0f == 0x06
    then trackpoint
    else unknown

-- The constant bits of a packet, which depend on the IC body and on crc_enabled.
unfoldable pub sanity_check : List ℕ → DeviceInfo → Bool
sanity_check p i =
    let ic_version = field i.fw_version 16 4 in
    if i.crc_enabled
    then bit_and (byte p 3) 0x08 == 0
    else if ic_version == 7 && get_or i.samples 1 0 == 0x2a
    then bit_and (byte p 3) 0x1c == 0x10
    else bit_and (byte p 0) 0x08 == 0 && bit_and (byte p 3) 0x1c == 0x10

unfoldable pub type_of : ℕ → PacketType
type_of zero = v4_status
type_of (suc zero) = v4_head
type_of (suc (suc zero)) = v4_motion
type_of (suc (suc (suc _))) = unknown

unfoldable pub packet_check_v4 : List ℕ → DeviceInfo → PacketType
packet_check_v4 p i =
    if i.has_trackpoint && bit_and (byte p 3) 0x0f == 0x06
    then trackpoint
    else if not (sanity_check p i)
    then unknown
    else type_of (low_bits (byte p 3) 2)
