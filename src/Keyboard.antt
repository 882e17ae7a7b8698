-- ===== src/Keyboard.antt =====
-- `ApplePS2Keyboard` (VoodooPS2Keyboard/VoodooPS2Keyboard.cpp and VoodooPS2Keyboard.h): cutting scan
-- codes into packets at interrupt time, with the vector of keys that are down, and the state of the
-- modifier keys. The time of a packet is an argument. The tables are in Keyboard/AdbMap and
-- Keyboard/Flags.
pub mod AdbMap
pub mod Flags
pub mod Held
pub mod Packets
pub mod Repeat
pub mod Modifiers
pub mod Layout
pub mod Pause
pub mod Initial
use voodoo_ps2_focal_tech.Common.{
  ℕ, zero, suc, ◌+◌, ◌-◌, ◌*◌, ◌/◌, ◌%◌, List, Bool, ◌&&◌, ◌||◌, true, false, not, ◌==◌,
  if◌then◌else◌, bit_set, set_bit, clear_bit, u8, get_or, modify, replicate,
}
use voodoo_ps2_focal_tech.Ring.{Ring, write_at_head, advance_head}
use voodoo_ps2_focal_tech.Keyboard.Flags.{ps2_flags_stock}
use voodoo_ps2_focal_tech.Keyboard.AdbMap.{ps2_to_adb_map_stock}
use voodoo_ps2_focal_tech.Common.{[], ◌∷◌}

pub record Keyboard : Type 0 where
  pub key_bit_vector : List ℕ
  pub ps2_flags : List ℕ
  pub ps2_to_ps2_map : List ℕ
  pub ps2_to_adb_map_mapped : List ℕ
  pub extend_count : ℕ
  pub last_data : ℕ
  pub modifier_state : ℕ
  pub ring : Ring

abbrev pub packet_length : ℕ
packet_length = 16

abbrev pub ring_size : ℕ
ring_size = 512

-- KBV_KEYDOWN, KBV_KEYUP and KBV_IS_KEYDOWN, on 16 units of 32 bits.
unfoldable pub key_down : ℕ → List ℕ → List ℕ
key_down n v = modify v (n / 32) (λ unit. set_bit unit (n % 32))

unfoldable pub key_up : ℕ → List ℕ → List ℕ
key_up n v = modify v (n / 32) (λ unit. clear_bit unit (n % 32))

unfoldable pub is_key_down : ℕ → List ℕ → Bool
is_key_down n v = bit_set (get_or v (n / 32) 0) (n % 32)

-- The part of init that sets up the keys: all are up, and the three tables hold what is stock. At
-- first each scan code maps to itself.
unfoldable pub identity_from : ℕ → ℕ → List ℕ
identity_from i zero = []
identity_from i (suc n) = i ∷ identity_from (suc i) n

unfoldable pub init_keys : Keyboard → Keyboard
init_keys m = record m {
  key_bit_vector = replicate 16 0;
  ps2_to_adb_map_mapped = ps2_to_adb_map_stock;
  ps2_to_ps2_map = identity_from 0 512;
  ps2_flags = ps2_flags_stock;
}

-- The time goes in as eight bytes, the low one first.
unfoldable pub write_time : ℕ → ℕ → ℕ → Ring → Ring
write_time zero k time r = r
write_time (suc n) k time r = write_time n (k + 1) (time / 256) (write_at_head k (u8 time) r)

unfoldable pub buffer_packet : ℕ → ℕ → ℕ → Ring → Ring
buffer_packet time a b r =
    advance_head ring_size packet_length
      (write_time 8 8 time (write_at_head 1 b (write_at_head 0 a r)))

-- A scan code that ends a sequence: `extended << 8 | data & ~kSC_UpBit` numbers the key.
abbrev pub key_code_raw : ℕ → ℕ → ℕ
key_code_raw extended x = extended * 256 + x % 128

abbrev pub is_breakless : ℕ → Keyboard → Bool
is_breakless key m = bit_set (get_or m.ps2_flags key 0) 0

unfoldable pub packetize : ℕ → ℕ → ℕ → Keyboard → Keyboard × Bool
packetize time extended x m =
    let key = key_code_raw extended x in
    let buffered = λ (v : List ℕ). record m {
      key_bit_vector = v;
      ring = buffer_packet time (u8 (extended + 1)) x m.ring;
    } in
    if is_breakless key m
    then (buffered m.key_bit_vector, true)
    else if bit_set x 7
    then (buffered (key_up key m.key_bit_vector), true)
    else if is_key_down key m.key_bit_vector
    then (m, false)
    else (buffered (key_down key m.key_bit_vector), true)

-- The flag of the result is kPS2IR_packetReady.
unfoldable pub interrupt_occurred : ℕ → ℕ → Keyboard → Keyboard × Bool
interrupt_occurred time x m =
    let seen = record m { last_data = x } in
    let finished =
      packetize time m.extend_count x (record seen { extend_count = m.extend_count - 1 }) in
    if m.last_data == 0xaa && x == 0
    then (record m { ring = buffer_packet time 0 0xaa m.ring; extend_count = 0 }, true)
    else if x == 0xfa || x == 0xfe
    then (seen, false)
    else if x == 0xe0
    then (record seen { extend_count = 1 }, false)
    else if x == 0xe1
    then (record seen { extend_count = 2 }, false)
    else if m.extend_count == 0 || m.extend_count == 1
    then finished
    else (record seen { extend_count = m.extend_count - 1 }, false)

-- dispatchKeyboardEventWithPacket, as far as it writes the modifier state. The tracking of the modifier
-- keys; `mask` is kept to 16 bits.
unfoldable pub track_modifier : ℕ → Bool → Keyboard → Keyboard
track_modifier key going_down m =
    let bit = get_or m.ps2_flags key 0 / 256 in
    if bit == 0
    then m
    else if going_down
    then record m { modifier_state = set_bit m.modifier_state (bit - 1) }
    else record m { modifier_state = clear_bit m.modifier_state (bit - 1) }

-- The packets that return before the tracking: the breaks of LANG1 and LANG2, and the header or trailer
-- of PrintScreen.
abbrev pub is_untracked : ℕ → Bool → Bool
is_untracked key going_down = (not going_down && (key == 0x71 || key == 0x72)) || key == 0x12a

-- kMaskRightAlt is cleared and kMaskLeftAlt set.
abbrev pub force_left_alt : Keyboard → Keyboard
force_left_alt m = record m { modifier_state = set_bit (clear_bit m.modifier_state 5) 4 }

-- The special key for PrntScr, by its code after the map, holds the left Alt key; `remap` is
-- _remapPrntScr. No other case of the switch writes the modifier state.
unfoldable pub track_event : Bool → ℕ → Bool → Keyboard → Keyboard
track_event remap key going_down m =
    let code = get_or m.ps2_to_ps2_map key 0 in
    let tracked = track_modifier key going_down m in
    if is_untracked key going_down
    then m
    else if code == 0x128 || (code == 0x54 && remap)
    then force_left_alt tracked
    else tracked
