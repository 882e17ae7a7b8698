-- ===== src/Elan/Trackpoint.antt =====
-- `elantechReportTrackpoint` of VoodooPS2Trackpad/VoodooPS2Elan.cpp: a packet of the stick.

pub mod Signs
use voodoo_ps2_focal_tech.Common.{
  ℕ, ◌+◌, ◌-◌, ◌*◌, ◌/◌, ◌%◌, ◌^◌, List, Bool, ◌||◌, if◌then◌else◌, ◌==◌, low_bits, bit_xor, sub32,
}
use voodoo_ps2_focal_tech.Alps.{byte}
use voodoo_ps2_focal_tech.Elan.{Elan, trackpoint, emit}

-- The first four bytes as a little-endian word, without its three lowest bits.
abbrev pub signature : List ℕ → ℕ
signature p =
    (byte p 0 - low_bits (byte p 0) 3)
    + byte p 1 * 0x100
    + byte p 2 * 0x1_0000
    + byte p 3 * 0x100_0000

unfoldable pub is_trackpoint : List ℕ → Bool
is_trackpoint p =
    signature p == 0x0600_0030
    || signature p == 0x1600_8020
    || signature p == 0x2680_0010
    || signature p == 0x3680_8000

unfoldable pub report_trackpoint : ℕ → List ℕ → Elan → Elan
report_trackpoint now p s =
    let dx = sub32 (byte p 4) (bit_xor (byte p 1) 0x80 * 2) in
    let dy = sub32 (bit_xor (byte p 2) 0x80 * 2) (byte p 5) in
    if is_trackpoint p
    then emit (trackpoint (low_bits (byte p 0) 3) dx dy) (record s { keytime = now })
    else s
