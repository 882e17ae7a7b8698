-- ===== src/Alps/Identify.antt =====
-- `identify` and `matchTable` (VoodooPS2Trackpad/VoodooPS2ALPSGlidePoint.cpp): which protocol a pad
-- speaks, by its E7 and EC reports, and what the first byte of its packets looks like. The E6 report
-- only gives lines of the log.
pub mod FirstByte
use voodoo_ps2_focal_tech.Common.{
  ℕ, List, [], ◌∷◌, Bool, true, false, ◌&&◌, ◌||◌, if◌then◌else◌, Option, none, some, ◌==◌, leb,
  bit_and, shr,
}
use voodoo_ps2_focal_tech.Alps.{byte, proto_v1, proto_v3, proto_v4, proto_v5, proto_v7, proto_v8}

abbrev pub proto_v2 : ℕ
proto_v2 = 0x200

abbrev pub proto_v3_rushmore : ℕ
proto_v3_rushmore = 0x310

abbrev pub proto_v6 : ℕ
proto_v6 = 0x600

abbrev pub proto_v9 : ℕ
proto_v9 = 0x900

-- alps_model_info with its alps_protocol_info.
pub record ModelInfo : Type 0 where
  pub signature : List ℕ
  pub version : ℕ
  pub byte0 : ℕ
  pub mask0 : ℕ
  pub flags : ℕ

abbrev model : ℕ → ℕ → ℕ → ℕ → ℕ → ℕ → ℕ → ModelInfo
model a b c version byte0 mask0 flags = record {
  signature = a ∷ b ∷ c ∷ [];
  version = version;
  byte0 = byte0;
  mask0 = mask0;
  flags = flags;
}

abbrev pub alps_model_data : List ModelInfo
alps_model_data =
    model 0x20 0x02 0x0e proto_v2 0xf8 0xf8 0x6
    ∷ model 0x22 0x02 0x0a proto_v2 0xf8 0xf8 0x6
    ∷ model 0x22 0x02 0x14 proto_v2 0xff 0xff 0x6
    ∷ model 0x32 0x02 0x14 proto_v2 0xf8 0xf8 0x6
    ∷ model 0x33 0x02 0x0a proto_v1 0x88 0xf8 0x0
    ∷ model 0x52 0x01 0x14 proto_v2 0xff 0xff 0x86
    ∷ model 0x53 0x02 0x0a proto_v2 0xf8 0xf8 0x0
    ∷ model 0x53 0x02 0x14 proto_v2 0xf8 0xf8 0x0
    ∷ model 0x60 0x03 0xc8 proto_v2 0xf8 0xf8 0x0
    ∷ model 0x62 0x02 0x14 proto_v2 0xcf 0xcf 0x86
    ∷ model 0x63 0x02 0x0a proto_v2 0xf8 0xf8 0x0
    ∷ model 0x63 0x02 0x14 proto_v2 0xf8 0xf8 0x0
    ∷ model 0x63 0x02 0x28 proto_v2 0xf8 0xf8 0x20
    ∷ model 0x63 0x02 0x3c proto_v2 0x8f 0x8f 0x8
    ∷ model 0x63 0x02 0x50 proto_v2 0xef 0xef 0x10
    ∷ model 0x63 0x02 0x64 proto_v2 0xf8 0xf8 0x0
    ∷ model 0x63 0x03 0xc8 proto_v2 0xf8 0xf8 0x6
    ∷ model 0x73 0x00 0x0a proto_v2 0xf8 0xf8 0x2
    ∷ model 0x73 0x00 0x14 proto_v6 0xff 0xff 0x2
    ∷ model 0x73 0x02 0x0a proto_v2 0xf8 0xf8 0x0
    ∷ model 0x73 0x02 0x14 proto_v2 0xf8 0xf8 0x20
    ∷ model 0x73 0x02 0x50 proto_v2 0xcf 0xcf 0x40
    ∷ []

abbrev pub is_report : List ℕ → List ℕ → Bool
is_report r q = byte r 0 == byte q 0 && byte r 1 == byte q 1 && byte r 2 == byte q 2

unfoldable pub find_model : List ℕ → List ModelInfo → Option ModelInfo
find_model e7 [] = none
find_model e7 (m ∷ ms) =
    let rest = find_model e7 ms in if is_report e7 m.signature then some m else rest

-- The versions that are told by both reports.
unfoldable pub version_of : List ℕ → List ℕ → Option ℕ
version_of e7 ec =
    if is_report e7 (0x73 ∷ 0x02 ∷ 0x64 ∷ []) && byte ec 2 == 0x8a
    then some proto_v4
    else if is_report e7 (0x73 ∷ 0x03 ∷ 0x50 ∷ [])
        && byte ec 0 == 0x73
        && (byte ec 1 == 0x01 || byte ec 1 == 0x02)
    then some proto_v5
    else if byte ec 0 == 0x88 && (shr (byte ec 1) 4 == 0xb || shr (byte ec 1) 4 == 0xc)
    then some proto_v7
    else if byte ec 0 == 0x88 && byte ec 1 == 0x08
    then some proto_v3_rushmore
    else if byte ec 0 == 0x88 && byte ec 1 == 0x07 && leb 0x90 (byte ec 2) && leb (byte ec 2) 0x9d
    then some proto_v3
    else if byte e7 0 == 0x73 && byte e7 1 == 0x03 && (byte e7 2 == 0x14 || byte e7 2 == 0x28)
    then some proto_v8
    else if is_report e7 (0x73 ∷ 0x03 ∷ 0xc8 ∷ [])
    then some proto_v9
    else none

-- What set_protocol stores in `byte0` and `mask0`, which are the same.
unfoldable pub protocol_byte : ℕ → ℕ
protocol_byte version =
    if version == proto_v5 || version == proto_v6
    then 0xc8
    else if version == proto_v7
    then 0x48
    else if version == proto_v8
    then 0x18
    else 0x8f

-- The version with `byte0` and `mask0`: for a pad of the table the row's bytes are stored over those
-- of set_protocol.
unfoldable pub identified : Option ModelInfo → Option ℕ → Option (ℕ × ℕ × ℕ)
identified (some m) v = some (m.version, m.byte0, m.mask0)
identified none (some v) = some (v, protocol_byte v, protocol_byte v)
identified none none = none

-- `none` where identify returns kIOReturnInvalid.
unfoldable pub identify : List ℕ → List ℕ → Option (ℕ × ℕ × ℕ)
identify e7 ec = identified (find_model e7 alps_model_data) (version_of e7 ec)
