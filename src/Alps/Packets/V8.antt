-- ===== src/Alps/Packets/V8.antt =====
-- The packet handler of version 8 (VoodooPS2Trackpad/VoodooPS2ALPSGlidePoint.cpp).
use voodoo_ps2_focal_tech.Common.{
  div_signed, ℕ, ◌*◌, List, Bool, true, false, not, ◌&&◌, ◌||◌, if◌then◌else◌, ◌==◌, leb, bit_or,
  neg32, is_neg32, sign_extend8,
}
use voodoo_ps2_focal_tech.Alps.{Alps, Fields, no_fields, Outside, byte, field, is_dualpoint}
use voodoo_ps2_focal_tech.Alps.Decode.V8.{packet_id, PacketId, stick}
use voodoo_ps2_focal_tech.Alps.Touch.{alps_buttons, prepare_voodoo_input}
use voodoo_ps2_focal_tech.Alps.Packets.{button_mask, send_stick, decode, reverse_y}

abbrev pub is_stick : PacketId → Bool
is_stick stick = true
is_stick _ = false

abbrev pub abs : ℕ → ℕ
abs x = if is_neg32 x then neg32 x else x

unfoldable pub report_stick : List ℕ → Fields → Alps → Alps
report_stick p f s =
    let x = sign_extend8 (bit_or (field (byte p 0) 0 1 * 128) (field (byte p 1) 0 7)) in
    let y = sign_extend8 (bit_or (field (byte p 3) 0 1 * 128) (field (byte p 2) 0 7)) in
    if not (is_dualpoint s) || leb 0x7f (abs x) || leb 0x7f (abs y)
    then s
    else send_stick (div_signed x 3) (div_signed (neg32 y) 3)
        (button_mask f.ts_left f.ts_right f.ts_middle) s

-- From `priv.multi_packet = 0` on: a stick packet, or the contacts.
unfoldable pub finish_ss4_v2 : Outside → List ℕ → Fields → Alps → Alps
finish_ss4_v2 e p f s =
    let ended = record s { multi_packet = 0 } in
    let turned = reverse_y s f in
    if is_stick (packet_id p)
    then report_stick p f ended
    else alps_buttons turned (prepare_voodoo_input e turned f.fingers ended)

unfoldable pub process_packet_ss4_v2 : Outside → List ℕ → Alps → Alps
process_packet_ss4_v2 e p s =
    let f = (decode s p no_fields).1 in
    let both = (decode s s.multi_data f).1 in
    if s.ignoreall
    then s
    else if not (s.multi_packet == 0) && f.is_mp
    then (if both.is_mp then s else finish_ss4_v2 e p both s)
    else if f.is_mp
    then s
    else if f.first_mp
    then record s { multi_packet = 1; multi_data = p }
    else finish_ss4_v2 e p f s
