-- ===== src/Alps/Stream/Steady.antt =====
-- The packet handlers, the ring and the size of a packet.
use voodoo_ps2_focal_tech.Common.{
  ℕ, suc, ◌+◌, ◌*◌, ◌≡◌, refl, ◌∙◌, arith, List, Bool, true, false, not, ◌&&◌, ◌||◌, ◌==◌,
  if◌then◌else◌, ltb, leb, none, bit_set, set,
}
use voodoo_ps2_focal_tech.Alps.{
  Alps, Fields, no_fields, Outside, PacketHandler, byte, process_v1_v2, process_v3, process_v4,
  touchpad_v3_v5, process_v6, process_v7, process_ss4_v2,
}
use voodoo_ps2_focal_tech.Alps.Bitmap.{process_bitmap}
use voodoo_ps2_focal_tech.Alps.Touch.{
  alps_buttons, send_relative, send_scroll, prepare_voodoo_input,
}
use voodoo_ps2_focal_tech.Alps.Touch.Kept.{alps_buttons-IsKept, prepare_voodoo_input-IsKept}
use voodoo_ps2_focal_tech.Alps.Packets.{
  alps_process_packet_v1_v2, process_trackstick_v3, process_touchpad_v3_v5, process_packet_v3,
  process_packet_v4, process_packet_v6, finish_semi_mt, finish_v4, reverse_y, use_st, decode,
  v4_fields, v4_x_map, v4_y_map,
}
use voodoo_ps2_focal_tech.Alps.Stream.{process_packet, process_with}
use voodoo_ps2_focal_tech.Alps.Packets.V7.{
  process_packet_v7, process_touchpad_v7, process_trackstick_v7,
}
use voodoo_ps2_focal_tech.Alps.Packets.V8.{process_packet_ss4_v2, finish_ss4_v2, report_stick}

abbrev pub IsSteady : Alps → Alps → Type 0
IsSteady s t = (t.ring ≡ s.ring) × (t.pktsize ≡ s.pktsize)

if-IsSteady :
    (s : Alps) (b : Bool) (x y : Alps)
    → IsSteady s x
    → IsSteady s y
    → IsSteady s (if b then x else y)
if-IsSteady s true x y h g = h
if-IsSteady s false x y h g = g

-- A report of contacts and buttons, from a state with the ring of `s`.
report-IsSteady :
    (e : Outside) (f : Fields) (n : ℕ) (s t : Alps)
    → IsSteady s t
    → IsSteady s (alps_buttons f (prepare_voodoo_input e f n t))
report-IsSteady e f n s t h =
    let prepared = prepare_voodoo_input-IsKept e f n t in
    let reported = alps_buttons-IsKept f (prepare_voodoo_input e f n t) in
    (reported.ring ∙ prepared.ring ∙ h.0, reported.pktsize ∙ prepared.pktsize ∙ h.1)

process_bitmap-IsSteady : (f : Fields) (s : Alps) → IsSteady s (process_bitmap f s).2
unfolding process_bitmap
process_bitmap-IsSteady f s = ground arith

finish_semi_mt-IsSteady :
    (e : Outside) (f : Fields) (n : ℕ) (s t : Alps)
    → IsSteady s t
    → IsSteady s (finish_semi_mt e f n t)
unfolding finish_semi_mt
finish_semi_mt-IsSteady e f n s t h =
    if-IsSteady s (ltb n 2) _ _
      (report-IsSteady e (reverse_y t (use_st f)) (if ltb 0 f.pressure then 1 else 0) s
        (record t { multi_packet = 0; second_touch = none }) h)
      (report-IsSteady e (reverse_y t f) n s (record t { multi_packet = 0 }) h)

process_touchpad_v3_v5-IsSteady :
    (e : Outside) (p : List ℕ) (s : Alps) → IsSteady s (process_touchpad_v3_v5 e p s)
unfolding process_touchpad_v3_v5
process_touchpad_v3_v5-IsSteady e p s =
    let f = (decode s p no_fields).1 in
    let both = (decode s s.multi_data f).1 in
    let (count, merged, after) = process_bitmap both s in
    let merging = process_bitmap-IsSteady both s in
    if-IsSteady s s.ignoreall s _ (refl, refl)
      (if-IsSteady s (not (s.multi_packet == 0) && f.is_mp) _ _
        (if-IsSteady s merged.is_mp after _ merging
          (finish_semi_mt-IsSteady e merged (if count == 0 then 0 else f.fingers) s after merging))
        (if-IsSteady s f.is_mp s _ (refl, refl)
          (if-IsSteady s f.first_mp (record s { multi_packet = 1; multi_data = p }) _ (refl, refl)
            (finish_semi_mt-IsSteady e f 0 s s (refl, refl)))))

finish_v4-IsSteady :
    (e : Outside) (f : Fields) (s t : Alps) → IsSteady s t → IsSteady s (finish_v4 e f t)
unfolding finish_v4
finish_v4-IsSteady e f s t h =
    if-IsSteady s (ltb f.fingers 2) _ _
      (report-IsSteady e _ _ s (record t { second_touch = none }) h)
      (report-IsSteady e f f.fingers s t h)

process_trackstick_v3-IsSteady : (p : List ℕ) (s : Alps) → IsSteady s (process_trackstick_v3 p s)
unfolding process_trackstick_v3 send_relative send_scroll
process_trackstick_v3-IsSteady p s = ground arith

process_packet_v6-IsSteady : (p : List ℕ) (s : Alps) → IsSteady s (process_packet_v6 p s)
unfolding process_packet_v6 send_relative
process_packet_v6-IsSteady p s = ground arith

process_packet_v1_v2-IsSteady : (p : List ℕ) (s : Alps) → IsSteady s (alps_process_packet_v1_v2 p s)
unfolding alps_process_packet_v1_v2 send_relative send_scroll
process_packet_v1_v2-IsSteady p s = ground arith

process_packet_v4-IsSteady :
    (e : Outside) (f : Fields) (p : List ℕ) (s : Alps) → IsSteady s (process_packet_v4 e f p s)
unfolding process_packet_v4
process_packet_v4-IsSteady e f p s =
    let step = if bit_set (byte p 6) 6 then 0 else s.multi_packet in
    let stored = set (set s.multi_data (2 * step) (byte p 6)) (2 * step + 1) (byte p 7) in
    let decoded = v4_fields p f in
    let mapped = record decoded { x_map = v4_x_map stored; y_map = v4_y_map stored } in
    let ended = record s { multi_packet = 0; multi_data = stored } in
    let (count, placed, after) = process_bitmap mapped ended in
    if-IsSteady s (s.ignoreall || leb 3 step) _ _
      (if-IsSteady s s.ignoreall s (record s { multi_packet = step }) (refl, refl) (refl, refl))
      (if-IsSteady s (leb 2 step) _ _
        (finish_v4-IsSteady e (record placed { fingers = count }) s after
          (process_bitmap-IsSteady mapped ended))
        (finish_v4-IsSteady e decoded s (record s { multi_packet = suc step; multi_data = stored })
          (refl, refl)))

process_touchpad_v7-IsSteady :
    (e : Outside) (p : List ℕ) (s : Alps) → IsSteady s (process_touchpad_v7 e p s)
unfolding process_touchpad_v7
process_touchpad_v7-IsSteady e p s =
    if-IsSteady s _ s _ (refl, refl) (report-IsSteady e _ _ s s (refl, refl))

process_trackstick_v7-IsSteady : (p : List ℕ) (s : Alps) → IsSteady s (process_trackstick_v7 p s)
unfolding process_trackstick_v7 send_relative send_scroll
process_trackstick_v7-IsSteady p s = ground arith

report_stick-IsSteady : (p : List ℕ) (f : Fields) (s : Alps) → IsSteady s (report_stick p f s)
unfolding report_stick send_relative send_scroll
report_stick-IsSteady p f s = ground arith

finish_ss4_v2-IsSteady :
    (e : Outside) (p : List ℕ) (f : Fields) (s : Alps) → IsSteady s (finish_ss4_v2 e p f s)
unfolding finish_ss4_v2
finish_ss4_v2-IsSteady e p f s =
    if-IsSteady s _ _ _ (report_stick-IsSteady p f (record s { multi_packet = 0 }))
      (report-IsSteady e (reverse_y s f) f.fingers s (record s { multi_packet = 0 }) (refl, refl))

process_packet_ss4_v2-IsSteady :
    (e : Outside) (p : List ℕ) (s : Alps) → IsSteady s (process_packet_ss4_v2 e p s)
unfolding process_packet_ss4_v2
process_packet_ss4_v2-IsSteady e p s =
    let f = (decode s p no_fields).1 in
    let both = (decode s s.multi_data f).1 in
    if-IsSteady s s.ignoreall s _ (refl, refl)
      (if-IsSteady s (not (s.multi_packet == 0) && f.is_mp) _ _
        (if-IsSteady s both.is_mp s _ (refl, refl) (finish_ss4_v2-IsSteady e p both s))
        (if-IsSteady s f.is_mp s _ (refl, refl)
          (if-IsSteady s f.first_mp (record s { multi_packet = 1; multi_data = p }) _ (refl, refl)
            (finish_ss4_v2-IsSteady e p f s))))

process_packet_v3-IsSteady :
    (e : Outside) (p : List ℕ) (s : Alps) → IsSteady s (process_packet_v3 e p s)
unfolding process_packet_v3
process_packet_v3-IsSteady e p s =
    if-IsSteady s (byte p 5 == 0x3f) _ _ (process_trackstick_v3-IsSteady p s)
      (process_touchpad_v3_v5-IsSteady e p s)

process_packet_v7-IsSteady :
    (e : Outside) (p : List ℕ) (s : Alps) → IsSteady s (process_packet_v7 e p s)
unfolding process_packet_v7
process_packet_v7-IsSteady e p s =
    if-IsSteady s _ _ _ (process_trackstick_v7-IsSteady p s) (process_touchpad_v7-IsSteady e p s)

process_with-IsSteady :
    (h : PacketHandler) (e : Outside) (f : Fields) (p : List ℕ) (s : Alps)
    → IsSteady s (process_with h e f p s)
unfolding process_with
process_with-IsSteady process_v1_v2 e f p s = process_packet_v1_v2-IsSteady p s
process_with-IsSteady process_v3 e f p s = process_packet_v3-IsSteady e p s
process_with-IsSteady process_v4 e f p s = process_packet_v4-IsSteady e f p s
process_with-IsSteady touchpad_v3_v5 e f p s = process_touchpad_v3_v5-IsSteady e p s
process_with-IsSteady process_v6 e f p s = process_packet_v6-IsSteady p s
process_with-IsSteady process_v7 e f p s = process_packet_v7-IsSteady e p s
process_with-IsSteady process_ss4_v2 e f p s = process_packet_ss4_v2-IsSteady e p s

-- Whatever the packet holds, its handler leaves the ring and the size of a packet alone.
pub process_packet-IsSteady :
    (e : Outside) (f : Fields) (p : List ℕ) (s : Alps) → IsSteady s (process_packet e f p s)
process_packet-IsSteady e f p s = process_with-IsSteady s.process_packet e f p s
