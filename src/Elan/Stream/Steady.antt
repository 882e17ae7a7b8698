-- ===== src/Elan/Stream/Steady.antt =====
-- The reports, the ring and the packet under way.
use voodoo_ps2_focal_tech.Common.{
  ℕ, suc, ◌+◌, ◌-◌, ◌*◌, ◌≡◌, refl, ◌∙◌, arith, List, Bool, true, false, not, ◌&&◌, if◌then◌else◌,
  ◌==◌, ltb, modify, u32, sub32, low_bits,
}
use voodoo_ps2_focal_tech.Alps.{byte, field}
use voodoo_ps2_focal_tech.Alps.Touch.{sub64}
use voodoo_ps2_focal_tech.Elan.{Elan, FingerPos, frame, emit}
use voodoo_ps2_focal_tech.Elan.Check.{
  PacketType, unknown, debounce, v3_head, v3_tail, v4_head, v4_motion, v4_status, trackpoint,
  debounce_check_v2, packet_check_v1, packet_check_v2, packet_check_v3, packet_check_v4,
}
use voodoo_ps2_focal_tech.Elan.Touch.{send_touch_data, build_event, report_buttons}
use voodoo_ps2_focal_tech.Elan.Absolute.{
  announce, rescale, lift_all, put_two, put_three, place_v1, place_v2, finish, keep_head,
  fingers_v1, full_x, full_y, is_head, report_absolute_v1, report_absolute_v2, report_absolute_v3,
}
use voodoo_ps2_focal_tech.Elan.Slots.{
  take_buttons, touch_fingers, count_fingers, place_head, status_v4, head_v4, motion_v4,
  report_absolute_v4,
}
use voodoo_ps2_focal_tech.Elan.Trackpoint.{is_trackpoint, report_trackpoint}
use voodoo_ps2_focal_tech.Elan.Stream.{
  process_v1, process_v2, process_v3, process_v4, process_packet,
}

pub record IsSteady (s t : Elan) : Type 0 where
  pub ring : t.ring ≡ s.ring
  pub packet_length : t.packet_length ≡ s.packet_length
  pub packet_byte_count : t.packet_byte_count ≡ s.packet_byte_count

steady : (s : Elan) → IsSteady s s
steady s = record { ring = refl; packet_length = refl; packet_byte_count = refl }

IsSteady-trans : {s t u : Elan} → IsSteady s t → IsSteady t u → IsSteady s u
IsSteady-trans h g = record {
  ring = g.ring ∙ h.ring;
  packet_length = g.packet_length ∙ h.packet_length;
  packet_byte_count = g.packet_byte_count ∙ h.packet_byte_count;
}

if-IsSteady :
    (s : Elan) (b : Bool) (x y : Elan)
    → IsSteady s x
    → IsSteady s y
    → IsSteady s (if b then x else y)
if-IsSteady s true x y h g = h
if-IsSteady s false x y h g = g

report_buttons-IsSteady : (n : ℕ) (s : Elan) → IsSteady s (report_buttons n s)
unfolding report_buttons
report_buttons-IsSteady n s = ground arith

-- A report from a state that has the ring of `s`.
send-IsSteady : (now : ℕ) (s t : Elan) → IsSteady s t → IsSteady s (send_touch_data now t)
unfolding send_touch_data
send-IsSteady now s t h =
    let event = build_event t in
    let stored = record t { input_event = event } in
    if-IsSteady s (ltb (sub64 now t.keytime) t.maxaftertyping) t _ h (
      IsSteady-trans h (
        IsSteady-trans
          (if-IsSteady t t.voodoo_input (emit (frame event) stored) stored (ground arith)
            (ground arith))
          (report_buttons-IsSteady _ _)))

rescale-IsSteady : (x y : ℕ) (s : Elan) → IsSteady s (rescale x y s)
unfolding rescale announce
rescale-IsSteady x y s = ground arith

place_v1-IsSteady :
    (p : List ℕ) (n x y : ℕ) (s t : Elan)
    → IsSteady s t
    → IsSteady s (place_v1 p n x y (lift_all p t))
unfolding place_v1 lift_all put_two put_three
place_v1-IsSteady p n x y s t h = ground arith

finish-IsSteady :
    (now : ℕ) (p : List ℕ) (n : ℕ) (a b : FingerPos) (s t : Elan)
    → IsSteady s t
    → IsSteady s (finish now p n a b t)
unfolding finish place_v2 lift_all put_three
finish-IsSteady now p n a b s t h = send-IsSteady now s _ (ground arith)

report_absolute_v1-IsSteady :
    (now : ℕ) (p : List ℕ) (s : Elan) → IsSteady s (report_absolute_v1 now p s)
unfolding report_absolute_v1
report_absolute_v1-IsSteady now p s =
    let fingers = fingers_v1 p s in
    let again =
      if s.info.jumpy_cursor && not (fingers == 1)
      then record s { single_finger_reports = 0 }
      else s in
    let x = field (byte p 1) 2 2 * 256 + byte p 2 in
    let y = sub32 s.info.y_max (field (byte p 1) 0 2 * 256 + byte p 3) in
    let placed = place_v1-IsSteady p fingers x y s again (ground arith) in
    if-IsSteady s (s.info.jumpy_cursor && fingers == 1 && ltb s.single_finger_reports 2)
      (record s { single_finger_reports = suc s.single_finger_reports }) _ (ground arith)
      (send-IsSteady now s
        (record (place_v1 p fingers x y (lift_all p again)) { last_fingers = fingers })
        (ground (arith, placed)))

report_absolute_v2-IsSteady :
    (now : ℕ) (p : List ℕ) (s : Elan) → IsSteady s (report_absolute_v2 now p s)
unfolding report_absolute_v2
report_absolute_v2-IsSteady now p s =
    let fingers = field (byte p 0) 6 2 in
    if-IsSteady s (fingers == 2) _ _ (finish-IsSteady now p _ _ _ s s (steady s)) (
      if-IsSteady s (fingers == 0) _ _ (finish-IsSteady now p _ _ _ s s (steady s))
        (finish-IsSteady now p _ _ _ s s (steady s)))

report_absolute_v3-IsSteady :
    (now : ℕ) (kind : PacketType) (p : List ℕ) (s : Elan)
    → IsSteady s (report_absolute_v3 now kind p s)
unfolding report_absolute_v3 keep_head
report_absolute_v3-IsSteady now kind p s =
    let fingers = field (byte p 0) 6 2 in
    let scaled = rescale (full_x p) (full_y p) s in
    let h = rescale-IsSteady (full_x p) (full_y p) s in
    if-IsSteady s (fingers == 2) _ _
      (if-IsSteady s (is_head kind) (keep_head p s) _ (ground arith)
        (finish-IsSteady now p _ _ _ s scaled h))
      (if-IsSteady s (fingers == 0) _ _ (finish-IsSteady now p _ _ _ s s (steady s))
        (finish-IsSteady now p _ _ _ s scaled h))

status_v4-IsSteady : (now : ℕ) (p : List ℕ) (s : Elan) → IsSteady s (status_v4 now p s)
unfolding status_v4
status_v4-IsSteady now p s =
    let fingers = low_bits (byte p 1) 5 in
    let count = count_fingers fingers 0 s.virtual_finger in
    let told = record (take_buttons p s) {
      virtual_finger = touch_fingers fingers 0 s.virtual_finger;
      held_fingers = count;
      head_packets_count = 0;
    } in
    if-IsSteady s (count == 0) _ told (send-IsSteady now s told (ground arith)) (ground arith)

head_v4-IsSteady : (now : ℕ) (p : List ℕ) (s : Elan) → IsSteady s (head_v4 now p s)
unfolding head_v4
head_v4-IsSteady now p s =
    let id = field (byte p 3) 5 3 in
    let counted = record (take_buttons p s) {
      head_packets_count = u32 (s.head_packets_count + 1);
    } in
    let placed = record counted {
      virtual_finger = modify s.virtual_finger (id - 1) (place_head p s.info.y_max);
    } in
    if-IsSteady s (id == 0) counted _ (ground arith) (
      if-IsSteady s (placed.head_packets_count == placed.held_fingers) _ placed
        (send-IsSteady now s (record placed { head_packets_count = 0 }) (ground arith))
        (ground arith))

motion_v4-IsSteady : (now : ℕ) (p : List ℕ) (s : Elan) → IsSteady s (motion_v4 now p s)
unfolding motion_v4
motion_v4-IsSteady now p s =
    let told = take_buttons p s in
    if-IsSteady s (field (byte p 0) 5 3 == 0) told _ (ground arith)
      (send-IsSteady now s (record told { virtual_finger = _ }) (ground arith))

report_absolute_v4-IsSteady :
    (now : ℕ) (kind : PacketType) (p : List ℕ) (s : Elan)
    → IsSteady s (report_absolute_v4 now kind p s)
unfolding report_absolute_v4
report_absolute_v4-IsSteady now v4_status p s = status_v4-IsSteady now p s
report_absolute_v4-IsSteady now v4_head p s = head_v4-IsSteady now p s
report_absolute_v4-IsSteady now v4_motion p s = motion_v4-IsSteady now p s
report_absolute_v4-IsSteady now unknown p s = steady s
report_absolute_v4-IsSteady now debounce p s = steady s
report_absolute_v4-IsSteady now v3_head p s = steady s
report_absolute_v4-IsSteady now v3_tail p s = steady s
report_absolute_v4-IsSteady now trackpoint p s = steady s

report_trackpoint-IsSteady :
    (now : ℕ) (p : List ℕ) (s : Elan) → IsSteady s (report_trackpoint now p s)
unfolding report_trackpoint
report_trackpoint-IsSteady now p s = if-IsSteady s (is_trackpoint p) _ s (ground arith) (steady s)

process_v3-IsSteady :
    (kind : PacketType) (now : ℕ) (p : List ℕ) (s : Elan) → IsSteady s (process_v3 kind now p s)
unfolding process_v3
process_v3-IsSteady unknown now p s = steady s
process_v3-IsSteady debounce now p s = steady s
process_v3-IsSteady trackpoint now p s = report_trackpoint-IsSteady now p s
process_v3-IsSteady v3_head now p s = report_absolute_v3-IsSteady now v3_head p s
process_v3-IsSteady v3_tail now p s = report_absolute_v3-IsSteady now v3_tail p s
process_v3-IsSteady v4_head now p s = report_absolute_v3-IsSteady now v4_head p s
process_v3-IsSteady v4_motion now p s = report_absolute_v3-IsSteady now v4_motion p s
process_v3-IsSteady v4_status now p s = report_absolute_v3-IsSteady now v4_status p s

process_v4-IsSteady :
    (kind : PacketType) (now : ℕ) (p : List ℕ) (s : Elan) → IsSteady s (process_v4 kind now p s)
unfolding process_v4
process_v4-IsSteady unknown now p s = steady s
process_v4-IsSteady trackpoint now p s = report_trackpoint-IsSteady now p s
process_v4-IsSteady debounce now p s = report_absolute_v4-IsSteady now debounce p s
process_v4-IsSteady v3_head now p s = report_absolute_v4-IsSteady now v3_head p s
process_v4-IsSteady v3_tail now p s = report_absolute_v4-IsSteady now v3_tail p s
process_v4-IsSteady v4_head now p s = report_absolute_v4-IsSteady now v4_head p s
process_v4-IsSteady v4_motion now p s = report_absolute_v4-IsSteady now v4_motion p s
process_v4-IsSteady v4_status now p s = report_absolute_v4-IsSteady now v4_status p s

-- Whatever a packet holds, it leaves the ring, the packet length and the packet under way alone.
pub process_packet-IsSteady :
    (now : ℕ) (p : List ℕ) (s : Elan) → IsSteady s (process_packet now p s)
unfolding process_packet process_v1 process_v2
process_packet-IsSteady now p s =
    let v1 =
      if-IsSteady s (s.info.paritycheck && not (packet_check_v1 p s)) s _ (steady s)
        (report_absolute_v1-IsSteady now p s) in
    let v2 = if-IsSteady s (debounce_check_v2 p) s _ (steady s) (
      if-IsSteady s (s.info.paritycheck && not (packet_check_v2 p s.info.reports_pressure)) s _
        (steady s) (report_absolute_v2-IsSteady now p s)) in
    if-IsSteady s (s.info.hw_version == 1) _ _ v1 (
      if-IsSteady s (s.info.hw_version == 2) _ _ v2 (
        if-IsSteady s (s.info.hw_version == 3) _ _
          (process_v3-IsSteady (packet_check_v3 p s.info.crc_enabled) now p s)
          (if-IsSteady s (s.info.hw_version == 4) _ s
            (process_v4-IsSteady (packet_check_v4 p s.info) now p s) (steady s))))
