-- ===== src/Alps/Touch/Kept.antt =====
-- The reports and what they have no part in: the byte stream, the sequence of packets under way,
-- and the data of the device.
use voodoo_ps2_focal_tech.Common.{
  ℕ, ◌≡◌, refl, ◌∙◌, arith, Bool, true, false, Option, none, some, ltb, not, ◌&&◌, ◌||◌, ◌==◌,
  if◌then◌else◌, map,
}
use voodoo_ps2_focal_tech.Alps.{Alps, Fields, Outside, Message, emit, frame, max_touches}
use voodoo_ps2_focal_tech.Alps.Touch.{
  click_all, send_click, send_change, alps_buttons, send_relative, send_scroll, build_event,
  place_fingers, min, release, send_touch_data, prepare_voodoo_input, sub64,
}

pub record IsKept (s t : Alps) : Type 0 where
  pub ring : t.ring ≡ s.ring
  pub pktsize : t.pktsize ≡ s.pktsize
  pub multi_packet : t.multi_packet ≡ s.multi_packet
  pub multi_data : t.multi_data ≡ s.multi_data
  pub proto_version : t.proto_version ≡ s.proto_version
  pub process_packet : t.process_packet ≡ s.process_packet
  pub decode_fields : t.decode_fields ≡ s.decode_fields
  pub flags : t.flags ≡ s.flags
  pub dev_id : t.dev_id ≡ s.dev_id
  pub ignoreall : t.ignoreall ≡ s.ignoreall

pub IsKept-refl : (s : Alps) → IsKept s s
IsKept-refl s = record {
  ring = refl;
  pktsize = refl;
  multi_packet = refl;
  multi_data = refl;
  proto_version = refl;
  process_packet = refl;
  decode_fields = refl;
  flags = refl;
  dev_id = refl;
  ignoreall = refl;
}

pub IsKept-trans : (s t u : Alps) → IsKept s t → IsKept t u → IsKept s u
IsKept-trans s t u h g = record {
  ring = g.ring ∙ h.ring;
  pktsize = g.pktsize ∙ h.pktsize;
  multi_packet = g.multi_packet ∙ h.multi_packet;
  multi_data = g.multi_data ∙ h.multi_data;
  proto_version = g.proto_version ∙ h.proto_version;
  process_packet = g.process_packet ∙ h.process_packet;
  decode_fields = g.decode_fields ∙ h.decode_fields;
  flags = g.flags ∙ h.flags;
  dev_id = g.dev_id ∙ h.dev_id;
  ignoreall = g.ignoreall ∙ h.ignoreall;
}

pub if-IsKept :
    (s : Alps) (b : Bool) (x y : Alps) → IsKept s x → IsKept s y → IsKept s (if b then x else y)
if-IsKept s true x y h g = h
if-IsKept s false x y h g = g

emit-IsKept : (m : Message) (s : Alps) → IsKept s (emit m s)
emit-IsKept m s = ground arith

pub send_relative-IsKept : (x y b : ℕ) (s : Alps) → IsKept s (send_relative x y b s)
unfolding send_relative
send_relative-IsKept x y b s = ground arith

pub send_scroll-IsKept : (x y : ℕ) (s : Alps) → IsKept s (send_scroll x y s)
unfolding send_scroll
send_scroll-IsKept x y s = ground arith

send_click-IsKept : (o : Option ℕ) (s : Alps) → IsKept s (send_click o s)
unfolding send_click
send_click-IsKept none s = IsKept-refl s
send_click-IsKept (some b) s = ground arith

pub alps_buttons-IsKept : (f : Fields) (s : Alps) → IsKept s (alps_buttons f s)
unfolding alps_buttons send_change
alps_buttons-IsKept f s =
    let c = click_all f s in
    let stored = record s {
      left = f.left;
      right = f.right || f.ts_right;
      middle = f.middle || f.ts_middle;
      left_ts = f.ts_left;
      clicked = c.clicked;
    } in
    let same : IsKept s stored = ground arith in
    if-IsKept s ((s.clicked && not c.clicked) || (not s.clicked && c.clicked))
      (send_click c.buttons stored) stored
      (IsKept-trans s stored (send_click c.buttons stored) same
        (send_click-IsKept c.buttons stored))
      same

send_touch_data-IsKept : (e : Outside) (s : Alps) → IsKept s (send_touch_data e s)
unfolding send_touch_data
send_touch_data-IsKept e s =
    let event = build_event e s in
    let stored = record s { input_event = event } in
    let counted = record s { last_finger_count = s.clamped_finger_count } in
    let sent = if s.voodoo_input then emit (frame event) stored else stored in
    if-IsKept s (ltb (sub64 e.now s.keytime) s.maxaftertyping) s
      (if not (s.last_finger_count == s.clamped_finger_count) then counted else sent)
      (IsKept-refl s)
      (if-IsKept s (not (s.last_finger_count == s.clamped_finger_count)) counted sent (ground arith)
        (if-IsKept s s.voodoo_input (emit (frame event) stored) stored (ground arith)
          (ground arith)))

pub prepare_voodoo_input-IsKept :
    (e : Outside) (f : Fields) (fingers : ℕ) (s : Alps)
    → IsKept s (prepare_voodoo_input e f fingers s)
unfolding prepare_voodoo_input
prepare_voodoo_input-IsKept e f fingers s =
    let placed = record s {
      virtual_fingers = place_fingers f s (min 4 fingers) 0 (map release s.virtual_fingers);
      clamped_finger_count = if ltb max_touches fingers then max_touches else fingers;
      report_voodoo_input = s.report_voodoo_input || ltb 0 fingers;
    } in
    let quiet = record placed {
      report_voodoo_input = not (fingers == 0 && s.last_finger_count == 0);
    } in
    if-IsKept s (placed.report_voodoo_input) (send_touch_data e quiet) placed
      (IsKept-trans s quiet (send_touch_data e quiet) (ground arith)
        (send_touch_data-IsKept e quiet))
      (ground arith)
