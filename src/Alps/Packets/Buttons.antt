-- ===== src/Alps/Packets/Buttons.antt =====
-- The buttons: what `alps_buttons` sends over a series of packets, and what the handlers of versions
-- 3 and 6 make of the buttons of the stick.
use voodoo_ps2_focal_tech.Common.{
  div_signed, append-nil, append_assoc, ℕ, ◌≡◌, ◌≢◌, refl, sym, ap, ◌∙◌, arith, List, [], ◌∷◌, ◌++◌,
  Bool, true, false, not, ◌&&◌, ◌||◌, if◌then◌else◌, Option, none, some, ◌==◌, Bool-cases, inl, inr,
  bit_set, bit_or, sign_extend8, neg32, ◌*◌, ◌⊎◌,
}
use voodoo_ps2_focal_tech.Alps.{
  Alps, Fields, Message, relative, scroll, frame, is_buttonpad, is_dualpoint, byte, field,
}
use voodoo_ps2_focal_tech.Alps.Packets.{
  process_trackstick_v3, process_packet_v6, button_mask, send_stick,
}
use voodoo_ps2_focal_tech.Alps.Touch.{
  Click, click, click_all, send_click, send_change, alps_buttons, send_relative, send_scroll,
}

-- The event has a mask where the click has begun, 0 where it has ended, and may have none where it is
-- as it was.
abbrev agrees : Bool → Option ℕ → Bool → Bool
agrees was none now = (was && now) || (not was && not now)
agrees was (some m) now = (now && not (m == 0)) || (not now && m == 0)

click-agrees :
    (was : Bool) (mask : ℕ) (before down : Bool) (c : Click)
    → mask ≢ 0
    → agrees was c.buttons c.clicked ≡ true
    → agrees was (click mask before down c).buttons (click mask before down c).clicked ≡ true
unfolding click
click-agrees was mask true true c some_bit h = h
click-agrees was mask true false c some_bit h = refl
click-agrees was mask false true c some_bit h = ground arith
click-agrees was mask false false c some_bit h = h

start-agrees : (was : Bool) → agrees was none was ≡ true
start-agrees true = refl
start-agrees false = refl

click_all-agrees :
    (f : Fields) (s : Alps)
    → agrees s.clicked (click_all f s).buttons (click_all f s).clicked ≡ true
unfolding click_all
click_all-agrees f s =
    let start : Click = record { buttons = none; clicked = s.clicked } in
    let pad = if is_buttonpad s then start else click 1 s.left f.left start in
    let right = click 2 s.right (f.right || f.ts_right) pad in
    let middle = click 4 s.middle (f.middle || f.ts_middle) right in
    let begin : agrees s.clicked pad.buttons pad.clicked ≡ true =
      elim (Bool-cases (is_buttonpad s)) [
        | inl pad_click ↦ rw pad_click (start-agrees s.clicked)
        | inr own ↦
            rw own
              (click-agrees s.clicked 1 s.left f.left start (omega arith) (start-agrees s.clicked))
      ] in
    click-agrees s.clicked 1 s.left_ts f.ts_left middle (omega arith) (
      click-agrees s.clicked 4 s.middle (f.middle || f.ts_middle) right (omega arith)
        (click-agrees s.clicked 2 s.right (f.right || f.ts_right) pad (omega arith) begin))

-- The messages, from a state of the click on: a button goes down, then all are released, and so on.
abbrev pub alternates : Bool → List Message → Bool
alternates held [] = true
alternates held (relative x y b ∷ ms) =
    x == 0 && y == 0 && (if held then b == 0 else not (b == 0)) && alternates (not held) ms
alternates held (scroll x y ∷ ms) = false
alternates held (frame e ∷ ms) = false

abbrev pub held_after : Bool → List Message → Bool
held_after held [] = held
held_after held (m ∷ ms) = held_after (not held) ms

abbrev pub run_buttons : List Fields → Alps → Alps
run_buttons [] s = s
run_buttons (f ∷ fs) s = run_buttons fs (alps_buttons f s)

abbrev message_of : Option ℕ → List Message
message_of none = []
message_of (some b) = relative 0 0 b ∷ []

abbrev sent : Bool → Option ℕ → Bool → List Message
sent true o true = []
sent true o false = message_of o
sent false o true = message_of o
sent false o false = []

send_click-log : (o : Option ℕ) (s : Alps) → (send_click o s).log ≡ s.log ++ message_of o
unfolding send_click
send_click-log none s = sym (append-nil s.log)
send_click-log (some b) s = refl

send_click-clicked : (o : Option ℕ) (s : Alps) → (send_click o s).clicked ≡ s.clicked
unfolding send_click
send_click-clicked none s = refl
send_click-clicked (some b) s = refl

send_change-sent :
    (was now : Bool) (o : Option ℕ) (s : Alps)
    → ((send_change was (record { buttons = o; clicked = now }) s).log ≡ s.log ++ sent was o now)
      × ((send_change was (record { buttons = o; clicked = now }) s).clicked ≡ s.clicked)
unfolding send_change
send_change-sent true true o s = (sym (append-nil s.log), refl)
send_change-sent true false o s = (send_click-log o s, send_click-clicked o s)
send_change-sent false true o s = (send_click-log o s, send_click-clicked o s)
send_change-sent false false o s = (sym (append-nil s.log), refl)

sent-alternates :
    (was now : Bool) (o : Option ℕ) (ms : List Message)
    → agrees was o now ≡ true
    → alternates now ms ≡ true
    → (alternates was (sent was o now ++ ms) ≡ true)
      × (held_after was (sent was o now ++ ms) ≡ held_after now ms)
sent-alternates true true o ms h rest = (rest, refl)
sent-alternates true false none ms h rest = absurd (ground arith)
sent-alternates true false (some b) ms h rest = (ground arith, refl)
sent-alternates false true none ms h rest = absurd (ground arith)
sent-alternates false true (some b) ms h rest = (ground arith, refl)
sent-alternates false false o ms h rest = (rest, refl)

-- Over any series of packets, the clicks that are sent are a button going down, then the release,
-- and so on, and the last one is the state that the driver keeps.
pub run_buttons_lem :
    (fs : List Fields) (s : Alps)
    → (ms : List Message) × ((run_buttons fs s).log ≡ s.log ++ ms)
      × (alternates s.clicked ms ≡ true)
      × (held_after s.clicked ms ≡ (run_buttons fs s).clicked)
unfolding alps_buttons
run_buttons_lem [] s = ([], sym (append-nil s.log), refl, refl)
run_buttons_lem (f ∷ fs) s =
    let c = click_all f s in
    let (log, kept) = send_change-sent s.clicked c.clicked c.buttons (record s {
      left = f.left;
      right = f.right || f.ts_right;
      middle = f.middle || f.ts_middle;
      left_ts = f.ts_left;
      clicked = c.clicked;
    }) in
    let (ms, grown, alternate, last) = run_buttons_lem fs (alps_buttons f s) in
    let now = sent s.clicked c.buttons c.clicked in
    let alternate' : alternates c.clicked ms ≡ true =
      ap (λ b. alternates b ms) (sym kept) ∙ alternate in
    let (fits, ends) =
      sent-alternates s.clicked c.clicked c.buttons ms (click_all-agrees f s) alternate' in
    (
      now ++ ms,
      grown ∙ ap (λ l. l ++ ms) log ∙ append_assoc s.log now ms,
      fits,
      ends ∙ ap (λ b. held_after b ms) (sym kept) ∙ last,
    )

held_on : (raw last : ℕ) → last ≢ 0 → (if raw == 0 then last else raw) ≢ 0
held_on raw last h = ground (arith, h)

-- A button is held in a motion; a scroll is what a stick sends while its middle button is held.
abbrev pub is_held : Message → Bool
is_held (relative x y b) = not (b == 0)
is_held (scroll x y) = true
is_held (frame e) = false

send_stick-held :
    (x y b : ℕ) (s : Alps)
    → b ≢ 0
    → (m : Message) × ((send_stick x y b s).log ≡ s.log ++ m ∷ []) × (is_held m ≡ true)
unfolding send_scroll send_relative
send_stick-held x y b s h = elim (Bool-cases (bit_set b 2)) [
  | inl middle ↦ rw middle (_, refl, refl)
  | inr no_middle ↦ rw no_middle (_, refl, ground arith)
]

send_stick-last : (x y b : ℕ) (s : Alps) → (send_stick x y b s).last_buttons ≡ s.last_buttons
unfolding send_scroll send_relative
send_stick-last x y b s = ground arith

-- Once a button of the stick was seen, each later packet of the stick, whatever it says of the buttons,
-- is either ignored or sent as a scroll or as a motion with a button held, and the driver still
-- keeps a button as held.
pub process_trackstick_v3-held :
    (p : List ℕ) (s : Alps)
    → s.last_buttons ≢ 0
    → ((process_trackstick_v3 p s).last_buttons ≢ 0)
      × ((process_trackstick_v3 p s ≡ s)
          ⊎ ((m : Message) × ((process_trackstick_v3 p s).log ≡ s.log ++ m ∷ [])
              × (is_held m ≡ true)))
unfolding process_trackstick_v3
process_trackstick_v3-held p s h =
    let x = sign_extend8 (bit_or (field (byte p 0) 5 1 * 128) (field (byte p 1) 0 7)) in
    let y = sign_extend8 (bit_or (field (byte p 0) 4 1 * 128) (field (byte p 2) 0 7)) in
    let pressed =
      button_mask (bit_set (byte p 3) 0) (bit_set (byte p 3) 1) (bit_set (byte p 3) 2) in
    let quirk = s.trackstick_buttons || not (pressed == 0) in
    let raw_buttons = if quirk then pressed else 0 in
    let buttons = if raw_buttons == 0 then s.last_buttons else raw_buttons in
    let some_button : buttons ≢ 0 = held_on raw_buttons s.last_buttons h in
    let moved = record s { trackstick_buttons = quirk; last_buttons = buttons } in
    let ignored =
      not (is_dualpoint s)
      || not (bit_set (byte p 0) 6)
      || (byte p 1 == 0x7f && byte p 2 == 0x7f && byte p 4 == 0x7f) in
    elim (Bool-cases ignored) [
      | inl skip ↦ rw skip (h, inl refl)
      | inr go ↦ rw go (
        (λ e.
            some_button
              (sym (send_stick-last (div_signed x 8) (neg32 (div_signed y 8)) buttons moved) ∙ e)),
        inr (send_stick-held (div_signed x 8) (neg32 (div_signed y 8)) buttons moved some_button),
      )
    ]

-- Neither the right nor the middle button is held.
abbrev pub is_left_only : Message → Bool
is_left_only (relative x y b) = not (bit_set b 1) && not (bit_set b 2)
is_left_only (scroll x y) = true
is_left_only (frame e) = true

even_bit : (n : ℕ) → (bit_set (n * 2) 0 ≡ false) × (bit_set (n * 4) 0 ≡ false)
even_bit n = (ground arith, ground arith)

abbrev no_others : ℕ → Bool
no_others b = not (bit_set b 1) && not (bit_set b 2)

left_only :
    (l : Bool) (r m : ℕ) → no_others (button_mask l (bit_set (r * 2) 0) (bit_set (m * 4) 0)) ≡ true
left_only true r m = rw ((even_bit r).0, (even_bit m).1) refl
left_only false r m = rw ((even_bit r).0, (even_bit m).1) refl

-- Whatever the packet says, version 6 sends nothing, or a motion in which neither the right nor the
-- middle button is held.
pub process_packet_v6_left_only :
    (p : List ℕ) (s : Alps)
    → ((process_packet_v6 p s).log ≡ s.log)
      ⊎ ((m : Message) × ((process_packet_v6 p s).log ≡ s.log ++ m ∷ []) × (is_left_only m ≡ true))
unfolding process_packet_v6 send_relative
process_packet_v6_left_only p s = elim (Bool-cases s.ignoreall) [
  | inl off ↦ rw off (inl refl)
  | inr on ↦ elim (Bool-cases (byte p 5 == 0x7f)) [
    | inl point ↦ elim (Bool-cases (is_dualpoint s)) [
      | inl dual ↦
          rw (on, point, dual)
            (inr (_, refl, left_only _ (field (byte p 3) 1 1) (field (byte p 3) 2 1)))
      | inr single ↦ rw (on, point, single) (inl refl)
    ]
    | inr pad ↦ rw (on, pad) (inr (_, refl, left_only _ (field (byte p 3) 1 1) 0))
  ]
]
