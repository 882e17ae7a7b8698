-- ===== src/Alps/Packets/Bitmap4.antt =====
-- The bitmap of version 4, which comes in three packets.
use voodoo_ps2_focal_tech.Common.{
  ℕ, suc, ◌+◌, ◌*◌, ◌≤◌, ◌≡◌, refl, ap, ◌∙◌, arith, List, [], ◌∷◌, Bool, true, false, ◌||◌,
  if◌then◌else◌, ltb, leb, bit_set, set, length, none,
}
use voodoo_ps2_focal_tech.Alps.{Alps, Fields, Outside, byte}
use voodoo_ps2_focal_tech.Alps.Bitmap.{process_bitmap}
use voodoo_ps2_focal_tech.Alps.Touch.{alps_buttons, prepare_voodoo_input}
use voodoo_ps2_focal_tech.Alps.Touch.Kept.{alps_buttons-IsKept, prepare_voodoo_input-IsKept}
use voodoo_ps2_focal_tech.Alps.Packets.{
  process_packet_v4, finish_v4, v4_fields, v4_x_map, v4_y_map, use_st,
}

-- What is collected: the packets so far, the bytes, and whether input is ignored.
abbrev pub Collected : ℕ → List ℕ → Alps → Type 0
Collected n bytes s = (s.multi_packet ≡ n) × (s.multi_data ≡ bytes) × (s.ignoreall ≡ false)

report-Collected :
    (e : Outside) (f : Fields) (m n : ℕ) (bytes : List ℕ) (s : Alps)
    → Collected n bytes s
    → Collected n bytes (alps_buttons f (prepare_voodoo_input e f m s))
report-Collected e f m n bytes s h =
    let prepared = prepare_voodoo_input-IsKept e f m s in
    let reported = alps_buttons-IsKept f (prepare_voodoo_input e f m s) in
    (
      reported.multi_packet ∙ prepared.multi_packet ∙ h.0,
      reported.multi_data ∙ prepared.multi_data ∙ h.1,
      reported.ignoreall ∙ prepared.ignoreall ∙ h.2,
    )

if-Collected :
    (n : ℕ) (bytes : List ℕ) (b : Bool) (x y : Alps)
    → (b ≡ true → Collected n bytes x)
    → (b ≡ false → Collected n bytes y)
    → Collected n bytes (if b then x else y)
if-Collected n bytes true x y h g = h refl
if-Collected n bytes false x y h g = g refl

process_bitmap-Collected :
    (f : Fields) (n : ℕ) (bytes : List ℕ) (s : Alps)
    → Collected n bytes s
    → Collected n bytes (process_bitmap f s).2
unfolding process_bitmap
process_bitmap-Collected f n bytes s h = ground (arith, h)

finish_v4-Collected :
    (e : Outside) (f : Fields) (n : ℕ) (bytes : List ℕ) (s : Alps)
    → Collected n bytes s
    → Collected n bytes (finish_v4 e f s)
unfolding finish_v4
finish_v4-Collected e f n bytes s h =
    let single = record (use_st f) { fingers = if ltb 0 f.pressure then 1 else 0 } in
    if-Collected n bytes (ltb f.fingers 2) _ _
      (λ few. report-Collected e single single.fingers n bytes (record s { second_touch = none }) h)
      (λ several. report-Collected e f f.fingers n bytes s h)

-- A packet adds its two bytes; the third one completes the bitmap.
process_packet_v4-Collected :
    (e : Outside) (f : Fields) (p : List ℕ) (s : Alps) (step : ℕ)
    → (if bit_set (byte p 6) 6 then 0 else s.multi_packet) ≡ step
    → step ≤ 2
    → s.ignoreall ≡ false
    → Collected
        (if leb 2 step then 0 else suc step)
        (set (set s.multi_data (2 * step) (byte p 6)) (2 * step + 1) (byte p 7))
        (process_packet_v4 e f p s)
unfolding process_packet_v4
process_packet_v4-Collected e f p s step at few on =
    let step' = if bit_set (byte p 6) 6 then 0 else s.multi_packet in
    let stored = set (set s.multi_data (2 * step') (byte p 6)) (2 * step' + 1) (byte p 7) in
    let decoded = v4_fields p f in
    let mapped = record decoded { x_map = v4_x_map stored; y_map = v4_y_map stored } in
    let ended = record s { multi_packet = 0; multi_data = stored } in
    let (count, placed, after) = process_bitmap mapped ended in
    let n = if leb 2 step then 0 else suc step in
    let bytes = set (set s.multi_data (2 * step) (byte p 6)) (2 * step + 1) (byte p 7) in
    let same : stored ≡ bytes =
      ap (λ k. set (set s.multi_data (2 * k) (byte p 6)) (2 * k + 1) (byte p 7)) at in
    let going_on = record s { multi_packet = suc step'; multi_data = stored } in
    let complete = finish_v4 e (record placed { fingers = count }) after in
    let started = finish_v4 e decoded going_on in
    if-Collected n bytes (s.ignoreall || leb 3 step')
      (if s.ignoreall then s else record s { multi_packet = step' })
      (if leb 2 step' then complete else started) (λ off. absurd (ground (arith, off, on, at, few)))
      (λ goes.
        if-Collected n bytes (leb 2 step') complete started
          (λ third.
            finish_v4-Collected e (record placed { fingers = count }) n bytes after
              (process_bitmap-Collected mapped n bytes ended (ground (arith, at, third), same, on)))
          (λ early.
            finish_v4-Collected e decoded n bytes going_on (ground (arith, at, early), same, on)))

-- The bytes of one packet, the `k`-th.
abbrev put : ℕ → ℕ → ℕ → List ℕ → List ℕ
put k a b m = set (set m (2 * k) a) (2 * k + 1) b

put_all :
    (a b c d e f : ℕ) (m : List ℕ)
    → length m ≡ 6
    → put 2 e f (put 1 c d (put 0 a b m)) ≡ a ∷ b ∷ c ∷ d ∷ e ∷ f ∷ []
put_all a b c d e f [] h = absurd (omega (arith, h))
put_all a b c d e f (_ ∷ []) h = absurd (omega (arith, h))
put_all a b c d e f (_ ∷ _ ∷ []) h = absurd (omega (arith, h))
put_all a b c d e f (_ ∷ _ ∷ _ ∷ []) h = absurd (omega (arith, h))
put_all a b c d e f (_ ∷ _ ∷ _ ∷ _ ∷ []) h = absurd (omega (arith, h))
put_all a b c d e f (_ ∷ _ ∷ _ ∷ _ ∷ _ ∷ []) h = absurd (omega (arith, h))
put_all a b c d e f (_ ∷ _ ∷ _ ∷ _ ∷ _ ∷ _ ∷ []) h = refl
put_all a b c d e f (_ ∷ _ ∷ _ ∷ _ ∷ _ ∷ _ ∷ _ ∷ m) h = absurd (omega (arith, h))

-- Wherever the collection stands, a packet with the sync bit and two packets without it leave the six
-- bytes of the bitmap, in the order in which they came, and a new collection begins.
pub process_packet_v4_thrice :
    (e : Outside) (f g h : Fields) (p q r : List ℕ) (s : Alps)
    → length s.multi_data ≡ 6
    → s.ignoreall ≡ false
    → bit_set (byte p 6) 6 ≡ true
    → bit_set (byte q 6) 6 ≡ false
    → bit_set (byte r 6) 6 ≡ false
    → Collected 0
        (byte p 6 ∷ byte p 7 ∷ byte q 6 ∷ byte q 7 ∷ byte r 6 ∷ byte r 7 ∷ [])
        (process_packet_v4 e h r (process_packet_v4 e g q (process_packet_v4 e f p s)))
process_packet_v4_thrice e f g h p q r s size on sync next last =
    let s1 = process_packet_v4 e f p s in
    let s2 = process_packet_v4 e g q s1 in
    let (n1, b1, on1) =
      process_packet_v4-Collected e f p s 0 (ground (arith, sync)) (omega arith) on in
    let (n2, b2, on2) =
      process_packet_v4-Collected e g q s1 1 (ground (arith, next, n1)) (omega arith) on1 in
    let (n3, b3, on3) =
      process_packet_v4-Collected e h r s2 2 (ground (arith, last, n2)) (omega arith) on2 in
    (
      n3,
      b3
          ∙ ap (put 2 (byte r 6) (byte r 7)) (b2 ∙ ap (put 1 (byte q 6) (byte q 7)) b1)
          ∙ put_all (byte p 6) (byte p 7) (byte q 6) (byte q 7) (byte r 6) (byte r 7) s.multi_data
              size,
      on3,
    )
