-- ===== src/Keyboard/Modifiers.antt =====
-- The modifier keys: which keys the flag table makes modifiers, and what the modifier state holds
-- after any sequence of key events.
use voodoo_ps2_focal_tech.Common.{
  ℕ, zero, suc, ◌+◌, ◌-◌, ◌/◌, ◌<◌, ◌≡◌, ◌≢◌, inl, inr, refl, arith, ap, ◌∙◌, List, [], ◌∷◌, Bool,
  true, false, not, clear_bit, ◌==◌, if◌then◌else◌, leb, bit_set, get_or, bit_set-set_bit,
  bit_set-clear_bit, Bool-cases, ◌&&◌, ◌||◌, length, All,
}
use voodoo_ps2_focal_tech.Keyboard.{Keyboard, track_modifier, track_event}
use voodoo_ps2_focal_tech.Keyboard.Flags.{ps2_flags_stock}

-- The modifiers by their scan codes, `0x100` standing for $E0, in the order of the kMask constants.
abbrev pub modifier_codes : List ℕ
modifier_codes = 0x1d ∷ 0x11d ∷ 0x2a ∷ 0x36 ∷ 0x38 ∷ 0x138 ∷ 0x15b ∷ 0x15c ∷ 0x163 ∷ 0x15d ∷ []

abbrev pub modifier_code : ℕ → ℕ
modifier_code n = get_or modifier_codes n 0

-- A test of each entry of a table with its index.
unfoldable pub all_from : (ℕ → ℕ → Bool) → ℕ → List ℕ → Bool
all_from test i [] = true
all_from test i (x ∷ xs) = test i x && all_from test (suc i) xs

pub all_from-get_or :
    (test : ℕ → ℕ → Bool) (i : ℕ) (xs : List ℕ) (k : ℕ)
    → all_from test i xs ≡ true
    → k < length xs
    → test (i + k) (get_or xs k 0) ≡ true
unfolding all_from
all_from-get_or test i [] k h lt = absurd (omega arith)
all_from-get_or test i (x ∷ xs) zero h lt = ground arith
all_from-get_or test i (x ∷ xs) (suc k) h lt =
    ground (arith, all_from-get_or test (suc i) xs k (ground arith) (omega arith))

abbrev is_own_modifier : ℕ → ℕ → Bool
is_own_modifier key flags =
    flags / 256 == 0 || (leb (flags / 256) 10 && modifier_code (flags / 256 - 1) == key)

stock_checked : all_from is_own_modifier 0 ps2_flags_stock ≡ true
unfolding all_from
stock_checked = refl

codes_checked :
    all_from (λ n code. get_or ps2_flags_stock code 0 / 256 == n + 1) 0 modifier_codes ≡ true
unfolding all_from
codes_checked = refl

-- Press and release events, by key number, in the order of arrival.
unfoldable pub track_events : Bool → List (ℕ × Bool) → Keyboard → Keyboard
track_events remap [] m = m
track_events remap ((key, down) ∷ rest) m = track_events remap rest (track_event remap key down m)

-- What one event makes of modifier `n`, for a map of the keys: a press or release of its own key says so,
-- and a PrntScr key that counts says that left Alt (4) is down and right Alt (5) is up.
abbrev pub bit_after : Bool → List ℕ → ℕ → ℕ × Bool → Bool → Bool
bit_after remap codes n (key, down) before =
    let code = get_or codes key 0 in
    let own = if key == modifier_code n then down else before in
    if (not down && (key == 0x71 || key == 0x72)) || key == 0x12a
    then before
    else if code == 0x128 || (code == 0x54 && remap)
    then (if n == 4 then true else if n == 5 then false else own)
    else own

-- What the events say in the end, and `initially` when none concerns the modifier.
unfoldable pub last_of : Bool → List ℕ → ℕ → List (ℕ × Bool) → Bool → Bool
last_of remap codes n [] initially = initially
last_of remap codes n (e ∷ rest) initially =
    last_of remap codes n rest (bit_after remap codes n e initially)

owner :
    (b n key : ℕ)
    → b ≡ n + 1
    → (b == 0 || (leb b 10 && modifier_code (b - 1) == 0 + key)) ≡ true
    → key ≡ modifier_code n
owner b n key e own = let back : b - 1 ≡ n = omega (arith, e) in ground (arith, own, e, back)

number : ℕ → List ℕ → ℕ
number key flags = get_or flags key 0 / 256

own_number :
    (n key : ℕ)
    → n < 10
    → key < 512
    → (key ≡ modifier_code n → number key ps2_flags_stock ≡ n + 1)
      × (number key ps2_flags_stock ≡ n + 1 → key ≡ modifier_code n)
unfolding number
own_number n key lt in_table =
    let own = all_from-get_or is_own_modifier 0 ps2_flags_stock key stock_checked in_table in
    let named =
      all_from-get_or (λ k code. get_or ps2_flags_stock code 0 / 256 == k + 1) 0 modifier_codes n
        codes_checked lt in
    (λ e. rw e (ground (arith, named)), λ e. owner (number key ps2_flags_stock) n key e own)

bit_of_own :
    (n key : ℕ) (down : Bool) (m : Keyboard)
    → number key m.ps2_flags ≡ n + 1
    → bit_set (track_modifier key down m).modifier_state n ≡ down
unfolding track_modifier number
bit_of_own n key down m e =
    let before : get_or m.ps2_flags key 0 / 256 - 1 ≡ n = omega (arith, e) in
    ground
      (arith, before, bit_set-set_bit m.modifier_state n n, bit_set-clear_bit m.modifier_state n n)

bit_of_other :
    (n key : ℕ) (down : Bool) (m : Keyboard)
    → number key m.ps2_flags ≢ n + 1
    → bit_set (track_modifier key down m).modifier_state n ≡ bit_set m.modifier_state n
unfolding track_modifier number
bit_of_other n key down m ne =
    let bit = get_or m.ps2_flags key 0 / 256 in
    ground (
      arith,
      ne,
      bit_set-set_bit m.modifier_state (bit - 1) n,
      bit_set-clear_bit m.modifier_state (bit - 1) n,
    )

track_modifier-bit :
    (n key : ℕ) (down : Bool) (m : Keyboard)
    → n < 10
    → key < 512
    → m.ps2_flags ≡ ps2_flags_stock
    → bit_set (track_modifier key down m).modifier_state n
      ≡ (if key == modifier_code n then down else bit_set m.modifier_state n)
track_modifier-bit n key down m lt in_table stock =
    let (own, only) = own_number n key lt in_table in
    elim (Bool-cases (key == modifier_code n)) [
      | inl same ↦ rw same (bit_of_own n key down m (rw stock (own (ground (arith, same)))))
      | inr other ↦
          rw other (bit_of_other n key down m (rw stock (λ e. ground (arith, only e, other))))
    ]

tables-kept :
    (remap : Bool) (key : ℕ) (down : Bool) (m : Keyboard)
    → ((track_event remap key down m).ps2_flags ≡ m.ps2_flags)
      × ((track_event remap key down m).ps2_to_ps2_map ≡ m.ps2_to_ps2_map)
unfolding track_event track_modifier
tables-kept remap key down m = ground arith

track_event-bit :
    (remap : Bool) (n key : ℕ) (down : Bool) (m : Keyboard)
    → n < 10
    → key < 512
    → m.ps2_flags ≡ ps2_flags_stock
    → bit_set (track_event remap key down m).modifier_state n
      ≡ bit_after remap m.ps2_to_ps2_map n (key, down) (bit_set m.modifier_state n)
unfolding track_event
track_event-bit remap n key down m lt in_table stock =
    let x = (track_modifier key down m).modifier_state in
    ground (
      arith,
      track_modifier-bit n key down m lt in_table stock,
      bit_set-set_bit (clear_bit x 5) 4 n,
      bit_set-clear_bit x 5 n,
    )

-- With the flags of the table, after any presses and releases of keys in the table, the bit of each of the
-- ten modifiers is what the last event that concerns it says: a press or release of that very key, or, for
-- the two Alt keys, an event of a key that the map makes a PrntScr key (0x128, or 0x54 if PrntScr is
-- remapped), which sets left Alt and clears right Alt. Breaks of LANG1 and LANG2 and the extra code of
-- PrintScreen (0x12a) say nothing.
pub track_events_last :
    (remap : Bool) (n : ℕ) (events : List (ℕ × Bool)) (m : Keyboard)
    → n < 10
    → All (λ (e : ℕ × Bool). e.0 < 512) events
    → m.ps2_flags ≡ ps2_flags_stock
    → bit_set (track_events remap events m).modifier_state n
      ≡ last_of remap m.ps2_to_ps2_map n events (bit_set m.modifier_state n)
unfolding track_events last_of
track_events_last remap n [] m lt in_table stock = refl
track_events_last remap n ((key, down) ∷ rest) m lt in_table stock =
    let (flags, codes) = tables-kept remap key down m in
    track_events_last remap n rest (track_event remap key down m) lt in_table.1 (flags ∙ stock)
    ∙ ap
        (λ (l : List ℕ).
          last_of remap l n rest (bit_set (track_event remap key down m).modifier_state n))
        codes
    ∙ ap (last_of remap m.ps2_to_ps2_map n rest)
        (track_event-bit remap n key down m lt in_table.0 stock)
