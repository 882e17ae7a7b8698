-- ===== src/Synaptics/Buttons.antt =====
-- The extended buttons: which bit of a packet is which button.
use voodoo_ps2_focal_tech.Common.{
  ℕ, zero, suc, ◌+◌, ◌*◌, ◌/◌, ◌%◌, ◌^◌, ◌<◌, ◌≡◌, ◌≢◌, ◌⊎◌, refl, sym, ap, ◌∙◌, arith, List, Bool,
  if◌then◌else◌, ◌==◌, bit_set, bit_set-suc, low_bits,
}
use native.Mathlib.Nat.{
  pow-suc, div-add-mod, mod-lt, mod-eq_of_lt, mul_assoc, add-mul-mod_self_left, div-div-eq-div-mul,
}
use voodoo_ps2_focal_tech.Alps.{byte, field}
use voodoo_ps2_focal_tech.Synaptics.{Synaptics, spread, parse_ext_btns}

pow-pos : (e : ℕ) → 0 < 2 ^ e
pow-pos zero = omega arith
pow-pos (suc e) = omega (arith, pow-suc 2 e, pow-pos e)

-- A number is its low bits and a multiple.
split_low :
    (x e : ℕ)
    → let q = x / 2 ^ suc e in (x ≡ 2 * (2 ^ e * q) + x % 2 ^ suc e) × (x % 2 ^ suc e < 2 * 2 ^ e)
split_low x e =
    let q = x / 2 ^ suc e in
    let doubled : 2 ^ suc e * q ≡ 2 * (2 ^ e * q) =
      ap (λ n. n * q) (omega (arith, pow-suc 2 e)) ∙ mul_assoc 2 (2 ^ e) q in
    (
      omega (arith, div-add-mod x (2 ^ suc e), doubled),
      omega (arith, mod-lt x (pow-pos (suc e)), pow-suc 2 e),
    )

low_bits-half : (x e : ℕ) → low_bits x (suc e) / 2 ≡ low_bits (x / 2) e
low_bits-half x e =
    let q = x / 2 ^ suc e in
    let (whole, small) = split_low x e in
    let half : x / 2 ≡ low_bits x (suc e) / 2 + 2 ^ e * q = omega (arith, whole) in
    sym (
      ap (λ n. n % 2 ^ e) half
      ∙ add-mul-mod_self_left (low_bits x (suc e) / 2) (2 ^ e) q
      ∙ mod-eq_of_lt (omega (arith, small)))

bit_set-low_bits : (e x k : ℕ) → k < e → bit_set (low_bits x e) k ≡ bit_set x k
bit_set-low_bits zero x k h = absurd (omega arith)
bit_set-low_bits (suc e) x zero h =
    let (whole, small) = split_low x e in
    let parity : low_bits x (suc e) % 2 ≡ x % 2 = omega (arith, whole) in ground (arith, parity)
bit_set-low_bits (suc e) x (suc k) h =
    bit_set-suc (low_bits x (suc e)) k
    ∙ ap (λ n. bit_set n k) (low_bits-half x e)
    ∙ bit_set-low_bits e (x / 2) k (omega arith)
    ∙ sym (bit_set-suc x k)

field-suc : (b i : ℕ) → field b (suc i) 1 ≡ field (b / 2) i 1
field-suc b i = rw (div-div-eq-div-mul b 2 (2 ^ i), pow-suc 2 i) (ground arith)

power : (i : ℕ) → (2 ^ (2 * suc i) ≡ 4 * 2 ^ (2 * i)) × (2 ^ (2 * suc i + 1) ≡ 4 * 2 ^ (2 * i + 1))
power i =
    let twice : 2 * suc i ≡ suc (suc (2 * i)) = omega arith in
    let more : 2 * suc i + 1 ≡ suc (suc (2 * i + 1)) = omega arith in
    (
      ap (λ n. 2 ^ n) twice ∙ omega (arith, pow-suc 2 (suc (2 * i)), pow-suc 2 (2 * i)),
      ap (λ n. 2 ^ n) more ∙ omega (arith, pow-suc 2 (suc (2 * i + 1)), pow-suc 2 (2 * i + 1)),
    )

scale : (f p p' : ℕ) → p' ≡ 4 * p → f < 2 → f * p' ≡ 4 * (f * p)
scale zero p p' h small = omega arith
scale (suc zero) p p' h small = omega arith
scale (suc (suc f)) p p' h small = absurd (omega arith)

spread-suc : (n i b4 b5 : ℕ) → spread n (suc i) b4 b5 ≡ 4 * spread n i (b4 / 2) (b5 / 2)
unfolding spread
spread-suc zero i b4 b5 = refl
spread-suc (suc n) i b4 b5 =
    let (even, odd) = power i in
    rw (field-suc b4 i, field-suc b5 i)
      (omega (
        arith,
        spread-suc n (suc i) b4 b5,
        scale (field (b4 / 2) i 1) (2 ^ (2 * i)) (2 ^ (2 * suc i)) even (omega arith),
        scale (field (b5 / 2) i 1) (2 ^ (2 * i + 1)) (2 ^ (2 * suc i + 1)) odd (omega arith),
      ))

spread_pair :
    (n b4 b5 : ℕ) → spread (suc n) 0 b4 b5 ≡ b4 % 2 + b5 % 2 * 2 + 4 * spread n 0 (b4 / 2) (b5 / 2)
unfolding spread
spread_pair n b4 b5 = omega (arith, spread-suc n 0 b4 b5)

-- Button `k` of a packet: byte 4 has the even ones and byte 5 the odd ones.
abbrev pub button_bit : ℕ → ℕ → ℕ → Bool
button_bit b4 b5 k = if k % 2 == 0 then bit_set b4 (k / 2) else bit_set b5 (k / 2)

button_bit-suc : (b4 b5 k : ℕ) → button_bit b4 b5 (suc (suc k)) ≡ button_bit (b4 / 2) (b5 / 2) k
button_bit-suc b4 b5 k =
    let parity : suc (suc k) % 2 ≡ k % 2 = omega arith in
    let half : suc (suc k) / 2 ≡ suc (k / 2) = omega arith in
    rw (parity, half, bit_set-suc b4 (k / 2), bit_set-suc b5 (k / 2)) refl

bit_set-spread : (n b4 b5 k : ℕ) → k < 2 * n → bit_set (spread n 0 b4 b5) k ≡ button_bit b4 b5 k
bit_set-spread zero b4 b5 k h = absurd (omega arith)
bit_set-spread (suc n) b4 b5 zero h = ground (arith, spread_pair n b4 b5)
bit_set-spread (suc n) b4 b5 (suc zero) h = ground (arith, spread_pair n b4 b5)
bit_set-spread (suc n) b4 b5 (suc (suc k)) h =
    let whole = spread_pair n b4 b5 in
    let quarter : spread (suc n) 0 b4 b5 / 2 / 2 ≡ spread n 0 (b4 / 2) (b5 / 2) =
      omega (arith, whole) in
    bit_set-suc (spread (suc n) 0 b4 b5) (suc k)
    ∙ bit_set-suc (spread (suc n) 0 b4 b5 / 2) k
    ∙ ap (λ m. bit_set m k) quarter
    ∙ bit_set-spread n (b4 / 2) (b5 / 2) k (omega arith)
    ∙ sym (button_bit-suc b4 b5 k)

-- A packet that changes the extended buttons, and is no extended packet, gives the pad's buttons in the
-- order of the packet's layout, button k from bit k / 2 of byte 4 if k is even and of byte 5 if it is
-- odd, and they are remembered; a packet that does not change them, and an extended packet (w is 2), leaves
-- the buttons as they were last.
pub parse_ext_btns-button_bit :
    (p : List ℕ) (w k : ℕ) (s : Synaptics)
    → k < s.extended_btns
    → let (buttons, t) = parse_ext_btns p w s in
      (t.last_extended_buttons ≡ buttons)
      × (field (byte p 0) 1 1 ≢ field (byte p 3) 1 1
          → w ≢ 2
          → bit_set buttons k ≡ button_bit (byte p 4) (byte p 5) k)
      × ((field (byte p 0) 1 1 ≡ field (byte p 3) 1 1) ⊎ (w ≡ 2)
          → buttons ≡ s.last_extended_buttons)
unfolding parse_ext_btns
parse_ext_btns-button_bit p w k s h =
    let n = (s.extended_btns + 1) / 2 in
    let all = spread n 0 (byte p 4) (byte p 5) in
    let bit =
      bit_set-low_bits s.extended_btns all k h
      ∙ bit_set-spread n (byte p 4) (byte p 5) k (omega arith) in
    (
      ground arith,
      λ differ normal. ground (arith, bit, differ, normal),
      λ kept. ground (arith, kept),
    )
