-- ===== src/Elan/Check/Parity.antt =====
-- The parity table: elantechSetupPS2 fills it from an entry with one bit fewer.
use voodoo_ps2_focal_tech.Common.{
  ℕ, zero, suc, ◌+◌, ◌-◌, ◌/◌, ◌%◌, ◌≤◌, ◌<◌, ◌≡◌, refl, ◌∙◌, ap, arith, List, Bool, true, ◌&&◌,
  ◌||◌, ◌==◌, ltb, bit_and, bit_xor, get_or, set, length, length-set, get_or-set_self,
  get_or-set_ne, all_below, all_below-lt, Bool-cases, inl, inr,
}
use voodoo_ps2_focal_tech.Elan.Check.{fill_parity, setup_parity}

-- The number of ones among the lowest `n` bits.
unfoldable pub ones : ℕ → ℕ → ℕ
ones zero x = 0
ones (suc n) x = x % 2 + ones n (x / 2)

abbrev lower : ℕ → ℕ
lower i = bit_and i (i - 1)

abbrev is_lower : ℕ → Bool
is_lower i = i == 0 || (ltb (lower i) i && ones 8 i == suc (ones 8 (lower i)))

bytes_checked : all_below is_lower 256 ≡ true
unfolding all_below ones
bytes_checked = refl

lower_lem : (i : ℕ) → 0 < i → i < 256 → (lower i < i) × (ones 8 i ≡ suc (ones 8 (lower i)))
lower_lem i pos h = ground (arith, all_below-lt is_lower 256 i bytes_checked h)

flip : (b : ℕ) → b < 2 → bit_xor b 1 ≡ 1 - b
flip zero h = refl
flip (suc zero) h = refl
flip (suc (suc b)) h = absurd (omega arith)

abbrev pub even_parity : ℕ → ℕ
even_parity i = (ones 8 i + 1) % 2

abbrev IsParity : ℕ → List ℕ → Type 0
IsParity n t = (k : ℕ) → k < n → get_or t k 0 ≡ even_parity k

entry :
    (i : ℕ) (t : List ℕ)
    → 0 < i
    → i < 256
    → IsParity i t
    → bit_xor (get_or t (lower i) 0) 1 ≡ even_parity i
entry i t pos h known =
    let (less, more) = lower_lem i pos h in
    ap (λ b. bit_xor b 1) (known (lower i) less)
    ∙ flip (even_parity (lower i)) (omega arith)
    ∙ omega (arith, more)

set-IsParity :
    (i : ℕ) (t : List ℕ)
    → 0 < i
    → i < 256
    → length t ≡ 256
    → IsParity i t
    → IsParity (suc i) (set t i (bit_xor (get_or t (lower i) 0) 1))
set-IsParity i t pos h size known k below = elim (Bool-cases (k == i)) [
  | inl last ↦
      let here : k ≡ i = ground arith in
      rw (here, get_or-set_self t i (bit_xor (get_or t (lower i) 0) 1) 0 (omega arith))
        (entry i t pos h known)
  | inr earlier ↦
      get_or-set_ne t i k (bit_xor (get_or t (lower i) 0) 1) 0 (λ e. ground (arith, earlier, e))
      ∙ known k (ground arith)
]

fill_parity-IsParity :
    (n i : ℕ) (t : List ℕ)
    → 0 < i
    → i + n ≤ 256
    → length t ≡ 256
    → IsParity i t
    → IsParity (i + n) (fill_parity n i t)
unfolding fill_parity
fill_parity-IsParity zero i t pos h size known k below = known k (omega arith)
fill_parity-IsParity (suc n) i t pos h size known k below =
    let v = bit_xor (get_or t (lower i) 0) 1 in
    fill_parity-IsParity n (suc i) (set t i v) (omega arith) (omega arith)
      (omega (arith, length-set t i v)) (set-IsParity i t pos (omega arith) size known) k
      (omega arith)

-- Whatever the table held, the loop makes the entry of every byte its even parity: 1 if the byte has
-- an even number of ones, and 0 if an odd number.
pub setup_parity-ones :
    (t : List ℕ) (i : ℕ)
    → length t ≡ 256
    → i < 256
    → get_or (setup_parity t) i 0 ≡ (ones 8 i + 1) % 2
unfolding setup_parity
setup_parity-ones t i size h =
    fill_parity-IsParity 255 1 (set t 0 1) (omega arith) (omega arith)
      (omega (arith, length-set t 0 1))
      (λ k below.
        let here : k ≡ 0 = omega arith in
        rw (here, get_or-set_self t 0 1 0 (omega arith)) (unfold ones in refl))
      i h
