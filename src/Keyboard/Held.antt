-- ===== src/Keyboard/Held.antt =====
-- The vector of held keys: what KBV_KEYDOWN and KBV_KEYUP do to each key.
use voodoo_ps2_focal_tech.Common.{
  ℕ, ◌/◌, ◌%◌, ◌<◌, ◌≡◌, ◌≢◌, refl, arith, List, true, false, if◌then◌else◌, inl, inr, bit_set,
  set_bit, clear_bit, bit_set-set_bit, bit_set-clear_bit, length, length-modify, modify, ◌==◌,
  get_or, get_or-modify_self, get_or-modify_ne, Bool-cases,
}
use voodoo_ps2_focal_tech.Keyboard.{key_down, key_up, is_key_down}

-- Another key sits in another unit, or in another bit of the same unit.
other_unit :
    (v : List ℕ) (n j : ℕ) (f : ℕ → ℕ)
    → n / 32 ≢ j / 32
    → is_key_down j (modify v (n / 32) f) ≡ is_key_down j v
unfolding is_key_down
other_unit v n j f ne = rw (get_or-modify_ne v (n / 32) (j / 32) f 0 ne) refl

same_unit :
    (v : List ℕ) (n j : ℕ) (f : ℕ → ℕ)
    → n / 32 < length v
    → n / 32 ≡ j / 32
    → is_key_down j (modify v (n / 32) f) ≡ bit_set (f (get_or v (j / 32) 0)) (j % 32)
unfolding is_key_down
same_unit v n j f lt e = rw (← e, get_or-modify_self v (n / 32) f 0 lt) refl

pub is_key_down-key_down :
    (v : List ℕ) (n j : ℕ)
    → n / 32 < length v
    → is_key_down j (key_down n v) ≡ (if j == n then true else is_key_down j v)
unfolding key_down is_key_down
is_key_down-key_down v n j lt = elim (Bool-cases (n / 32 == j / 32)) [
  | inl e ↦ ground (
    arith,
    same_unit v n j (λ unit. set_bit unit (n % 32)) lt,
    bit_set-set_bit (get_or v (j / 32) 0) (n % 32) (j % 32),
  )
  | inr e ↦ ground (arith, other_unit v n j (λ unit. set_bit unit (n % 32)))
]

pub is_key_down-key_up :
    (v : List ℕ) (n j : ℕ)
    → n / 32 < length v
    → is_key_down j (key_up n v) ≡ (if j == n then false else is_key_down j v)
unfolding key_up is_key_down
is_key_down-key_up v n j lt = elim (Bool-cases (n / 32 == j / 32)) [
  | inl e ↦ ground (
    arith,
    same_unit v n j (λ unit. clear_bit unit (n % 32)) lt,
    bit_set-clear_bit (get_or v (j / 32) 0) (n % 32) (j % 32),
  )
  | inr e ↦ ground (arith, other_unit v n j (λ unit. clear_bit unit (n % 32)))
]

pub length-key_down : (v : List ℕ) (n : ℕ) → length (key_down n v) ≡ length v
unfolding key_down
length-key_down v n = length-modify v (n / 32) (λ unit. set_bit unit (n % 32))

pub length-key_up : (v : List ℕ) (n : ℕ) → length (key_up n v) ≡ length v
unfolding key_up
length-key_up v n = length-modify v (n / 32) (λ unit. clear_bit unit (n % 32))
