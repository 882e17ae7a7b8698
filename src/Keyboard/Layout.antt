-- ===== src/Keyboard/Layout.antt =====
-- The ADB codes that the stock table gives the main block of keys.
use voodoo_ps2_focal_tech.Common.{
  ℕ, zero, suc, ◌+◌, ◌<◌, ◌≡◌, ◌≢◌, refl, sym, ap, ◌∙◌, arith, List, [], ◌∷◌, Bool, true, ◌==◌,
  ◌||◌, if◌then◌else◌, get_or, take, Bool-cases, inl, inr,
}
use voodoo_ps2_focal_tech.Keyboard.AdbMap.{ps2_to_adb_map_stock, deadkey}
use voodoo_ps2_focal_tech.Keyboard.Modifiers.{all_from, all_from-get_or}

first_index : ℕ → List ℕ → ℕ
first_index code [] = 0
first_index code (x ∷ xs) = if x == code then 0 else suc (first_index code xs)

abbrev main_block : List ℕ
main_block = take 0x5c ps2_to_adb_map_stock

abbrev is_first : ℕ → ℕ → Bool
is_first key code = code == deadkey || first_index code main_block == key

block_checked : all_from is_first 0 main_block ≡ true
unfolding all_from first_index
block_checked = refl

get_or-take : (n k : ℕ) (xs : List ℕ) → k < n → get_or (take n xs) k 0 ≡ get_or xs k 0
get_or-take zero k xs h = absurd (omega arith)
get_or-take (suc n) k [] h = refl
get_or-take (suc n) zero (x ∷ xs) h = refl
get_or-take (suc n) (suc k) (x ∷ xs) h = get_or-take n k xs (omega arith)

resolve :
    (code entry key : ℕ)
    → entry ≡ code
    → (entry == deadkey || first_index entry main_block == 0 + key) ≡ true
    → code ≢ deadkey
    → first_index code main_block ≡ key
resolve code entry key e test live = elim (Bool-cases (entry == deadkey)) [
  | inl dead ↦ absurd (live (ground (arith, dead, e)))
  | inr other ↦ rw (← e) (ground (arith, test, other))
]

first_of :
    (key : ℕ)
    → key < 0x5c
    → get_or ps2_to_adb_map_stock key 0 ≢ deadkey
    → first_index (get_or ps2_to_adb_map_stock key 0) main_block ≡ key
first_of key h live =
    let test = all_from-get_or is_first 0 main_block key block_checked h in
    resolve (get_or ps2_to_adb_map_stock key 0) (get_or main_block key 0) key
      (get_or-take 0x5c key ps2_to_adb_map_stock h) test live

-- Among the plain scan codes below $5C, which hold all keys of the main block and the keypad, no two
-- are given the same ADB code, unless it is that of a dead key.
pub adb_codes_distinct :
    (i j : ℕ)
    → i < 0x5c
    → j < 0x5c
    → i ≢ j
    → get_or ps2_to_adb_map_stock i 0 ≢ deadkey
    → get_or ps2_to_adb_map_stock i 0 ≢ get_or ps2_to_adb_map_stock j 0
adb_codes_distinct i j hi hj other live same = other (
    sym (first_of i hi live)
    ∙ ap (λ code. first_index code main_block) same
    ∙ first_of j hj (λ e. live (same ∙ e)))
