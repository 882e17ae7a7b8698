-- ===== src/Sentelic/Registers/Mangle.antt =====
-- The numbers that reach the pad, and what it makes of them.
use voodoo_ps2_focal_tech.Common.{
  ℕ, ◌-◌, ◌<◌, ◌≡◌, ◌≢◌, refl, arith, List, [], ◌∷◌, Bool, true, false, not, ◌&&◌, ◌||◌,
  if◌then◌else◌, ◌==◌, ltb, all_below, all_below-lt,
}
use voodoo_ps2_focal_tech.Sentelic.Registers.{swap_nibbles, mangle, select}

-- What a pad that behaves as a PS/2 mouse could take for something else: the seven sample rates, and the
-- commands status request (0xe9), wrap mode (0xee), identify (0xf2) and reset (0xff).
abbrev pub reserved : List ℕ
reserved = 10 ∷ 20 ∷ 40 ∷ 60 ∷ 80 ∷ 100 ∷ 200 ∷ 0xe9 ∷ 0xee ∷ 0xf2 ∷ 0xff ∷ []

abbrev pub contains : ℕ → List ℕ → Bool
contains v [] = false
contains v (x ∷ xs) = x == v || contains v xs

abbrev pub is_reserved : ℕ → Bool
is_reserved v = contains v reserved

-- What the pad makes of a selector and a byte.
unfoldable pub unmangle : ℕ → ℕ → ℕ → ℕ → ℕ
unmangle swapped inverted selector v =
    if selector == swapped then swap_nibbles v else if selector == inverted then 255 - v else v

abbrev is_mangled : ℕ → Bool
is_mangled v =
    not (is_reserved (mangle v))
    && ltb (mangle v) 256
    && unmangle 1 2 (select 0 1 2 v) (mangle v) == v

bytes_checked : all_below is_mangled 256 ≡ true
unfolding all_below mangle unmangle select
bytes_checked = refl

-- Any three selectors that differ say the same.
unmangle-select :
    (plain swapped inverted v : ℕ)
    → plain ≢ swapped
    → plain ≢ inverted
    → swapped ≢ inverted
    → unmangle swapped inverted (select plain swapped inverted v) (mangle v)
      ≡ unmangle 1 2 (select 0 1 2 v) (mangle v)
unfolding unmangle select
unmangle-select plain swapped inverted v p q r = ground (arith, p, q, r)

-- Every byte that is written as a register number or a value reaches the pad as a byte that is none of
-- 10, 20, 40, 60, 80, 100, 200, 0xe9, 0xee, 0xf2 and 0xff, and with the selector that goes with
-- it, it stands for the number that was meant, whichever three selectors are used.
pub mangle-unmangle :
    (plain swapped inverted v : ℕ)
    → plain ≢ swapped
    → plain ≢ inverted
    → swapped ≢ inverted
    → v < 256
    → (is_reserved (mangle v) ≡ false)
      × (mangle v < 256)
      × (unmangle swapped inverted (select plain swapped inverted v) (mangle v) ≡ v)
mangle-unmangle plain swapped inverted v p q r h = ground (
  arith,
  all_below-lt is_mangled 256 v bytes_checked h,
  unmangle-select plain swapped inverted v p q r,
)
