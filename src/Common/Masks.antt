-- ===== src/Common/Masks.antt =====
-- Single bits of a word: `x |= 1 << k` and `x &= ~(1 << k)` as arithmetic, and what they do to each
-- bit of the word.
use Prim.Native.Nat.{ℕ, zero, suc, ◌+◌, ◌-◌, ◌*◌, ◌/◌, ◌%◌, ◌^◌, ◌≤◌}
use mathlib.Core.Path.{◌≡◌, ◌∙◌}
use mathlib.Core.Bool.{Bool, true, false}
use native.Mathlib.Nat.{pow-suc, div-div-eq-div-mul}
use native.Mathlib.Omega.{arith}
use voodoo_ps2_focal_tech.Common.Tests.{if◌then◌else◌, ◌==◌}
use voodoo_ps2_focal_tech.Common.Words.{bit_set}

abbrev pub set_bit : ℕ → ℕ → ℕ
set_bit x k = if bit_set x k then x else x + 2 ^ k

abbrev pub clear_bit : ℕ → ℕ → ℕ
clear_bit x k = if bit_set x k then x - 2 ^ k else x

pub bit_set-suc : (x k : ℕ) → bit_set x (suc k) ≡ bit_set (x / 2) k
bit_set-suc x k = rw (div-div-eq-div-mul x 2 (2 ^ k), pow-suc 2 k) (ground arith)

set_bit-half : (x k : ℕ) → set_bit x (suc k) ≡ 2 * set_bit (x / 2) k + x % 2
set_bit-half x k = ground (arith, bit_set-suc x k, pow-suc 2 k)

pub bit_at_least : (x k : ℕ) → bit_set x k ≡ true → 2 ^ k ≤ x
bit_at_least x zero h = ground arith
bit_at_least x (suc k) h =
    ground (
      arith,
      bit_set-suc x k,
      pow-suc 2 k,
      bit_at_least (x / 2) k (ground (arith, bit_set-suc x k)),
    )

clear_bit-half : (x k : ℕ) → clear_bit x (suc k) ≡ 2 * clear_bit (x / 2) k + x % 2
clear_bit-half x k = ground (arith, bit_set-suc x k, pow-suc 2 k, bit_at_least (x / 2) k)

if_suc : (j k : ℕ) (b c : Bool) → (if j == k then b else c) ≡ (if suc j == suc k then b else c)
if_suc j k b c = ground arith

pub bit_set-set_bit : (x k j : ℕ) → bit_set (set_bit x k) j ≡ (if j == k then true else bit_set x j)
bit_set-set_bit x zero zero = ground arith
bit_set-set_bit x zero (suc j) =
    let half : set_bit x 0 / 2 ≡ x / 2 = ground arith in
    rw (bit_set-suc (set_bit x 0) j, half, bit_set-suc x j) (ground arith)
bit_set-set_bit x (suc k) zero = rw (set_bit-half x k) (ground arith)
bit_set-set_bit x (suc k) (suc j) =
    let half : set_bit x (suc k) / 2 ≡ set_bit (x / 2) k = omega (arith, set_bit-half x k) in
    rw (bit_set-suc (set_bit x (suc k)) j, half, bit_set-suc x j)
      (bit_set-set_bit (x / 2) k j ∙ if_suc j k true (bit_set (x / 2) j))

pub bit_set-clear_bit :
    (x k j : ℕ) → bit_set (clear_bit x k) j ≡ (if j == k then false else bit_set x j)
bit_set-clear_bit x zero zero = ground arith
bit_set-clear_bit x zero (suc j) =
    let half : clear_bit x 0 / 2 ≡ x / 2 = ground arith in
    rw (bit_set-suc (clear_bit x 0) j, half, bit_set-suc x j) (ground arith)
bit_set-clear_bit x (suc k) zero = rw (clear_bit-half x k) (ground arith)
bit_set-clear_bit x (suc k) (suc j) =
    let half : clear_bit x (suc k) / 2 ≡ clear_bit (x / 2) k = omega (arith, clear_bit-half x k) in
    rw (bit_set-suc (clear_bit x (suc k)) j, half, bit_set-suc x j)
      (bit_set-clear_bit (x / 2) k j ∙ if_suc j k false (bit_set (x / 2) j))
