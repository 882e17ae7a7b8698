-- ===== src/Ring/Framed.antt =====
-- A ring whose offsets stand between packets of `n` bytes, for the sizes that the drivers use: 128
-- bytes with packets of 4, and 192 with packets of 4 or 6.
use voodoo_ps2_focal_tech.Common.{
  ℕ, ◌+◌, ◌%◌, ◌≤◌, ◌<◌, ◌≡◌, ◌≢◌, ◌⊎◌, refl, arith, length-set, get_or, get_or-set_self,
  get_or-set_ne,
}
use voodoo_ps2_focal_tech.Ring.{
  Ring, IsRing, count, count_between, write_at_head, advance_head, advance_tail,
}
use voodoo_ps2_focal_tech.Ring.Queue.{advance_head-IsRing, advance_tail-IsRing}

abbrev pub Divides : ℕ → ℕ → Type 0
Divides size n = (size ≡ 128 × n ≡ 4) ⊎ (size ≡ 192 × ((n ≡ 4) ⊎ (n ≡ 6)))

abbrev pub IsFramed : ℕ → ℕ → Ring → Type 0
IsFramed size n r = IsRing size r × (r.head % n ≡ 0) × (r.tail % n ≡ 0)

pub write_at_head-head :
    (size k x : ℕ) (r : Ring)
    → IsRing size r
    → ((write_at_head k x r).head ≡ r.head)
      × (k ≡ 0 → get_or (write_at_head k x r).cells r.head 0 ≡ x)
      × (k ≢ 0 → get_or (write_at_head k x r).cells r.head 0 ≡ get_or r.cells r.head 0)
unfolding write_at_head
write_at_head-head size k x r h = (
  refl,
  λ e. ground (arith, h, get_or-set_self r.cells (r.head + k) x 0),
  λ n. get_or-set_ne r.cells (r.head + k) r.head x 0 (λ e. n (omega arith)),
)

module _ (size n : ℕ) (r : Ring) (fits : Divides size n) where
  pub write_at_head-IsFramed : (k x : ℕ) → IsFramed size n r → IsFramed size n (write_at_head k x r)
  unfolding write_at_head
  write_at_head-IsFramed k x (h, p, q) = ground (arith, h, length-set r.cells (r.head + k) x)

  pub advance_head-IsFramed : IsFramed size n r → IsFramed size n (advance_head size n r)
  advance_head-IsFramed (h, p, q) = (
    advance_head-IsRing size n r h (omega (arith, fits)),
    unfold advance_head in ground (arith, h, fits),
    unfold advance_head in ground (arith, h, fits),
  )

  pub advance_tail-IsFramed : IsFramed size n r → IsFramed size n (advance_tail size n r)
  advance_tail-IsFramed (h, p, q) = (
    advance_tail-IsRing size n r h (omega (arith, fits)),
    unfold advance_tail in ground (arith, h, fits),
    unfold advance_tail in ground (arith, h, fits),
  )

  -- A packet that is freed is one fewer, and less than a packet is nothing.
  pub count-advance_tail :
      IsFramed size n r → n ≤ count size r → count size (advance_tail size n r) + n ≡ count size r
  unfolding count count_between advance_tail
  count-advance_tail (h, p, q) held = ground (arith, h, fits)

  pub nothing_left : IsFramed size n r → count size r < n → count size r ≡ 0
  unfolding count count_between
  nothing_left (h, p, q) few = ground (arith, h, fits)
