-- ===== src/Ring.antt =====
-- `RingBuffer<T, N>` of VoodooPS2Controller/ApplePS2Device.h: the FIFO that every driver fills at
-- interrupt time and empties from its work loop. The bytes are `cells`, of length `n` in a
-- well-formed buffer, and `n` is the template's N. `unsigned` arithmetic wraps at 2 ^ 32.
pub mod Window
pub mod Queue
pub mod Framed
use voodoo_ps2_focal_tech.Common.{
  ℕ, ◌+◌, ◌≤◌, ◌<◌, ◌≡◌, List, ltb, leb, ◌==◌, if◌then◌else◌, u32, sub32, get_or, set, length, ◌-◌,
}

pub record Ring : Type 0 where
  pub cells : List ℕ
  pub head : ℕ
  pub tail : ℕ

-- RingBuffer(): reset() of a buffer whose array holds anything.
unfoldable pub reset : Ring → Ring
reset r = record r { head = 0; tail = 0 }

unfoldable pub count_between : ℕ → ℕ → ℕ → ℕ
count_between n head tail = if leb tail head then head - tail else u32 (sub32 n tail + head)

unfoldable pub count : ℕ → Ring → ℕ
unfolding count_between
count n r = count_between n r.head r.tail

-- `if (i >= N) i = 0;` and `if (i >= N) i -= N;`
abbrev pub to_zero : ℕ → ℕ → ℕ
to_zero n i = if leb n i then 0 else i

abbrev pub less_n : ℕ → ℕ → ℕ
less_n n i = if leb n i then i - n else i

unfoldable pub push : ℕ → ℕ → Ring → Ring
push n x r =
    let new_head = to_zero n (u32 (r.head + 1)) in
    if new_head == r.tail then r else record r { cells = set r.cells r.head x; head = new_head }

-- No check for underflow, as the source says.
unfoldable pub fetch : ℕ → Ring → ℕ × Ring
fetch n r = (get_or r.cells r.tail 0, record r { tail = to_zero n (u32 (r.tail + 1)) })

-- `head()[k] = x` and `tail()[k]`: direct access, with no wrap-around.
unfoldable pub write_at_head : ℕ → ℕ → Ring → Ring
write_at_head k x r = record r { cells = set r.cells (r.head + k) x }

unfoldable pub read_at_tail : ℕ → Ring → ℕ
read_at_tail k r = get_or r.cells (r.tail + k) 0

unfoldable pub advance_head : ℕ → ℕ → Ring → Ring
unfolding count_between count
advance_head n move r =
    let new_head = less_n n (u32 (r.head + move)) in
    if leb (count n r) (count_between n new_head r.tail) then record r { head = new_head } else r

unfoldable pub advance_tail : ℕ → ℕ → Ring → Ring
advance_tail n move r = record r { tail = less_n n (u32 (r.tail + move)) }

-- The offsets are in the array, and the array is small enough that no sum of offsets wraps.
pub record IsRing (n : ℕ) (r : Ring) : Type 0 where
  pub size : length r.cells ≡ n
  pub small : n ≤ 0x1000_0000
  pub head_in : r.head < n
  pub tail_in : r.tail < n
