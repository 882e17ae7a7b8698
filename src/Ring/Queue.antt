-- ===== src/Ring/Queue.antt =====
-- The ring buffer as a bounded first-in first-out queue of bytes.
use voodoo_ps2_focal_tech.Common.{
  ℕ, suc, ◌+◌, ◌≤◌, ◌<◌, ◌≡◌, refl, ◌≢◌, arith, List, [], ◌∷◌, ◌++◌, ltb, if◌then◌else◌, get_or,
  set, get_or-set_self, length, length-set, sym, Bool-cases, inl, inr,
}
use voodoo_ps2_focal_tech.Ring.{
  Ring, IsRing, count, count_between, push, fetch, less_n, advance_head, advance_tail,
}
use voodoo_ps2_focal_tech.Ring.Window.{
  window, length-window, window_snoc, window-set, offset, window_split,
}

-- The queue that a buffer stands for: the oldest byte first.
unfoldable pub contents : ℕ → Ring → List ℕ
contents n r = window n r.cells (count n r) r.tail

-- The abstract queue of at most n - 1 bytes: a byte that does not fit is dropped.
unfoldable pub enqueue : ℕ → ℕ → List ℕ → List ℕ
enqueue n x q = if ltb (suc (length q)) n then q ++ x ∷ [] else q

pub length-contents : (n : ℕ) (r : Ring) → length (contents n r) ≡ count n r
unfolding contents
length-contents n r = length-window n r.cells (count n r) r.tail

-- The buffer never counts as full: one cell stays free.
pub count-lt : (n : ℕ) (r : Ring) → IsRing n r → count n r < n
unfolding count count_between
count-lt n r h = ground arith

-- The far end of the stored bytes is the head.
pub offset-count : (n : ℕ) (r : Ring) → IsRing n r → offset n r.tail (count n r) ≡ r.head
unfolding count count_between
offset-count n r h = ground arith

-- The cell under the head is no stored byte.
pub offset-ne-head :
    (n : ℕ) (r : Ring) → IsRing n r → (m : ℕ) → m < count n r → offset n r.tail m ≢ r.head
unfolding count count_between
offset-ne-head n r h m below e = ground arith

pub push-IsRing : (n x : ℕ) (r : Ring) → IsRing n r → IsRing n (push n x r)
unfolding push
push-IsRing n x r h = ground (arith, length-set r.cells r.head x)

pub fetch-IsRing : (n : ℕ) (r : Ring) → IsRing n r → IsRing n (fetch n r).1
unfolding fetch
fetch-IsRing n r h = ground arith

pub count-push :
    (n x : ℕ) (r : Ring)
    → IsRing n r
    → count n (push n x r) ≡ (if ltb (suc (count n r)) n then suc (count n r) else count n r)
unfolding push count count_between
count-push n x r h = ground arith

abbrev stored_at : ℕ → ℕ → Ring → Ring
stored_at n x r = record r { cells = set r.cells r.head x; head = less_n n (r.head + 1) }

pushed : (n x : ℕ) (r : Ring) → IsRing n r → suc (count n r) < n → push n x r ≡ stored_at n x r
unfolding push count count_between
pushed n x r h fits = ground arith

counted :
    (n x : ℕ) (r : Ring)
    → IsRing n r
    → suc (count n r) < n
    → count n (stored_at n x r) ≡ suc (count n r)
unfolding count count_between
counted n x r h fits = ground arith

-- Where a byte fits, it stands at the far end; else nothing changes.
push_fits :
    (n x : ℕ) (r : Ring)
    → IsRing n r
    → suc (count n r) < n
    → contents n (push n x r) ≡ contents n r ++ x ∷ []
unfolding contents
push_fits n x r h fits =
    let room : suc (count n r) ≤ n = omega arith in
    let stored =
      window-set n r.cells (count n r) r.tail r.head x h.tail_in (omega arith)
        (offset-ne-head n r h) in
    let written : get_or (set r.cells r.head x) r.head 0 ≡ x =
      get_or-set_self r.cells r.head x 0 (omega (arith, h)) in
    rw (pushed n x r h fits, counted n x r h fits)
      (rw
        (
          window_snoc n (set r.cells r.head x) (count n r) r.tail h.tail_in room,
          offset-count n r h,
          stored,
          written,
        )
        refl)

push_full : (n x : ℕ) (r : Ring) → IsRing n r → n ≤ suc (count n r) → push n x r ≡ r
unfolding push count count_between
push_full n x r h full = ground arith

-- Storing a byte in a well-formed buffer is storing it in a bounded queue: the byte goes behind the
-- others if one cell stays free, and is dropped otherwise.
pub contents-push :
    (n x : ℕ) (r : Ring) → IsRing n r → contents n (push n x r) ≡ enqueue n x (contents n r)
unfolding enqueue
contents-push n x r h = elim (Bool-cases (ltb (suc (count n r)) n)) [
  | inl fits ↦ rw (length-contents n r, fits) (push_fits n x r h (ground arith))
  | inr full ↦ rw (length-contents n r, full, push_full n x r h (ground arith)) refl
]

fetched :
    (n : ℕ) (r : Ring)
    → IsRing n r
    → 0 < count n r
    → (count n r ≡ suc (count n (fetch n r).1)) × ((fetch n r).1.tail ≡ less_n n (r.tail + 1))
unfolding fetch count count_between
fetched n r h pos = ground arith

-- Fetching from a well-formed buffer that is not empty takes the oldest byte and leaves the rest.
pub contents-fetch :
    (n : ℕ) (r : Ring)
    → IsRing n r
    → 0 < count n r
    → contents n r ≡ (fetch n r).0 ∷ contents n (fetch n r).1
unfolding contents fetch window
contents-fetch n r h pos = rw ((fetched n r h pos).0, (fetched n r h pos).1) refl

-- The offset moves, at a move below n.
pub advance_tail-IsRing :
    (n move : ℕ) (r : Ring) → IsRing n r → move < n → IsRing n (advance_tail n move r)
unfolding advance_tail
advance_tail-IsRing n move r h lt = ground arith

pub advance_head-IsRing :
    (n move : ℕ) (r : Ring) → IsRing n r → move < n → IsRing n (advance_head n move r)
unfolding advance_head
advance_head-IsRing n move r h lt = ground arith

tail_moved :
    (n move : ℕ) (r : Ring)
    → IsRing n r
    → move < n
    → move ≤ count n r
    → (count n r ≡ move + count n (advance_tail n move r))
      × ((advance_tail n move r).tail ≡ offset n r.tail move)
unfolding advance_tail count count_between
tail_moved n move r h lt held = ground arith

-- In a well-formed buffer, advancing the tail over stored bytes removes just these.
pub contents-advance_tail :
    (n move : ℕ) (r : Ring)
    → IsRing n r
    → move < n
    → move ≤ count n r
    → contents n r ≡ window n r.cells move r.tail ++ contents n (advance_tail n move r)
unfolding contents advance_tail
contents-advance_tail n move r h lt held =
    let (counts, moved) = tail_moved n move r h lt held in
    let below = count-lt n r h in
    window_split n r.cells move (count n (advance_tail n move r)) r.tail (count n r)
      (advance_tail n move r).tail counts moved h.tail_in (omega arith)

head_moved :
    (n move : ℕ) (r : Ring)
    → IsRing n r
    → count n r + move < n
    → (count n (advance_head n move r) ≡ count n r + move)
      × ((advance_head n move r).tail ≡ r.tail)
      × ((advance_head n move r).cells ≡ r.cells)
unfolding advance_head count count_between
head_moved n move r h lt = ground arith

-- In a well-formed buffer with room, advancing the head takes in the bytes written beyond it.
pub contents-advance_head :
    (n move : ℕ) (r : Ring)
    → IsRing n r
    → count n r + move < n
    → contents n (advance_head n move r) ≡ contents n r ++ window n r.cells move r.head
unfolding contents
contents-advance_head n move r h lt =
    let (counts, tails, cells) = head_moved n move r h lt in
    simp (tails, cells)
      (window_split n r.cells (count n r) move r.tail (count n (advance_head n move r)) r.head
        counts (sym (offset-count n r h)) h.tail_in (omega arith))

-- In a well-formed buffer with no room, advancing the head refuses, and changes nothing.
pub advance_head_full :
    (n move : ℕ) (r : Ring)
    → IsRing n r
    → move < n
    → n ≤ count n r + move
    → 0 < move
    → advance_head n move r ≡ r
unfolding advance_head count count_between
advance_head_full n move r h lt full pos = ground arith

-- In a well-formed buffer, advancing the head takes in the bytes written beyond it if one cell stays
-- free, and is refused otherwise, unless it is by 0; and advancing the tail over stored bytes removes
-- just these.
pub contents-advance :
    (n move : ℕ) (r : Ring)
    → IsRing n r
    → move < n
    → (count n r + move < n
        → contents n (advance_head n move r) ≡ contents n r ++ window n r.cells move r.head)
      × (n ≤ count n r + move → 0 < move → advance_head n move r ≡ r)
      × (move ≤ count n r
          → contents n r ≡ window n r.cells move r.tail ++ contents n (advance_tail n move r))
contents-advance n move r h lt = (
  λ room. contents-advance_head n move r h room,
  λ full pos. advance_head_full n move r h lt full pos,
  λ held. contents-advance_tail n move r h lt held,
)
