-- ===== src/Ring/Window.antt =====
-- The bytes that a ring buffer holds, read from an offset onwards with wrap-around, and the two
-- ends of that view.
use Prim.Native.Nat.add
use voodoo_ps2_focal_tech.Common.{
  ℕ, zero, suc, ◌+◌, ◌≤◌, ◌<◌, ◌≡◌, refl, ◌≢◌, arith, List, [], ◌∷◌, ◌++◌, get_or, set,
  get_or-set_ne, length, ap, sym, ◌∙◌,
}
use voodoo_ps2_focal_tech.Ring.{less_n}

-- `k` bytes of the array of `n` cells, from offset `i`.
unfoldable pub window : ℕ → List ℕ → ℕ → ℕ → List ℕ
window n cells zero i = []
window n cells (suc k) i = get_or cells i 0 ∷ window n cells k (less_n n (i + 1))

-- The offset that is `k` bytes further.
abbrev pub offset : ℕ → ℕ → ℕ → ℕ
offset n i k = less_n n (i + k)

pub length-window : (n : ℕ) (cells : List ℕ) (k i : ℕ) → length (window n cells k i) ≡ k
unfolding window
length-window n cells zero i = refl
length-window n cells (suc k) i = ap suc (length-window n cells k (less_n n (i + 1)))

offset_step : (n i k : ℕ) → i < n → suc k ≤ n → offset n (offset n i 1) k ≡ offset n i (suc k)
offset_step n i k h g = ground arith

offset-lt : (n i k : ℕ) → i < n → k ≤ n → offset n i k < n
offset-lt n i k h g = ground arith

-- One byte more at the far end.
pub window_snoc :
    (n : ℕ) (cells : List ℕ) (k i : ℕ)
    → i < n
    → suc k ≤ n
    → window n cells (suc k) i ≡ window n cells k i ++ get_or cells (offset n i k) 0 ∷ []
unfolding window
window_snoc n cells zero i h g = ground arith
window_snoc n cells (suc k) i h g =
    rw (window_snoc n cells k (less_n n (i + 1)) (offset-lt n i 1 h (omega arith)) (omega arith))
      (rw (← offset_step n i k h (omega arith)) refl)

-- Several bytes more.
pub window_append :
    (n : ℕ) (cells : List ℕ) (k m i : ℕ)
    → i < n
    → k + m ≤ n
    → window n cells (k + m) i ≡ window n cells k i ++ window n cells m (offset n i k)
unfolding window
window_append n cells zero m i h g =
    let here : offset n i 0 ≡ i = ground arith in rw (add.zero, here) refl
window_append n cells (suc k) m i h g =
    rw (add.suc, ← offset_step n i k h (omega arith))
      (ap (λ w. get_or cells i 0 ∷ w)
        (window_append n cells k m (offset n i 1) (offset-lt n i 1 h (omega arith)) (omega arith)))

-- The same, at a length and an offset that are known by equations.
pub window_split :
    (n : ℕ) (cells : List ℕ) (k m i d t : ℕ)
    → d ≡ k + m
    → t ≡ offset n i k
    → i < n
    → k + m ≤ n
    → window n cells d i ≡ window n cells k i ++ window n cells m t
window_split n cells k m i d t e f h g = rw (e, f) (window_append n cells k m i h g)

-- A write outside the window leaves it alone.
pub window-set :
    (n : ℕ) (cells : List ℕ) (k i j x : ℕ)
    → i < n
    → k ≤ n
    → ((m : ℕ) → m < k → offset n i m ≢ j)
    → window n (set cells j x) k i ≡ window n cells k i
unfolding window
window-set n cells zero i j x h g out = refl
window-set n cells (suc k) i j x h g out =
    rw
      (
        get_or-set_ne cells j i x 0 (λ e. out 0 (omega arith) (ground arith)),
        window-set n cells k (offset n i 1) j x (offset-lt n i 1 h (omega arith)) (omega arith)
            (λ m below e. out (suc m) (omega arith) (sym (offset_step n i m h (omega arith)) ∙ e)),
      )
      refl
