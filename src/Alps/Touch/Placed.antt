-- ===== src/Alps/Touch/Placed.antt =====
-- Which virtual fingers touch after prepareVoodooInput.
use voodoo_ps2_focal_tech.Common.{
  ℕ, zero, suc, ◌+◌, ◌<◌, ◌≡◌, refl, ap, ◌∙◌, arith, List, [], ◌∷◌, map, Bool, false, not, ◌&&◌,
  ◌||◌, ◌==◌, ltb, Bool-cases, inl, inr, length, get_or, modify, get_or-modify_self,
  get_or-modify_ne, length-modify,
}
use voodoo_ps2_focal_tech.Alps.{
  Alps, Fields, Outside, VirtualFinger, no_virtual_finger, is_buttonpad, max_touches,
}
use voodoo_ps2_focal_tech.Alps.Touch.{
  place_finger, place_fingers, set_button, min, release, prepare_voodoo_input, send_touch_data,
}

abbrev pub touches : List VirtualFinger → ℕ → Bool
touches vs i = (get_or vs i no_virtual_finger).touch

released : (vs : List VirtualFinger) (i : ℕ) → touches (map release vs) i ≡ false
released [] i = refl
released (v ∷ vs) zero = refl
released (v ∷ vs) (suc i) = released vs i

button-touches :
    (vs : List VirtualFinger) (b : Bool) (i : ℕ)
    → touches (modify vs 0 (set_button b)) i ≡ touches vs i
button-touches [] b i = refl
button-touches (v ∷ vs) b zero = refl
button-touches (v ∷ vs) b (suc i) = refl

placed-touches :
    (f : Fields) (s : Alps) (j : ℕ) (vs : List VirtualFinger) (i : ℕ)
    → i < length vs
    → touches (modify vs j (place_finger f s j)) i ≡ (i == j || touches vs i)
unfolding place_finger
placed-touches f s j vs i h = elim (Bool-cases (i == j)) [
  | inl same ↦
      let at : j ≡ i = ground (arith, same) in
      rw at (
        ap (λ v. v.touch) (get_or-modify_self vs i (place_finger f s i) no_virtual_finger h)
        ∙ ground arith)
  | inr other ↦ rw other (
      ap (λ v. v.touch)
        (get_or-modify_ne vs j i (place_finger f s j) no_virtual_finger
          (λ e. ground (arith, other, e))))
]

place_fingers-touches :
    (f : Fields) (s : Alps) (n j : ℕ) (vs : List VirtualFinger) (i : ℕ)
    → i < length vs
    → touches (place_fingers f s n j vs) i ≡ ((not (ltb i j) && ltb i (j + n)) || touches vs i)
unfolding place_fingers
place_fingers-touches f s zero j vs i h = ground arith
place_fingers-touches f s (suc n) j vs i h =
    let put = modify vs j (place_finger f s j) in
    let button = is_buttonpad s && f.left in
    let same = length-modify vs j (place_finger f s j) in
    place_fingers-touches f s n (suc j) (modify put 0 (set_button button)) i
      (omega (arith, h, same, length-modify put 0 (set_button button)))
    ∙ ground (arith, button-touches put button i, placed-touches f s j vs i h)

prepare_voodoo_input-places :
    (e : Outside) (f : Fields) (n : ℕ) (s : Alps)
    → ((prepare_voodoo_input e f n s).virtual_fingers
        ≡ place_fingers f s (min 4 n) 0 (map release s.virtual_fingers))
      × ((prepare_voodoo_input e f n s).clamped_finger_count ≡ min max_touches n)
unfolding prepare_voodoo_input send_touch_data
prepare_voodoo_input-places e f n s = ground arith

length-released : (vs : List VirtualFinger) → length (map release vs) ≡ length vs
length-released [] = refl
length-released (v ∷ vs) = ap suc (length-released vs)

-- After a packet with `n` fingers, whatever touched before, the virtual fingers that touch are the first
-- `n`, at most four; and the count that is kept is `n`, at most five.
pub prepare_voodoo_input-touches :
    (e : Outside) (f : Fields) (n : ℕ) (s : Alps) (i : ℕ)
    → i < length s.virtual_fingers
    → (touches (prepare_voodoo_input e f n s).virtual_fingers i ≡ ltb i (min 4 n))
      × ((prepare_voodoo_input e f n s).clamped_finger_count ≡ min 5 n)
prepare_voodoo_input-touches e f n s i h =
    let (placed, clamped) = prepare_voodoo_input-places e f n s in
    (
      ap (λ vs. touches vs i) placed
          ∙ place_fingers-touches f s (min 4 n) 0 (map release s.virtual_fingers) i
              (omega (arith, h, length-released s.virtual_fingers))
          ∙ ground (arith, released s.virtual_fingers i),
      clamped,
    )
