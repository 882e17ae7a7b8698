-- ===== src/FocalTech/Touch/Filled.antt =====
-- The loop over the fingers of `sendTouchData`, generic in the fingers and in what they write. The
-- loops of the FocalTech, Elan and Synaptics drivers are taken as instances of it.
use voodoo_ps2_focal_tech.Common.{
  append-nil, append_assoc, sym, ℕ, zero, suc, ◌+◌, ◌≤◌, ◌<◌, ◌≡◌, refl, arith, ap, ◌∙◌, List, [],
  ◌∷◌, ◌++◌, map, Bool, true, false, if◌then◌else◌, length, length-modify, take, drop, modify, All,
  leb, Bool-cases, inl, inr,
}
use voodoo_ps2_focal_tech.FocalTech.{Transducer, FingerType}
use voodoo_ps2_focal_tech.FocalTech.Touch.{Filling, set_type, assign_thumb}

abbrev pub mark : Transducer → Bool × ℕ
mark t = (t.is_valid, t.secondary_id)

abbrev pub shown : ℕ → Bool × ℕ
shown i = (true, i)

module _ {A : Type 0} (touches : A → Bool) where
  -- The elements that touch, by their numbers from `i` on, in order.
  abbrev pub numbers_from : ℕ → List A → List ℕ
  numbers_from i [] = []
  numbers_from i (x ∷ xs) =
      if touches x then i ∷ numbers_from (suc i) xs else numbers_from (suc i) xs

  -- What is seen of them.
  abbrev pub seen_from : {M : Type 0} → (ℕ → A → M) → ℕ → List A → List M
  seen_from seen i [] = []
  seen_from seen i (x ∷ xs) =
      if touches x then seen i x ∷ seen_from seen (suc i) xs else seen_from seen (suc i) xs

  seen_from-shown :
      (i : ℕ) (xs : List A) → seen_from (λ j x. shown j) i xs ≡ map shown (numbers_from i xs)
  seen_from-shown i [] = refl
  seen_from-shown i (x ∷ xs) = elim (Bool-cases (touches x)) [
    | inl on ↦ rw on (ap (λ l. shown i ∷ l) (seen_from-shown (suc i) xs))
    | inr off ↦ rw off (seen_from-shown (suc i) xs)
  ]

  pub numbers_from-le : (i : ℕ) (xs : List A) → length (numbers_from i xs) ≤ length xs
  numbers_from-le i [] = omega arith
  numbers_from-le i (x ∷ xs) = ground (arith, numbers_from-le (suc i) xs)

  -- Element `i` writes the transducer with number `n` by `put i n`.
  module _ (put : ℕ → ℕ → A → Transducer → Transducer) where
    unfoldable pub fill_with : ℕ → List A → Filling → Filling
    fill_with i [] a = a
    fill_with i (x ∷ xs) a = fill_with (suc i) xs (
        if touches x
        then record {
          transducers = modify a.transducers a.count (put i a.count x);
          count = suc a.count;
        }
        else a)

    fill_one : ℕ → A → Filling → Filling
    fill_one i x a =
        if touches x
        then record {
          transducers = modify a.transducers a.count (put i a.count x);
          count = suc a.count;
        }
        else a

    fill_step :
        (i : ℕ) (x : A) (xs : List A) (a : Filling)
        → fill_with i (x ∷ xs) a ≡ fill_with (suc i) xs (fill_one i x a)
    unfolding fill_with fill_one
    fill_step i x xs a = refl

    fill_on :
        (i : ℕ) (x : A) (a : Filling)
        → touches x ≡ true
        → fill_one i x a ≡ record {
          transducers = modify a.transducers a.count (put i a.count x);
          count = suc a.count;
        }
    unfolding fill_one
    fill_on i x a on = rw on refl

    fill_off : (i : ℕ) (x : A) (a : Filling) → touches x ≡ false → fill_one i x a ≡ a
    unfolding fill_one
    fill_off i x a off = rw off refl

    -- What can be seen of a contact, and what is seen of the one that an element writes.
    module _ {M : Type 0} (view : Transducer → M) (seen : ℕ → A → M)
        (viewed : (i n : ℕ) (x : A) (t : Transducer) → view (put i n x t) ≡ seen i x) where
      views-modify :
          (ts : List Transducer) (c i n : ℕ) (x : A)
          → c < length ts
          → take (suc c) (map view (modify ts c (put i n x)))
            ≡ take c (map view ts) ++ seen i x ∷ []
      views-modify [] c i n x h = absurd (omega arith)
      views-modify (t ∷ ts) zero i n x h = ap (λ m. m ∷ []) (viewed i n x t)
      views-modify (t ∷ ts) (suc c) i n x h =
          ap (λ ms. view t ∷ ms) (views-modify ts c i n x (omega arith))

      -- What the loop has written.
      abbrev pub Viewed : ℕ → List A → Filling → Filling → Type 0
      Viewed i xs a a' =
          (a'.count ≡ a.count + length (numbers_from i xs))
          × (length a'.transducers ≡ length a.transducers)
          × (take a'.count (map view a'.transducers)
              ≡ take a.count (map view a.transducers) ++ seen_from seen i xs)

      pub fill_with-Viewed :
          (i : ℕ) (xs : List A) (a : Filling)
          → a.count + length xs ≤ length a.transducers
          → Viewed i xs a (fill_with i xs a)
      unfolding fill_with
      fill_with-Viewed i [] a h = (omega arith, refl, sym (append-nil _))
      fill_with-Viewed i (x ∷ xs) a h = elim (Bool-cases (touches x)) [
        | inl on ↦
            let one : Filling = record {
              transducers = modify a.transducers a.count (put i a.count x);
              count = suc a.count;
            } in
            let kept = length-modify a.transducers a.count (put i a.count x) in
            let (counted, size, marks) = fill_with-Viewed (suc i) xs one (omega (arith, h, kept)) in
            rw (fill_step i x xs a, fill_on i x a on, on)
              (
                omega (arith, counted),
                size ∙ kept,
                marks
                    ∙ ap (λ l. l ++ seen_from seen (suc i) xs)
                        (views-modify a.transducers a.count i a.count x (omega arith))
                    ∙ append_assoc (take a.count (map view a.transducers)) (seen i x ∷ [])
                        (seen_from seen (suc i) xs),
              )
        | inr off ↦
            rw (fill_step i x xs a, fill_off i x a off, off)
              (fill_with-Viewed (suc i) xs a (omega arith))
      ]

    -- Of a contact, whether it is valid and whose it is.
    pub fill_with-Filled :
        ((i n : ℕ) (x : A) (t : Transducer) → mark (put i n x t) ≡ shown i)
        → (i : ℕ) (xs : List A) (a : Filling) → a.count + length xs ≤ length a.transducers
        → let a' = fill_with i xs a in
          (a'.count ≡ a.count + length (numbers_from i xs))
          × (length a'.transducers ≡ length a.transducers)
          × (take a'.count (map mark a'.transducers)
              ≡ take a.count (map mark a.transducers) ++ map shown (numbers_from i xs))
    fill_with-Filled marked i xs a h =
        let (counted, size, marks) = fill_with-Viewed mark (λ j x. shown j) marked i xs a h in
        (
          counted,
          size,
          marks ∙ ap (λ l. take a.count (map mark a.transducers) ++ l) (seen_from-shown i xs),
        )

-- The thumb's choice changes the types of contacts only.
module _ {M : Type 0} (view : Transducer → M)
    (untyped : (kind : FingerType) (t : Transducer) → view (set_type kind t) ≡ view t) where
  views-set_type :
      (ts : List Transducer) (k : ℕ) (kind : FingerType)
      → map view (modify ts k (set_type kind)) ≡ map view ts
  views-set_type [] k kind = refl
  views-set_type (t ∷ ts) zero kind = ap (λ m. m ∷ map view ts) (untyped kind t)
  views-set_type (t ∷ ts) (suc k) kind = ap (λ ms. view t ∷ ms) (views-set_type ts k kind)

  views-assign_thumb : (n : ℕ) (ts : List Transducer) → map view (assign_thumb n ts) ≡ map view ts
  unfolding assign_thumb
  views-assign_thumb n ts = views-set_type _ _ _ ∙ views-set_type _ _ _

  pub views-typed :
      (n : ℕ) (ts : List Transducer)
      → map view (if leb 4 n then assign_thumb n ts else ts) ≡ map view ts
  views-typed n ts = elim (Bool-cases (leb 4 n)) [
    | inl four ↦ rw four (views-assign_thumb n ts)
    | inr few ↦ rw few refl
  ]

pub marks-typed :
    (n : ℕ) (ts : List Transducer)
    → map mark (if leb 4 n then assign_thumb n ts else ts) ≡ map mark ts
marks-typed = views-typed mark (λ kind t. refl)

-- The transducers from number `n` on are marked as unused by `clear`.
module _ (clear : Transducer → Transducer) where
  unfoldable pub clear_with : ℕ → List Transducer → List Transducer
  clear_with zero ts = map clear ts
  clear_with (suc n) [] = []
  clear_with (suc n) (t ∷ ts) = t ∷ clear_with n ts

  pub views-clear_with :
      {M : Type 0} (view : Transducer → M) (n : ℕ) (ts : List Transducer)
      → take n (map view (clear_with n ts)) ≡ take n (map view ts)
  unfolding clear_with
  views-clear_with view zero ts = refl
  views-clear_with view (suc n) [] = refl
  views-clear_with view (suc n) (t ∷ ts) = ap (λ ms. view t ∷ ms) (views-clear_with view n ts)

  pub marks-clear_with :
      ((t : Transducer) → (clear t).is_valid ≡ false)
      → (n : ℕ) (ts : List Transducer)
      → (take n (map mark (clear_with n ts)) ≡ take n (map mark ts))
        × All (λ (t : Transducer). t.is_valid ≡ false) (drop n (clear_with n ts))
  unfolding clear_with
  marks-clear_with unused zero [] = (refl, tt)
  marks-clear_with unused zero (t ∷ ts) = (refl, (unused t, (marks-clear_with unused zero ts).1))
  marks-clear_with unused (suc n) [] = (refl, tt)
  marks-clear_with unused (suc n) (t ∷ ts) =
      let (first, rest) = marks-clear_with unused n ts in (ap (λ ms. mark t ∷ ms) first, rest)
