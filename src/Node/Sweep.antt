-- ===== src/Node/Sweep.antt =====
-- A loop that changes each entry of a vector by its index, as the loops of `main` over the topics do.
use swarm_ros_bridge.Common.{
  ℕ, zero, suc, ◌+◌, List, [], ◌∷◌, ◌++◌, map, length, modify, ◌≡◌, refl, sym, ap, ◌∙◌, subst,
  length-append, append_assoc,
}

module _ {ℓ} {A : Type ℓ} (g : ℕ → A → A) where
  abbrev pub sweep : ℕ → ℕ → List A → List A
  sweep i zero xs = xs
  sweep i (suc left) xs = sweep (i + 1) left (modify xs i (g i))

  abbrev pub map_from : ℕ → List A → List A
  map_from i [] = []
  map_from i (x ∷ xs) = g i x ∷ map_from (i + 1) xs

  modify-append :
      (before : List A) (b : A) (bs : List A) (f : A → A)
      → modify (before ++ b ∷ bs) (length before) f ≡ before ++ f b ∷ bs
  modify-append [] b bs f = refl
  modify-append (a ∷ before) b bs f = ap (λ xs. a ∷ xs) (modify-append before b bs f)

  sweep-append :
      (before bs : List A)
      → sweep (length before) (length bs) (before ++ bs) ≡ before ++ map_from (length before) bs
  sweep-append before [] = refl
  sweep-append before (b ∷ bs) =
      let c = g (length before) b in
      ap (sweep (length before + 1) (length bs))
        (modify-append before b bs (g (length before)) ∙ sym (append_assoc before (c ∷ []) bs))
      ∙ subst
          (λ (n : ℕ).
            sweep n (length bs) ((before ++ c ∷ []) ++ bs) ≡ (before ++ c ∷ []) ++ map_from n bs)
          (length-append before (c ∷ [])) (sweep-append (before ++ c ∷ []) bs)
      ∙ append_assoc before (c ∷ []) (map_from (length before + 1) bs)

  -- Over all the indices of the vector, it changes each entry once.
  pub sweep_all : (n : ℕ) (xs : List A) → n ≡ length xs → sweep 0 n xs ≡ map_from 0 xs
  sweep_all n xs e = subst (λ (k : ℕ). sweep 0 k xs ≡ map_from 0 xs) (sym e) (sweep-append [] xs)

pub map_from-map {ℓ} :
    {A : Type ℓ} (f : A → A) (i : ℕ) (xs : List A) → map_from (λ i. f) i xs ≡ map f xs
map_from-map f i [] = refl
map_from-map f i (x ∷ xs) = ap (λ ys. f x ∷ ys) (map_from-map f (i + 1) xs)

pub modify-id {ℓ} : {A : Type ℓ} (xs : List A) (i : ℕ) → modify xs i (λ x. x) ≡ xs
modify-id [] i = refl
modify-id (x ∷ xs) zero = refl
modify-id (x ∷ xs) (suc i) = ap (λ ys. x ∷ ys) (modify-id xs i)

pub swept {ℓ} :
    {A : Type ℓ} (f : A → A) (n : ℕ) (xs : List A)
    → length xs ≡ n
    → sweep (λ i. f) 0 n xs ≡ map f xs
swept f n xs e = sweep_all (λ i. f) n xs (sym e) ∙ map_from-map f 0 xs
