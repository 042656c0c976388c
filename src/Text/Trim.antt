-- ===== src/Text/Trim.antt =====
-- What trimming removes, and what it keeps.
use swarm_ros_bridge.Common.{
  ℕ, Bytes, true, false, ◌&&◌, [], ◌∷◌, ◌++◌, All, ◌≡◌, inl, inr, refl, ap, ◌∙◌, Bool-cases,
  is_empty, if◌then◌else◌,
}
use swarm_ros_bridge.Text.{isspace, skip_front, skip_back, trim_copy}

abbrev pub IsSpace : ℕ → Type 0
IsSpace c = isspace c ≡ true

-- The first byte of a text, and the last, is no space.
abbrev pub FrontTight : Bytes → Type 0
FrontTight [] = Unit
FrontTight (c ∷ s) = isspace c ≡ false

abbrev pub BackTight : Bytes → Type 0
BackTight [] = Unit
BackTight (c ∷ []) = isspace c ≡ false
BackTight (c ∷ d ∷ s) = BackTight (d ∷ s)

skip_front-split :
    (s : Bytes) → (p : Bytes) × (s ≡ p ++ skip_front s) × All IsSpace p × FrontTight (skip_front s)
unfolding skip_front
skip_front-split [] = ([], refl, tt, tt)
skip_front-split (c ∷ s) = elim (Bool-cases (isspace c)) [
  | inl e ↦
      let (p, split, spaces, tight) = skip_front-split s in
      rw e (c ∷ p, ap (◌∷◌ c) split, (e, spaces), tight)
  | inr e ↦ rw e ([], refl, tt, e)
]

-- What the second loop makes of a text, `r` being what it keeps.
abbrev Backed : Bytes → Bytes → Type 0
Backed s r = (p : Bytes) × (s ≡ r ++ p) × All IsSpace p × BackTight r

back-cons :
    (c : ℕ) (s r : Bytes)
    → Backed s r
    → Backed (c ∷ s) (if is_empty r && isspace c then [] else c ∷ r)
back-cons c s [] (p, split, spaces, tight) = elim (Bool-cases (isspace c)) [
  | inl e ↦ rw e (c ∷ p, ap (◌∷◌ c) split, (e, spaces), tt)
  | inr e ↦ rw e (p, ap (◌∷◌ c) split, spaces, e)
]
back-cons c s (x ∷ r) (p, split, spaces, tight) = (p, ap (◌∷◌ c) split, spaces, tight)

skip_back-Backed : (s : Bytes) → Backed s (skip_back s)
unfolding skip_back
skip_back-Backed [] = ([], refl, tt, tt)
skip_back-Backed (c ∷ s) = back-cons c s (skip_back s) (skip_back-Backed s)

skip_back-FrontTight : (s : Bytes) → FrontTight s → FrontTight (skip_back s)
unfolding skip_back
skip_back-FrontTight [] h = tt
skip_back-FrontTight (c ∷ s) h = elim (Bool-cases (is_empty (skip_back s))) [
  | inl e ↦ rw (e, h) h
  | inr e ↦ rw e h
]

-- Trimming cuts off spaces only, at the two ends, and leaves no space at either end.
pub trim_copy-split :
    (s : Bytes)
    → (p : Bytes) × (q : Bytes) × (s ≡ p ++ (trim_copy s ++ q))
      × All IsSpace p
      × All IsSpace q
      × FrontTight (trim_copy s)
      × BackTight (trim_copy s)
unfolding trim_copy
trim_copy-split s =
    let (p, front, spaces, tight) = skip_front-split s in
    let (q, back, spaces', tight') = skip_back-Backed (skip_front s) in
    (
      p,
      q,
      front ∙ ap (◌++◌ p) back,
      spaces,
      spaces',
      skip_back-FrontTight (skip_front s) tight,
      tight',
    )

skip_front-tight : (s : Bytes) → FrontTight s → skip_front s ≡ s
unfolding skip_front
skip_front-tight [] h = refl
skip_front-tight (c ∷ s) h = rw h

skip_back-tight : (s : Bytes) → BackTight s → skip_back s ≡ s
unfolding skip_back
skip_back-tight [] h = refl
skip_back-tight (c ∷ []) h = rw h
skip_back-tight (c ∷ d ∷ s) h = rw (skip_back-tight (d ∷ s) h)

-- A text with no space at either end is its own trimming.
pub trim_copy-tight : (s : Bytes) → FrontTight s → BackTight s → trim_copy s ≡ s
unfolding trim_copy
trim_copy-tight s h k = rw (skip_front-tight s h) (skip_back-tight s k)

skip_front-spaces : (p s : Bytes) → All IsSpace p → skip_front (p ++ s) ≡ skip_front s
unfolding skip_front
skip_front-spaces [] s h = refl
skip_front-spaces (c ∷ p) s h = rw h.0 (skip_front-spaces p s h.1)

skip_front-All : (q : Bytes) → All IsSpace q → skip_front q ≡ []
unfolding skip_front
skip_front-All [] h = refl
skip_front-All (c ∷ q) h = rw h.0 (skip_front-All q h.1)

skip_back-spaces : (q : Bytes) → All IsSpace q → skip_back q ≡ []
unfolding skip_back
skip_back-spaces [] h = refl
skip_back-spaces (c ∷ q) h = rw (skip_back-spaces q h.1, h.0)

skip_back-append : (s q : Bytes) → BackTight s → All IsSpace q → skip_back (s ++ q) ≡ s
unfolding skip_back
skip_back-append [] q k h = skip_back-spaces q h
skip_back-append (c ∷ []) q k h = rw (skip_back-spaces q h, k)
skip_back-append (c ∷ d ∷ s) q k h = rw (skip_back-append (d ∷ s) q k h)

-- Spaces put round a text that has none at its ends are what trimming cuts off.
pub trim_copy-padded :
    (p s q : Bytes)
    → All IsSpace p
    → All IsSpace q
    → FrontTight s
    → BackTight s
    → trim_copy (p ++ (s ++ q)) ≡ s
unfolding trim_copy
trim_copy-padded p [] q hp hq f b =
    ap skip_back (skip_front-spaces p q hp) ∙ ap skip_back (skip_front-All q hq)
trim_copy-padded p (c ∷ s) q hp hq f b =
    ap skip_back (skip_front-spaces p (c ∷ (s ++ q)) hp ∙ skip_front-tight (c ∷ (s ++ q)) f)
    ∙ skip_back-append (c ∷ s) q b hq
