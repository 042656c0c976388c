-- ===== src/Config/Bitrate.antt =====
-- The units of a bitrate: what a text with a suffix stands for.
use swarm_ros_bridge.Common.{
  ℕ, Bytes, is_empty, true, false, [], ◌∷◌, ◌++◌, All, ◌≡◌, refl, ap, arith, if◌then◌else◌,
}
use swarm_ros_bridge.Double.{Double, lit}
use swarm_ros_bridge.Text.{isspace, trim_copy}
use swarm_ros_bridge.Text.Trim.{IsSpace, FrontTight, BackTight, trim_copy-padded, trim_copy-tight}
use swarm_ros_bridge.Config.{
  back, pop_back, is_kilo, is_suffix, whole_number, parse_number, parse_bitrate_text,
}

back-snoc : (s : Bytes) (u : ℕ) → back (s ++ u ∷ []) ≡ u
unfolding back
back-snoc [] u = refl
back-snoc (c ∷ []) u = refl
back-snoc (c ∷ d ∷ s) u = back-snoc (d ∷ s) u

pop_back-snoc : (s : Bytes) (u : ℕ) → pop_back (s ++ u ∷ []) ≡ s
unfolding pop_back
pop_back-snoc [] u = refl
pop_back-snoc (c ∷ []) u = refl
pop_back-snoc (c ∷ d ∷ s) u = ap (◌∷◌ c) (pop_back-snoc (d ∷ s) u)

BackTight-snoc : (s : Bytes) (u : ℕ) → isspace u ≡ false → BackTight (s ++ u ∷ [])
BackTight-snoc [] u h = h
BackTight-snoc (c ∷ []) u h = h
BackTight-snoc (c ∷ d ∷ s) u h = BackTight-snoc (d ∷ s) u h

FrontTight-append : (c : ℕ) (s t : Bytes) → FrontTight (c ∷ s) → FrontTight (c ∷ (s ++ t))
FrontTight-append c s t h = h

suffix-not-space : (u : ℕ) → is_suffix u ≡ true → isspace u ≡ false
unfolding isspace
suffix-not-space u h = ground arith

not-empty-snoc : (s : Bytes) (u : ℕ) → is_empty (s ++ u ∷ []) ≡ false
not-empty-snoc [] u = refl
not-empty-snoc (c ∷ s) u = refl

module _ {W : Type 0} ⦃d : Double W⦄ where
  -- 1000 for k and K, 1000000 for m and M.
  abbrev pub unit_of : ℕ → W
  unit_of u = if is_kilo u then lit 1000 0 else lit 1000000 0

  suffixed :
      (t : Bytes) (s r : Bytes) (u : ℕ)
      → trim_copy t ≡ (s ++ r) ++ u ∷ []
      → trim_copy (s ++ r) ≡ s
      → is_suffix u ≡ true
      → parse_bitrate_text t ≡ parse_number s (unit_of u)
  unfolding parse_bitrate_text
  suffixed t s r u e f h =
      rw (e, back-snoc (s ++ r) u, pop_back-snoc (s ++ r) u, not-empty-snoc (s ++ r) u, h, f)

  -- A text with no space at its ends, spaces, and k, K, m or M, with spaces round it all: the
  -- bitrate is the value that `std::stod` reads from that text times 1000 or 1000000, if it reads
  -- the whole text; otherwise the configuration is rejected.
  pub parse_bitrate_text-unit :
      (p : Bytes) (c : ℕ) (s r : Bytes) (u : ℕ) (q : Bytes)
      → All IsSpace p
      → All IsSpace r
      → All IsSpace q
      → FrontTight (c ∷ s)
      → BackTight (c ∷ s)
      → is_suffix u ≡ true
      → parse_bitrate_text (p ++ (((c ∷ s ++ r) ++ u ∷ []) ++ q))
        ≡ whole_number (c ∷ s) (unit_of u) (d.stod (c ∷ s))
  parse_bitrate_text-unit p c s r u q hp hr hq f b h =
      suffixed _ (c ∷ s) r u
        (trim_copy-padded p ((c ∷ s ++ r) ++ u ∷ []) q hp hq f
          (BackTight-snoc (c ∷ s ++ r) u (suffix-not-space u h)))
        (trim_copy-padded [] (c ∷ s) r tt hr f b) h

  -- A text with no space at its ends and no unit letter as its last, with spaces round it: the
  -- bitrate is the value that `std::stod` reads times 1, if it reads the whole text; otherwise the
  -- configuration is rejected.
  pub parse_bitrate_text-plain :
      (p : Bytes) (c : ℕ) (s q : Bytes)
      → All IsSpace p
      → All IsSpace q
      → FrontTight (c ∷ s)
      → BackTight (c ∷ s)
      → is_suffix (back (c ∷ s)) ≡ false
      → parse_bitrate_text (p ++ (c ∷ s ++ q)) ≡ whole_number (c ∷ s) (lit 1 0) (d.stod (c ∷ s))
  unfolding parse_bitrate_text
  parse_bitrate_text-plain p c s q hp hq f b h =
      rw (trim_copy-padded p (c ∷ s) q hp hq f b, h, trim_copy-tight (c ∷ s) f b)
