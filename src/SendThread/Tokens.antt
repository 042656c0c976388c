-- ===== src/SendThread/Tokens.antt =====
-- The tokens of a send thread over any run of rounds: what it may release.
use swarm_ros_bridge.Common.{
  ℕ, Bool, true, false, List, [], ◌∷◌, if◌then◌else◌, arith, ◌≡◌, subst, ◌∙◌, Bool-cases, inl, inr,
  not,
}
use swarm_ros_bridge.Double.{Double, IsExact, lit, add, sub, mul, le, of_size, nought, min_of}
use swarm_ros_bridge.Topic.{Message}
use swarm_ros_bridge.World.{SendControl}
use swarm_ros_bridge.SendThread.{
  Bucket, Round, exits, waits, retries, takes, elapsed, refill, base_bucket_capacity, take_front,
  send_round, start_bucket,
}

module _ {W : Type 0} ⦃d : Double W⦄ where
  -- The bucket after a round, the bytes that it takes off the queue, and the tokens that it earns.
  abbrev pub after : Bucket W → Round W → Bucket W
  after b exits = b
  after b waits = b
  after b (retries t b') = b'
  after b (takes m b' c) = b'

  abbrev pub released : Round W → W
  released exits = nought
  released waits = nought
  released (retries t b) = nought
  released (takes m b c) = of_size m.data_len

  abbrev pub earned : W → ℕ → Bucket W → Round W → W
  earned rate now b exits = nought
  earned rate now b waits = nought
  earned rate now b (retries t b') = mul (elapsed now b) rate
  earned rate now b (takes m b' c) = mul (elapsed now b) rate

  -- A run: at each wake-up the clock, and the queue as the other threads have left it.
  pub final_bucket : W → List (ℕ × SendControl) → Bucket W → Bucket W
  final_bucket rate [] b = b
  final_bucket rate ((now, c) ∷ rs) b = final_bucket rate rs (after b (send_round rate now b c))

  pub total_released : W → List (ℕ × SendControl) → Bucket W → W
  total_released rate [] b = nought
  total_released rate ((now, c) ∷ rs) b =
      let r = send_round rate now b c in add (released r) (total_released rate rs (after b r))

  pub total_earned : W → List (ℕ × SendControl) → Bucket W → W
  total_earned rate [] b = nought
  total_earned rate ((now, c) ∷ rs) b =
      let r = send_round rate now b c in
      add (earned rate now b r) (total_earned rate rs (after b r))

module _ {W : Type 0} ⦃d : Double W⦄ (x : IsExact W) where
  infix 4 ◌≼◌
  abbrev ◌≼◌ : W → W → Type 0
  a ≼ b = le a b ≡ true

  min_of-le_right : (a b : W) → min_of a b ≼ b
  min_of-le_right a b = ground (arith, x.le_refl b, x.le_of_not_lt b a)

  pub nought_add : (a : W) → add nought a ≡ a
  nought_add a = x.add_comm nought a ∙ x.add_nought a

  pub add_mono_right : (a b c : W) → a ≼ b → add c a ≼ add c b
  add_mono_right a b c h = rw (x.add_comm c a, x.add_comm c b) (x.add_mono a b c h)

  -- One round: what it releases and keeps was there or has been earned, and no debt is left.
  abbrev pub Balanced : W → ℕ → Bucket W → Round W → Type 0
  Balanced rate now b r =
      (add (released r) (after b r).available_tokens ≼ add b.available_tokens (earned rate now b r))
      × (nought ≼ (after b r).available_tokens)

  idle-Balanced :
      (rate : W) (now : ℕ) (b : Bucket W) → nought ≼ b.available_tokens → Balanced rate now b exits
  idle-Balanced rate now b h =
      (rw (nought_add b.available_tokens, x.add_nought b.available_tokens) (x.le_refl _), h)

  pub add_nonneg : (a b : W) → nought ≼ a → nought ≼ b → nought ≼ add a b
  add_nonneg a b p q =
      x.le_trans nought a (add a b) p
        (subst (λ (y : W). y ≼ add a b) (x.add_nought a) (add_mono_right nought b a q))

  base_nonneg : (rate : W) → nought ≼ base_bucket_capacity rate
  base_nonneg rate = ground (
    arith,
    x.lit_nonneg 1 0,
    x.le_of_lt (lit 1 0) (mul rate (lit 2 1)),
    x.le_trans nought (lit 1 0) (mul rate (lit 2 1)),
  )

  refill_nonneg :
      (rate : W) (now : ℕ) (m : Message) (b : Bucket W)
      → nought ≼ rate
      → nought ≼ b.available_tokens
      → nought ≼ refill rate now m b
  refill_nonneg rate now m b r h = ground (
    arith,
    x.lit_nonneg 1 0,
    x.le_of_lt (lit 1 0) (mul rate (lit 2 1)),
    x.le_trans nought (lit 1 0) (mul rate (lit 2 1)),
    x.le_of_lt (base_bucket_capacity rate) (of_size m.data_len),
    x.le_trans nought (base_bucket_capacity rate) (of_size m.data_len),
    add_nonneg b.available_tokens (mul (elapsed now b) rate) h
        (x.mul_nonneg (elapsed now b) rate (x.of_nanos_nonneg _) r),
  )

  front-Balanced :
      (rate : W) (now : ℕ) (b : Bucket W) (c : SendControl) (q : List Message)
      → nought ≼ rate
      → nought ≼ b.available_tokens
      → Balanced rate now b (take_front rate now b c q)
  unfolding take_front
  front-Balanced rate now b c [] r h = idle-Balanced rate now b h
  front-Balanced rate now b c (m ∷ q) r h =
      elim (Bool-cases (le (of_size m.data_len) (refill rate now m b))) [
        | inl e ↦
            rw
              (
                e,
                x.add_comm (of_size m.data_len) (sub (refill rate now m b) (of_size m.data_len)),
                x.sub_add (refill rate now m b) (of_size m.data_len) e,
              )
              (min_of-le_right _ _, x.sub_nonneg _ _ e)
        | inr e ↦
            rw (e, nought_add (refill rate now m b))
              (min_of-le_right _ _, refill_nonneg rate now m b r h)
      ]

  if-Balanced :
      (flag : Bool) (rate : W) (now : ℕ) (b : Bucket W) (r : Round W)
      → nought ≼ b.available_tokens
      → Balanced rate now b r
      → Balanced rate now b (if not flag then exits else r)
  if-Balanced true rate now b r h k = k
  if-Balanced false rate now b r h k = idle-Balanced rate now b h

  pub round-Balanced :
      (rate : W) (now : ℕ) (b : Bucket W) (c : SendControl)
      → nought ≼ rate
      → nought ≼ b.available_tokens
      → Balanced rate now b (send_round rate now b c)
  unfolding send_round
  round-Balanced rate now b c r h =
      if-Balanced c.thread_flag rate now b _ h (front-Balanced rate now b c c.queue r h)

  -- Two accounts in a row.
  chain :
      (r₁ r₂ t₀ t₁ t₂ e₁ e₂ : W)
      → add r₁ t₁ ≼ add t₀ e₁
      → add r₂ t₂ ≼ add t₁ e₂
      → add (add r₁ r₂) t₂ ≼ add t₀ (add e₁ e₂)
  chain r₁ r₂ t₀ t₁ t₂ e₁ e₂ p q =
      rw (x.add_assoc r₁ r₂ t₂, ← x.add_assoc t₀ e₁ e₂)
        (x.le_trans _ (add r₁ (add t₁ e₂)) _ (add_mono_right _ _ r₁ q)
          (rw (← x.add_assoc r₁ t₁ e₂) (x.add_mono _ _ e₂ p)))

  run-Balanced :
      (rate : W) (rs : List (ℕ × SendControl)) (b : Bucket W)
      → nought ≼ rate
      → nought ≼ b.available_tokens
      → (add (total_released rate rs b) (final_bucket rate rs b).available_tokens
          ≼ add b.available_tokens (total_earned rate rs b))
        × (nought ≼ (final_bucket rate rs b).available_tokens)
  unfolding total_released total_earned final_bucket
  run-Balanced rate [] b r h =
      (rw (nought_add b.available_tokens, x.add_nought b.available_tokens) (x.le_refl _), h)
  run-Balanced rate ((now, c) ∷ rs) b r h =
      let one = round-Balanced rate now b c r h in
      let rest = run-Balanced rate rs (after b (send_round rate now b c)) r one.1 in
      (chain _ _ _ _ _ _ _ one.0 rest.0, rest.1)

  -- Whatever the other threads do to the queue, the bytes that a thread takes off it in any run of
  -- rounds from its start are at most the base capacity and the tokens earned in that time, and
  -- its tokens end no lower than zero. The rate is not negative, and sums are taken without
  -- rounding.
  pub total_released-le :
      (rate : W) (start : ℕ) (rs : List (ℕ × SendControl))
      → nought ≼ rate
      → (total_released rate rs (start_bucket rate start)
          ≼ add (base_bucket_capacity rate) (total_earned rate rs (start_bucket rate start)))
        × (nought ≼ (final_bucket rate rs (start_bucket rate start)).available_tokens)
  unfolding start_bucket
  total_released-le rate start rs r =
      let b = start_bucket rate start in
      let run = run-Balanced rate rs b r (base_nonneg rate) in
      let kept = (final_bucket rate rs b).available_tokens in
      (
        x.le_trans (total_released rate rs b) (add (total_released rate rs b) kept) _
            (subst (λ (y : W). y ≼ add (total_released rate rs b) kept)
              (x.add_nought (total_released rate rs b)) (add_mono_right nought kept _ run.1))
            run.0,
        run.1,
      )
