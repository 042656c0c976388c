-- ===== src/SendThread/Rounds.antt =====
-- When a round takes a message, and which.
use swarm_ros_bridge.Common.{
  ℕ, ◌<◌, Bool, true, not, List, [], ◌∷◌, if◌then◌else◌, arith, ◌≡◌, ◌↔◌, refl, sym, ap, subst, ◌∙◌,
  length,
}
use swarm_ros_bridge.Double.{Double, IsOrdered, add, mul, le, of_size, max_of, min_of}
use swarm_ros_bridge.Topic.{Message}
use swarm_ros_bridge.World.{SendControl, size_range}
use swarm_ros_bridge.SendQueue.{sub_size}
use swarm_ros_bridge.SendQueue.Bounds.{total, IsCounted}
use swarm_ros_bridge.SendThread.{
  Bucket, Round, exits, takes, elapsed, refill, bucket_capacity, base_bucket_capacity, take_front,
  send_round,
}

-- A round that takes `m` and leaves `q`, exactly counted.
abbrev pub Took : {W : Type 0} → Message → List Message → Round W → Type 0
Took {W} m q r =
    (b : Bucket W) × (c : SendControl) × (r ≡ takes m b c) × (c.queue ≡ q) × IsCounted c

pub popped-count :
    (c : SendControl) (m : Message) (q : List Message)
    → IsCounted c
    → c.queue ≡ m ∷ q
    → total c.queue < size_range
    → sub_size c.queue_bytes m.data_len ≡ total q
popped-count c m q v e small = omega (arith, v.counted, ap total e)

module _ {W : Type 0} ⦃d : Double W⦄ (o : IsOrdered W) where
  le-max_of_right : (a b : W) → le b (max_of a b) ≡ true
  le-max_of_right a b = ground (arith, o.le_refl b, o.le_of_not_lt a b)

  le-min_of : (a b c : W) → (le c (min_of a b) ≡ true) ↔ ((le c a ≡ true) × (le c b ≡ true))
  le-min_of a b c =
      ground (arith, o.le_of_lt b a, o.le_of_not_lt b a, o.le_trans c b a, o.le_trans c a b)

  -- The cap on the bucket never holds back the message at the front, whatever its size.
  enough-refill :
      (rate : W) (now : ℕ) (m : Message) (b : Bucket W)
      → le (of_size m.data_len) (refill rate now m b)
        ≡ le (of_size m.data_len) (add b.available_tokens (mul (elapsed now b) rate))
  enough-refill rate now m b = ground (
    arith,
    le-min_of (bucket_capacity rate m) (add b.available_tokens (mul (elapsed now b) rate))
        (of_size m.data_len),
    le-max_of_right (base_bucket_capacity rate) (of_size m.data_len),
  )

  abbrev pub Earned : W → ℕ → Bucket W → Message → Type 0
  Earned rate now b m =
      le (of_size m.data_len) (add b.available_tokens (mul (elapsed now b) rate)) ≡ true

  front-takes :
      (rate : W) (now : ℕ) (b : Bucket W) (c : SendControl) (m : Message) (q : List Message)
      → IsCounted c
      → c.queue ≡ m ∷ q
      → total c.queue < size_range
      → Earned rate now b m
      → Took m q (take_front rate now b c (m ∷ q))
  unfolding take_front
  front-takes rate now b c m q v e small p =
      rw (enough-refill rate now m b, p)
        (
          _,
          _,
          refl,
          refl,
          record {
            counted = popped-count c m q v e small;
            short = omega (arith, v.short, ap length e);
          },
        )

  Took-Earned :
      (rate : W) (now : ℕ) (b : Bucket W) (c : SendControl) (m : Message) (q : List Message)
      → Took m q (take_front rate now b c (m ∷ q))
      → Earned rate now b m
  unfolding take_front
  Took-Earned rate now b c m q (b', c', e, _, _) = ground (arith, enough-refill rate now m b)

  front-round :
      (rate : W) (now : ℕ) (b : Bucket W) (c : SendControl) (q : List Message)
      → c.thread_flag ≡ true
      → c.queue ≡ q
      → take_front rate now b c q ≡ send_round rate now b c
  unfolding send_round
  front-round rate now b c q run e =
      ap (take_front rate now b c) (sym e)
      ∙ ap (λ (f : Bool). if not f then exits else take_front rate now b c c.queue) (sym run)

  -- With a message at the front of a running thread's queue, whose bytes are counted and below
  -- 2^64, a round takes that message, and leaves the rest in order and exactly counted, if and
  -- only if the tokens left and those earned since the last round cover its length. The
  -- comparisons are of numbers, not NaN.
  pub send_round-Took :
      (rate : W) (now : ℕ) (b : Bucket W) (c : SendControl) (m : Message) (q : List Message)
      → c.thread_flag ≡ true
      → c.queue ≡ m ∷ q
      → IsCounted c
      → total c.queue < size_range
      → Took m q (send_round rate now b c)
        ↔ (le (of_size m.data_len) (add b.available_tokens (mul (elapsed now b) rate)) ≡ true)
  send_round-Took rate now b c m q run e v small =
      subst
        (λ (r : Round W).
          Took m q r
          ↔ (le (of_size m.data_len) (add b.available_tokens (mul (elapsed now b) rate)) ≡ true))
        (front-round rate now b c (m ∷ q) run e)
        (Took-Earned rate now b c m q, front-takes rate now b c m q v e small)

module _ {W : Type 0} ⦃d : Double W⦄ where
  -- A round leaves the thread itself as it is.
  front-joinable :
      (rate : W) (now : ℕ) (b b' : Bucket W) (c c' : SendControl) (m : Message) (q : List Message)
      → take_front rate now b c q ≡ takes m b' c'
      → c'.joinable ≡ c.joinable
  unfolding take_front
  front-joinable rate now b b' c c' m [] e = cc
  front-joinable rate now b b' c c' m (x ∷ q) e = ground (arith, e)

  pub send_round-joinable :
      (rate : W) (now : ℕ) (b b' : Bucket W) (c c' : SendControl) (m : Message)
      → send_round rate now b c ≡ takes m b' c'
      → c'.joinable ≡ c.joinable
  unfolding send_round
  send_round-joinable rate now b b' c c' m e =
      front-joinable rate now b b' c c' m c.queue (ground (arith, e))
