-- ===== src/SendThread/Drain.antt =====
-- A limited topic's queue runs empty when its thread is woken in time.
use swarm_ros_bridge.Common.{
  ℕ, ◌-◌, ◌<◌, Bool, true, some, List, [], ◌∷◌, ◌++◌, append-nil, append_assoc, length,
  length-modify, get_or, get_or-modify_self, modify, ◌≡◌, refl, sym, ap, ◌∙◌, subst, arith, ==_iff,
  if◌then◌else◌,
}
use swarm_ros_bridge.Double.{Double, IsExact, add, mul, le, of_size, nought}
use swarm_ros_bridge.Topic.{Message}
use swarm_ros_bridge.World.{
  World, SendControl, no_control, size_range, send_topic, control, zmq_sent,
}
use swarm_ros_bridge.SendQueue.Bounds.{total, IsCounted}
use swarm_ros_bridge.Replay.{send_serialized_message}
use swarm_ros_bridge.Replay.Log.{sent, sent_on-append}
use swarm_ros_bridge.SendThread.{
  Bucket, Round, takes, bytes_per_second, elapsed, take_front, send_round,
}
use swarm_ros_bridge.SendThread.Rounds.{send_round-Took}
use swarm_ros_bridge.SendThread.Tokens.{after, round-Balanced, nought_add}
use swarm_ros_bridge.SendThread.Loop.{Turn, wakes, finish_round, wake, run_turn, run_turns}
use swarm_ros_bridge.SendThread.Relay.Queued.{IsIdle}
use swarm_ros_bridge.SendThread.Relay.Popped.{round-Popped, after_round-idle}

module _ {W : Type 0} ⦃d : Double W⦄ where
  front-refilled :
      (rate : W) (now : ℕ) (b b' : Bucket W) (c c' : SendControl) (m : Message) (q : List Message)
      → take_front rate now b c q ≡ takes m b' c'
      → b'.last_refill_time ≡ now
  unfolding take_front
  front-refilled rate now b b' c c' m [] e = cc
  front-refilled rate now b b' c c' m (x ∷ q) e = ground (arith, e)

  round-refilled :
      (rate : W) (now : ℕ) (b b' : Bucket W) (c c' : SendControl) (m : Message)
      → send_round rate now b c ≡ takes m b' c'
      → b'.last_refill_time ≡ now
  unfolding send_round
  round-refilled rate now b b' c c' m e =
      front-refilled rate now b b' c c' m c.queue (ground (arith, e))

  -- Each wake-up comes when the time since the one before pays for the message at the front.
  abbrev pub Paced : W → ℕ → List Message → List (ℕ × ℕ × ℕ) → Type 0
  Paced rate last [] ts = ts ≡ []
  Paced rate last (m ∷ q) [] = ⊥
  Paced rate last (m ∷ q) ((now, t₁, t₂) ∷ ts) =
      (le (of_size m.data_len) (mul (d.of_nanos (now - last)) rate) ≡ true) × Paced rate now q ts

  -- A thread that runs, its queue `q`, in a state with no fault.
  pub record Draining (i : ℕ) (rate : W) (q : List Message) (b : Bucket W) (w : World W)
      : Type 0 where
    pub idle : IsIdle w
    pub tracked : i < length w.controls
    pub paid_at : bytes_per_second (send_topic w i).max_bitrate ≡ rate
    pub runs : (control w i).thread_flag ≡ true
    pub holds : (control w i).queue ≡ q
    pub counted : IsCounted (control w i)
    pub small : total (control w i).queue < size_range
    pub no_debt : le nought b.available_tokens ≡ true

abbrev pub wake_ups : List (ℕ × ℕ × ℕ) → List Turn
wake_ups [] = []
wake_ups ((now, t₁, t₂) ∷ ts) = wakes now t₁ t₂ ∷ wake_ups ts

module _ {W : Type 0} ⦃d : Double W⦄ (x : IsExact W) where
  -- What a wake-up does to the state when it takes `m`.
  abbrev taken_and_sent : ℕ → Message → SendControl → World W → World W
  taken_and_sent i m c w =
      send_serialized_message i m (record w { controls = modify w.controls i (λ _. c) })

  earns :
      (rate : W) (now : ℕ) (b : Bucket W) (m : Message)
      → le nought b.available_tokens ≡ true
      → le (of_size m.data_len) (mul (elapsed now b) rate) ≡ true
      → le (of_size m.data_len) (add b.available_tokens (mul (elapsed now b) rate)) ≡ true
  earns rate now b m h e = x.le_trans (of_size m.data_len) (mul (elapsed now b) rate) _ e (
      subst (λ (y : W). le y (add b.available_tokens (mul (elapsed now b) rate)) ≡ true)
        (nought_add x (mul (elapsed now b) rate))
        (x.add_mono nought b.available_tokens (mul (elapsed now b) rate) h))

  module _ (i : ℕ) (rate : W) (pays : le nought rate ≡ true) where
    wake-Draining :
        (now t₁ t₂ : ℕ) (m : Message) (q : List Message) (b : Bucket W) (w : World W)
        → Draining i rate (m ∷ q) b w
        → le (of_size m.data_len) (mul (elapsed now b) rate) ≡ true
        → (b' : Bucket W) × (u : World W) × (wake i now t₁ t₂ b w ≡ some (b', u))
          × (sent i u ≡ sent i w ++ m ∷ [])
          × (b'.last_refill_time ≡ now)
          × Draining i rate q b' u
    unfolding wake finish_round send_serialized_message
    wake-Draining now t₁ t₂ m q b w s e =
        let c = control w i in
        let (b', c', round, holds, counted) =
          (send_round-Took x.order rate now b c m q s.runs s.holds s.counted s.small).1
            (earns rate now b m s.no_debt e) in
        let p = round-Popped rate now b b' c c' m s.counted s.small round in
        let own : get_or (modify w.controls i (λ _. c')) i no_control ≡ c' =
          (get_or-modify_self w.controls i (λ _. c') no_control s.tracked) in
        (
          b',
          taken_and_sent i m c' w,
          rw (s.paid_at, round, after_round-idle i t₁ t₂ w m b' c' s.idle),
          sent_on-append i w.events (zmq_sent i m ∷ [])
              ∙ ap (λ (f : Bool). sent i w ++ (if f then m ∷ [] else [])) ((==_iff i i).1 refl),
          round-refilled rate now b b' c c' m round,
          record {
            idle = record { inactive = s.idle.inactive; steady = s.idle.steady };
            tracked = rw (length-modify w.controls i (λ _. c')) s.tracked;
            paid_at = s.paid_at;
            runs = rw own (p.thread_flag ∙ s.runs);
            holds = rw own holds;
            counted = subst IsCounted (sym own) counted;
            small = rw own (omega (arith, p.bytes, s.small));
            no_debt =
                subst (λ (r : Round W). le nought (after b r).available_tokens ≡ true) round
                  (round-Balanced x rate now b c pays s.no_debt).1;
          },
        )

    -- With no fault, a limited topic's thread that runs and has no debt of tokens sends all that
    -- its queue holds, in order, one message at each wake-up, and leaves the queue empty, if each
    -- wake-up comes when the time since the one before, at the topic's rate, pays for the message
    -- at the front. The queue's bytes are counted and below 2^64, the rate is not negative, and
    -- sums are taken without rounding.
    pub run_turns-drains :
        (q : List Message) (ts : List (ℕ × ℕ × ℕ)) (b : Bucket W) (w : World W)
        → Draining i rate q b w
        → Paced rate b.last_refill_time q ts
        → (b' : Bucket W) × (u : World W) × (run_turns i (wake_ups ts) b w ≡ some (b', u))
          × (sent i u ≡ sent i w ++ q)
          × ((control u i).queue ≡ [])
    unfolding run_turns run_turn
    run_turns-drains [] ts b w s p = (b, w, rw p refl, sym (append-nil _), s.holds)
    run_turns-drains (m ∷ q) [] b w s p = absurd p
    run_turns-drains (m ∷ q) ((now, t₁, t₂) ∷ ts) b w s p =
        let (b', v, woke, one, last, s') = wake-Draining now t₁ t₂ m q b w s p.0 in
        let (b'', u, ran, all, gone) =
          run_turns-drains q ts b' v s' (subst (λ (t : ℕ). Paced rate t q ts) (sym last) p.1) in
        (
          b'',
          u,
          rw woke ran,
          all ∙ ap (λ (l : List Message). l ++ q) one ∙ append_assoc (sent i w) (m ∷ []) q,
          gone,
        )
