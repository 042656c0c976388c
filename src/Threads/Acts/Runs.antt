-- ===== src/Threads/Acts/Runs.antt =====
-- Runs of whole acts are runs of the steps of the threads.
use swarm_ros_bridge.Common.{
  ℕ, ◌≤◌, Option, none, some, List, [], ◌∷◌, ◌>>=◌, ◌≡◌, refl, ap, ◌∙◌, subst, arith, chained,
  some-inj, get_or,
}
use swarm_ros_bridge.Double.{Double, lt, nought}
use swarm_ros_bridge.Topic.{TopicInfo}
use swarm_ros_bridge.World.{World, no_topic, send_topic, control}
use swarm_ros_bridge.SendThread.{
  Bucket, Round, exits, waits, retries, takes, bytes_per_second, send_round, after_round,
}
use swarm_ros_bridge.SendThread.Loop.{finish_round, wake}
use swarm_ros_bridge.Threads.{Tid, worker, monitor, idle, System}
use swarm_ros_bridge.Threads.Step.{Reach}
use swarm_ros_bridge.Threads.Progress.{Reach-append}
use swarm_ros_bridge.Threads.Runs.{run_call-Reach}
use swarm_ros_bridge.Threads.Acts.{
  Act, calls, works, watches, begins, run_act, run_acts, Fits, end_of, AllFit,
}
use swarm_ros_bridge.Threads.Acts.Turns.{later-Reach, begins-Reach, watches-Reach, taken-Reach}
use swarm_ros_bridge.Node.Kept.{Reach-IsKept}

module _ {W : Type 0} ⦃d : Double W⦄ (Starts : World W → Type 0) where
  -- What an act leaves, the threads idle again.
  abbrev After : System W → World W → ℕ → Type 0
  After s v now = Reach Starts s (record s { world = v; clock = now })

  unmoved : (s : System W) (v : World W) (now : ℕ) → s.clock ≤ now → s.world ≡ v → After s v now
  unmoved s v now h e =
      subst (λ w. Reach Starts s (record s { world = w; clock = now })) e
        (later-Reach Starts s now h)

  round-Reach :
      (s : System W) (v : World W) (i now t₁ t₂ : ℕ) (b : Bucket W) (r : Round W)
      → s.pc (worker i) ≡ idle
      → Fits Starts s.world s.clock (works i now t₁ t₂ b)
      → send_round (bytes_per_second (send_topic s.world i).max_bitrate) now b (control s.world i)
        ≡ r
      → (do (b', u) ← finish_round i t₁ t₂ b s.world r; some u) ≡ some v
      → After s v t₂
  unfolding finish_round
  round-Reach s v i now t₁ t₂ b exits q (h₀, h₁, h₂, l) e f =
      unmoved s v t₂ (omega (arith, h₀, h₁, h₂)) (some-inj _ v f)
  round-Reach s v i now t₁ t₂ b waits q (h₀, h₁, h₂, l) e f =
      unmoved s v t₂ (omega (arith, h₀, h₁, h₂)) (some-inj _ v f)
  round-Reach s v i now t₁ t₂ b (retries t b') q (h₀, h₁, h₂, l) e f =
      unmoved s v t₂ (omega (arith, h₀, h₁, h₂)) (some-inj _ v f)
  round-Reach s v i now t₁ t₂ b (takes m b' c) q (h₀, h₁, h₂, l) e f =
      taken-Reach Starts s i now t₁ t₂ b b' m c v q h₀ h₁ h₂ l e
        (written (after_round i t₁ t₂ s.world (takes m b' c)) f)
    where
      written :
          (o : Option (World W))
          → (do (b₁, u) ← (do u' ← o; some (b', u')); some u) ≡ some v
          → o ≡ some v
      written none g = cc
      written (some u) g = g

  run_act-Reach :
      (a : Act W) (s : System W) (v : World W)
      → ((t : Tid) → s.pc t ≡ idle)
      → Fits Starts s.world s.clock a
      → run_act a s.world ≡ some v
      → After s v (end_of a)
  unfolding run_act wake
  run_act-Reach (calls c) s v q h e = run_call-Reach Starts c s v q h e
  run_act-Reach (works i now t₁ t₂ b) s v q h e =
      round-Reach s v i now t₁ t₂ b _ (q (worker i)) h refl e
  run_act-Reach (watches now) s v q h e =
      subst (λ w. After s w now) (some-inj _ v e) (watches-Reach Starts s now (q monitor) h)
  run_act-Reach (begins now duration) s v q (h, k) e =
      subst (λ w. After s w now) (some-inj _ v e) (begins-Reach Starts s now duration h (k s.world))

  -- The topics stay, and with them which of them have a thread.
  Fits-kept :
      (w v : World W) (now : ℕ) (a : Act W)
      → v.send_topics ≡ w.send_topics
      → Fits Starts w now a
      → Fits Starts v now a
  Fits-kept w v now (calls c) e h = h
  Fits-kept w v now (works i t t₁ t₂ b) e (h₀, h₁, h₂, l) = (
    h₀,
    h₁,
    h₂,
    ap (λ (ts : List (TopicInfo W)). lt nought (get_or ts i no_topic).max_bitrate) e ∙ l,
  )
  Fits-kept w v now (watches t) e h = h
  Fits-kept w v now (begins t duration) e h = h

  AllFit-kept :
      (w v : World W) (now : ℕ) (as' : List (Act W))
      → v.send_topics ≡ w.send_topics
      → AllFit Starts w now as'
      → AllFit Starts v now as'
  AllFit-kept w v now [] e h = tt
  AllFit-kept w v now (a ∷ as') e (h, hs) =
      (Fits-kept w v now a e h, AllFit-kept w v (end_of a) as' e hs)

  -- Acts one after the other that return, each taken whole with its readings of the clock in their
  -- order, are a run of the steps from idle threads to idle threads: calls of the entry points,
  -- wake-ups of the threads of limited topics and of the monitor, and starts of faults, these where
  -- the relation allows a start in every state.
  pub run_acts-Reach :
      (as' : List (Act W)) (s : System W) (v : World W)
      → ((t : Tid) → s.pc t ≡ idle)
      → AllFit Starts s.world s.clock as'
      → run_acts as' s.world ≡ some v
      → (now : ℕ) × Reach Starts s (record s { world = v; clock = now })
  unfolding run_acts
  run_acts-Reach [] s v q h e = (s.clock, unmoved s v s.clock (omega arith) (some-inj _ v e))
  run_acts-Reach (a ∷ as') s v q (h, hs) e =
      let (w, f, g) = chained (run_act a s.world) (run_acts as') v e in
      let r = run_act-Reach a s w q h f in
      let kept = AllFit-kept s.world w (end_of a) as' (Reach-IsKept r).send_topics hs in
      let (now, rest) = run_acts-Reach as' (record s { world = w; clock = end_of a }) v q kept g in
      (now, Reach-append r rest)
