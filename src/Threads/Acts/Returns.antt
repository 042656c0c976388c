-- ===== src/Threads/Acts/Returns.antt =====
-- No whole act waits: each leaves no replay behind for the next to wait for.
use swarm_ros_bridge.Common.{
  ℕ, Bool, true, false, not, Option, none, some, List, [], ◌∷◌, ◌>>=◌, if◌then◌else◌, ◌≡◌, refl,
  modify,
}
use swarm_ros_bridge.Double.{Double, le, nought}
use swarm_ros_bridge.Topic.{Message}
use swarm_ros_bridge.World.{World, is_limited, send_topic, control}
use swarm_ros_bridge.Aligned.{if-keeps}
use swarm_ros_bridge.Fault.{start_node_fault, is_node_fault_active_locked}
use swarm_ros_bridge.Monitor.{monitor_wake}
use swarm_ros_bridge.SendQueue.{enqueue_send_message}
use swarm_ros_bridge.Replay.{
  is_expired, end_recovery, flush_expired_fault_if_needed, send_serialized_message,
  publish_received_message_after_fault,
}
use swarm_ros_bridge.Dispatch.{
  hold_sent, hold_received, admit, unless_taken, consume_send_message_if_fault_active,
  dispatch_send_message_after_fault, dispatch_send_message, dispatch_received_message, Call, sends,
  receives, run_call,
}
use swarm_ros_bridge.SendThread.{
  Bucket, Round, exits, waits, retries, takes, bytes_per_second, send_round, after_round,
}
use swarm_ros_bridge.SendThread.Loop.{finish_round, wake}
use swarm_ros_bridge.Threads.{System, Tid, idle}
use swarm_ros_bridge.Threads.Step.{Reach}
use swarm_ros_bridge.Threads.Acts.{Act, calls, works, watches, begins, run_act, run_acts, AllFit}
use swarm_ros_bridge.Threads.Acts.Runs.{run_acts-Reach}

module _ {W : Type 0} ⦃d : Double W⦄ where
  -- No replay is under way.
  abbrev pub Steady : World W → Type 0
  Steady w = w.fault.recovering ≡ false

  -- A result, and no replay after it.
  abbrev Returns : Option (World W) → Type 0
  Returns o = (v : World W) × (o ≡ some v) × Steady v

  flush-Steady : (now : ℕ) (w : World W) → Steady w → Steady (flush_expired_fault_if_needed now w)
  unfolding flush_expired_fault_if_needed end_recovery
  flush-Steady now w h = if-keeps Steady (is_expired now w) _ w refl h

  publish-Steady :
      (i : ℕ) (m : Message) (w : World W)
      → Steady w
      → Steady (publish_received_message_after_fault i m w)
  unfolding publish_received_message_after_fault
  publish-Steady i m w h = if-keeps Steady w.fault.publish_callback _ w h h

  -- A locked block, and what follows it.
  block-Returns :
      (recovering active : Bool) (x w : World W) (pass : World W → Option (World W))
      → recovering ≡ false
      → Steady x
      → Returns (pass w)
      → Returns (
          unless_taken
            (if recovering then none else if active then some (true, x) else some (false, w))
            pass)
  block-Returns true active x w pass e h r = absurd (cc)
  block-Returns false true x w pass e h r = (x, refl, h)
  block-Returns false false x w pass e h r = r

  admit-Returns :
      (hold : World W → World W) (now : ℕ) (w : World W) (pass : World W → Option (World W))
      → Steady w
      → Steady (hold w)
      → Returns (pass w)
      → Returns (unless_taken (admit hold now w) pass)
  unfolding admit
  admit-Returns hold now w pass h k r =
      block-Returns w.fault.recovering (is_node_fault_active_locked now w.fault) (hold w) w pass h k
        r

  consume-Returns :
      (i : ℕ) (m : Message) (t₁ t₂ : ℕ) (w : World W)
      → Steady w
      → Returns (
          unless_taken
            (consume_send_message_if_fault_active i m t₁ t₂ w)
            (λ v. some (send_serialized_message i m v)))
  unfolding consume_send_message_if_fault_active hold_sent send_serialized_message
  consume-Returns i m t₁ t₂ w h =
      let k = flush-Steady t₁ w h in
      admit-Returns (hold_sent i m) t₂ (flush_expired_fault_if_needed t₁ w) _ k k (_, refl, k)

  after_fault-Returns :
      (i : ℕ) (m : Message) (t₁ t₂ : ℕ) (w : World W)
      → Steady w
      → Returns (dispatch_send_message_after_fault i m t₁ t₂ w)
  unfolding dispatch_send_message_after_fault enqueue_send_message
  after_fault-Returns i m t₁ t₂ w h =
      if-keeps Returns (is_limited w i) _ _ (enqueue_send_message i m w, refl, h)
        (consume-Returns i m t₁ t₂ w h)

  call-Returns : (c : Call) (w : World W) → Steady w → Returns (run_call c w)
  unfolding run_call dispatch_send_message dispatch_received_message hold_sent hold_received
  call-Returns (sends i m t₁ t₂ t₃ t₄) w h =
      let v = flush_expired_fault_if_needed t₁ w in
      let k = flush-Steady t₁ w h in
      admit-Returns (hold_sent i m) t₂ v _ k k (after_fault-Returns i m t₃ t₄ v k)
  call-Returns (receives i m t₁ t₂) w h =
      let v = flush_expired_fault_if_needed t₁ w in
      let k = flush-Steady t₁ w h in
      admit-Returns (hold_received i m) t₂ v _ k k (_, refl, publish-Steady i m v k)

  round-Returns :
      (i t₁ t₂ : ℕ) (b : Bucket W) (w : World W) (r : Round W)
      → Steady w
      → Returns (do (b', v) ← finish_round i t₁ t₂ b w r; some v)
  unfolding finish_round after_round
  round-Returns i t₁ t₂ b w exits h = (w, refl, h)
  round-Returns i t₁ t₂ b w waits h = (w, refl, h)
  round-Returns i t₁ t₂ b w (retries t b') h = (w, refl, h)
  round-Returns i t₁ t₂ b w (takes m b' c) h =
      let (v, e, k) =
        consume-Returns i m t₁ t₂ (record w { controls = modify w.controls i (λ _. c) }) h in
      (v, rw e refl, k)

  act-Returns : (a : Act W) (w : World W) → Steady w → Returns (run_act a w)
  unfolding run_act wake monitor_wake start_node_fault end_recovery
  act-Returns (calls c) w h = call-Returns c w h
  act-Returns (works i now t₁ t₂ b) w h =
      round-Returns i t₁ t₂ b w
        (send_round (bytes_per_second (send_topic w i).max_bitrate) now b (control w i)) h
  act-Returns (watches now) w h = (
    monitor_wake now w,
    refl,
    if-keeps Steady (not w.fault.thread_running) w _ h
        (if-keeps Steady (is_expired now w) _ w refl h),
  )
  act-Returns (begins now duration) w h = (
    start_node_fault now duration w,
    refl,
    if-keeps Steady (le duration nought) w _ h
        (if-keeps Steady (not w.fault.thread_running) w _ h h),
  )

  acts-Returns : (as' : List (Act W)) (w : World W) → Steady w → Returns (run_acts as' w)
  unfolding run_acts
  acts-Returns [] w h = (w, refl, h)
  acts-Returns (a ∷ as') w h =
      let (v, e, k) = act-Returns a w h in let (u, f, l) = acts-Returns as' v k in (u, rw e f, l)

  -- From idle threads and no replay, any acts one after the other return, each taken whole with its
  -- readings of the clock in their order, and are a run of the steps to idle threads and no
  -- replay: calls of the entry points, wake-ups of the threads of limited topics and of the
  -- monitor, and starts of faults, these where the relation allows a start in every state.
  pub run_acts_reaches :
      (Starts : World W → Type 0) (as' : List (Act W)) (s : System W)
      → ((t : Tid) → s.pc t ≡ idle)
      → s.world.fault.recovering ≡ false
      → AllFit Starts s.world s.clock as'
      → (v : World W) × (now : ℕ) × (run_acts as' s.world ≡ some v)
        × (v.fault.recovering ≡ false)
        × Reach Starts s (record s { world = v; clock = now })
  run_acts_reaches Starts as' s q h fit =
      let (v, e, k) = acts-Returns as' s.world h in
      let (now, r) = run_acts-Reach Starts as' s v q fit e in (v, now, e, k, r)
