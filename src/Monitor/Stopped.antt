-- ===== src/Monitor/Stopped.antt =====
-- After `stop_node_fault_control` of src/sim_comm.cpp, while callbacks and receive threads still call.
use swarm_ros_bridge.Common.{
  not, ℕ, Bool, true, false, some, List, [], ◌∷◌, if◌then◌else◌, ◌≡◌, refl, sym, ap, ◌∙◌, subst,
}
use swarm_ros_bridge.Double.{Double, le, nought}
use swarm_ros_bridge.Topic.{Message}
use swarm_ros_bridge.World.{World, NodeFault, is_limited}
use swarm_ros_bridge.Fault.{is_node_fault_active_locked, start_node_fault, stop_node_fault_control}
use swarm_ros_bridge.Replay.{send_serialized_message, publish_received_message_after_fault}
use swarm_ros_bridge.SendQueue.{enqueue_send_message}
use swarm_ros_bridge.Dispatch.{
  admit, hold_sent, unless_taken, consume_send_message_if_fault_active,
  dispatch_send_message_after_fault, dispatch_send_message, dispatch_received_message, Call, sends,
  receives, run_call, run_calls,
}
use swarm_ros_bridge.Dispatch.Resume.{flush-idle, receive-idle}
use swarm_ros_bridge.Aligned.{if-keeps}
use swarm_ros_bridge.Monitor.{leaves_loop, monitor_top}

some_if {ℓ} :
    {A : Type ℓ} (b : Bool) (x y : A) → (if b then some x else some y) ≡ some (if b then x else y)
some_if true x y = refl
some_if false x y = refl

skipped {ℓ} :
    {A : Type ℓ} (a running : Bool) (v x : A)
    → running ≡ false
    → (if a then v else if not running then v else x) ≡ v
skipped true running v x e = refl
skipped false true v x e = cc
skipped false false v x e = refl

record IsDown {W : Type 0} (f : NodeFault W) : Type 0 where
  stopped : f.thread_running ≡ false
  inactive : f.active ≡ false
  steady : f.recovering ≡ false

module _ {W : Type 0} ⦃d : Double W⦄ where
  -- What a call makes of its message when the fault control is down.
  passes_on : Call → World W → World W
  passes_on (sends i m t₁ t₂ t₃ t₄) w =
      if is_limited w i then enqueue_send_message i m w else send_serialized_message i m w
  passes_on (receives i m t₁ t₂) w = publish_received_message_after_fault i m w

  admit-down :
      (hold : World W → World W) (now : ℕ) (w : World W)
      → IsDown w.fault
      → admit hold now w ≡ some (false, w)
  unfolding admit is_node_fault_active_locked
  admit-down hold now w f = rw (f.steady, f.inactive) refl

  consume-down :
      (i : ℕ) (m : Message) (t t' : ℕ) (w : World W)
      → IsDown w.fault
      → consume_send_message_if_fault_active i m t t' w ≡ some (false, w)
  unfolding consume_send_message_if_fault_active
  consume-down i m t t' w f =
      ap (admit (hold_sent i m) t') (flush-idle t w f.inactive) ∙ admit-down (hold_sent i m) t' w f

  after-down :
      (i : ℕ) (m : Message) (t t' : ℕ) (w : World W)
      → IsDown w.fault
      → dispatch_send_message_after_fault i m t t' w ≡ some (passes_on (sends i m t t t t') w)
  unfolding dispatch_send_message_after_fault passes_on
  after-down i m t t' w f =
      rw (consume-down i m t t' w f)
        (some_if (is_limited w i) (enqueue_send_message i m w) (send_serialized_message i m w))

  run_call-down : (c : Call) (w : World W) → IsDown w.fault → run_call c w ≡ some (passes_on c w)
  unfolding run_call dispatch_send_message dispatch_received_message passes_on
  run_call-down (sends i m t₁ t₂ t₃ t₄) w f =
      ap
        (λ u.
          unless_taken (admit (hold_sent i m) t₂ u) (dispatch_send_message_after_fault i m t₃ t₄))
        (flush-idle t₁ w f.inactive)
      ∙ ap (λ o. unless_taken o (dispatch_send_message_after_fault i m t₃ t₄))
          (admit-down (hold_sent i m) t₂ w f)
      ∙ after-down i m t₃ t₄ w f
  run_call-down (receives i m t₁ t₂) w f =
      receive-idle i m t₁ t₂ w w (flush-idle t₁ w f.inactive) f.inactive f.steady

  passes_on-fault : (c : Call) (w : World W) → (passes_on c w).fault ≡ w.fault
  unfolding passes_on enqueue_send_message send_serialized_message
      publish_received_message_after_fault
  passes_on-fault (sends i m t₁ t₂ t₃ t₄) w =
      if-keeps (λ (v : World W). v.fault ≡ w.fault) (is_limited w i) _ _ refl refl
  passes_on-fault (receives i m t₁ t₂) w =
      if-keeps (λ (v : World W). v.fault ≡ w.fault) w.fault.publish_callback _ w refl refl

  run_calls-down :
      (cs : List Call) (w : World W)
      → IsDown w.fault
      → (v : World W) × (run_calls cs w ≡ some v) × (v.fault ≡ w.fault)
  unfolding run_calls
  run_calls-down [] w f = (w, refl, refl)
  run_calls-down (c ∷ cs) w f =
      let same = passes_on-fault c w in
      let (v, e, g) = run_calls-down cs (passes_on c w) (subst IsDown (sym same) f) in
      (v, rw (run_call-down c w f) e, g ∙ same)

  start-down :
      (now : ℕ) (duration : W) (v : World W)
      → v.fault.thread_running ≡ false
      → start_node_fault now duration v ≡ v
  unfolding start_node_fault
  start-down now duration v off = skipped (le duration nought) v.fault.thread_running v _ off

  -- Once the fault control is stopped, in any state, a recovery flagged or not, every call
  -- returns and none waits, however many come and whatever their readings of the clock; after them
  -- a late start of a fault changes nothing, and the monitor leaves its loop.
  pub run_calls-stop_node_fault_control :
      (w : World W) (cs : List Call) (now : ℕ) (duration : W)
      → (v : World W) × (run_calls cs (stop_node_fault_control w) ≡ some v)
        × (start_node_fault now duration v ≡ v)
        × (monitor_top v ≡ leaves_loop)
  unfolding stop_node_fault_control monitor_top
  run_calls-stop_node_fault_control w cs now duration =
      let down : IsDown (stop_node_fault_control w).fault = record {
        stopped = refl;
        inactive = refl;
        steady = refl;
      } in
      let (v, e, same) = run_calls-down cs (stop_node_fault_control w) down in
      let off = ap (λ f. f.thread_running) same in
      (v, e, start-down now duration v off, rw off refl)
