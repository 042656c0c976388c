-- ===== src/Threads/Seen.antt =====
-- The flags, the clock and a send topic's fault buffer, over the operations of the steps.
use swarm_ros_bridge.Common.{
  ℕ, false, not, [], ◌≡◌, ◌≢◌, refl, sym, ap, subst, arith, get_or, get_or-modify_ne,
}
use swarm_ros_bridge.Double.{Double, le, nought}
use swarm_ros_bridge.Topic.{Message}
use swarm_ros_bridge.World.{World, NodeFault, is_limited}
use swarm_ros_bridge.Fault.{is_node_fault_busy, start_node_fault, is_node_fault_active_locked}
use swarm_ros_bridge.Replay.{
  is_expired, begin_recovery, end_recovery, take_buffers, send_serialized_message,
  publish_received_message_after_fault,
}
use swarm_ros_bridge.SendQueue.{enqueue_send_message}
use swarm_ros_bridge.Dispatch.Recovery.{get_or-map_nil}
use swarm_ros_bridge.Aligned.{if-keeps}
use swarm_ros_bridge.Threads.Plan.{Release, perform, perform-setup}
use swarm_ros_bridge.Threads.{
  Tid, sender, receiver, worker, monitor, Stage, first, second, After, in_call, in_round, Pc, looks,
  locks, System, resume, passed, hold, hand_over,
}
use swarm_ros_bridge.Threads.Step.{
  Step, ticks, starts, is_given, takes_off, wakes, sees_end, sees_no_end, swaps_out, releases,
  finishes, holds, passes, hands_over,
}
use swarm_ros_bridge.Threads.Exclusive.{OnIdle, IsExclusive}
use swarm_ros_bridge.Threads.Order.{View, Late, IsClear, start-IsClear}

module _ {W : Type 0} ⦃d : Double W⦄ (i : ℕ) where
  abbrev pub seen : NodeFault W → ℕ → View
  seen f clock = record {
    active = f.active;
    recovering = f.recovering;
    until = f.until;
    clock = clock;
    held = get_or f.send_buffers i [];
  }

  abbrev pub Clear : System W → Type 0
  Clear s = IsClear i (seen s.world.fault s.clock) s.pc

  -- A look that finds no end.
  pub no_end-Late :
      (a : After) (f : NodeFault W) (now : ℕ) (w : World W)
      → f ≡ w.fault
      → is_expired now w ≡ false
      → Late {W = W} (seen f now) (looks a)
      → Late {W = W} (seen f now) (resume a)
  no_end-Late (in_call first m) f now w e h l = tt
  no_end-Late (in_call second m) f now w e h l =
      ground (arith, ap (λ (f : NodeFault W). f.active) e, ap (λ (f : NodeFault W). f.until) e)
  no_end-Late in_round f now w e h l = tt

  pub passed-Late :
      (g : Stage) (m : Message) (now : ℕ) (w : World W)
      → is_limited w i ≡ false
      → w.fault.recovering ≡ false
      → is_node_fault_active_locked now w.fault ≡ false
      → (w.fault.active ≡ false
          → w.fault.recovering ≡ false
          → get_or w.fault.send_buffers i [] ≡ [])
      → Late {W = W} (seen w.fault now) (locks g m)
      → Late (seen w.fault now) (passed (sender i) g m w)
  unfolding is_node_fault_active_locked
  passed-Late first m now w free r a settled l = rw free (ground arith)
  passed-Late second m now w free r a settled l = ground arith

  pub hold-held :
      (t : Tid) (m : Message) (w : World W)
      → t ≢ worker i
      → t ≢ sender i
      → get_or (hold t m w).fault.send_buffers i [] ≡ get_or w.fault.send_buffers i []
  unfolding hold
  hold-held (sender j) m w n k =
      get_or-modify_ne w.fault.send_buffers j i _ [] (λ e. k (ap sender e))
  hold-held (receiver j) m w n k = refl
  hold-held (worker j) m w n k =
      get_or-modify_ne w.fault.send_buffers j i _ [] (λ e. n (ap worker e))
  hold-held monitor m w n k = refl

  -- The bitrate limit of a topic never changes.
  hold-free : (t : Tid) (m : Message) (w : World W) → is_limited (hold t m w) i ≡ is_limited w i
  unfolding hold
  hold-free (sender j) m w = refl
  hold-free (receiver j) m w = refl
  hold-free (worker j) m w = refl
  hold-free monitor m w = refl

  hand_over-free :
      (t : Tid) (m : Message) (w : World W) → is_limited (hand_over t m w) i ≡ is_limited w i
  unfolding hand_over enqueue_send_message send_serialized_message
      publish_received_message_after_fault
  hand_over-free (sender j) m w = ground arith
  hand_over-free (receiver j) m w = ground arith
  hand_over-free (worker j) m w = refl
  hand_over-free monitor m w = refl

  start-free :
      (now : ℕ) (duration : W) (w : World W)
      → is_limited (start_node_fault now duration w) i ≡ is_limited w i
  unfolding start_node_fault
  start-free now duration w = ground arith

  perform-free : (r : Release W) (w : World W) → is_limited (perform r w) i ≡ is_limited w i
  perform-free r w = rw (perform-setup r w).0

  pub Step-free : {s u : System W} → Step OnIdle s u → is_limited u.world i ≡ is_limited s.world i
  unfolding begin_recovery end_recovery take_buffers
  Step-free (ticks n) = refl
  Step-free {s} (starts duration q) = start-free s.clock duration s.world
  Step-free (is_given t m c e) = refl
  Step-free (takes_off j m b b' c l e r) = refl
  Step-free (wakes e r) = refl
  Step-free (sees_end t a e h) = refl
  Step-free (sees_no_end t a e h) = refl
  Step-free (swaps_out t a e) = refl
  Step-free {s} (releases t a r rs e) = perform-free r s.world
  Step-free (finishes t a e) = refl
  Step-free {s} (holds t g m e r h) = hold-free t m s.world
  Step-free (passes t g m e r h) = refl
  Step-free {s} (hands_over t m e) = hand_over-free t m s.world

  pub start-Clear :
      (now : ℕ) (duration : W) (w : World W) (pc : Tid → Pc W)
      → OnIdle w
      → IsExclusive w.fault.active w.fault.recovering pc
      → IsClear i (seen w.fault now) pc
      → IsClear i (seen (start_node_fault now duration w).fault now) pc
  unfolding start_node_fault is_node_fault_busy
  start-Clear now duration w pc q x c =
      if-keeps (λ (v : World W). IsClear i (seen v.fault now) pc) (le duration nought) w _ c
        (if-keeps (λ (v : World W). IsClear i (seen v.fault now) pc) (not w.fault.thread_running) w
          _ c
          (start-IsClear (sender i) x c _ (ground arith) (get_or-map_nil w.fault.send_buffers i)))

  pub Clear-fault :
      (f g : NodeFault W) (now : ℕ) (pc : Tid → Pc W)
      → f ≡ g
      → IsClear i (seen g now) pc
      → IsClear i (seen f now) pc
  Clear-fault f g now pc e c = subst (λ (h : NodeFault W). IsClear i (seen h now) pc) (sym e) c
