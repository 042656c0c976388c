-- ===== src/Threads/Exclusive.antt =====
-- One recovery at a time, if a fault is started only on an idle node.
use swarm_ros_bridge.Common.{ℕ, Bool, true, false, ◌≡◌, refl, sym, ap, ◌∙◌, arith}
use swarm_ros_bridge.Double.{Double}
use swarm_ros_bridge.Topic.{Message}
use swarm_ros_bridge.World.{World, NodeFault}
use swarm_ros_bridge.Fault.{is_node_fault_busy, start_node_fault}
use swarm_ros_bridge.Replay.{
  is_expired, begin_recovery, end_recovery, take_buffers, send_serialized_message,
  publish_received_message_after_fault,
}
use swarm_ros_bridge.SendQueue.{enqueue_send_message}
use swarm_ros_bridge.Threads.Plan.{perform, perform-setup}
use swarm_ros_bridge.Threads.{
  Tid, sender, receiver, worker, monitor, Stage, first, second, After, in_call, in_round, Pc, idle,
  swaps, replays, System, update, resume, recovers, passed, hold, hand_over,
}
use swarm_ros_bridge.Threads.Step.{
  Step, ticks, starts, is_given, takes_off, wakes, sees_end, sees_no_end, swaps_out, releases,
  finishes, holds, passes, hands_over, Reach, here, next, IsQuiet,
}

-- Who is in a recovery, against the two flags.
pub record IsExclusive {W : Type 0} (active recovering : Bool) (pc : Tid → Pc W) : Type 0 where
  pub alone : (t u : Tid) → recovers (pc t) ≡ true → recovers (pc u) ≡ true → t ≡ u
  pub flagged : (t : Tid) → recovers (pc t) ≡ true → (recovering ≡ true) × (active ≡ false)
  pub manned : recovering ≡ true → (t : Tid) × (recovers (pc t) ≡ true)

module _ {W : Type 0} {active recovering : Bool} {pc : Tid → Pc W}
    (x : IsExclusive active recovering pc) (t : Tid) where
  -- A thread moves, and is in a recovery after it exactly if it was before.
  move-IsExclusive :
      (p : Pc W) → recovers p ≡ recovers (pc t) → IsExclusive active recovering (update pc t p)
  move-IsExclusive p e = record {
    alone = λ u v h k. ground (arith, x.alone u v, x.alone t v, x.alone u t);
    flagged = λ u h. ground (arith, x.flagged u, x.flagged t);
    manned = λ r. let (u, h) = x.manned r in (u, ground arith);
  }

  enter-IsExclusive :
      (p : Pc W) → recovers p ≡ true → active ≡ true → IsExclusive false true (update pc t p)
  enter-IsExclusive p e a = record {
    alone = λ u v h k. ground (arith, x.flagged u, x.flagged v);
    flagged = λ u h. (refl, refl);
    manned = λ r. (t, ground arith);
  }

  leave-IsExclusive :
      (p : Pc W)
      → recovers p ≡ false
      → recovers (pc t) ≡ true
      → IsExclusive active false (update pc t p)
  leave-IsExclusive p e h = record {
    alone = λ u v k l. ground (arith, x.alone u t, x.alone v t);
    flagged = λ u k. ground (arith, x.alone u t);
    manned = λ r. cc;
  }

pub recovers-resume : (W : Type 0) (a : After) → recovers {W = W} (resume a) ≡ false
recovers-resume W (in_call g m) = refl
recovers-resume W in_round = refl

module _ {W : Type 0} ⦃d : Double W⦄ where
  -- A fault starts only while none is active and nobody replays, as the control server asks first.
  abbrev pub OnIdle : World W → Type 0
  OnIdle w = is_node_fault_busy w ≡ false

  abbrev pub Flags : World W → World W → Type 0
  Flags v w = (v.fault.active ≡ w.fault.active) × (v.fault.recovering ≡ w.fault.recovering)

  hold-Flags : (t : Tid) (m : Message) (w : World W) → Flags (hold t m w) w
  unfolding hold
  hold-Flags (sender i) m w = (refl, refl)
  hold-Flags (receiver i) m w = (refl, refl)
  hold-Flags (worker i) m w = (refl, refl)
  hold-Flags monitor m w = (refl, refl)

  pub hand_over-fault : (t : Tid) (m : Message) (w : World W) → (hand_over t m w).fault ≡ w.fault
  unfolding hand_over enqueue_send_message send_serialized_message
      publish_received_message_after_fault
  hand_over-fault (sender i) m w = ground arith
  hand_over-fault (receiver i) m w = ground arith
  hand_over-fault (worker i) m w = refl
  hand_over-fault monitor m w = refl

  fault-Flags : (v w : World W) → v.fault ≡ w.fault → Flags v w
  fault-Flags v w e =
      (ap (λ (f : NodeFault W). f.active) e, ap (λ (f : NodeFault W). f.recovering) e)

  pub recovers-passed :
      (t : Tid) (g : Stage) (m : Message) (w : World W) → recovers (passed t g m w) ≡ false
  recovers-passed (sender i) first m w = ground arith
  recovers-passed (sender i) second m w = refl
  recovers-passed (receiver i) g m w = refl
  recovers-passed (worker i) g m w = refl
  recovers-passed monitor g m w = refl

  abbrev pub Exclusive : System W → Type 0
  Exclusive s = IsExclusive s.world.fault.active s.world.fault.recovering s.pc

  Exclusive-Flags :
      (v w : World W) (pc : Tid → Pc W)
      → Flags v w
      → IsExclusive w.fault.active w.fault.recovering pc
      → IsExclusive v.fault.active v.fault.recovering pc
  Exclusive-Flags v w pc (a, r) x = rw (a, r) x

  start-Exclusive :
      (now : ℕ) (duration : W) (w : World W) (pc : Tid → Pc W)
      → OnIdle w
      → IsExclusive w.fault.active w.fault.recovering pc
      → let v = start_node_fault now duration w in IsExclusive v.fault.active v.fault.recovering pc
  unfolding start_node_fault is_node_fault_busy
  start-Exclusive now duration w pc i x = record {
    alone = x.alone;
    flagged = λ u h. ground (arith, x.flagged u h);
    manned = λ r. x.manned (ground arith);
  }

  expired-active : (now : ℕ) (w : World W) → is_expired now w ≡ true → w.fault.active ≡ true
  expired-active now w e = ground arith

  pub Step-Exclusive : {s u : System W} → Step OnIdle s u → Exclusive s → Exclusive u
  unfolding begin_recovery end_recovery take_buffers
  Step-Exclusive (ticks n) x = x
  Step-Exclusive {s} (starts duration i) x = start-Exclusive s.clock duration s.world s.pc i x
  Step-Exclusive (is_given t m c e) x = move-IsExclusive x t _ (sym (ap recovers e))
  Step-Exclusive (takes_off i m b b' c l e r) x =
      move-IsExclusive x (worker i) _ (sym (ap recovers e))
  Step-Exclusive (wakes e r) x = move-IsExclusive x monitor _ (sym (ap recovers e))
  Step-Exclusive {s} (sees_end t a e h) x =
      enter-IsExclusive x t (swaps a) refl (expired-active s.clock s.world h)
  Step-Exclusive (sees_no_end t a e h) x =
      move-IsExclusive x t _ (recovers-resume W a ∙ sym (ap recovers e))
  Step-Exclusive (swaps_out t a e) x = move-IsExclusive x t _ (sym (ap recovers e))
  Step-Exclusive {s} (releases t a r rs e) x =
      Exclusive-Flags (perform r s.world) s.world _
        (fault-Flags (perform r s.world) s.world (perform-setup r s.world).1)
        (move-IsExclusive x t (replays a rs) (sym (ap recovers e)))
  Step-Exclusive (finishes t a e) x = leave-IsExclusive x t _ (recovers-resume W a) (ap recovers e)
  Step-Exclusive {s} (holds t g m e r h) x =
      Exclusive-Flags (hold t m s.world) s.world _ (hold-Flags t m s.world)
        (move-IsExclusive x t idle (sym (ap recovers e)))
  Step-Exclusive {s} (passes t g m e r h) x =
      move-IsExclusive x t _ (recovers-passed t g m s.world ∙ sym (ap recovers e))
  Step-Exclusive {s} (hands_over t m e) x =
      Exclusive-Flags (hand_over t m s.world) s.world _
        (fault-Flags (hand_over t m s.world) s.world (hand_over-fault t m s.world))
        (move-IsExclusive x t idle (sym (ap recovers e)))

  quiet-Exclusive : {s : System W} → IsQuiet s → Exclusive s
  quiet-Exclusive q = record {
    alone = λ t u h k. ground (arith, q.idle_all t);
    flagged = λ t h. ground (arith, q.idle_all t);
    manned = λ r. ground (arith, q.steady);
  }

  pub Reach-Exclusive : {s u : System W} → IsQuiet s → Reach OnIdle s u → Exclusive u
  Reach-Exclusive q here = quiet-Exclusive q
  Reach-Exclusive q (next r st) = Step-Exclusive st (Reach-Exclusive q r)

  -- After quiet and any steps with faults started on an idle node, no two threads are in a recovery,
  -- and while one is, the recovering flag is up and no fault is active.
  pub recovery-alone :
      (s₀ s : System W) (t u : Tid)
      → IsQuiet s₀
      → Reach OnIdle s₀ s
      → recovers (s.pc t) ≡ true
      → recovers (s.pc u) ≡ true
      → (t ≡ u) × (s.world.fault.recovering ≡ true) × (s.world.fault.active ≡ false)
  recovery-alone s₀ s t u q r h k =
      let x = Reach-Exclusive q r in let f = x.flagged t h in (x.alone t u h k, f.0, f.1)
