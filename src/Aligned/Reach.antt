-- ===== src/Aligned/Reach.antt =====
-- The states that the operations on the shared state reach, in any order and on any threads, each
-- operation taken whole.
use swarm_ros_bridge.Common.{
  ℕ, suc, Bool, true, false, Option, none, some, List, [], ◌∷◌, length, length-map,
  length-replicate, ◌≡◌, refl, ap, ◌∙◌, subst, ◌>>=◌, not, replicate,
}
use swarm_ros_bridge.Double.{Double, le, nought}
use swarm_ros_bridge.Topic.{TopicInfo, FaultPolicy}
use swarm_ros_bridge.World.{World, SendControl, send_topic}
use swarm_ros_bridge.Fault.Policy.{parse_fault_policy}
use swarm_ros_bridge.Fault.{
  parse_policies, initialize_node_fault_control, start_node_fault, stop_node_fault_control,
}
use swarm_ros_bridge.Replay.{is_expired}
use swarm_ros_bridge.SendThread.{
  Bucket, send_func, start_threads, start_send_bitrate_threads, stop_send_bitrate_control,
  initialize_send_bitrate_control,
}
use swarm_ros_bridge.Dispatch.{Call, run_call}
use swarm_ros_bridge.Monitor.{monitor_wake}
use swarm_ros_bridge.Aligned.{if-keeps, IsAligned, AlignedIf, recovered-IsAligned, modify-IsAligned}
use swarm_ros_bridge.Aligned.Run.{run_call-IsAligned, after_round-IsAligned}

-- A list of so many policies, if the names are valid.
abbrev Counted : ℕ → Option (List FaultPolicy) → Type 0
Counted n none = Unit
Counted n (some ps) = length ps ≡ n

parse_policies-length :
    {W : Type 0} (ts : List (TopicInfo W)) → Counted (length ts) (parse_policies ts)
unfolding parse_policies
parse_policies-length [] = refl
parse_policies-length (t ∷ ts) =
    cons (length ts) (parse_fault_policy t.fault_policy) (parse_policies ts)
      (parse_policies-length ts)
  where
    cons :
        (n : ℕ) (o : Option FaultPolicy) (r : Option (List FaultPolicy))
        → Counted n r
        → Counted (suc n) (do p ← o; ps ← r; some (p ∷ ps))
    cons n none r c = tt
    cons n (some p) none c = tt
    cons n (some p) (some ps) c = ap suc c

module _ {W : Type 0} ⦃d : Double W⦄ where
  -- From the start of main, after which any operation may run.
  pub data Reachable : World W → Type 0 where
    initialized :
        (callback : Bool) (w v : World W)
        → initialize_node_fault_control callback
            (initialize_send_bitrate_control (length w.send_topics) w)
          ≡ some v
        → Reachable v
    threads_started : (w : World W) → Reachable w → Reachable (start_send_bitrate_threads w)
    fault_started :
        (now : ℕ) (duration : W) (w : World W)
        → Reachable w
        → Reachable (start_node_fault now duration w)
    called : (c : Call) (w v : World W) → Reachable w → run_call c w ≡ some v → Reachable v
    woken : (now : ℕ) (w : World W) → Reachable w → Reachable (monitor_wake now w)
    taken_off :
        (i now t₁ t₂ : ℕ) (b : Bucket W) (w v : World W)
        → Reachable w
        → send_func i now t₁ t₂ b w ≡ some v
        → Reachable v
    thread_stopped : (i : ℕ) (w : World W) → Reachable w → Reachable (stop_send_bitrate_control i w)
    fault_stopped : (w : World W) → Reachable w → Reachable (stop_node_fault_control w)

  initialized-IsAligned :
      (callback : Bool) (w : World W)
      → AlignedIf (
          initialize_node_fault_control callback
            (initialize_send_bitrate_control (length w.send_topics) w))
  unfolding initialize_node_fault_control initialize_send_bitrate_control
  initialized-IsAligned callback w =
      with_policies (parse_policies w.send_topics) (parse_policies w.recv_topics)
        (parse_policies-length w.send_topics) (parse_policies-length w.recv_topics)
    where
      with_policies :
          (o r : Option (List FaultPolicy))
          → Counted (length w.send_topics) o
          → Counted (length w.recv_topics) r
          → AlignedIf (do
            send_policies ← o
            recv_policies ← r
            some (record w {
              controls =
                  replicate
                    (length w.send_topics)
                    (record { thread_flag = true; joinable = false; queue = []; queue_bytes = 0 });
              fault = record w.fault {
                thread_running = true;
                joinable = true;
                publish_callback = callback;
                send_policies = send_policies;
                recv_policies = recv_policies;
                send_buffers = replicate (length w.send_topics) [];
                recv_buffers = replicate (length w.recv_topics) [];
              };
            }))
      with_policies none r c e = tt
      with_policies (some ps) none c e = tt
      with_policies (some ps) (some qs) c e = record {
        controls = length-replicate _ _;
        send_policies = c;
        recv_policies = e;
        send_buffers = length-replicate _ _;
        recv_buffers = length-replicate _ _;
      }

  length-start_threads :
      (ts : List (TopicInfo W)) (cs : List SendControl) → length (start_threads ts cs) ≡ length cs
  unfolding start_threads
  length-start_threads [] cs = refl
  length-start_threads (t ∷ ts) [] = refl
  length-start_threads (t ∷ ts) (c ∷ cs) = ap suc (length-start_threads ts cs)

  threads-IsAligned : (w : World W) → IsAligned w → IsAligned (start_send_bitrate_threads w)
  unfolding start_send_bitrate_threads
  threads-IsAligned w a = record {
    controls = length-start_threads w.send_topics w.controls ∙ a.controls;
    send_policies = a.send_policies;
    recv_policies = a.recv_policies;
    send_buffers = a.send_buffers;
    recv_buffers = a.recv_buffers;
  }

  start_node_fault-IsAligned :
      (now : ℕ) (duration : W) (w : World W)
      → IsAligned w
      → IsAligned (start_node_fault now duration w)
  unfolding start_node_fault
  start_node_fault-IsAligned now duration w a = if-keeps IsAligned (le duration nought) w _ a (
      if-keeps IsAligned (not w.fault.thread_running) w _ a (record {
        controls = a.controls;
        send_policies = a.send_policies;
        recv_policies = a.recv_policies;
        send_buffers = length-map _ w.fault.send_buffers ∙ a.send_buffers;
        recv_buffers = length-map _ w.fault.recv_buffers ∙ a.recv_buffers;
      }))

  monitor_wake-IsAligned : (now : ℕ) (w : World W) → IsAligned w → IsAligned (monitor_wake now w)
  unfolding monitor_wake
  monitor_wake-IsAligned now w a =
      if-keeps IsAligned (not w.fault.thread_running) w _ a
        (if-keeps IsAligned (is_expired now w) _ w (recovered-IsAligned w a) a)

  send_func-IsAligned :
      (i now t₁ t₂ : ℕ) (b : Bucket W) (w : World W)
      → IsAligned w
      → AlignedIf (send_func i now t₁ t₂ b w)
  unfolding send_func
  send_func-IsAligned i now t₁ t₂ b w a = after_round-IsAligned i t₁ t₂ w _ a

  stop-IsAligned : (i : ℕ) (w : World W) → IsAligned w → IsAligned (stop_send_bitrate_control i w)
  unfolding stop_send_bitrate_control
  stop-IsAligned i w a =
      if-keeps IsAligned (le (send_topic w i).max_bitrate nought) w _ a (modify-IsAligned i _ w a)

  stop_fault-IsAligned : (w : World W) → IsAligned w → IsAligned (stop_node_fault_control w)
  unfolding stop_node_fault_control
  stop_fault-IsAligned w a = record {
    controls = a.controls;
    send_policies = a.send_policies;
    recv_policies = a.recv_policies;
    send_buffers = a.send_buffers;
    recv_buffers = a.recv_buffers;
  }

  -- In every state that is reached from the initialization, by starts and ends of faults and of
  -- threads, calls, wake-ups of the monitor and rounds of send threads in any order, each taken
  -- whole, every vector has one entry for each topic, so that a topic's index is in range of it.
  pub Reachable-IsAligned : (w : World W) → Reachable w → IsAligned w
  Reachable-IsAligned _ (initialized callback w v e) =
      subst AlignedIf e (initialized-IsAligned callback w)
  Reachable-IsAligned _ (threads_started w r) = threads-IsAligned w (Reachable-IsAligned w r)
  Reachable-IsAligned _ (fault_started now duration w r) =
      start_node_fault-IsAligned now duration w (Reachable-IsAligned w r)
  Reachable-IsAligned _ (called c w v r e) =
      subst AlignedIf e (run_call-IsAligned c w (Reachable-IsAligned w r))
  Reachable-IsAligned _ (woken now w r) = monitor_wake-IsAligned now w (Reachable-IsAligned w r)
  Reachable-IsAligned _ (taken_off i now t₁ t₂ b w v r e) =
      subst AlignedIf e (send_func-IsAligned i now t₁ t₂ b w (Reachable-IsAligned w r))
  Reachable-IsAligned _ (thread_stopped i w r) = stop-IsAligned i w (Reachable-IsAligned w r)
  Reachable-IsAligned _ (fault_stopped w r) = stop_fault-IsAligned w (Reachable-IsAligned w r)
