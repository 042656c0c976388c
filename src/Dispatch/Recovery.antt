-- ===== src/Dispatch/Recovery.antt =====
-- A fault from its start, through the calls of its window, to its recovery and the next message.

use swarm_ros_bridge.Common.{
  ℕ, zero, suc, ◌+◌, ◌≤◌, true, false, List, [], ◌∷◌, ◌++◌, length, length-map, get_or, map,
  replicate, arith, ◌≡◌, subst, refl, sym, ap, ◌∙◌, le→leb,
}
use swarm_ros_bridge.Double.{Double, le, nought}
use swarm_ros_bridge.Topic.{Message, FaultPolicy, drop, buffer, latest}
use swarm_ros_bridge.World.{World, NodeFault, is_limited}
use swarm_ros_bridge.Fault.Policy.{retained}
use swarm_ros_bridge.Fault.{start_node_fault}
use swarm_ros_bridge.Replay.{
  flush_expired_fault_if_needed, flush_fault_buffers, begin_recovery, end_recovery, take_buffers,
}
use swarm_ros_bridge.Replay.Log.{sent, shown}
use swarm_ros_bridge.Replay.Recovery.{
  flush_fault_buffers-sent, flush_fault_buffers-shown, flush_fault_buffers-SameSetup,
}
use swarm_ros_bridge.Dispatch.Window.{IsOpen, Held}

pub get_or-map_nil :
    (bs : List (List Message)) (i : ℕ) → get_or {A = List Message} (map (λ _. []) bs) i [] ≡ []
get_or-map_nil [] i = refl
get_or-map_nil (b ∷ bs) zero = refl
get_or-map_nil (b ∷ bs) (suc i) = get_or-map_nil bs i

retained-nil : (p : FaultPolicy) → retained p [] ≡ []
retained-nil drop = refl
retained-nil buffer = refl
retained-nil latest = refl

-- A fault may be started: the monitor runs, nobody replays, and the duration is positive.
pub record IsReady {W : Type 0} ⦃d : Double W⦄ (w : World W) (duration : W) : Type 0 where
  pub positive : le duration nought ≡ false
  pub running : w.fault.thread_running ≡ true
  pub steady : w.fault.recovering ≡ false

module _ {W : Type 0} ⦃d : Double W⦄ where
  abbrev opened : ℕ → W → World W → World W
  opened now duration w = record w {
    fault = record w.fault {
      active = true;
      duration_sec = duration;
      until = now + d.to_nanos duration;
      send_buffers = map (λ _. []) w.fault.send_buffers;
      recv_buffers = map (λ _. []) w.fault.recv_buffers;
    };
  }

  start-opened :
      (now : ℕ) (duration : W) (w : World W)
      → IsReady w duration
      → start_node_fault now duration w ≡ opened now duration w
  unfolding start_node_fault
  start-opened now duration w r = ground arith

  -- What the start of a fault does: it opens the window, empties every buffer, and moves no message.
  pub record Started (now : ℕ) (duration : W) (w w' : World W) : Type 0 where
    pub open_window : IsOpen w'.fault
    pub until : w'.fault.until ≡ now + d.to_nanos duration
    pub empty : Held w' (λ _. []) (λ _. []) w'
    pub events : w'.events ≡ w.events
    pub controls : w'.controls ≡ w.controls
    pub running : w'.fault.thread_running ≡ w.fault.thread_running
    pub topics : w'.send_topics ≡ w.send_topics
    pub callback : w'.fault.publish_callback ≡ w.fault.publish_callback
    pub send_policies : w'.fault.send_policies ≡ w.fault.send_policies
    pub recv_policies : w'.fault.recv_policies ≡ w.fault.recv_policies
    pub send_count : length w'.fault.send_buffers ≡ length w.fault.send_buffers
    pub recv_count : length w'.fault.recv_buffers ≡ length w.fault.recv_buffers

  opened-Started :
      (now : ℕ) (duration : W) (w : World W)
      → IsReady w duration
      → Started now duration w (opened now duration w)
  opened-Started now duration w r = record {
    open_window = record { active = refl; steady = r.steady };
    until = refl;
    empty = record {
      send_topics = refl;
      recv_topics = refl;
      controls = refl;
      events = refl;
      running = refl;
      active = refl;
      recovering = refl;
      until = refl;
      duration_sec = refl;
      publish_callback = refl;
      send_policies = refl;
      recv_policies = refl;
      send_count = refl;
      recv_count = refl;
      held_sends = λ i _. get_or-map_nil w.fault.send_buffers i ∙ sym (retained-nil _);
      held_recvs = λ i _. get_or-map_nil w.fault.recv_buffers i ∙ sym (retained-nil _);
    };
    events = refl;
    controls = refl;
    running = refl;
    topics = refl;
    callback = refl;
    send_policies = refl;
    recv_policies = refl;
    send_count = length-map _ w.fault.send_buffers;
    recv_count = length-map _ w.fault.recv_buffers;
  }

  pub start_node_fault-Started :
      (now : ℕ) (duration : W) (w : World W)
      → IsReady w duration
      → Started now duration w (start_node_fault now duration w)
  start_node_fault-Started now duration w r =
      subst (Started now duration w) (sym (start-opened now duration w r))
        (opened-Started now duration w r)

  -- What the recovery of an expired fault does.
  pub record Recovered (v u : World W) : Type 0 where
    pub inactive : u.fault.active ≡ false
    pub steady : u.fault.recovering ≡ false
    pub topics : u.send_topics ≡ v.send_topics
    pub send_buffers : u.fault.send_buffers ≡ replicate (length v.send_topics) []
    pub recv_buffers : u.fault.recv_buffers ≡ replicate (length v.recv_topics) []
    pub callback : u.fault.publish_callback ≡ v.fault.publish_callback
    pub sent_free :
        (j : ℕ) → is_limited v j ≡ false → sent j u ≡ sent j v ++ get_or v.fault.send_buffers j []
    pub shown_all :
        (j : ℕ)
        → v.fault.publish_callback ≡ true
        → shown j u ≡ shown j v ++ get_or v.fault.recv_buffers j []

  pub flush-expired :
      (now : ℕ) (v : World W)
      → v.fault.active ≡ true
      → v.fault.until ≤ now
      → flush_expired_fault_if_needed now v ≡ end_recovery (flush_fault_buffers (begin_recovery v))
  unfolding flush_expired_fault_if_needed
  flush-expired now v a h = rw (a, le→leb v.fault.until now h)

  pub recovery-Recovered :
      (v : World W) → Recovered v (end_recovery (flush_fault_buffers (begin_recovery v)))
  unfolding end_recovery begin_recovery take_buffers
  recovery-Recovered v =
      let s = flush_fault_buffers-SameSetup (begin_recovery v) in
      record {
        inactive = ap (λ (f : NodeFault W). f.active) s.fault;
        steady = refl;
        topics = s.send_topics;
        send_buffers = ap (λ (f : NodeFault W). f.send_buffers) s.fault;
        recv_buffers = ap (λ (f : NodeFault W). f.recv_buffers) s.fault;
        callback = ap (λ (f : NodeFault W). f.publish_callback) s.fault;
        sent_free = flush_fault_buffers-sent (begin_recovery v);
        shown_all = flush_fault_buffers-shown (begin_recovery v);
      }

  -- At the first look after its end a fault is over: its buffers have been replayed and are empty.
  pub flush_expired-Recovered :
      (now : ℕ) (v : World W)
      → v.fault.active ≡ true
      → v.fault.until ≤ now
      → Recovered v (flush_expired_fault_if_needed now v)
  flush_expired-Recovered now v a h =
      subst (Recovered v) (sym (flush-expired now v a h)) (recovery-Recovered v)
