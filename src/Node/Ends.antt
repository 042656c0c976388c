-- ===== src/Node/Ends.antt =====
-- How the process of the bridge node ends.
use swarm_ros_bridge.Common.{
  Bool, true, false, not, List, map, length, replicate, if◌then◌else◌, ◌==◌, ℕ, zero, suc, ◌≡◌,
  refl, sym, ap, ◌∙◌, subst, arith,
}
use swarm_ros_bridge.Double.{Double, IsOrdered, lt, nought}
use swarm_ros_bridge.Topic.{TopicInfo}
use swarm_ros_bridge.World.{World}
use swarm_ros_bridge.Bridge.Topics.{go}
use swarm_ros_bridge.Threads.{System}
use swarm_ros_bridge.Threads.Step.{Reach}
use swarm_ros_bridge.Threads.Unguarded.{Anytime}
use swarm_ros_bridge.Node.{Node, Params, Surroundings}
use swarm_ros_bridge.Node.Start.{set_up, start_server}
use swarm_ros_bridge.Node.Stop.{any, shut_down, has_joinable, process_end, exits_with, terminates}
use swarm_ros_bridge.Node.Released.{HasThreads, IsFitted, shut_down-released}
use swarm_ros_bridge.Node.Started.{set_up-IsSetUp}
use swarm_ros_bridge.Node.Running.{start_server-IsRunning}
use swarm_ros_bridge.Node.Kept.{IsKept, Reach-IsKept}

any-replicate : (n : ℕ) → any (λ b. b) (replicate n true) ≡ not (n == 0)
any-replicate zero = refl
any-replicate (suc n) = ground arith

module _ {W : Type 0} ⦃d : Double W⦄ where
  kept-HasThreads : (w v : World W) → IsKept w v → HasThreads w → HasThreads v
  kept-HasThreads w v k h = record {
    sending = k.sending ∙ h.sending ∙ ap (map (λ t. lt nought t.max_bitrate)) (sym k.send_topics);
    monitoring = k.monitoring ∙ h.monitoring;
  }

module _ {W T : Type 0} ⦃d : Double W⦄ where
  -- The node with its world as running threads left it.
  abbrev pub with_world : Node W T → World W → Node W T
  with_world n v = record n { world = v }

  kept-IsFitted :
      (n : Node W T) (v : World W) → IsKept n.world v → IsFitted n → IsFitted (with_world n v)
  kept-IsFitted n v k f =
      let es = ap length (sym k.send_topics) in
      let er = ap length (sym k.recv_topics) in
      record {
        senders = f.senders ∙ es;
        topic_subs = f.topic_subs ∙ es;
        receivers = f.receivers ∙ er;
        topic_pubs = f.topic_pubs ∙ er;
        recv_states = f.recv_states ∙ er;
        recv_threads = f.recv_threads ∙ er;
      }

  refused :
      (b : Bool) (a c u : Node W T)
      → ◌≡◌ {A = Bool × Node W T} (if b then (true, a) else (false, c)) (false, u)
      → c ≡ u
  refused true a c u e = cc
  refused false a c u e = ap (λ r. r.1) e

  -- A node that has started, whatever its threads have done since, faults started at any time: at the
  -- end of main the process exits with 0 if it has no receive topic, and otherwise it ends in
  -- std::terminate, since its receive threads have not been joined. The doubles are in order.
  pub shut_down-terminates :
      (o : IsOrdered W) (x : Surroundings T) (p : Params W) (sends recvs : List (TopicInfo W))
      (n u : Node W T) (s₀ s : System W)
      → set_up x p sends recvs ≡ go n
      → start_server x p n ≡ (true, u)
      → s₀.world ≡ u.world
      → Reach Anytime s₀ s
      → process_end 0 (shut_down (with_world u s.world))
        ≡ (if length recvs == 0 then exits_with 0 else terminates)
  unfolding process_end
  shut_down-terminates o x p sends recvs n u s₀ s e f same r =
      let i = start_server-IsRunning x p sends recvs n u e f in
      let k = subst (λ (w : World W). IsKept w s.world) same (Reach-IsKept r) in
      let left =
        (shut_down-released o (with_world u s.world) (kept-IsFitted u s.world k i.fitted)
          (kept-HasThreads u.world s.world k i.threads) i.sound).0
        ∙ ap (any (λ b. b)) i.recv_threads
        ∙ any-replicate (length recvs) in
      rw left (ground arith)

  -- When the control server of a node that is set up does not start, main returns 4 with the fault
  -- monitor neither joined nor detached, and the process ends in std::terminate.
  pub start_server-terminates :
      (x : Surroundings T) (p : Params W) (sends recvs : List (TopicInfo W)) (n u : Node W T)
      → set_up x p sends recvs ≡ go n
      → start_server x p n ≡ (false, u)
      → process_end 4 u ≡ terminates
  unfolding process_end start_server has_joinable
  start_server-terminates x p sends recvs n u e f =
      let up = (set_up-IsSetUp x p sends recvs n e).initialized.monitoring in
      subst (λ (m : Node W T). process_end 4 m ≡ terminates) (refused _ _ _ u f) (rw up refl)
