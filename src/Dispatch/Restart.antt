-- ===== src/Dispatch/Restart.antt =====
-- A second fault that starts inside the window of the first, as a delayed start can.
use swarm_ros_bridge.Common.{ℕ, ◌+◌, ◌≤◌, true, false, some, List, ◌++◌, get_or, ◌≡◌, ap, ◌∙◌, refl}
use swarm_ros_bridge.Double.{Double, le, nought}
use swarm_ros_bridge.Topic.{FaultPolicy, drop}
use swarm_ros_bridge.World.{World, Event, sent_on, published_on}
use swarm_ros_bridge.Fault.Policy.{retained}
use swarm_ros_bridge.Fault.{start_node_fault}
use swarm_ros_bridge.Replay.{flush_expired_fault_if_needed}
use swarm_ros_bridge.Dispatch.{run_calls, Call}
use swarm_ros_bridge.Dispatch.Calls.{AllBefore, sends_on, receives_on}
use swarm_ros_bridge.Dispatch.Recovery.{IsReady, flush_expired-Recovered}
use swarm_ros_bridge.Dispatch.Episode.{
  Replays, Windowed, start-Windowed, Windowed-Replays, SentFree, ShownAll, Replays-SentFree,
  Replays-ShownAll,
}

module _ {W : Type 0} ⦃d : Double W⦄ where
  -- What has been replayed since `v`, in an open window, has been replayed since its start.
  Windowed-Replays_since :
      (w v u : World W) (end : ℕ) (cs ds : List Call)
      → Windowed w end cs v
      → Replays v ds u
      → Replays w ds u
  Windowed-Replays_since w v u end cs ds a p = record {
    sent_free = λ j k free.
        p.sent_free j (rw a.send_count k) (rw a.topics free)
        ∙ ap
            (λ (es : List (Event W)).
              sent_on j es ++ retained (get_or v.fault.send_policies j drop) (sends_on j ds))
            a.events
        ∙ ap
            (λ (ps : List FaultPolicy).
              sent_on j w.events ++ retained (get_or ps j drop) (sends_on j ds))
            a.send_policies;
    shown_all = λ j k.
        p.shown_all j (rw a.recv_count k)
        ∙ ap
            (λ (es : List (Event W)).
              published_on j es
              ++ retained (get_or v.fault.recv_policies j drop) (receives_on j ds))
            a.events
        ∙ ap
            (λ (ps : List FaultPolicy).
              published_on j w.events ++ retained (get_or ps j drop) (receives_on j ds))
            a.recv_policies;
  }

  -- A fault starts on a control that is ready and has a callback, calls `cs` are made in its window,
  -- and a second fault starts before anything ends the first; then calls `ds` are made in the
  -- second window. All of them return. The recovery at a look at the clock that is not before the
  -- end of the second window releases, on every receive topic with a buffer and on every such send
  -- topic with no bitrate limit, exactly what the policy retains of `ds`, behind what the topic had
  -- before the first fault: everything that the first window held back is lost.
  pub restarted_episode :
      (now₁ now₂ later : ℕ) (duration₁ duration₂ : W) (w : World W) (cs ds : List Call)
      → IsReady w duration₁
      → le duration₂ nought ≡ false
      → w.fault.publish_callback ≡ true
      → AllBefore (now₁ + d.to_nanos duration₁) cs
      → AllBefore (now₂ + d.to_nanos duration₂) ds
      → now₂ + d.to_nanos duration₂ ≤ later
      → (v v' u : World W) × (run_calls cs (start_node_fault now₁ duration₁ w) ≡ some v)
        × (run_calls ds (start_node_fault now₂ duration₂ v) ≡ some v')
        × (flush_expired_fault_if_needed later v' ≡ u)
        × ((i : ℕ) → SentFree w ds u i)
        × ((j : ℕ) → ShownAll w ds u j)
  restarted_episode now₁ now₂ later duration₁ duration₂ w cs ds ready positive callback b c h =
      let (v, run, a) = start-Windowed now₁ duration₁ w cs ready b in
      let again : IsReady v duration₂ = record {
        positive = positive;
        running = a.running ∙ ready.running;
        steady = a.steady;
      } in
      let (v', run', a') = start-Windowed now₂ duration₂ v ds again c in
      let u = flush_expired_fault_if_needed later v' in
      let r = flush_expired-Recovered later v' a'.active (rw a'.until h) in
      let p =
        Windowed-Replays_since w v u _ cs ds a
          (Windowed-Replays v v' u _ ds (a.callback ∙ callback) a' r) in
      (
        v,
        v',
        u,
        run,
        run',
        refl,
        λ i. Replays-SentFree w u ds i p,
        λ j. Replays-ShownAll w u ds j p,
      )
