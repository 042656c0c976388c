-- ===== src/Dispatch/Episode.antt =====
-- A whole episode: a fault starts, messages arrive in its window, it ends, and traffic goes on.
use swarm_ros_bridge.Common.{
  ℕ, ◌+◌, ◌≤◌, ◌<◌, true, false, some, List, [], ◌++◌, length, get_or, ◌≡◌, subst, refl, sym, ap,
  ◌∙◌, ◌⊎◌, inl, inr, Bool-cases, arith, ltb, ltb→lt,
}
use swarm_ros_bridge.Double.{Double}
use swarm_ros_bridge.Topic.{FaultPolicy, drop}
use swarm_ros_bridge.World.{
  World, is_limited, send_policy, recv_policy, Event, sent_on, published_on,
}
use swarm_ros_bridge.Fault.Policy.{retained}
use swarm_ros_bridge.Fault.{start_node_fault}
use swarm_ros_bridge.Replay.{flush_expired_fault_if_needed}
use swarm_ros_bridge.Replay.Log.{sent, shown}
use swarm_ros_bridge.Dispatch.{run_calls, Call}
use swarm_ros_bridge.Dispatch.Calls.{AllBefore, sends_on, receives_on}
use swarm_ros_bridge.Dispatch.Window.{HeldAfter, run_calls-Held}
use swarm_ros_bridge.Dispatch.Recovery.{
  IsReady, Started, start_node_fault-Started, Recovered, flush_expired-Recovered,
}

le_or_lt : (n i : ℕ) → (n ≤ i) ⊎ (i < n)
le_or_lt n i = elim (Bool-cases (ltb i n)) [
  | inl h ↦ inr (ltb→lt i n h)
  | inr h ↦ inl (ground (arith, h))
]

module _ {W : Type 0} ⦃d : Double W⦄ where
  -- What the log shows after the recovery from a window in which `cs` were made: on each topic the
  -- messages that its policy retains of the window, in order, behind what was there before.
  pub record Replays (w : World W) (cs : List Call) (u : World W) : Type 0 where
    pub sent_free :
        (j : ℕ)
        → j < length w.fault.send_buffers
        → is_limited w j ≡ false
        → sent j u ≡ sent j w ++ retained (send_policy w.fault j) (sends_on j cs)
    pub shown_all :
        (j : ℕ)
        → j < length w.fault.recv_buffers
        → shown j u ≡ shown j w ++ retained (recv_policy w.fault j) (receives_on j cs)

  -- A window in which `cs` have been made, seen from the world `w` before its start.
  pub record Windowed (w : World W) (end : ℕ) (cs : List Call) (v : World W) : Type 0 where
    pub active : v.fault.active ≡ true
    pub steady : v.fault.recovering ≡ false
    pub running : v.fault.thread_running ≡ w.fault.thread_running
    pub send_policies : v.fault.send_policies ≡ w.fault.send_policies
    pub recv_policies : v.fault.recv_policies ≡ w.fault.recv_policies
    pub send_count : length v.fault.send_buffers ≡ length w.fault.send_buffers
    pub recv_count : length v.fault.recv_buffers ≡ length w.fault.recv_buffers
    pub until : v.fault.until ≡ end
    pub events : v.events ≡ w.events
    pub topics : v.send_topics ≡ w.send_topics
    pub controls : v.controls ≡ w.controls
    pub callback : v.fault.publish_callback ≡ w.fault.publish_callback
    pub held_sends :
        (i : ℕ)
        → i < length w.fault.send_buffers
        → get_or v.fault.send_buffers i [] ≡ retained (send_policy w.fault i) (sends_on i cs)
    pub held_recvs :
        (i : ℕ)
        → i < length w.fault.recv_buffers
        → get_or v.fault.recv_buffers i [] ≡ retained (recv_policy w.fault i) (receives_on i cs)

  held-Windowed :
      (now : ℕ) (duration : W) (w w' v : World W) (cs : List Call)
      → Started now duration w w'
      → HeldAfter w' (λ _. []) (λ _. []) cs v
      → Windowed w (now + d.to_nanos duration) cs v
  held-Windowed now duration w w' v cs s h = record {
    active = h.active ∙ s.open_window.active;
    steady = h.recovering ∙ s.open_window.steady;
    running = h.running ∙ s.running;
    send_policies = h.send_policies ∙ s.send_policies;
    recv_policies = h.recv_policies ∙ s.recv_policies;
    send_count = h.send_count ∙ s.send_count;
    recv_count = h.recv_count ∙ s.recv_count;
    until = h.until ∙ s.until;
    events = h.events ∙ s.events;
    topics = h.send_topics ∙ s.topics;
    controls = h.controls ∙ s.controls;
    callback = h.publish_callback ∙ s.callback;
    held_sends = λ i k.
        h.held_sends i (rw s.send_count k)
        ∙ ap (λ (ps : List FaultPolicy). retained (get_or ps i drop) (sends_on i cs))
            s.send_policies;
    held_recvs = λ i k.
        h.held_recvs i (rw s.recv_count k)
        ∙ ap (λ (ps : List FaultPolicy). retained (get_or ps i drop) (receives_on i cs))
            s.recv_policies;
  }

  pub start-Windowed :
      (now : ℕ) (duration : W) (w : World W) (cs : List Call)
      → IsReady w duration
      → AllBefore (now + d.to_nanos duration) cs
      → (v : World W) × (run_calls cs (start_node_fault now duration w) ≡ some v)
        × Windowed w (now + d.to_nanos duration) cs v
  start-Windowed now duration w cs r b =
      let s = start_node_fault-Started now duration w r in
      let w' = start_node_fault now duration w in
      let (v, run, held) =
        run_calls-Held w' cs w' (λ _. []) (λ _. []) s.open_window
          (subst (λ (t : ℕ). AllBefore t cs) (sym s.until) b) s.empty in
      (v, run, held-Windowed now duration w w' v cs s held)

  pub Windowed-Replays :
      (w v u : World W) (end : ℕ) (cs : List Call)
      → w.fault.publish_callback ≡ true
      → Windowed w end cs v
      → Recovered v u
      → Replays w cs u
  Windowed-Replays w v u end cs callback a r = record {
    sent_free = λ j k free.
        r.sent_free j (rw a.topics free)
        ∙ ap (λ (es : List (Event W)). sent_on j es ++ get_or v.fault.send_buffers j []) a.events
        ∙ ap (◌++◌ (sent j w)) (a.held_sends j k);
    shown_all = λ j k.
        r.shown_all j (a.callback ∙ callback)
        ∙ ap (λ (es : List (Event W)). published_on j es ++ get_or v.fault.recv_buffers j [])
            a.events
        ∙ ap (◌++◌ (shown j w)) (a.held_recvs j k);
  }

  -- The send topic `i` has no buffer, or a bitrate limit, or it has sent just what its policy
  -- retains of the calls `cs`, in order, behind what it had sent in `w`.
  abbrev pub SentFree : World W → List Call → World W → ℕ → Type 0
  SentFree w cs u i =
      (length w.fault.send_buffers ≤ i)
      ⊎ (is_limited w i ≡ true)
      ⊎ (sent i u ≡ sent i w ++ retained (send_policy w.fault i) (sends_on i cs))

  -- The receive topic `j` has no buffer, or it has published just what its policy retains of the
  -- calls `cs`, in order, behind what it had published in `w`.
  abbrev pub ShownAll : World W → List Call → World W → ℕ → Type 0
  ShownAll w cs u j =
      (length w.fault.recv_buffers ≤ j)
      ⊎ (shown j u ≡ shown j w ++ retained (recv_policy w.fault j) (receives_on j cs))

  pub Replays-SentFree :
      (w u : World W) (cs : List Call) (i : ℕ) → Replays w cs u → SentFree w cs u i
  Replays-SentFree w u cs i p = elim (le_or_lt (length w.fault.send_buffers) i) [
    | inl h ↦ inl h
    | inr h ↦ elim (Bool-cases (is_limited w i)) [
      | inl l ↦ inr (inl l)
      | inr k ↦ inr (inr (p.sent_free i h k))
    ]
  ]

  pub Replays-ShownAll :
      (w u : World W) (cs : List Call) (j : ℕ) → Replays w cs u → ShownAll w cs u j
  Replays-ShownAll w u cs j p = elim (le_or_lt (length w.fault.recv_buffers) j) [
    | inl h ↦ inl h
    | inr h ↦ inr (p.shown_all j h)
  ]

  -- A fault starts on a control that is ready and has a callback. Any calls made in its window
  -- return, and send and publish nothing. The recovery at a look at the clock that is not before
  -- the window's end ends the fault, and then every receive topic that has a buffer, and every
  -- such send topic with no bitrate limit, has got exactly what its policy retains of the window's
  -- messages, in order, behind what it had before; there may be no topic of either kind.
  pub fault_episode :
      (now later : ℕ) (duration : W) (w : World W) (cs : List Call)
      → IsReady w duration
      → w.fault.publish_callback ≡ true
      → AllBefore (now + d.to_nanos duration) cs
      → now + d.to_nanos duration ≤ later
      → (v u : World W) × (run_calls cs (start_node_fault now duration w) ≡ some v)
        × (v.events ≡ w.events)
        × (flush_expired_fault_if_needed later v ≡ u)
        × (u.fault.active ≡ false)
        × (u.fault.recovering ≡ false)
        × ((i : ℕ) → SentFree w cs u i)
        × ((j : ℕ) → ShownAll w cs u j)
  fault_episode now later duration w cs ready callback b h =
      let (v, run, a) = start-Windowed now duration w cs ready b in
      let u = flush_expired_fault_if_needed later v in
      let r = flush_expired-Recovered later v a.active (rw a.until h) in
      let p = Windowed-Replays w v u _ cs callback a r in
      (
        v,
        u,
        run,
        a.events,
        refl,
        r.inactive,
        r.steady,
        λ i. Replays-SentFree w u cs i p,
        λ j. Replays-ShownAll w u cs j p,
      )
