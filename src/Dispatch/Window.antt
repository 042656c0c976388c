-- ===== src/Dispatch/Window.antt =====
-- A fault window: each call inside it only moves its message to its topic's buffer.
use swarm_ros_bridge.Common.{
  ℕ, ◌<◌, true, false, some, List, [], ◌∷◌, ◌++◌, append-nil, length, length-modify, get_or,
  get_or-modify_self, get_or-modify_ne, modify, arith, ◌≡◌, subst, fun_ext, refl, sym, ap, ◌∙◌,
  ◌==◌, ==_iff, Bool-cases, inl, inr, lt→ltb,
}
use mathlib.Core.Bool.{false≢true}
use swarm_ros_bridge.Double.{Double}
use swarm_ros_bridge.Topic.{Message, FaultPolicy, drop}
use swarm_ros_bridge.World.{World, NodeFault, send_policy, recv_policy}
use swarm_ros_bridge.Fault.Policy.{
  apply_fault_policy_to_buffer, retained, apply_fault_policy-retained,
}
use swarm_ros_bridge.Replay.{flush_expired_fault_if_needed}
use swarm_ros_bridge.Dispatch.Calls.{
  Before, AllBefore, sends_on, receives_on, add_to, add_send, add_recv, add_send-append,
  add_recv-append,
}
use swarm_ros_bridge.Dispatch.{
  hold_sent, hold_received, admit, dispatch_send_message, dispatch_received_message, Call, sends,
  receives, run_call, run_calls,
}

module _ (policy : ℕ → FaultPolicy) (ms : ℕ → List Message) (bs : List (List Message)) (m : Message)
    (j : ℕ) (h : j < length bs) (e : get_or bs j [] ≡ retained (policy j) (ms j)) where
  abbrev StillHeld : ℕ → Type 0
  StillHeld i =
      get_or (modify bs i (apply_fault_policy_to_buffer (policy i) m)) j []
      ≡ retained (policy j) (add_to ms i m j)

  held-modify_self : StillHeld j
  held-modify_self =
      get_or-modify_self bs j _ [] h
      ∙ ap (apply_fault_policy_to_buffer (policy j) m) e
      ∙ apply_fault_policy-retained (policy j) m (ms j)
      ∙ rw ((==_iff j j).1 refl)

  -- One buffer after one more message, on its own topic or on another.
  held-modify : (i : ℕ) → StillHeld i
  held-modify i = elim (Bool-cases (i == j)) [
    | inl p ↦ subst StillHeld (sym ((==_iff i j).0 p)) held-modify_self
    | inr n ↦
        get_or-modify_ne bs i j _ [] (λ q. false≢true (sym n ∙ (==_iff i j).1 q))
        ∙ e
        ∙ rw (n, append-nil (ms j))
  ]

module _ {W : Type 0} ⦃d : Double W⦄ where
  -- The fault window is open until `f.until`, and nobody replays.
  pub record IsOpen (f : NodeFault W) : Type 0 where
    pub active : f.active ≡ true
    pub steady : f.recovering ≡ false

  -- One call inside the window only moves its message to its buffer.
  abbrev pub hold : Call → World W → World W
  hold (sends i m t₁ t₂ t₃ t₄) w = hold_sent i m w
  hold (receives i m t₁ t₂) w = hold_received i m w

  pub flush-open : (t : ℕ) (w : World W) → t < w.fault.until → flush_expired_fault_if_needed t w ≡ w
  unfolding flush_expired_fault_if_needed
  flush-open t w h = ground arith

  pub admit-open :
      (hold : World W → World W) (t : ℕ) (w : World W)
      → IsOpen w.fault
      → t < w.fault.until
      → admit hold t w ≡ some (true, hold w)
  unfolding admit
  admit-open hold t w o h = rw (o.steady, o.active, lt→ltb t w.fault.until h)

  pub dispatch_send-open :
      (i : ℕ) (m : Message) (t₁ t₂ t₃ t₄ : ℕ) (w : World W)
      → IsOpen w.fault
      → t₁ < w.fault.until
      → t₂ < w.fault.until
      → dispatch_send_message i m t₁ t₂ t₃ t₄ w ≡ some (hold_sent i m w)
  unfolding dispatch_send_message
  dispatch_send-open i m t₁ t₂ t₃ t₄ w o h k =
      rw (flush-open t₁ w h, admit-open (hold_sent i m) t₂ w o k)

  pub run_call-open :
      (c : Call) (w : World W)
      → IsOpen w.fault
      → Before w.fault.until c
      → run_call c w ≡ some (hold c w)
  unfolding run_call dispatch_send_message dispatch_received_message
  run_call-open (sends i m t₁ t₂ t₃ t₄) w o h =
      rw (flush-open t₁ w h.0, admit-open (hold_sent i m) t₂ w o h.1)
  run_call-open (receives i m t₁ t₂) w o h =
      rw (flush-open t₁ w h.0, admit-open (hold_received i m) t₂ w o h.1)

  -- The fault after calls inside the window: only the buffers differ, and each holds what its
  -- policy retains of the messages seen so far.
  pub record Held (w : World W) (ss rs : ℕ → List Message) (v : World W) : Type 0 where
    pub send_topics : v.send_topics ≡ w.send_topics
    pub recv_topics : v.recv_topics ≡ w.recv_topics
    pub controls : v.controls ≡ w.controls
    pub events : v.events ≡ w.events
    pub running : v.fault.thread_running ≡ w.fault.thread_running
    pub active : v.fault.active ≡ w.fault.active
    pub recovering : v.fault.recovering ≡ w.fault.recovering
    pub until : v.fault.until ≡ w.fault.until
    pub duration_sec : v.fault.duration_sec ≡ w.fault.duration_sec
    pub publish_callback : v.fault.publish_callback ≡ w.fault.publish_callback
    pub send_policies : v.fault.send_policies ≡ w.fault.send_policies
    pub recv_policies : v.fault.recv_policies ≡ w.fault.recv_policies
    pub send_count : length v.fault.send_buffers ≡ length w.fault.send_buffers
    pub recv_count : length v.fault.recv_buffers ≡ length w.fault.recv_buffers
    pub held_sends :
        (i : ℕ)
        → i < length w.fault.send_buffers
        → get_or v.fault.send_buffers i [] ≡ retained (send_policy w.fault i) (ss i)
    pub held_recvs :
        (i : ℕ)
        → i < length w.fault.recv_buffers
        → get_or v.fault.recv_buffers i [] ≡ retained (recv_policy w.fault i) (rs i)

  pub hold-Held :
      (w v : World W) (ss rs : ℕ → List Message) (c : Call)
      → Held w ss rs v
      → Held w (add_send c ss) (add_recv c rs) (hold c v)
  unfolding hold_sent hold_received
  hold-Held w v ss rs (sends i m t₁ t₂ t₃ t₄) h = record {
    send_topics = h.send_topics;
    recv_topics = h.recv_topics;
    controls = h.controls;
    events = h.events;
    running = h.running;
    active = h.active;
    recovering = h.recovering;
    until = h.until;
    duration_sec = h.duration_sec;
    publish_callback = h.publish_callback;
    send_policies = h.send_policies;
    recv_policies = h.recv_policies;
    send_count = length-modify v.fault.send_buffers i _ ∙ h.send_count;
    recv_count = h.recv_count;
    held_sends = λ j k.
        subst
          (λ (ps : List FaultPolicy).
            get_or
              (modify v.fault.send_buffers i (apply_fault_policy_to_buffer (get_or ps i drop) m)) j
              []
            ≡ retained (send_policy w.fault j) (add_to ss i m j))
          (sym h.send_policies)
          (held-modify (send_policy w.fault) ss v.fault.send_buffers m j (rw h.send_count k)
            (h.held_sends j k) i);
    held_recvs = h.held_recvs;
  }
  hold-Held w v ss rs (receives i m t₁ t₂) h = record {
    send_topics = h.send_topics;
    recv_topics = h.recv_topics;
    controls = h.controls;
    events = h.events;
    running = h.running;
    active = h.active;
    recovering = h.recovering;
    until = h.until;
    duration_sec = h.duration_sec;
    publish_callback = h.publish_callback;
    send_policies = h.send_policies;
    recv_policies = h.recv_policies;
    send_count = h.send_count;
    recv_count = length-modify v.fault.recv_buffers i _ ∙ h.recv_count;
    held_sends = h.held_sends;
    held_recvs = λ j k.
        subst
          (λ (ps : List FaultPolicy).
            get_or
              (modify v.fault.recv_buffers i (apply_fault_policy_to_buffer (get_or ps i drop) m)) j
              []
            ≡ retained (recv_policy w.fault j) (add_to rs i m j))
          (sym h.recv_policies)
          (held-modify (recv_policy w.fault) rs v.fault.recv_buffers m j (rw h.recv_count k)
            (h.held_recvs j k) i);
  }

  pub Held-IsOpen :
      (w v : World W) (ss rs : ℕ → List Message) → Held w ss rs v → IsOpen w.fault → IsOpen v.fault
  Held-IsOpen w v ss rs h o = record {
    active = h.active ∙ o.active;
    steady = h.recovering ∙ o.steady;
  }

  -- A world in which calls `cs` have been made on top of the messages `ss` and `rs`.
  abbrev pub HeldAfter :
      World W → (ℕ → List Message) → (ℕ → List Message) → List Call → World W → Type 0
  HeldAfter w ss rs cs = Held w (λ j. ss j ++ sends_on j cs) (λ j. rs j ++ receives_on j cs)

  Held-nil : (w v : World W) (ss rs : ℕ → List Message) → Held w ss rs v → HeldAfter w ss rs [] v
  Held-nil w v ss rs h =
      subst (λ (f : ℕ → List Message). Held w f (λ j. rs j ++ []) v)
        (fun_ext λ j. sym (append-nil (ss j)))
        (subst (λ (f : ℕ → List Message). Held w ss f v) (fun_ext λ j. sym (append-nil (rs j))) h)

  Held-cons :
      (w v : World W) (ss rs : ℕ → List Message) (c : Call) (cs : List Call)
      → HeldAfter w (add_send c ss) (add_recv c rs) cs v
      → HeldAfter w ss rs (c ∷ cs) v
  Held-cons w v ss rs c cs h =
      subst (λ (f : ℕ → List Message). Held w f (λ j. rs j ++ receives_on j (c ∷ cs)) v)
        (fun_ext (add_send-append c cs ss))
        (subst (λ (f : ℕ → List Message). Held w (λ j. add_send c ss j ++ sends_on j cs) f v)
          (fun_ext (add_recv-append c cs rs)) h)

  -- Every sequence of calls inside the window returns, and holds its messages.
  pub run_calls-Held :
      (w : World W) (cs : List Call) (v : World W) (ss rs : ℕ → List Message)
      → IsOpen w.fault
      → AllBefore w.fault.until cs
      → Held w ss rs v
      → (u : World W) × (run_calls cs v ≡ some u) × HeldAfter w ss rs cs u
  unfolding run_calls
  run_calls-Held w [] v ss rs o b h = (v, refl, Held-nil w v ss rs h)
  run_calls-Held w (c ∷ cs) v ss rs o b h =
      let step =
        run_call-open c v (Held-IsOpen w v ss rs h o)
          (subst (λ (t : ℕ). Before t c) (sym h.until) b.0) in
      let (u, run, held) =
        run_calls-Held w cs (hold c v) (add_send c ss) (add_recv c rs) o b.1
          (hold-Held w v ss rs c h) in
      (u, rw step run, Held-cons w u ss rs c cs held)
