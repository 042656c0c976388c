-- ===== src/SendThread/Relay/Steps.antt =====
-- Each step of a run with no fault, seen from one limited topic.
use mathlib.Core.Bool.{false≢true}
use swarm_ros_bridge.Common.{
  ℕ, ◌+◌, ◌≤◌, ◌<◌, Bool, true, false, some, List, [], ◌∷◌, ◌++◌, append-nil, append_assoc, arith,
  length, length-modify, get_or, get_or-modify_self, get_or-modify_ne, ◌≡◌, refl, sym, ap, ◌∙◌,
  subst, ◌==◌, ==_iff, Bool-cases, inl, inr, if◌then◌else◌, All, modify,
}
use swarm_ros_bridge.Double.{Double}
use swarm_ros_bridge.Topic.{Message}
use swarm_ros_bridge.World.{
  World, SendControl, no_control, size_range, send_topic, control, is_limited, zmq_sent, published,
}
use swarm_ros_bridge.SendQueue.{enqueue_send_message}
use swarm_ros_bridge.SendQueue.Bounds.{IsCounted}
use swarm_ros_bridge.Replay.{send_serialized_message, publish_received_message_after_fault}
use swarm_ros_bridge.Replay.Log.{sent, sent_on-append}
use swarm_ros_bridge.Dispatch.{Call, sends, receives, run_call}
use swarm_ros_bridge.Dispatch.Calls.{sends_on}
use swarm_ros_bridge.Dispatch.Resume.{flush-idle, send-idle, receive-idle}
use swarm_ros_bridge.SendThread.{
  Bucket, Round, exits, waits, retries, takes, bytes_per_second, send_round,
}
use swarm_ros_bridge.SendThread.Loop.{finish_round, wake}
use swarm_ros_bridge.SendThread.Relay.{Line, Line-take}
use swarm_ros_bridge.SendThread.Relay.Queued.{
  send-queued, most, room, Relayed, elsewhere, queued-Relayed,
}
use swarm_ros_bridge.SendThread.Relay.Popped.{Popped, round-Popped, after_round-idle}

module _ {W : Type 0} ⦃d : Double W⦄ (i longest : ℕ) (w₀ : World W)
    (small : most w₀ i longest + longest < size_range) (tracked : i < length w₀.controls)
    (limited : is_limited w₀ i ≡ true) where
  -- The message that was taken is written to the socket.
  written-Relayed :
      (ms : List Message) (w : World W) (m : Message) (c : SendControl)
      → Relayed i longest w₀ ms w
      → Popped (control w i) c m
      → Relayed i longest w₀ ms
          (send_serialized_message i m (record w { controls = modify w.controls i (λ _. c) }))
  unfolding send_serialized_message
  written-Relayed ms w m c r p = record {
    idle = record { inactive = r.idle.inactive; steady = r.idle.steady };
    written = r.written ++ m ∷ [];
    lined = record {
      topics = r.topics;
      controls = length-modify w.controls i _ ∙ r.controls;
      counted = subst IsCounted (sym own) p.counted;
      within = rw own (omega (arith, p.bytes, r.within));
      sent_all =
          sent_on-append i w.events (zmq_sent i m ∷ [])
          ∙ ap (λ (b : Bool). sent i w ++ (if b then m ∷ [] else [])) ((==_iff i i).1 refl)
          ∙ ap (λ (l : List Message). l ++ m ∷ []) r.sent_all
          ∙ append_assoc (sent i w₀) r.written (m ∷ []);
      line =
          subst (λ (k : SendControl). Line (room w₀ i) ms (r.written ++ m ∷ []) k.queue) (sym own)
            (Line-take (room w₀ i) ms r.written c.queue m
              (subst (λ (q : List Message). Line (room w₀ i) ms r.written q) p.was r.line));
    };
  }
    where
      own : get_or (modify w.controls i (λ _. c)) i no_control ≡ c
      own = get_or-modify_self w.controls i (λ _. c) no_control (rw r.controls tracked)

  finish-Relayed :
      (now t₁ t₂ : ℕ) (b : Bucket W) (ms : List Message) (w : World W) (r : Round W)
      → Relayed i longest w₀ ms w
      → send_round (bytes_per_second (send_topic w i).max_bitrate) now b (control w i) ≡ r
      → (b' : Bucket W) × (v : World W) × (finish_round i t₁ t₂ b w r ≡ some (b', v))
        × Relayed i longest w₀ ms v
  unfolding finish_round
  finish-Relayed now t₁ t₂ b ms w exits r e = (b, w, refl, r)
  finish-Relayed now t₁ t₂ b ms w waits r e = (b, w, refl, r)
  finish-Relayed now t₁ t₂ b ms w (retries t b') r e = (b', w, refl, r)
  finish-Relayed now t₁ t₂ b ms w (takes m b' c) r e = (
    b',
    _,
    rw (after_round-idle i t₁ t₂ w m b' c r.idle),
    written-Relayed ms w m c r
        (round-Popped _ now b b' (control w i) c m r.counted (omega (arith, r.within, small)) e),
  )

  pub wake-Relayed :
      (now t₁ t₂ : ℕ) (b : Bucket W) (ms : List Message) (w : World W)
      → Relayed i longest w₀ ms w
      → (b' : Bucket W) × (v : World W) × (wake i now t₁ t₂ b w ≡ some (b', v))
        × Relayed i longest w₀ ms v
  unfolding wake
  wake-Relayed now t₁ t₂ b ms w r = finish-Relayed now t₁ t₂ b ms w _ r refl

  -- A message of another topic.
  other-Relayed :
      (j : ℕ) (m : Message) (t₁ t₂ t₃ t₄ : ℕ) (ms : List Message) (w : World W)
      → (j == i) ≡ false
      → Relayed i longest w₀ ms w
      → (v : World W) × (run_call (sends j m t₁ t₂ t₃ t₄) w ≡ some v) × Relayed i longest w₀ ms v
  unfolding run_call enqueue_send_message send_serialized_message
  other-Relayed j m t₁ t₂ t₃ t₄ ms w n r = elim (Bool-cases (is_limited w j)) [
    | inl e ↦ (
      enqueue_send_message j m w,
      send-queued j m t₁ t₂ t₃ t₄ w r.idle e,
      elsewhere i longest w₀ w (enqueue_send_message j m w) ms r
          (record { inactive = r.idle.inactive; steady = r.idle.steady }) refl
          (length-modify w.controls j _)
          (get_or-modify_ne w.controls j i _ no_control
            (λ q. false≢true (sym n ∙ (==_iff j i).1 q)))
          refl,
    )
    | inr e ↦ (
      send_serialized_message j m w,
      send-idle j m t₁ t₂ t₃ t₄ w w (flush-idle t₁ w r.idle.inactive) r.idle.inactive r.idle.steady
          e,
      elsewhere i longest w₀ w (send_serialized_message j m w) ms r
          (record { inactive = r.idle.inactive; steady = r.idle.steady }) refl refl refl
          (sent_on-append i w.events (zmq_sent j m ∷ []) ∙ rw (n, append-nil (sent i w))),
    )
  ]

  if-Relayed :
      (f : Bool) (ms : List Message) (v w : World W)
      → Relayed i longest w₀ ms v
      → Relayed i longest w₀ ms w
      → Relayed i longest w₀ ms (if f then v else w)
  if-Relayed true ms v w r s = r
  if-Relayed false ms v w r s = s

  published-Relayed :
      (j : ℕ) (m : Message) (ms : List Message) (w : World W)
      → Relayed i longest w₀ ms w
      → Relayed i longest w₀ ms (publish_received_message_after_fault j m w)
  unfolding publish_received_message_after_fault
  published-Relayed j m ms w r =
      if-Relayed w.fault.publish_callback ms _ w
        (elsewhere i longest w₀ w _ ms r
          (record { inactive = r.idle.inactive; steady = r.idle.steady }) refl refl refl
          (sent_on-append i w.events (published j m ∷ []) ∙ append-nil (sent i w)))
        r

  pub call-Relayed :
      (c : Call) (ms : List Message) (w : World W)
      → All (λ (m : Message). m.data_len ≤ longest) (sends_on i (c ∷ []))
      → Relayed i longest w₀ ms w
      → (v : World W) × (run_call c w ≡ some v) × Relayed i longest w₀ (ms ++ sends_on i (c ∷ [])) v
  unfolding run_call
  call-Relayed (receives j m t₁ t₂) ms w h r = (
    publish_received_message_after_fault j m w,
    receive-idle j m t₁ t₂ w w (flush-idle t₁ w r.idle.inactive) r.idle.inactive r.idle.steady,
    rw (append-nil ms) (published-Relayed j m ms w r),
  )
  call-Relayed (sends j m t₁ t₂ t₃ t₄) ms w h r = elim (Bool-cases (j == i)) [
    | inl e ↦
        let same = (==_iff j i).0 e in
        let short : m.data_len ≤ longest =
          (subst
            (λ (b : Bool). All (λ (x : Message). x.data_len ≤ longest) (if b then m ∷ [] else [])) e
            h).0 in
        rw e (
          enqueue_send_message j m w,
          send-queued j m t₁ t₂ t₃ t₄ w r.idle (rw (r.topics, same) limited),
          subst (λ k. Relayed i longest w₀ (ms ++ m ∷ []) (enqueue_send_message k m w)) (sym same)
              (queued-Relayed i longest w₀ small tracked m ms w short r),
        )
    | inr n ↦ rw (n, append-nil ms) (other-Relayed j m t₁ t₂ t₃ t₄ ms w n r)
  ]
