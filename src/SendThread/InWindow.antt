-- ===== src/SendThread/InWindow.antt =====
-- A limited topic in a fault window: calls, and wake-ups of its thread, which hands what it takes off
-- the queue to the fault policy.
use swarm_ros_bridge.Common.{
  ℕ, ◌<◌, some, List, [], ◌∷◌, ◌++◌, append-nil, append_assoc, length, length-modify, get_or,
  get_or-modify_self, modify, ◌≡◌, refl, sym, ap, ◌∙◌, subst, arith, ==_iff, if◌then◌else◌, Bool,
}
use swarm_ros_bridge.Double.{Double}
use swarm_ros_bridge.Topic.{Message}
use swarm_ros_bridge.World.{World, SendControl, control, no_control, send_topic, size_range}
use swarm_ros_bridge.SendQueue.Bounds.{total, total-append, IsCounted}
use swarm_ros_bridge.Dispatch.{
  Call, sends, receives, hold_sent, hold_received, consume_send_message_if_fault_active,
}
use swarm_ros_bridge.Dispatch.Calls.{Before, sends_on, add_send, add_recv}
use swarm_ros_bridge.Dispatch.Window.{
  IsOpen, Held, hold, hold-Held, Held-IsOpen, run_call-open, flush-open, admit-open,
}
use swarm_ros_bridge.SendThread.{
  Bucket, Round, exits, waits, retries, takes, bytes_per_second, send_round, after_round,
}
use swarm_ros_bridge.SendThread.Loop.{
  Turn, calls, wakes, given, finish_round, wake, run_turn, run_turns,
}
use swarm_ros_bridge.SendThread.Merged.{Merged, from_first, from_second}
use swarm_ros_bridge.SendThread.Relay.Popped.{Popped, round-Popped}

-- Every reading of the clock is before `end`.
abbrev pub AllWithin : ℕ → List Turn → Type 0
AllWithin end [] = Unit
AllWithin end (calls c ∷ ts) = Before end c × AllWithin end ts
AllWithin end (wakes now t₁ t₂ ∷ ts) = ((t₁ < end) × (t₂ < end)) × AllWithin end ts

module _ {W : Type 0} ⦃d : Double W⦄ where
  abbrev with_controls : World W → List SendControl → World W
  with_controls w cs = record w { controls = cs }

  recontrol :
      (w v : World W) (cs bs : List SendControl) (ss rs : ℕ → List Message)
      → Held (with_controls w cs) ss rs v
      → Held (with_controls w bs) ss rs (with_controls v bs)
  recontrol w v cs bs ss rs h = record {
    send_topics = h.send_topics;
    recv_topics = h.recv_topics;
    controls = refl;
    events = h.events;
    running = h.running;
    active = h.active;
    recovering = h.recovering;
    until = h.until;
    duration_sec = h.duration_sec;
    publish_callback = h.publish_callback;
    send_policies = h.send_policies;
    recv_policies = h.recv_policies;
    send_count = h.send_count;
    recv_count = h.recv_count;
    held_sends = h.held_sends;
    held_recvs = h.held_recvs;
  }

  -- The state in a window that `w'` opens, when `ms` have come for topic `i`: `seen` is what its
  -- policy has seen, of `ms` and of what its thread has taken off the queue it had in `w`.
  pub record InWindow (i : ℕ) (w w' : World W) (ms : List Message) (v : World W) : Type 0 where
    pub taken : List Message
    pub seen : ℕ → List Message
    pub heard : ℕ → List Message
    pub merged : Merged ms taken (seen i)
    pub held : Held (with_controls w' v.controls) seen heard v
    pub was : (control w i).queue ≡ taken ++ (control v i).queue
    pub long : length v.controls ≡ length w.controls
    pub counted : IsCounted (control v i)

  module _ (i : ℕ) (w w' : World W) (tracked : i < length w.controls)
      (small : total (control w i).queue < size_range) (o : IsOpen w'.fault) where
    call-InWindow :
        (c : Call) (ms : List Message) (v : World W)
        → InWindow i w w' ms v
        → InWindow i w w' (ms ++ sends_on i (c ∷ [])) (hold c v)
    unfolding hold_sent hold_received
    call-InWindow (sends j m t₁ t₂ t₃ t₄) ms v r = record {
      taken = r.taken;
      seen = add_send (sends j m t₁ t₂ t₃ t₄) r.seen;
      heard = r.heard;
      merged = from_first ms r.taken (r.seen i) _ r.merged;
      held =
          hold-Held (with_controls w' v.controls) v r.seen r.heard (sends j m t₁ t₂ t₃ t₄) r.held;
      was = r.was;
      long = r.long;
      counted = r.counted;
    }
    call-InWindow (receives j m t₁ t₂) ms v r = record {
      taken = r.taken;
      seen = r.seen;
      heard = add_recv (receives j m t₁ t₂) r.heard;
      merged = rw (append-nil ms) r.merged;
      held = hold-Held (with_controls w' v.controls) v r.seen r.heard (receives j m t₁ t₂) r.held;
      was = r.was;
      long = r.long;
      counted = r.counted;
    }

    -- The thread takes a message, and hands it to the policy.
    took-InWindow :
        (m : Message) (c : SendControl) (ms : List Message) (v : World W)
        → InWindow i w w' ms v
        → Popped (control v i) c m
        → InWindow i w w' ms (hold_sent i m (with_controls v (modify v.controls i (λ _. c))))
    unfolding hold_sent
    took-InWindow m c ms v r p = record {
      taken = r.taken ++ m ∷ [];
      seen = add_send (sends i m 0 0 0 0) r.seen;
      heard = r.heard;
      merged =
          subst (Merged ms (r.taken ++ m ∷ []))
            (ap (λ (b : Bool). r.seen i ++ (if b then m ∷ [] else [])) (sym ((==_iff i i).1 refl)))
            (from_second ms r.taken (r.seen i) (m ∷ []) r.merged);
      held =
          hold-Held (with_controls w' after) (with_controls v after) r.seen r.heard
            (sends i m 0 0 0 0) (recontrol w' v v.controls after r.seen r.heard r.held);
      was =
          r.was
          ∙ ap (◌++◌ r.taken) p.was
          ∙ sym (append_assoc r.taken (m ∷ []) c.queue)
          ∙ ap (λ (k : SendControl). (r.taken ++ m ∷ []) ++ k.queue) (sym own);
      long = length-modify v.controls i _ ∙ r.long;
      counted = subst IsCounted (sym own) p.counted;
    }
      where
        after : List SendControl
        after = modify v.controls i (λ _. c)

        own : get_or after i no_control ≡ c
        own = get_or-modify_self v.controls i (λ _. c) no_control (rw r.long tracked)

    after_round-open :
        (t₁ t₂ : ℕ) (b' : Bucket W) (m : Message) (c : SendControl) (v : World W)
        → IsOpen v.fault
        → t₁ < v.fault.until
        → t₂ < v.fault.until
        → after_round i t₁ t₂ v (takes m b' c)
          ≡ some (hold_sent i m (with_controls v (modify v.controls i (λ _. c))))
    unfolding after_round consume_send_message_if_fault_active
    after_round-open t₁ t₂ b' m c v p h k =
        let u = with_controls v (modify v.controls i (λ _. c)) in
        rw (flush-open t₁ u h, admit-open (hold_sent i m) t₂ u p k)

    finish-InWindow :
        (now t₁ t₂ : ℕ) (b : Bucket W) (ms : List Message) (v : World W) (x : Round W)
        → (t₁ < w'.fault.until) × (t₂ < w'.fault.until)
        → InWindow i w w' ms v
        → send_round (bytes_per_second (send_topic v i).max_bitrate) now b (control v i) ≡ x
        → (b' : Bucket W) × (u : World W) × (finish_round i t₁ t₂ b v x ≡ some (b', u))
          × InWindow i w w' ms u
    unfolding finish_round
    finish-InWindow now t₁ t₂ b ms v exits h r e = (b, v, refl, r)
    finish-InWindow now t₁ t₂ b ms v waits h r e = (b, v, refl, r)
    finish-InWindow now t₁ t₂ b ms v (retries t b') h r e = (b', v, refl, r)
    finish-InWindow now t₁ t₂ b ms v (takes m b' c) h r e =
        let all = ap total r.was in
        (
          b',
          _,
          rw
              (after_round-open t₁ t₂ b' m c v
                (Held-IsOpen (with_controls w' v.controls) v r.seen r.heard r.held o)
                (rw r.held.until h.0) (rw r.held.until h.1))
              refl,
          took-InWindow m c ms v r (
              round-Popped _ now b b' (control v i) c m r.counted
                (omega (arith, all, total-append r.taken (control v i).queue, small)) e),
        )

    pub run_turns-InWindow :
        (ts : List Turn) (b : Bucket W) (ms : List Message) (v : World W)
        → AllWithin w'.fault.until ts
        → InWindow i w w' ms v
        → (b' : Bucket W) × (u : World W) × (run_turns i ts b v ≡ some (b', u))
          × InWindow i w w' (ms ++ given i ts) u
    unfolding run_turns run_turn wake
    run_turns-InWindow [] b ms v h r = (b, v, refl, rw (append-nil ms) r)
    run_turns-InWindow (calls c ∷ ts) b ms v h r =
        let p = Held-IsOpen (with_controls w' v.controls) v r.seen r.heard r.held o in
        let ran = run_call-open c v p (subst (λ (t : ℕ). Before t c) (sym r.held.until) h.0) in
        let (b', u, rest, q) =
          run_turns-InWindow ts b (ms ++ sends_on i (c ∷ [])) (hold c v) h.1
            (call-InWindow c ms v r) in
        (
          b',
          u,
          rw ran rest,
          subst (λ (l : List Message). InWindow i w w' l u)
              (append_assoc ms (sends_on i (c ∷ [])) (given i ts)) q,
        )
    run_turns-InWindow (wakes now t₁ t₂ ∷ ts) b ms v h r =
        let (b₁, v₁, woke, r₁) = finish-InWindow now t₁ t₂ b ms v _ h.0 r refl in
        let (b', u, rest, q) = run_turns-InWindow ts b₁ ms v₁ h.1 r₁ in (b', u, rw woke rest, q)
