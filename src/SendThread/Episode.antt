-- ===== src/SendThread/Episode.antt =====
-- A fault episode, seen from a topic with a `max_bitrate`: its replay goes through the bounded queue.
use mathlib.Core.List.{Sublist}
use mathlib.Core.List.Sublist
use swarm_ros_bridge.Common.{
  ℕ, ◌+◌, ◌≤◌, ◌<◌, true, some, List, [], ◌++◌, append-nil, length, length-append, get_or, ◌≡◌,
  refl, sym, ap, ◌∙◌, subst, arith,
}
use swarm_ros_bridge.Double.{Double}
use swarm_ros_bridge.Topic.{Message, FaultPolicy, drop}
use swarm_ros_bridge.World.{
  sent_on, World, SendControl, size_range, control, no_control, is_limited, send_policy,
}
use swarm_ros_bridge.SendQueue.{max_queue_messages}
use swarm_ros_bridge.SendQueue.Bounds.{total, total-append, IsCounted}
use swarm_ros_bridge.Fault.Policy.{retained}
use swarm_ros_bridge.Fault.{start_node_fault}
use swarm_ros_bridge.Replay.{
  begin_recovery, end_recovery, flush_fault_buffers, flush_expired_fault_if_needed,
}
use swarm_ros_bridge.Replay.Log.{sent}
use swarm_ros_bridge.Dispatch.Recovery.{IsReady, Started, start_node_fault-Started, flush-expired}
use swarm_ros_bridge.SendThread.{Bucket}
use swarm_ros_bridge.SendThread.Loop.{Turn, given, run_turns}
use swarm_ros_bridge.SendThread.Relay.Queued.{most, room, elsewhere-Lined}
use swarm_ros_bridge.SendThread.InOrder.{AllShort, AllShort-left}
use swarm_ros_bridge.SendThread.Merged.{
  Merged, neither, length-Merged, total-Merged, length-retained, total-retained, AllShort-Merged,
  AllShort-retained,
}
use swarm_ros_bridge.SendThread.InWindow.{AllWithin, InWindow, run_turns-InWindow}
use swarm_ros_bridge.SendThread.Replayed.{Waiting, flush_fault_buffers-Waiting}

module _ {W : Type 0} ⦃d : Double W⦄ where
  -- A limited topic, whose queue is counted and no larger than a push leaves it.
  pub record IsQueued (i longest : ℕ) (w : World W) : Type 0 where
    pub limited : is_limited w i ≡ true
    pub tracked : i < length w.controls
    pub counted : IsCounted (control w i)
    pub within : total (control w i).queue ≤ most w i longest
    pub small : most w i longest + longest < size_range

  recovery-Waiting :
      (i longest : ℕ) (w : World W) (ms : List Message) (v : World W)
      → IsQueued i longest w
      → AllShort longest (get_or v.fault.send_buffers i [])
      → Waiting i longest w ms v
      → Waiting i longest w
          (ms ++ get_or v.fault.send_buffers i [])
          (end_recovery (flush_fault_buffers (begin_recovery v)))
  unfolding end_recovery begin_recovery
  recovery-Waiting i longest w ms v q h r =
      elsewhere-Lined i longest w _ _ _ []
        (flush_fault_buffers-Waiting i longest w q.small q.tracked q.limited ms (begin_recovery v) h
          (elsewhere-Lined i longest w v (begin_recovery v) ms [] r refl refl refl refl))
        refl refl refl refl

  opened-InWindow :
      (now i : ℕ) (duration : W) (w w' : World W)
      → Started now duration w w'
      → IsCounted (control w i)
      → InWindow i w w' [] w'
  opened-InWindow now i duration w w' s counted = record {
    taken = [];
    seen = λ _. [];
    heard = λ _. [];
    merged = neither;
    held = s.empty;
    was = ap (λ (cs : List SendControl). (get_or cs i no_control).queue) (sym s.controls);
    long = ap length s.controls;
    counted =
        subst (λ (cs : List SendControl). IsCounted (get_or cs i no_control)) (sym s.controls)
          counted;
  }

  -- What the window leaves, before the recovery.
  window-Waiting :
      (now i longest : ℕ) (duration : W) (w w' v : World W) (ms : List Message)
      → Started now duration w w'
      → IsQueued i longest w
      → (r : InWindow i w w' ms v) → Waiting i longest w (control v i).queue v
  window-Waiting now i longest duration w w' v ms s q r = record {
    topics = r.held.send_topics ∙ s.topics;
    controls = r.long;
    counted = r.counted;
    within = omega (arith, ap total r.was, total-append r.taken (control v i).queue, q.within);
    sent_all = ap (sent_on i) (r.held.events ∙ s.events) ∙ sym (append-nil _);
    line = record { in_order = Sublist.refl _; whole = λ _ _. refl };
  }

  -- How the queue of a topic comes out of an episode that ends in `u`: `taken` was taken off what it
  -- held at first, and `rest` was left; the policy has seen `taken` and `ms`, merged into `seen`.
  pub record Requeued (i : ℕ) (w : World W) (ms : List Message) (u : World W) : Type 0 where
    pub taken : List Message
    pub rest : List Message
    pub seen : List Message
    pub was : (control w i).queue ≡ taken ++ rest
    pub merged : Merged ms taken seen
    pub in_order : Sublist (control u i).queue (rest ++ retained (send_policy w.fault i) seen)
    pub whole :
        length ((control w i).queue ++ ms) ≤ max_queue_messages
        → total ((control w i).queue ++ ms) ≤ room w i
        → (control u i).queue ≡ rest ++ retained (send_policy w.fault i) seen
    pub counted : IsCounted (control u i)
    pub unsent : sent i u ≡ sent i w

  waited-Requeued :
      (i longest : ℕ) (w v u : World W) (taken rest seen ms : List Message)
      → (control w i).queue ≡ taken ++ rest
      → Merged ms taken seen
      → Waiting i longest w (rest ++ retained (send_policy w.fault i) seen) u
      → Requeued i w ms u
  waited-Requeued i longest w v u taken rest seen ms was merged r =
      let p = send_policy w.fault i in
      record {
        taken = taken;
        rest = rest;
        seen = seen;
        was = was;
        merged = merged;
        in_order = r.line.in_order;
        whole = λ few fits.
            r.line.whole
              (omega (
                arith,
                few,
                ap length was,
                length-append (control w i).queue ms,
                length-append taken rest,
                length-append rest (retained p seen),
                length-retained p seen,
                length-Merged ms taken seen merged,
              ))
              (omega (
                arith,
                fits,
                ap total was,
                total-append (control w i).queue ms,
                total-append taken rest,
                total-append rest (retained p seen),
                total-retained p seen,
                total-Merged ms taken seen merged,
              ));
        counted = r.counted;
        unsent = r.sent_all ∙ append-nil (sent i w);
      }

  -- The fault starts, the turns return, and the recovery leaves this in the queue.
  episode-Requeued :
      (now later : ℕ) (duration : W) (w : World W) (ts : List Turn) (b : Bucket W) (i longest : ℕ)
      → IsReady w duration
      → AllWithin (now + d.to_nanos duration) ts
      → now + d.to_nanos duration ≤ later
      → i < length w.fault.send_buffers
      → IsQueued i longest w
      → AllShort longest (control w i).queue
      → AllShort longest (given i ts)
      → (b' : Bucket W) × (v : World W) × (run_turns i ts b (start_node_fault now duration w)
          ≡ some (b', v))
        × Requeued i w (given i ts) (flush_expired_fault_if_needed later v)
  episode-Requeued now later duration w ts b i longest ready h k n q short₁ short₂ =
      let s = start_node_fault-Started now duration w ready in
      let w' = start_node_fault now duration w in
      let (b', v, ran, r) =
        run_turns-InWindow i w w' q.tracked (omega (arith, q.within, q.small)) s.open_window ts b []
          w' (subst (λ (t : ℕ). AllWithin t ts) (sym s.until) h)
          (opened-InWindow now i duration w w' s q.counted) in
      let held : get_or v.fault.send_buffers i [] ≡ retained (send_policy w.fault i) (r.seen i) =
        r.held.held_sends i (rw s.send_count n)
        ∙ ap (λ (ps : List FaultPolicy). retained (get_or ps i drop) (r.seen i)) s.send_policies in
      let short : AllShort longest (get_or v.fault.send_buffers i []) =
        subst (AllShort longest) (sym held) (
          AllShort-retained longest (send_policy w.fault i) (r.seen i) (
            AllShort-Merged longest (given i ts) r.taken (r.seen i) r.merged short₂ (
              AllShort-left longest r.taken (control v i).queue
                (subst (AllShort longest) r.was short₁)))) in
      let after =
        recovery-Waiting i longest w (control v i).queue v q short
          (window-Waiting now i longest duration w w' v (given i ts) s q r) in
      let until : v.fault.until ≡ now + d.to_nanos duration = r.held.until ∙ s.until in
      (
        b',
        v,
        ran,
        rw (flush-expired later v (r.held.active ∙ s.open_window.active) (rw until k)) (
            waited-Requeued i longest w v _ r.taken (control v i).queue (r.seen i) (given i ts)
              r.was r.merged
              (subst
                (λ l.
                  Waiting i longest w ((control v i).queue ++ l)
                    (end_recovery (flush_fault_buffers (begin_recovery v))))
                held after)),
      )

  -- A fault starts on a control that is ready. Any calls made in its window, with wake-ups of the
  -- thread of a limited topic among them, return; no other bitrate thread takes a step. The thread
  -- takes a first part off what the queue of the topic held, which goes to the topic's policy as
  -- the messages that come do. After the recovery at a look at the clock that is not before the
  -- window's end, the queue holds, in order and each at most once, a part of the rest that it held
  -- and, behind that, of what the policy retains of the messages taken and those that came, merged
  -- with each kept in its order; it is counted, at most 30 messages long, and nothing has been
  -- written to the topic's socket. The topic has a fault buffer, its queue is counted at first and
  -- within its limit for the longest message, and the sizes are below 2^64.
  pub fault_episode-queue :
      (now later : ℕ) (duration : W) (w : World W) (ts : List Turn) (b : Bucket W) (i longest : ℕ)
      → IsReady w duration
      → AllWithin (now + d.to_nanos duration) ts
      → now + d.to_nanos duration ≤ later
      → i < length w.fault.send_buffers
      → IsQueued i longest w
      → AllShort longest (control w i).queue
      → AllShort longest (given i ts)
      → (b' : Bucket W) × (v : World W) × (taken rest seen : List Message) × (run_turns i ts b
            (start_node_fault now duration w)
          ≡ some (b', v))
        × ((control w i).queue ≡ taken ++ rest)
        × Merged (given i ts) taken seen
        × Sublist
            (control (flush_expired_fault_if_needed later v) i).queue
            (rest ++ retained (send_policy w.fault i) seen)
        × IsCounted (control (flush_expired_fault_if_needed later v) i)
        × (sent i (flush_expired_fault_if_needed later v) ≡ sent i w)
  fault_episode-queue now later duration w ts b i longest ready h k n q s₁ s₂ =
      let (b', v, ran, r) =
        episode-Requeued now later duration w ts b i longest ready h k n q s₁ s₂ in
      (b', v, r.taken, r.rest, r.seen, ran, r.was, r.merged, r.in_order, r.counted, r.unsent)

  -- In such an episode nothing that is left in the queue and nothing that the policy retains is
  -- lost, and all of it stands in the queue in order, if what the queue held and what came are
  -- together at most 30 messages, and their bytes are within the topic's limit.
  pub fault_episode-queue_whole :
      (now later : ℕ) (duration : W) (w : World W) (ts : List Turn) (b : Bucket W) (i longest : ℕ)
      → IsReady w duration
      → AllWithin (now + d.to_nanos duration) ts
      → now + d.to_nanos duration ≤ later
      → i < length w.fault.send_buffers
      → IsQueued i longest w
      → AllShort longest (control w i).queue
      → AllShort longest (given i ts)
      → length ((control w i).queue ++ given i ts) ≤ max_queue_messages
      → total ((control w i).queue ++ given i ts) ≤ room w i
      → (b' : Bucket W) × (v : World W) × (taken rest seen : List Message) × (run_turns i ts b
            (start_node_fault now duration w)
          ≡ some (b', v))
        × ((control w i).queue ≡ taken ++ rest)
        × Merged (given i ts) taken seen
        × ((control (flush_expired_fault_if_needed later v) i).queue
            ≡ rest ++ retained (send_policy w.fault i) seen)
  fault_episode-queue_whole now later duration w ts b i longest ready h k n q s₁ s₂ few fits =
      let (b', v, ran, r) =
        episode-Requeued now later duration w ts b i longest ready h k n q s₁ s₂ in
      (b', v, r.taken, r.rest, r.seen, ran, r.was, r.merged, r.whole few fits)
