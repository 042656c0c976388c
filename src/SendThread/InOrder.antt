-- ===== src/SendThread/InOrder.antt =====
-- A limited topic from the entry point to its socket, over any run with no fault: calls of any topics
-- and wake-ups of the topic's thread, in any order.
use mathlib.Core.List.{Sublist}
use mathlib.Core.List.Sublist
use swarm_ros_bridge.Common.{
  ℕ, ◌+◌, ◌≤◌, ◌<◌, true, some, List, [], ◌∷◌, ◌++◌, append-nil, append_assoc, length, ◌≡◌, refl,
  sym, subst, All,
}
use swarm_ros_bridge.Double.{Double}
use swarm_ros_bridge.Topic.{Message}
use swarm_ros_bridge.World.{World, size_range, control, is_limited}
use swarm_ros_bridge.SendQueue.{max_queue_messages}
use swarm_ros_bridge.SendQueue.Bounds.{total, IsCounted}
use swarm_ros_bridge.Replay.Log.{sent}
use swarm_ros_bridge.Dispatch.Calls.{sends_on}
use swarm_ros_bridge.SendThread.{Bucket}
use swarm_ros_bridge.SendThread.Loop.{Turn, calls, wakes, given, run_turns}
use swarm_ros_bridge.SendThread.Relay.Queued.{IsIdle, room, most, Relayed}
use swarm_ros_bridge.SendThread.Relay.Steps.{call-Relayed, wake-Relayed}

-- No message is longer than this.
abbrev pub AllShort : ℕ → List Message → Type 0
AllShort longest = All (λ (m : Message). m.data_len ≤ longest)

module _ (longest : ℕ) where
  pub AllShort-left : (xs ys : List Message) → AllShort longest (xs ++ ys) → AllShort longest xs
  AllShort-left [] ys h = tt
  AllShort-left (x ∷ xs) ys h = (h.0, AllShort-left xs ys h.1)

  pub AllShort-right : (xs ys : List Message) → AllShort longest (xs ++ ys) → AllShort longest ys
  AllShort-right [] ys h = h
  AllShort-right (x ∷ xs) ys h = AllShort-right xs ys h.1

module _ {W : Type 0} ⦃d : Double W⦄ where
  -- A state with no fault, whose queue for topic `i` is counted and no larger than a push leaves it.
  pub record IsSteady (i longest : ℕ) (w : World W) : Type 0 where
    pub idle : IsIdle w
    pub limited : is_limited w i ≡ true
    pub tracked : i < length w.controls
    pub counted : IsCounted (control w i)
    pub within : total (control w i).queue ≤ most w i longest
    pub small : most w i longest + longest < size_range

  start-Relayed :
      (i longest : ℕ) (w : World W)
      → IsSteady i longest w
      → Relayed i longest w (control w i).queue w
  start-Relayed i longest w s = record {
    idle = s.idle;
    written = [];
    lined = record {
      topics = refl;
      controls = refl;
      counted = s.counted;
      within = s.within;
      sent_all = sym (append-nil _);
      line = record { in_order = Sublist.refl _; whole = λ _ _. refl };
    };
  }

  run_turns-Relayed :
      (i longest : ℕ) (w₀ : World W) (ts : List Turn) (b : Bucket W) (ms : List Message)
      (w : World W)
      → IsSteady i longest w₀
      → AllShort longest (given i ts)
      → Relayed i longest w₀ ms w
      → (b' : Bucket W) × (u : World W) × (run_turns i ts b w ≡ some (b', u))
        × Relayed i longest w₀ (ms ++ given i ts) u
  unfolding run_turns
  run_turns-Relayed i longest w₀ [] b ms w s h r = (b, w, refl, rw (append-nil ms) r)
  run_turns-Relayed i longest w₀ (calls c ∷ ts) b ms w s h r =
      let (v, ran, r') =
        call-Relayed i longest w₀ s.small s.tracked s.limited c ms w
          (AllShort-left longest (sends_on i (c ∷ [])) (given i ts) h) r in
      let (b', u, rest, t) =
        run_turns-Relayed i longest w₀ ts b (ms ++ sends_on i (c ∷ [])) v s
          (AllShort-right longest (sends_on i (c ∷ [])) (given i ts) h) r' in
      (
        b',
        u,
        rw ran rest,
        subst (λ (l : List Message). Relayed i longest w₀ l u)
            (append_assoc ms (sends_on i (c ∷ [])) (given i ts)) t,
      )
  run_turns-Relayed i longest w₀ (wakes now t₁ t₂ ∷ ts) b ms w s h r =
      let (b₁, v, woke, r') =
        wake-Relayed i longest w₀ s.small s.tracked s.limited now t₁ t₂ b ms w r in
      let (b', u, rest, t) = run_turns-Relayed i longest w₀ ts b₁ ms v s h r' in
      (b', u, rw woke rest, t)

  -- With no fault, any run of calls and of wake-ups of a limited topic's thread returns. What it
  -- writes to the topic's socket, followed by what its queue still holds, is an ordered part of
  -- what the queue held at first and what the calls gave it, each message at most once; the queue
  -- stays counted, at most 30 messages long. The queue is counted at first and within its limit
  -- for the longest message, and the sizes in play are below 2^64.
  pub run_turns-InOrder :
      (i longest : ℕ) (ts : List Turn) (b : Bucket W) (w : World W)
      → IsSteady i longest w
      → AllShort longest (given i ts)
      → (b' : Bucket W) × (u : World W) × (written : List Message) × (run_turns i ts b w
          ≡ some (b', u))
        × (sent i u ≡ sent i w ++ written)
        × Sublist (written ++ (control u i).queue) ((control w i).queue ++ given i ts)
        × IsCounted (control u i)
  run_turns-InOrder i longest ts b w s h =
      let (b', u, ran, r) =
        run_turns-Relayed i longest w ts b (control w i).queue w s h
          (start-Relayed i longest w s) in
      (b', u, r.written, ran, r.sent_all, r.line.in_order, r.counted)

  -- In such a run no message is lost, if what the queue held at first and what the calls gave it
  -- are at most 30 messages, and their bytes are within the topic's limit.
  pub run_turns-whole :
      (i longest : ℕ) (ts : List Turn) (b : Bucket W) (w : World W)
      → IsSteady i longest w
      → AllShort longest (given i ts)
      → length ((control w i).queue ++ given i ts) ≤ max_queue_messages
      → total ((control w i).queue ++ given i ts) ≤ room w i
      → (b' : Bucket W) × (u : World W) × (written : List Message) × (run_turns i ts b w
          ≡ some (b', u))
        × (sent i u ≡ sent i w ++ written)
        × (written ++ (control u i).queue ≡ (control w i).queue ++ given i ts)
  run_turns-whole i longest ts b w s h few fits =
      let (b', u, ran, r) =
        run_turns-Relayed i longest w ts b (control w i).queue w s h
          (start-Relayed i longest w s) in
      (b', u, r.written, ran, r.sent_all, r.line.whole few fits)
