-- ===== src/Threads/Overtake.antt =====
-- The write of a send callback overtakes nothing.
use swarm_ros_bridge.Common.{
  ℕ, ◌+◌, true, false, List, [], ◌≡◌, ◌≢◌, refl, sym, ap, subst, ◌∙◌, arith, get_or,
  get_or-replicate, length,
}
use swarm_ros_bridge.Double.{Double}
use swarm_ros_bridge.Topic.{Message}
use swarm_ros_bridge.World.{World, is_limited}
use swarm_ros_bridge.Fault.{is_node_fault_active_locked}
use swarm_ros_bridge.Replay.{begin_recovery, end_recovery, take_buffers}
use swarm_ros_bridge.Threads.Plan.{Release, perform, perform-setup, plan}
use swarm_ros_bridge.Threads.Plan.Sends.{sends_of, sends_of-plan}
use swarm_ros_bridge.Threads.{
  Tid, sender, receiver, worker, monitor, first, second, After, in_call, in_round, Pc, idle, looks,
  swaps, replays, locks, writes, System, update, resume, recovers, passed, hold, hand_over,
}
use swarm_ros_bridge.Threads.Step.{
  Step, ticks, starts, is_given, takes_off, wakes, sees_end, sees_no_end, swaps_out, releases,
  finishes, holds, passes, hands_over, is_called, Reach, here, next, IsQuiet,
}
use swarm_ros_bridge.Threads.Exclusive.{
  OnIdle, Exclusive, Reach-Exclusive, recovers-resume, recovers-passed, hand_over-fault,
}
use swarm_ros_bridge.Threads.Order.{
  View, Late, IsClear, move-IsClear, end-IsClear, swap-IsClear, release-IsClear, finish-IsClear,
  hold-IsClear, tick-IsClear, Late-empty,
}
use swarm_ros_bridge.Threads.Seen.{
  seen, Clear, no_end-Late, passed-Late, hold-held, Step-free, start-Clear, Clear-fault,
}

called-ne-worker : (i : ℕ) (t : Tid) → is_called t ≡ true → t ≢ worker i
called-ne-worker i t k same = cc

worker-ne-sender : (j k : ℕ) → worker j ≢ sender k
worker-ne-sender j k e = cc

module _ {W : Type 0} ⦃d : Double W⦄ (i : ℕ) where
  -- The thread before a step is at `p`: not the worker, and the callback only with its pc there.
  not_worker :
      (s : System W) (t : Tid) (p : Pc W) → Clear i s → s.pc t ≡ p → p ≢ idle → t ≢ worker i
  not_worker s t p c e n same = n (sym e ∙ ap s.pc same ∙ c.no_worker)

  at-Late :
      (s : System W) (t : Tid) (p : Pc W)
      → Clear i s
      → s.pc t ≡ p
      → t ≡ sender i
      → Late (seen i s.world.fault s.clock) p
  at-Late s t p c e same =
      subst (Late (seen i s.world.fault s.clock)) (sym (ap s.pc same) ∙ e) c.late

  -- The thread goes on, outside any recovery, to a place other than a write.
  go_on-Clear :
      (s : System W) (t : Tid) (p : Pc W)
      → Exclusive s
      → Clear i s
      → recovers p ≡ false
      → t ≢ worker i
      → (t ≡ sender i → Late (seen i s.world.fault s.clock) p)
      → ((m : Message) → p ≢ writes m)
      → IsClear i (seen i s.world.fault s.clock) (update s.pc t p)
  go_on-Clear s t p x c o n l w =
      move-IsClear t x c p o (λ e. absurd (n e)) l (λ m e. absurd (w m e))

  resume-no_write : (a : After) (m : Message) → resume {W = W} a ≢ writes m
  resume-no_write (in_call g n) m e = cc
  resume-no_write in_round m e = cc

  hold-seen :
      (t : Tid) (m : Message) (w : World W) (now : ℕ)
      → seen i (hold t m w).fault now
        ≡ record (seen i w.fault now) { held = get_or (hold t m w).fault.send_buffers i [] }
  unfolding hold
  hold-seen (sender j) m w now = refl
  hold-seen (receiver j) m w now = refl
  hold-seen (worker j) m w now = refl
  hold-seen monitor m w now = refl

  active_locked-active :
      (now : ℕ) (w : World W)
      → is_node_fault_active_locked now w.fault ≡ true
      → w.fault.active ≡ true
  unfolding is_node_fault_active_locked
  active_locked-active now w h = ground arith

  Step-Clear :
      {s u : System W}
      → Step OnIdle s u
      → Exclusive s
      → is_limited s.world i ≡ false
      → Clear i s
      → Clear i u
  unfolding begin_recovery end_recovery take_buffers
  Step-Clear {s} (ticks n) x free c = tick-IsClear (s.clock + n) (omega arith) c
  Step-Clear {s} (starts duration q) x free c = start-Clear i s.clock duration s.world s.pc q x c
  Step-Clear {s} (is_given t m k e) x free c =
      go_on-Clear s t (looks (in_call first m)) x c refl (called-ne-worker i t k) (λ f. tt)
        (λ n f. cc)
  Step-Clear {s} (takes_off j m b b' q l e r) x free c =
      go_on-Clear s (worker j) (looks (in_call second m)) x c refl (λ same. cc)
        (λ same. absurd (worker-ne-sender j i same)) (λ n f. cc)
  Step-Clear {s} (wakes e r) x free c =
      go_on-Clear s monitor (looks in_round) x c refl (λ e. cc) (λ e. tt) (λ m e. cc)
  Step-Clear {s} (sees_end t a e h) x free c = end-IsClear t x c a e (ground arith)
  Step-Clear {s} (sees_no_end t a e h) x free c =
      go_on-Clear s t (resume a) x c (recovers-resume W a) (not_worker s t (looks a) c e (λ f. cc))
        (λ same.
          no_end-Late i a s.world.fault s.clock s.world refl h (at-Late s t (looks a) c e same))
        (resume-no_write a)
  Step-Clear {s} (swaps_out t a e) x free c =
      subst
        (λ (held : List Message).
          IsClear {W = W} i (record (seen i s.world.fault s.clock) { held = held })
            (update s.pc t (replays a (plan s.world))))
        (sym (get_or-replicate (length s.world.send_topics) i []))
        (swap-IsClear t x c a (plan s.world) e (sends_of-plan i s.world))
  Step-Clear {s} (releases t a r rs e) x free c =
      Clear-fault i (perform r s.world).fault s.world.fault s.clock _ (perform-setup r s.world).1
        (release-IsClear t x c a r rs e)
  Step-Clear {s} (finishes t a e) x free c = finish-IsClear t x c a e
  Step-Clear {s} (holds t g m e r h) x free c =
      subst (λ (v : View). IsClear i v (update s.pc t idle)) (sym (hold-seen t m s.world s.clock))
        (hold-IsClear t x c (get_or (hold t m s.world).fault.send_buffers i [])
          (hold-held i t m s.world (not_worker s t (locks g m) c e (λ f. cc)))
          (active_locked-active s.clock s.world h) r)
  Step-Clear {s} (passes t g m e r h) x free c =
      move-IsClear t x c (passed t g m s.world) (recovers-passed t g m s.world)
        (λ same. absurd (not_worker s t (locks g m) c e (λ f. cc) same))
        (λ same.
          subst (λ (u : Tid). Late (seen i s.world.fault s.clock) (passed u g m s.world)) (sym same)
            (passed-Late i g m s.clock s.world free r h c.settled
              (at-Late s t (locks g m) c e same)))
        (λ n f. r)
  Step-Clear {s} (hands_over t m e) x free c =
      Clear-fault i (hand_over t m s.world).fault s.world.fault s.clock _
        (hand_over-fault t m s.world)
        (go_on-Clear s t idle x c refl (not_worker s t (writes m) c e (λ f. cc)) (λ f. tt)
          (λ n f. cc))

  quiet-Clear : (s : System W) → IsQuiet s → get_or s.world.fault.send_buffers i [] ≡ [] → Clear i s
  quiet-Clear s q e = record {
    no_worker = q.idle_all (worker i);
    settled = λ a r. e;
    swapped = λ t a rs f. e;
    late = Late-empty _ _ e;
    pending = λ m t a rs f g. ground (arith, q.idle_all t);
  }

  Reach-Clear :
      {s₀ s : System W}
      → IsQuiet s₀
      → get_or s₀.world.fault.send_buffers i [] ≡ []
      → is_limited s₀.world i ≡ false
      → Reach OnIdle s₀ s
      → Clear i s × (is_limited s.world i ≡ false)
  Reach-Clear q e free here = (quiet-Clear _ q e, free)
  Reach-Clear q e free (next r st) =
      let (c, still) = Reach-Clear q e free r in
      (Step-Clear st (Reach-Exclusive q r) still c, Step-free i st ∙ still)

  -- The messages of the topic that a thread still has to release.
  abbrev pub left_of : Pc W → List Message
  left_of idle = []
  left_of (looks a) = []
  left_of (swaps a) = []
  left_of (replays a rs) = sends_of i rs
  left_of (locks g m) = []
  left_of (writes m) = []

  left_of-none :
      (p : Pc W)
      → ((a : After) (rs : List (Release W)) → p ≡ replays a rs → sends_of i rs ≡ [])
      → left_of p ≡ []
  left_of-none idle h = refl
  left_of-none (looks a) h = refl
  left_of-none (swaps a) h = refl
  left_of-none (replays a rs) h = h a rs refl
  left_of-none (locks g m) h = refl
  left_of-none (writes m) h = refl

  -- After quiet with an empty fault buffer, and any steps with faults started on an idle node: when
  -- the callback of a send topic with no bitrate limit is about to write its message, the topic's
  -- fault buffer is empty, and no thread has a message of the topic left to release.
  pub write-overtakes_none :
      (s₀ s : System W) (m : Message)
      → IsQuiet s₀
      → get_or s₀.world.fault.send_buffers i [] ≡ []
      → is_limited s₀.world i ≡ false
      → Reach OnIdle s₀ s
      → s.pc (sender i) ≡ writes m
      → (get_or s.world.fault.send_buffers i [] ≡ []) × ((t : Tid) → left_of (s.pc t) ≡ [])
  write-overtakes_none s₀ s m q e free r f =
      let c = (Reach-Clear q e free r).0 in
      let held : get_or s.world.fault.send_buffers i [] ≡ [] =
        subst (Late (seen i s.world.fault s.clock)) f c.late in
      (held, λ t. left_of-none (s.pc t) (λ a rs g. c.pending m t a rs f g))
