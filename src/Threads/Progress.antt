-- ===== src/Threads/Progress.antt =====
-- No thread waits for ever on a recovery: the thread in it can always go on to its end.
use swarm_ros_bridge.Common.{
  true, false, List, [], ◌∷◌, ◌≡◌, ◌≢◌, ◌⊎◌, inl, inr, refl, ◌∙◌, arith, Bool-cases,
}
use swarm_ros_bridge.Double.{Double}
use swarm_ros_bridge.Topic.{Message}
use swarm_ros_bridge.World.{World}
use swarm_ros_bridge.Fault.{is_node_fault_active_locked}
use swarm_ros_bridge.Replay.{end_recovery, take_buffers}
use swarm_ros_bridge.Threads.Plan.{Release, perform, plan}
use swarm_ros_bridge.Threads.{
  Tid, Stage, After, Pc, idle, looks, swaps, replays, locks, writes, System, update, resume,
  recovers, passed,
}
use swarm_ros_bridge.Threads.Step.{
  Step, swaps_out, releases, finishes, holds, passes, Reach, here, next, IsQuiet, moves,
}
use swarm_ros_bridge.Threads.Exclusive.{OnIdle, Reach-Exclusive}

module _ {W : Type 0} where
  pub update_self : (pc : Tid → Pc W) (t : Tid) (p : Pc W) → update pc t p t ≡ p
  update_self pc t p = ground arith

  pub update-other : (pc : Tid → Pc W) (t u : Tid) (p : Pc W) → u ≢ t → update pc t p u ≡ pc u
  update-other pc t u p n = ground arith

module _ {W : Type 0} ⦃d : Double W⦄ {Starts : World W → Type 0} where
  pub Reach-append : {s t u : System W} → Reach Starts s t → Reach Starts t u → Reach Starts s u
  Reach-append r here = r
  Reach-append r (next q st) = next (Reach-append r q) st

module _ {W : Type 0} ⦃d : Double W⦄ (Starts : World W → Type 0) where
  -- `t` alone has gone on from `s`, and the recovery is over.
  record Ended (t : Tid) (s : System W) : Type 0 where
    last : System W
    reach : Reach Starts s last
    steady : last.world.fault.recovering ≡ false
    others : (u : Tid) → u ≢ t → last.pc u ≡ s.pc u

  replay-Ended :
      (t : Tid) (a : After) (rs : List (Release W)) (s : System W)
      → s.pc t ≡ replays a rs
      → Ended t s
  unfolding end_recovery
  replay-Ended t a [] s e = record {
    last = moves s t (end_recovery s.world) (resume a);
    reach = next here (finishes t a e);
    steady = refl;
    others = λ u n. update-other s.pc t u (resume a) n;
  }
  replay-Ended t a (r ∷ rs) s e =
      let s' = moves s t (perform r s.world) (replays a rs) in
      let rest = replay-Ended t a rs s' (update_self s.pc t (replays a rs)) in
      record {
        last = rest.last;
        reach = Reach-append (next here (releases t a r rs e)) rest.reach;
        steady = rest.steady;
        others = λ u n. rest.others u n ∙ update-other s.pc t u (replays a rs) n;
      }

  swap-Ended : (t : Tid) (a : After) (s : System W) → s.pc t ≡ swaps a → Ended t s
  swap-Ended t a s e =
      let p = replays a (plan s.world) in
      let s' = moves s t (take_buffers s.world) p in
      let rest = replay-Ended t a (plan s.world) s' (update_self s.pc t p) in
      record {
        last = rest.last;
        reach = Reach-append (next here (swaps_out t a e)) rest.reach;
        steady = rest.steady;
        others = λ u n. rest.others u n ∙ update-other s.pc t u p n;
      }

  recovers-Ended : (t : Tid) (s : System W) (p : Pc W) → s.pc t ≡ p → recovers p ≡ true → Ended t s
  recovers-Ended t s idle e h = cc
  recovers-Ended t s (looks a) e h = cc
  recovers-Ended t s (swaps a) e h = swap-Ended t a s e
  recovers-Ended t s (replays a rs) e h = replay-Ended t a rs s e
  recovers-Ended t s (locks g m) e h = cc
  recovers-Ended t s (writes m) e h = cc

module _ {W : Type 0} ⦃d : Double W⦄ where
  -- The locked block of a thread that waits no longer.
  locked :
      (t : Tid) (g : Stage) (m : Message) (s : System W)
      → s.pc t ≡ locks g m
      → s.world.fault.recovering ≡ false
      → (v : System W) × Step OnIdle s v × ((v.pc t ≡ idle) ⊎ (v.pc t ≡ passed t g m s.world))
  locked t g m s e r = elim (Bool-cases (is_node_fault_active_locked s.clock s.world.fault)) [
    | inl a ↦ (_, holds t g m e r a, inl (update_self s.pc t idle))
    | inr a ↦ (_, passes t g m e r a, inr (update_self s.pc t (passed t g m s.world)))
  ]

  -- Wherever the threads stand after quiet and any steps with faults started on an idle node, a
  -- thread before its locked block is let in: the recovery that it may have to wait for can run to
  -- its end, while it waits, and then it takes its step, out of the block or on with its message.
  pub waiting-ends :
      (s₀ s : System W) (t : Tid) (g : Stage) (m : Message)
      → IsQuiet s₀
      → Reach OnIdle s₀ s
      → s.pc t ≡ locks g m
      → (u v : System W) × Reach OnIdle s u
        × (u.world.fault.recovering ≡ false)
        × (u.pc t ≡ locks g m)
        × Step OnIdle u v
        × ((v.pc t ≡ idle) ⊎ (v.pc t ≡ passed t g m u.world))
  waiting-ends s₀ s t g m q r e = elim (Bool-cases s.world.fault.recovering) [
    | inr free ↦ let (v, st, out) = locked t g m s e free in (s, v, here, free, e, st, out)
    | inl busy ↦
        let (w, in_it) = (Reach-Exclusive q r).manned busy in
        let ended = recovers-Ended OnIdle w s (s.pc w) refl in_it in
        let waits = ended.others t (λ same. cc) ∙ e in
        let (v, st, out) = locked t g m ended.last waits ended.steady in
        (ended.last, v, ended.reach, ended.steady, waits, st, out)
  ]
