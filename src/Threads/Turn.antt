-- ===== src/Threads/Turn.antt =====
-- One thread's turn: its steps one after the other, with no step of another between them.
use swarm_ros_bridge.Common.{
  ℕ, ◌-◌, ◌≤◌, true, false, List, [], ◌∷◌, ◌≡◌, subst, fun_ext, arith, Bool-cases, inl, inr,
}
use swarm_ros_bridge.Double.{Double}
use swarm_ros_bridge.Topic.{Message}
use swarm_ros_bridge.World.{World}
use swarm_ros_bridge.Fault.{is_node_fault_active_locked}
use swarm_ros_bridge.Replay.{
  is_expired, begin_recovery, end_recovery, take_buffers, flush_fault_buffers,
  flush_expired_fault_if_needed,
}
use swarm_ros_bridge.Threads.Plan.{Release, perform, perform_all, plan, plan-flush_fault_buffers}
use swarm_ros_bridge.Threads.{
  first, in_call, Tid, Stage, After, Pc, idle, looks, swaps, replays, locks, writes, System, update,
  resume, passed, hold, hand_over,
}
use swarm_ros_bridge.Threads.Step.{
  Step, ticks, sees_end, sees_no_end, swaps_out, releases, finishes, holds, passes, is_given,
  is_called, hands_over, Reach, here, next, moves,
}
use swarm_ros_bridge.Threads.Progress.{update_self}

update-update :
    {W : Type 0} (pc : Tid → Pc W) (t : Tid) (p q : Pc W)
    → update (update pc t p) t q ≡ update pc t q
update-update pc t p q = fun_ext (λ u. ground arith)

pub update-idle :
    {W : Type 0} (pc : Tid → Pc W) (t : Tid) (p : Pc W) → pc t ≡ p → update pc t p ≡ pc
update-idle pc t p e = fun_ext (λ u. ground (arith, e))

module _ {W : Type 0} (s : System W) (t : Tid) where
  -- `s` with the thread at `p`, a world and a time.
  abbrev pub turn : World W → ℕ → Pc W → System W
  turn w now p = record s { world = w; clock = now; pc = update s.pc t p }

  pub at-turn : (p : Pc W) → update s.pc t p t ≡ p
  at-turn p = update_self s.pc t p

module _ {W : Type 0} ⦃d : Double W⦄ (Starts : World W → Type 0) (s : System W) (t : Tid) where
  abbrev pub Turn : World W → ℕ → Pc W → Type 0
  Turn w now p = Reach Starts s (turn s t w now p)

  pub goes :
      (w v : World W) (now : ℕ) (p q : Pc W)
      → Turn w now p
      → Step Starts (turn s t w now p) (moves (turn s t w now p) t v q)
      → Turn v now q
  goes w v now p q r st =
      subst (λ pc. Reach Starts s (record s { world = v; clock = now; pc = pc }))
        (update-update s.pc t p q) (next r st)

  pub waits_till :
      (w : World W) (now later : ℕ) (p : Pc W) → now ≤ later → Turn w now p → Turn w later p
  waits_till w now later p h r =
      subst (λ n. Turn w n p) (omega arith) (next r (ticks (later - now)))

  replays_all :
      (a : After) (now : ℕ) (rs : List (Release W)) (w : World W)
      → Turn w now (replays a rs)
      → Turn (perform_all rs w) now (replays a [])
  unfolding perform_all
  replays_all a now [] w r = r
  replays_all a now (x ∷ rs) w r =
      replays_all a now rs (perform x w)
        (goes w _ now (replays a (x ∷ rs)) (replays a rs) r (releases t a x rs (at-turn s t _)))

  recovers_all :
      (a : After) (now : ℕ) (w : World W)
      → Turn w now (swaps a)
      → Turn (end_recovery (flush_fault_buffers w)) now (resume a)
  recovers_all a now w r =
      let swapped = goes w _ now (swaps a) (replays a (plan w)) r (swaps_out t a (at-turn s t _)) in
      let done = replays_all a now (plan w) (take_buffers w) swapped in
      subst (λ v. Turn (end_recovery v) now (resume a)) (plan-flush_fault_buffers w)
        (goes _ _ now (replays a []) (resume a) done (finishes t a (at-turn s t _)))

  -- The look, and the recovery if it finds the end of a fault.
  pub flushes :
      (a : After) (now : ℕ) (w : World W)
      → Turn w now (looks a)
      → Turn (flush_expired_fault_if_needed now w) now (resume a)
  unfolding flush_expired_fault_if_needed
  flushes a now w r = elim (Bool-cases (is_expired now w)) [
    | inl over ↦ rw over (
        recovers_all a now (begin_recovery w)
          (goes w _ now (looks a) (swaps a) r (sees_end t a (at-turn s t _) over)))
    | inr open_yet ↦
        rw open_yet (goes w _ now (looks a) (resume a) r (sees_no_end t a (at-turn s t _) open_yet))
  ]

  -- The locked block, and the hand-over.
  pub held :
      (g : Stage) (m : Message) (now : ℕ) (w : World W)
      → Turn w now (locks g m)
      → w.fault.recovering ≡ false
      → is_node_fault_active_locked now w.fault ≡ true
      → Turn (hold t m w) now idle
  held g m now w r f h = goes w _ now (locks g m) idle r (holds t g m (at-turn s t _) f h)

  pub let_in :
      (g : Stage) (m : Message) (now : ℕ) (w : World W)
      → Turn w now (locks g m)
      → w.fault.recovering ≡ false
      → is_node_fault_active_locked now w.fault ≡ false
      → Turn w now (passed t g m w)
  let_in g m now w r f h =
      goes w _ now (locks g m) (passed t g m w) r (passes t g m (at-turn s t _) f h)

  pub hands :
      (m : Message) (now : ℕ) (w : World W)
      → Turn w now (writes m)
      → Turn (hand_over t m w) now idle
  hands m now w r = goes w _ now (writes m) idle r (hands_over t m (at-turn s t _))

  pub given :
      (m : Message)
      → is_called t ≡ true
      → s.pc t ≡ idle
      → Turn s.world s.clock (looks (in_call first m))
  given m k e = next here (is_given t m k e)

  -- A thread that was idle and is again: the turn has changed the world and the clock only.
  pub turn_ends :
      (w : World W) (now : ℕ)
      → s.pc t ≡ idle
      → Turn w now idle
      → Reach Starts s (record s { world = w; clock = now })
  turn_ends w now e r =
      subst (λ pc. Reach Starts s (record s { world = w; clock = now; pc = pc }))
        (update-idle s.pc t idle e) r
