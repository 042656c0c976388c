-- ===== src/Threads/Unguarded.antt =====
-- A fault that starts with no look at the node, as `schedule_node_fault` starts it after its delay.
use swarm_ros_bridge.Common.{ℕ, ◌+◌, true, false, List, [], ◌≡◌, ◌≢◌, refl, ap, subst, ◌∙◌, arith}
use swarm_ros_bridge.Double.{Double, nought, le}
use swarm_ros_bridge.Topic.{Message}
use swarm_ros_bridge.World.{World, is_limited}
use swarm_ros_bridge.Fault.{start_node_fault, is_node_fault_active_locked}
use swarm_ros_bridge.Replay.{is_expired, begin_recovery, end_recovery, take_buffers}
use swarm_ros_bridge.Threads.Plan.{Release, plan, plan-nil}
use swarm_ros_bridge.Threads.{
  Tid, sender, first, second, After, in_call, Pc, idle, looks, swaps, replays, locks, writes,
  System, passed, resume,
}
use swarm_ros_bridge.Threads.Step.{
  Step, ticks, starts, is_given, sees_end, sees_no_end, swaps_out, finishes, passes, Reach, here,
  next, moves,
}
use swarm_ros_bridge.Threads.Progress.{Reach-append, update_self, update-other}

module _ {W : Type 0} ⦃d : Double W⦄ where
  -- Starts that ask nothing of the node.
  abbrev pub Anytime : World W → Type 0
  Anytime w = Unit

  -- `t` alone has gone on, from `s` to `last`, and stands at `p`.
  record Gone (t : Tid) (s : System W) (p : Pc W) : Type 0 where
    last : System W
    reach : Reach Anytime s last
    at : last.pc t ≡ p
    others : (u : Tid) → u ≢ t → last.pc u ≡ s.pc u

  abbrev more :
      (t : Tid) (s : System W) (p q : Pc W) (g : Gone t s p) (w : World W)
      → Step Anytime g.last (moves g.last t w q)
      → Gone t s q
  more t s p q g w st = record {
    last = moves g.last t w q;
    reach = next g.reach st;
    at = update_self g.last.pc t q;
    others = λ u n. update-other g.last.pc t u q n ∙ g.others u n;
  }

  abbrev none_yet : (t : Tid) (s : System W) (p : Pc W) → s.pc t ≡ p → Gone t s p
  none_yet t s p e = record { last = s; reach = here; at = e; others = λ u n. refl }

  passed-free :
      (i : ℕ) (m : Message) (w : World W)
      → is_limited w i ≡ false
      → passed (sender i) first m w ≡ looks (in_call second m)
  passed-free i m w free = rw free

  -- A call with no fault and no replay flagged goes on to its write.
  abbrev write-Gone :
      (i : ℕ) (m : Message) (s : System W)
      → s.pc (sender i) ≡ locks first m
      → s.world.fault.recovering ≡ false
      → s.world.fault.active ≡ false
      → is_limited s.world i ≡ false
      → Gone (sender i) s (writes m)
  unfolding is_node_fault_active_locked
  write-Gone i m s e r a free =
      let t = sender i in
      let w = s.world in
      let p₁ = looks (in_call second m) in
      let g₀ = none_yet t s (locks first m) e in
      let g₁ = more t s (locks first m) p₁ g₀ w (
        subst (λ (p : Pc W). Step Anytime s (moves s t w p)) (passed-free i m w free)
          (passes t first m e r (rw a))) in
      let g₂ = more t s p₁ (locks second m) g₁ w (sees_no_end t (in_call second m) g₁.at (rw a)) in
      more t s (locks second m) (writes m) g₂ w (passes t second m g₂.at r (rw a))

  -- A call that finds the end of a fault with nothing held back replays nothing, and clears the flag
  -- of a recovery that it did not begin.
  abbrev swap-Gone :
      (t : Tid) (a : After) (s : System W)
      → s.pc t ≡ looks a
      → is_expired s.clock s.world ≡ true
      → plan (begin_recovery s.world) ≡ []
      → Gone t s (resume a)
  swap-Gone t a s e x none =
      let w₁ = begin_recovery s.world in
      let w₂ = take_buffers w₁ in
      let g₁ = more t s (looks a) (swaps a) (none_yet t s (looks a) e) w₁ (sees_end t a e x) in
      let g₂ = more t s (swaps a) (replays a []) g₁ w₂ (
        subst (λ (rs : List (Release W)). Step Anytime g₁.last (moves g₁.last t w₂ (replays a rs)))
          none (swaps_out t a g₁.at)) in
      more t s (replays a []) (resume a) g₂ (end_recovery w₂) (finishes t a g₂.at)

  start-opens :
      (now : ℕ) (duration : W) (w : World W)
      → le duration nought ≡ false
      → w.fault.thread_running ≡ true
      → let v = start_node_fault now duration w in
        (is_expired (now + d.to_nanos duration) v ≡ true)
        × (plan (begin_recovery v) ≡ [])
        × (is_limited v ≡ is_limited w)
  unfolding start_node_fault begin_recovery
  start-opens now duration w p r =
      rw (p, r) (ground arith, plan-nil _ w.fault.send_buffers w.fault.recv_buffers refl refl, refl)

  -- While a thread replays, with any releases left, a fault of any positive length that is started
  -- with no look at the node opens a window at whose end a call on an idle send topic with no bitrate
  -- limit gets to write any new message, ahead of every release that is left.
  pub late_start-overtakes :
      (s : System W) (t : Tid) (a : After) (rs : List (Release W)) (i : ℕ) (m : Message)
      (duration : W)
      → s.pc t ≡ replays a rs
      → s.pc (sender i) ≡ idle
      → s.world.fault.thread_running ≡ true
      → le duration nought ≡ false
      → is_limited s.world i ≡ false
      → (u : System W) × Reach Anytime s u
        × (u.pc t ≡ replays a rs)
        × (u.pc (sender i) ≡ writes m)
        × (u.clock ≡ s.clock + d.to_nanos duration)
  unfolding begin_recovery end_recovery take_buffers write-Gone
  late_start-overtakes s t a rs i m duration e f r p free =
      let w = start_node_fault s.clock duration s.world in
      let (x, none, same) = start-opens s.clock duration s.world p r in
      let b = in_call first m in
      let s₁ = record s { world = w } in
      let s₂ = record s₁ { clock = s.clock + d.to_nanos duration } in
      let s₃ = moves s₂ (sender i) w (looks b) in
      let n : t ≢ sender i = λ k. cc in
      let r₃ : Reach Anytime s s₃ =
        next (next (next {u = s₁} here (starts duration tt)) (ticks (d.to_nanos duration)))
          (is_given (sender i) m refl f) in
      let g = swap-Gone (sender i) b s₃ (update_self s.pc (sender i) (looks b)) x none in
      let h = write-Gone i m g.last g.at refl refl (ap (λ l. l i) same ∙ free) in
      (
        h.last,
        Reach-append r₃ (Reach-append g.reach h.reach),
        h.others t n ∙ g.others t n ∙ update-other s.pc (sender i) t (looks b) n ∙ e,
        h.at,
        refl,
      )
