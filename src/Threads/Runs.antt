-- ===== src/Threads/Runs.antt =====
-- Runs of the calls of Dispatch, each taken whole, are runs of the steps of the threads.
use swarm_ros_bridge.Common.{ℕ, ◌≤◌, some, List, [], ◌∷◌, ◌≡◌, subst, chained, some-inj}
use swarm_ros_bridge.Double.{Double}
use swarm_ros_bridge.World.{World}
use swarm_ros_bridge.Dispatch.{Call, sends, receives, run_call, run_calls}
use swarm_ros_bridge.Threads.{Tid, sender, receiver, idle, System}
use swarm_ros_bridge.Threads.Step.{Reach, here}
use swarm_ros_bridge.Threads.Progress.{Reach-append}
use swarm_ros_bridge.Threads.Calls.{sent-Reach, received-Reach}

-- A call's readings of the clock come in their order and not before `now`; the last of them.
abbrev pub InTime : ℕ → Call → Type 0
InTime now (sends i m t₁ t₂ t₃ t₄) = (now ≤ t₁) × (t₁ ≤ t₂) × (t₂ ≤ t₃) × (t₃ ≤ t₄)
InTime now (receives i m t₁ t₂) = (now ≤ t₁) × (t₁ ≤ t₂)

abbrev pub end_of : Call → ℕ
end_of (sends i m t₁ t₂ t₃ t₄) = t₄
end_of (receives i m t₁ t₂) = t₂

abbrev pub AllInTime : ℕ → List Call → Type 0
AllInTime now [] = Unit
AllInTime now (c ∷ cs) = InTime now c × AllInTime (end_of c) cs

module _ {W : Type 0} ⦃d : Double W⦄ (Starts : World W → Type 0) where
  pub run_call-Reach :
      (c : Call) (s : System W) (v : World W)
      → ((t : Tid) → s.pc t ≡ idle)
      → InTime s.clock c
      → run_call c s.world ≡ some v
      → Reach Starts s (record s { world = v; clock = end_of c })
  unfolding run_call
  run_call-Reach (sends i m t₁ t₂ t₃ t₄) s v q (h₁, h₂, h₃, h₄) e =
      sent-Reach Starts s i m t₁ t₂ t₃ t₄ v (q (sender i)) h₁ h₂ h₃ h₄ e
  run_call-Reach (receives i m t₁ t₂) s v q (h₁, h₂) e =
      received-Reach Starts s i m t₁ t₂ v (q (receiver i)) h₁ h₂ e

  -- Calls one after the other that return, each taken whole with its readings of the clock in their
  -- order, are a run of the steps from idle threads to idle threads, whenever faults may be started.
  pub run_calls-Reach :
      (cs : List Call) (s : System W) (v : World W)
      → ((t : Tid) → s.pc t ≡ idle)
      → AllInTime s.clock cs
      → run_calls cs s.world ≡ some v
      → (now : ℕ) × Reach Starts s (record s { world = v; clock = now })
  unfolding run_calls
  run_calls-Reach [] s v q h e =
      (s.clock, subst (λ w. Reach Starts s (record s { world = w })) (some-inj _ v e) here)
  run_calls-Reach (c ∷ cs) s v q (h, hs) e =
      let (w, f, g) = chained (run_call c s.world) (run_calls cs) v e in
      let (now, r) = run_calls-Reach cs (record s { world = w; clock = end_of c }) v q hs g in
      (now, Reach-append (run_call-Reach c s w q h f) r)
