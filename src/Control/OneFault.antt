-- ===== src/Control/OneFault.antt =====
-- The control server over any arrivals, until a fault ends.
use mathlib.Core.Bool.{false≢true}
use swarm_ros_bridge.Common.{
  ℕ, Bytes, codes, true, false, Option, List, [], ◌∷◌, ◌++◌, append_assoc, length, ◌≡◌, refl, sym,
  ap, ◌∙◌, arith, ◌+◌, ◌≤◌, ◌<◌, ◌⊎◌, inl, inr, subst, All, All-append,
}
use swarm_ros_bridge.Double.{Double, IsOrdered, lt, nought}
use swarm_ros_bridge.World.{World}
use swarm_ros_bridge.Fault.{is_node_fault_busy, start_node_fault}
use swarm_ros_bridge.Monitor.{Look, time_of, look}
use swarm_ros_bridge.Monitor.Once.{look-early, look-idle}
use swarm_ros_bridge.Control.Fields.{FieldMap, parse_key_value_request}
use swarm_ros_bridge.Control.{ControlServerConfig, build_response, handle_control_request}
use swarm_ros_bridge.Control.Decision.{
  Commands, Targets, Authorizes, Lasts, refusal, Outcome, started, invalid_command, target_mismatch,
  unauthorized, invalid_duration, busy, handle_control_request-Outcome,
}
use swarm_ros_bridge.Control.Server.{
  nothing, text, malformed, Turn, arrives, elsewhere, reply_list, control_loop, requests,
  length-control_loop,
}

module _ {W : Type 0} ⦃d : Double W⦄ (c : ControlServerConfig) where
  abbrev pub acceptance : W → Bytes
  acceptance duration =
      build_response true c.node_id (codes "message") (codes "node_fault_started")
      ++ (codes ";duration_sec=" ++ d.show duration)

-- A reply that turns a request down.
abbrev pub IsRefusal : ControlServerConfig → Bytes → Type 0
IsRefusal c r = (code : Bytes) × (r ≡ refusal c code)

-- No fault that a turn asks for would end before `end`, and every look is before it.
abbrev pub IsWithin : (W : Type 0) ⦃d : Double W⦄ → ℕ → Turn → Type 0
IsWithin W end (arrives now nothing) = Unit
IsWithin W end (arrives now malformed) = Unit
IsWithin W ⦃d⦄ end (arrives now (text request)) =
    (duration : W)
    → Lasts (parse_key_value_request request) duration
    → end ≤ now + d.to_nanos duration
IsWithin W end (elsewhere l) = time_of l < end

module _ {W : Type 0} ⦃d : Double W⦄ (c : ControlServerConfig) where
  -- A round that turns down what it gets, if anything, and leaves the state alone.
  abbrev Declines : World W → Option Bytes × World W → Type 0
  Declines w r = All (IsRefusal c) (reply_list r.0) × (r.1 ≡ w)

  -- What a run of the loop does until the end of a fault: it turns everything down; or it starts one
  -- fault, for a request that meets every condition, and turns down what comes before and after.
  pub data Service (ts : List Turn) (w : World W) (r : List Bytes × World W) : Type 0 where
    declined : All (IsRefusal c) r.0 → r.1 ≡ w → Service ts w r
    once :
        (before after : List Turn) (now : ℕ) (request : Bytes) (duration : W) (rs rs' : List Bytes)
        → ts ≡ before ++ arrives now (text request) ∷ after
        → Commands (parse_key_value_request request)
        → Targets c (parse_key_value_request request)
        → Authorizes c (parse_key_value_request request)
        → Lasts (parse_key_value_request request) duration
        → is_node_fault_busy w ≡ false
        → r.0 ≡ rs ++ acceptance c duration ∷ rs'
        → All (IsRefusal c) rs
        → All (IsRefusal c) rs'
        → r.1 ≡ start_node_fault now duration w
        → Service ts w r

  -- If a fault is active, it does not end before `end`.
  abbrev pub LastsUntil : ℕ → World W → Type 0
  LastsUntil end w = (w.fault.active ≡ false) ⊎ (end ≤ w.fault.until)

  look-keeps :
      (end : ℕ) (l : Look) (w : World W) → LastsUntil end w → time_of l < end → look l w ≡ w
  look-keeps end l w (inl a) h = look-idle l w a
  look-keeps end l w (inr k) h = look-early l w (omega arith)

  busy-declines :
      (now : ℕ) (fs : FieldMap) (w : World W) (r : Bytes × World W)
      → is_node_fault_busy w ≡ true
      → Outcome c now fs w r
      → IsRefusal c r.0 × (r.1 ≡ w)
  busy-declines now fs w r b (started x p t a l idle e) = absurd (false≢true (sym idle ∙ b))
  busy-declines now fs w r b (invalid_command p e) = ((_, ap (λ q. q.0) e), ap (λ q. q.1) e)
  busy-declines now fs w r b (target_mismatch p t e) = ((_, ap (λ q. q.0) e), ap (λ q. q.1) e)
  busy-declines now fs w r b (unauthorized p t a e) = ((_, ap (λ q. q.0) e), ap (λ q. q.1) e)
  busy-declines now fs w r b (invalid_duration p t a l e) = ((_, ap (λ q. q.0) e), ap (λ q. q.1) e)
  busy-declines now fs w r b (busy x p t a l k e) = ((_, ap (λ q. q.0) e), ap (λ q. q.1) e)

  -- Until its fault ends, a busy node turns everything down.
  loop-busy :
      (end : ℕ) (ts : List Turn) (w : World W)
      → is_node_fault_busy w ≡ true
      → LastsUntil end w
      → All (IsWithin W end) ts
      → All (IsRefusal c) (control_loop c ts w).0 × ((control_loop c ts w).1 ≡ w)
  unfolding control_loop
  loop-busy end [] w b k h = (tt, refl)
  loop-busy end (arrives now nothing ∷ ts) w b k h = loop-busy end ts w b k h.1
  loop-busy end (arrives now malformed ∷ ts) w b k h =
      let (all, e) = loop-busy end ts w b k h.1 in (((_, refl), all), e)
  loop-busy end (arrives now (text t) ∷ ts) w b k h =
      let (first, e) =
        busy-declines now (parse_key_value_request t) w _ b
          (handle_control_request-Outcome c now t w) in
      let (all, e') = loop-busy end ts (handle_control_request c now t w).1 (rw e b) (rw e k) h.1 in
      ((first, all), e' ∙ e)
  loop-busy end (elsewhere l ∷ ts) w b k h =
      subst (λ v. All (IsRefusal c) (control_loop c ts v).0 × ((control_loop c ts v).1 ≡ w))
        (sym (look-keeps end l w k h.0)) (loop-busy end ts w b k h.1)

  start-busy :
      (o : IsOrdered W) (now : ℕ) (duration : W) (w : World W)
      → w.fault.thread_running ≡ true
      → lt nought duration ≡ true
      → (is_node_fault_busy (start_node_fault now duration w) ≡ true)
        × ((start_node_fault now duration w).fault.until ≡ now + d.to_nanos duration)
  unfolding start_node_fault is_node_fault_busy
  start-busy o now duration w run p = (
    ground (arith, o.not_lt_of_le duration nought),
    ground (arith, o.not_lt_of_le duration nought),
  )

  -- One more turn before, turned down if it is a request.
  after_refusals :
      (t : Turn) (ts : List Turn) (w : World W) (r : List Bytes × World W) (rs : List Bytes)
      → All (IsRefusal c) rs
      → Service ts w r
      → Service (t ∷ ts) w (rs ++ r.0, r.1)
  after_refusals t ts w r rs h (declined all e) = declined (All-append (IsRefusal c) rs r.0 h all) e
  after_refusals t ts w r rs h (once before after now q x ps qs split p g a l idle e hp hq v) =
      once (t ∷ before) after now q x (rs ++ ps) qs (ap (λ l. t ∷ l) split) p g a l idle
        (ap (λ l. rs ++ l) e ∙ sym (append_assoc rs ps (acceptance c x ∷ qs)))
        (All-append (IsRefusal c) rs ps h hp) hq v

  module _ (o : IsOrdered W) (end : ℕ) where
    -- What a request does, given the run that follows.
    request-Service :
        (now : ℕ) (t : Bytes) (ts : List Turn) (w : World W) (r : Bytes × World W)
        → w.fault.thread_running ≡ true
        → IsWithin W end (arrives now (text t))
        → All (IsWithin W end) ts
        → Outcome c now (parse_key_value_request t) w r
        → Service ts w (control_loop c ts w)
        → Service
            (arrives now (text t) ∷ ts)
            w
            (r.0 ∷ (control_loop c ts r.1).0, (control_loop c ts r.1).1)
    request-Service now t ts w r run k h (started x p g a l idle e) s =
        let (b, u) = start-busy o now x w run l.3 in
        let (rest, same) =
          loop-busy end ts (start_node_fault now x w) b (inr (omega (arith, u, k x l))) h in
        rw e (once [] ts now t x [] _ refl p g a l idle refl tt rest same)
    request-Service now t ts w r run k h (invalid_command p e) s =
        rw e (after_refusals (arrives now (text t)) ts w _ (_ ∷ []) ((_, refl), tt) s)
    request-Service now t ts w r run k h (target_mismatch p g e) s =
        rw e (after_refusals (arrives now (text t)) ts w _ (_ ∷ []) ((_, refl), tt) s)
    request-Service now t ts w r run k h (unauthorized p g a e) s =
        rw e (after_refusals (arrives now (text t)) ts w _ (_ ∷ []) ((_, refl), tt) s)
    request-Service now t ts w r run k h (invalid_duration p g a l e) s =
        rw e (after_refusals (arrives now (text t)) ts w _ (_ ∷ []) ((_, refl), tt) s)
    request-Service now t ts w r run k h (busy x p g a l b e) s =
        rw e (after_refusals (arrives now (text t)) ts w _ (_ ∷ []) ((_, refl), tt) s)

    loop-Service :
        (ts : List Turn) (w : World W)
        → w.fault.thread_running ≡ true
        → LastsUntil end w
        → All (IsWithin W end) ts
        → Service ts w (control_loop c ts w)
    unfolding control_loop
    loop-Service [] w run k h = declined tt refl
    loop-Service (arrives now nothing ∷ ts) w run k h =
        after_refusals (arrives now nothing) ts w (control_loop c ts w) [] tt
          (loop-Service ts w run k h.1)
    loop-Service (arrives now malformed ∷ ts) w run k h =
        after_refusals (arrives now malformed) ts w (control_loop c ts w) (_ ∷ []) ((_, refl), tt)
          (loop-Service ts w run k h.1)
    loop-Service (arrives now (text t) ∷ ts) w run k h =
        request-Service now t ts w (handle_control_request c now t w) run h.0 h.1
          (handle_control_request-Outcome c now t w) (loop-Service ts w run k h.1)
    loop-Service (elsewhere l ∷ ts) w run k h =
        subst (λ v. Service (elsewhere l ∷ ts) w (control_loop c ts v))
          (sym (look-keeps end l w k h.0))
          (after_refusals (elsewhere l) ts w (control_loop c ts w) [] tt
            (loop-Service ts w run k h.1))

    -- Until a fault ends, the server starts at most one. While the fault control runs, over any
    -- arrivals and any looks of other threads for the end of a fault, as long as every look is
    -- before a time that neither a fault active at first nor one that a request asks for would end
    -- before: the server answers each request once, and either turns all of them down and leaves
    -- the state alone, or starts one fault on an idle node, for a request with the right command,
    -- target, token and duration, accepts that one, and turns down all before it and after it. The
    -- comparisons are of numbers, not NaN.
    pub control_loop-Service :
        (ts : List Turn) (w : World W)
        → w.fault.thread_running ≡ true
        → LastsUntil end w
        → All (IsWithin W end) ts
        → Service ts w (control_loop c ts w) × (length (control_loop c ts w).0 ≡ requests ts)
    control_loop-Service ts w run k h = (loop-Service ts w run k h, length-control_loop c ts w)
