-- ===== src/Bridge/Frequency.antt =====
-- `send_freq_control` of src/bridge_node.cpp. ROS time is a parameter: `since now t` stands for
-- `(now - t).toSec()`.
use swarm_ros_bridge.Common.{
  ℕ, ℤ, pos, ◌+◌, Bool, true, false, List, [], ◌∷◌, if◌then◌else◌, ◌≡◌, refl, sym, subst, ◌∙◌,
  arith,
}
use swarm_ros_bridge.Double.{Double, IsOrdered, lit, div, lt, le}

-- sub_t_last[i] and send_num[i].
pub record Period (T : Type 0) : Type 0 where
  pub t_last : T
  pub send_num : ℕ

-- `sub_t_last.emplace_back(now)`, `send_num.emplace_back(0)`.
abbrev pub fresh : {T : Type 0} → T → Period T
fresh t = record { t_last = t; send_num = 0 }

module _ {W T : Type 0} ⦃d : Double W⦄ (since : T → T → W) where
  -- `(send_num + 1) / elapsed > max_freq`
  abbrev pub too_fast : ℤ → T → Period T → Bool
  too_fast max_freq now p =
      lt (d.of_int max_freq) (div (d.of_int (pos (p.send_num + 1))) (since now p.t_last))

  abbrev pub is_over : T → Period T → Bool
  is_over now p = lt (lit 1 0) (since now p.t_last)

  -- The result is the flag "discard this message".
  unfoldable pub send_freq_control : ℤ → T → Period T → Bool × Period T
  send_freq_control max_freq now p =
      let discard_flag = too_fast max_freq now p in
      let sent = if discard_flag then p else record p { send_num = p.send_num + 1 } in
      let p' = if is_over now p then record { t_last = now; send_num = 0 } else sent in
      (discard_flag, p')

  -- A run of messages, the oldest first: the period after it, and how many were let through.
  unfoldable pub after_run : ℤ → List T → Period T → Period T
  after_run max_freq [] p = p
  after_run max_freq (now ∷ ts) p = after_run max_freq ts (send_freq_control max_freq now p).1

  abbrev one_if_kept : Bool → ℕ
  one_if_kept true = 0
  one_if_kept false = 1

  pub kept : ℤ → List T → Period T → ℕ
  kept max_freq [] p = 0
  kept max_freq (now ∷ ts) p =
      one_if_kept (send_freq_control max_freq now p).0
      + kept max_freq ts (send_freq_control max_freq now p).1

  -- No message of a run comes more than a second after the start of the period.
  abbrev pub Within : T → List T → Type 0
  Within t [] = Unit
  Within t (now ∷ ts) = (lt (lit 1 0) (since now t) ≡ false) × Within t ts

  step-counts :
      (max_freq : ℤ) (now : T) (p : Period T)
      → lt (lit 1 0) (since now p.t_last) ≡ false
      → let r = send_freq_control max_freq now p in
        (r.1.t_last ≡ p.t_last) × (r.1.send_num ≡ p.send_num + one_if_kept r.0)
  unfolding send_freq_control
  step-counts max_freq now p h = ground arith

  -- Within a period the start stays and the counter counts what was let through.
  run-counts :
      (max_freq : ℤ) (ts : List T) (p : Period T)
      → Within p.t_last ts
      → ((after_run max_freq ts p).t_last ≡ p.t_last)
        × ((after_run max_freq ts p).send_num ≡ p.send_num + kept max_freq ts p)
  unfolding after_run kept
  run-counts max_freq [] p h = (refl, omega arith)
  run-counts max_freq (now ∷ ts) p h =
      let step = step-counts max_freq now p h.0 in
      let rest =
        run-counts max_freq ts (send_freq_control max_freq now p).1
          (subst (λ (t : T). Within t ts) (sym step.0) h.1) in
      (rest.0 ∙ step.0, omega (arith, rest.1, step.1))

  kept-rate :
      (o : IsOrdered W) (max_freq : ℤ) (now : T) (p : Period T)
      → (send_freq_control max_freq now p).0 ≡ false
      → le (div (d.of_int (pos (p.send_num + 1))) (since now p.t_last)) (d.of_int max_freq) ≡ true
  unfolding send_freq_control
  kept-rate o max_freq now p h = o.le_of_not_lt _ _ h

  -- After any run of messages within a second of the start of a period, when one more is let
  -- through, the messages let through in the period, that one included, divided by the time since
  -- its start, are at most the topic's max_freq. The comparisons are of numbers, not NaN.
  pub send_freq_control-rate :
      (o : IsOrdered W) (max_freq : ℤ) (start : T) (ts : List T) (now : T)
      → Within start ts
      → (send_freq_control max_freq now (after_run max_freq ts (fresh start))).0 ≡ false
      → le
          (div (d.of_int (pos (kept max_freq ts (fresh start) + 1))) (since now start))
          (d.of_int max_freq)
        ≡ true
  send_freq_control-rate o max_freq start ts now h e =
      let p = after_run max_freq ts (fresh start) in
      let r = run-counts max_freq ts (fresh start) h in
      let n : p.send_num ≡ kept max_freq ts (fresh start) = omega (arith, r.1) in
      subst
        (λ (t : T).
          le (div (d.of_int (pos (kept max_freq ts (fresh start) + 1))) (since now t))
            (d.of_int max_freq)
          ≡ true)
        r.0
        (subst
          (λ (k : ℕ).
            le (div (d.of_int (pos (k + 1))) (since now p.t_last)) (d.of_int max_freq) ≡ true)
          n (kept-rate o max_freq now p e))
