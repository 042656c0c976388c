-- ===== src/Control/Decision.antt =====
-- When a control request starts a fault, and what every other request is told.
use swarm_ros_bridge.Common.{
  ℕ, Bytes, codes, bytes_eq_iff, is_empty, true, false, not, ◌&&◌, Option, none, some, [], ◌∷◌,
  ◌++◌, length, ==_iff, ◌≡◌, ◌⊎◌, inl, inr, ◌↔◌, refl, sym, ◌∙◌, arith, Bool-cases, Option-cases,
}
use mathlib.Core.Bool.{false≢true}
use mathlib.Core.Option.{none-ne-some}
use swarm_ros_bridge.Double.{Double, lt, nought}
use swarm_ros_bridge.World.{World}
use swarm_ros_bridge.Fault.{is_node_fault_busy, start_node_fault}
use swarm_ros_bridge.Control.Fields.{FieldMap, find, parse_key_value_request}
use swarm_ros_bridge.Control.{
  ControlServerConfig, build_response, field_is, field_differs, parse_positive_duration,
  start_if_idle, whole_positive, duration_of, handle_control_request,
}

-- The four conditions on a request, read off its fields.
abbrev pub Commands : FieldMap → Type 0
Commands fs = find (codes "command") fs ≡ some (codes "start_node_fault")

-- A target is given only to name this node; without a target or a node id there is nothing to match.
abbrev pub Targets : ControlServerConfig → FieldMap → Type 0
Targets c fs =
    (find (codes "target") fs ≡ none)
    ⊎ (find (codes "target") fs ≡ some [])
    ⊎ (c.node_id ≡ [])
    ⊎ (find (codes "target") fs ≡ some c.node_id)

abbrev pub Authorizes : ControlServerConfig → FieldMap → Type 0
Authorizes c fs = (c.token ≡ []) ⊎ (find (codes "token") fs ≡ some c.token)

-- The whole text of the field is a positive number.
abbrev pub Lasts : {W : Type 0} ⦃d : Double W⦄ → FieldMap → W → Type 0
Lasts {W} ⦃d⦄ fs duration =
    (text : Bytes) × (find (codes "duration_sec") fs ≡ some text)
    × (d.stod text ≡ some (duration, length text))
    × (lt nought duration ≡ true)

abbrev pub refusal : ControlServerConfig → Bytes → Bytes
refusal c code = build_response false c.node_id (codes "error") code

-- Every request has one of these outcomes: the fault starts, on all the conditions, or the first of
-- them that fails is named in the reply and the state stays as it was.
pub data Outcome {W : Type 0} ⦃d : Double W⦄ (c : ControlServerConfig) (now : ℕ) (fs : FieldMap)
    (w : World W) (r : Bytes × World W) : Type 0 where
  started :
      (duration : W)
      → Commands fs
      → Targets c fs
      → Authorizes c fs
      → Lasts fs duration
      → is_node_fault_busy w ≡ false
      → r ≡ (
        build_response true c.node_id (codes "message") (codes "node_fault_started")
            ++ (codes ";duration_sec=" ++ d.show duration),
        start_node_fault now duration w,
      )
      → Outcome c now fs w r
  invalid_command :
      ¬ Commands fs → r ≡ (refusal c (codes "invalid_command"), w) → Outcome c now fs w r
  target_mismatch :
      Commands fs
      → ¬ Targets c fs
      → r ≡ (refusal c (codes "target_mismatch"), w)
      → Outcome c now fs w r
  unauthorized :
      Commands fs
      → Targets c fs
      → ¬ Authorizes c fs
      → r ≡ (refusal c (codes "unauthorized"), w)
      → Outcome c now fs w r
  invalid_duration :
      Commands fs
      → Targets c fs
      → Authorizes c fs
      → ((duration : W) → ¬ Lasts fs duration)
      → r ≡ (refusal c (codes "invalid_duration_sec"), w)
      → Outcome c now fs w r
  busy :
      (duration : W)
      → Commands fs
      → Targets c fs
      → Authorizes c fs
      → Lasts fs duration
      → is_node_fault_busy w ≡ true
      → r ≡ (refusal c (codes "node_fault_busy"), w)
      → Outcome c now fs w r

-- The code's tests decide the conditions.
field_is_iff : (o : Option Bytes) (v : Bytes) → (field_is o v ≡ true) ↔ (o ≡ some v)
unfolding field_is
field_is_iff none v = ground arith
field_is_iff (some u) v = ground (arith, bytes_eq_iff u v)

is_empty_iff : (s : Bytes) → (is_empty s ≡ true) ↔ (s ≡ [])
is_empty_iff [] = ground arith
is_empty_iff (c ∷ s) = ground arith

abbrev Matches : Option Bytes → Bytes → Type 0
Matches o v = (o ≡ none) ⊎ (o ≡ some []) ⊎ (v ≡ []) ⊎ (o ≡ some v)

field_differs-false : (o : Option Bytes) (v : Bytes) → field_differs o v ≡ false → Matches o v
unfolding field_differs
field_differs-false none v h = inl refl
field_differs-false (some u) v h = ground (arith, bytes_eq_iff u v, is_empty_iff u, is_empty_iff v)

field_differs-true : (o : Option Bytes) (v : Bytes) → field_differs o v ≡ true → ¬ Matches o v
unfolding field_differs
field_differs-true none v h m = cc
field_differs-true (some u) v h m = ground (arith, bytes_eq_iff u v, is_empty_iff u, is_empty_iff v)

module _ {W : Type 0} ⦃d : Double W⦄ where
  whole_positive-some :
      (text : Bytes) (r : Option (W × ℕ)) (x : W)
      → whole_positive text r ≡ some x
      → (r ≡ some (x, length text)) × (lt nought x ≡ true)
  whole_positive-some text none x e = cc
  whole_positive-some text (some (v, n)) x e = ground (arith, ==_iff n (length text))

  duration_of-some :
      (o : Option Bytes) (x : W)
      → duration_of o ≡ some x
      → (text : Bytes) × (o ≡ some text)
        × (d.stod text ≡ some (x, length text))
        × (lt nought x ≡ true)
  duration_of-some none x e = cc
  duration_of-some (some text) x e =
      let (p, q) = whole_positive-some text (d.stod text) x e in (text, refl, p, q)

module _ {W : Type 0} ⦃d : Double W⦄ (fs : FieldMap) where
  duration-Lasts : (x : W) → parse_positive_duration fs ≡ some x → Lasts fs x
  unfolding parse_positive_duration
  duration-Lasts x e = duration_of-some (find (codes "duration_sec") fs) x e

  Lasts-duration : (x : W) → Lasts fs x → parse_positive_duration fs ≡ some x
  unfolding parse_positive_duration
  Lasts-duration x (text, e, s, p) = rw (e, s, (==_iff (length text) (length text)).1 refl, p)

module _ {W : Type 0} ⦃d : Double W⦄ (c : ControlServerConfig) (now : ℕ) (fs : FieldMap)
    (w : World W) where
  token_test-true :
      (not (is_empty c.token) && not (field_is (find (codes "token") fs) c.token)) ≡ true
      → ¬ Authorizes c fs
  token_test-true h a =
      ground (arith, is_empty_iff c.token, field_is_iff (find (codes "token") fs) c.token)

  token_test-false :
      (not (is_empty c.token) && not (field_is (find (codes "token") fs) c.token)) ≡ false
      → Authorizes c fs
  token_test-false h =
      ground (arith, is_empty_iff c.token, field_is_iff (find (codes "token") fs) c.token)

  start-Outcome :
      Commands fs
      → Targets c fs
      → Authorizes c fs
      → Outcome c now fs w (start_if_idle c now (parse_positive_duration fs) w)
  unfolding start_if_idle
  start-Outcome p t a = elim (Option-cases (parse_positive_duration {W = W} fs)) [
    | inl e ↦
        rw e (invalid_duration p t a (λ x l. none-ne-some x (sym e ∙ Lasts-duration fs x l)) refl)
    | inr (x, e) ↦ elim (Bool-cases (is_node_fault_busy w)) [
      | inl b ↦ rw (e, start_if_idle, b) (busy x p t a (duration-Lasts fs x e) b refl)
      | inr b ↦ rw (e, start_if_idle, b) (started x p t a (duration-Lasts fs x e) b refl)
    ]
  ]

-- A request has exactly the outcome that its fields, the configuration and the fault call for. A
-- fault starts only for the right command, target and token, a positive duration, and an idle node.
pub handle_control_request-Outcome :
    {W : Type 0} ⦃d : Double W⦄ (c : ControlServerConfig) (now : ℕ) (text : Bytes) (w : World W)
    → Outcome c now (parse_key_value_request text) w (handle_control_request c now text w)
unfolding handle_control_request
handle_control_request-Outcome c now text w =
    let fs = parse_key_value_request text in
    elim (Bool-cases (field_is (find (codes "command") fs) (codes "start_node_fault"))) [
      | inr e ↦ rw e (invalid_command (λ p. false≢true (sym e ∙ (field_is_iff _ _).1 p)) refl)
      | inl e ↦
          let p = (field_is_iff (find (codes "command") fs) (codes "start_node_fault")).0 e in
          elim (Bool-cases (field_differs (find (codes "target") fs) c.node_id)) [
            | inl f ↦ rw (e, f) (target_mismatch p (field_differs-true _ _ f) refl)
            | inr f ↦
                let t = field_differs-false (find (codes "target") fs) c.node_id f in
                elim (Bool-cases
                  (not (is_empty c.token) && not (field_is (find (codes "token") fs) c.token))) [
                    | inl g ↦ rw (e, f, g) (unauthorized p t (token_test-true c now fs w g) refl)
                    | inr g ↦
                        rw (e, f, g) (start-Outcome c now fs w p t (token_test-false c now fs w g))
                  ]
          ]
    ]
