-- ===== src/Replay/Log.antt =====
-- What a recovery shows on each topic: the retained messages, each once and in order.
use swarm_ros_bridge.Common.{
  ℕ, Bool, true, false, List, [], ◌∷◌, ◌++◌, append-nil, append_assoc, length, length-modify, arith,
  ◌≡◌, refl, sym, ap, ◌∙◌, ◌==◌, ==_iff, Bool-cases, inl, inr, if◌then◌else◌,
}
use mathlib.Core.Bool.{false≢true}
use swarm_ros_bridge.Double.{Double}
use swarm_ros_bridge.Topic.{Message}
use swarm_ros_bridge.World.{
  World, Event, zmq_sent, published, slept, log, sent_on, published_on, is_limited,
}
use swarm_ros_bridge.SendQueue.{enqueue_send_message}
use swarm_ros_bridge.Replay.{
  send_serialized_message, publish_received_message_after_fault, replay_send_message, pause, replay,
}

module _ {W : Type 0} where
  pub sent_on-append :
      (i : ℕ) (es fs : List (Event W)) → sent_on i (es ++ fs) ≡ sent_on i es ++ sent_on i fs
  sent_on-append i [] fs = refl
  sent_on-append i (zmq_sent j m ∷ es) fs = ground (arith, sent_on-append i es fs)
  sent_on-append i (published j m ∷ es) fs = sent_on-append i es fs
  sent_on-append i (slept t ∷ es) fs = sent_on-append i es fs

  pub published_on-append :
      (i : ℕ) (es fs : List (Event W))
      → published_on i (es ++ fs) ≡ published_on i es ++ published_on i fs
  published_on-append i [] fs = refl
  published_on-append i (published j m ∷ es) fs = ground (arith, published_on-append i es fs)
  published_on-append i (zmq_sent j m ∷ es) fs = published_on-append i es fs
  published_on-append i (slept t ∷ es) fs = published_on-append i es fs

  -- A world shows this on PUB socket `i`, and on ROS topic `i`.
  abbrev pub sent : ℕ → World W → List Message
  sent i w = sent_on i w.events

  abbrev pub shown : ℕ → World W → List Message
  shown i w = published_on i w.events

-- What replays leave alone.
pub record SameSetup {W : Type 0} (w v : World W) : Type 0 where
  pub send_topics : v.send_topics ≡ w.send_topics
  pub recv_topics : v.recv_topics ≡ w.recv_topics
  pub fault : v.fault ≡ w.fault
  pub controls : length v.controls ≡ length w.controls

module _ {W : Type 0} ⦃d : Double W⦄ where
  pub publish-shown :
      (j i : ℕ) (m : Message) (w : World W)
      → w.fault.publish_callback ≡ true
      → shown j (publish_received_message_after_fault i m w)
        ≡ shown j w ++ (if i == j then m ∷ [] else [])
  unfolding publish_received_message_after_fault
  publish-shown j i m w c = rw c (published_on-append j w.events (published i m ∷ []))

  pub SameSetup-refl : (w : World W) → SameSetup w w
  SameSetup-refl w = record {
    send_topics = refl;
    recv_topics = refl;
    fault = refl;
    controls = refl;
  }

  pub slept-SameSetup : (w₀ w : World W) (t : W) → SameSetup w₀ w → SameSetup w₀ (log (slept t) w)
  slept-SameSetup w₀ w t s = record {
    send_topics = s.send_topics;
    recv_topics = s.recv_topics;
    fault = s.fault;
    controls = s.controls;
  }

  pub publish-SameSetup :
      (w₀ w : World W) (i : ℕ) (m : Message)
      → SameSetup w₀ w
      → SameSetup w₀ (publish_received_message_after_fault i m w)
  unfolding publish_received_message_after_fault
  publish-SameSetup w₀ w i m s = ground arith

  pub replay_send-SameSetup :
      (w₀ w : World W) (i : ℕ) (m : Message)
      → SameSetup w₀ w
      → SameSetup w₀ (replay_send_message i m w)
  unfolding replay_send_message enqueue_send_message
  replay_send-SameSetup w₀ w i m s = elim (Bool-cases (is_limited w i)) [
    | inl e ↦ rw e (record {
      send_topics = s.send_topics;
      recv_topics = s.recv_topics;
      fault = s.fault;
      controls = length-modify w.controls i _ ∙ s.controls;
    })
    | inr e ↦ rw e (record {
      send_topics = s.send_topics;
      recv_topics = s.recv_topics;
      fault = s.fault;
      controls = s.controls;
    })
  ]

  ne-of_limited :
      (w : World W) (i j : ℕ) → is_limited w i ≡ true → is_limited w j ≡ false → (i == j) ≡ false
  ne-of_limited w i j p q = elim (Bool-cases (i == j)) [
    | inl e ↦ absurd (false≢true (sym q ∙ ap (is_limited w) (sym ((==_iff i j).0 e)) ∙ p))
    | inr e ↦ e
  ]

  pub replay_send-sent :
      (j i : ℕ) (m : Message) (w : World W)
      → is_limited w j ≡ false
      → sent j (replay_send_message i m w) ≡ sent j w ++ (if i == j then m ∷ [] else [])
  unfolding replay_send_message send_serialized_message enqueue_send_message
  replay_send-sent j i m w c = elim (Bool-cases (is_limited w i)) [
    | inl e ↦ rw e (rw (ne-of_limited w i j e c) (sym (append-nil (sent j w))))
    | inr e ↦ rw e (sent_on-append j w.events (zmq_sent i m ∷ []))
  ]

pub if-append {ℓ} :
    {A : Type ℓ} (b : Bool) (xs : List A) (a : A) (as' : List A)
    → (xs ++ (if b then a ∷ [] else [])) ++ (if b then as' else [])
      ≡ xs ++ (if b then a ∷ as' else [])
if-append true xs a as' = append_assoc xs (a ∷ []) as'
if-append false xs a as' = append-nil (xs ++ [])

if-nil {ℓ} : {A : Type ℓ} (b : Bool) (xs : List A) → xs ≡ xs ++ (if b then [] else [])
if-nil true xs = sym (append-nil xs)
if-nil false xs = sym (append-nil xs)

-- One topic's loop, seen through an observation that pauses do not change.
module _ {W : Type 0} ⦃d : Double W⦄ (obs : World W → List Message) (C : World W → Type 0)
    (b : Bool) (release : Message → World W → World W)
    (released : (m : Message) (w : World W)
      → C w
      → (obs (release m w) ≡ obs w ++ (if b then m ∷ [] else [])) × C (release m w))
    (paused : (t : W) (w : World W)
      → C w
      → (obs (log (slept t) w) ≡ obs w) × C (log (slept t) w)) where
  pause-obs :
      (is_first : Bool) (t : W) (w : World W)
      → C w
      → (obs (pause is_first t w) ≡ obs w) × C (pause is_first t w)
  unfolding pause
  pause-obs true t w c = (refl, c)
  pause-obs false t w c = paused t w c

  pub replay-obs :
      (t : W) (is_first : Bool) (ms : List Message) (w : World W)
      → C w
      → (obs (replay release t is_first ms w) ≡ obs w ++ (if b then ms else []))
        × C (replay release t is_first ms w)
  unfolding replay
  replay-obs t is_first [] w c = (if-nil b (obs w), c)
  replay-obs t is_first (m ∷ ms) w c =
      let w₁ = pause is_first t w in
      let p = pause-obs is_first t w c in
      let r = released m w₁ p.1 in
      let ih = replay-obs t false ms (release m w₁) r.1 in
      (
        ih.0
            ∙ ap (λ (l : List Message). l ++ (if b then ms else []))
                (r.0 ∙ ap (λ (l : List Message). l ++ (if b then m ∷ [] else [])) p.0)
            ∙ if-append b (obs w) m ms,
        ih.1,
      )
