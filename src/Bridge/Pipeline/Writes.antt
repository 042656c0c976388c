-- ===== src/Bridge/Pipeline/Writes.antt =====
-- A run of callbacks on an idle topic without a bitrate limit.
use swarm_ros_bridge.Common.{
  ℕ, Bool, true, false, some, List, [], ◌∷◌, ◌++◌, map, append-nil, append_assoc, ◌≡◌, refl, sym,
  ap, ◌∙◌, ==_iff, if◌then◌else◌, Bool-cases, inl, inr,
}
use swarm_ros_bridge.Double.{Double}
use swarm_ros_bridge.Topic.{Message}
use swarm_ros_bridge.World.{World, send_topic, is_limited, zmq_sent}
use swarm_ros_bridge.Replay.{send_serialized_message}
use swarm_ros_bridge.Replay.Log.{sent, sent_on-append}
use swarm_ros_bridge.Dispatch.Resume.{send-idle, flush-idle}
use swarm_ros_bridge.Bridge.Frequency.{Period, send_freq_control}
use swarm_ros_bridge.Bridge.Callbacks.{Serializer, IsSerializer, sub_cb, send_message}
use swarm_ros_bridge.Bridge.Pipeline.{Publish, run_sub_cb, passed}

-- The message that carries a value.
abbrev pub carrier : {T : Type 0} (s : Serializer T) → IsSerializer s → T → Message
carrier s law x = record { data_len = s.serialization_length x; payload = law.bytes_of x }

module _ {W : Type 0} ⦃d : Double W⦄ (i : ℕ) where
  -- No fault, no replay, no bitrate limit.
  pub record IsFree (w : World W) : Type 0 where
    pub inactive : w.fault.active ≡ false
    pub steady : w.fault.recovering ≡ false
    pub free : is_limited w i ≡ false

  -- What a run has done since `w`.
  pub record Wrote (w : World W) (ms : List Message) (u : World W) : Type 0 where
    pub left : IsFree u
    pub topics : u.send_topics ≡ w.send_topics
    pub sent_all : sent i u ≡ sent i w ++ ms

  sent-one :
      (m : Message) (w : World W) → sent i (send_serialized_message i m w) ≡ sent i w ++ m ∷ []
  unfolding send_serialized_message
  sent-one m w =
      sent_on-append i w.events (zmq_sent i m ∷ [])
      ∙ ap (λ (b : Bool). sent i w ++ (if b then m ∷ [] else [])) ((==_iff i i).1 refl)

  send-IsFree : (m : Message) (w : World W) → IsFree w → IsFree (send_serialized_message i m w)
  unfolding send_serialized_message
  send-IsFree m w f = record { inactive = f.inactive; steady = f.steady; free = f.free }

module _ {W C T : Type 0} ⦃d : Double W⦄ (since : C → C → W) (s : Serializer T)
    (law : IsSerializer s) (i : ℕ) where
  sub_cb-passes :
      (x : Publish C T) (p : Period C) (w : World W)
      → IsFree i w
      → (send_freq_control since (send_topic w i).max_freq x.now p).0 ≡ false
      → sub_cb since s i x.value x.now x.t₁ x.t₂ x.t₃ x.t₄ p w
        ≡ some (
          (send_freq_control since (send_topic w i).max_freq x.now p).1,
          send_serialized_message i (carrier s law x.value) w,
        )
  unfolding sub_cb send_message
  sub_cb-passes x p w f pass = rw (
    pass,
    law.fits x.value,
    send-idle i (carrier s law x.value) x.t₁ x.t₂ x.t₃ x.t₄ w w (flush-idle x.t₁ w f.inactive)
        f.inactive f.steady f.free,
  )

  sub_cb-discards :
      (x : Publish C T) (p : Period C) (w : World W)
      → (send_freq_control since (send_topic w i).max_freq x.now p).0 ≡ true
      → sub_cb since s i x.value x.now x.t₁ x.t₂ x.t₃ x.t₄ p w
        ≡ some ((send_freq_control since (send_topic w i).max_freq x.now p).1, w)
  unfolding sub_cb
  sub_cb-discards x p w pass = rw pass

  -- The run returns, and writes the carriers of what passes, in order.
  pub run_sub_cb-Wrote :
      (xs : List (Publish C T)) (p : Period C) (w : World W)
      → IsFree i w
      → (p' : Period C) × (u : World W) × (run_sub_cb since s i xs p w ≡ some (p', u))
        × Wrote i w (map (carrier s law) (passed since (send_topic w i).max_freq xs p)) u
  unfolding run_sub_cb passed send_serialized_message
  run_sub_cb-Wrote [] p w f =
      (p, w, refl, record { left = f; topics = refl; sent_all = sym (append-nil _) })
  run_sub_cb-Wrote (x ∷ xs) p w f =
      elim (Bool-cases (send_freq_control since (send_topic w i).max_freq x.now p).0) [
        | inl e ↦
            let p₁ = (send_freq_control since (send_topic w i).max_freq x.now p).1 in
            let (p', u, ran, r) = run_sub_cb-Wrote xs p₁ w f in
            rw (sub_cb-discards x p w e, e) (p', u, ran, r)
        | inr e ↦
            let p₁ = (send_freq_control since (send_topic w i).max_freq x.now p).1 in
            let m = carrier s law x.value in
            let more : Period C → List Message =
              λ q. map (carrier s law) (passed since (send_topic w i).max_freq xs q) in
            let v = send_serialized_message i m w in
            let (p', u, ran, r) = run_sub_cb-Wrote xs p₁ v (send-IsFree i m w f) in
            rw (sub_cb-passes x p w f e, e)
              (
                p',
                u,
                ran,
                record {
                  left = r.left;
                  topics = r.topics;
                  sent_all =
                      r.sent_all
                      ∙ ap (λ (l : List Message). l ++ more p₁) (sent-one i m w)
                      ∙ append_assoc (sent i w) (m ∷ []) (more p₁);
                },
              )
      ]
