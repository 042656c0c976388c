-- ===== src/Bridge/Pipeline/Reads.antt =====
-- A run of the receive loop on a node with no fault.
use mathlib.Core.Bool.{xor}
use swarm_ros_bridge.Common.{
  ℕ, ◌<◌, Bytes, Bool, true, false, Option, none, some, List, [], ◌∷◌, ◌++◌, map, append-nil,
  append_assoc, ◌≡◌, refl, sym, ap, ◌∙◌, ==_iff, if◌then◌else◌, Option-cases, inl, inr, All, arith,
}
use swarm_ros_bridge.Double.{Double}
use swarm_ros_bridge.Topic.{Message, IsMessage}
use swarm_ros_bridge.World.{World, size_range}
use swarm_ros_bridge.Replay.{publish_received_message_after_fault}
use swarm_ros_bridge.Replay.Log.{shown, publish-shown}
use swarm_ros_bridge.Dispatch.Resume.{receive-idle, flush-idle}
use swarm_ros_bridge.Bridge.Wire.{
  Packing, IsPacking, message_frames, receive_message, message_of, read_body, read-whole, Receiver,
  display_name, report, deliver, recv_func,
}
use swarm_ros_bridge.Bridge.Pipeline.{Receive, with_frames, received, all_frames, run_recv}

-- A message whose announced length is its own and fits a size_t.
abbrev pub IsSendable : Message → Type 0
IsSendable m = IsMessage m × (m.data_len < size_range)

-- With no fault, no replay, and a callback to publish.
pub record IsListening {W : Type 0} (w : World W) : Type 0 where
  pub inactive : w.fault.active ≡ false
  pub steady : w.fault.recovering ≡ false
  pub callback : w.fault.publish_callback ≡ true

if-some {ℓ} :
    {A : Type ℓ} (b : Bool) (x y : A) → (a : A) × ((if b then some x else some y) ≡ some a)
if-some true x y = (x, refl)
if-some false x y = (y, refl)

report-total :
    (ns : Bytes) (c : ℕ) (name : Bytes) (b : Bool) (r : Receiver)
    → (n : Option Bytes) × (report ns (c ∷ name) b r ≡ some n)
unfolding report display_name
report-total ns c name b r = if-some (xor b r.flag_last) _ none

if-IsListening :
    {W : Type 0} (f : Bool) (v w : World W)
    → IsListening v
    → IsListening w
    → IsListening (if f then v else w)
if-IsListening true v w l k = l
if-IsListening false v w l k = k

module _ (z : Packing) (packs : IsPacking z) where
  abbrev pub frames_of : Message → List Bytes
  frames_of m = z.pack m.data_len ∷ m.payload ∷ []

  message_frames-whole : (m : Message) → IsMessage m → message_frames z m ≡ some (frames_of m)
  unfolding message_frames
  message_frames-whole m e = rw (read-whole z m e)

  pub all_frames-map :
      (ms : List Message) → All IsSendable ms → all_frames z ms ≡ some (map frames_of ms)
  unfolding all_frames
  all_frames-map [] h = refl
  all_frames-map (m ∷ ms) h = rw (message_frames-whole m h.0.0, all_frames-map ms h.1)

  receive_message-whole :
      (m : Message) → IsSendable m → message_of (receive_message z (frames_of m)) ≡ some m
  unfolding receive_message read_body
  receive_message-whole m h = rw (packs.unpack-pack m.data_len h.1, read-whole z m h.0)

  module _ {W : Type 0} ⦃d : Double W⦄ (ns : Bytes) (c : ℕ) (name : Bytes) (k : ℕ) where
    publish-IsListening :
        (m : Message) (w : World W)
        → IsListening w
        → IsListening (publish_received_message_after_fault k m w)
    unfolding publish_received_message_after_fault
    publish-IsListening m w l =
        if-IsListening w.fault.publish_callback _ w
          (record { inactive = l.inactive; steady = l.steady; callback = l.callback }) l

    publish-topics :
        (m : Message) (w : World W)
        → (publish_received_message_after_fault k m w).recv_topics ≡ w.recv_topics
    unfolding publish_received_message_after_fault
    publish-topics m w = ground arith

    recv_func-delivers :
        (t₁ t₂ : ℕ) (m : Message) (r : Receiver) (w : World W)
        → IsSendable m
        → IsListening w
        → (n : Option Bytes) × (r' : Receiver) × (recv_func z ns
              (c ∷ name)
              k
              t₁
              t₂
              (some (frames_of m))
              r
              w
            ≡ some (n, r', publish_received_message_after_fault k m w))
    unfolding recv_func deliver
    recv_func-delivers t₁ t₂ m r w h l =
        let (n, e) = report-total ns c name true r in
        (
          n,
          record r { flag_last = true },
          rw
              (
                receive_message-whole m h,
                receive-idle k m t₁ t₂ w w (flush-idle t₁ w l.inactive) l.inactive l.steady,
                e,
              )
              refl,
        )

    recv_func-fails :
        (t₁ t₂ : ℕ) (r : Receiver) (w : World W)
        → (n : Option Bytes) × (r' : Receiver) × (recv_func z ns (c ∷ name) k t₁ t₂ none r w
            ≡ some (n, r', w))
    unfolding recv_func deliver
    recv_func-fails t₁ t₂ r w =
        let (n, e) = report-total ns c name false r in
        (n, record r { flag_last = false }, rw e refl)

    -- The run returns, and shows these messages.
    abbrev pub Shows : List Receive → List Message → Receiver → World W → Type 0
    Shows xs ms r w =
        (r' : Receiver) × (u : World W) × (run_recv z ns (c ∷ name) k xs r w ≡ some (r', u))
        × (shown k u ≡ shown k w ++ ms)
        × (u.recv_topics ≡ w.recv_topics)

    -- A receive that succeeds, before a run.
    run_recv-got :
        (x : Receive) (xs : List Receive) (fs : List Bytes) (ms : List Message) (r : Receiver)
        (w : World W)
        → All IsSendable ms
        → IsListening w
        → x.frames ≡ some fs
        → fs ∷ received xs ≡ map frames_of ms
        → ((ms' : List Message) (r' : Receiver) (v : World W)
            → All IsSendable ms'
            → IsListening v
            → received xs ≡ map frames_of ms'
            → Shows xs ms' r' v)
        → Shows (x ∷ xs) ms r w
    unfolding run_recv
    run_recv-got x xs fs [] r w h l got e rest = cc
    run_recv-got x xs fs (m ∷ ms) r w h l got e rest =
        let (n, r₁, one) = recv_func-delivers x.t₁ x.t₂ m r w h.0 l in
        let v = publish_received_message_after_fault k m w in
        let (r', u, ran, all, same_topics) = rest ms r₁ v h.1 (publish-IsListening m w l) (cc) in
        let same : x.frames ≡ some (frames_of m) = cc in
        (
          r',
          u,
          rw (same, one) ran,
          all
              ∙ ap (λ (p : List Message). p ++ ms) (publish-shown k k m w l.callback)
              ∙ ap (λ (b : Bool). (shown k w ++ (if b then m ∷ [] else [])) ++ ms)
                  ((==_iff k k).1 refl)
              ∙ append_assoc (shown k w) (m ∷ []) ms,
          same_topics ∙ publish-topics m w,
        )

    -- The run shows the messages whose frames it got, in order.
    pub run_recv-Shows :
        (xs : List Receive) (ms : List Message) (r : Receiver) (w : World W)
        → All IsSendable ms
        → IsListening w
        → received xs ≡ map frames_of ms
        → Shows xs ms r w
    unfolding run_recv
    run_recv-Shows [] [] r w h l e = (r, w, refl, sym (append-nil _), refl)
    run_recv-Shows [] (m ∷ ms) r w h l e = cc
    run_recv-Shows (x ∷ xs) ms r w h l e = elim (Option-cases x.frames) [
      | inl lost ↦
          let (n, r₁, one) = recv_func-fails x.t₁ x.t₂ r w in
          let (r', u, ran, all, same_topics) =
            run_recv-Shows xs ms r₁ w h l
              (ap (λ (o : Option (List Bytes)). with_frames o (received xs)) (sym lost) ∙ e) in
          (r', u, rw (lost, one) ran, all, same_topics)
      | inr (fs, got) ↦
          run_recv-got x xs fs ms r w h l got
            (ap (λ (o : Option (List Bytes)). with_frames o (received xs)) (sym got) ∙ e)
            (run_recv-Shows xs)
    ]
