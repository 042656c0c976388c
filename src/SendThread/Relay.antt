-- ===== src/SendThread/Relay.antt =====
-- What a run with no fault keeps of one limited topic, step by step.
pub mod Queued
pub mod Popped
pub mod Steps
use mathlib.Core.List.{Sublist, nil-sublist}
use mathlib.Core.List.Sublist
use mathlib.Core.Bool.{false≢true}
use swarm_ros_bridge.Common.{
  ℕ, ◌+◌, ◌≤◌, ◌<◌, Bool, true, false, some, List, [], ◌∷◌, ◌++◌, append-nil, append_assoc, arith,
  length, length-append, length-modify, get_or-modify_self, get_or-modify_ne, ◌≡◌, refl, sym, ap,
  ◌∙◌, subst, ◌==◌, ==_iff, Bool-cases, inl, inr, if◌then◌else◌, ◌≢◌,
}
use swarm_ros_bridge.Double.{Double}
use swarm_ros_bridge.Topic.{Message}
use swarm_ros_bridge.World.{
  World, SendControl, no_control, size_range, send_topic, control, is_limited, zmq_sent, published,
}
use swarm_ros_bridge.SendQueue.{max_queue_messages, max_queue_bytes, push, enqueue_send_message}
use swarm_ros_bridge.SendQueue.Bounds.{
  total, total-append, IsCounted, Fits, Pushed, queue_limit, enqueue_send_message-Pushed,
}
use swarm_ros_bridge.Replay.{send_serialized_message, publish_received_message_after_fault}
use swarm_ros_bridge.Replay.Log.{sent, sent_on-append}

-- A queue of one topic, `written` ahead of it, against all that was given.
pub record Line (room : ℕ) (given written queue : List Message) : Type 0 where
  -- in order, each at most once
  pub in_order : Sublist (written ++ queue) given
  -- nothing lost, if all of it has room in the queue at once
  pub whole : length given ≤ max_queue_messages → total given ≤ room → written ++ queue ≡ given

pub Line-take :
    (room : ℕ) (given written q : List Message) (m : Message)
    → Line room given written (m ∷ q)
    → Line room given (written ++ m ∷ []) q
Line-take room given written q m l = record {
  in_order = subst (λ (ms : List Message). Sublist ms given) (sym moved) l.in_order;
  whole = λ few small. moved ∙ l.whole few small;
}
  where
    moved : (written ++ m ∷ []) ++ q ≡ written ++ m ∷ q
    moved = append_assoc written (m ∷ []) q

-- A message that is pushed drops none before it, if all of them have room.
none_dropped :
    (limit : ℕ) (m : Message) (c c' : SendControl)
    → Pushed limit m c c'
    → Fits limit m.data_len c.queue
    → c'.queue ≡ c.queue ++ m ∷ []
none_dropped limit m c c' p f =
    p.now ∙ ap (λ (q : List Message). q ++ m ∷ []) (kept-all p.dropped p.was)
  where
    kept-all : (ds : List Message) → c.queue ≡ ds ++ p.kept → p.kept ≡ c.queue
    kept-all [] e = sym e
    kept-all (x ∷ ds) e =
        absurd (omega (arith, p.longest [] c.queue refl f, ap length e, length-append ds p.kept))

pub Line-push :
    (room limit : ℕ) (given written : List Message) (m : Message) (c c' : SendControl)
    → room ≤ limit
    → Pushed limit m c c'
    → Line room given written c.queue
    → Line room (given ++ m ∷ []) written c'.queue
Line-push room limit given written m c c' le p l = record {
  in_order =
      subst (λ (ms : List Message). Sublist ms (given ++ m ∷ []))
        (append_assoc written p.kept (m ∷ []) ∙ ap (λ (q : List Message). written ++ q) (sym p.now))
        (Sublist.append (Sublist.trans shorter l.in_order) (Sublist.refl (m ∷ [])));
  whole = λ few small.
      let few' : length given + 1 ≤ max_queue_messages =
        omega (arith, few, length-append given (m ∷ [])) in
      let small' : total given + m.data_len ≤ room =
        omega (arith, small, total-append given (m ∷ [])) in
      let before = l.whole (omega (arith, few')) (omega (arith, small')) in
      let fits : Fits limit m.data_len c.queue = inr (
        omega (arith, few', ap length before, length-append written c.queue),
        omega (arith, small', le, ap total before, total-append written c.queue),
      ) in
      ap (λ (q : List Message). written ++ q) (none_dropped limit m c c' p fits)
      ∙ sym (append_assoc written c.queue (m ∷ []))
      ∙ ap (λ (ms : List Message). ms ++ m ∷ []) before;
}
  where
    shorter : Sublist (written ++ p.kept) (written ++ c.queue)
    shorter =
        subst (λ (q : List Message). Sublist (written ++ p.kept) (written ++ q)) (sym p.was)
          (Sublist.append (Sublist.refl written)
            (Sublist.append (nil-sublist p.dropped) (Sublist.refl p.kept)))
