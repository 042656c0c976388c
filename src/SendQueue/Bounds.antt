-- ===== src/SendQueue/Bounds.antt =====
-- What the bounded queue keeps: how much, which messages, and an exact count of their bytes.
use swarm_ros_bridge.Common.{
  ℕ, true, false, Bool, subst, sym, ap, ◌+◌, ◌≤◌, ◌<◌, List, [], ◌∷◌, ◌++◌, ◌≡◌, ◌⊎◌, inl, inr,
  refl, arith, ltb, leb, Bool-cases, ◌||◌, length, length-append, ◌≢◌, get_or-modify_self,
  get_or-modify_ne,
}
use swarm_ros_bridge.Topic.{Message}
use swarm_ros_bridge.World.{World, SendControl, no_control, size_range, control, send_topic}
use swarm_ros_bridge.Double.{Double}
use swarm_ros_bridge.SendQueue.{
  max_queue_messages, add_size, sub_size, evict, push, max_queue_bytes, enqueue_send_message,
}

-- The payload bytes in a queue.
abbrev pub total : List Message → ℕ
total [] = 0
total (m ∷ q) = m.data_len + total q

pub total-append : (p q : List Message) → total (p ++ q) ≡ total p + total q
total-append [] q = omega arith
total-append (m ∷ p) q = omega (arith, total-append p q)

-- The counter is the sum of the lengths, and the queue is within its message limit.
pub record IsCounted (c : SendControl) : Type 0 where
  pub counted : c.queue_bytes ≡ total c.queue
  pub short : length c.queue ≤ max_queue_messages

-- A queue that leaves room for a message of `len` bytes, or no queue at all.
abbrev pub Fits : ℕ → ℕ → List Message → Type 0
Fits limit len q = (q ≡ []) ⊎ ((length q < max_queue_messages) × (total q + len ≤ limit))

-- What the loop leaves: the longest suffix that fits, with its exact byte count.
pub record Evicted (limit len : ℕ) (q : List Message) (r : List Message × ℕ) : Type 0 where
  pub dropped : List Message
  pub is_suffix : q ≡ dropped ++ r.0
  pub counted : r.1 ≡ total r.0
  pub fits : Fits limit len r.0
  pub longest : (p s : List Message) → q ≡ p ++ s → Fits limit len s → length s ≤ length r.0

full : ℕ → ℕ → List Message → ℕ → Bool
full limit len q bytes = leb max_queue_messages (length q) || ltb limit (add_size bytes len)

suffix-le : (q p s : List Message) → q ≡ p ++ s → length s ≤ length q
suffix-le q p s e = rw e (omega (arith, length-append p s))

kept-Evicted :
    (limit len : ℕ) (q : List Message) → Fits limit len q → Evicted limit len q (q, total q)
kept-Evicted limit len q f = record {
  dropped = [];
  is_suffix = refl;
  counted = refl;
  fits = f;
  longest = λ p s e _. suffix-le q p s e;
}

-- A queue over the limits is not among the suffixes that fit.
dropped-longest :
    (limit len : ℕ) (m : Message) (q r : List Message)
    → ¬ Fits limit len (m ∷ q)
    → ((p s : List Message) → q ≡ p ++ s → Fits limit len s → length s ≤ length r)
    → (p s : List Message) → m ∷ q ≡ p ++ s
    → Fits limit len s
    → length s ≤ length r
dropped-longest limit len m q r over ih [] s e f = absurd (over (subst (Fits limit len) (sym e) f))
dropped-longest limit len m q r over ih (x ∷ p) s e f = ih p s (cc) f

dropped-Evicted :
    (limit len : ℕ) (m : Message) (q : List Message) (r : List Message × ℕ)
    → ¬ Fits limit len (m ∷ q)
    → Evicted limit len q r
    → Evicted limit len (m ∷ q) r
dropped-Evicted limit len m q r over v = record {
  dropped = m ∷ v.dropped;
  is_suffix = ap (◌∷◌ m) v.is_suffix;
  counted = v.counted;
  fits = v.fits;
  longest = dropped-longest limit len m q r.0 over v.longest;
}

module _ (limit len : ℕ) (m : Message) (q : List Message)
    (h : total (m ∷ q) + len < size_range) where
  full-not-Fits : full limit len (m ∷ q) (total (m ∷ q)) ≡ true → ¬ Fits limit len (m ∷ q)
  unfolding full
  full-not-Fits e (inl f) = cc
  full-not-Fits e (inr f) = ground arith

  Fits-not-full : full limit len (m ∷ q) (total (m ∷ q)) ≡ false → Fits limit len (m ∷ q)
  unfolding full
  Fits-not-full e = inr (ground arith)

  total-tail : sub_size (total (m ∷ q)) m.data_len ≡ total q
  total-tail = omega arith

-- The loop stops at the longest suffix that fits, whatever the sizes, while the sum does not wrap.
pub evict-Evicted :
    (limit len : ℕ) (q : List Message)
    → total q + len < size_range
    → Evicted limit len q (evict limit len q (total q))
unfolding evict full
evict-Evicted limit len [] h = kept-Evicted limit len [] (inl refl)
evict-Evicted limit len (m ∷ q) h = elim (Bool-cases (full limit len (m ∷ q) (total (m ∷ q)))) [
  | inl e ↦
      rw (e, total-tail limit len m q h)
        (dropped-Evicted limit len m q _ (full-not-Fits limit len m q h e)
          (evict-Evicted limit len q (omega arith)))
  | inr e ↦ rw e (kept-Evicted limit len (m ∷ q) (Fits-not-full limit len m q h e))
]

-- What `enqueue_send_message` makes of one queue: the new message last, behind the longest run of
-- the most recent messages that leaves room for it.
pub record Pushed (limit : ℕ) (m : Message) (c c' : SendControl) : Type 0 where
  pub dropped : List Message
  pub kept : List Message
  pub was : c.queue ≡ dropped ++ kept
  pub now : c'.queue ≡ kept ++ m ∷ []
  pub longest :
      (p s : List Message) → c.queue ≡ p ++ s → Fits limit m.data_len s → length s ≤ length kept
  pub counted : IsCounted c'
  pub within : total c'.queue ≤ limit
  pub thread_flag : c'.thread_flag ≡ c.thread_flag

pushed-counted :
    (limit : ℕ) (m : Message) (q : List Message) (bytes : ℕ)
    → bytes ≡ total q
    → Fits limit m.data_len q
    → m.data_len ≤ limit
    → limit < size_range
    → (add_size bytes m.data_len ≡ total (q ++ m ∷ []))
      × (length (q ++ m ∷ []) ≤ max_queue_messages)
      × (total (q ++ m ∷ []) ≤ limit)
pushed-counted limit m q bytes e (inl f) h k = rw f (omega (arith, ap total f))
pushed-counted limit m q bytes e (inr f) h k =
    omega (arith, total-append q (m ∷ []), length-append q (m ∷ []))

push-Pushed-of :
    (limit : ℕ) (m : Message) (c : SendControl) (r : List Message × ℕ)
    → m.data_len ≤ limit
    → limit < size_range
    → Evicted limit m.data_len c.queue r
    → Pushed limit m c (record c { queue = r.0 ++ m ∷ []; queue_bytes = add_size r.1 m.data_len })
push-Pushed-of limit m c r h k v = record {
  dropped = v.dropped;
  kept = r.0;
  was = v.is_suffix;
  now = refl;
  longest = v.longest;
  counted = record { counted = facts.0; short = facts.1 };
  within = facts.2;
  thread_flag = refl;
}
  where
    facts :
        (add_size r.1 m.data_len ≡ total (r.0 ++ m ∷ []))
        × (length (r.0 ++ m ∷ []) ≤ max_queue_messages)
        × (total (r.0 ++ m ∷ []) ≤ limit)
    facts = pushed-counted limit m r.0 r.1 v.counted v.fits h k

pub push-Pushed :
    (limit : ℕ) (m : Message) (c : SendControl)
    → IsCounted c
    → m.data_len ≤ limit
    → limit < size_range
    → total c.queue + m.data_len < size_range
    → Pushed limit m c (push limit m c)
unfolding push
push-Pushed limit m c v h k s =
    push-Pushed-of limit m c (evict limit m.data_len c.queue c.queue_bytes) h k (
      subst (λ b. Evicted limit m.data_len c.queue (evict limit m.data_len c.queue b))
        (sym v.counted) (evict-Evicted limit m.data_len c.queue s))

module _ {W : Type 0} ⦃d : Double W⦄ where
  pub len-le-max_queue_bytes : (b : W) (len : ℕ) → len ≤ max_queue_bytes b len
  unfolding max_queue_bytes
  len-le-max_queue_bytes b len = ground arith

  abbrev pub queue_limit : World W → ℕ → Message → ℕ
  queue_limit w i m = max_queue_bytes (send_topic w i).max_bitrate m.data_len

  -- Enqueuing keeps the topic's queue counted, at most 30 messages long and within its byte limit;
  -- the new message is last, behind the longest run of the most recent messages that leaves room
  -- for it. Another topic's queue does not change. The byte counts in play are below 2^64.
  pub enqueue_send_message-Pushed :
      (w : World W) (i j : ℕ) (m : Message)
      → i < length w.controls
      → i ≢ j
      → IsCounted (control w i)
      → queue_limit w i m < size_range
      → total (control w i).queue + m.data_len < size_range
      → Pushed (queue_limit w i m) m (control w i) (control (enqueue_send_message i m w) i)
        × (control (enqueue_send_message i m w) j ≡ control w j)
  unfolding enqueue_send_message
  enqueue_send_message-Pushed w i j m h n v k s = (
    rw (get_or-modify_self w.controls i (push (queue_limit w i m) m) no_control h) (
        push-Pushed (queue_limit w i m) m (control w i) v (len-le-max_queue_bytes _ m.data_len) k
          s),
    get_or-modify_ne w.controls i j (push (queue_limit w i m) m) no_control n,
  )
