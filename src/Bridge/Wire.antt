-- ===== src/Bridge/Wire.antt =====
-- A message on the wire: `send_serialized_message` of src/sim_comm.cpp writes two frames, and
-- `recv_func` of src/bridge_node.cpp reads them. How ZMQ packs a number into a frame is its own.
use swarm_ros_bridge.Common.{
  ℕ, zero, suc, ◌<◌, Bytes, codes, Bool, true, false, Option, none, some, List, [], ◌∷◌, ◌++◌, ◌⊎◌,
  length, if◌then◌else◌, ◌>>=◌, ◌≡◌, refl, sym, subst, bytes_eq, ◌==◌,
}
use mathlib.Core.Bool.{xor}
use mathlib.Core.Option
use swarm_ros_bridge.Double.{Double}
use swarm_ros_bridge.Topic.{Message, IsMessage}
use swarm_ros_bridge.World.{World, size_range}
use swarm_ros_bridge.Dispatch.{dispatch_received_message}

-- Reading `n` bytes at a pointer: `none` is a read past the end, which the language leaves undefined.
unfoldable pub read_bytes : ℕ → Bytes → Option Bytes
read_bytes zero s = some []
read_bytes (suc n) [] = none
read_bytes (suc n) (c ∷ s) = do rest ← read_bytes n s; some (c ∷ rest)

-- zmqpp's `<<` and `>>` on a `size_t`.
pub record Packing : Type 0 where
  pub pack : ℕ → Bytes
  pub unpack : Bytes → Option ℕ

-- What is read is what was written.
pub record IsPacking (z : Packing) : Type 0 where
  pub unpack-pack : (n : ℕ) → n < size_range → z.unpack (z.pack n) ≡ some n

-- What becomes of a message that arrives: the node gets it; `>>` throws, on a first frame that is no
-- number or is not there; there is no second frame to copy from; or the copy reads past the end of
-- that frame.
pub data Reading : Type 0 where
  got : Message → Reading
  throws : Reading
  lacks_frame : Reading
  reads_past : Reading

abbrev pub message_of : Reading → Option Message
message_of (got m) = some m
message_of throws = none
message_of lacks_frame = none
message_of reads_past = none

abbrev copied : ℕ → Option Bytes → Reading
copied data_len none = reads_past
copied data_len (some bytes) = got (record { data_len = data_len; payload = bytes })

-- With the length that `>>` reads, from the frames behind the first.
unfoldable pub read_body : Option ℕ → List Bytes → Reading
unfolding read_bytes
read_body none rest = throws
read_body (some data_len) [] = lacks_frame
read_body (some data_len) (body ∷ rest) = copied data_len (read_bytes data_len body)

-- A copy of `n` bytes of `s` comes to lie past the end, or gives its first `n` bytes.
abbrev Copy : ℕ → Bytes → Type 0
Copy n s =
    ((length s < n) × (read_bytes n s ≡ none))
    ⊎ ((bytes left : Bytes) × (read_bytes n s ≡ some bytes)
        × (length bytes ≡ n)
        × (s ≡ bytes ++ left))

module _ (z : Packing) where
  unfoldable pub message_frames : Message → Option (List Bytes)
  unfolding read_bytes
  message_frames m = do body ← read_bytes m.data_len m.payload; some (z.pack m.data_len ∷ body ∷ [])

  -- The length is taken from the first frame, and that many bytes are copied from the second.
  unfoldable pub receive_message : List Bytes → Reading
  unfolding read_bytes
  receive_message [] = throws
  receive_message (head ∷ rest) = read_body (z.unpack head) rest

  read_bytes-all : (s : Bytes) → read_bytes (length s) s ≡ some s
  unfolding read_bytes
  read_bytes-all [] = refl
  read_bytes-all (c ∷ s) = rw (read_bytes-all s)

  pub read-whole : (m : Message) → IsMessage m → read_bytes m.data_len m.payload ≡ some m.payload
  read-whole m e =
      subst (λ (n : ℕ). read_bytes n m.payload ≡ some m.payload) (sym e) (read_bytes-all m.payload)

  -- A message whose announced length is that of its payload and fits a size_t is received from its
  -- two frames as it was sent, if the packing reads back what it writes.
  pub receive_message-frames :
      (p : IsPacking z) (m : Message)
      → IsMessage m
      → m.data_len < size_range
      → (do frames ← message_frames m; message_of (receive_message frames)) ≡ some m
  unfolding message_frames receive_message read_body
  receive_message-frames p m e h = rw (read-whole m e, p.unpack-pack m.data_len h, read-whole m e)

abbrev pub is_some {ℓ} : {A : Type ℓ} → Option A → Bool
is_some none = false
is_some (some a) = true

-- recv_thread_flags[i] and recv_flags_last[i].
pub record Receiver : Type 0 where
  pub thread_flag : Bool
  pub flag_last : Bool

-- The topic's name with the namespace before it, unless it is global; `at(0)` throws on no name.
unfoldable pub display_name : Bytes → Bytes → Option Bytes
display_name ns [] = none
display_name ns (c ∷ name) = some (
    if c == b'/'
    then c ∷ name
    else if bytes_eq ns (codes "/")
    then b'/' ∷ c ∷ name
    else ns ++ b'/' ∷ c ∷ name)

module _ (ns : Bytes) (topic_name : Bytes) where
  -- The name to report, if the receive state has changed.
  unfoldable pub report : Bool → Receiver → Option (Option Bytes)
  unfolding display_name
  report recv_flag r =
      if xor recv_flag r.flag_last then Option.map some (display_name ns topic_name) else some none

module _ {W : Type 0} ⦃d : Double W⦄ (z : Packing) (ns : Bytes) (topic_name : Bytes) where
  -- Hands over what was received; a receive that fails hands over nothing.
  unfoldable pub deliver : ℕ → ℕ → ℕ → Option (List Bytes) → World W → Option (World W)
  unfolding receive_message
  deliver i t₁ t₂ none w = some w
  deliver i t₁ t₂ (some frames) w = do
    m ← message_of (receive_message z frames)
    dispatch_received_message i m t₁ t₂ w

  -- One round of `recv_func` after its blocking receive: what it reports, and the state after it.
  unfoldable pub recv_func :
      ℕ
      → ℕ
      → ℕ
      → Option (List Bytes)
      → Receiver
      → World W
      → Option (Option Bytes × Receiver × World W)
  unfolding report deliver
  recv_func i t₁ t₂ received r w = do
    v ← deliver i t₁ t₂ received w
    name ← report ns topic_name (is_some received) r
    some (name, record r { flag_last = is_some received }, v)
