-- ===== src/Control/Server.antt =====
-- The server around the handler: its endpoint, its loop, its start and its stop.
use swarm_ros_bridge.Common.{
  ℕ, pos, Bytes, codes, Bool, true, false, ◌||◌, Option, none, some, List, [], ◌∷◌, ◌++◌, leb_ℤ,
  ltb_ℤ, if◌then◌else◌, length, ◌≡◌, ◌+◌, refl, not, arith,
}
use swarm_ros_bridge.Double.{Double}
use swarm_ros_bridge.World.{World}
use swarm_ros_bridge.Monitor.{Look, look}
use swarm_ros_bridge.Control.{ControlServerConfig, build_response, handle_control_request}

-- What a non-blocking receive gives: nothing, a text, or a message that `>>` throws on.
pub data Incoming : Type 0 where
  nothing : Incoming
  text : Bytes → Incoming
  malformed : Incoming

-- What happens next: a round of the loop at a reading of the clock, or a look of another thread for
-- the end of a fault, with the recovery if it has ended.
pub data Turn : Type 0 where
  arrives : ℕ → Incoming → Turn
  elsewhere : Look → Turn

-- The reply of a round, if there is one.
abbrev pub reply_list : Option Bytes → List Bytes
reply_list none = []
reply_list (some r) = r ∷ []

module _ {W : Type 0} ⦃d : Double W⦄ (config : ControlServerConfig) where
  -- One round of the loop, and its reply. With nothing to receive it sleeps.
  unfoldable pub control_round : ℕ → Incoming → World W → Option Bytes × World W
  control_round now nothing w = (none, w)
  control_round now (text request) w =
      let (response, w') = handle_control_request config now request w in (some response, w')
  control_round now malformed w =
      (some (build_response false config.node_id (codes "error") (codes "invalid_request")), w)

  -- The loop while the flag is up, over what arrives and when, with what the other threads do to the
  -- state between two of its rounds; the replies in the order sent.
  unfoldable pub control_loop : List Turn → World W → List Bytes × World W
  unfolding control_round look
  control_loop [] w = ([], w)
  control_loop (arrives now m ∷ ts) w =
      let (r, v) = control_round now m w in
      let (rs, u) = control_loop ts v in (reply_list r ++ rs, u)
  control_loop (elsewhere l ∷ ts) w = control_loop ts (look l w)

-- control_thread_running, whether control_thread is joinable, and active_config.
pub record ControlServer : Type 0 where
  pub running : Bool
  pub joinable : Bool
  pub active_config : ControlServerConfig

-- `binds` is the outcome of the new thread's bind, which is waited for.
unfoldable pub start_control_server :
    ControlServerConfig → Bool → ControlServer → Bool × ControlServer
start_control_server config binds s =
    if not config.enabled
    then (true, s)
    else if s.running
    then (true, s)
    else if leb_ℤ config.bind_port (pos 0) || ltb_ℤ (pos 65535) config.bind_port
    then (false, s)
    else if not binds
    then (false, record { running = false; joinable = false; active_config = config })
    else (true, record { running = true; joinable = true; active_config = config })

unfoldable pub stop_control_server : ControlServer → ControlServer
stop_control_server s = if not s.running then s else record s { running = false; joinable = false }

-- The requests among what arrives.
abbrev pub is_request : Incoming → ℕ
is_request nothing = 0
is_request (text t) = 1
is_request malformed = 1

abbrev pub requests : List Turn → ℕ
requests [] = 0
requests (arrives now m ∷ ts) = is_request m + requests ts
requests (elsewhere l ∷ ts) = requests ts

-- The thread can be joined exactly while the flag is up, so that a stop leaves no thread behind.
abbrev pub IsSound : ControlServer → Type 0
IsSound s = s.joinable ≡ s.running

-- From a server whose thread is joinable exactly while its flag is up, a start leaves it so, and
-- reports success exactly if the server is not enabled or runs; a stop leaves the flag down and
-- nothing to join.
pub start_stop-IsSound :
    (config : ControlServerConfig) (binds : Bool) (s : ControlServer)
    → IsSound s
    → IsSound (start_control_server config binds s).1
      × ((start_control_server config binds s).0
          ≡ (not config.enabled || (start_control_server config binds s).1.running))
      × (stop_control_server s).running ≡ false
      × (stop_control_server s).joinable ≡ false
unfolding start_control_server stop_control_server
start_stop-IsSound config binds s h = ground arith

module _ {W : Type 0} ⦃d : Double W⦄ (config : ControlServerConfig) where
  -- Over any turns the server sends one reply for each request, malformed ones included, and no
  -- other.
  pub length-control_loop :
      (ts : List Turn) (w : World W) → length (control_loop config ts w).0 ≡ requests ts
  unfolding control_loop
  length-control_loop [] w = refl
  length-control_loop (arrives now nothing ∷ ts) w = omega (arith, length-control_loop ts w)
  length-control_loop (arrives now (text t) ∷ ts) w =
      omega (arith, length-control_loop ts (handle_control_request config now t w).1)
  length-control_loop (arrives now malformed ∷ ts) w = omega (arith, length-control_loop ts w)
  length-control_loop (elsewhere l ∷ ts) w = length-control_loop ts (look l w)
