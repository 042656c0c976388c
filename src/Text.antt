-- ===== src/Text.antt =====
-- `trim_copy`, which src/sim_comm.cpp and src/control_server.cpp each define in the same words.
pub mod Trim
use swarm_ros_bridge.Common.{
  Bytes, Bool, true, false, ◌&&◌, ◌||◌, List, [], ◌∷◌, ◌==◌, leb, is_empty, if◌then◌else◌, ℕ,
}

-- `std::isspace` in the "C" locale: tab to carriage return, and the space.
unfoldable pub isspace : ℕ → Bool
isspace c = c == 32 || leb 9 c && leb c 13

-- The first loop: `begin` moves past the spaces at the front.
pub skip_front : Bytes → Bytes
skip_front [] = []
skip_front (c ∷ s) = if isspace c then skip_front s else c ∷ s

-- The second loop: `end` moves back over the spaces behind it.
pub skip_back : Bytes → Bytes
skip_back [] = []
skip_back (c ∷ s) = let rest = skip_back s in if is_empty rest && isspace c then [] else c ∷ rest

unfoldable pub trim_copy : Bytes → Bytes
unfolding isspace skip_front skip_back
trim_copy text = skip_back (skip_front text)
