-- ===== src/Dispatch/Calls.antt =====
-- Sequences of calls of the entry points: when they happen, and what they carry for each topic.
use swarm_ros_bridge.Common.{
  ℕ, ◌<◌, List, [], ◌∷◌, ◌++◌, append_assoc, ◌≡◌, refl, ◌==◌, Bool, true, false, if◌then◌else◌,
}
use swarm_ros_bridge.Topic.{Message}
use swarm_ros_bridge.Dispatch.{Call, sends, receives}

-- A call whose readings of the clock lie before `end`. The window decides a call at its first
-- locked block, so a send has two readings that matter.
abbrev pub Before : ℕ → Call → Type 0
Before end (sends i m t₁ t₂ t₃ t₄) = (t₁ < end) × (t₂ < end)
Before end (receives i m t₁ t₂) = (t₁ < end) × (t₂ < end)

abbrev pub AllBefore : ℕ → List Call → Type 0
AllBefore end [] = Unit
AllBefore end (c ∷ cs) = Before end c × AllBefore end cs

-- The messages that the calls carry for send topic `i`, and for receive topic `i`.
abbrev pub sends_on : ℕ → List Call → List Message
sends_on i [] = []
sends_on i (sends j m t₁ t₂ t₃ t₄ ∷ cs) = if j == i then m ∷ sends_on i cs else sends_on i cs
sends_on i (receives j m t₁ t₂ ∷ cs) = sends_on i cs

abbrev pub receives_on : ℕ → List Call → List Message
receives_on i [] = []
receives_on i (sends j m t₁ t₂ t₃ t₄ ∷ cs) = receives_on i cs
receives_on i (receives j m t₁ t₂ ∷ cs) = if j == i then m ∷ receives_on i cs else receives_on i cs

-- The messages of topic `j` after one more for topic `i`.
abbrev pub add_to : (ℕ → List Message) → ℕ → Message → ℕ → List Message
add_to ms i m j = ms j ++ (if i == j then m ∷ [] else [])

-- What a call adds to the messages of each topic.
abbrev pub add_send : Call → (ℕ → List Message) → ℕ → List Message
add_send (sends i m t₁ t₂ t₃ t₄) ss = add_to ss i m
add_send (receives i m t₁ t₂) ss = ss

abbrev pub add_recv : Call → (ℕ → List Message) → ℕ → List Message
add_recv (sends i m t₁ t₂ t₃ t₄) rs = rs
add_recv (receives i m t₁ t₂) rs = add_to rs i m

if-regroup {ℓ} :
    {A : Type ℓ} (b : Bool) (xs : List A) (a : A) (ys : List A)
    → (xs ++ (if b then a ∷ [] else [])) ++ ys ≡ xs ++ (if b then a ∷ ys else ys)
if-regroup true xs a ys = append_assoc xs (a ∷ []) ys
if-regroup false xs a ys = append_assoc xs [] ys

pub add_send-append :
    (c : Call) (cs : List Call) (ss : ℕ → List Message) (j : ℕ)
    → add_send c ss j ++ sends_on j cs ≡ ss j ++ sends_on j (c ∷ cs)
add_send-append (sends i m t₁ t₂ t₃ t₄) cs ss j = if-regroup (i == j) (ss j) m (sends_on j cs)
add_send-append (receives i m t₁ t₂) cs ss j = refl

pub add_recv-append :
    (c : Call) (cs : List Call) (rs : ℕ → List Message) (j : ℕ)
    → add_recv c rs j ++ receives_on j cs ≡ rs j ++ receives_on j (c ∷ cs)
add_recv-append (sends i m t₁ t₂ t₃ t₄) cs rs j = refl
add_recv-append (receives i m t₁ t₂) cs rs j = if-regroup (i == j) (rs j) m (receives_on j cs)
