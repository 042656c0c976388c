-- ===== src/Fault/Policy.antt =====
-- `parse_fault_policy` and `apply_fault_policy_to_buffer` of src/sim_comm.cpp.
use swarm_ros_bridge.Common.{
  Bytes, codes, bytes_eq, bytes_eq_iff, Option, none, some, List, [], ◌∷◌, ◌++◌, ◌≡◌, ◌↔◌, refl,
  sym, arith, if◌then◌else◌,
}
use swarm_ros_bridge.Topic.{FaultPolicy, drop, buffer, latest, Message}

-- `none`: the fatal log and exit(1) of an unknown name.
unfoldable pub parse_fault_policy : Bytes → Option FaultPolicy
parse_fault_policy name =
    if bytes_eq name (codes "drop")
    then some drop
    else if bytes_eq name (codes "buffer")
    then some buffer
    else if bytes_eq name (codes "latest")
    then some latest
    else none

unfoldable pub apply_fault_policy_to_buffer : FaultPolicy → Message → List Message → List Message
apply_fault_policy_to_buffer drop m b = b
apply_fault_policy_to_buffer latest m b = [] ++ m ∷ []
apply_fault_policy_to_buffer buffer m b = b ++ m ∷ []

-- The name of a policy in a configuration.
abbrev pub policy_name : FaultPolicy → Bytes
policy_name drop = codes "drop"
policy_name buffer = codes "buffer"
policy_name latest = codes "latest"

-- A name is parsed to a policy exactly when it is the name of that policy.
pub parse_fault_policy-policy_name :
    (name : Bytes) (p : FaultPolicy) → (parse_fault_policy name ≡ some p) ↔ (name ≡ policy_name p)
unfolding parse_fault_policy
parse_fault_policy-policy_name name drop = ground (
  arith,
  bytes_eq_iff name (codes "drop"),
  bytes_eq_iff name (codes "buffer"),
  bytes_eq_iff name (codes "latest"),
)
parse_fault_policy-policy_name name buffer = ground (
  arith,
  bytes_eq_iff name (codes "drop"),
  bytes_eq_iff name (codes "buffer"),
  bytes_eq_iff name (codes "latest"),
)
parse_fault_policy-policy_name name latest = ground (
  arith,
  bytes_eq_iff name (codes "drop"),
  bytes_eq_iff name (codes "buffer"),
  bytes_eq_iff name (codes "latest"),
)

-- The last entry, as a list of at most one.
abbrev pub last_only {ℓ} : {A : Type ℓ} → List A → List A
last_only [] = []
last_only (a ∷ []) = a ∷ []
last_only (a ∷ b ∷ l) = last_only (b ∷ l)

-- What a window's messages leave to replay.
abbrev pub retained : FaultPolicy → List Message → List Message
retained drop ms = []
retained buffer ms = ms
retained latest ms = last_only ms

last_only-append {ℓ} : {A : Type ℓ} (l : List A) (a : A) → last_only (l ++ a ∷ []) ≡ a ∷ []
last_only-append [] a = refl
last_only-append (b ∷ []) a = refl
last_only-append (b ∷ c ∷ l) a = last_only-append (c ∷ l) a

-- Applying a policy to a message, on a buffer that holds what the policy retains of the messages
-- before, leaves what it retains of them all.
pub apply_fault_policy-retained :
    (p : FaultPolicy) (m : Message) (ms : List Message)
    → apply_fault_policy_to_buffer p m (retained p ms) ≡ retained p (ms ++ m ∷ [])
unfolding apply_fault_policy_to_buffer
apply_fault_policy-retained drop m ms = refl
apply_fault_policy-retained buffer m ms = refl
apply_fault_policy-retained latest m ms = sym (last_only-append ms m)
