-- ===== src/Control.antt =====
-- src/control_server.cpp: the remote control of simulated faults. ZMQ is outside: a pass of the
-- server's loop is given what the socket delivers, and gives the reply.
pub mod Fields
pub mod RoundTrip
pub mod Decision
pub mod Server
pub mod OneFault
use swarm_ros_bridge.Common.{
  ℕ, ℤ, Bytes, codes, bytes_eq, is_empty, Bool, true, false, not, ◌&&◌, ◌||◌, Option, none, some,
  List, [], ◌∷◌, ◌++◌, length, ◌==◌, if◌then◌else◌, ◌>>=◌,
}
use swarm_ros_bridge.Double.{Double, lt, nought}
use swarm_ros_bridge.World.{World}
use swarm_ros_bridge.Fault.{is_node_fault_busy, start_node_fault}
use Fields.{FieldMap, find, parse_key_value_request}

pub record ControlServerConfig : Type 0 where
  pub enabled : Bool
  pub node_id : Bytes
  pub bind_ip : Bytes
  pub bind_port : ℤ
  pub token : Bytes

unfoldable pub build_response : Bool → Bytes → Bytes → Bytes → Bytes
build_response is_ok node_id message_key message_value =
    codes "ok="
    ++ ((if is_ok then codes "true" else codes "false")
        ++ (codes ";node_id="
            ++ (node_id ++ (codes ";" ++ (message_key ++ (codes "=" ++ message_value))))))

-- `iter != end && iter->second == value`, and `iter != end && !empty && != value`.
pub field_is : Option Bytes → Bytes → Bool
field_is none value = false
field_is (some v) value = bytes_eq v value

pub field_differs : Option Bytes → Bytes → Bool
field_differs none value = false
field_differs (some v) value = not (is_empty v) && (not (is_empty value) && not (bytes_eq v value))

module _ {W : Type 0} ⦃d : Double W⦄ where
  -- `none` is the result `false`; a number is taken only if it is the whole text, and positive.
  abbrev pub whole_positive : Bytes → Option (W × ℕ) → Option W
  whole_positive text none = none
  whole_positive text (some (v, parsed_chars)) =
      if parsed_chars == length text && lt nought v then some v else none

  abbrev duration_of : Option Bytes → Option W
  duration_of none = none
  duration_of (some text) = whole_positive text (d.stod text)

  pub parse_positive_duration : FieldMap → Option W
  parse_positive_duration fields = duration_of (find (codes "duration_sec") fields)

  -- The last part of the handler: it has its duration, and looks at the fault.
  pub start_if_idle : ControlServerConfig → ℕ → Option W → World W → Bytes × World W
  start_if_idle config now none w =
      (build_response false config.node_id (codes "error") (codes "invalid_duration_sec"), w)
  start_if_idle config now (some duration_sec) w =
      if is_node_fault_busy w
      then (build_response false config.node_id (codes "error") (codes "node_fault_busy"), w)
      else (
        build_response true config.node_id (codes "message") (codes "node_fault_started")
            ++ (codes ";duration_sec=" ++ d.show duration_sec),
        start_node_fault now duration_sec w,
      )

  unfoldable pub handle_control_request :
      ControlServerConfig → ℕ → Bytes → World W → Bytes × World W
  unfolding field_is field_differs start_if_idle parse_positive_duration
  handle_control_request config now request_text w =
      let fields = parse_key_value_request request_text in
      if not (field_is (find (codes "command") fields) (codes "start_node_fault"))
      then (build_response false config.node_id (codes "error") (codes "invalid_command"), w)
      else if field_differs (find (codes "target") fields) config.node_id
      then (build_response false config.node_id (codes "error") (codes "target_mismatch"), w)
      else if not (is_empty config.token)
          && not (field_is (find (codes "token") fields) config.token)
      then (build_response false config.node_id (codes "error") (codes "unauthorized"), w)
      else start_if_idle config now (parse_positive_duration fields) w
