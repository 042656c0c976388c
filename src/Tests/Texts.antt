-- ===== src/Tests/Texts.antt =====
-- Texts: configuration values, control requests, and topic types.
use swarm_ros_bridge.Common.{
  ℕ, pos, Bytes, codes, true, false, not, ◌||◌, some, List, [], ◌∷◌, ◌++◌, ◌≡◌, ◌≢◌, refl, arith,
  length, All, bytes_eq_iff, ◌≤◌, ◌+◌, ap, sym, subst, some-inj, inl,
}
use swarm_ros_bridge.Double.Micros.{Micros, micros_double, Micros-IsOrdered}
use swarm_ros_bridge.Text.{trim_copy, isspace}
use swarm_ros_bridge.Text.Trim.{IsSpace, FrontTight, BackTight, trim_copy-split}
use swarm_ros_bridge.Config.{parse_bitrate_text, back, is_suffix}
use swarm_ros_bridge.Config.Bitrate.{parse_bitrate_text-unit}
use swarm_ros_bridge.Control.{ControlServerConfig, handle_control_request, build_response}
use swarm_ros_bridge.Control.Fields.{
  FieldMap, find, assign, segments, split_field, add_segments, parse_key_value_request,
}
use swarm_ros_bridge.Control.RoundTrip.{
  IsPlain, reply_fields, parse_key_value_request-render, parse_key_value_request-build_response,
}
use swarm_ros_bridge.Control.Decision.{Lasts, Outcome, handle_control_request-Outcome}
use swarm_ros_bridge.Control.Server.{
  ControlServer, Turn, arrives, elsewhere, nothing, text, malformed, control_loop,
  start_control_server, stop_control_server, IsSound, start_stop-IsSound,
}
use swarm_ros_bridge.Monitor.{by_monitor, by_entry}
use swarm_ros_bridge.Control.OneFault.{Service, control_loop-Service}
use swarm_ros_bridge.Tests.Data.{seconds, at, idle_world}

trim_copy-split_example :
    (p q : Bytes) × (codes "  a b " ≡ p ++ (trim_copy (codes "  a b ") ++ q))
    × All IsSpace p
    × All IsSpace q
    × FrontTight (trim_copy (codes "  a b "))
    × BackTight (trim_copy (codes "  a b "))
trim_copy-split_example = trim_copy-split (codes "  a b ")

thirty_two-IsSpace : IsSpace 32
unfolding isspace
thirty_two-IsSpace = refl

digit_tight : isspace b'5' ≡ false
unfolding isspace
digit_tight = refl

parse_bitrate_text-unit_example : parse_bitrate_text (codes " 5 k") ≡ some (seconds 5000)
parse_bitrate_text-unit_example =
    parse_bitrate_text-unit (codes " ") b'5' [] (codes " ") b'k' [] (thirty_two-IsSpace, tt)
      (thirty_two-IsSpace, tt) tt digit_tight digit_tight refl

five_has_no_suffix : is_suffix (back (codes "5")) ≡ false
unfolding back
five_has_no_suffix = refl

abbrev config : ControlServerConfig
config = record {
  enabled = true;
  node_id = codes "uav1";
  bind_ip = codes "*";
  bind_port = pos 6000;
  token = codes "s";
}

abbrev request : Bytes
request = codes "command=start_node_fault;target=uav1;token=s;duration_sec=5"

handle_control_request-Outcome_example :
    Outcome config
      (at 1)
      (parse_key_value_request request)
      idle_world
      (handle_control_request config (at 1) request idle_world)
handle_control_request-Outcome_example =
    handle_control_request-Outcome config (at 1) request idle_world

abbrev two_fields : FieldMap
two_fields = (codes "a", codes "1") ∷ (codes "b", codes "2") ∷ []

field-IsPlain :
    (k v : ℕ)
    → k ≢ b'='
    → k ≢ b';'
    → v ≢ b';'
    → isspace k ≡ false
    → isspace v ≡ false
    → IsPlain (k ∷ [], v ∷ [])
field-IsPlain k v e f g h i = record {
  key = λ e. cc;
  key_lacks = (e, tt);
  key_in_segment = (f, tt);
  value_in_segment = (g, tt);
  key_front = h;
  key_back = h;
  value_front = i;
  value_back = i;
}

isspace_a : isspace b'a' ≡ false
unfolding isspace
isspace_a = refl

isspace_b : isspace b'b' ≡ false
unfolding isspace
isspace_b = refl

isspace_1 : isspace b'1' ≡ false
unfolding isspace
isspace_1 = refl

isspace_2 : isspace b'2' ≡ false
unfolding isspace
isspace_2 = refl

field_a-IsPlain : IsPlain (codes "a", codes "1")
field_a-IsPlain =
    field-IsPlain b'a' b'1' (omega arith) (omega arith) (omega arith) isspace_a isspace_1

field_b-IsPlain : IsPlain (codes "b", codes "2")
field_b-IsPlain =
    field-IsPlain b'b' b'2' (omega arith) (omega arith) (omega arith) isspace_b isspace_2

parse_key_value_request-render_example : parse_key_value_request (codes "a=1;b=2") ≡ two_fields
parse_key_value_request-render_example =
    parse_key_value_request-render two_fields (field_a-IsPlain, (field_b-IsPlain, tt))
      (((λ e. ground (arith, bytes_eq_iff (codes "b") (codes "a"))), tt), (tt, tt))

node_id-IsPlain : IsPlain (codes "node_id", codes "2")
unfolding isspace
node_id-IsPlain = record {
  key = λ e. cc;
  key_lacks = ground arith;
  key_in_segment = ground arith;
  value_in_segment = ground arith;
  key_front = refl;
  key_back = refl;
  value_front = refl;
  value_back = refl;
}

parse_key_value_request-build_response_example :
    parse_key_value_request (codes "ok=true;node_id=2;b=2")
    ≡ (codes "ok", codes "true") ∷ (codes "node_id", codes "2") ∷ (codes "b", codes "2") ∷ []
unfolding build_response reply_fields
parse_key_value_request-build_response_example =
    parse_key_value_request-build_response true (codes "2") (codes "b") (codes "2") node_id-IsPlain
      field_b-IsPlain (λ e. cc) (λ e. cc)

abbrev stopped : ControlServer
stopped = record { running = false; joinable = false; active_config = config }

start_stop-IsSound_example :
    IsSound (start_control_server config true stopped).1
    × ((start_control_server config true stopped).0
        ≡ (not config.enabled || (start_control_server config true stopped).1.running))
    × ((stop_control_server stopped).running ≡ false)
    × ((stop_control_server stopped).joinable ≡ false)
start_stop-IsSound_example = start_stop-IsSound config true stopped refl

abbrev in_between : List Turn
in_between =
    arrives (at 1) (text request)
    ∷ elsewhere (by_monitor (at 2))
    ∷ arrives (at 2) nothing
    ∷ arrives (at 3) malformed
    ∷ elsewhere (by_entry (at 3))
    ∷ arrives (at 4) (text [])
    ∷ []

-- The request asks for five seconds, and the empty text for nothing.
request-five :
    (duration : Micros)
    → Lasts (parse_key_value_request request) duration
    → at 5 ≤ at 1 + micros_double.to_nanos duration
unfolding parse_key_value_request add_segments segments split_field assign find trim_copy
request-five duration (t, f, g, p) =
    let same : codes "5" ≡ t = some-inj _ _ f in
    let read : some (seconds 5, 1) ≡ some (duration, 1) =
      subst (λ (s : Bytes). micros_double.stod s ≡ some (duration, length s)) (sym same) g in
    let five : seconds 5 ≡ duration = ap (λ (r : Micros × ℕ). r.0) (some-inj _ _ read) in
    subst (λ (x : Micros). at 5 ≤ at 1 + micros_double.to_nanos x) five (omega arith)

nothing-Lasts :
    (duration : Micros)
    → Lasts (parse_key_value_request []) duration
    → at 5 ≤ at 4 + micros_double.to_nanos duration
unfolding parse_key_value_request add_segments segments split_field assign find
nothing-Lasts duration (t, f, g, p) = cc

control_loop-Service_example :
    Service config in_between idle_world (control_loop config in_between idle_world)
    × (length (control_loop config in_between idle_world).0 ≡ 3)
control_loop-Service_example =
    control_loop-Service config Micros-IsOrdered (at 5) in_between idle_world refl (inl refl)
      (request-five, (omega arith, (tt, (tt, (omega arith, (nothing-Lasts, tt))))))
