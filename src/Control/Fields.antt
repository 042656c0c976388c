-- ===== src/Control/Fields.antt =====
-- `parse_key_value_request` of src/control_server.cpp.
use swarm_ros_bridge.Common.{
  Bytes, bytes_eq, is_empty, Option, none, some, List, [], ◌∷◌, ◌==◌, if◌then◌else◌, ℕ,
}
use swarm_ros_bridge.Text.{trim_copy}

-- `std::map<std::string, std::string>` as far as it is used: by `find`, and by `fields[key] = value`.
abbrev pub FieldMap : Type 0
FieldMap = List (Bytes × Bytes)

unfoldable pub find : Bytes → FieldMap → Option Bytes
find k [] = none
find k ((j, v) ∷ fs) = if bytes_eq j k then some v else find k fs

unfoldable pub assign : Bytes → Bytes → FieldMap → FieldMap
assign k v [] = (k, v) ∷ []
assign k v ((j, u) ∷ fs) = if bytes_eq j k then (j, v) ∷ fs else (j, u) ∷ assign k v fs

-- `std::getline(stream, segment, ';')` until it fails: no segment follows a `;` at the end.
abbrev pub onto_first : ℕ → List Bytes → List Bytes
onto_first c [] = (c ∷ []) ∷ []
onto_first c (l ∷ ls) = (c ∷ l) ∷ ls

unfoldable pub segments : Bytes → List Bytes
segments [] = []
segments (c ∷ s) = let rest = segments s in if c == b';' then [] ∷ rest else onto_first c rest

-- `segment.find('=')`, with the text before it and the text behind it.
abbrev pub onto_key : ℕ → Option (Bytes × Bytes) → Option (Bytes × Bytes)
onto_key c none = none
onto_key c (some (k, v)) = some (c ∷ k, v)

unfoldable pub split_field : Bytes → Option (Bytes × Bytes)
split_field [] = none
split_field (c ∷ s) =
    let rest = split_field s in if c == b'=' then some ([], s) else onto_key c rest

-- One round of the loop: a segment without `=`, or with an empty key, changes nothing.
abbrev pub add_field : Option (Bytes × Bytes) → FieldMap → FieldMap
add_field none fields = fields
add_field (some (k, v)) fields =
    if is_empty (trim_copy k) then fields else assign (trim_copy k) (trim_copy v) fields

unfoldable pub add_segments : List Bytes → FieldMap → FieldMap
add_segments [] fields = fields
add_segments (s ∷ ss) fields = add_segments ss (add_field (split_field s) fields)

unfoldable pub parse_key_value_request : Bytes → FieldMap
unfolding segments split_field assign add_segments
parse_key_value_request request_text = add_segments (segments request_text) []
