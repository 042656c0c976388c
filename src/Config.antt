-- ===== src/Config.antt =====
-- How the topic tables are read: the optional fields of src/sim_comm.cpp.
-- XmlRpc values are a library's: a parameter with the operations that the code calls.
pub mod Bitrate
use swarm_ros_bridge.Common.{
  ℕ, ℤ, Bytes, codes, is_empty, Bool, true, false, ◌||◌, Option, none, some, List, [], ◌∷◌, ◌==◌,
  length, if◌then◌else◌,
}
use swarm_ros_bridge.Double.{Double, lit, mul}
use swarm_ros_bridge.Text.{trim_copy}

pub data Kind : Type 0 where
  int_kind double_kind string_kind other_kind : Kind

-- `is_array` and `is_struct` are `getType` against TypeArray and TypeStruct. `converts_int` and
-- `converts_string` say of which values the conversion to an int or a string gives one, `as_int` or
-- `as_string`; of the others it throws XmlRpcException. `elements` are those of an array, by index.
pub record XmlRpc (W : Type 0) : Type 1 where
  pub Value : Type 0
  pub get_type : Value → Kind
  pub is_array : Value → Bool
  pub is_struct : Value → Bool
  pub converts_int : Value → Bool
  pub converts_string : Value → Bool
  pub as_int : Value → ℤ
  pub as_double : Value → W
  pub as_string : Value → Bytes
  pub elements : Value → List Value
  pub has_member : Value → Bytes → Bool
  pub member : Value → Bytes → Value

-- `normalized_text.back()` and `pop_back()`, on a text that is not empty.
unfoldable pub back : Bytes → ℕ
back [] = 0
back (c ∷ []) = c
back (c ∷ d ∷ s) = back (d ∷ s)

pub pop_back : Bytes → Bytes
pop_back [] = []
pop_back (c ∷ []) = []
pop_back (c ∷ d ∷ s) = c ∷ pop_back (d ∷ s)

abbrev pub is_kilo : ℕ → Bool
is_kilo c = c == b'k' || c == b'K'

abbrev pub is_suffix : ℕ → Bool
is_suffix c = is_kilo c || (c == b'm' || c == b'M')

-- `none` is the fatal log and exit(1) of every rejected value.
module _ {W : Type 0} ⦃d : Double W⦄ where
  -- The whole text must be the number: "1kb" is rejected.
  abbrev pub whole_number : Bytes → W → Option (W × ℕ) → Option W
  whole_number text multiplier none = none
  whole_number text multiplier (some (base_value, parsed_chars)) =
      if parsed_chars == length text then some (mul base_value multiplier) else none

  abbrev pub parse_number : Bytes → W → Option W
  parse_number text multiplier =
      if is_empty text then none else whole_number text multiplier (d.stod text)

  unfoldable pub parse_bitrate_text : Bytes → Option W
  unfolding back pop_back
  parse_bitrate_text bitrate_text =
      let normalized = trim_copy bitrate_text in
      let suffix = back normalized in
      if is_empty normalized
      then none
      else if is_suffix suffix
      then parse_number (trim_copy (pop_back normalized))
          (if is_kilo suffix then lit 1000 0 else lit 1000000 0)
      else parse_number (trim_copy normalized) (lit 1 0)

module _ {W : Type 0} ⦃d : Double W⦄ (x : XmlRpc W) where
  open x use {Value, get_type, as_int, as_double, as_string, has_member, member}

  abbrev pub numeric_of : Value → Kind → Option W
  numeric_of v int_kind = some (d.of_int (as_int v))
  numeric_of v double_kind = some (as_double v)
  numeric_of v string_kind = none
  numeric_of v other_kind = none

  unfoldable pub get_optional_numeric_param : Value → Bytes → W → Option W
  get_optional_numeric_param topic_xml field_name default_value =
      if has_member topic_xml field_name
      then (let v = member topic_xml field_name in numeric_of v (get_type v))
      else some default_value

  abbrev pub bitrate_of : Value → Kind → Option W
  bitrate_of v int_kind = some (d.of_int (as_int v))
  bitrate_of v double_kind = some (as_double v)
  bitrate_of v string_kind = parse_bitrate_text (as_string v)
  bitrate_of v other_kind = none

  unfoldable pub get_optional_bitrate_param : Value → Bytes → W → Option W
  get_optional_bitrate_param topic_xml field_name default_value =
      if has_member topic_xml field_name
      then (let v = member topic_xml field_name in bitrate_of v (get_type v))
      else some default_value

  abbrev pub string_of : Value → Kind → Option Bytes
  string_of v string_kind = some (as_string v)
  string_of v int_kind = none
  string_of v double_kind = none
  string_of v other_kind = none

  unfoldable pub get_optional_string_param : Value → Bytes → Bytes → Option Bytes
  get_optional_string_param topic_xml field_name default_value =
      if has_member topic_xml field_name
      then (let v = member topic_xml field_name in string_of v (get_type v))
      else some default_value
