-- ===== src/Bridge/Endpoint.antt =====
-- The addresses that `main` of src/bridge_node.cpp binds and connects its sockets to.
use swarm_ros_bridge.Common.{
  ℕ, zero, suc, ◌+◌, ◌-◌, ◌*◌, ◌/◌, ◌%◌, ◌≤◌, ◌<◌, ℤ, false, pos, negsuc, Bytes, codes, [], ◌∷◌,
  ◌++◌, ltb, ◌==◌, if◌then◌else◌, ◌≡◌, refl, sym, ap, ◌∙◌, arith, All, All-append, append-nil,
  append_assoc, Bool-cases, inl, inr, ltb→lt,
}
use swarm_ros_bridge.Topic.{TopicInfo}

-- `std::to_string` of an `int`, which has at most ten digits.
pub digits : ℕ → ℕ → Bytes
digits zero n = []
digits (suc f) n =
    let front = digits f (n / 10) in
    if ltb n 10 then (b'0' + n) ∷ [] else front ++ (b'0' + n % 10) ∷ []

unfoldable pub to_string : ℤ → Bytes
unfolding digits
to_string (pos n) = digits 10 n
to_string (negsuc n) = b'-' ∷ digits 10 (n + 1)

unfoldable pub url : {W : Type 0} → TopicInfo W → Bytes
unfolding to_string
url topic = codes "tcp://" ++ (topic.ip ++ (codes ":" ++ to_string topic.port))

-- The port of an address: the number behind the last colon.
abbrev pub value : Bytes → ℕ → ℕ
value [] v = v
value (c ∷ s) v = value s (v * 10 + (c - b'0'))

abbrev pub last_field : Bytes → Bytes → Bytes
last_field [] field = field
last_field (c ∷ s) field = last_field s (if c == b':' then [] else field ++ c ∷ [])

abbrev pub read_int : Bytes → ℤ
read_int [] = pos 0
read_int (c ∷ s) = if c == b'-' then negsuc (value s 0 - 1) else pos (value (c ∷ s) 0)

abbrev pub port_of : Bytes → ℤ
port_of s = read_int (last_field s [])

-- The numbers of 32 bits with a sign.
abbrev pub IsInt : ℤ → Type 0
IsInt (pos n) = n < 2_147_483_648
IsInt (negsuc n) = n < 2_147_483_648

abbrev IsDigit : ℕ → Type 0
IsDigit c = (b'0' ≤ c) × (c ≤ b'9')

-- Ten to the power of the number of digits.
abbrev room : ℕ → ℕ
room zero = 1
room (suc f) = 10 * room f

digits-IsDigit : (f n : ℕ) → All IsDigit (digits f n)
unfolding digits
digits-IsDigit zero n = tt
digits-IsDigit (suc f) n = elim (Bool-cases (ltb n 10)) [
  | inl small ↦ rw small ((omega arith, omega (arith, ltb→lt n 10 small)), tt)
  | inr big ↦ rw big (
      All-append IsDigit (digits f (n / 10)) _ (digits-IsDigit f (n / 10))
        ((omega arith, omega arith), tt))
]

value-append : (s t : Bytes) (v : ℕ) → value (s ++ t) v ≡ value t (value s v)
value-append [] t v = refl
value-append (c ∷ s) t v = value-append s t (v * 10 + (c - b'0'))

value-digits : (f n : ℕ) → n < room f → value (digits f n) 0 ≡ n
unfolding digits
value-digits zero n h = omega arith
value-digits (suc f) n h = elim (Bool-cases (ltb n 10)) [
  | inl small ↦ rw small (omega arith)
  | inr big ↦
      rw
        (
          big,
          value-append (digits f (n / 10)) ((b'0' + n % 10) ∷ []) 0,
          value-digits f (n / 10) (omega (arith, h)),
        )
        (omega arith)
]

not_colon : (c : ℕ) → IsDigit c → (c == b':') ≡ false
not_colon c p = ground (arith, p)

last_field-digits : (s field : Bytes) → All IsDigit s → last_field s field ≡ field ++ s
last_field-digits [] field p = sym (append-nil field)
last_field-digits (c ∷ s) field p =
    rw (not_colon c p.0) (last_field-digits s (field ++ c ∷ []) p.1 ∙ append_assoc field (c ∷ []) s)

last_field-past : (s t field : Bytes) → last_field (s ++ b':' ∷ t) field ≡ last_field t []
last_field-past [] t field = refl
last_field-past (c ∷ s) t field = last_field-past s t _

read_int-digits : (s : Bytes) → All IsDigit s → read_int s ≡ pos (value s 0)
read_int-digits [] p = refl
read_int-digits (c ∷ s) p = ground (arith, p)

port_of-to_string : (p : ℤ) → IsInt p → read_int (last_field (to_string p) []) ≡ p
unfolding to_string
port_of-to_string (pos n) h =
    let good = digits-IsDigit 10 n in
    ap read_int (last_field-digits (digits 10 n) [] good)
    ∙ read_int-digits (digits 10 n) good
    ∙ ap pos (value-digits 10 n (omega arith))
port_of-to_string (negsuc n) h =
    let good = digits-IsDigit 10 (n + 1) in
    ap read_int (last_field-digits (digits 10 (n + 1)) (b'-' ∷ []) good)
    ∙ ap (λ k. negsuc (k - 1)) (value-digits 10 (n + 1) (omega arith))
    ∙ ap negsuc (omega arith)

-- The port of a topic, an int, is read back from the address that its socket is bound or connected
-- to, whatever the text of its host.
pub port_of-url :
    {W : Type 0} (topic : TopicInfo W) → IsInt topic.port → port_of (url topic) ≡ topic.port
unfolding url
port_of-url topic h =
    ap read_int (
      ap (λ s. last_field s []) (append_assoc (codes "tcp://") topic.ip _)
      ∙ last_field-past (codes "tcp://" ++ topic.ip) (to_string topic.port) [])
    ∙ port_of-to_string topic.port h
