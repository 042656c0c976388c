-- ===== src/Bridge/Ports.antt =====
-- What a configuration that is accepted guarantees about the topic tables.
use swarm_ros_bridge.Common.{
  ℕ, ℤ, pos, negsuc, ◌+◌, ◌≤◌, Bytes, Bool, true, false, Option, none, some, List, [], ◌∷◌, ◌++◌,
  if◌then◌else◌, ltb, length, length-append, All, All-append, map, ◌≡◌, ◌≢◌, refl, sym, ap, ◌∙◌,
  subst, arith, codes,
}
use swarm_ros_bridge.Double.{Double, lt, nought}
use swarm_ros_bridge.Topic.{TopicInfo}
use swarm_ros_bridge.Config.{XmlRpc, get_optional_bitrate_param, get_optional_string_param}
use swarm_ros_bridge.Bridge.MsgTypes.{sub_max}
use swarm_ros_bridge.Bridge.Topics.{
  Startup, go, leaves, aborts, ◌>>=◌, or_exit, IpMap, eq_ℤ, has_port, ip_of, Tables, named,
  add_topic, ros_assert, read_string, read_int, topic_of, read_send_topic, read_recv_topic,
  read_topics, read_hosts, read_tables, or_empty, is_table, configure,
}

-- No port twice.
abbrev pub DistinctPorts : List ℤ → Type 0
DistinctPorts [] = Unit
DistinctPorts (p ∷ ps) = All (λ q. q ≢ p) ps × DistinctPorts ps

eq_ℤ-refl : (p : ℤ) → eq_ℤ p p ≡ true
eq_ℤ-refl (pos n) = ground arith
eq_ℤ-refl (negsuc n) = ground arith

not-has_port : (p : ℤ) (ps : List ℤ) → has_port p ps ≡ false → All (λ q. q ≢ p) ps
unfolding has_port
not-has_port p [] h = tt
not-has_port p (q ∷ qs) h =
    (λ e. ground (arith, ap (λ (r : ℤ). eq_ℤ r p) e, eq_ℤ-refl p), not-has_port p qs (ground arith))

DistinctPorts-snoc :
    (ps : List ℤ) (p : ℤ) → DistinctPorts ps → All (λ q. q ≢ p) ps → DistinctPorts (ps ++ p ∷ [])
DistinctPorts-snoc [] p d n = (tt, tt)
DistinctPorts-snoc (q ∷ qs) p (apart, d) (n, ns) =
    (All-append (λ r. r ≢ q) qs (p ∷ []) apart ((λ e. n (sym e)), tt), DistinctPorts-snoc qs p d ns)

-- A part that goes on comes of a first part that goes on.
pub bind-go {ℓ κ} :
    {A : Type ℓ} {B : Type κ} (s : Startup A) (f : A → Startup B) (b : B)
    → (s >>= f) ≡ go b
    → (a : A) × (s ≡ go a) × (f a ≡ go b)
bind-go (go a) f b e = (a, refl, e)
bind-go (leaves n) f b e = cc
bind-go aborts f b e = cc

-- A check that ends the process has not done so.
guard-go {ℓ} :
    {A : Type ℓ} (b : Bool) (n : ℕ) (r : Startup A) (a : A)
    → (if b then leaves n else r) ≡ go a
    → (b ≡ false) × (r ≡ go a)
guard-go true n r a e = cc
guard-go false n r a e = (refl, e)

module _ {W : Type 0} ⦃d : Double W⦄ (x : XmlRpc W) where
  open x use {Value, as_string, member}

  abbrev pub ports_of : List (TopicInfo W) → List ℤ
  ports_of = map (λ topic. topic.port)

  abbrev pub IsUnsigned : TopicInfo W → Type 0
  IsUnsigned topic = lt topic.max_bitrate nought ≡ false

  -- The tables after rounds of the loop over send_topics.
  record IsBuilt (t : Tables x) : Type 0 where
    seen : t.ports ≡ ports_of t.topics
    distinct : DistinctPorts t.ports
    unsigned : All IsUnsigned t.topics

  named-go : (name : Bytes) (t t' : Tables x) → named x name t ≡ go t' → t ≡ t'
  named-go [] t t' e = cc
  named-go (c ∷ name) t t' e = cc

  map-append : (ts us : List (TopicInfo W)) → ports_of (ts ++ us) ≡ ports_of ts ++ ports_of us
  map-append [] us = refl
  map-append (t ∷ ts) us = ap (◌∷◌ t.port) (map-append ts us)

  add-IsBuilt :
      (topic : TopicInfo W) (h : Bytes × IpMap) (t : Tables x)
      → IsUnsigned topic
      → has_port topic.port t.ports ≡ false
      → IsBuilt t
      → IsBuilt (add_topic x topic h t)
  add-IsBuilt topic h t u n b = record {
    seen = ap (λ (ps : List ℤ). ps ++ topic.port ∷ []) b.seen ∙ sym (map-append t.topics _);
    distinct = DistinctPorts-snoc t.ports topic.port b.distinct (not-has_port topic.port t.ports n);
    unsigned = All-append IsUnsigned t.topics _ b.unsigned (u, tt);
  }

  -- One round of the send loop, and of the receive loop.
  read_send_topic-IsBuilt :
      (v : Value) (t t' : Tables x)
      → read_send_topic x v t ≡ go t'
      → IsBuilt t
      → IsBuilt t' × (length t'.topics ≡ length t.topics + 1)
  unfolding read_send_topic
  read_send_topic-IsBuilt v t t' e b =
      let (_, _, e₀) = bind-go (ros_assert (x.is_struct v)) _ t' e in
      let (name, _, e₁) = bind-go (read_string x (member v (codes "topic_name"))) _ t' e₀ in
      let (type, _, e₂) = bind-go (read_string x (member v (codes "msg_type"))) _ t' e₁ in
      let (freq, _, e₃) = bind-go (read_int x (member v (codes "max_freq"))) _ t' e₂ in
      let (bitrate, _, e₄) =
        bind-go (or_exit (get_optional_bitrate_param x v (codes "max_bitrate") nought)) _ t' e₃ in
      let (policy, _, e₅) =
        bind-go (or_exit (get_optional_string_param x v (codes "fault_policy") (codes "drop"))) _ t'
          e₄ in
      let (u, e₆) = guard-go (lt bitrate nought) 3 _ t' e₅ in
      let (host, _, e₇) = bind-go (read_string x (member v (codes "srcIP"))) _ t' e₆ in
      let (port, _, e₈) = bind-go (read_int x (member v (codes "srcPort"))) _ t' e₇ in
      let (n, e₉) = guard-go (has_port port t.ports) 3 _ t' e₈ in
      let topic = topic_of x name type freq bitrate policy port in
      let h = ip_of host t.ip_map in
      let same = named-go name (add_topic x topic h t) t' e₉ in
      (
        subst IsBuilt same (add-IsBuilt topic h t u n b),
        subst (λ (r : Tables x). length r.topics ≡ length t.topics + 1) same
            (length-append t.topics _),
      )

  read_recv_topic-count :
      (v : Value) (t t' : Tables x)
      → read_recv_topic x v t ≡ go t'
      → length t'.topics ≡ length t.topics + 1
  unfolding read_recv_topic
  read_recv_topic-count v t t' e =
      let (_, _, e₀) = bind-go (ros_assert (x.is_struct v)) _ t' e in
      let (name, _, e₁) = bind-go (read_string x (member v (codes "topic_name"))) _ t' e₀ in
      let (type, _, e₂) = bind-go (read_string x (member v (codes "msg_type"))) _ t' e₁ in
      let (policy, _, e₃) =
        bind-go (or_exit (get_optional_string_param x v (codes "fault_policy") (codes "drop"))) _ t'
          e₂ in
      let (host, _, e₄) = bind-go (read_string x (member v (codes "srcIP"))) _ t' e₃ in
      let (port, _, e₅) = bind-go (read_int x (member v (codes "srcPort"))) _ t' e₄ in
      subst (λ (r : Tables x). length r.topics ≡ length t.topics + 1) (named-go name _ t' e₅)
        (length-append t.topics _)

  -- A loop whose rounds keep `P` and add one topic each.
  read_topics-keeps :
      (P : Tables x → Type 0) (read : Value → Tables x → Startup (Tables x))
      → ((v : Value) (t t' : Tables x)
          → read v t ≡ go t'
          → P t
          → P t' × (length t'.topics ≡ length t.topics + 1))
      → (vs : List Value) (t t' : Tables x) → read_topics x read vs t ≡ go t'
      → P t
      → P t' × (length t'.topics ≡ length t.topics + length vs)
  unfolding read_topics
  read_topics-keeps P read step [] t t' e p =
      let same : t ≡ t' = cc in
      (
        subst P same p,
        subst (λ (r : Tables x). length r.topics ≡ length t.topics + 0) same (omega arith),
      )
  read_topics-keeps P read step (v ∷ vs) t t' e p =
      let (t₁, e₁, e₂) = bind-go (read v t) _ t' e in
      let (p₁, n₁) = step v t t₁ e₁ p in
      let (p₂, n₂) = read_topics-keeps P read step vs t₁ t' e₂ p₁ in (p₂, omega (arith, n₁, n₂))

  pub record IsConfigured (sends recvs : List Value) (ss rs : List (TopicInfo W)) : Type 0 where
    pub send_count : length ss ≡ length sends
    pub send_limit : length ss ≤ sub_max
    pub recv_count : length rs ≡ length recvs
    pub distinct : DistinctPorts (ports_of ss)
    pub unsigned : All IsUnsigned ss

  read_tables-IsConfigured :
      (hosts : List (Bytes × Value)) (sends recvs : List Value) (ss rs : List (TopicInfo W))
      → ltb sub_max (length sends) ≡ false
      → read_tables x hosts sends recvs ≡ go (ss, rs)
      → IsConfigured sends recvs ss rs
  unfolding read_tables
  read_tables-IsConfigured hosts sends recvs ss rs few e =
      let (m, _, e₁) = bind-go (read_hosts x hosts []) _ (ss, rs) e in
      let (sent_tables, e₂, e₃) =
        bind-go (read_topics x (read_send_topic x) sends _) _ (ss, rs) e₁ in
      let (recv_tables, e₄, e₅) =
        bind-go (read_topics x (read_recv_topic x) recvs _) _ (ss, rs) e₃ in
      let (b, n) =
        read_topics-keeps IsBuilt (read_send_topic x) read_send_topic-IsBuilt sends _ sent_tables e₂
          (record { seen = refl; distinct = tt; unsigned = tt }) in
      let (_, m) =
        read_topics-keeps (λ _. Unit) (read_recv_topic x)
          (λ v t t' f _. (tt, read_recv_topic-count v t t' f)) recvs _ recv_tables e₄ tt in
      let same_sends : sent_tables.topics ≡ ss = cc in
      let same_recvs : recv_tables.topics ≡ rs = cc in
      subst (λ (ts : List (TopicInfo W)). IsConfigured sends recvs ts rs) same_sends
        (subst (λ (ts : List (TopicInfo W)). IsConfigured sends recvs sent_tables.topics ts)
          same_recvs
          (record {
            send_count = omega (arith, n);
            send_limit = ground (arith, n);
            recv_count = omega (arith, m);
            distinct = subst DistinctPorts b.seen b.distinct;
            unsigned = b.unsigned;
          }))

  -- A configuration that is accepted gives one send topic for each entry, at most 50, no two of them
  -- on one port and none with a negative bitrate, and one receive topic for each entry.
  pub configure-IsConfigured :
      (hosts : Option (List (Bytes × Value))) (sends recvs : Option Value)
      (ss rs : List (TopicInfo W))
      → configure x hosts sends recvs ≡ go (ss, rs)
      → IsConfigured (or_empty x sends) (or_empty x recvs) ss rs
  unfolding configure
  configure-IsConfigured none sends recvs ss rs e = cc
  configure-IsConfigured (some hosts) sends recvs ss rs e =
      let (_, _, e₀) = bind-go (ros_assert (is_table x sends)) _ (ss, rs) e in
      let (_, _, e₁) = bind-go (ros_assert (is_table x recvs)) _ (ss, rs) e₀ in
      let (few, e₂) = guard-go (ltb sub_max (length (or_empty x sends))) 2 _ (ss, rs) e₁ in
      read_tables-IsConfigured hosts (or_empty x sends) (or_empty x recvs) ss rs few e₂
