-- ===== src/Node/Leaves.antt =====
-- The statuses with which the parts of `main` can leave.
use swarm_ros_bridge.Common.{
  codes, ℕ, ℤ, suc, ◌≤◌, Bytes, Bool, true, false, Option, none, some, List, [], ◌∷◌, length,
  if◌then◌else◌, ◌≡◌, refl, subst, arith, ltb,
}
use swarm_ros_bridge.Double.{Double, nought, lt}
use swarm_ros_bridge.Topic.{TopicInfo}
use swarm_ros_bridge.World.{World}
use swarm_ros_bridge.Config.{XmlRpc}
use swarm_ros_bridge.Bridge.Topics.{
  Startup, go, leaves, aborts, ◌>>=◌, or_exit, configure, or_empty, is_table, read_topics,
  read_send_topic, read_recv_topic, read_tables, read_hosts, read_string, read_int, ros_assert,
  set_ip, Tables, named, IpMap, has_port,
}
use swarm_ros_bridge.Node.{Params, Surroundings}
use swarm_ros_bridge.Node.Start.{set_up, open_sockets, subscribe, advertise, blank_world}
use swarm_ros_bridge.Fault.{initialize_node_fault_control}
use swarm_ros_bridge.SendThread.{initialize_send_bitrate_control}
use swarm_ros_bridge.Config.{get_optional_bitrate_param, get_optional_string_param}
use swarm_ros_bridge.Bridge.MsgTypes.{sub_max, topic_subscriber, topic_publisher}

-- Where a part of `main` leaves with a status, the status is one of these.
abbrev pub LeavesIn {ℓ} : {A : Type ℓ} → (ℕ → Type 0) → Startup A → Type 0
LeavesIn P (go a) = Unit
LeavesIn P (leaves status) = P status
LeavesIn P aborts = Unit

module _ (P : ℕ → Type 0) where
  bind-LeavesIn {ℓ κ} :
      {A : Type ℓ} {B : Type κ} (s : Startup A) (f : A → Startup B)
      → LeavesIn P s
      → ((a : A) → LeavesIn P (f a))
      → LeavesIn P (s >>= f)
  bind-LeavesIn (go a) f h k = k a
  bind-LeavesIn (leaves n) f h k = h
  bind-LeavesIn aborts f h k = tt

  exit-LeavesIn {ℓ κ} :
      {A : Type ℓ} {B : Type κ} (o : Option A) (f : A → Startup B)
      → P 1
      → ((a : A) → LeavesIn P (f a))
      → LeavesIn P (or_exit o >>= f)
  exit-LeavesIn none f h k = h
  exit-LeavesIn (some a) f h k = k a

  if-LeavesIn {ℓ} :
      {A : Type ℓ} (b : Bool) (s r : Startup A)
      → LeavesIn P s
      → LeavesIn P r
      → LeavesIn P (if b then s else r)
  if-LeavesIn true s r h k = h
  if-LeavesIn false s r h k = k

  pub leaves-LeavesIn {ℓ} : {A : Type ℓ} (s : Startup A) (n : ℕ) → s ≡ leaves n → LeavesIn P s → P n
  leaves-LeavesIn s n e h = subst (LeavesIn P) e h

-- The statuses of the set-up, and of the configuration.
abbrev pub One : ℕ → Type 0
One n = n ≡ 1

abbrev pub UpToThree : ℕ → Type 0
UpToThree n = (1 ≤ n) × (n ≤ 3)

module _ {W : Type 0} where
  open_sockets-LeavesIn :
      (succeeds : Bytes → Bool) (ts : List (TopicInfo W)) → LeavesIn One (open_sockets succeeds ts)
  unfolding open_sockets
  open_sockets-LeavesIn succeeds [] = tt
  open_sockets-LeavesIn succeeds (t ∷ ts) =
      if-LeavesIn One _ _ aborts
        (bind-LeavesIn One (open_sockets succeeds ts) _ (open_sockets-LeavesIn succeeds ts)
          (λ _. tt))
        tt

  subscribe-LeavesIn : (i : ℕ) (ts : List (TopicInfo W)) → LeavesIn One (subscribe i ts)
  unfolding subscribe
  subscribe-LeavesIn i [] = tt
  subscribe-LeavesIn i (t ∷ ts) =
      exit-LeavesIn One (topic_subscriber t.name t.msg_type i) _ refl
        λ s. bind-LeavesIn One (subscribe (suc i) ts) _ (subscribe-LeavesIn (suc i) ts) (λ _. tt)

  advertise-LeavesIn : (ts : List (TopicInfo W)) → LeavesIn One (advertise ts)
  unfolding advertise
  advertise-LeavesIn [] = tt
  advertise-LeavesIn (t ∷ ts) =
      exit-LeavesIn One (topic_publisher t.name t.msg_type) _ refl
        λ s. bind-LeavesIn One (advertise ts) _ (advertise-LeavesIn ts) (λ _. tt)

module _ {W T : Type 0} ⦃d : Double W⦄ (y : Surroundings T) (p : Params W) where
  abbrev started_fault : List (TopicInfo W) → List (TopicInfo W) → Option (World W)
  started_fault ss rs =
      initialize_node_fault_control true
        (initialize_send_bitrate_control (length ss) (blank_world ss rs))

  pub set_up-LeavesIn : (ss rs : List (TopicInfo W)) → LeavesIn One (set_up y p ss rs)
  unfolding set_up
  set_up-LeavesIn ss rs =
      bind-LeavesIn One (open_sockets y.binds ss) _ (open_sockets-LeavesIn y.binds ss) λ _.
        bind-LeavesIn One (open_sockets y.connects rs) _ (open_sockets-LeavesIn y.connects rs) λ _.
          bind-LeavesIn One (subscribe 0 ss) _ (subscribe-LeavesIn 0 ss) λ _.
            bind-LeavesIn One (advertise rs) _ (advertise-LeavesIn rs)
              λ _. exit-LeavesIn One (started_fault ss rs) _ refl (λ _. tt)

module _ {W : Type 0} ⦃d : Double W⦄ (x : XmlRpc W) where
  abbrev policy_of : x.Value → Option Bytes
  policy_of v = get_optional_string_param x v (codes "fault_policy") (codes "drop")

  three : UpToThree 3
  three = (omega arith, omega arith)

  one : UpToThree 1
  one = (omega arith, omega arith)

  assert-LeavesIn {ℓ} :
      {A : Type ℓ} (b : Bool) (f : Unit {0} → Startup A)
      → ((u : Unit {0}) → LeavesIn UpToThree (f u))
      → LeavesIn UpToThree (ros_assert b >>= f)
  assert-LeavesIn true f h = h tt
  assert-LeavesIn false f h = tt

  read-LeavesIn {ℓ κ} :
      {A : Type ℓ} {B : Type κ} (b : Bool) (a : A) (f : A → Startup B)
      → ((c : A) → LeavesIn UpToThree (f c))
      → LeavesIn UpToThree ((if b then go a else aborts) >>= f)
  read-LeavesIn true a f h = h a
  read-LeavesIn false a f h = tt

  string-LeavesIn {ℓ} :
      {A : Type ℓ} (v : x.Value) (f : Bytes → Startup A)
      → ((s : Bytes) → LeavesIn UpToThree (f s))
      → LeavesIn UpToThree (read_string x v >>= f)
  string-LeavesIn v f h = read-LeavesIn (x.converts_string v) (x.as_string v) f h

  int-LeavesIn {ℓ} :
      {A : Type ℓ} (v : x.Value) (f : ℤ → Startup A)
      → ((n : ℤ) → LeavesIn UpToThree (f n))
      → LeavesIn UpToThree (read_int x v >>= f)
  int-LeavesIn v f h = read-LeavesIn (x.converts_int v) (x.as_int v) f h

  named-LeavesIn : (P : ℕ → Type 0) (name : Bytes) (t : Tables x) → LeavesIn P (named x name t)
  named-LeavesIn P [] t = tt
  named-LeavesIn P (c ∷ name) t = tt

  read_send_topic-LeavesIn :
      (v : x.Value) (t : Tables x) → LeavesIn UpToThree (read_send_topic x v t)
  unfolding read_send_topic
  read_send_topic-LeavesIn v t = assert-LeavesIn (x.is_struct v) _ λ _.
      string-LeavesIn (x.member v (codes "topic_name")) _ λ name.
        string-LeavesIn (x.member v (codes "msg_type")) _ λ type.
          int-LeavesIn (x.member v (codes "max_freq")) _ λ freq.
            exit-LeavesIn UpToThree (get_optional_bitrate_param x v (codes "max_bitrate") nought) _
              one
              λ b. exit-LeavesIn UpToThree (policy_of v) _ one λ f.
                if-LeavesIn UpToThree (lt b nought) (leaves 3) _ three (
                  string-LeavesIn (x.member v (codes "srcIP")) _ λ host.
                    int-LeavesIn (x.member v (codes "srcPort")) _ λ port.
                      if-LeavesIn UpToThree (has_port port t.ports) (leaves 3) _ three
                        (named-LeavesIn UpToThree name _))

  read_recv_topic-LeavesIn :
      (v : x.Value) (t : Tables x) → LeavesIn UpToThree (read_recv_topic x v t)
  unfolding read_recv_topic
  read_recv_topic-LeavesIn v t = assert-LeavesIn (x.is_struct v) _ λ _.
      string-LeavesIn (x.member v (codes "topic_name")) _ λ name.
        string-LeavesIn (x.member v (codes "msg_type")) _ λ type.
          exit-LeavesIn UpToThree (policy_of v) _ one λ f.
            string-LeavesIn (x.member v (codes "srcIP")) _ λ host.
              int-LeavesIn (x.member v (codes "srcPort")) _ λ port. named-LeavesIn UpToThree name _

  read_topics-LeavesIn :
      (read : x.Value → Tables x → Startup (Tables x)) (vs : List x.Value) (t : Tables x)
      → ((v : x.Value) (u : Tables x) → LeavesIn UpToThree (read v u))
      → LeavesIn UpToThree (read_topics x read vs t)
  unfolding read_topics
  read_topics-LeavesIn read [] t h = tt
  read_topics-LeavesIn read (v ∷ vs) t h =
      bind-LeavesIn UpToThree (read v t) _ (h v t) (λ u. read_topics-LeavesIn read vs u h)

  read_hosts-LeavesIn :
      (hosts : List (Bytes × x.Value)) (m : IpMap) → LeavesIn UpToThree (read_hosts x hosts m)
  unfolding read_hosts
  read_hosts-LeavesIn [] m = tt
  read_hosts-LeavesIn ((name, host) ∷ hs) m =
      string-LeavesIn host _ λ ip. read_hosts-LeavesIn hs (set_ip name ip m)

  read_tables-LeavesIn :
      (hosts : List (Bytes × x.Value)) (sends recvs : List x.Value)
      → LeavesIn UpToThree (read_tables x hosts sends recvs)
  unfolding read_tables
  read_tables-LeavesIn hosts sends recvs =
      bind-LeavesIn UpToThree (read_hosts x hosts []) _ (read_hosts-LeavesIn hosts []) λ m.
        bind-LeavesIn UpToThree (read_topics x (read_send_topic x) sends _) _
          (read_topics-LeavesIn (read_send_topic x) sends _ read_send_topic-LeavesIn)
          λ ss.
            bind-LeavesIn UpToThree (read_topics x (read_recv_topic x) recvs _) _
              (read_topics-LeavesIn (read_recv_topic x) recvs _ read_recv_topic-LeavesIn) (λ rs. tt)

  pub configure-LeavesIn :
      (hosts : Option (List (Bytes × x.Value))) (sends recvs : Option x.Value)
      → LeavesIn UpToThree (configure x hosts sends recvs)
  unfolding configure
  configure-LeavesIn none sends recvs = one
  configure-LeavesIn (some hosts) sends recvs = assert-LeavesIn (is_table x sends) _ λ _.
      assert-LeavesIn (is_table x recvs) _ λ _.
        if-LeavesIn UpToThree (ltb sub_max (length (or_empty x sends))) (leaves 2) _
          (omega arith, omega arith)
          (read_tables-LeavesIn hosts (or_empty x sends) (or_empty x recvs))
