-- ===== src/Control/RoundTrip.antt =====
-- Requests and replies as texts: what is written field by field is read back field by field.
use swarm_ros_bridge.Common.{
  ℕ, Bytes, codes, bytes_eq_iff, is_empty, Bool, true, false, map, some, List, [], ◌∷◌, ◌++◌,
  append_assoc, append-nil, ◌==◌, ==_iff, ◌≡◌, ◌≢◌, refl, sym, ap, ◌∙◌, arith, All, All-append,
  if◌then◌else◌,
}
use swarm_ros_bridge.Text.{isspace}
use swarm_ros_bridge.Text.Trim.{FrontTight, BackTight, trim_copy-tight}
use swarm_ros_bridge.Control.Fields.{
  FieldMap, assign, segments, split_field, add_field, add_segments, parse_key_value_request,
}
use swarm_ros_bridge.Control.{build_response}

-- `k1=v1;k2=v2;...`
abbrev pub render_field : Bytes × Bytes → Bytes
render_field (k, v) = k ++ b'=' ∷ v

abbrev pub render : FieldMap → Bytes
render [] = []
render (f ∷ []) = render_field f
render (f ∷ g ∷ fs) = render_field f ++ b';' ∷ render (g ∷ fs)

abbrev pub Lacks : ℕ → Bytes → Type 0
Lacks b = All (λ c. c ≢ b)

-- A field that survives: no separator in it, no space at its ends, and a key.
pub record IsPlain (f : Bytes × Bytes) : Type 0 where
  pub key : f.0 ≢ []
  pub key_lacks : Lacks b'=' f.0
  pub key_in_segment : Lacks b';' f.0
  pub value_in_segment : Lacks b';' f.1
  pub key_front : FrontTight f.0
  pub key_back : BackTight f.0
  pub value_front : FrontTight f.1
  pub value_back : BackTight f.1

-- No key twice.
abbrev pub Fresh : Bytes → FieldMap → Type 0
Fresh k [] = Unit
Fresh k ((j, v) ∷ fs) = (j ≢ k) × Fresh k fs

abbrev pub Distinct : FieldMap → Type 0
Distinct [] = Unit
Distinct ((k, v) ∷ fs) = Fresh k fs × Distinct fs

ne-test : (c b : ℕ) → c ≢ b → (c == b) ≡ false
ne-test c b h = ground (arith, ==_iff c b)

cons-ne-nil : (c : ℕ) (s : Bytes) → c ∷ s ≢ []
cons-ne-nil c s e = cc

segments-last : (s : Bytes) → Lacks b';' s → s ≢ [] → segments s ≡ s ∷ []
unfolding segments
segments-last [] h n = absurd (n refl)
segments-last (c ∷ []) h n = ground (arith, ==_iff c b';')
segments-last (c ∷ x ∷ s) h n = rw (ne-test c b';' h.0, segments-last (x ∷ s) h.1 (cons-ne-nil x s))

segments-next : (s t : Bytes) → Lacks b';' s → segments (s ++ b';' ∷ t) ≡ s ∷ segments t
unfolding segments
segments-next [] t h = refl
segments-next (c ∷ s) t h = rw (ne-test c b';' h.0, segments-next s t h.1)

split_field-render : (k v : Bytes) → Lacks b'=' k → split_field (k ++ b'=' ∷ v) ≡ some (k, v)
unfolding split_field
split_field-render [] v h = refl
split_field-render (c ∷ k) v h = rw (ne-test c b'=' h.0, split_field-render k v h.1)

assign-Fresh : (k v : Bytes) (fs : FieldMap) → Fresh k fs → assign k v fs ≡ fs ++ (k, v) ∷ []
unfolding assign
assign-Fresh k v [] h = refl
assign-Fresh k v ((j, u) ∷ fs) h = ground (arith, bytes_eq_iff j k, assign-Fresh k v fs)

-- Written as segments, the fields are separated again.
render_field-Lacks : (f : Bytes × Bytes) → IsPlain f → Lacks b';' (render_field f)
render_field-Lacks (k, v) p =
    All-append _ k (b'=' ∷ v) p.key_in_segment (equals-not-semicolon, p.value_in_segment)
  where
    equals-not-semicolon : ◌≢◌ {A = ℕ} b'=' b';'
    equals-not-semicolon = omega arith

render_field-ne-nil : (k v : Bytes) → render_field (k, v) ≢ []
render_field-ne-nil [] v e = cc
render_field-ne-nil (c ∷ k) v e = cc

segments-render : (fs : FieldMap) → All IsPlain fs → segments (render fs) ≡ map render_field fs
unfolding segments
segments-render [] h = refl
segments-render (f ∷ []) h =
    segments-last (render_field f) (render_field-Lacks f h.0) (render_field-ne-nil f.0 f.1)
segments-render (f ∷ g ∷ fs) h =
    segments-next (render_field f) (render (g ∷ fs)) (render_field-Lacks f h.0)
    ∙ ap (◌∷◌ (render_field f)) (segments-render (g ∷ fs) h.1)

add_field-render :
    (f : Bytes × Bytes) (fs : FieldMap)
    → IsPlain f
    → Fresh f.0 fs
    → add_field (split_field (render_field f)) fs ≡ fs ++ f ∷ []
add_field-render (k, v) fs p h =
    rw
      (
        split_field-render k v p.key_lacks,
        trim_copy-tight k p.key_front p.key_back,
        trim_copy-tight v p.value_front p.value_back,
        is_empty-false k p.key,
      )
      (assign-Fresh k v fs h)
  where
    is_empty-false : (s : Bytes) → s ≢ [] → is_empty s ≡ false
    is_empty-false [] n = absurd (n refl)
    is_empty-false (c ∷ s) n = refl

-- No key of the second list is in the first.
abbrev Apart : FieldMap → FieldMap → Type 0
Apart acc [] = Unit
Apart acc ((k, v) ∷ fs) = Fresh k acc × Apart acc fs

Fresh-snoc : (j k v : Bytes) (acc : FieldMap) → Fresh j acc → k ≢ j → Fresh j (acc ++ (k, v) ∷ [])
Fresh-snoc j k v [] h n = (n, tt)
Fresh-snoc j k v ((i, u) ∷ acc) h n = (h.0, Fresh-snoc j k v acc h.1 n)

Apart-snoc :
    (k v : Bytes) (acc fs : FieldMap) → Apart acc fs → Fresh k fs → Apart (acc ++ (k, v) ∷ []) fs
Apart-snoc k v acc [] a h = tt
Apart-snoc k v acc ((j, u) ∷ fs) a h =
    (Fresh-snoc j k v acc a.0 (λ e. h.0 (sym e)), Apart-snoc k v acc fs a.1 h.1)

add_segments-render :
    (fs acc : FieldMap)
    → All IsPlain fs
    → Distinct fs
    → Apart acc fs
    → add_segments (map render_field fs) acc ≡ acc ++ fs
unfolding add_segments
add_segments-render [] acc h n a = sym (append-nil acc)
add_segments-render ((k, v) ∷ fs) acc h n a =
    ap (add_segments (map render_field fs)) (add_field-render (k, v) acc h.0 a.0)
    ∙ add_segments-render fs (acc ++ (k, v) ∷ []) h.1 n.1 (Apart-snoc k v acc fs a.1 n.0)
    ∙ append_assoc acc ((k, v) ∷ []) fs

Apart-nil : (fs : FieldMap) → Apart [] fs
Apart-nil [] = tt
Apart-nil ((k, v) ∷ fs) = (tt, Apart-nil fs)

-- Fields with distinct keys that are not empty, with no separator in them and no space at their
-- ends, written as `k1=v1;k2=v2;...`, are read back as they were.
pub parse_key_value_request-render :
    (fs : FieldMap) → All IsPlain fs → Distinct fs → parse_key_value_request (render fs) ≡ fs
unfolding parse_key_value_request
parse_key_value_request-render fs h n =
    ap (λ (ss : List Bytes). add_segments ss []) (segments-render fs h)
    ∙ add_segments-render fs [] h n (Apart-nil fs)

-- A reply is such a text: an external tool reads it back field by field.
unfoldable pub reply_fields : Bool → Bytes → Bytes → Bytes → FieldMap
reply_fields is_ok node_id k v =
    (codes "ok", if is_ok then codes "true" else codes "false")
    ∷ (codes "node_id", node_id)
    ∷ (k, v)
    ∷ []

build_response-render :
    (is_ok : Bool) (node_id k v : Bytes)
    → build_response is_ok node_id k v ≡ render (reply_fields is_ok node_id k v)
unfolding build_response reply_fields
build_response-render is_ok node_id k v = refl

ok-IsPlain : (is_ok : Bool) → IsPlain (codes "ok", if is_ok then codes "true" else codes "false")
unfolding isspace
ok-IsPlain true = record {
  key = λ e. cc;
  key_lacks = omega arith;
  key_in_segment = omega arith;
  value_in_segment = omega arith;
  key_front = refl;
  key_back = refl;
  value_front = refl;
  value_back = refl;
}
ok-IsPlain false = record {
  key = λ e. cc;
  key_lacks = omega arith;
  key_in_segment = omega arith;
  value_in_segment = omega arith;
  key_front = refl;
  key_back = refl;
  value_front = refl;
  value_back = refl;
}

-- The fields of a reply are read back as they were written, if the node id and the last field hold
-- no separator and no space at their ends, and the last key is neither `ok` nor `node_id`.
pub parse_key_value_request-build_response :
    (is_ok : Bool) (node_id k v : Bytes)
    → IsPlain (codes "node_id", node_id)
    → IsPlain (k, v)
    → k ≢ codes "ok"
    → k ≢ codes "node_id"
    → parse_key_value_request (build_response is_ok node_id k v) ≡ reply_fields is_ok node_id k v
unfolding reply_fields
parse_key_value_request-build_response is_ok node_id k v p q n₁ n₂ =
    ap parse_key_value_request (build_response-render is_ok node_id k v)
    ∙ parse_key_value_request-render (reply_fields is_ok node_id k v)
        (ok-IsPlain is_ok, (p, (q, tt))) (((λ e. cc), (n₁, tt)), ((n₂, tt), (tt, tt)))
