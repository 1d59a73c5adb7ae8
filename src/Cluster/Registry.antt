-- ===== src/Cluster/Registry.antt =====
-- The node registry of internal/cluster: listNodeValues of redis.go, register and Nodes of node.go.
-- Redis and encoding/json are parameters; an entry that does not decode is skipped.
use open_sync_crdt.Prelude.{
  String, Bytes, Bool, Option, none, some, List, [], ◌∷◌, ◌≡◌, refl, sym, ap, ◌∙◌, arith, ◌⊎◌, ℕ,
  inl, inr, subst, Option-cases, if◌then◌else◌,
}
use open_sync_crdt.Cluster.Channels.{node_key}

-- What GET answers: a value, `redis.Nil`, or another error.
pub data Got : Type 0 where
  value : Bytes → Got
  expired : Got
  failed : Got

-- Whether `x` is in the list.
unfoldable pub Holds : {A : Type 0} → A → List A → Type 0
Holds x [] = ⊥
Holds x (y ∷ ys) = (x ≡ y) ⊎ Holds x ys

keep_value : Got → Option (List Bytes) → Option (List Bytes)
keep_value (value b) none = none
keep_value (value b) (some out) = some (b ∷ out)
keep_value expired out = out
keep_value failed out = none

-- The loop over the keys of the scan, and its error at the end.
unfoldable pub list_node_values : (String → Got) → List String → Bool → Option (List Bytes)
unfolding keep_value
list_node_values get [] scan_failed = if scan_failed then none else some []
list_node_values get (k ∷ keys) scan_failed =
    keep_value (get k) (list_node_values get keys scan_failed)

-- One entry of the registry.
pub record NodeInfo : Type 0 where
  pub id : String
  pub addr : String
  pub started_at : String

pub record InfoJson : Type 0 where
  pub marshal : NodeInfo → Option Bytes
  pub unmarshal : Bytes → Option NodeInfo

-- SET with an expiry: the key, the value and the seconds.
pub record SetKey : Type 0 where
  pub key : String
  pub value : Bytes
  pub ttl : ℕ

-- The key of the node, for thirty seconds.
abbrev entry : NodeInfo → Bytes → SetKey
entry info b = record { key = node_key info.id; value = b; ttl = 30 }

module _ (json : InfoJson) where
  -- `register`: none where the entry does not encode.
  unfoldable pub register : NodeInfo → Option SetKey
  unfolding node_key
  register info = elim (json.marshal info) [ none ↦ none | some b ↦ some (entry info b) ]

  add_info : Option NodeInfo → List NodeInfo → List NodeInfo
  add_info none infos = infos
  add_info (some i) infos = i ∷ infos

  decode_infos : List Bytes → List NodeInfo
  unfolding add_info
  decode_infos [] = []
  decode_infos (b ∷ bs) = add_info (json.unmarshal b) (decode_infos bs)

  -- `Nodes`
  unfoldable pub list_nodes : (String → Got) → List String → Bool → Option (List NodeInfo)
  unfolding list_node_values decode_infos
  list_nodes get keys scan_failed = elim (list_node_values get keys scan_failed) [
    | none ↦ none
    | some bs ↦ some (decode_infos bs)
  ]

  value-held :
      {b c : Bytes} (rest : List Bytes) → (value b ≡ value c) ⊎ Holds c rest → Holds c (b ∷ rest)
  unfolding Holds
  value-held rest (inl e) = inl (sym (ap (λ g. elim g [ value x ↦ x | _ ↦ [] ]) e))
  value-held rest (inr h) = inr h

  expired-held : {c : Bytes} (rest : List Bytes) → (expired ≡ value c) ⊎ Holds c rest → Holds c rest
  expired-held rest (inl e) = absurd (ground arith)
  expired-held rest (inr h) = h

  kept :
      (g : Got) (o : Option (List Bytes)) (out : List Bytes)
      → keep_value g o ≡ some out
      → (rest : List Bytes) × ((o ≡ some rest)
          × ((b : Bytes) → (g ≡ value b) ⊎ Holds b rest → Holds b out))
  unfolding keep_value
  kept (value b) none out h = absurd (ground arith)
  kept (value b) (some rest) out h =
      let e : b ∷ rest ≡ out = ground arith in
      (rest, (refl, λ c q. subst (Holds c) e (value-held rest q)))
  kept expired o out h = (out, (h, λ c e. expired-held out e))
  kept failed o out h = absurd (ground arith)

  values-held :
      (get : String → Got) (keys : List String) (scan_failed : Bool) (out : List Bytes) (k : String)
      (b : Bytes)
      → list_node_values get keys scan_failed ≡ some out
      → Holds k keys
      → get k ≡ value b
      → Holds b out
  unfolding list_node_values Holds
  values-held get [] scan_failed out k b h m q = elim m [ ]
  values-held get (j ∷ keys) scan_failed out k b h (inl e) q =
      let r = kept (get j) (list_node_values get keys scan_failed) out h in
      r.1.1 b (inl (ap get (sym e) ∙ q))
  values-held get (j ∷ keys) scan_failed out k b h (inr m) q =
      let r = kept (get j) (list_node_values get keys scan_failed) out h in
      r.1.1 b (inr (values-held get keys scan_failed r.0 k b r.1.0 m q))

  added-held :
      (o : Option NodeInfo) (infos : List NodeInfo) (i : NodeInfo)
      → Holds i infos
      → Holds i (add_info o infos)
  unfolding add_info Holds
  added-held none infos i h = h
  added-held (some j) infos i h = inr h

  decoded-held :
      (bs : List Bytes) (b : Bytes) (i : NodeInfo)
      → Holds b bs
      → json.unmarshal b ≡ some i
      → Holds i (decode_infos bs)
  unfolding decode_infos add_info Holds
  decoded-held [] b i m q = elim m [ ]
  decoded-held (c ∷ bs) b i (inl e) q =
      let r : json.unmarshal c ≡ some i = ap json.unmarshal (sym e) ∙ q in
      subst (λ o. Holds i (add_info o (decode_infos bs))) (sym r) (inl refl)
  decoded-held (c ∷ bs) b i (inr m) q =
      added-held (json.unmarshal c) (decode_infos bs) i (decoded-held bs b i m q)

  listed :
      (o : Option (List Bytes)) (infos : List NodeInfo) (b : Bytes) (i : NodeInfo)
      → ((out : List Bytes) → o ≡ some out → Holds b out)
      → json.unmarshal b ≡ some i
      → (elim o [ none ↦ none | some bs ↦ some (decode_infos bs) ]) ≡ some infos
      → Holds i infos
  listed none infos b i h q e = absurd (ground arith)
  listed (some bs) infos b i h q e =
      let same : decode_infos bs ≡ infos = ground arith in
      subst (Holds i) same (decoded-held bs b i (h bs refl) q)

  register-value :
      (info : NodeInfo) (set : SetKey)
      → register info ≡ some set
      → json.marshal info ≡ some set.value
  unfolding register
  register-value info set h = elim (Option-cases (json.marshal info)) [
    | inl e ↦ absurd (ground arith)
    | inr (b, e) ↦
        let same : some (entry info b) ≡ some set =
          sym (ap (λ o. elim o [ none ↦ none | some c ↦ some (entry info c) ]) e) ∙ h in
        e ∙ ap (λ o. elim o [ none ↦ none | some s ↦ some s.value ]) same
  ]

  -- A node that has registered, whose entry is found by the scan, has not expired and is read back as
  -- it was written, is among the nodes of a listing that succeeds, whatever entries stand beside it.
  pub list_nodes-registered :
      (info : NodeInfo) (set : SetKey) (get : String → Got) (keys : List String)
      (scan_failed : Bool) (infos : List NodeInfo)
      → register info ≡ some set
      → Holds set.key keys
      → get set.key ≡ value set.value
      → ((b : Bytes) → json.marshal info ≡ some b → json.unmarshal b ≡ some info)
      → list_nodes get keys scan_failed ≡ some infos
      → Holds info infos
  unfolding list_nodes
  list_nodes-registered info set get keys scan_failed infos written found alive read h =
      listed (list_node_values get keys scan_failed) infos set.value info
        (λ out e. values-held get keys scan_failed out set.key set.value e found alive)
        (read set.value (register-value info set written)) h
