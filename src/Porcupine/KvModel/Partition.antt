-- ===== src/Porcupine/KvModel/Partition.antt =====
-- kvraft/kv_model.cpp and kvraft/porcupine.cpp: the partition holds the operations of every key.
use chon_kv.Base.{
  ℕ, zero, suc, ◌≡◌, refl, sym, ap, ◌∙◌, subst, ◌⊎◌, inl, inr, true, false, if◌then◌else◌,
  same_bytes, same_bytes_eq, Bool-cases, get_elem?, some, List, [], ◌∷◌, ◌++◌, append_assoc,
  append-nil, drop,
}
use chon_kv.Porcupine.Members.{Member}
use chon_kv.Porcupine.KvModel.{
  KvOperation, Bucket, add_to_bucket, fill_buckets, kv_partition, pick, pick_all, partition_history,
}

-- The operations of a history on one key, in its order.
unfoldable pub of_key : List ℕ → List KvOperation → List KvOperation
of_key k [] = []
of_key k (o ∷ os) = let rest = of_key k os in if same_bytes o.input.key k then o ∷ rest else rest

-- Their places, from one on.
places : List ℕ → ℕ → List KvOperation → List ℕ
places k i [] = []
places k i (o ∷ os) =
    let rest = places k (suc i) os in if same_bytes o.input.key k then i ∷ rest else rest

-- The places in the bucket of a key.
ids_of : List ℕ → List Bucket → List ℕ
ids_of k [] = []
ids_of k (b ∷ bs) = let rest = ids_of k bs in if same_bytes b.key k then b.ids else rest

ids_of-add_to_bucket :
    (k : List ℕ) (i : ℕ) (key : List ℕ) (bs : List Bucket)
    → ids_of k (add_to_bucket i key bs)
      ≡ (if same_bytes key k then ids_of k bs ++ i ∷ [] else ids_of k bs)
unfolding ids_of add_to_bucket
ids_of-add_to_bucket k i key [] = refl
ids_of-add_to_bucket k i key (b ∷ bs) = elim (Bool-cases (same_bytes b.key key)) [
  | inl e ↦
      rw (e, add_to_bucket, ids_of)
        (elim (Bool-cases (same_bytes b.key k)) [
          | inl g ↦
              let there : same_bytes key k ≡ true =
                subst (λ x. same_bytes x k ≡ true) (same_bytes_eq b.key key e) g in
              rw (g, there) refl
          | inr g ↦
              let there : same_bytes key k ≡ false =
                subst (λ x. same_bytes x k ≡ false) (same_bytes_eq b.key key e) g in
              rw (g, there) refl
        ])
  | inr e ↦
      rw (e, add_to_bucket, ids_of)
        (elim (Bool-cases (same_bytes b.key k)) [
          | inl g ↦ elim (Bool-cases (same_bytes key k)) [
            | inl f ↦ cc (e, other e g f)
            | inr f ↦ rw (g, f) refl
          ]
          | inr g ↦ rw g (ids_of-add_to_bucket k i key bs)
        ])
]
  where
    other :
        same_bytes b.key key ≡ false
        → same_bytes b.key k ≡ true
        → same_bytes key k ≡ true
        → same_bytes b.key key ≡ true
    other e g f = subst (λ x. same_bytes b.key x ≡ true) (sym (same_bytes_eq key k f)) g

ids_of-fill_buckets :
    (k : List ℕ) (i : ℕ) (os : List KvOperation) (bs : List Bucket)
    → ids_of k (fill_buckets i os bs) ≡ ids_of k bs ++ places k i os
unfolding fill_buckets places
ids_of-fill_buckets k i [] bs = sym (append-nil (ids_of k bs))
ids_of-fill_buckets k i (o ∷ os) bs =
    ids_of-fill_buckets k (suc i) os (add_to_bucket i o.input.key bs)
    ∙ (ap (λ t. t ++ places k (suc i) os) (ids_of-add_to_bucket k i o.input.key bs)
        ∙ elim (Bool-cases (same_bytes o.input.key k)) [
          | inl e ↦ rw e (append_assoc (ids_of k bs) (i ∷ []) (places k (suc i) os))
          | inr e ↦ rw e refl
        ])

drop_one :
    (i : ℕ) (history : List KvOperation) (o : KvOperation) (os : List KvOperation)
    → drop i history ≡ o ∷ os
    → (get_elem? history i ≡ some o) × (drop (suc i) history ≡ os)
drop_one zero [] o os h = cc h
drop_one zero (x ∷ xs) o os h = (cc h, cc h)
drop_one (suc i) [] o os h = cc h
drop_one (suc i) (x ∷ xs) o os h = drop_one i xs o os h

pick-places :
    (k : List ℕ) (history : List KvOperation) (i : ℕ) (os : List KvOperation)
    → drop i history ≡ os
    → pick history (places k i os) ≡ of_key k os
unfolding pick places of_key
pick-places k history i [] h = refl
pick-places k history i (o ∷ os) h =
    let (found, rest) = drop_one i history o os h in
    elim (Bool-cases (same_bytes o.input.key k)) [
      | inl e ↦
          rw (e, found, pick, places, of_key)
            (ap (λ t. o ∷ t) (pick-places k history (suc i) os rest))
      | inr e ↦ rw (e, places, of_key) (pick-places k history (suc i) os rest)
    ]

-- A bucket, unless there is none.
ids_of-pick_all :
    (k : List ℕ) (history : List KvOperation) (bs : List Bucket)
    → (ids_of k bs ≡ []) ⊎ Member (pick history (ids_of k bs)) (pick_all history bs)
unfolding ids_of pick_all
ids_of-pick_all k history [] = inl refl
ids_of-pick_all k history (b ∷ bs) = elim (Bool-cases (same_bytes b.key k)) [
  | inl e ↦ rw (e, ids_of) (inr (inl refl))
  | inr e ↦
      let other : ids_of k (b ∷ bs) ≡ ids_of k bs = rw (e, ids_of) refl in
      elim (ids_of-pick_all k history bs) [
        | inl h ↦ inl (other ∙ h)
        | inr h ↦
            inr (inr (subst (λ x. Member (pick history x) (pick_all history bs)) (sym other) h))
      ]
]

-- PartitionHistory: a history has no operation on a key, or the operations on it are a part.
pub partition_history-of_key :
    (k : List ℕ) (history : List KvOperation)
    → (of_key k history ≡ []) ⊎ Member (of_key k history) (partition_history history)
unfolding partition_history kv_partition ids_of pick
partition_history-of_key k history =
    let ids = ids_of-fill_buckets k 0 history [] in
    let part : pick history (ids_of k (kv_partition history)) ≡ of_key k history =
      ap (pick history) ids ∙ pick-places k history 0 history refl in
    elim (ids_of-pick_all k history (kv_partition history)) [
      | inl h ↦ inl (sym part ∙ ap (pick history) h)
      | inr h ↦ inr (subst (λ p. Member p (partition_history history)) part h)
    ]
