-- ===== src/Storage/Db/Consistent.antt =====
-- The invariant of the tables: each document's operations are numbered 1, 2, … up to its
-- latest_seq with no gap, and only documents that exist have operations or snapshots.
use open_sync_crdt.Prelude.{
  ℕ, zero, suc, ◌+◌, ◌-◌, ◌≤◌, String, Bytes, false, none, List, [], ◌∷◌, ◌++◌, ◌≡◌, refl, ap,
  arith, select, All, any_of, sym, subst, String-cases, inl, inr, length, length-append, drop,
  drop-nil,
}
use open_sync_crdt.Prelude.Int.{pos}
use open_sync_crdt.Storage.{StoredOp}
use open_sync_crdt.Storage.Db.{
  Db, empty, find_doc, ops_of, of_doc, latest_of, same_key, newest, after, order_by, insert_by,
}
use open_sync_crdt.Storage.Db.Append.{
  latest, committed, next_op, ops_of-committed, ops_of-committed_ne, latest-committed,
  latest-committed_ne, find_doc-committed,
}

-- Operations numbered k + 1, k + 2, …
abbrev pub Run : ℕ → List StoredOp → Type 0
Run k [] = Unit
Run k (o ∷ os) = (o.seq ≡ suc k) × Run (suc k) os

pub record IsConsistent (db : Db) : Type 0 where
  pub numbered : (id : String) → Run 0 (ops_of id db)
  pub counted : (id : String) → length (ops_of id db) ≡ latest id db
  pub owned : (id : String) → find_doc id db.documents ≡ none → newest id db.snapshots ≡ none

pub IsConsistent-empty : IsConsistent empty
unfolding ops_of find_doc latest_of newest
IsConsistent-empty = record { numbered = λ id. tt; counted = λ id. refl; owned = λ id h. refl }

pub Run-append :
    (k : ℕ) (xs : List StoredOp) (o : StoredOp)
    → Run k xs
    → o.seq ≡ k + length xs + 1
    → Run k (xs ++ o ∷ [])
Run-append k [] o h e = (omega arith, tt)
Run-append k (x ∷ xs) o h e = (h.0, Run-append (suc k) xs o h.1 (omega arith))

pub Run-le : (k : ℕ) (xs : List StoredOp) → Run k xs → All (λ o. o.seq ≤ k + length xs) xs
Run-le k [] h = tt
Run-le k (x ∷ xs) h =
    let e : suc k + length xs ≡ k + suc (length xs) = omega arith in
    (
      omega (arith, h.0),
      subst (λ m. All (λ (o : StoredOp). o.seq ≤ m) xs) e (Run-le (suc k) xs h.1),
    )

select-after_step :
    (k n d : ℕ) (x : StoredOp) (xs : List StoredOp)
    → x.seq ≡ suc k
    → n - k ≡ d
    → select (after (pos n)) xs ≡ drop (n - suc k) xs
    → select (after (pos n)) (x ∷ xs) ≡ drop d (x ∷ xs)
select-after_step k n zero x xs h e rest =
    let z : n - suc k ≡ 0 = omega arith in ground (arith, ap (λ m. drop m xs) z)
select-after_step k n (suc d) x xs h e rest =
    let z : n - suc k ≡ d = omega arith in ground (arith, ap (λ m. drop m xs) z)

-- `seq > n` keeps what comes after the first n operations of a run.
pub select-after :
    (k n : ℕ) (xs : List StoredOp) → Run k xs → select (after (pos n)) xs ≡ drop (n - k) xs
select-after k n [] h = sym (drop-nil (n - k))
select-after k n (x ∷ xs) h =
    select-after_step k n (n - k) x xs h.0 refl (select-after (suc k) n xs h.1)

insert_by-first :
    (k : ℕ) (x : StoredOp) (xs : List StoredOp)
    → x.seq ≤ suc k
    → Run k xs
    → insert_by (λ (o : StoredOp). o.seq) x xs ≡ x ∷ xs
unfolding insert_by
insert_by-first k x [] h r = refl
insert_by-first k x (y ∷ ys) h r = ground (arith, r.0)

-- ORDER BY seq leaves a run as it is.
pub order_by-Run :
    (k : ℕ) (xs : List StoredOp) → Run k xs → order_by (λ (o : StoredOp). o.seq) xs ≡ xs
unfolding order_by
order_by-Run k [] h = refl
order_by-Run k (x ∷ xs) h =
    rw (order_by-Run (suc k) xs h.1) (insert_by-first (suc k) x xs (omega (arith, h.0)) h.1)

pub Run-drop : (k n : ℕ) (xs : List StoredOp) → Run k xs → Run (k + n) (drop n xs)
Run-drop k zero xs h = let e : k ≡ k + 0 = omega arith in subst (λ m. Run m xs) e h
Run-drop k (suc n) [] h = tt
Run-drop k (suc n) (x ∷ xs) h =
    let e : suc k + n ≡ k + suc n = omega arith in
    subst (λ m. Run m (drop n xs)) e (Run-drop (suc k) n xs h.1)

any_of-same_key :
    (n : ℕ) (row : StoredOp) (xs : List StoredOp)
    → All (λ o. o.seq ≤ n) (select (of_doc row.doc_id) xs)
    → row.seq ≡ n + 1
    → any_of (same_key row) xs ≡ false
any_of-same_key n row [] h e = refl
any_of-same_key n row (x ∷ xs) h e = ground (arith, any_of-same_key n row xs)

-- The next sequence number of a document is free.
pub next_op-free :
    {db : Db} (id : String) (change : Bytes) (session : String) (now : ℕ)
    → IsConsistent db
    → any_of (same_key (next_op id change session now db)) db.operations ≡ false
next_op-free {db} id change session now c =
    let e : 0 + length (ops_of id db) ≡ latest id db = omega (arith, c.counted id) in
    any_of-same_key (latest id db) (next_op id change session now db) db.operations
      (unfold ops_of in
        subst (λ m. All (λ (o : StoredOp). o.seq ≤ m) (ops_of id db)) e
          (Run-le 0 (ops_of id db) (c.numbered id)))
      refl

module _ (id : String) (change : Bytes) (session : String) (now : ℕ) {db : Db}
    (c : IsConsistent db) where
  abbrev after_commit : Db
  after_commit = committed id change session now db

  abbrev IsNumbered : String → Type 0
  IsNumbered j =
      Run 0 (ops_of j after_commit) × (length (ops_of j after_commit) ≡ latest j after_commit)

  IsNumbered-self : IsNumbered id
  IsNumbered-self =
      rw (ops_of-committed id change session now db, latest-committed id change session now db)
        (
          Run-append 0 (ops_of id db) _ (c.numbered id) (omega (arith, c.counted id)),
          omega (
            arith,
            c.counted id,
            length-append (ops_of id db) (next_op id change session now db ∷ []),
          ),
        )

  all_IsNumbered : (j : String) → IsNumbered j
  all_IsNumbered j = elim (String-cases id j) [
    | inl (e, t) ↦ subst IsNumbered e IsNumbered-self
    | inr (ne, f) ↦
        rw
          (
            ops_of-committed_ne id change session now db j f,
            latest-committed_ne id change session now db j f,
          )
          (c.numbered j, c.counted j)
  ]

  -- An append keeps the invariant.
  pub committed-IsConsistent : IsConsistent after_commit
  committed-IsConsistent = record {
    numbered = λ j. (all_IsNumbered j).0;
    counted = λ j. (all_IsNumbered j).1;
    owned = λ j h. unfold committed in c.owned j (find_doc-committed id change session now db j h);
  }
