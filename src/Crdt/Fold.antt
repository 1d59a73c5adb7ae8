-- ===== src/Crdt/Fold.antt =====
-- The document that a list of change sets builds, and Rehydrate against it.
use open_sync_crdt.Prelude.{
  ℕ, ◌+◌, Bytes, true, Option, none, some, List, [], ◌∷◌, ◌++◌, ◌≡◌, ◌≢◌, refl, arith,
  if◌then◌else◌, ok, Bool-cases, inl, inr,
}
use open_sync_crdt.Crdt.{Automerge, replay_ops, rehydrate}

module _ (am : Automerge) where
  -- Apply the change sets in order; none if one of them is refused.
  pub fold_ops : am.Doc → List Bytes → Option am.Doc
  fold_ops d [] = some d
  fold_ops d (op ∷ ops) =
      let (d', done) = am.load_incremental d op in
      let rest = fold_ops d' ops in if done then rest else none

  pub fold_ops-append :
      (d d' : am.Doc) (xs ys : List Bytes)
      → fold_ops d xs ≡ some d'
      → fold_ops d (xs ++ ys) ≡ fold_ops d' ys
  unfolding fold_ops
  fold_ops-append d d' [] ys h = ground arith
  fold_ops-append d d' (x ∷ xs) ys h = elim (Bool-cases (am.load_incremental d x).1) [
    | inl t ↦ rw t (fold_ops-append (am.load_incremental d x).0 d' xs ys (ground arith))
    | inr f ↦ absurd (ground arith)
  ]

  pub fold_ops_one :
      (d : am.Doc) (x : Bytes)
      → (am.load_incremental d x).1 ≡ true
      → fold_ops d (x ∷ []) ≡ some (am.load_incremental d x).0
  unfolding fold_ops
  fold_ops_one d x t = ground arith

  replay_ops-fold :
      (i : ℕ) (d d' : am.Doc) (ops : List Bytes)
      → replay_ops am i d ops ≡ ok d'
      → fold_ops d ops ≡ some d'
  unfolding replay_ops fold_ops
  replay_ops-fold i d d' [] h = ground arith
  replay_ops-fold i d d' (x ∷ xs) h = elim (Bool-cases (am.load_incremental d x).1) [
    | inl t ↦ rw t (replay_ops-fold (i + 1) (am.load_incremental d x).0 d' xs (ground arith))
    | inr f ↦ absurd (ground arith)
  ]

  -- With no snapshot the document is built from the empty one.
  pub rehydrate_new :
      (ops : List Bytes) (d : am.Doc) → rehydrate am [] ops ≡ ok d → fold_ops am.new ops ≡ some d
  unfolding rehydrate
  rehydrate_new ops d h = replay_ops-fold 0 am.new d ops h

  -- With a snapshot, from the document that was saved.
  pub rehydrate_saved :
      (b : Bytes) (d0 : am.Doc) (ops : List Bytes) (d : am.Doc)
      → b ≢ []
      → am.load b ≡ some d0
      → rehydrate am b ops ≡ ok d
      → fold_ops d0 ops ≡ some d
  unfolding rehydrate
  rehydrate_saved [] d0 ops d n l h = absurd (n refl)
  rehydrate_saved (x ∷ b) d0 ops d n l h = replay_ops-fold 0 d0 d ops (ground arith)
