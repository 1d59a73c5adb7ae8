-- ===== src/Sync/Replay/Batches.antt =====
-- What a subscriber receives: the batches put together are the operations that it missed.
use native.Mathlib.Nat.{div-add-mod', mod-lt}
use mathlib.Core.List.{map-append}
use open_sync_crdt.Prelude.{
  ℕ, zero, suc, ◌+◌, ◌-◌, ◌*◌, ◌≤◌, ◌<◌, String, Bool, true, List, [], ◌∷◌, ◌++◌, map, ◌≡◌, refl,
  ap, sym, ◌∙◌, arith, eqb, ltb, length, take, drop, take-append-drop, take_all, drop_all,
  drop-drop, length-take, length-drop, Bool-cases, inl, inr, Result, ok,
}
use open_sync_crdt.Protocol.{Replay, ReplayOp, new_replay}
use open_sync_crdt.Storage.{StoreError, StoredOp}
use open_sync_crdt.Sync.Replay.{
  to_replay_op, slice, total_batches, batch_end, batch_message, deliver_from, replay, replay_ops,
  delivered,
}
use open_sync_crdt.Storage.Contract.{Store, Contract, Views, since}
use open_sync_crdt.Prelude.Int.{ℤ}

-- Enough batches for all operations, and never none.
pub total_batches_enough : (size count : ℕ) → 0 < size → count ≤ total_batches size count * size
unfolding total_batches
total_batches_enough size count h =
    ground (arith, div-add-mod' (count + size - 1) size, mod-lt (count + size - 1) {m = size} h)

pub total_batches_pos : (size count : ℕ) → 0 < total_batches size count
unfolding total_batches
total_batches_pos size count = ground arith

module _ (id : String) (size : ℕ) (ops : List StoredOp) where
  -- The messages of the rounds left from a batch on.
  unfoldable pub messages : ℕ → ℕ → ℕ → List Replay
  messages total zero batch = []
  messages total (suc left) batch =
      batch_message id size ops total batch ∷ messages total left (batch + 1)

  abbrev pub all_ops : List Replay → List ReplayOp
  all_ops [] = []
  all_ops (m ∷ ms) = m.ops ++ all_ops ms

  slice-batch :
      (start : ℕ) → slice start (batch_end id size ops start) ops ≡ take size (drop start ops)
  unfolding slice batch_end
  slice-batch start = elim (Bool-cases (ltb (length ops) (start + size))) [
    | inl t ↦ rw t (
        take_all (length ops - start) (drop start ops) (omega (arith, length-drop start ops))
        ∙ sym (take_all size (drop start ops) (ground (arith, length-drop start ops))))
    | inr f ↦
        rw f
          (let e : start + size - start ≡ size = omega arith in ap (λ n. take n (drop start ops)) e)
  ]

  ops-batch :
      (total batch : ℕ)
      → (batch_message id size ops total batch).ops
        ≡ map to_replay_op (take size (drop (batch * size) ops))
  unfolding batch_message new_replay
  ops-batch total batch = ap (map to_replay_op) (slice-batch (batch * size))

  all_ops-messages :
      (total left batch : ℕ)
      → length ops ≤ (batch + left) * size
      → all_ops (messages total left batch) ≡ map to_replay_op (drop (batch * size) ops)
  unfolding messages
  all_ops-messages total zero batch h =
      let e : length ops ≤ batch * size = omega arith in
      sym (ap (map to_replay_op) (drop_all (batch * size) ops e))
  all_ops-messages total (suc left) batch h =
      let rest = drop (batch * size) ops in
      let bound : length ops ≤ (batch + 1 + left) * size = omega arith in
      let next : (batch + 1) * size ≡ batch * size + size = omega arith in
      rw
        (
          ops-batch total batch,
          all_ops-messages total left (batch + 1) bound,
          next,
          ← drop-drop size (batch * size) ops,
          ← map-append to_replay_op (take size rest) (drop size rest),
        )
        (ap (map to_replay_op) (take-append-drop size rest))

  pub all_ops_whole :
      (total : ℕ)
      → length ops ≤ total * size
      → all_ops (messages total total 0) ≡ map to_replay_op ops
  all_ops_whole total h =
      let bound : length ops ≤ (0 + total) * size = omega arith in
      let zeroth : 0 * size ≡ 0 = omega arith in
      all_ops-messages total total 0 bound ∙ ap (λ k. map to_replay_op (drop k ops)) zeroth

  length-map : (xs : List StoredOp) → length (map to_replay_op xs) ≡ length xs
  length-map [] = refl
  length-map (x ∷ xs) = ap suc (length-map xs)

  -- One message of the run: its number, its size, and its flag on the last.
  abbrev pub IsBatch : ℕ → ℕ → Replay → Type 0
  IsBatch total batch m =
      (m.doc_id ≡ id)
      × (m.batch_seq ≡ batch + 1)
      × (m.total_batches ≡ total)
      × (m.done ≡ eqb (batch + 1) total)
      × (length m.ops ≤ size)

  abbrev pub Batches : ℕ → ℕ → List Replay → Type 0
  Batches total batch [] = Unit
  Batches total batch (m ∷ ms) = IsBatch total batch m × Batches total (batch + 1) ms

  batch_message-IsBatch :
      (total batch : ℕ) → IsBatch total batch (batch_message id size ops total batch)
  batch_message-IsBatch total batch = (
    unfold batch_message new_replay in refl,
    unfold batch_message new_replay in refl,
    unfold batch_message new_replay in refl,
    unfold batch_message new_replay in refl,
    rw (ops-batch total batch) (
        omega (
          arith,
          length-map (take size (drop (batch * size) ops)),
          length-take size (drop (batch * size) ops),
        )),
  )

  messages-Batches : (total left batch : ℕ) → Batches total batch (messages total left batch)
  unfolding messages
  messages-Batches total zero batch = tt
  messages-Batches total (suc left) batch =
      (batch_message-IsBatch total batch, messages-Batches total left (batch + 1))

  length-messages : (total left batch : ℕ) → length (messages total left batch) ≡ left
  unfolding messages
  length-messages total zero batch = refl
  length-messages total (suc left) batch = ap suc (length-messages total left (batch + 1))

  -- A delivery that never fails has received the messages, in order.
  module _ {ℓ} {D : Type ℓ} (deliver : Replay → D → Bool × D) where
    abbrev pub received : List Replay → D → D
    received [] d = d
    received (m ∷ ms) d = received ms (deliver m d).1

    pub deliver_from-received :
        ((m : Replay) (d : D) → (deliver m d).0 ≡ true)
        → (total left batch : ℕ) (d : D)
        → deliver_from id size ops deliver total left batch d
          ≡ (true, received (messages total left batch) d)
    unfolding deliver_from messages
    deliver_from-received fine total zero batch d = refl
    deliver_from-received fine total (suc left) batch d =
        rw (fine (batch_message id size ops total batch) d)
          (deliver_from-received fine total left (batch + 1) _)

replay_ops-received :
    (st : Store) (size : ℕ) {D : Type 0} (deliver : Replay → D → Bool × D) (id : String)
    (r : Result StoreError (List StoredOp)) (os : List StoredOp) (d : D)
    → r ≡ ok os
    → ((m : Replay) (x : D) → (deliver m x).0 ≡ true)
    → replay_ops st size deliver id r d ≡ (
      ok tt,
      received id size os deliver
          (messages id size os (total_batches size (length os)) (total_batches size (length os)) 0)
          d,
    )
unfolding replay
replay_ops-received st size deliver id r os d e fine =
    let total = total_batches size (length os) in
    rw e (
      ap (delivered st size deliver)
        (deliver_from-received id size os deliver fine total total 0 d))

-- Over a store that keeps its contract, in a valid state, with a positive batch size: where the store
-- answers and the subscriber takes every batch, a replay succeeds and hands over every operation
-- after `n`, once and in order, in one batch or more of at most `size` operations, numbered from 1,
-- the last one flagged.
pub replay_complete :
    (st : Store) (v : Views st.State) (law : Contract st v) (size : ℕ) {D : Type 0}
    (deliver : Replay → D → Bool × D) (id : String) (n : ℤ) (s : st.State) (d : D)
    (os : List StoredOp)
    → 0 < size
    → ((m : Replay) (x : D) → (deliver m x).0 ≡ true)
    → v.IsValid s
    → (st.get_ops_since id n s).0 ≡ ok os
    → let total = total_batches size (length os) in
      let ms = messages id size os total total 0 in
      ((replay st size deliver id n s d).0 ≡ ok tt)
      × ((replay st size deliver id n s d).2 ≡ received id size os deliver ms d)
      × (all_ops id size os ms ≡ map to_replay_op (since n (v.log id s)))
      × Batches id size os total 0 ms
      × (length ms ≡ total)
      × (0 < total)
unfolding replay
replay_complete st v law size deliver id n s d os pos fine valid e =
    let total = total_batches size (length os) in
    let run = replay_ops-received st size deliver id _ os d e fine in
    (
      ap (λ x. x.0) run,
      ap (λ x. x.1) run,
      rw (← law.since_ok id n s os valid e)
          (all_ops_whole id size os total (total_batches_enough size (length os) pos)),
      messages-Batches id size os total total 0,
      length-messages id size os total total 0,
      total_batches_pos size (length os),
    )
