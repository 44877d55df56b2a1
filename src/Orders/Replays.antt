-- ===== src/Orders/Replays.antt =====
-- A payment proof counts for one order only, also after that order was deleted.
use social_media_manager.Prelude.{
  ℕ, String, ◌≡◌, refl, Bool, true, false, ◌||◌, Option, none, some, List, [], ◌∷◌, ◌==◌, find?,
  any, eq_refl, arith, Bool-cases, inl, inr,
}
use social_media_manager.Prelude.Result.{ok}
use social_media_manager.Orders.Table.{PaymentStatus, Order, Replay, Store, find_order}
use social_media_manager.Orders.Payment.{
  ProofMetadata, replay_detected, order_replays, row_replays, find_replay, replay_of,
  set_payment_status,
}
use social_media_manager.Orders.Delete.{eq_key, nonempty, insert_replay, keep_replay, finish_delete}

-- The store knows an earlier use of the proof: by another order, or in a kept replay row.
abbrev pub is_used : String → ProofMetadata → Store → Bool
is_used id p s = any (order_replays id p) s.orders || any (row_replays p) s.replays

find?-any :
    {A : Type 0} (f : A → Bool) (xs : List A) → any f xs ≡ true → (a : A) × (find? f xs ≡ some a)
find?-any f [] h = absurd (cc)
find?-any f (a ∷ xs) h = elim (Bool-cases (f a)) [
  | inl hit ↦ (a, rw hit refl)
  | inr miss ↦ let (b, e) = find?-any f xs (rw miss at h) in (b, rw miss e)
]

find?-none : {A : Type 0} (f : A → Bool) (xs : List A) → any f xs ≡ false → find? f xs ≡ none
find?-none f [] h = refl
find?-none f (a ∷ xs) h = ground (arith, find?-none f xs)

-- A status update with a proof that another order holds, or that a kept replay row has, is
-- answered with `replay_detected` and changes nothing.
pub used_proof_detected :
    (id : String) (status : PaymentStatus) (note_text : Option String) (p : ProofMetadata)
    (s : Store)
    → is_used id p s ≡ true
    → (earlier : String) × (set_payment_status id status note_text (some p) s
        ≡ (ok (replay_detected earlier), s))
unfolding set_payment_status replay_of find_replay
used_proof_detected id status note_text p s used =
    elim (Bool-cases (any (order_replays id p) s.orders)) [
      | inl by_order ↦
          let (o, e) = find?-any (order_replays id p) s.orders by_order in
          (o.id, rw (e, set_payment_status, replay_of, find_replay) refl)
      | inr new ↦
          let (r, e) = find?-any (row_replays p) s.replays (rw new at used) in
          (
            r.original_order_id,
            rw
                (
                  find?-none (order_replays id p) s.orders new,
                  set_payment_status,
                  replay_of,
                  find_replay,
                  e,
                )
                refl,
          )
    ]

kept_replay_found :
    (p : ProofMetadata) (h k : Option String) (id : String) (replays : List Replay)
    → h ≡ some p.proof_hash
    → k ≡ some p.reference_key
    → any (row_replays p) (
        insert_replay
          (record { proof_hash = h; reference_key = k; original_order_id = id })
          replays)
      ≡ true
unfolding insert_replay eq_key
kept_replay_found p none k id replays hash key = absurd (cc)
kept_replay_found p (some h) none id replays hash key = absurd (cc)
kept_replay_found p (some h) (some k) id replays hash key =
    let same_hash : h ≡ p.proof_hash = ground (arith, hash) in
    let same_key : k ≡ p.reference_key = ground (arith, key) in
    rw (same_hash, same_key)
      (elim (Bool-cases (any (row_replays p) replays)) [
        | inl there ↦ rw (there, insert_replay) there
        | inr new ↦ rw (new, insert_replay) (ground (arith, eq_refl p.proof_hash))
      ])

-- After the last transaction of deleting an order that holds a proof, with a hash that is not
-- empty, every status update with the same hash and reference key is answered with
-- `replay_detected` and changes nothing.
pub deleted_proof_detected :
    (deleted id : String) (restored : ℕ) (status : PaymentStatus) (note_text : Option String)
    (p : ProofMetadata) (s : Store) (row : Order)
    → find_order deleted s.orders ≡ some row
    → row.payment_proof_hash ≡ some p.proof_hash
    → row.payment_reference_key ≡ some p.reference_key
    → (p.proof_hash == "") ≡ false
    → (earlier : String) × (set_payment_status id status note_text
          (some p)
          (finish_delete deleted restored s).1
        ≡ (ok (replay_detected earlier), (finish_delete deleted restored s).1))
unfolding finish_delete keep_replay nonempty
deleted_proof_detected deleted id restored status note_text p s row found hash key given =
    used_proof_detected id status note_text p (finish_delete deleted restored s).1 (
      rw (found, finish_delete)
        (ground (
          arith,
          hash,
          given,
          kept_replay_found p row.payment_proof_hash row.payment_reference_key row.id s.replays hash
              key,
        )))
