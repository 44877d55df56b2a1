-- ===== src/Orders/Outcomes.antt =====
-- How a status update can end: refused, with the store as it was, or applied to the row.
use social_media_manager.Prelude.{
  String, ◌≡◌, refl, sym, false, not, ◌&&◌, ◌⊎◌, inl, inr, Option, none, some, Bool-cases,
  Option-cases,
}
use mathlib.Core.Path.{subst}
use social_media_manager.Prelude.Result.{Result, ok}
use social_media_manager.Orders.Table.{PaymentStatus, Order, Store, is_paid, is_backed, find_order}
use social_media_manager.Orders.Payment.{
  ProofMetadata, PaymentError, PaymentReply, updated, has_proof, is_pending, totals_after,
  apply_status, update_row, replay_of, set_payment_status,
}
use social_media_manager.Orders.Rows.{id-find}

-- The reply is not `updated`.
abbrev pub IsRefusal : Result PaymentError PaymentReply → Type 0
IsRefusal (ok (updated status applied)) = ⊥
IsRefusal _ = Unit

pub record IsApplied (id : String) (status : PaymentStatus) (note_text : Option String)
    (proof : Option ProofMetadata) (s : Store) (o : Result PaymentError PaymentReply × Store)
    : Type 0 where
  pub row : Order
  pub found : find_order id s.orders ≡ some row
  pub found_by_row : find_order row.id s.orders ≡ some row
  pub fresh : replay_of id proof s ≡ none
  pub allowed : (is_paid status && not (is_backed row.inventory_status)) ≡ false
  pub awaited : (has_proof proof && not (is_pending row.payment_status)) ≡ false
  pub reply : o.0 ≡ ok (updated status (totals_after status row))
  pub store : o.1 ≡ apply_status status note_text proof row s

abbrev pub Outcome :
    String
    → PaymentStatus
    → Option String
    → Option ProofMetadata
    → Store
    → Result PaymentError PaymentReply × Store
    → Type 0
Outcome id status note_text proof s o =
    (IsRefusal o.0 × (o.1 ≡ s)) ⊎ IsApplied id status note_text proof s o

update_row-Outcome :
    (id : String) (status : PaymentStatus) (note_text : Option String)
    (proof : Option ProofMetadata) (s : Store) (row : Order)
    → find_order id s.orders ≡ some row
    → replay_of id proof s ≡ none
    → Outcome id status note_text proof s (update_row status note_text proof row s)
unfolding update_row
update_row-Outcome id status note_text proof s row found fresh =
    elim (Bool-cases (is_paid status && not (is_backed row.inventory_status))) [
      | inl unbacked ↦ elim (Bool-cases (has_proof proof)) [
        | inl proved ↦ rw (unbacked, proved) (inl (tt, refl))
        | inr admin ↦ rw (unbacked, admin) (inl (tt, refl))
      ]
      | inr allowed ↦ elim (Bool-cases (has_proof proof && not (is_pending row.payment_status))) [
        | inl late ↦ rw (allowed, late) (inl (tt, refl))
        | inr awaited ↦
            rw (allowed, awaited)
              (inr (record {
                row = row;
                found = found;
                found_by_row =
                    subst (λ k. find_order k s.orders ≡ some row) (sym (id-find id s.orders found))
                      found;
                fresh = fresh;
                allowed = allowed;
                awaited = awaited;
                reply = refl;
                store = refl;
              }))
      ]
    ]

-- A status update is refused and changes nothing, or is applied to the row that it names: then
-- its proof was used by no other order, the row's stock allows a paid status, and a proof finds
-- the order pending.
pub set_payment_status-Outcome :
    (id : String) (status : PaymentStatus) (note_text : Option String)
    (proof : Option ProofMetadata) (s : Store)
    → Outcome id status note_text proof s (set_payment_status id status note_text proof s)
unfolding set_payment_status
set_payment_status-Outcome id status note_text proof s =
    elim (Option-cases (replay_of id proof s)) [
      | inr (earlier, used) ↦ rw (used, set_payment_status) (inl (tt, refl))
      | inl fresh ↦ elim (Option-cases (find_order id s.orders)) [
        | inl missing ↦ rw (fresh, set_payment_status, missing) (inl (tt, refl))
        | inr (row, found) ↦
            rw (fresh, set_payment_status, found)
              (update_row-Outcome id status note_text proof s row found fresh)
      ]
    ]
