-- ===== src/Inbound/Sends.antt =====
-- The calls that a send makes, and the lease that it needs.
use social_media_manager.Prelude.{
  ℕ, zero, suc, ◌+◌, ◌≤◌, ◌<◌, String, ◌≡◌, refl, ap, ◌∙◌, true, false, none, some, ◌==◌, leb,
  find?, arith, Bool-cases, Option-cases, ◌⊎◌, inl, inr,
}
use social_media_manager.Prelude.Result.{Result, ok, err}
use social_media_manager.Prelude.Rows.{update_first-none}
use social_media_manager.Inbound.Jobs.{Job, Queue, holds_lease}
use social_media_manager.Inbound.Outbound.{
  Response, SendError, meta_error, lease_lost, max_meta_send_attempts, send_attempts,
  send_with_delivery_record, mark_row, mark_outbound_send_started, record_sent, fenced,
}

-- A loop of `left` more calls and one: its answer is that of the call `last`, and each call before it
-- failed in a way that is known not to have reached Meta.
IsLastCall : ℕ → ℕ → (ℕ → Result SendError Response) → ℕ → Type 0
IsLastCall left made send last =
    (send_attempts (suc left) made send ≡ (send last, last + 1))
    × (last ≤ made + left)
    × (made ≤ last)
    × ((k : ℕ) → made ≤ k → k < last → send k ≡ err (meta_error true))

first_call :
    (left made : ℕ) (send : ℕ → Result SendError Response)
    → send_attempts (suc left) made send ≡ (send made, made + 1)
    → IsLastCall left made send made
unfolding IsLastCall
first_call left made send e = (e, omega arith, omega arith, λ k low high. absurd (omega arith))

retried :
    (send : ℕ → Result SendError Response) (made last n : ℕ)
    → send made ≡ err (meta_error true)
    → ((k : ℕ) → made + 1 ≤ k → k < last → send k ≡ err (meta_error true))
    → made ≤ n
    → n < last
    → send n ≡ err (meta_error true)
retried send made last n e before from to = elim (Bool-cases (leb n made)) [
  | inl low ↦ let at : n ≡ made = ground (arith, low) in rw at e
  | inr high ↦ before n (ground (arith, high)) to
]

call-cases :
    (r : Result SendError Response)
    → (r ≡ err (meta_error true))
      ⊎ ((left made : ℕ) (send : ℕ → Result SendError Response)
          → send made ≡ r
          → send_attempts (suc left) made send ≡ (send made, made + 1))
unfolding send_attempts
call-cases (ok a) = inr (λ left made send e. rw (e, send_attempts) refl)
call-cases (err lease_lost) = inr (λ left made send e. rw (e, send_attempts) refl)
call-cases (err (meta_error false)) = inr (λ left made send e. rw (e, send_attempts) refl)
call-cases (err (meta_error true)) = inl refl

send_attempts_lem :
    (left made : ℕ) (send : ℕ → Result SendError Response)
    → (last : ℕ) × IsLastCall left made send last
unfolding send_attempts IsLastCall
send_attempts_lem zero made send = elim (call-cases (send made)) [
  | inl e ↦ (made, first_call zero made send (rw (e, send_attempts) refl))
  | inr stops ↦ (made, first_call zero made send (stops zero made send refl))
]
send_attempts_lem (suc k) made send = elim (call-cases (send made)) [
  | inr stops ↦ (made, first_call (suc k) made send (stops (suc k) made send refl))
  | inl e ↦
      let (last, (answer, high, low, before)) = send_attempts_lem k (made + 1) send in
      (
        last,
        (
          rw (e, send_attempts) answer,
          omega arith,
          omega arith,
          λ n from to. retried send made last n e before from to,
        ),
      )
]

unnamed_apart :
    (id token : String) → fenced id token ≡ true → (id == "" ≡ false) × (token == "" ≡ false)
unnamed_apart id token named = ground arith

held-sends :
    (id token : String) (now : ℕ) (send : ℕ → Result SendError Response) (q : Queue) (row : Job)
    → fenced id token ≡ true
    → find? (holds_lease id token) q.jobs ≡ some row
    → send_with_delivery_record id token now send q
      ≡ record_sent id token now
          (mark_outbound_send_started id token now q).1
          (send_attempts max_meta_send_attempts 0 send)
unfolding send_with_delivery_record mark_outbound_send_started
held-sends id token now send q row named held =
    let (id_given, token_given) = unnamed_apart id token named in
    rw (named, send_with_delivery_record) (rw (id_given, token_given, held) refl)

lost-sends :
    (id token : String) (now : ℕ) (send : ℕ → Result SendError Response) (q : Queue)
    → fenced id token ≡ true
    → find? (holds_lease id token) q.jobs ≡ none
    → send_with_delivery_record id token now send q ≡ (err lease_lost, 0, q)
unfolding send_with_delivery_record mark_outbound_send_started
lost-sends id token now send q named lost =
    let (id_given, token_given) = unnamed_apart id token named in
    rw (named, send_with_delivery_record)
      (rw
        (
          id_given,
          token_given,
          lost,
          update_first-none (holds_lease id token) (mark_row now) q.jobs lost,
        )
        refl)

-- A reply to an inbound batch is sent under its lease: either no row holds the lease, no call is made, the
-- send is refused and the queue stays as it is; or some row does, the send is marked before the first call,
-- at most three calls are made, the answer is that of the last of them, each call before it failed in a way
-- that is known not to have reached Meta, and after an answer of Meta its ids are recorded.
pub send_with_delivery_record-calls :
    (id token : String) (now : ℕ) (send : ℕ → Result SendError Response) (q : Queue)
    → fenced id token ≡ true
    → ((find? (holds_lease id token) q.jobs ≡ none)
        × (send_with_delivery_record id token now send q ≡ (err lease_lost, 0, q)))
      ⊎ ((row : Job) × (find? (holds_lease id token) q.jobs ≡ some row)
          × (last : ℕ) × (last < 3)
          × (send_with_delivery_record id token now send q
              ≡ record_sent id token now
                  (mark_outbound_send_started id token now q).1
                  (send last, last + 1))
          × ((k : ℕ) → k < last → send k ≡ err (meta_error true)))
unfolding IsLastCall
send_with_delivery_record-calls id token now send q named =
    elim (Option-cases (find? (holds_lease id token) q.jobs)) [
      | inl lost ↦ inl (lost, lost-sends id token now send q named lost)
      | inr (row, held) ↦
          let (last, (answer, high, low, before)) = send_attempts_lem 2 0 send in
          inr (
            row,
            held,
            last,
            omega (arith, high),
            held-sends id token now send q row named held
                ∙ ap (record_sent id token now (mark_outbound_send_started id token now q).1)
                    answer,
            λ k to. before k (omega arith) to,
          )
    ]
