-- ===== src/Inbound/Exclusive.antt =====
-- An update of one row keeps the batches of every sender apart.
use social_media_manager.Prelude.{
  ◌≤◌, String, ◌≡◌, Bool, true, none, some, List, find?, arith, Bool-cases, inl, inr,
}
use social_media_manager.Prelude.Rows.{update_first, count, none_counted, count-update_first}
use social_media_manager.Inbound.Jobs.{
  Job, is_pending, is_processing, is_terminal, is_of, waits, runs,
}
use social_media_manager.Inbound.View.{IsExclusive, at_sender, of_kept}

module _ (p : Job → Bool) (f : Job → Job) (jobs : List Job) (x : Job)
    (found : find? p jobs ≡ some x) (channel_kept : (f x).channel ≡ x.channel)
    (sender_kept : (f x).sender_id ≡ x.sender_id) where
  own_kept : (channel sender : String) → is_of channel sender (f x) ≡ is_of channel sender x
  own_kept channel sender = of_kept p f jobs x found channel_kept sender_kept channel sender

  -- No test is met by more rows than before, unless it is met anew.
  pub count-kept :
      (q : Job → Bool)
      → (q (f x) ≡ true → q x ≡ true)
      → count q jobs ≤ 1
      → count q (update_first p f jobs) ≤ 1
  count-kept q imp one = elim (Bool-cases (q (f x))) [
    | inl after ↦ ground (arith, count-update_first q p f jobs x found, imp after, one, after)
    | inr not_after ↦ ground (arith, count-update_first q p f jobs x found, one, not_after)
  ]

  pub count-entered : (q : Job → Bool) → find? q jobs ≡ none → count q (update_first p f jobs) ≤ 1
  count-entered q vacant =
      ground (arith, count-update_first q p f jobs x found, none_counted q jobs vacant)

  pub end-IsExclusive :
      is_terminal (f x).status ≡ true → IsExclusive jobs → IsExclusive (update_first p f jobs)
  end-IsExclusive over ex = record {
    one_running = λ c s. count-kept (runs c s) (λ h. ground (arith, over, h)) (ex.one_running c s);
    one_waiting = λ c s. count-kept (waits c s) (λ h. ground (arith, over, h)) (ex.one_waiting c s);
  }

  pub keep-IsExclusive :
      (f x).status ≡ x.status → IsExclusive jobs → IsExclusive (update_first p f jobs)
  keep-IsExclusive kept ex = record {
    one_running = λ c s.
        count-kept (runs c s) (λ h. ground (arith, kept, h, own_kept c s)) (ex.one_running c s);
    one_waiting = λ c s.
        count-kept (waits c s) (λ h. ground (arith, kept, h, own_kept c s)) (ex.one_waiting c s);
  }

  -- The row enters a state in which its sender has no other.
  pub return-IsExclusive :
      is_pending (f x).status ≡ true
      → find? (waits x.channel x.sender_id) jobs ≡ none
      → IsExclusive jobs
      → IsExclusive (update_first p f jobs)
  return-IsExclusive now vacant ex = record {
    one_running = λ c s. count-kept (runs c s) (λ h. ground (arith, now, h)) (ex.one_running c s);
    one_waiting = λ c s. elim (Bool-cases (is_of c s x)) [
      | inr other ↦
          count-kept (waits c s) (λ h. ground (arith, h, other, own_kept c s)) (ex.one_waiting c s)
      | inl own ↦
          count-entered (waits c s)
            (at_sender (λ a b. find? (waits a b) jobs ≡ none) c s x own vacant)
    ];
  }

  pub take-IsExclusive :
      is_processing (f x).status ≡ true
      → find? (runs x.channel x.sender_id) jobs ≡ none
      → IsExclusive jobs
      → IsExclusive (update_first p f jobs)
  take-IsExclusive now vacant ex = record {
    one_running = λ c s. elim (Bool-cases (is_of c s x)) [
      | inr other ↦
          count-kept (runs c s) (λ h. ground (arith, h, other, own_kept c s)) (ex.one_running c s)
      | inl own ↦
          count-entered (runs c s)
            (at_sender (λ a b. find? (runs a b) jobs ≡ none) c s x own vacant)
    ];
    one_waiting = λ c s. count-kept (waits c s) (λ h. ground (arith, now, h)) (ex.one_waiting c s);
  }
