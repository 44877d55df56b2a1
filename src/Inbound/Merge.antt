-- ===== src/Inbound/Merge.antt =====
-- A batch in processing that is put before the batch that waits, and the new batch of a sender.
use social_media_manager.Prelude.{
  ◌+◌, ◌≤◌, String, ◌≡◌, refl, ap, ◌∙◌, Bool, true, false, none, some, List, [], ◌∷◌, ◌++◌, find?,
  filter, arith, Bool-cases, inl, inr,
}
use social_media_manager.Prelude.Rows.{
  update_first, count, one_if, none_counted, find-leave, find-stay, find_unique, find-elsewhere,
}
use social_media_manager.Inbound.Jobs.{
  Job, is_pending, is_processing, is_terminal, is_of, waits, runs,
}
use social_media_manager.Inbound.View.{
  parts_of, stay, arrive, give_back, Moves, IsExclusive, at_sender,
}
use social_media_manager.Inbound.Exclusive.{end-IsExclusive, keep-IsExclusive}

-- `g` changes the row `y` that waits, then `f` ends the row `x` in processing.
module _ (p w : Job → Bool) (f g : Job → Job) (jobs : List Job) (x y : Job)
    (found : find? p jobs ≡ some x) (found_waiting : find? w jobs ≡ some y)
    (p_running : (j : Job) → is_pending j.status ≡ true → p j ≡ false)
    (x_runs : is_processing x.status ≡ true) (y_waits : is_pending y.status ≡ true)
    (f_ends : is_terminal (f x).status ≡ true) (g_waits : (g y).status ≡ y.status)
    (f_channel : (f x).channel ≡ x.channel) (f_sender : (f x).sender_id ≡ x.sender_id)
    (g_channel : (g y).channel ≡ y.channel) (g_sender : (g y).sender_id ≡ y.sender_id) where
  abbrev merged : List Job
  merged = update_first w g jobs

  found_after : find? p merged ≡ some x
  found_after =
      find-elsewhere p w g jobs y found_waiting (p_running y y_waits)
        (p_running (g y) (rw g_waits y_waits))
      ∙ found

  pub merge-IsExclusive : IsExclusive jobs → IsExclusive (update_first p f merged)
  merge-IsExclusive ex =
      end-IsExclusive p f merged x found_after f_channel f_sender f_ends
        (keep-IsExclusive w g jobs y found_waiting g_channel g_sender g_waits ex)

  pub merge-Moves :
      x.channel ≡ y.channel
      → x.sender_id ≡ y.sender_id
      → (g y).message_parts ≡ x.message_parts ++ y.message_parts
      → IsExclusive jobs
      → (channel sender : String) → Moves channel sender jobs (update_first p f merged)
  merge-Moves same_channel same_sender joined ex channel sender =
      elim (Bool-cases (is_of channel sender y)) [
        | inr other ↦
            let x_other : is_of channel sender x ≡ false = rw (same_channel, same_sender) other in
            let gy_other : is_of channel sender (g y) ≡ false = rw (g_channel, g_sender) other in
            let fx_other : is_of channel sender (f x) ≡ false = rw (f_channel, f_sender) x_other in
            stay
              (ap parts_of (
                find-elsewhere (runs channel sender) p f merged x found_after
                  (ground (arith, x_other)) (ground (arith, fx_other))
                ∙ find-elsewhere (runs channel sender) w g jobs y found_waiting
                    (ground (arith, other)) (ground (arith, gy_other))))
              (ap parts_of (
                find-elsewhere (waits channel sender) p f merged x found_after
                  (ground (arith, x_other)) (ground (arith, fx_other))
                ∙ find-elsewhere (waits channel sender) w g jobs y found_waiting
                    (ground (arith, other)) (ground (arith, gy_other))))
        | inl own ↦
            let x_own : is_of channel sender x ≡ true = rw (same_channel, same_sender) own in
            let gy_own : is_of channel sender (g y) ≡ true = rw (g_channel, g_sender) own in
            let kept = keep-IsExclusive w g jobs y found_waiting g_channel g_sender g_waits ex in
            let waits_y : waits channel sender y ≡ true = ground (arith, own, y_waits) in
            let gone =
              find-leave (runs channel sender) p f merged x found_after
                (ground (arith, x_own, x_runs)) (ground (arith, f_ends))
                (kept.one_running channel sender) in
            let before_x =
              find_unique (runs channel sender) p jobs x found (ground (arith, x_own, x_runs))
                (ex.one_running channel sender) in
            let before_y =
              find_unique (waits channel sender) w jobs y found_waiting waits_y
                (ex.one_waiting channel sender) in
            let after_y =
              find-elsewhere (waits channel sender) p f merged x found_after
                (ground (arith, x_runs)) (ground (arith, f_ends))
              ∙ find-stay (waits channel sender) w g jobs y found_waiting waits_y
                  (ground (arith, g_waits, y_waits, gy_own)) (ex.one_waiting channel sender) in
            give_back (rw gone refl) (rw (after_y, before_x, before_y) joined)
      ]

-- A row added at the end.
find-append :
    (q : Job → Bool) (jobs : List Job) (j : Job)
    → q j ≡ false
    → find? q (jobs ++ j ∷ []) ≡ find? q jobs
find-append q [] j h = ground (arith, h)
find-append q (k ∷ jobs) j h = ground (arith, find-append q jobs j h)

find-append_new :
    (q : Job → Bool) (jobs : List Job) (j : Job)
    → find? q jobs ≡ none
    → q j ≡ true
    → find? q (jobs ++ j ∷ []) ≡ some j
find-append_new q [] j h now = ground (arith, now)
find-append_new q (k ∷ jobs) j h now = ground (arith, find-append_new q jobs j)

count-append :
    (q : Job → Bool) (jobs : List Job) (j : Job)
    → count q (jobs ++ j ∷ []) ≡ count q jobs + one_if (q j)
unfolding count
count-append q [] j = omega arith
count-append q (k ∷ jobs) j = ground (arith, count-append q jobs j)

module _ (jobs : List Job) (j : Job) (j_waits : is_pending j.status ≡ true)
    (vacant : find? (waits j.channel j.sender_id) jobs ≡ none) where
  pub append-IsExclusive : IsExclusive jobs → IsExclusive (jobs ++ j ∷ [])
  append-IsExclusive ex = record {
    one_running =
        λ c s. ground (arith, count-append (runs c s) jobs j, j_waits, ex.one_running c s);
    one_waiting = λ c s. elim (Bool-cases (is_of c s j)) [
      | inr other ↦ ground (arith, count-append (waits c s) jobs j, other, ex.one_waiting c s)
      | inl own ↦ ground (
        arith,
        count-append (waits c s) jobs j,
        none_counted (waits c s) jobs
            (at_sender (λ a b. find? (waits a b) jobs ≡ none) c s j own vacant),
      )
    ];
  }

  pub append-Moves :
      (text : String)
      → j.message_parts ≡ text ∷ []
      → (channel sender : String) → Moves channel sender jobs (jobs ++ j ∷ [])
  append-Moves text only channel sender = elim (Bool-cases (is_of channel sender j)) [
    | inr other ↦
        stay (ap parts_of (find-append (runs channel sender) jobs j (ground (arith, other))))
          (ap parts_of (find-append (waits channel sender) jobs j (ground (arith, other))))
    | inl own ↦
        let none_waits : find? (waits channel sender) jobs ≡ none =
          at_sender (λ a b. find? (waits a b) jobs ≡ none) channel sender j own vacant in
        arrive text
          (ap parts_of (find-append (runs channel sender) jobs j (ground (arith, j_waits))))
          (rw
            (
              find-append_new (waits channel sender) jobs j none_waits
                  (ground (arith, j_waits, own)),
              none_waits,
            )
            only)
  ]

-- Rows dropped that no sender's batch is.
module _ (keep : Job → Bool) (kept : (j : Job) → is_terminal j.status ≡ false → keep j ≡ true) where
  find-filter :
      (q : Job → Bool) (jobs : List Job)
      → ((j : Job) → q j ≡ true → is_terminal j.status ≡ false)
      → find? q (filter keep jobs) ≡ find? q jobs
  find-filter q [] live = refl
  find-filter q (j ∷ jobs) live = ground (arith, find-filter q jobs live, live j, kept j)

  count-filter : (q : Job → Bool) (jobs : List Job) → count q (filter keep jobs) ≤ count q jobs
  unfolding count
  count-filter q [] = omega arith
  count-filter q (j ∷ jobs) = ground (arith, count-filter q jobs)

  pub filter-IsExclusive : (jobs : List Job) → IsExclusive jobs → IsExclusive (filter keep jobs)
  filter-IsExclusive jobs ex = record {
    one_running = λ c s. omega (arith, count-filter (runs c s) jobs, ex.one_running c s);
    one_waiting = λ c s. omega (arith, count-filter (waits c s) jobs, ex.one_waiting c s);
  }

  pub filter-Moves :
      (jobs : List Job) (channel sender : String) → Moves channel sender jobs (filter keep jobs)
  filter-Moves jobs channel sender =
      stay (ap parts_of (find-filter (runs channel sender) jobs (λ j h. ground (arith, h))))
        (ap parts_of (find-filter (waits channel sender) jobs (λ j h. ground (arith, h))))
