-- ===== src/Inbound/Steps.antt =====
-- The queue's transactions as steps, in whatever order the workers take them.
use social_media_manager.Prelude.{
  ℕ, String, ◌≡◌, refl, sym, Bool, true, false, not, ◌||◌, Option, none, some, List, [], ◌∷◌, ◌==◌,
  find?, filter, any, arith, Bool-cases, Option-cases, inl, inr,
}
use mathlib.Core.Path.{subst}
use social_media_manager.Prelude.Text.{contains}
use social_media_manager.Prelude.Rows.{update_first, find?-meets, update_first-none}
use social_media_manager.Inbound.Jobs.{Job, Queue, is_pending, is_of, waits, runs}
use social_media_manager.Inbound.Enqueue.{
  Delivery, is_receipt, extend, new_job, add_message, enqueue_new, enqueue_inbound_message,
}
use social_media_manager.Inbound.Claim.{
  take_lease, lease_row, is_due, is_ready, is_candidate, earliest, claim_due_job, claim_sender_job,
}
use social_media_manager.Inbound.View.{
  stay, Moves, IsExclusive, of_channel, of_sender, keep-Moves, take-Moves, extend-Moves,
  extend-apart,
}
use social_media_manager.Inbound.Exclusive.{keep-IsExclusive, take-IsExclusive}
use social_media_manager.Inbound.Merge.{append-Moves, append-IsExclusive}

-- What a transaction does to the jobs: the batches stay exclusive and every sender's line moves.
pub record IsOrderly (before after : List Job) : Type 0 where
  pub exclusive : IsExclusive after
  pub moves : (channel sender : String) → Moves channel sender before after

pub unchanged-IsOrderly : (jobs : List Job) → IsExclusive jobs → IsOrderly jobs jobs
unchanged-IsOrderly jobs ex = record { exclusive = ex; moves = λ c s. stay refl refl }

-- An update that changes neither the state nor the messages of the row that it finds.
pub keep-IsOrderly :
    (p : Job → Bool) (f : Job → Job) (jobs : List Job)
    → ((j : Job)
        → ((f j).status ≡ j.status)
          × ((f j).message_parts ≡ j.message_parts)
          × ((f j).channel ≡ j.channel)
          × ((f j).sender_id ≡ j.sender_id))
    → IsExclusive jobs
    → IsOrderly jobs (update_first p f jobs)
keep-IsOrderly p f jobs same ex = elim (Option-cases (find? p jobs)) [
  | inl absent ↦ rw (update_first-none p f jobs absent) (unchanged-IsOrderly jobs ex)
  | inr (x, found) ↦
      let (status, parts, channel, sender) = same x in
      record {
        exclusive = keep-IsExclusive p f jobs x found channel sender status ex;
        moves = keep-Moves p f jobs x found channel sender status parts ex;
      }
]

-- `any` finds nothing that a search would find.
pub any-find : (q : Job → Bool) (jobs : List Job) → any q jobs ≡ false → find? q jobs ≡ none
any-find q [] h = refl
any-find q (j ∷ jobs) h = ground (arith, any-find q jobs)

lease-IsOrderly :
    (p : Job → Bool) (token : String) (now : ℕ) (q : Queue) (o : Option Job)
    → find? p q.jobs ≡ o
    → ((j : Job) → p j ≡ true → is_pending j.status ≡ true)
    → ((j : Job) → p j ≡ true → find? (runs j.channel j.sender_id) q.jobs ≡ none)
    → IsExclusive q.jobs
    → IsOrderly q.jobs (lease_row p token now q o).1.jobs
lease-IsOrderly p token now q none found waiting idle ex = unchanged-IsOrderly q.jobs ex
lease-IsOrderly p token now q (some j) found waiting idle ex =
    let meets = find?-meets p q.jobs j found in
    record {
      exclusive =
          take-IsExclusive p (take_lease token now) q.jobs j found refl refl refl (idle j meets) ex;
      moves =
          take-Moves p (take_lease token now) q.jobs j found refl refl (waiting j meets) refl refl
            (idle j meets) ex;
    }

pub candidate-meets :
    (p : Job → Bool) (c : Option Job) (j : Job) → is_candidate p c j ≡ true → p j ≡ true
candidate-meets p none j h = absurd (cc)
candidate-meets p (some c) j h = ground arith

pub claim_due-IsOrderly :
    (locked : Job → Bool) (token : String) (now : ℕ) (q : Queue)
    → IsExclusive q.jobs
    → IsOrderly q.jobs (claim_due_job locked token now q).1.jobs
unfolding claim_due_job
claim_due-IsOrderly locked token now q ex =
    let c = earliest (filter (is_due locked now q.jobs) q.jobs) in
    lease-IsOrderly (is_candidate (is_due locked now q.jobs) c) token now q
      (find? (is_candidate (is_due locked now q.jobs) c) q.jobs) refl
      (λ j h. ground (arith, candidate-meets (is_due locked now q.jobs) c j h))
      (λ j h.
        any-find (runs j.channel j.sender_id) q.jobs
          (ground (arith, candidate-meets (is_due locked now q.jobs) c j h)))
      ex

-- What is known of a sender, at a row that is of that sender.
at_own :
    (P : String → String → Type 0) (channel sender : String) (j : Job)
    → is_of channel sender j ≡ true
    → P channel sender
    → P j.channel j.sender_id
at_own P channel sender j h k =
    subst (λ s. P j.channel s) (sym (of_sender channel sender j h))
      (subst (λ c. P c sender) (sym (of_channel channel sender j h)) k)

pub claim_sender-IsOrderly :
    (locked : Job → Bool) (channel sender token : String) (now : ℕ) (q : Queue)
    → IsExclusive q.jobs
    → IsOrderly q.jobs (claim_sender_job locked channel sender token now q).1.jobs
unfolding claim_sender_job
claim_sender-IsOrderly locked channel sender token now q ex =
    elim (Bool-cases (any (runs channel sender) q.jobs)) [
      | inl active ↦ rw (active, claim_sender_job) (unchanged-IsOrderly q.jobs ex)
      | inr idle ↦
          let ready = is_ready locked channel sender now in
          let c = earliest (filter ready q.jobs) in
          rw (idle, claim_sender_job)
            (lease-IsOrderly (is_candidate ready c) token now q
              (find? (is_candidate ready c) q.jobs) refl
              (λ j h. ground (arith, candidate-meets ready c j h))
              (λ j h.
                at_own (λ a b. find? (runs a b) q.jobs ≡ none) channel sender j
                  (ground (arith, candidate-meets ready c j h))
                  (any-find (runs channel sender) q.jobs idle))
              ex)
    ]

pub own_waits :
    (channel sender : String) (j : Job)
    → waits channel sender j ≡ true
    → (is_pending j.status ≡ true) × (is_of channel sender j ≡ true)
own_waits channel sender j h = ground arith

add-IsOrderly :
    (d : Delivery) (id : String) (now : ℕ) (q : Queue) (o : Option Job)
    → find? (waits d.channel d.sender_id) q.jobs ≡ o
    → IsExclusive q.jobs
    → IsOrderly q.jobs (add_message d id now q o).jobs
unfolding add_message
add-IsOrderly d id now q none vacant ex = record {
  exclusive = append-IsExclusive q.jobs (new_job d id now) refl vacant ex;
  moves = append-Moves q.jobs (new_job d id now) refl vacant d.text refl;
}
add-IsOrderly d id now q (some j) found ex =
    let mine = waits d.channel d.sender_id in
    let (pending_j, own) = own_waits d.channel d.sender_id j (find?-meets mine q.jobs j found) in
    record {
      exclusive = keep-IsExclusive mine (extend d now) q.jobs j found refl refl refl ex;
      moves = λ c s. elim (Bool-cases (is_of c s j)) [
        | inl here ↦
            extend-Moves mine (extend d now) q.jobs j found refl refl d.text pending_j refl refl ex
              c s here
        | inr other ↦ extend-apart mine (extend d now) q.jobs j found refl refl c s other
      ];
    }

enqueue_new-IsOrderly :
    (d : Delivery) (id : String) (now : ℕ) (q : Queue)
    → IsExclusive q.jobs
    → IsOrderly q.jobs (enqueue_new d id now q).1.jobs
unfolding enqueue_new
enqueue_new-IsOrderly d id now q ex = elim (Bool-cases (any (is_receipt d) q.receipts)) [
  | inl known ↦ rw known (unchanged-IsOrderly q.jobs ex)
  | inr fresh ↦
      rw fresh (add-IsOrderly d id now q (find? (waits d.channel d.sender_id) q.jobs) refl ex)
]

pub enqueue-IsOrderly :
    (d : Delivery) (id : String) (now : ℕ) (q : Queue)
    → IsExclusive q.jobs
    → IsOrderly q.jobs (enqueue_inbound_message d id now q).1.jobs
unfolding enqueue_inbound_message
enqueue-IsOrderly d id now q ex =
    elim (Bool-cases (not (contains ("whatsapp" ∷ "instagram" ∷ []) d.channel))) [
      | inl unsupported ↦ rw unsupported (unchanged-IsOrderly q.jobs ex)
      | inr supported ↦ elim (Bool-cases (d.sender_id == "" || d.message_id == "")) [
        | inl unnamed ↦ rw (supported, unnamed) (unchanged-IsOrderly q.jobs ex)
        | inr named ↦ rw (supported, named) (enqueue_new-IsOrderly d id now q ex)
      ]
    ]
