-- ===== src/Inbound/Unanswered.antt =====
-- No batch that waits has a reply on record that Meta accepted: the transactions of enqueueing and under a lease.
use social_media_manager.Prelude.{
  ℕ, String, ◌≡◌, refl, sym, Bool, true, false, not, ◌||◌, Option, none, some, List, [], ◌∷◌, ◌++◌,
  ◌==◌, find?, filter, any, All, arith, Bool-cases, Option-cases, inl, inr,
}
use mathlib.Core.Path.{subst}
use social_media_manager.Prelude.Text.{contains}
use social_media_manager.Prelude.Rows.{update_first}
use social_media_manager.Inbound.Jobs.{Job, Queue, is_pending, waits, holds_lease}
use social_media_manager.Inbound.Enqueue.{
  Delivery, is_receipt, extend, new_job, add_message, enqueue_new, enqueue_inbound_message,
}
use social_media_manager.Inbound.Claim.{take_lease, lease_row}
use social_media_manager.Inbound.Finish.{complete, is_nonempty}
use social_media_manager.Inbound.Outbound.{
  Response, mark_row, record_row, mark_outbound_send_started, record_outbound_message,
  extract_meta_message_ids,
}

-- A batch that waits has no accepted reply on record.
abbrev pub IsUnanswered : Job → Type 0
IsUnanswered j = is_pending j.status ≡ true → is_nonempty j.outbound_ids ≡ false

abbrev pub AreUnanswered : Queue → Type 0
AreUnanswered q = All IsUnanswered q.jobs

head_found {ℓ} :
    {A : Type ℓ} (p : A → Bool) (x y : A) (xs : List A)
    → find? p (x ∷ xs) ≡ some y
    → p x ≡ true
    → x ≡ y
head_found p x y xs found meets = ground (arith, found, meets)

tail_found {ℓ} :
    {A : Type ℓ} (p : A → Bool) (x y : A) (xs : List A)
    → find? p (x ∷ xs) ≡ some y
    → p x ≡ false
    → find? p xs ≡ some y
tail_found p x y xs found misses = ground (arith, found, misses)

pub All-update_first :
    (p : Job → Bool) (f : Job → Job) (jobs : List Job)
    → ((j : Job) → p j ≡ true → IsUnanswered j → IsUnanswered (f j))
    → All IsUnanswered jobs
    → All IsUnanswered (update_first p f jobs)
unfolding update_first
All-update_first p f [] kept h = h
All-update_first p f (j ∷ jobs) kept (h, hs) = elim (Bool-cases (p j)) [
  | inl meets ↦ rw meets (kept j meets h, hs)
  | inr misses ↦ rw misses (h, All-update_first p f jobs kept hs)
]

-- With the row that the search finds.
pub All-update_found :
    (p : Job → Bool) (f : Job → Job) (jobs : List Job) (x : Job)
    → find? p jobs ≡ some x
    → IsUnanswered (f x)
    → All IsUnanswered jobs
    → All IsUnanswered (update_first p f jobs)
unfolding update_first
All-update_found p f [] x found kept h = h
All-update_found p f (j ∷ jobs) x found kept (h, hs) = elim (Bool-cases (p j)) [
  | inl meets ↦
      rw meets (subst (λ r. IsUnanswered (f r)) (sym (head_found p j x jobs found meets)) kept, hs)
  | inr misses ↦
      rw misses (h, All-update_found p f jobs x (tail_found p j x jobs found misses) kept hs)
]

pub All-find :
    (p : Job → Bool) (jobs : List Job) (x : Job)
    → find? p jobs ≡ some x
    → All IsUnanswered jobs
    → IsUnanswered x
All-find p [] x found h = absurd (cc)
All-find p (j ∷ jobs) x found (h, hs) = elim (Bool-cases (p j)) [
  | inl meets ↦ subst IsUnanswered (head_found p j x jobs found meets) h
  | inr misses ↦ All-find p jobs x (tail_found p j x jobs found misses) hs
]

All-append :
    (jobs : List Job) (x : Job)
    → IsUnanswered x
    → All IsUnanswered jobs
    → All IsUnanswered (jobs ++ x ∷ [])
All-append [] x new h = (new, tt)
All-append (j ∷ jobs) x new (h, hs) = (h, All-append jobs x new hs)

pub All-filter :
    (keep : Job → Bool) (jobs : List Job)
    → All IsUnanswered jobs
    → All IsUnanswered (filter keep jobs)
All-filter keep [] h = h
All-filter keep (j ∷ jobs) (h, hs) = elim (Bool-cases (keep j)) [
  | inl kept ↦ rw kept (h, All-filter keep jobs hs)
  | inr dropped ↦ rw dropped (All-filter keep jobs hs)
]

pub lease-AreUnanswered :
    (p : Job → Bool) (token : String) (now : ℕ) (q : Queue) (o : Option Job)
    → AreUnanswered q
    → AreUnanswered (lease_row p token now q o).1
lease-AreUnanswered p token now q none h = h
lease-AreUnanswered p token now q (some j) h =
    All-update_first p (take_lease token now) q.jobs (λ k m u w. absurd (cc)) h

add-AreUnanswered :
    (d : Delivery) (id : String) (now : ℕ) (q : Queue) (o : Option Job)
    → AreUnanswered q
    → AreUnanswered (add_message d id now q o)
unfolding add_message
add-AreUnanswered d id now q none h = All-append q.jobs (new_job d id now) (λ w. refl) h
add-AreUnanswered d id now q (some j) h =
    All-update_first (waits d.channel d.sender_id) (extend d now) q.jobs (λ k m u. u) h

pub enqueue-AreUnanswered :
    (d : Delivery) (id : String) (now : ℕ) (q : Queue)
    → AreUnanswered q
    → AreUnanswered (enqueue_inbound_message d id now q).1
unfolding enqueue_inbound_message enqueue_new
enqueue-AreUnanswered d id now q h =
    let added = add-AreUnanswered d id now q (find? (waits d.channel d.sender_id) q.jobs) h in
    elim (Bool-cases (not (contains ("whatsapp" ∷ "instagram" ∷ []) d.channel))) [
      | inl unsupported ↦ rw unsupported h
      | inr supported ↦ elim (Bool-cases (d.sender_id == "" || d.message_id == "")) [
        | inl unnamed ↦ rw (supported, unnamed) h
        | inr named ↦ elim (Bool-cases (any (is_receipt d) q.receipts)) [
          | inl known ↦ rw (supported, named, known) h
          | inr fresh ↦ rw (supported, named, fresh) added
        ]
      ]
    ]

pub end-AreUnanswered :
    (p : Job → Bool) (f : Job → Job) (q : Queue)
    → ((j : Job) → is_pending (f j).status ≡ false)
    → AreUnanswered q
    → All IsUnanswered (update_first p f q.jobs)
end-AreUnanswered p f q over h =
    All-update_first p f q.jobs (λ j m u w. absurd (ground (arith, over j, w))) h

pub complete-AreUnanswered :
    (id token : String) (now : ℕ) (q : Queue)
    → AreUnanswered q
    → AreUnanswered (complete id token now q).1
unfolding complete
complete-AreUnanswered id token now q h =
    elim (Option-cases (find? (holds_lease id token) q.jobs)) [
      | inl lost ↦ rw (lost, complete) h
      | inr (x, found) ↦
          rw (found, complete) (end-AreUnanswered (holds_lease id token) _ q (λ j. refl) h)
    ]

lease-apart :
    (id token : String) (j : Job) → holds_lease id token j ≡ true → is_pending j.status ≡ false
lease-apart id token j h = ground arith

pub record-AreUnanswered :
    (id token : String) (r : Response) (now : ℕ) (q : Queue)
    → AreUnanswered q
    → AreUnanswered (record_outbound_message id token r now q)
unfolding record_outbound_message record_row
record-AreUnanswered id token r now q h =
    let ids = extract_meta_message_ids r in
    elim (Bool-cases (id == "" || token == "" || not (is_nonempty ids))) [
      | inl unnamed ↦ rw unnamed h
      | inr named ↦ rw named (
          All-update_first (holds_lease id token) (record_row ids now) q.jobs
            (λ j m u w. absurd (ground (arith, lease-apart id token j m, w))) h)
    ]

pub mark-AreUnanswered :
    (id token : String) (now : ℕ) (q : Queue)
    → AreUnanswered q
    → AreUnanswered (mark_outbound_send_started id token now q).1
unfolding mark_outbound_send_started
mark-AreUnanswered id token now q h = elim (Bool-cases (id == "" || token == "")) [
  | inl unnamed ↦ rw unnamed h
  | inr named ↦
      rw named (All-update_first (holds_lease id token) (mark_row now) q.jobs (λ j m u. u) h)
]
