-- ===== src/Inbound/View.antt =====
-- A sender's messages as a line: those of the batch in processing, then those of the batch that waits.
use social_media_manager.Prelude.{
  ◌≤◌, String, ◌≡◌, refl, sym, ap, ◌∙◌, Bool, true, false, Option, none, some, List, [], ◌∷◌, ◌++◌,
  find?, eq_iff, arith, Bool-cases, inl, inr,
}
use mathlib.Core.List.{append-nil}
use mathlib.Core.Path.{subst}
use social_media_manager.Prelude.Rows.{
  update_first, count, find-leave, find-enter, find-stay, find_unique, find-elsewhere,
}
use social_media_manager.Inbound.Jobs.{
  Job, is_pending, is_processing, is_terminal, is_of, waits, runs,
}

-- The messages of the first job that meets the test.
abbrev pub parts_of : Option Job → List String
parts_of none = []
parts_of (some j) = j.message_parts

abbrev pub running : String → String → List Job → List String
running channel sender jobs = parts_of (find? (runs channel sender) jobs)

abbrev pub waiting : String → String → List Job → List String
waiting channel sender jobs = parts_of (find? (waits channel sender) jobs)

-- One move of a sender's line, from a batch in processing and a batch that waits to both afterwards.
pub data Move (r w r' w' : List String) : Type 0 where
  stay : r' ≡ r → w' ≡ w → Move r w r' w'
  arrive : (text : String) → r' ≡ r → w' ≡ w ++ text ∷ [] → Move r w r' w'
  take_batch : r ≡ [] → r' ≡ w → w' ≡ [] → Move r w r' w'
  end_batch : r' ≡ [] → w' ≡ w → Move r w r' w'
  give_back : r' ≡ [] → w' ≡ r ++ w → Move r w r' w'

abbrev pub Moves : String → String → List Job → List Job → Type 0
Moves channel sender before after =
    Move (running channel sender before) (waiting channel sender before)
      (running channel sender after) (waiting channel sender after)

-- Of every sender at most one batch is in processing and at most one waits.
pub record IsExclusive (jobs : List Job) : Type 0 where
  pub one_running : (channel sender : String) → count (runs channel sender) jobs ≤ 1
  pub one_waiting : (channel sender : String) → count (waits channel sender) jobs ≤ 1

pub of_channel :
    (channel sender : String) (j : Job) → is_of channel sender j ≡ true → j.channel ≡ channel
of_channel channel sender j h = ground (arith, eq_iff j.channel channel)

pub of_sender :
    (channel sender : String) (j : Job) → is_of channel sender j ≡ true → j.sender_id ≡ sender
of_sender channel sender j h = ground (arith, eq_iff j.channel channel, eq_iff j.sender_id sender)

-- What is known of a row's own sender, at any sender that the row is of.
pub at_sender {κ} :
    (P : String → String → Type κ) (channel sender : String) (j : Job)
    → is_of channel sender j ≡ true
    → P j.channel j.sender_id
    → P channel sender
at_sender P channel sender j h k =
    subst (λ s. P channel s) (of_sender channel sender j h)
      (subst (λ c. P c j.sender_id) (of_channel channel sender j h) k)

-- An update `f` of the row `x` that `p` finds. The row stays its sender's.
module _ (p : Job → Bool) (f : Job → Job) (jobs : List Job) (x : Job)
    (found : find? p jobs ≡ some x) (channel_kept : (f x).channel ≡ x.channel)
    (sender_kept : (f x).sender_id ≡ x.sender_id) where
  pub of_kept : (channel sender : String) → is_of channel sender (f x) ≡ is_of channel sender x
  of_kept channel sender = rw (channel_kept, sender_kept) refl

  apart :
      (channel sender : String)
      → is_of channel sender x ≡ false
      → Moves channel sender jobs (update_first p f jobs)
  apart channel sender other =
      stay
        (ap parts_of (
          find-elsewhere (runs channel sender) p f jobs x found (ground (arith, other))
            (ground (arith, other, of_kept channel sender))))
        (ap parts_of (
          find-elsewhere (waits channel sender) p f jobs x found (ground (arith, other))
            (ground (arith, other, of_kept channel sender))))

  -- A batch in processing ends.
  pub end-Moves :
      is_processing x.status ≡ true
      → is_terminal (f x).status ≡ true
      → IsExclusive jobs
      → (channel sender : String) → Moves channel sender jobs (update_first p f jobs)
  end-Moves was over ex channel sender = elim (Bool-cases (is_of channel sender x)) [
    | inr other ↦ apart channel sender other
    | inl own ↦
        end_batch
          (ap parts_of (
            find-leave (runs channel sender) p f jobs x found (ground (arith, was, own))
              (ground (arith, over)) (ex.one_running channel sender)))
          (ap parts_of (
            find-elsewhere (waits channel sender) p f jobs x found (ground (arith, was))
              (ground (arith, over))))
  ]

  -- A batch in processing waits again, where none waits.
  pub return-Moves :
      is_processing x.status ≡ true
      → is_pending (f x).status ≡ true
      → (f x).message_parts ≡ x.message_parts
      → find? (waits x.channel x.sender_id) jobs ≡ none
      → IsExclusive jobs
      → (channel sender : String) → Moves channel sender jobs (update_first p f jobs)
  return-Moves was now same vacant ex channel sender = elim (Bool-cases (is_of channel sender x)) [
    | inr other ↦ apart channel sender other
    | inl own ↦
        let none_waits : find? (waits channel sender) jobs ≡ none =
          at_sender (λ c s. find? (waits c s) jobs ≡ none) channel sender x own vacant in
        let here =
          find_unique (runs channel sender) p jobs x found (ground (arith, was, own))
            (ex.one_running channel sender) in
        let gone =
          find-leave (runs channel sender) p f jobs x found (ground (arith, was, own))
            (ground (arith, now)) (ex.one_running channel sender) in
        let back =
          find-enter (waits channel sender) p f jobs x found none_waits
            (ground (arith, now, own, of_kept channel sender)) in
        give_back (rw gone refl)
          (rw (back, here, none_waits) (same ∙ sym (append-nil x.message_parts)))
  ]

  parts-keep :
      (q : Job → Bool)
      → q (f x) ≡ q x
      → (f x).message_parts ≡ x.message_parts
      → count q jobs ≤ 1
      → parts_of (find? q (update_first p f jobs)) ≡ parts_of (find? q jobs)
  parts-keep q kept same one = elim (Bool-cases (q x)) [
    | inl meets ↦
        rw
          (
            find-stay q p f jobs x found meets (kept ∙ meets) one,
            find_unique q p jobs x found meets one,
          )
          same
    | inr misses ↦ ap parts_of (find-elsewhere q p f jobs x found misses (kept ∙ misses))
  ]

  -- A row keeps its state and its messages.
  pub keep-Moves :
      (f x).status ≡ x.status
      → (f x).message_parts ≡ x.message_parts
      → IsExclusive jobs
      → (channel sender : String) → Moves channel sender jobs (update_first p f jobs)
  keep-Moves kept same ex channel sender =
      stay
        (parts-keep (runs channel sender) (rw (kept, of_kept channel sender) refl) same
          (ex.one_running channel sender))
        (parts-keep (waits channel sender) (rw (kept, of_kept channel sender) refl) same
          (ex.one_waiting channel sender))

  -- A batch that waits is taken, where none is in processing.
  pub take-Moves :
      is_pending x.status ≡ true
      → is_processing (f x).status ≡ true
      → (f x).message_parts ≡ x.message_parts
      → find? (runs x.channel x.sender_id) jobs ≡ none
      → IsExclusive jobs
      → (channel sender : String) → Moves channel sender jobs (update_first p f jobs)
  take-Moves was now same vacant ex channel sender = elim (Bool-cases (is_of channel sender x)) [
    | inr other ↦ apart channel sender other
    | inl own ↦
        let none_runs : find? (runs channel sender) jobs ≡ none =
          at_sender (λ c s. find? (runs c s) jobs ≡ none) channel sender x own vacant in
        let here =
          find_unique (waits channel sender) p jobs x found (ground (arith, was, own))
            (ex.one_waiting channel sender) in
        let gone =
          find-leave (waits channel sender) p f jobs x found (ground (arith, was, own))
            (ground (arith, now)) (ex.one_waiting channel sender) in
        let back =
          find-enter (runs channel sender) p f jobs x found none_runs
            (ground (arith, now, own, of_kept channel sender)) in
        take_batch (rw none_runs refl) (rw (back, here) same) (rw gone refl)
  ]

  -- A batch that waits gets one more message.
  pub extend-Moves :
      (text : String)
      → is_pending x.status ≡ true
      → (f x).status ≡ x.status
      → (f x).message_parts ≡ x.message_parts ++ text ∷ []
      → IsExclusive jobs
      → (channel sender : String) → is_of channel sender x ≡ true
      → Moves channel sender jobs (update_first p f jobs)
  extend-Moves text was kept longer ex channel sender own =
      let meets : waits channel sender x ≡ true = ground (arith, was, own) in
      let stays : waits channel sender (f x) ≡ true = rw (kept, of_kept channel sender) meets in
      arrive text
        (ap parts_of (
          find-elsewhere (runs channel sender) p f jobs x found (ground (arith, was))
            (ground (arith, was, kept))))
        (rw
          (
            find-stay (waits channel sender) p f jobs x found meets stays
                (ex.one_waiting channel sender),
            find_unique (waits channel sender) p jobs x found meets (ex.one_waiting channel sender),
          )
          longer)

  pub extend-apart :
      (channel sender : String)
      → is_of channel sender x ≡ false
      → Moves channel sender jobs (update_first p f jobs)
  extend-apart channel sender other = apart channel sender other
