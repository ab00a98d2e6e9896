-- ===== src/Queue.antt =====
-- The delayed-job queue (BullMQ, src/queues/queue-names.ts): what the services call of it, as an
-- interface. Each of its calls may throw. `add` of a job whose id is taken leaves the queue as it is;
-- `remove` frees an id, and it throws where a worker has locked the job.
use reedri_end.Base.{
  ◌≡◌, refl, Bool, true, false, or_default, subst, sym, ap, ◌∙◌, Option, none, some, List, [], ◌∷◌,
  ◌++◌, arith, ◌==◌, if◌then◌else◌, is_some, Bool-cases, inl, inr,
}
use reedri_end.Table.{find_first, delete_many}
use reedri_end.World.{OfferExpiryJob, expire_offer, expire_driver_pending_offers, ScheduledJob}

-- Whether two jobs have one job id.
abbrev pub same_job : OfferExpiryJob → OfferExpiryJob → Bool
same_job (expire_offer a) (expire_offer b) = a == b
same_job (expire_driver_pending_offers a) (expire_driver_pending_offers b) = a == b
same_job _ _ = false

-- `getJob`
abbrev pub get_job : OfferExpiryJob → List ScheduledJob → Option ScheduledJob
get_job j = find_first (λ s. same_job j s.job)

pub record JobQueue : Type 0 where
  pub add : ScheduledJob → List ScheduledJob → Option (List ScheduledJob)
  pub answers : OfferExpiryJob → List ScheduledJob → Bool
  pub remove : OfferExpiryJob → List ScheduledJob → Option (List ScheduledJob)
  pub add_new :
      (s : ScheduledJob) (q r : List ScheduledJob)
      → get_job s.job q ≡ none
      → add s q ≡ some r
      → r ≡ q ++ s ∷ []
  pub add_taken :
      (s t : ScheduledJob) (q r : List ScheduledJob)
      → get_job s.job q ≡ some t
      → add s q ≡ some r
      → r ≡ q
  pub remove_frees :
      (j : OfferExpiryJob) (q r : List ScheduledJob) → remove j q ≡ some r → get_job j r ≡ none

-- A queue that behaves so.
abbrev pub list_add : ScheduledJob → List ScheduledJob → List ScheduledJob
list_add s q = if is_some (get_job s.job q) then q else q ++ s ∷ []

abbrev pub list_remove : OfferExpiryJob → List ScheduledJob → List ScheduledJob
list_remove j = delete_many (λ s. same_job j s.job)

pub list_add-new :
    (s : ScheduledJob) (q : List ScheduledJob) → get_job s.job q ≡ none → list_add s q ≡ q ++ s ∷ []
list_add-new s q h = ground arith

pub list_add-taken :
    (s t : ScheduledJob) (q : List ScheduledJob) → get_job s.job q ≡ some t → list_add s q ≡ q
list_add-taken s t q h = ground arith

pub list_remove-frees :
    (j : OfferExpiryJob) (q : List ScheduledJob) → get_job j (list_remove j q) ≡ none
unfolding find_first delete_many
list_remove-frees j [] = refl
list_remove-frees j (s ∷ q) = elim (Bool-cases (same_job j s.job)) [
  | inl hit ↦ rw hit (list_remove-frees j q)
  | inr miss ↦ rw miss (rw miss (list_remove-frees j q))
]

abbrev or_else : List ScheduledJob → Option (List ScheduledJob) → List ScheduledJob
or_else q o = or_default o q

abbrev pub list_queue : JobQueue
list_queue = record {
  add = λ s q. some (list_add s q);
  answers = λ j q. true;
  remove = λ j q. some (list_remove j q);
  add_new = λ s q r new e. sym (ap (or_else q) e) ∙ list_add-new s q new;
  add_taken = λ s t q r taken e. sym (ap (or_else q) e) ∙ list_add-taken s t q taken;
  remove_frees = λ j q r e. subst (λ o. get_job j (or_else [] o) ≡ none) e (list_remove-frees j q);
}
