-- ===== src/Durable/Tests.antt =====
-- The theorems at the sample history.
use microlens_recsys_mvp.Prelude.{
  true, false, none, some, [], ◌∷◌, ok, err, lease_lost, ◌≡◌, ◌≢◌, refl, ◌≤◌, length, pos, All,
  arith,
}
use mathlib.Core.List.{List, Mem}
use microlens_recsys_mvp.Prelude.Table.{find, replace}
use microlens_recsys_mvp.Prelude.Sorting.{sort_by}
use microlens_recsys_mvp.Durable.Domain.{require_aware, aware, queued, succeeded, cancelled}
use microlens_recsys_mvp.Durable.Rows.{Db, empty_db, has_fence, find_attempt}
use microlens_recsys_mvp.Durable.Repository.Common.{owned_attempt}
use microlens_recsys_mvp.Durable.Repository.Recover.{
  recover_expired, is_expired, expire_job, expire_attempt,
}
use microlens_recsys_mvp.Durable.Repository.Claim.{claim_next, queued_claim, claimed_job}
use microlens_recsys_mvp.Durable.Repository.Work.{succeed, fail}
use microlens_recsys_mvp.Durable.Repository.Outbox.{
  OutboxClaim, outbox_claim, deliver_row, published_row, claim_outbox, ack_outbox, nack_outbox,
}
use microlens_recsys_mvp.Durable.Invariant.{Consistent, Safe, IsIssued}
use microlens_recsys_mvp.Durable.Safety.Enqueue.{enqueue-Safe}
use microlens_recsys_mvp.Durable.Safety.Claim.{claim_next-Safe}
use microlens_recsys_mvp.Durable.System.{
  Reach, start, next, enqueued, claimed, fails, empty-Consistent, Reach-Consistent,
}
use microlens_recsys_mvp.Durable.Behaviour.Ownership.{owner_unique, cancel_revokes}
use microlens_recsys_mvp.Durable.Behaviour.Repeats.{succeed_twice}
use microlens_recsys_mvp.Durable.Behaviour.Failures.{Failed, fail_first, fail_twice}
use microlens_recsys_mvp.Durable.Behaviour.Queue.{MayClaim, ComesFirst, queued_claim_first}
use microlens_recsys_mvp.Durable.Behaviour.Leases.{recover_complete}
use microlens_recsys_mvp.Durable.Behaviour.Messages.{published_final, claim_outbox_bounded}
use microlens_recsys_mvp.Durable.Dispatcher.{
  Dispatcher, Counts, dispatch_each, run_at, taken, refused, run_once, run_once-counts,
}
use microlens_recsys_mvp.Durable.Samples.{
  plain, spec, nobody, job, view, attempt, claim, queued_message, enqueued_db, claimed_db,
  succeeded_db, failed_db, cancelled_db, enqueue_run, claim_run, succeed_run, fail_run, cancel_run,
}

issued : IsIssued claimed_db claim
unfolding find
issued = record { row = attempt; found = refl; same_job = refl; same_number = refl }

no_attempt : find_attempt 11 enqueued_db.attempts ≡ none
unfolding find
no_attempt = refl

no_fence : has_fence 12 enqueued_db.attempts ≡ false
unfolding has_fence
no_fence = refl

reached : Reach plain claimed_db
unfolding find
reached =
    next
      (next start
        (enqueued spec (aware 10) 7 (view, true) refl (omega arith) (omega arith) enqueue_run))
      (claimed 11 12 "w" nobody (aware 20) (pos 60) none (some claim) no_attempt no_fence claim_run)

reached_failed : Reach plain failed_db
reached_failed = next reached (
    fails claim "boom" true (pos 5) (aware 30) (record { state = queued; duplicate = false }) issued
      fail_run)

Reach-Consistent_example : Consistent failed_db
Reach-Consistent_example = Reach-Consistent plain reached_failed

enqueued-Consistent : Consistent enqueued_db
unfolding find
enqueued-Consistent =
    (enqueue-Safe plain spec empty_db empty-Consistent 7 refl (omega arith) (omega arith)
        (aware 10)).kept
      (view, true) enqueued_db enqueue_run

claimed-Consistent : Consistent claimed_db
claimed-Consistent = Reach-Consistent plain reached

claim_next-Safe_example : Safe (claim_next 11 12 "w" nobody (aware 20) (pos 60) none enqueued_db)
claim_next-Safe_example =
    claim_next-Safe 11 12 "w" nobody enqueued_db enqueued-Consistent (aware 20) (pos 60) none
      no_attempt no_fence

owned : owned_attempt claim 30 claimed_db ≡ ok (claimed_job job 20, attempt)
unfolding owned_attempt find
owned = refl

owned_later : owned_attempt claim 40 claimed_db ≡ ok (claimed_job job 20, attempt)
unfolding owned_attempt find
owned_later = refl

owner_unique_example : (11 ≡ claim.attempt_id) × (12 ≡ claim.fence_token) × ("w" ≡ claim.worker_id)
owner_unique_example =
    owner_unique claimed_db claimed-Consistent claim claim 30 40 (claimed_job job 20)
      (claimed_job job 20) attempt attempt owned owned_later refl

cancel_revokes_example : owned_attempt claim 40 cancelled_db ≢ ok (claimed_job job 20, attempt)
cancel_revokes_example =
    cancel_revokes 7 (aware 30) claimed_db cancelled_db
      (record { state = cancelled; duplicate = false }) claim 40 (claimed_job job 20, attempt)
      cancel_run refl

succeed_twice_example :
    succeed plain claim (some "1") (aware 90) succeeded_db
    ≡ ok (record { state = succeeded; duplicate = true }, succeeded_db)
succeed_twice_example =
    succeed_twice plain claim (some "1") (aware 30) 90 claimed_db succeeded_db
      (record { state = succeeded; duplicate = false }) succeed_run

fail_first_example :
    Failed claim "boom" true claimed_db failed_db 5 30
      (record { state = queued; duplicate = false })
fail_first_example =
    fail_first claim "boom" true claimed_db failed_db 5 30
      (record { state = queued; duplicate = false }) fail_run refl

fail_twice_example :
    fail claim "boom" true (pos 5) (aware 90) failed_db
    ≡ ok (record { state = queued; duplicate = true }, failed_db)
fail_twice_example =
    fail_twice claim "boom" true claimed_db failed_db 5 90 30
      (record { state = queued; duplicate = false }) fail_run

first : queued_claim nobody 20 none enqueued_db.jobs ≡ some job
unfolding queued_claim sort_by
first = refl

queued_claim_first_example :
    Mem job enqueued_db.jobs
    × MayClaim nobody 20 none job
    × All (λ r. MayClaim nobody 20 none r → ComesFirst job r) enqueued_db.jobs
queued_claim_first_example = queued_claim_first nobody 20 none enqueued_db.jobs job first

-- At the end of its lease the attempt is recovered, and the job is queued again.
abbrev recovered_db : Db
recovered_db = record claimed_db {
  jobs =
      record (expire_job (claimed_job job 20) 60000020) { status = queued; due_at = 60000020 } ∷ [];
  attempts = expire_attempt attempt 60000020 ∷ [];
}

recover_run : recover_expired nobody 60000020 claimed_db ≡ ok recovered_db
unfolding recover_expired find replace sort_by
recover_run = refl

after_recovery : find_attempt 11 recovered_db.attempts ≡ some (expire_attempt attempt 60000020)
unfolding find
after_recovery = refl

recover_complete_example : is_expired nobody 60000020 (expire_attempt attempt 60000020) ≡ false
recover_complete_example =
    recover_complete claimed_db recovered_db nobody 60000020 claimed-Consistent recover_run 11
      (expire_attempt attempt 60000020) after_recovery

abbrev message_claim : OutboxClaim
message_claim = outbox_claim queued_message 99 30000020

abbrev taken_db : Db
taken_db = record enqueued_db { outbox = deliver_row queued_message 99 30000020 ∷ [] }

take_run :
    claim_outbox (λ _. 99) nobody (aware 20) (pos 30) (pos 100) enqueued_db
    ≡ ok (message_claim ∷ [], taken_db)
unfolding claim_outbox find replace sort_by
take_run = refl

claim_outbox_bounded_example : (1 ≤ 100) × (100 ≤ 1000)
claim_outbox_bounded_example =
    claim_outbox_bounded (λ _. 99) nobody (aware 20) (pos 30) 100 enqueued_db taken_db
      (message_claim ∷ []) take_run

abbrev published_db : Db
published_db = record taken_db {
  outbox = published_row (deliver_row queued_message 99 30000020) 25 ∷ [];
}

ack_run : ack_outbox message_claim (aware 25) taken_db ≡ ok (true, published_db)
unfolding ack_outbox find replace
ack_run = refl

published_final_example :
    (ack_outbox message_claim (aware 40) published_db ≡ ok (false, published_db))
    × (nack_outbox message_claim "late" (aware 40) (pos 5) published_db
        ≡ err (lease_lost "outbox delivery token is no longer current"))
published_final_example =
    published_final message_claim message_claim (aware 25) taken_db published_db true "late" 40 5
      ack_run refl

-- A run of the dispatcher with a sink that takes every message.
abbrev minute : Dispatcher
minute = record { lease_seconds = 30; retry_delay_seconds = 5 }

abbrev sent_db : Db
sent_db = record taken_db {
  outbox = published_row (deliver_row queued_message 99 30000020) 20 ∷ [];
}

abbrev one_sent : Counts
one_sent = record { claimed = 1; published = 1; failed = 0 }

dispatched :
    run_once (λ _ _. none) minute (λ _. 99) nobody (aware 20) (pos 100) enqueued_db
    ≡ (ok one_sent, sent_db)
unfolding run_once run_at require_aware claim_outbox dispatch_each ack_outbox find replace sort_by
dispatched = refl

run_once-counts_example :
    (claims : List OutboxClaim) × (opened : Db) × (claim_outbox
        (λ _. 99)
        nobody
        (aware 20)
        (pos minute.lease_seconds)
        (pos 100)
        enqueued_db
      ≡ ok (claims, opened))
    × (1 ≡ length claims)
    × (1 ≡ taken (λ _ _. none) minute 20 claims)
    × (0 ≡ refused (λ _ _. none) minute 20 claims)
run_once-counts_example =
    run_once-counts (λ _ _. none) minute (λ _. 99) nobody 20 (pos 100) enqueued_db sent_db one_sent
      dispatched
