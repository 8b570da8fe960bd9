-- ===== src/Driver/Claim.antt =====
-- Dequeue of internal/core/driver_sqlite.go and of driver_postgres.go, rawFromRow, and RenewLease
-- of driver.go. `order` is the database's ORDER BY priority, scheduled_at; what it does with ties
-- is its own affair. A limit that is not positive is 0.
pub mod Exclusive
pub mod Held
pub mod Progress
pub mod Renew
use go_flywheel.Base.{
  Bool, List, String, [], count, false, if◌then◌else◌, leb, map, select, some, str_mem, suc, take,
  true, update_where, ℕ, ◌&&◌, ◌==◌, ◌||◌, ◌∷◌,
}
use go_flywheel.Base.Int.{eq_ℤ, ltb_ℤ}
use go_flywheel.Driver.Finalize.{holds_claim}
use go_flywheel.Env.{Ctx}
use go_flywheel.Insert.Conflict.{ids_of}
use go_flywheel.Rows.{Db, Job, in_scope}
use go_flywheel.Types.{Duration, JobState, Time, add_time, claimable_states, state_in}
use go_flywheel.Work.{RawJob}

-- Where a row stands in ORDER BY priority, scheduled_at.
unfoldable pub claims_before : Job → Job → Bool
claims_before a b =
    ltb_ℤ a.priority b.priority || eq_ℤ a.priority b.priority && leb a.scheduled_at b.scheduled_at

-- The rows that a runner of a class, or of any, may claim from its queues.
unfoldable pub eligible : Time → List String → String → Bool → Job → Bool
eligible now queues class claim_any j =
    in_scope j
    && state_in j.state claimable_states
    && leb j.scheduled_at now
    && str_mem j.queue queues
    && (claim_any || str_mem j.executor_class (class ∷ "" ∷ []))

unfoldable pub claim : Time → String → Duration → Job → Job
claim now token lease j = record j {
  state = JobState.running;
  attempt = suc j.attempt;
  leased_until = some (add_time now lease);
  lease_token = some token;
  updated_at = now;
}

unfoldable pub raw_from_row : Job → ℕ → String → RawJob
raw_from_row r attempt lease_token = record {
  id = r.id;
  kind = r.kind;
  queue = r.queue;
  args = r.args;
  attempt = attempt;
  max_attempts = r.max_attempts;
  timeout_ms = r.timeout_ms;
  lease_token = lease_token;
  parent_job_id = r.parent_job_id;
  tags = r.tags;
  created_at = r.created_at;
  scheduled_at = r.scheduled_at;
  metadata = r.metadata;
}

-- What a runner asks for.
pub record ClaimRequest : Type 0 where
  pub queues : List String
  pub class : String
  pub claim_any : Bool
  pub limit : ℕ
  pub lease : Duration

unfoldable pub chosen : (List Job → List Job) → Time → ClaimRequest → List Job → List Job
chosen order now q table =
    take q.limit (order (select (eligible now q.queues q.class q.claim_any) table))

-- UPDATE … WHERE id IN the chosen ids.
unfoldable pub claim_ids : Time → String → Duration → List String → List Job → List Job
claim_ids now token lease ids table =
    update_where (λ j. in_scope j && str_mem j.id ids) (claim now token lease) table

abbrev pub asks_nothing : ClaimRequest → Bool
asks_nothing q = q.limit == 0 || elim q.queues [ [] ↦ true | x ∷ xs ↦ false ]

-- The SQLite driver's claim. The rows were read before the update, so the attempt handed out is one
-- more than the row's.
unfoldable pub dequeue : (List Job → List Job) → Ctx → Db → ClaimRequest → Db × List RawJob
unfolding chosen claim_ids
dequeue order c db q =
    let token = c.lib.new_id db.minted in
    let rows = chosen order c.now q db.jobs in
    if asks_nothing q then (db, []) else (
      record db {
        jobs = claim_ids c.now token q.lease (ids_of rows) db.jobs;
        minted = suc db.minted;
      },
      map (λ r. raw_from_row r (suc r.attempt) token) rows,
    )

-- RenewLease: extends the lease under the claim's fence, and reports whether it still held.
unfoldable pub renew_lease : Time → Db → String → String → Time → Db × Bool
renew_lease now db job_id token until = (
  record db {
    jobs =
        update_where (holds_claim job_id token)
          (λ j. record j { leased_until = some until; updated_at = now }) db.jobs;
  },
  count (holds_claim job_id token) db.jobs == 1,
)
