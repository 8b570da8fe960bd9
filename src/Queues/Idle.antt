-- ===== src/Queues/Idle.antt =====
-- About PauseQueue, claimable and Dequeue of internal/core together: the jobs of a paused queue.
use go_flywheel.Base.{
  Bool, Bool-cases, List, String, [], any, arith, false, false≢true, inl, inr, leb, map, not, refl,
  select, str_eq, str_eq_iff, str_mem, suc, sym, take, true, ◌&&◌, ◌||◌, ◌∙◌, ◌∷◌, ◌≡◌,
}
use go_flywheel.Base.Int.{leb_ℤ, pos}
use go_flywheel.Controls.{Caller}
use go_flywheel.Driver.Claim.{
  ClaimRequest, asks_nothing, chosen, claims_before, dequeue, eligible, raw_from_row,
}
use go_flywheel.Env.{Ctx}
use go_flywheel.Pool.{Pool}
use go_flywheel.Queues.{
  Actor, QueueConfig, QueueDb, QueueState, claimable, is_due, pause_queue, queue_state_refresh,
  served_rows,
}
use go_flywheel.Queues.Paused.{claimable_exact, is_paused, pause_and_resume}
use go_flywheel.Rows.{Db, Job, in_scope}
use go_flywheel.Store.Ids.{OrderLaws, any-count, any-select, any-take, count-any}
use go_flywheel.Types.{OnOk-at, Time, claimable_states, ok, state_in}

any-raws :
    (queue token : String) (rows : List Job)
    → any (λ r. str_eq r.queue queue) (map (λ r. raw_from_row r (suc r.attempt) token) rows)
      ≡ any (λ r. str_eq r.queue queue) rows
unfolding raw_from_row
any-raws queue token [] = refl
any-raws queue token (r ∷ rows) = rw (any-raws queue token rows)

not_asked :
    (now : Time) (queues : List String) (class : String) (claim_any : Bool) (queue : String)
    (js : List Job)
    → str_mem queue queues ≡ false
    → any (λ r. str_eq r.queue queue && eligible now queues class claim_any r) js ≡ false
unfolding eligible
not_asked now queues class claim_any queue [] h = refl
not_asked now queues class claim_any queue (j ∷ js) h = elim (Bool-cases (str_eq j.queue queue)) [
  | inl e ↦
      rw (not_served e, e)
        (rejected (in_scope j) (state_in j.state claimable_states) (leb j.scheduled_at now) _ _
          (not_asked now queues class claim_any queue js h))
  | inr e ↦ rw e (not_asked now queues class claim_any queue js h)
]
  where
    not_served : str_eq j.queue queue ≡ true → str_mem j.queue queues ≡ false
    not_served e = rw ((str_eq_iff j.queue queue).0 e) h

    rejected :
        (a b r t rest : Bool) → rest ≡ false → (true && (a && b && r && false && t) || rest) ≡ false
    rejected a b r t rest k = ground arith

module _ (order : List Job → List Job) (laws : OrderLaws claims_before order) (c : Ctx) (db : Db)
    (q : ClaimRequest) where
  -- A dequeue hands out jobs of the queues it asks for only.
  asked_queues_only :
      (queue : String)
      → str_mem queue q.queues ≡ false
      → any (λ r. str_eq r.queue queue) (dequeue order c db q).1 ≡ false
  unfolding dequeue chosen
  asked_queues_only queue h = elim (Bool-cases (asks_nothing q)) [
    | inl e ↦ rw e refl
    | inr e ↦ rw e (any-raws queue (c.lib.new_id db.minted) picked ∙ absent)
  ]
    where
      eligible_rows : List Job
      eligible_rows = select (eligible c.now q.queues q.class q.claim_any) db.jobs

      picked : List Job
      picked = take q.limit (order eligible_rows)

      p : Job → Bool
      p r = str_eq r.queue queue

      absent : any p picked ≡ false
      absent = elim (Bool-cases (any p picked)) [
        | inl t ↦ absurd (
            false≢true (
              sym (not_asked c.now q.queues q.class q.claim_any queue db.jobs h)
              ∙ any-select p (eligible c.now q.queues q.class q.claim_any) db.jobs (
                  count-any p eligible_rows (
                    rw (← laws.same_rows p eligible_rows) (
                      any-count p (order eligible_rows)
                        (any-take p q.limit (order eligible_rows) t))))))
        | inr t ↦ t
      ]

  -- Once a PauseQueue has succeeded, a Runner that refreshes its view of the queues is handed no job of
  -- that queue by the claim it then makes, whatever the database does with ties.
  pub paused_queue_rests :
      (caller : Caller) (actor : Actor) (d d' : QueueDb) (queue : String) (cfg : QueueConfig)
      (now : Time) (cancelled : Bool) (s : QueueState) (p : Pool)
      → pause_queue caller actor d queue ≡ ok d'
      → leb_ℤ (queue_state_refresh cfg) (pos 0) ≡ false
      → is_due cfg s now ≡ true
      → q.queues ≡ (claimable cfg now cancelled (ok (served_rows cfg d'.queues)) s p).1
      → any (λ r. str_eq r.queue queue) (dequeue order c db q).1 ≡ false
  paused_queue_rests caller actor d d' queue cfg now cancelled s p paused refreshes due asks =
      asked_queues_only queue (
        rw asks (
          claimable_exact cfg now cancelled d'.queues s p queue refreshes due
          ∙ closed (str_mem queue cfg.queues) _ (
              OnOk-at (λ x. is_paused queue x.queues ≡ true) (pause_queue caller actor d queue) d'
                ((pause_and_resume caller actor d queue).0) paused)))
    where
      closed : (a b : Bool) → b ≡ true → (a && not b) ≡ false
      closed a b h = ground arith
