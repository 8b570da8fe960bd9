-- ===== src/Driver/Claim/Exclusive.antt =====
-- About Dequeue of internal/core: the table it leaves, and the next Dequeue.
use go_flywheel.Base.{
  All, Bool, Bool-cases, List, String, [], any, arith, false, false≢true, if◌then◌else◌, inl, inr,
  is_some, leb, map, not, refl, select, str_eq, str_eq_iff, str_mem, suc, sym, take, true, ◌&&◌,
  ◌||◌, ◌∙◌, ◌∷◌, ◌≡◌,
}
use go_flywheel.Driver.Claim.{
  ClaimRequest, asks_nothing, chosen, claim, claim_ids, claims_before, dequeue, eligible,
  raw_from_row,
}
use go_flywheel.Env.{Ctx}
use go_flywheel.Insert.Conflict.{ids_of}
use go_flywheel.Rows.{Db, Job, in_scope}
use go_flywheel.Store.Ids.{
  OrderLaws, any-count, any-ids_of, any-take, chosen_pass, count-any, update_by_ids,
}
use go_flywheel.Store.Unique.{Tame}
use go_flywheel.Store.Wf.{RowOk, TableOk, update_where-TableOk}
use go_flywheel.Types.{Duration, JobState, Time, claimable_states, is_terminal, state_in}

claim-RowOk :
    (now : Time) (token : String) (lease : Duration) (j : Job)
    → state_in j.state claimable_states ≡ true
    → RowOk j
    → RowOk (claim now token lease j)
unfolding claim
claim-RowOk now token lease j h w = record {
  leased = refl;
  lease_ends = refl;
  finalized = live (is_some j.finalized_at) j.state w.finalized h;
  barrier_whole = w.barrier_whole;
}
  where
    live :
        (b : Bool) (s : JobState)
        → is_terminal s ≡ b
        → state_in s claimable_states ≡ true
        → false ≡ b
    live b s e k = ground arith

claim-Tame :
    (now : Time) (token : String) (lease : Duration) (j : Job)
    → state_in j.state claimable_states ≡ true
    → Tame j (claim now token lease j)
unfolding claim
claim-Tame now token lease j h = record {
  same_id = refl;
  same_key = refl;
  same_active_key = refl;
  live_before = λ _. live j.state h;
}
  where
    live :
        (s : JobState)
        → state_in s claimable_states ≡ true
        → elim (is_terminal s) [ true ↦ false | false ↦ true ] ≡ true
    live s k = ground arith

pub eligible_state :
    (now : Time) (queues : List String) (class : String) (claim_any : Bool) (j : Job)
    → eligible now queues class claim_any j ≡ true
    → state_in j.state claimable_states ≡ true
unfolding eligible
eligible_state now queues class claim_any j h =
    part (in_scope j) (state_in j.state claimable_states) (leb j.scheduled_at now)
      (str_mem j.queue queues) (claim_any || str_mem j.executor_class (class ∷ "" ∷ [])) h
  where
    part : (a b r s t : Bool) → (a && b && r && s && t) ≡ true → b ≡ true
    part a b r s t k = ground arith

module _ (order : List Job → List Job) (laws : OrderLaws claims_before order) (c : Ctx) (db : Db)
    (q : ClaimRequest) where
  -- Whatever the database does with ties, a claim on a well-formed table leaves it well formed.
  pub dequeue-TableOk : TableOk db.jobs → TableOk (dequeue order c db q).0.jobs
  unfolding dequeue
  dequeue-TableOk w = elim (Bool-cases (asks_nothing q)) [
    | inl e ↦ rw e w
    | inr e ↦ rw e (
        rw (update_by_ids test (claim c.now token q.lease) db.jobs ids w.unique picks) (
          update_where-TableOk (λ j. test j && (in_scope j && str_mem j.id ids))
            (claim c.now token q.lease)
            (λ j h v.
              claim-RowOk c.now token q.lease j
                (eligible_state c.now q.queues q.class q.claim_any j (first (test j) _ h)) v)
            (λ j h.
              claim-Tame c.now token q.lease j
                (eligible_state c.now q.queues q.class q.claim_any j (first (test j) _ h)))
            db.jobs w))
  ]
    where
      token : String
      token = c.lib.new_id db.minted

      test : Job → Bool
      test = eligible c.now q.queues q.class q.claim_any

      ids : List String
      ids = ids_of (chosen order c.now q db.jobs)

      picks :
          (id : String) → str_mem id ids ≡ true → any (λ x. str_eq id x.id && test x) db.jobs ≡ true
      picks = chosen_pass claims_before order laws test q.limit db.jobs

      first : (a b : Bool) → (a && b) ≡ true → a ≡ true
      first a b h = ground arith

-- What an update of chosen ids leaves for the next claim.
next_eligible :
    (now t : Time) (token : String) (lease : Duration) (queues : List String) (class : String)
    (claim_any : Bool) (ids : List String) (j : Job)
    → eligible now queues class claim_any
        (if in_scope j && str_mem j.id ids then claim t token lease j else j)
      ≡ true
    → str_mem (if in_scope j && str_mem j.id ids then claim t token lease j else j).id ids ≡ false
unfolding eligible claim
next_eligible now t token lease queues class claim_any ids j h = ground arith

free_ids :
    (now t : Time) (token : String) (lease : Duration) (queues : List String) (class : String)
    (claim_any : Bool) (ids : List String) (js : List Job)
    → All
        (λ j. str_mem j.id ids ≡ false)
        (select (eligible now queues class claim_any) (claim_ids t token lease ids js))
unfolding claim_ids
free_ids now t token lease queues class claim_any ids [] = tt
free_ids now t token lease queues class claim_any ids (j ∷ js) =
    let j' = if in_scope j && str_mem j.id ids then claim t token lease j else j in
    elim (Bool-cases (eligible now queues class claim_any j')) [
      | inl e ↦ rw e (
        next_eligible now t token lease queues class claim_any ids j e,
        free_ids now t token lease queues class claim_any ids js,
      )
      | inr e ↦ rw e (free_ids now t token lease queues class claim_any ids js)
    ]

All-any-false :
    (ids : List String) (js : List Job)
    → All (λ j. str_mem j.id ids ≡ false) js
    → (id : String) → str_mem id ids ≡ true
    → any (λ j. str_eq id j.id) js ≡ false
All-any-false ids [] a id h = refl
All-any-false ids (j ∷ js) a id h = elim (Bool-cases (str_eq id j.id)) [
  | inl e ↦ absurd (false≢true (sym a.0 ∙ (rw (← (str_eq_iff id j.id).0 e) h)))
  | inr e ↦ rw e (All-any-false ids js a.1 id h)
]

raws-ids_of :
    (token id : String) (rows : List Job)
    → any (λ r. str_eq id r.id) (map (λ r. raw_from_row r (suc r.attempt) token) rows)
      ≡ str_mem id (ids_of rows)
unfolding raw_from_row
raws-ids_of token id [] = refl
raws-ids_of token id (r ∷ rows) = rw (raws-ids_of token id rows)

module _ (order : List Job → List Job) where
  pub handed :
      (c : Ctx) (db : Db) (q : ClaimRequest) (id : String)
      → any (λ r. str_eq id r.id) (dequeue order c db q).1
        ≡ (not (asks_nothing q) && str_mem id (ids_of (chosen order c.now q db.jobs)))
  unfolding dequeue
  handed c db q id = elim (Bool-cases (asks_nothing q)) [
    | inl e ↦ rw e refl
    | inr e ↦ rw e (raws-ids_of (c.lib.new_id db.minted) id (chosen order c.now q db.jobs))
  ]

  pub claimed_table :
      (c : Ctx) (db : Db) (q : ClaimRequest)
      → asks_nothing q ≡ false
      → (dequeue order c db q).0.jobs
        ≡ claim_ids c.now
            (c.lib.new_id db.minted)
            q.lease
            (ids_of (chosen order c.now q db.jobs))
            db.jobs
  unfolding dequeue
  claimed_table c db q e = rw e refl

module _ (order : List Job → List Job) (laws : OrderLaws claims_before order) where
  -- The rows that an ordered query returns are rows that it selected.
  not_chosen :
      (now : Time) (q : ClaimRequest) (table : List Job) (id : String)
      → any (λ j. str_eq id j.id) (select (eligible now q.queues q.class q.claim_any) table) ≡ false
      → str_mem id (ids_of (chosen order now q table)) ≡ false
  unfolding chosen
  not_chosen now q table id h =
      let p : Job → Bool = λ x. str_eq id x.id in
      let rows = select (eligible now q.queues q.class q.claim_any) table in
      elim (Bool-cases (str_mem id (ids_of (take q.limit (order rows))))) [
        | inl e ↦ absurd (
            false≢true (
              sym h
              ∙ count-any p rows (
                  rw (← laws.same_rows p rows) (
                    any-count p (order rows) (
                      any-take p q.limit (order rows)
                        (any-ids_of id (take q.limit (order rows)) e))))))
        | inr e ↦ e
      ]

  -- A job that a claim handed out is not handed out by a claim of the table it left, whatever the
  -- queues, class, limit and clock of either, and whatever the database does with ties.
  pub claims_exclude :
      (c c' : Ctx) (db : Db) (q q' : ClaimRequest) (id : String)
      → any (λ r. str_eq id r.id) (dequeue order c db q).1 ≡ true
      → any (λ r. str_eq id r.id) (dequeue order c' (dequeue order c db q).0 q').1 ≡ false
  claims_exclude c c' db q q' id h =
      let given = sym (handed order c db q id) ∙ h in
      rw (handed order c' (dequeue order c db q).0 q' id) (
        rw (claimed_table order c db q (asked (asks_nothing q) _ given)) (
          last (asks_nothing q') _ (
            not_chosen c'.now q' _ id (
              All-any-false ids _
                (free_ids c'.now c.now (c.lib.new_id db.minted) q.lease q'.queues q'.class
                  q'.claim_any ids db.jobs)
                id (picked (asks_nothing q) _ given)))))
    where
      ids : List String
      ids = ids_of (chosen order c.now q db.jobs)

      asked : (a b : Bool) → (not a && b) ≡ true → a ≡ false
      asked a b k = ground arith

      picked : (a b : Bool) → (not a && b) ≡ true → b ≡ true
      picked a b k = ground arith

      last : (a b : Bool) → b ≡ false → (not a && b) ≡ false
      last a b k = ground arith
