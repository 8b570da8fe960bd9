-- ===== src/Driver/Claim/Held.antt =====
-- About Dequeue of internal/core, and the fence of the claims that it hands out.
use go_flywheel.Base.{
  Bool, Bool-cases, List, String, [], any, arith, false, if◌then◌else◌, inl, inr, leb, not, refl,
  str_eq, str_eq_iff, str_eq_refl, str_mem, sym, true, ◌&&◌, ◌||◌, ◌∙◌, ◌∷◌, ◌≡◌,
}
use go_flywheel.Driver.Claim.{
  ClaimRequest, asks_nothing, chosen, claim, claim_ids, claims_before, dequeue, eligible,
}
use go_flywheel.Driver.Claim.Exclusive.{claimed_table, handed}
use go_flywheel.Driver.Finalize.{holds_claim}
use go_flywheel.Env.{Ctx}
use go_flywheel.Insert.Conflict.{ids_of}
use go_flywheel.Rows.{Db, Job, in_scope}
use go_flywheel.Store.Ids.{OrderLaws, chosen_pass}
use go_flywheel.Types.{Duration, Time, claimable_states, state_in}

eligible-in_scope :
    (now : Time) (queues : List String) (class : String) (claim_any : Bool) (j : Job)
    → eligible now queues class claim_any j ≡ true
    → in_scope j ≡ true
unfolding eligible
eligible-in_scope now queues class claim_any j h =
    part (in_scope j) (state_in j.state claimable_states) (leb j.scheduled_at now)
      (str_mem j.queue queues) (claim_any || str_mem j.executor_class (class ∷ "" ∷ [])) h
  where
    part : (a b r s t : Bool) → (a && b && r && s && t) ≡ true → a ≡ true
    part a b r s t k = ground arith

claimed_row :
    (now : Time) (token : String) (lease : Duration) (queues : List String) (class : String)
    (claim_any : Bool) (ids : List String) (id : String) (j : Job)
    → str_mem id ids ≡ true
    → (str_eq id j.id && eligible now queues class claim_any j) ≡ true
    → holds_claim id token (if in_scope j && str_mem j.id ids then claim now token lease j else j)
      ≡ true
unfolding claim
claimed_row now token lease queues class claim_any ids id j m h =
    let (same, can) = both (str_eq id j.id) (eligible now queues class claim_any j) h in
    let e = (str_eq_iff id j.id).0 same in
    rw (eligible-in_scope now queues class claim_any j can, ← e, m)
      (rw (str_eq_refl id, str_eq_refl token)
        (rw (eligible-in_scope now queues class claim_any j can) refl))
  where
    both : (a b : Bool) → (a && b) ≡ true → (a ≡ true) × (b ≡ true)
    both a b k = (ground arith, ground arith)

claimed_any :
    (now : Time) (token : String) (lease : Duration) (queues : List String) (class : String)
    (claim_any : Bool) (ids : List String) (id : String) (js : List Job)
    → str_mem id ids ≡ true
    → any (λ x. str_eq id x.id && eligible now queues class claim_any x) js ≡ true
    → any (holds_claim id token) (claim_ids now token lease ids js) ≡ true
unfolding claim_ids
claimed_any now token lease queues class claim_any ids id [] m h = h
claimed_any now token lease queues class claim_any ids id (j ∷ js) m h =
    elim (Bool-cases (str_eq id j.id && eligible now queues class claim_any j)) [
      | inl e ↦ here _ _ (claimed_row now token lease queues class claim_any ids id j m e)
      | inr e ↦
          there _ _ (claimed_any now token lease queues class claim_any ids id js m (rest _ _ e h))
    ]
  where
    here : (a b : Bool) → a ≡ true → (a || b) ≡ true
    here a b k = ground arith

    there : (a b : Bool) → b ≡ true → (a || b) ≡ true
    there a b k = ground arith

    rest : (a b : Bool) → a ≡ false → (a || b) ≡ true → b ≡ true
    rest a b k l = ground arith

-- A job that a claim handed out is held by that claim in the table it leaves: its row runs under the
-- token that the claim minted, whatever the database does with ties.
pub dequeue_holds :
    (order : List Job → List Job)
    → OrderLaws claims_before order
    → (c : Ctx) (db : Db) (q : ClaimRequest) (id : String)
    → any (λ r. str_eq id r.id) (dequeue order c db q).1 ≡ true
    → any (holds_claim id (c.lib.new_id db.minted)) (dequeue order c db q).0.jobs ≡ true
unfolding chosen
dequeue_holds order laws c db q id h =
    let given = sym (handed order c db q id) ∙ h in
    rw (claimed_table order c db q (asked (asks_nothing q) _ given)) (
      claimed_any c.now (c.lib.new_id db.minted) q.lease q.queues q.class q.claim_any
        (ids_of (chosen order c.now q db.jobs)) id db.jobs (picked (asks_nothing q) _ given)
        (chosen_pass claims_before order laws (eligible c.now q.queues q.class q.claim_any) q.limit
          db.jobs id (picked (asks_nothing q) _ given)))
  where
    asked : (a b : Bool) → (not a && b) ≡ true → a ≡ false
    asked a b k = ground arith

    picked : (a b : Bool) → (not a && b) ≡ true → b ≡ true
    picked a b k = ground arith
