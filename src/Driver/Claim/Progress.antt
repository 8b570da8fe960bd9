-- ===== src/Driver/Claim/Progress.antt =====
-- About Dequeue of internal/core: how many jobs it hands out.
use go_flywheel.Base.{
  Bool, List, String, [], ap, arith, count, false, length, map, min, refl, select, suc, sym, take,
  true, zero, ℕ, ◌∙◌, ◌∷◌, ◌≡◌,
}
use go_flywheel.Driver.Claim.{
  ClaimRequest, asks_nothing, chosen, claims_before, dequeue, eligible, raw_from_row,
}
use go_flywheel.Env.{Ctx}
use go_flywheel.Rows.{Db, Job}
use go_flywheel.Store.Ids.{OrderLaws}

length-take-min : (n : ℕ) (js : List Job) → length (take n js) ≡ min n (length js)
length-take-min zero js = omega arith
length-take-min (suc n) [] = omega arith
length-take-min (suc n) (j ∷ js) = omega (arith, length-take-min n js)

length-select : (p : Job → Bool) (js : List Job) → length (select p js) ≡ count p js
length-select p [] = refl
length-select p (j ∷ js) = ground (arith, length-select p js)

count_all : (js : List Job) → count (λ j. true) js ≡ length js
count_all [] = refl
count_all (j ∷ js) = ap suc (count_all js)

length-raws :
    (token : String) (rows : List Job)
    → length (map (λ r. raw_from_row r (suc r.attempt) token) rows) ≡ length rows
length-raws token [] = refl
length-raws token (r ∷ rows) = ap suc (length-raws token rows)

-- A dequeue that asks for something hands out as many jobs as its limit allows: all that are eligible,
-- or the limit where more are. So it never comes back empty from a table with an eligible row.
pub dequeue_hands_out :
    (order : List Job → List Job) (laws : OrderLaws claims_before order) (c : Ctx) (db : Db)
    (q : ClaimRequest)
    → asks_nothing q ≡ false
    → length (dequeue order c db q).1
      ≡ min q.limit (count (eligible c.now q.queues q.class q.claim_any) db.jobs)
unfolding dequeue chosen
dequeue_hands_out order laws c db q asks =
    let rows = select (eligible c.now q.queues q.class q.claim_any) db.jobs in
    rw asks (
      length-raws (c.lib.new_id db.minted) (take q.limit (order rows))
      ∙ (length-take-min q.limit (order rows)
          ∙ ap (min q.limit) (
              sym (count_all (order rows))
              ∙ (laws.same_rows (λ j. true) rows
                  ∙ (count_all rows
                      ∙ length-select (eligible c.now q.queues q.class q.claim_any) db.jobs)))))
