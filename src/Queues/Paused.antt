-- ===== src/Queues/Paused.antt =====
-- About PauseQueue, ResumeQueue and claimable of internal/core/queues.go and queue_state.go, with
-- Dequeue: which queues a Runner claims from.
use go_flywheel.Base.{
  Bool, Bool-cases, List, Option, String, [], any, ap, arith, false, inl, inr, is_none, is_some,
  length, none, not, refl, select, some, str_eq, str_eq_iff, str_eq_refl, str_mem, true,
  update_where, ◌&&◌, ◌++◌, ◌==◌, ◌||◌, ◌∙◌, ◌∷◌, ◌≡◌,
}
use go_flywheel.Base.Int.{leb_ℤ, pos}
use go_flywheel.Controls.{Caller, record_audit, refusal}
use go_flywheel.Pool.{Pool}
use go_flywheel.Queues.{
  Actor, QueueConfig, QueueDb, QueueRow, QueueState, change_queues, claimable, is_due, is_queue,
  open_queues, pause_queue, pause_row, paused_names, queue_entry, queue_state_refresh,
  refresh_state, resume_queue, resume_row, seed_queue, served_rows,
}
use go_flywheel.Rows.{AuditAction, Db}
use go_flywheel.Store.Replace.{str_eq_comm}
use go_flywheel.Types.{OnOk, OnOk-bind, Time, guard, invalid, ok}

-- A queue that an operator has paused.
abbrev pub is_paused : String → List QueueRow → Bool
is_paused queue = any (λ r. is_queue queue r && is_some r.paused_at)

module _ (q p n : QueueRow → Bool) (other : (r : QueueRow) → n r ≡ not (p r))
    (f : QueueRow → QueueRow) where
  all_closed :
      (rows : List QueueRow)
      → any q rows ≡ true
      → any (λ r. q r && n r) rows ≡ false
      → any (λ r. q r && p r) rows ≡ true
  all_closed [] h k = cc
  all_closed (r ∷ rs) h k = ground (arith, all_closed rs, other r)

  one_closed :
      ((r : QueueRow) → (q r && n r) ≡ true → (q (f r) && p (f r)) ≡ true)
      → (rows : List QueueRow) → any (λ r. q r && n r) rows ≡ true
      → any (λ r. q r && p r) (update_where (λ r. q r && n r) f rows) ≡ true
  one_closed h [] k = cc
  one_closed h (r ∷ rs) k = elim (Bool-cases (q r && n r)) [
    | inl e ↦ rw e (rw (h r e) refl)
    | inr e ↦ rw e (either _ _ (one_closed h rs (rest _ _ e k)))
  ]
    where
      either : (a b : Bool) → b ≡ true → (a || b) ≡ true
      either a b t = ground arith

      rest : (a b : Bool) → a ≡ false → (a || b) ≡ true → b ≡ true
      rest a b t u = ground arith

  none_closed :
      ((r : QueueRow) → (q r && p r) ≡ true → p (f r) ≡ false)
      → (rows : List QueueRow)
      → any (λ r. q r && p r) (update_where (λ r. q r && p r) f rows) ≡ false
  none_closed h [] = refl
  none_closed h (r ∷ rs) = elim (Bool-cases (q r && p r)) [
    | inl e ↦ rw e (rw (h r e) (neither _ _ (none_closed h rs)))
    | inr e ↦ rw e (rw e (none_closed h rs))
  ]
    where
      neither : (a b : Bool) → b ≡ false → (a && false || b) ≡ false
      neither a b t = ground arith

open_or_paused : (r : QueueRow) → is_none r.paused_at ≡ not (is_some r.paused_at)
open_or_paused r = either r.paused_at
  where
    either : (o : Option Time) → is_none o ≡ not (is_some o)
    either none = refl
    either (some t) = refl

seeded :
    (now : Time) (queue : String) (rows : List QueueRow)
    → any (is_queue queue) (seed_queue now queue rows) ≡ true
unfolding seed_queue
seeded now queue rows = elim (Bool-cases (any (is_queue queue) rows)) [
  | inl e ↦ rw e e
  | inr e ↦ rw e (last rows)
]
  where
    last :
        (xs : List QueueRow)
        → any (is_queue queue) (
            xs
            ++ record {
              queue = queue;
              paused_at = none;
              paused_by_type = "";
              paused_by_id = "";
              paused_reason = "";
              updated_at = now;
              max_concurrency = none;
            }
              ∷ [])
          ≡ true
    last [] = rw (str_eq_refl queue) refl
    last (x ∷ xs) = either (str_eq x.queue queue) _ (last xs)
      where
        either : (a b : Bool) → b ≡ true → (a || b) ≡ true
        either a b t = ground arith

change_queues-OnOk {κ} :
    (P : List QueueRow → Type κ) (caller : Caller) (db : Db) (rows : List QueueRow) (queue : String)
    (action : AuditAction) (p : QueueRow → Bool) (f : QueueRow → QueueRow)
    → (any p rows ≡ true → P (update_where p f rows))
    → (any p rows ≡ false → P rows)
    → OnOk (λ d. P d.queues) (change_queues caller db rows queue action p f)
unfolding change_queues
change_queues-OnOk P caller db rows queue action p f h k = elim (Bool-cases (any p rows)) [
  | inl e ↦ rw e (
      OnOk-bind (λ d. P d.queues) (record_audit caller db (queue_entry caller.ctx.now queue action))
        _ λ _ _. h e)
  | inr e ↦ rw e (k e)
]

-- A PauseQueue that succeeds leaves the queue paused, and a ResumeQueue that succeeds leaves it open.
pub pause_and_resume :
    (caller : Caller) (actor : Actor) (d : QueueDb) (queue : String)
    → OnOk (λ d'. is_paused queue d'.queues ≡ true) (pause_queue caller actor d queue)
      × OnOk (λ d'. is_paused queue d'.queues ≡ false) (resume_queue caller d queue)
unfolding pause_queue resume_queue pause_row resume_row
pause_and_resume caller actor d queue = (
  OnOk-bind (λ d'. is_paused queue d'.queues ≡ true) (refusal caller.refused) _
      λ _ _.
        OnOk-bind (λ d'. is_paused queue d'.queues ≡ true)
          (guard (not (str_eq queue "")) (invalid "queue" "is required")) _
          λ _ _.
            change_queues-OnOk (λ rows. is_paused queue rows ≡ true) caller d.db rows queue
              AuditAction.paused _ (pause_row caller.ctx.now actor)
              (λ e.
                one_closed (is_queue queue) (λ r. is_some r.paused_at) (λ r. is_none r.paused_at)
                  open_or_paused (pause_row caller.ctx.now actor) (λ r k. now_paused _ _ k) rows e)
              (λ e.
                all_closed (is_queue queue) (λ r. is_some r.paused_at) (λ r. is_none r.paused_at)
                  open_or_paused (pause_row caller.ctx.now actor) rows
                  (seeded caller.ctx.now queue d.queues) e),
  OnOk-bind (λ d'. is_paused queue d'.queues ≡ false) (refusal caller.refused) _
      λ _ _.
        OnOk-bind (λ d'. is_paused queue d'.queues ≡ false)
          (guard (not (str_eq queue "")) (invalid "queue" "is required")) _
          λ _ _.
            change_queues-OnOk (λ rows. is_paused queue rows ≡ false) caller d.db d.queues queue
              AuditAction.resumed _ (resume_row caller.ctx.now)
              (λ _.
                none_closed (is_queue queue) (λ r. is_some r.paused_at) (λ r. is_none r.paused_at)
                  open_or_paused (resume_row caller.ctx.now) (λ r _. refl) d.queues)
              (λ e. e),
)
  where
    now_paused : (a b : Bool) → (a && b) ≡ true → (a && true) ≡ true
    now_paused a b k = ground arith

    rows : List QueueRow
    rows = seed_queue caller.ctx.now queue d.queues

named_paused :
    (queue : String) (rows : List QueueRow)
    → str_mem queue (paused_names rows) ≡ is_paused queue rows
unfolding paused_names
named_paused queue [] = refl
named_paused queue (r ∷ rs) = elim (Bool-cases (is_some r.paused_at)) [
  | inl e ↦
      rw e (rw (named_paused queue rs, str_eq_comm queue r.queue) (always (str_eq r.queue queue) _))
  | inr e ↦ rw e (named_paused queue rs ∙ never (str_eq r.queue queue) _)
]
  where
    always : (a b : Bool) → (a || b) ≡ (a && true || b)
    always a b = ground arith

    never : (a b : Bool) → b ≡ (a && false || b)
    never a b = ground arith

served_paused :
    (cfg : QueueConfig) (queue : String) (rows : List QueueRow)
    → str_mem queue cfg.queues ≡ true
    → is_paused queue (served_rows cfg rows) ≡ is_paused queue rows
served_paused cfg queue [] h = refl
served_paused cfg queue (r ∷ rs) h = elim (Bool-cases (str_eq r.queue queue)) [
  | inl e ↦
      rw (same e h) (
        ap (λ b. (str_eq r.queue queue && is_some r.paused_at) || b) (served_paused cfg queue rs h))
  | inr e ↦ elim (Bool-cases (str_mem r.queue cfg.queues)) [
    | inl k ↦ rw (k, e) (served_paused cfg queue rs h)
    | inr k ↦ rw (k, e) (served_paused cfg queue rs h)
  ]
]
  where
    same :
        str_eq r.queue queue ≡ true
        → str_mem queue cfg.queues ≡ true
        → str_mem r.queue cfg.queues ≡ true
    same t k = rw ((str_eq_iff r.queue queue).0 t) k

mem-select :
    (queue : String) (p : String → Bool) (qs : List String)
    → str_mem queue (select p qs) ≡ (str_mem queue qs && p queue)
mem-select queue p [] = refl
mem-select queue p (q ∷ qs) = elim (Bool-cases (str_eq queue q)) [
  | inl e ↦ rw ((str_eq_iff queue q).0 e) (elim (Bool-cases (p q)) [
    | inl k ↦ rw k (rw (str_eq_refl q) refl)
    | inr k ↦ rw k (mem-select q p qs ∙ (rw k (falses _ _)))
  ])
  | inr e ↦ elim (Bool-cases (p q)) [
    | inl k ↦ rw (k, e) (mem-select queue p qs)
    | inr k ↦ rw (k, e) (mem-select queue p qs)
  ]
]
  where
    falses : (a b : Bool) → (a && false) ≡ (b && false)
    falses a b = ground arith

nothing_paused :
    (queue : String) (names : List String)
    → (length names == 0) ≡ true
    → str_mem queue names ≡ false
nothing_paused queue [] h = refl
nothing_paused queue (n ∷ names) h = absurd (ground arith)

open_queues-paused :
    (cfg : QueueConfig) (s : QueueState) (queue : String)
    → s.read ≡ true
    → str_mem queue (open_queues cfg s) ≡ (str_mem queue cfg.queues && not (str_mem queue s.paused))
open_queues-paused cfg s queue h = elim (Bool-cases (length s.paused == 0)) [
  | inl e ↦ rw (h, e) (rw (nothing_paused queue s.paused e) (all _))
  | inr e ↦ rw (h, e) (mem-select queue (λ q. not (str_mem q s.paused)) cfg.queues)
]
  where
    all : (a : Bool) → a ≡ (a && not false)
    all a = ground arith

-- After a refresh, which a configuration with a positive period makes when it is due, a Runner claims
-- from exactly those of its queues that the table has not paused.
pub claimable_exact :
    (cfg : QueueConfig) (now : Time) (cancelled : Bool) (rows : List QueueRow) (s : QueueState)
    (p : Pool) (queue : String)
    → leb_ℤ (queue_state_refresh cfg) (pos 0) ≡ false
    → is_due cfg s now ≡ true
    → str_mem queue (claimable cfg now cancelled (ok (served_rows cfg rows)) s p).1
      ≡ (str_mem queue cfg.queues && not (is_paused queue rows))
unfolding claimable refresh_state
claimable_exact cfg now cancelled rows s p queue refreshes due =
    rw (refreshes, due)
      (open_queues-paused cfg
          (refresh_state cfg cancelled (ok (served_rows cfg rows)) (record s { last_try = now })
            p).0
          queue refl
        ∙ listed (str_mem queue cfg.queues) _ _
            (λ h. named_paused queue (served_rows cfg rows) ∙ served_paused cfg queue rows h))
  where
    listed : (a b c : Bool) → (a ≡ true → b ≡ c) → (a && not b) ≡ (a && not c)
    listed a b c h = ground arith
