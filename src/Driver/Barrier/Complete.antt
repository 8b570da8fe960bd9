-- ===== src/Driver/Barrier/Complete.antt =====
-- About fireBarrierIfComplete of internal/core/driver.go: what it waits for.
use go_flywheel.Base.{
  All, Bool, Bool-cases, List, Option, String, [], any, ap, arith, false, false≢true, inl, inr,
  is_none, is_some, none, not, opt_str_eq, refl, some, str_eq_iff, subst, sym, true, ◌&&◌, ◌||◌,
  ◌↔◌, ◌∙◌, ◌∷◌, ◌≡◌, ◌≢◌, ◌⊎◌,
}
use go_flywheel.Driver.Barrier.{is_pending_child}
use go_flywheel.Rows.{Job, in_scope}
use go_flywheel.Types.{JobState, Time, is_terminal}

-- A row that a parent's barrier does not wait for: it is deleted, it is not a child of the parent, or
-- it has succeeded, or was cancelled or discarded.
abbrev pub Settled : String → Job → Type 0
Settled parent_id j =
    (is_some j.deleted_at ≡ true)
    ⊎ (j.parent_job_id ≢ some parent_id)
    ⊎ (j.state ≡ JobState.succeeded)
    ⊎ (j.state ≡ JobState.cancelled)
    ⊎ (j.state ≡ JobState.discarded)

same_parent : (o : Option String) (s : String) → (opt_str_eq o (some s) ≡ true) ↔ (o ≡ some s)
same_parent none s = (λ h. cc, λ h. cc)
same_parent (some t) s = (
  λ h. ap (λ x. some x) ((str_eq_iff t s).0 h),
  λ h. (str_eq_iff t s).1 (ap (λ o. elim o as (λ _. String) [ none ↦ t | some x ↦ x ]) h),
)

pending-Settled :
    (parent_id : String) (j : Job) → is_pending_child parent_id j ≡ false → Settled parent_id j
pending-Settled parent_id j h = elim (Bool-cases (opt_str_eq j.parent_job_id (some parent_id))) [
  | inl e ↦
      by_state j.deleted_at j.state
        (subst (λ t. (in_scope j && t && not (is_terminal j.state)) ≡ false) e h)
  | inr e ↦ inr (inl (λ p. false≢true (sym e ∙ (same_parent j.parent_job_id parent_id).1 p)))
]
  where
    by_state :
        (d : Option Time) (s : JobState)
        → (is_none d && true && not (is_terminal s)) ≡ false
        → (is_some d ≡ true)
          ⊎ (j.parent_job_id ≢ some parent_id)
          ⊎ (s ≡ JobState.succeeded)
          ⊎ (s ≡ JobState.cancelled)
          ⊎ (s ≡ JobState.discarded)
    by_state (some t) s h = inl refl
    by_state none JobState.succeeded h = inr (inr (inl refl))
    by_state none JobState.cancelled h = inr (inr (inr (inl refl)))
    by_state none JobState.discarded h = inr (inr (inr (inr refl)))
    by_state none JobState.available h = absurd (false≢true (sym h))
    by_state none JobState.running h = absurd (false≢true (sym h))
    by_state none JobState.retryable h = absurd (false≢true (sym h))
    by_state none JobState.scheduled h = absurd (false≢true (sym h))
    by_state none JobState.paused h = absurd (false≢true (sym h))

Settled-pending :
    (parent_id : String) (j : Job) → Settled parent_id j → is_pending_child parent_id j ≡ false
Settled-pending parent_id j (inl d) =
    deleted j.deleted_at d (opt_str_eq j.parent_job_id (some parent_id)) (not (is_terminal j.state))
  where
    deleted : (o : Option Time) → is_some o ≡ true → (t u : Bool) → (is_none o && t && u) ≡ false
    deleted none h t u = cc
    deleted (some x) h t u = refl
Settled-pending parent_id j (inr (inl p)) =
    elim (Bool-cases (opt_str_eq j.parent_job_id (some parent_id))) [
      | inl e ↦ absurd (p ((same_parent j.parent_job_id parent_id).0 e))
      | inr e ↦ rw e (unmet (in_scope j) (not (is_terminal j.state)))
    ]
  where
    unmet : (x y : Bool) → (x && false && y) ≡ false
    unmet x y = ground arith
Settled-pending parent_id j (inr (inr e)) = ended (in_scope j) _ j.state e
  where
    ended :
        (x y : Bool) (s : JobState)
        → (s ≡ JobState.succeeded) ⊎ (s ≡ JobState.cancelled) ⊎ (s ≡ JobState.discarded)
        → (x && y && not (is_terminal s)) ≡ false
    ended x y s h = ground arith

pub complete-All :
    (parent_id : String) (js : List Job)
    → (any (is_pending_child parent_id) js ≡ false) ↔ All (Settled parent_id) js
complete-All parent_id [] = (λ h. tt, λ h. refl)
complete-All parent_id (j ∷ js) =
    let rest = complete-All parent_id js in
    (
      λ h.
          let (a, b) = neither (is_pending_child parent_id j) _ h in
          (pending-Settled parent_id j a, rest.0 b),
      λ h. both_false _ _ (Settled-pending parent_id j h.0) (rest.1 h.1),
    )
  where
    neither : (x y : Bool) → (x || y) ≡ false → (x ≡ false) × (y ≡ false)
    neither x y h = (ground arith, ground arith)

    both_false : (x y : Bool) → x ≡ false → y ≡ false → (x || y) ≡ false
    both_false x y h k = ground arith
