-- ===== src/Queue/Fence.antt =====
-- The start fence of `attach_iteration`, between a slow tick, the reaper and the next claimant.
use research_orchestrator.Prelude.{
  ℕ, ◌+◌, ◌*◌, ◌<◌, String, ◌≡◌, ◌≢◌, refl, Bool, false, Option, none, some, List, arith, ◌==◌, ◌∙◌,
  subst, Bool-cases, inl, inr,
}
use research_orchestrator.Queue.{
  Row, Claim, running, find, recover_stuck, claim_next, claimed_row, attach_iteration, attached_row,
  passes_fence, is_stuck, recovered,
}
use research_orchestrator.Queue.View.{
  IsKeyed, find-update_where, update_where-IsKeyed, affected_by_key, hits, unaffected,
}
use research_orchestrator.Queue.Claims.{Claims, Claimed, claim_next-Claimed, claim_next-IsKeyed}

-- A row whose tick has been RUNNING for longer than the reaper allows.
pub record Overdue (t : List Row) (q s now max_age : ℕ) (r : Row) : Type 0 where
  pub held : find q t ≡ some r
  pub is_running : r.status ≡ running
  pub since : r.started_at ≡ some s
  pub late : s + max_age * 1000000 < now

recover_stuck-IsKeyed :
    (now max_age : ℕ) (note : String) (t : List Row)
    → IsKeyed t
    → IsKeyed (recover_stuck now max_age note t).0
unfolding recover_stuck
recover_stuck-IsKeyed now max_age note t k = update_where-IsKeyed _ _ (λ q. refl) t k

find-recover_stuck :
    (now max_age : ℕ) (note : String) (t : List Row) (q s : ℕ) (r : Row)
    → Overdue t q s now max_age r
    → find q (recover_stuck now max_age note t).0 ≡ some (recovered note r)
unfolding recover_stuck
find-recover_stuck now max_age note t q s r o =
    find-update_where (is_stuck now max_age) (recovered note) (λ q. refl) q t ∙ ground arith

fenced_out :
    (q iteration run e : ℕ) (t : List Row) (r : Row)
    → IsKeyed t
    → find q t ≡ some r
    → passes_fence (some e) r.started_at ≡ false
    → attach_iteration q iteration run (some e) t ≡ (t, 0)
unfolding attach_iteration
fenced_out q iteration run e t r k h blocked = unaffected _ _ t (
    affected_by_key q (λ r. passes_fence (some e) r.started_at) (attached_row iteration run) t k
    ∙ rw (h, hits, blocked))

-- A tick that claimed a row at `s` and comes back after the reaper recovered the row attaches
-- nothing, before any other tick has claimed it.
pub attach_iteration-recover_stuck :
    (now max_age : ℕ) (note : String) (t : List Row) (q s iteration run : ℕ) (r : Row)
    → IsKeyed t
    → Overdue t q s now max_age r
    → let t' = (recover_stuck now max_age note t).0 in
      attach_iteration q iteration run (some s) t' ≡ (t', 0)
attach_iteration-recover_stuck now max_age note t q s iteration run r k o =
    fenced_out q iteration run s _ (recovered note r) (recover_stuck-IsKeyed now max_age note t k)
      (find-recover_stuck now max_age note t q s r o) (unfold recovered passes_fence in refl)

fenced_after_claim :
    {locked : ℕ → Bool} {track : Option String} {now : ℕ} {t t₂ : List Row} {c : Claim}
    (q s iteration run : ℕ) (r : Row)
    → Claims locked track now t t₂ c
    → IsKeyed t₂
    → find q t ≡ some r
    → r.started_at ≡ none
    → s ≢ now
    → attach_iteration q iteration run (some s) t₂ ≡ (t₂, 0)
unfolding passes_fence claimed_row
fenced_after_claim {now = now} {c = c} q s iteration run r claims k held unstarted later =
    elim (Bool-cases (q == c.queue_id)) [
      | inl e ↦
          fenced_out q iteration run s _ (claimed_row now claims.row) k (claims.after q ∙ rw e)
            (ground arith)
      | inr e ↦ fenced_out q iteration run s _ r k (claims.after q ∙ rw e held) (rw unstarted)
    ]

-- A tick that claimed a row at `s` attaches nothing after the reaper recovered the row and a claim at
-- another time than `s` has followed, whether that claim took this row or another one.
pub attach_iteration-claim_next :
    (now max_age : ℕ) (note : String) (t t₂ : List Row) (q s iteration run : ℕ) (r : Row)
    (locked : ℕ → Bool) (track : Option String) (now₂ : ℕ) (c : Claim)
    → IsKeyed t
    → Overdue t q s now max_age r
    → claim_next locked track now₂ (recover_stuck now max_age note t).0 ≡ (t₂, some c)
    → s ≢ now₂
    → attach_iteration q iteration run (some s) t₂ ≡ (t₂, 0)
attach_iteration-claim_next now max_age note t t₂ q s iteration run r locked track now₂ c k o h
      later =
    let t' = (recover_stuck now max_age note t).0 in
    let k' = recover_stuck-IsKeyed now max_age note t k in
    fenced_after_claim q s iteration run (recovered note r)
      (subst (Claimed locked track now₂ t') h (claim_next-Claimed locked track now₂ t' k'))
      (subst (λ (o : List Row × Option Claim). IsKeyed o.0) h
        (claim_next-IsKeyed locked track now₂ t' k'))
      (find-recover_stuck now max_age note t q s r o) (unfold recovered in refl) later
