-- ===== src/Lead/Started.antt =====
-- Which selections of the lead start work, and which are held back (orchestrator/src/autonomy/lead.ts).
use muslimrentals.Prelude.{
  ℕ, String, ◌≡◌, refl, sym, ◌∙◌, Bool, true, false, none, some, List, [], ◌∷◌, All, includes,
  Bool-cases, inl, inr,
}
use muslimrentals.Errors.{returned}
use muslimrentals.Backlog.{
  BacklogStatus, candidate, triaged, ready, selected, in_progress, blocked, approval_required, done,
  rejected, deferred, duplicate, status_rank, status_equality, BacklogItem,
}
use muslimrentals.Backlog.Store.{get_backlog_item, persist, updated_item}
use muslimrentals.Backlog.Sync.{IsSynced}
use muslimrentals.Approvals.{ApprovalRequest, create_approval_request}
use muslimrentals.Risk.{classify_risk}
use muslimrentals.Risk.Levels.{IsSensitive, classify_risk-high_iff}
use muslimrentals.Lead.{LeadPlan, Pass, LeadStore}
use muslimrentals.Lead.Select.{
  selectable_statuses, selected_item, is_waiting, blocked_patch, approval_patch, selected_patch,
  blocked_input, Selected, nothing_started, is_high, hold_for_approval, start_item, block_item,
  resolve_selection,
}
use muslimrentals.Lead.Selection.{
  IsEligible, selected_item-stored, blocked-KeepsScale, approval-KeepsScale, selected-KeepsScale,
  write-KeepsScale, written-stored, new_status, dependencies-done, is_high-false, is_high-true,
}

-- The statuses from which work may be started.
abbrev pub is_open : BacklogStatus → Bool
is_open candidate = true
is_open triaged = true
is_open ready = true
is_open status = false

selectable-is_open : (s : BacklogStatus) → includes s selectable_statuses ≡ is_open s
unfolding selectable_statuses status_rank
selectable-is_open candidate = refl
selectable-is_open triaged = refl
selectable-is_open ready = refl
selectable-is_open selected = refl
selectable-is_open in_progress = refl
selectable-is_open blocked = refl
selectable-is_open approval_required = refl
selectable-is_open done = refl
selectable-is_open rejected = refl
selectable-is_open deferred = refl
selectable-is_open duplicate = refl

-- The selection step of a pass, on the item that is selected.
module _ (pass : Pass) (index : ℕ) (plan : LeadPlan) (item : BacklogItem) (store : LeadStore) where
  -- What the step comes to for a selected item.
  pub data IsOutcome (result : Selected) : Type 0 where
    unselectable : is_open item.status ≡ false → result ≡ nothing_started store → IsOutcome result
    waiting :
        is_open item.status ≡ true
        → is_waiting item store.backlog ≡ true
        → (blocked_item : BacklogItem)
        → get_backlog_item item.id result.store.backlog ≡ some blocked_item
        → blocked_item.status ≡ blocked
        → result.started ≡ none
        → result.store.approvals ≡ store.approvals
        → IsOutcome result
    held :
        is_open item.status ≡ true
        → is_waiting item store.backlog ≡ false
        → IsSensitive item
        → (held_item : BacklogItem) (request : ApprovalRequest)
        → get_backlog_item item.id result.store.backlog ≡ some held_item
        → held_item.status ≡ approval_required
        → result.started ≡ none
        → result.requests ≡ request.id ∷ []
        → create_approval_request
            (pass.approval_id index)
            pass.now
            (blocked_input pass plan item (classify_risk pass.claude_md item))
            store.approvals
          ≡ (request, result.store.approvals)
        → IsOutcome result
    started :
        is_open item.status ≡ true
        → IsEligible store.backlog item
        → (started_item : BacklogItem)
        → get_backlog_item item.id result.store.backlog ≡ some started_item
        → started_item.status ≡ selected
        → result.started ≡ some (started_item, classify_risk pass.claude_md item)
        → result.store.approvals ≡ store.approvals
        → IsOutcome result

  abbrev Resolves : List String → Type 0
  Resolves new_ids =
      (result : Selected) × (resolve_selection pass index plan new_ids store ≡ returned result)
      × IsOutcome result

  module _ (new_ids : List String)
      (chosen : selected_item pass new_ids plan.selected_item_id store.backlog ≡ some item)
      (synced : All IsSynced store.backlog) where
    opened : (b : Bool) → includes item.status selectable_statuses ≡ b → is_open item.status ≡ b
    opened b h = sym (selectable-is_open item.status) ∙ h

    abbrev stored : get_backlog_item item.id store.backlog ≡ some item
    stored = selected_item-stored pass new_ids plan.selected_item_id store.backlog item chosen

    waiting_branch :
        includes item.status selectable_statuses ≡ true
        → is_waiting item store.backlog ≡ true
        → Resolves new_ids
    unfolding resolve_selection block_item
    waiting_branch open_status waits = (
      nothing_started (record store {
        backlog = persist (updated_item pass.now item blocked_patch) store.backlog;
      }),
      rw
          (
            resolve_selection,
            chosen,
            open_status,
            waits,
            block_item,
            write-KeepsScale pass.now blocked_patch item store.backlog blocked-KeepsScale synced
                stored,
          )
          refl,
      waiting (opened true open_status) waits (updated_item pass.now item blocked_patch)
          (written-stored pass.now blocked_patch item store.backlog)
          (new_status pass.now item plan (classify_risk pass.claude_md item)).0 refl refl,
    )

    held_branch :
        includes item.status selectable_statuses ≡ true
        → is_waiting item store.backlog ≡ false
        → is_high (classify_risk pass.claude_md item).risk ≡ true
        → Resolves new_ids
    unfolding resolve_selection hold_for_approval
    held_branch open_status free sensitive =
        let risk = classify_risk pass.claude_md item in
        (
          record {
            started = none;
            requests =
                (create_approval_request (pass.approval_id index) pass.now
                  (blocked_input pass plan item risk) store.approvals).0.id
                ∷ [];
            store = record {
              backlog = persist (updated_item pass.now item (approval_patch risk)) store.backlog;
              approvals =
                  (create_approval_request (pass.approval_id index) pass.now
                    (blocked_input pass plan item risk) store.approvals).1;
            };
          },
          rw
              (
                resolve_selection,
                chosen,
                open_status,
                free,
                sensitive,
                hold_for_approval,
                write-KeepsScale pass.now (approval_patch risk) item store.backlog
                    (approval-KeepsScale risk) synced stored,
              )
              refl,
          held (opened true open_status) free
              ((classify_risk-high_iff pass.claude_md item).0 (is_high-true risk.risk sensitive))
              (updated_item pass.now item (approval_patch risk))
              (create_approval_request (pass.approval_id index) pass.now
                (blocked_input pass plan item risk) store.approvals).0
              (written-stored pass.now (approval_patch risk) item store.backlog)
              (new_status pass.now item plan risk).1 refl refl refl,
        )

    started_branch :
        includes item.status selectable_statuses ≡ true
        → is_waiting item store.backlog ≡ false
        → is_high (classify_risk pass.claude_md item).risk ≡ false
        → Resolves new_ids
    unfolding resolve_selection start_item
    started_branch open_status free ordinary =
        let risk = classify_risk pass.claude_md item in
        (
          record {
            started = some (updated_item pass.now item (selected_patch plan risk), risk);
            requests = [];
            store = record store {
              backlog =
                  persist (updated_item pass.now item (selected_patch plan risk)) store.backlog;
            };
          },
          rw
              (
                resolve_selection,
                chosen,
                open_status,
                free,
                ordinary,
                start_item,
                write-KeepsScale pass.now (selected_patch plan risk) item store.backlog
                    (selected-KeepsScale plan risk) synced stored,
              )
              refl,
          started (opened true open_status)
              (record {
                stored = stored;
                selectable = open_status;
                dependencies_done = dependencies-done store.backlog item free;
                ordinary = λ sensitive.
                    is_high-false risk.risk ordinary
                      ((classify_risk-high_iff pass.claude_md item).1 sensitive);
              })
              (updated_item pass.now item (selected_patch plan risk))
              (written-stored pass.now (selected_patch plan risk) item store.backlog)
              (new_status pass.now item plan risk).2 refl refl,
        )

    -- For a selected item of a backlog whose items are in range the step never throws. It starts the
    -- item only when the item is stored and selectable, its dependencies are done and nothing makes it
    -- sensitive; it blocks a selectable item that waits for others; for a selectable one that waits
    -- for none and is sensitive it makes a request and has the item wait for approval; and for an
    -- item that is not selectable it changes nothing.
    pub resolve_selection-IsOutcome :
        (result : Selected) × (resolve_selection pass index plan new_ids store ≡ returned result)
        × IsOutcome result
    unfolding resolve_selection
    resolve_selection-IsOutcome = elim (Bool-cases (includes item.status selectable_statuses)) [
      | inr closed ↦ (
        nothing_started store,
        rw (resolve_selection, chosen, closed) refl,
        unselectable (opened false closed) refl,
      )
      | inl open_status ↦ elim (Bool-cases (is_waiting item store.backlog)) [
        | inl waits ↦ waiting_branch open_status waits
        | inr free ↦ elim (Bool-cases (is_high (classify_risk pass.claude_md item).risk)) [
          | inl sensitive ↦ held_branch open_status free sensitive
          | inr ordinary ↦ started_branch open_status free ordinary
        ]
      ]
    ]
