-- ===== src/Sync/Rounds.antt =====
-- The end of a calendar round.
use eas_bridge.Prelude.{
  ℕ, ◌+◌, ◌-◌, ◌≤◌, zero, suc, String, ◌≡◌, refl, true, false, not, ◌&&◌, none, some, arith,
  is_empty, if◌then◌else◌, leb, Bool-cases, Option-cases, inl, inr,
}
use eas_bridge.Mail.Collect.{is_status_5}
use eas_bridge.Calendar.Page.{CalendarSyncResult}
use eas_bridge.Persist.Disk.{Host, Error}
use eas_bridge.Persist.Operations.{reset_sync_key}
use eas_bridge.Sync.Calendar.{
  CalendarReply, page, failed, sync_failed, Round, round_done, round_ended, Locals, first_locals,
  after_reset, take_page, end_of_page, run_pages, sync_calendar_once, calendar_folder_id, repair,
  is_stalled,
}

take_page-locals :
    (res : CalendarSyncResult) (l : Locals) (h : Host)
    → (((take_page res l h).1).page_number ≡ l.page_number)
      × (((take_page res l h).1).retried ≡ l.retried)
unfolding take_page
take_page-locals res l h = (refl, refl)

end_or :
    {W : Type 0} (res : CalendarSyncResult) (e : Error) (l : Locals) (h : Host) (w : W)
    (x : Round W)
    → round_ended x ≡ true
    → round_ended (elim (end_of_page res e l h w) as (λ y. Round W) [ some done ↦ done | none ↦ x ])
      ≡ true
unfolding end_of_page round_ended
end_or res (some e) l h w x q = refl
end_or res none l h w x q = elim (Bool-cases (not res.more_available)) [
  | inl a ↦ rw (a, end_of_page) refl
  | inr a ↦ elim (Bool-cases (is_stalled res l.no_progress_pages)) [
    | inl b ↦ rw (a, b, end_of_page) refl
    | inr b ↦ rw (a, b, end_of_page) q
  ]
]

module _ {W : Type 0} (fetch : W → CalendarReply × W) where
  rounds_left : Locals → ℕ
  rounds_left l = 101 - l.page_number + (if l.retried then 0 else 101)

  abbrev Ends : ℕ → Type 0
  Ends fuel =
      (folder : String) (l : Locals) (h : Host) (w : W)
      → l.page_number ≤ 100
      → rounds_left l ≤ fuel
      → round_ended (run_pages fetch fuel folder l h w) ≡ true

  round-Ends :
      (fuel : ℕ) (folder : String) (l : Locals) (h : Host) (r : CalendarReply × W)
      → Ends fuel
      → l.page_number + 1 ≤ 100
      → rounds_left l ≤ suc fuel
      → round_ended (elim (r.0) as (λ x. Round W) [
        | failed e ↦ elim (is_status_5 e && not l.retried) as (λ x. Round W) [
          | true ↦ run_pages fetch fuel folder (after_reset l) ((reset_sync_key folder h).1) (r.1)
          | false ↦ round_done (some (sync_failed e)) none h (r.1)
        ]
        | page res ↦
            let t = take_page res l h in
            elim (end_of_page res (t.0) (t.1) (t.2) (r.1)) as (λ x. Round W) [
              | some done ↦ done
              | none ↦
                  run_pages fetch fuel folder
                    (record (t.1) { page_number = (t.1).page_number + 1 })
                    (t.2)
                    (r.1)
            ]
      ])
        ≡ true
  unfolding rounds_left round_ended after_reset
  round-Ends fuel folder l h (failed e, w) ih le room =
      elim (Bool-cases (is_status_5 e && not l.retried)) [
        | inl q ↦ rw q (ih folder (after_reset l) _ w (omega arith) (ground (arith, q)))
        | inr q ↦ rw q refl
      ]
  round-Ends fuel folder l h (page res, w) ih le room =
      let t = take_page res l h in
      let same = take_page-locals res l h in
      end_or res (t.0) (t.1) (t.2) w
        (run_pages fetch fuel folder (record (t.1) { page_number = (t.1).page_number + 1 }) (t.2) w)
        (ih folder (record (t.1) { page_number = (t.1).page_number + 1 }) (t.2) w
          (omega (arith, same.0)) (ground (arith, same.0, same.1, room)))

  run_pages_end : (fuel : ℕ) → Ends fuel
  unfolding run_pages rounds_left round_ended
  run_pages_end zero folder l h w le room = ground arith
  run_pages_end (suc fuel) folder l h w le room = elim (Bool-cases (leb 100 l.page_number)) [
    | inl q ↦ rw (q, round_ended, run_pages) refl
    | inr q ↦
        rw (q, round_ended, run_pages)
          (round-Ends fuel folder l h (fetch w) (run_pages_end fuel) (ground arith) room)
  ]

  -- The loop of a calendar round ends within 202 rounds, whatever the server answers and whichever writes fail.
  pub sync_calendar_once_terminates :
      (fuel : ℕ) (h : Host) (w : W)
      → 202 ≤ fuel
      → round_ended (sync_calendar_once fetch fuel h w) ≡ true
  unfolding sync_calendar_once rounds_left round_ended first_locals
  sync_calendar_once_terminates fuel h w room =
      elim (Bool-cases (is_empty (calendar_folder_id h.state.folders))) [
        | inl q ↦ rw (q, round_ended, sync_calendar_once) refl
        | inr q ↦ elim (Option-cases ((repair h).0)) [
          | inr (e, p) ↦ rw (q, p, round_ended, sync_calendar_once) refl
          | inl p ↦
              rw (q, p, round_ended, sync_calendar_once)
                (run_pages_end fuel (calendar_folder_id h.state.folders) first_locals ((repair h).1)
                  w (omega arith) room)
        ]
      ]
