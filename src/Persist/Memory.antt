-- ===== src/Persist/Memory.antt =====
-- The writes of the state leave the memory as the operation made it, whichever of them fails.
use eas_bridge.Prelude.{String, ◌≡◌, refl, ◌∙◌, Option-cases, Bool-cases, inl, inr}
use eas_bridge.Store.{DiskState}
use eas_bridge.Calendar.Changes.{CalendarMutations, is_unchanged}
use eas_bridge.Calendar.Log.{append_event_log}
use eas_bridge.Persist.Disk.{
  Host, and_then, holds, main_of, save_main, mutate_folder, lines_of, append_event_log_file,
  save_calendar,
}
use eas_bridge.Persist.Crash.{state-write}
use eas_bridge.Persist.Marks.{save_folder-state}

pub state-save_main : (h : Host) → ((save_main h).1).state ≡ h.state
unfolding save_main
state-save_main h = state-write (λ d. record d { main = holds (main_of h.state) }) h

-- `mutateFolder` keeps what `fn` did to the memory, whichever write fails.
pub state-mutate_folder :
    (f : String) (fn : DiskState → DiskState) (h : Host)
    → ((mutate_folder f fn h).1).state ≡ fn h.state
unfolding mutate_folder and_then
state-mutate_folder f fn h =
    let h₁ = record h { state = fn h.state } in
    elim (Option-cases (save_main h₁).0) [
      | inl p ↦
          rw (p, mutate_folder, and_then)
            (save_folder-state f (save_main h₁).1 ∙ state-save_main h₁)
      | inr (e, p) ↦ rw (p, mutate_folder, and_then) (state-save_main h₁)
    ]

state-append_event_log_file :
    (m : CalendarMutations) (h : Host) → ((append_event_log_file m h).1).state ≡ h.state
unfolding append_event_log_file
state-append_event_log_file m h = elim (Bool-cases (is_unchanged m)) [
  | inl p ↦ rw (p, append_event_log_file) refl
  | inr p ↦
      rw (p, append_event_log_file)
        (state-write
          (λ d. record d { event_log = holds (append_event_log m (lines_of d.event_log)) }) h)
]

pub state-save_calendar :
    (m : CalendarMutations) (h : Host) → ((save_calendar m h).1).state ≡ h.state
unfolding save_calendar and_then
state-save_calendar m h = elim (Option-cases (append_event_log_file m h).0) [
  | inl p ↦
      rw (p, save_calendar, and_then)
        (state-save_main (append_event_log_file m h).1 ∙ state-append_event_log_file m h)
  | inr (e, p) ↦ rw (p, save_calendar, and_then) (state-append_event_log_file m h)
]
