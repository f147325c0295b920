-- ===== src/Imap/Counts.antt =====
-- The numbers of SELECT and STATUS: the first unseen message and how many are unseen.
use eas_bridge.Prelude.{
  ℕ, ◌+◌, ◌^◌, ◌≤◌, ◌<◌, suc, String, ◌≡◌, refl, sym, ap, ◌∙◌, true, false, Option, some, List, [],
  ◌∷◌, ◌++◌, arith, length, all, ◌==◌, Bool-cases, Option-cases, inl, inr, inr-inj, ◌⊎◌, subst,
}
use eas_bridge.Dict.{get_or}
use eas_bridge.Eas.{EmailItem, Folder}
use eas_bridge.Store.{DiskState, u32}
use eas_bridge.Sync.Reads.{MailError}
use eas_bridge.Imap.Session.{
  Session, snapshot_of, first_unseen, count_unseen, SelectData, StatusData, select, status,
}

-- Counting from `i`, the number `n` is that of the first unseen message, or 0 where all are seen.
abbrev pub IsFirstUnseen : ℕ → List EmailItem → ℕ → Type 0
IsFirstUnseen i its n =
    ((n ≡ 0) × (all (λ x. x.read) its ≡ true))
    ⊎ ((before : List EmailItem) × (it : EmailItem) × (after : List EmailItem) × (its
          ≡ before ++ it ∷ after)
        × (all (λ x. x.read) before ≡ true)
        × (it.read ≡ false)
        × (n ≡ i + suc (length before)))

kept_first : (i n : ℕ) (its : List EmailItem) → (n == 0) ≡ false → first_unseen i n its ≡ n
unfolding first_unseen
kept_first i n [] h = refl
kept_first i n (it ∷ its) h = elim (Bool-cases it.read) [
  | inl p ↦ rw p (kept_first (suc i) n its h)
  | inr p ↦ rw (p, h) (kept_first (suc i) n its h)
]

skip_seen :
    (i n : ℕ) (it : EmailItem) (its : List EmailItem)
    → it.read ≡ true
    → IsFirstUnseen (suc i) its n
    → IsFirstUnseen i (it ∷ its) n
skip_seen i n it its seen (inl (zero_n, rest)) = inl (zero_n, ground arith)
skip_seen i n it its seen (inr (before, x, after, e, all_seen, unseen, at)) =
    inr (it ∷ before, x, after, ap (λ l. it ∷ l) e, ground arith, unseen, omega arith)

at_seen :
    (i : ℕ) (it : EmailItem) (its : List EmailItem)
    → it.read ≡ true
    → first_unseen i 0 (it ∷ its) ≡ first_unseen (suc i) 0 its
unfolding first_unseen
at_seen i it its p = rw p refl

at_unseen :
    (i : ℕ) (it : EmailItem) (its : List EmailItem)
    → it.read ≡ false
    → i + 1 < 2 ^ 32
    → first_unseen i 0 (it ∷ its) ≡ i + 1
unfolding first_unseen
at_unseen i it its p room = rw p (kept_first (suc i) (u32 (i + 1)) its (ground arith) ∙ omega arith)

found_first :
    (i : ℕ) (its : List EmailItem)
    → i + length its < 2 ^ 32
    → IsFirstUnseen i its (first_unseen i 0 its)
unfolding first_unseen
found_first i [] room = inl (refl, refl)
found_first i (it ∷ its) room = elim (Bool-cases it.read) [
  | inl p ↦
      subst (IsFirstUnseen i (it ∷ its)) (sym (at_seen i it its p))
        (skip_seen i (first_unseen (suc i) 0 its) it its p (found_first (suc i) its (omega arith)))
  | inr p ↦ inr ([], it, its, refl, refl, p, at_unseen i it its p (omega arith) ∙ omega arith)
]

unseen_le :
    (its : List EmailItem) (n : ℕ) → n + length its < 2 ^ 32 → count_unseen its n ≤ n + length its
unfolding count_unseen
unseen_le [] n room = omega arith
unseen_le (it ∷ its) n room = elim (Bool-cases it.read) [
  | inl p ↦ rw p (omega (arith, unseen_le its n (omega arith)))
  | inr p ↦ rw p (omega (arith, unseen_le its (u32 (n + 1)) (omega arith)))
]

module _ {W : Type 0} (state_of : W → DiskState)
    (sync_for_read : String → W → Option MailError × W) where
  abbrev pub mail_after : Folder → W → List EmailItem
  mail_after folder w =
      get_or [] (state_of ((sync_for_read folder.server_id w).1)).items folder.server_id

  -- A SELECT that succeeds reports as many messages as the folder holds after the synchronisation, and the
  -- number of the first unseen one, or 0 where all are seen; its session has the snapshot of the folder.
  pub select_lem :
      (folder : Folder) (sess : Session) (w : W) (d : SelectData)
      → length (mail_after folder w) < 2 ^ 32
      → (select state_of sync_for_read (some folder) sess w).0 ≡ inr d
      → (d.num_messages ≡ length (mail_after folder w))
        × IsFirstUnseen 0 (mail_after folder w) d.first_unseen_seq_num
        × ((select state_of sync_for_read (some folder) sess w).1.snap
            ≡ some (snapshot_of folder.server_id (state_of ((sync_for_read folder.server_id w).1))))
  unfolding select
  select_lem folder sess w d room e = elim (Option-cases ((sync_for_read folder.server_id w).0)) [
    | inr (x, p) ↦ absurd (cc (rw (p, select) at e))
    | inl p ↦
        let its = mail_after folder w in
        let small : u32 (length its) ≡ length its = omega arith in
        subst
          (λ x.
            (x.num_messages ≡ length its)
            × IsFirstUnseen 0 its x.first_unseen_seq_num
            × ((select state_of sync_for_read (some folder) sess w).1.snap
                ≡ some (
                    snapshot_of folder.server_id
                      (state_of ((sync_for_read folder.server_id w).1)))))
          (inr-inj (rw (p, select) at e))
          (small, found_first 0 its (omega arith), rw (p, select) refl)
  ]

  -- A STATUS that succeeds reports at most as many unseen messages as there are messages.
  pub status_unseen :
      (folder : Folder) (w : W) (d : StatusData)
      → length (mail_after folder w) < 2 ^ 32
      → (status state_of sync_for_read (some folder) w).0 ≡ inr d
      → d.num_unseen ≤ d.num_messages
  unfolding status
  status_unseen folder w d room e = elim (Option-cases ((sync_for_read folder.server_id w).0)) [
    | inr (x, p) ↦ absurd (cc (rw (p, status) at e))
    | inl p ↦
        subst (λ x. x.num_unseen ≤ x.num_messages) (inr-inj (rw (p, status) at e))
          (omega (arith, unseen_le (mail_after folder w) 0 (omega arith)))
  ]
