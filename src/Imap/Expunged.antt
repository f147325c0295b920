-- ===== src/Imap/Expunged.antt =====
-- The sequence numbers that an EXPUNGE answers with, and what a move leaves in the source folder.
use eas_bridge.Prelude.{
  ℕ, ◌+◌, ◌^◌, ◌≤◌, ◌<◌, suc, String, ◌≡◌, subst, Bool, false, not, Option, none, some, List, [],
  ◌∷◌, map, arith, is_nil, length, Bool-cases, Option-cases, inl, inr, inr-inj,
}
use eas_bridge.Dict.{Dict, empty, get, get_or}
use eas_bridge.Eas.{EmailItem}
use eas_bridge.Eas.Uploads.{MoveItemResult}
use eas_bridge.Store.{u32}
use eas_bridge.Sync.Reads.{trash_folder_id}
use eas_bridge.Persist.Disk.{Host}
use eas_bridge.Imap.Session.{MboxSnapshot, Session}
use eas_bridge.Imap.Moves.{
  Victim, is_spared, victims_from, dst_id_of, moved_victims, settle_expunge, move_local, expunge,
}

-- Each number above the one before it, the first at least `low`, and none above `high`.
abbrev pub Climbs : ℕ → ℕ → List ℕ → Type 0
Climbs low high [] = Unit {0}
Climbs low high (n ∷ ns) = (low ≤ n) × (n ≤ high) × Climbs (suc n) high ns

lower-Climbs :
    (low low' high : ℕ) (ns : List ℕ) → low' ≤ low → Climbs low high ns → Climbs low' high ns
lower-Climbs low low' high [] le c = tt
lower-Climbs low low' high (n ∷ ns) le (a, b, c) = (omega arith, b, c)

cons-Climbs :
    (i high : ℕ) (ns : List ℕ)
    → i < high
    → high < 2 ^ 32
    → Climbs (suc i + 1) high ns
    → Climbs (i + 1) high (u32 (i + 1) ∷ ns)
cons-Climbs i high ns below room c =
    rw (small)
      (omega arith, omega arith, lower-Climbs (suc i + 1) (suc (i + 1)) high ns (omega arith) c)
  where
    small : u32 (i + 1) ≡ i + 1
    small = omega arith

seqs-Climbs :
    (uids : Option (ℕ → Bool)) (snap : MboxSnapshot) (high i : ℕ) (its : List EmailItem)
    → i + length its ≤ high
    → high < 2 ^ 32
    → Climbs (i + 1) high (map (λ v. v.seq) (victims_from uids snap i its))
unfolding victims_from
seqs-Climbs uids snap high i [] le room = tt
seqs-Climbs uids snap high i (it ∷ its) le room =
    let ih = seqs-Climbs uids snap high (suc i) its (omega arith) room in
    let skip =
      lower-Climbs (suc i + 1) (i + 1) high (map (λ v. v.seq) (victims_from uids snap (suc i) its))
        (omega arith) ih in
    elim (Bool-cases (not (get_or false snap.deleted it.server_id))) [
      | inl p ↦ rw (p, victims_from) skip
      | inr p ↦ elim (Bool-cases (is_spared uids (get_or 0 snap.uid_for_sid it.server_id))) [
        | inl q ↦ rw (p, q, victims_from) skip
        | inr q ↦ rw (p, q, victims_from) (cons-Climbs i high _ (omega arith) room ih)
      ]
    ]

kept-Climbs :
    (dst : Dict String) (snap : MboxSnapshot) (vs : List Victim) (low high : ℕ)
    → Climbs low high (map (λ v. v.seq) vs)
    → Climbs low high (moved_victims dst snap vs).seqs
unfolding moved_victims
kept-Climbs dst snap [] low high c = tt
kept-Climbs dst snap (v ∷ vs) low high (a, b, c) = elim (Option-cases (get dst v.server_id)) [
  | inl p ↦
      rw (p, moved_victims)
        (kept-Climbs dst snap vs low high (lower-Climbs (suc v.seq) low high _ (omega arith) c))
  | inr (d, p) ↦ rw (p, moved_victims) (a, b, kept-Climbs dst snap vs (suc v.seq) high c)
]

expunged-settle :
    (now : ℕ) (trash : String) (sess : Session) (snap : MboxSnapshot) (vs : List Victim)
    (answer : Option (List MoveItemResult)) (h : Host) (seqs : List ℕ) (high : ℕ)
    → (settle_expunge now trash sess snap vs answer h).0 ≡ inr seqs
    → Climbs 1 high (map (λ v. v.seq) vs)
    → Climbs 1 high seqs
unfolding settle_expunge
expunged-settle now trash sess snap vs none h seqs high e c = cc
expunged-settle now trash sess snap vs (some results) h seqs high e c =
    let m = moved_victims (dst_id_of empty results) snap vs in
    let kept = kept-Climbs (dst_id_of empty results) snap vs 1 high c in
    elim (Bool-cases (is_nil m.ids)) [
      | inl p ↦ absurd (cc (rw (p, settle_expunge) at e))
      | inr p ↦ elim (Option-cases (move_local now sess.selected trash m h).0) [
        | inr (x, q) ↦ absurd (cc (rw (p, q, settle_expunge) at e))
        | inl q ↦ subst (Climbs 1 high) (inr-inj (rw (p, q, settle_expunge) at e)) kept
      ]
    ]

-- The numbers that an EXPUNGE answers with are sequence numbers of the snapshot, each larger than the one
-- before it.
pub expunge-Climbs :
    {W : Type 0} (move_items : String → String → List String → W → Option (List MoveItemResult) × W)
    (now : ℕ) (uids : Option (ℕ → Bool)) (sess : Session) (snap : MboxSnapshot) (h : Host) (w : W)
    (seqs : List ℕ)
    → sess.snap ≡ some snap
    → length snap.items < 2 ^ 32
    → (expunge move_items now uids sess h w).0.0 ≡ inr seqs
    → Climbs 1 (length snap.items) seqs
unfolding expunge
expunge-Climbs move_items now uids sess snap h w seqs here room e =
    let vs = victims_from uids snap 0 snap.items in
    elim (Bool-cases (is_nil vs)) [
      | inl p ↦ subst (Climbs 1 (length snap.items)) (inr-inj (rw (here, p, expunge) at e)) tt
      | inr p ↦ elim (Option-cases (trash_folder_id h.state.folders)) [
        | inl q ↦ absurd (cc (rw (here, p, q, expunge) at e))
        | inr (trash, q) ↦
            expunged-settle now trash sess snap vs
              (move_items sess.selected trash (map (λ v. v.server_id) vs) w).0 h seqs
              (length snap.items) (rw (here, p, q, expunge) at e)
              (seqs-Climbs uids snap (length snap.items) 0 snap.items (omega arith) room)
      ]
    ]
