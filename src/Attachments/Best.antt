-- ===== src/Attachments/Best.antt =====
-- What findRefreshedAttachment finds.
use mathlib.Core.List.Perm
use mathlib.Core.List.{Mem, mem-cons_self, mem-cons_of_mem, Perm, perm_middle, append-nil}
use eas_bridge.Prelude.{
  ℕ, suc, ◌+◌, ◌≤◌, ◌<◌, String, ◌≡◌, refl, sym, ap, ◌∙◌, subst, Bool, true, false, not, ◌&&◌,
  Option, none, some, List, [], ◌∷◌, ◌++◌, arith, str_eq, ltb, leb, ◌==◌, if◌then◌else◌, inl, inr,
  ◌⊎◌, Bool-cases,
}
use eas_bridge.Eas.{Attachment}
use eas_bridge.Attachments.Match.{
  Candidates, no_candidate, score, ranked, consider, consider_each, find_refreshed_attachment,
}

module _ (equal_fold : String → String → Bool) (previous : Attachment) where
  -- The score of an attachment with another reference; 0 for one with the same.
  unfoldable pub merit : Attachment → ℕ
  merit d =
      if str_eq d.file_reference previous.file_reference then 0 else score equal_fold previous d

  -- How many attachments have at least a merit.
  unfoldable pub at_least : ℕ → List Attachment → ℕ
  unfolding merit
  at_least k [] = 0
  at_least k (d ∷ ds) = (if leb k (merit d) then 1 else 0) + at_least k ds

  onto : List Attachment → List Attachment → List Attachment
  onto [] seen = seen
  onto (d ∷ ds) seen = onto ds (d ∷ seen)

  Leads : Candidates → List Attachment → Type 0
  Leads st seen =
      ((st.best_score ≡ 0) × (at_least 1 seen ≡ 0))
      ⊎ ((0 < st.best_score)
          × Mem st.best seen
          × (merit st.best ≡ st.best_score)
          × (at_least (suc st.best_score) seen ≡ 0)
          × (if st.ambiguous
              then 2 ≤ at_least st.best_score seen
              else at_least st.best_score seen ≡ 1))

  at_least-onto :
      (k : ℕ) (ds seen : List Attachment)
      → at_least k (onto ds seen) ≡ at_least k ds + at_least k seen
  unfolding at_least onto
  at_least-onto k [] seen = omega arith
  at_least-onto k (d ∷ ds) seen = ground (arith, at_least-onto k ds (d ∷ seen))

  counts :
      (k s : ℕ) (d : Attachment) (ds : List Attachment)
      → merit d ≡ s
      → at_least k (d ∷ ds) ≡ (if leb k s then 1 else 0) + at_least k ds
  unfolding at_least
  counts k s d ds e = ap (λ m. (if leb k m then 1 else 0) + at_least k ds) e

  at_least_mono : (j k : ℕ) (ds : List Attachment) → j ≤ k → at_least k ds ≤ at_least j ds
  unfolding at_least
  at_least_mono j k [] le = omega arith
  at_least_mono j k (d ∷ ds) le =
      let m = merit d in let rest = at_least_mono j k ds le in ground (arith, rest)

  above :
      (st : Candidates) (seen : List Attachment)
      → Leads st seen
      → at_least (suc st.best_score) seen ≡ 0
  unfolding Leads
  above st seen (inl (zero_score, nobody)) =
      subst (λ b. at_least (suc b) seen ≡ 0) (sym zero_score) nobody
  above st seen (inr (positive, found, same, top, many)) = top

  at_best : (a : Bool) (n : ℕ) → (if a then 2 ≤ n else n ≡ 1) → 1 ≤ n
  at_best true n h = omega (arith, h)
  at_best false n h = omega (arith, h)

  Leads-new :
      (s : ℕ) (d : Attachment) (b : ℕ) (seen : List Attachment)
      → merit d ≡ s
      → b < s
      → at_least (suc b) seen ≡ 0
      → Leads (record { best_score = s; best = d; ambiguous = false }) (d ∷ seen)
  unfolding Leads
  Leads-new s d b seen e more top =
      let none_s = at_least_mono (suc b) s seen (omega (arith, more)) in
      let none_above = at_least_mono (suc b) (suc s) seen (omega (arith, more)) in
      inr (
        omega (arith, more),
        mem-cons_self,
        e,
        counts (suc s) s d seen e ∙ ground (arith, none_above, top),
        counts s s d seen e ∙ ground (arith, none_s, top),
      )

  Leads-tie :
      (s : ℕ) (d : Attachment) (st : Candidates) (seen : List Attachment)
      → merit d ≡ s
      → 0 < s
      → s ≡ st.best_score
      → Leads st seen
      → Leads (record st { ambiguous = true }) (d ∷ seen)
  unfolding Leads
  Leads-tie s d st seen e some_score tie (inl (zero_score, nobody)) =
      absurd (omega (arith, some_score, tie, zero_score))
  Leads-tie s d st seen e some_score tie (inr (positive, found, same, top, many)) =
      let at = counts st.best_score s d seen e in
      let over = counts (suc st.best_score) s d seen e in
      let one = at_best st.ambiguous (at_least st.best_score seen) many in
      inr (
        positive,
        mem-cons_of_mem d found,
        same,
        over ∙ ground (arith, tie, top),
        ground (arith, at, tie, one),
      )

  Leads-on :
      (s : ℕ) (d : Attachment) (st : Candidates) (seen : List Attachment)
      → merit d ≡ s
      → ltb st.best_score s ≡ false
      → (ltb 0 s && s == st.best_score) ≡ false
      → Leads st seen
      → Leads st (d ∷ seen)
  unfolding Leads
  Leads-on s d st seen e p q (inl (zero_score, nobody)) =
      inl (zero_score, counts 1 s d seen e ∙ ground (arith, p, zero_score, nobody))
  Leads-on s d st seen e p q (inr (positive, found, same, top, many)) =
      let less : s < st.best_score = ground (arith, p, q, positive) in
      let at : at_least st.best_score (d ∷ seen) ≡ at_least st.best_score seen =
        counts st.best_score s d seen e ∙ ground (arith, less) in
      inr (
        positive,
        mem-cons_of_mem d found,
        same,
        counts (suc st.best_score) s d seen e ∙ ground (arith, less, top),
        subst (λ n. if st.ambiguous then 2 ≤ n else n ≡ 1) (sym at) many,
      )

  ranked-Leads :
      (s : ℕ) (d : Attachment) (st : Candidates) (seen : List Attachment)
      → merit d ≡ s
      → Leads st seen
      → Leads (ranked equal_fold previous s d st) (d ∷ seen)
  unfolding ranked
  ranked-Leads s d st seen e leads = elim (Bool-cases (ltb st.best_score s)) [
    | inl p ↦
        rw (p, ranked)
          (Leads-new s d st.best_score seen e (ground (arith, p)) (above st seen leads))
    | inr p ↦ elim (Bool-cases (ltb 0 s && s == st.best_score)) [
      | inl q ↦
          rw (p, q, ranked) (Leads-tie s d st seen e (ground (arith, q)) (ground (arith, q)) leads)
      | inr q ↦ rw (p, q, ranked) (Leads-on s d st seen e p q leads)
    ]
  ]

  never : (n : ℕ) → ltb n 0 ≡ false
  never n = ground arith

  -- A candidate with the reference of the attachment itself is passed over.
  consider-ranked :
      (d : Attachment) (st : Candidates)
      → consider equal_fold previous d st ≡ ranked equal_fold previous (merit d) d st
  unfolding consider merit
  consider-ranked d st = elim (Bool-cases (str_eq d.file_reference previous.file_reference)) [
    | inl p ↦ rw (p, consider, merit, never st.best_score) refl
    | inr p ↦ rw (p, consider, merit) refl
  ]

  each-Leads :
      (ds : List Attachment) (st : Candidates) (seen : List Attachment)
      → Leads st seen
      → Leads (consider_each equal_fold previous ds st) (onto ds seen)
  unfolding consider_each onto
  each-Leads [] st seen leads = leads
  each-Leads (d ∷ ds) st seen leads = each-Leads ds (consider equal_fold previous d st) (d ∷ seen) (
      subst (λ c. Leads c (d ∷ seen)) (sym (consider-ranked d st))
        (ranked-Leads (merit d) d st seen refl leads))

  onto-perm : (ds seen : List Attachment) → Perm (onto ds seen) (ds ++ seen)
  unfolding onto
  onto-perm [] seen = Perm.refl seen
  onto-perm (d ∷ ds) seen = Perm.trans (onto-perm ds (d ∷ seen)) (perm_middle ds seen)

  mem-onto : (x : Attachment) (ds : List Attachment) → Mem x (onto ds []) → Mem x ds
  mem-onto x ds h = subst (λ l. Mem x l) (append-nil ds) (Perm.subset (onto-perm ds []) x h)

  at_least_whole : (k : ℕ) (ds : List Attachment) → at_least k (onto ds []) ≡ at_least k ds
  unfolding at_least
  at_least_whole k ds = at_least-onto k ds [] ∙ omega arith

  -- The only candidate of the highest merit; or there is none with a merit, or more than one with the highest.
  abbrev pub IsBest : List Attachment → Option Attachment → Type 0
  IsBest ds (some d) =
      Mem d ds × (0 < merit d) × (at_least (merit d) ds ≡ 1) × (at_least (suc (merit d)) ds ≡ 0)
  IsBest ds none =
      (at_least 1 ds ≡ 0) ⊎ ((k : ℕ) × (0 < k) × (2 ≤ at_least k ds) × (at_least (suc k) ds ≡ 0))

  pick_none :
      (ds : List Attachment) (b : ℕ) (d : Attachment) (a : Bool)
      → b ≡ 0
      → at_least 1 ds ≡ 0
      → IsBest ds (if ltb 0 b && not a then some d else none)
  pick_none ds b d a zero_score nobody =
      subst (λ k. IsBest ds (if ltb 0 k && not a then some d else none)) (sym zero_score)
        (inl nobody)

  pick_some :
      (ds : List Attachment) (b : ℕ) (d : Attachment) (a : Bool)
      → 0 < b
      → Mem d ds
      → merit d ≡ b
      → at_least (suc b) ds ≡ 0
      → (if a then 2 ≤ at_least b ds else at_least b ds ≡ 1)
      → IsBest ds (if ltb 0 b && not a then some d else none)
  pick_some ds b d true positive found same top many =
      let yes_b : ltb 0 b ≡ true = ground (arith, positive) in
      rw yes_b (inr (b, positive, many, top))
  pick_some ds b d false positive found same top many =
      let yes_b : ltb 0 b ≡ true = ground (arith, positive) in
      let back = sym same in
      rw yes_b (
        found,
        subst (λ k. 0 < k) back positive,
        subst (λ k. at_least k ds ≡ 1) back many,
        subst (λ k. at_least (suc k) ds ≡ 0) back top,
      )

  chosen-IsBest :
      (ds : List Attachment) (st : Candidates)
      → Leads st (onto ds [])
      → IsBest ds (if ltb 0 st.best_score && not st.ambiguous then some st.best else none)
  unfolding Leads
  chosen-IsBest ds st (inl (zero_score, nobody)) =
      pick_none ds st.best_score st.best st.ambiguous zero_score
        (sym (at_least_whole 1 ds) ∙ nobody)
  chosen-IsBest ds st (inr (positive, found, same, top, many)) =
      pick_some ds st.best_score st.best st.ambiguous positive (mem-onto st.best ds found) same
        (sym (at_least_whole (suc st.best_score) ds) ∙ top)
        (subst (λ n. if st.ambiguous then 2 ≤ n else n ≡ 1) (at_least_whole st.best_score ds) many)

  -- What is found is the only candidate of the highest merit; nothing is found when no candidate has a merit
  -- or several share the highest.
  pub find_refreshed_attachment-IsBest :
      (ds : List Attachment) → IsBest ds (find_refreshed_attachment equal_fold previous ds)
  unfolding find_refreshed_attachment Leads at_least
  find_refreshed_attachment-IsBest ds =
      chosen-IsBest ds (consider_each equal_fold previous ds no_candidate)
        (each-Leads ds no_candidate [] (inl (refl, refl)))
