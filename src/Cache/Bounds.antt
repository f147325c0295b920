-- ===== src/Cache/Bounds.antt =====
-- What the pruning leaves: its size and its age.
use eas_bridge.Prelude.{
  ℕ, ◌+◌, ◌-◌, ◌≤◌, String, ◌≡◌, refl, ap, ◌∙◌, Bool, true, not, List, [], ◌∷◌, arith, all,
}
use eas_bridge.Cache.Prune.{
  CacheDirectory, mime_cache_max_bytes, total_size, insert_dir, sort_dirs, is_expired, prune_from,
  prune,
}

total-insert :
    (d : CacheDirectory) (ds : List CacheDirectory)
    → total_size (insert_dir d ds) ≡ d.size + total_size ds
unfolding total_size insert_dir
total-insert d [] = refl
total-insert d (e ∷ es) = ground (arith, total-insert d es)

total-sort : (ds : List CacheDirectory) → total_size (sort_dirs ds) ≡ total_size ds
unfolding total_size sort_dirs
total-sort [] = refl
total-sort (d ∷ ds) = total-insert d (sort_dirs ds) ∙ ap (λ n. d.size + n) (total-sort ds)

module _ (removed : String → Bool) (works : (path : String) → removed path ≡ true) (now : ℕ) where
  kept_size :
      (base total : ℕ) (ds : List CacheDirectory)
      → base + total_size ds ≡ total
      → base ≤ mime_cache_max_bytes
      → base + total_size (prune_from removed now total ds) ≤ mime_cache_max_bytes
  unfolding total_size prune_from
  kept_size base total [] e le = omega arith
  kept_size base total (d ∷ ds) e le =
      ground (
        arith,
        works d.path,
        kept_size (base + d.size) total ds,
        kept_size base (total - d.size) ds,
      )

  kept_young :
      (total : ℕ) (ds : List CacheDirectory)
      → all (λ d. not (is_expired now d)) (prune_from removed now total ds) ≡ true
  unfolding prune_from
  kept_young total [] = refl
  kept_young total (d ∷ ds) =
      ground (arith, works d.path, kept_young total ds, kept_young (total - d.size) ds)

  -- Where every removal succeeds, the directories that stay take up no more than the limit, and none of
  -- them is older than the greatest age.
  pub prune-total :
      (dirs : List CacheDirectory)
      → (total_size (prune removed now dirs) ≤ mime_cache_max_bytes)
        × (all (λ d. not (is_expired now d)) (prune removed now dirs) ≡ true)
  unfolding prune
  prune-total dirs = (
    omega (
      arith,
      kept_size 0 (total_size dirs) (sort_dirs dirs) (omega (arith, total-sort dirs)) (omega arith),
    ),
    kept_young (total_size dirs) (sort_dirs dirs),
  )
