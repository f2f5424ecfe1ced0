-- ===== src/Queue/Counting.antt =====
-- `countAdmitted`: the scan loop ends within its fuel, and counts 0 exactly when nobody is admitted.
use Prim.Native.Nat.add
use ticket_queue_platform.Errors.{unavailable}
use ticket_queue_platform.Prelude.{
  suc, refl, ltb, Bool-cases, Bool, false, Result, err, inl, inr, ◌⊎◌, ◌++◌, subst, ℕ, ◌+◌, ◌≡◌,
  ◌∙◌, sym, ap, ◌<◌, true, List, [], ◌∷◌, length, length-append, contains, arith, ok, is_some,
}
use ticket_queue_platform.Platform.{Platform, World, calm}
use ticket_queue_platform.Services.Redis.{Scans, last, more, admitted}
use ticket_queue_platform.Queue.Repository.{pages, count_from, count_admitted}

regroup :
    (count : ℕ) (keys rest : List ℕ)
    → count + length keys + length rest ≡ count + length (keys ++ rest)
regroup count keys rest = omega (arith, length-append keys rest)

module _ {p : Platform} (c : ℕ) (w : World p) where
  count_step :
      (fuel cursor next count : ℕ) (keys : List ℕ)
      → p.redis.scan_admitted c w.redis cursor ≡ (suc next, keys)
      → (fs : List Bool)
      → (count_from (suc fuel) c cursor count (record w { faults = [] })
          ≡ count_from fuel c (suc next) (count + length keys) (record w { faults = [] }))
        × (count_from (suc fuel) c cursor count (record w { faults = false ∷ fs })
            ≡ count_from fuel c (suc next) (count + length keys) (record w { faults = fs }))
  unfolding count_from
  count_step fuel cursor next count keys e fs = (ground (arith, e), ground (arith, e))

  -- the last page
  count_end :
      (cursor count : ℕ) (keys : List ℕ)
      → p.redis.scan_admitted c w.redis cursor ≡ (0, keys)
      → (fs : List Bool)
      → (count_from 1 c cursor count (record w { faults = [] })
          ≡ (ok (count + length keys), record w { faults = [] }))
        × (count_from 1 c cursor count (record w { faults = false ∷ fs })
            ≡ (ok (count + length keys), record w { faults = fs }))
  unfolding count_from
  count_end cursor count keys e fs = (ground (arith, e), ground (arith, e))

  -- How a run of the loop ends: with the full count, or by a call that failed.
  abbrev pub Ends : ℕ → Result ℕ × World p → Type 0
  Ends n r =
      (fs : List Bool) × ((r ≡ (ok n, record w { faults = fs }))
        ⊎ (r ≡ (err unavailable, record w { faults = fs })))

  count_fault :
      (fuel cursor count : ℕ) (fs : List Bool)
      → count_from (suc fuel) c cursor count (record w { faults = true ∷ fs })
        ≡ (err unavailable, record w { faults = fs })
  unfolding count_from
  count_fault fuel cursor count fs = refl

  count_from-Ends :
      {cursor : ℕ} {keys : List ℕ} (count : ℕ)
      (run : Scans (p.redis.scan_admitted c w.redis) cursor keys) (fs : List Bool)
      → Ends
          (count + length keys)
          (count_from (pages run) c cursor count (record w { faults = fs }))
  count_from-Ends count (last cursor {keys} e) [] = ([], inl (count_end cursor count keys e []).0)
  count_from-Ends count (last cursor e) (true ∷ fs) = (fs, inr (count_fault 0 cursor count fs))
  count_from-Ends count (last cursor {keys} e) (false ∷ fs) =
      (fs, inl (count_end cursor count keys e fs).1)
  count_from-Ends count (more cursor next {keys} {rest} e run) [] =
      rw (count_step (pages run) cursor next count keys e []).0 (
        subst (λ n. Ends n (count_from (pages run) c (suc next) (count + length keys) (calm w)))
          (regroup count keys rest) (count_from-Ends (count + length keys) run []))
  count_from-Ends count (more cursor next e run) (true ∷ fs) =
      (fs, inr (count_fault (pages run) cursor count fs))
  count_from-Ends count (more cursor next {keys} {rest} e run) (false ∷ fs) =
      rw (count_step (pages run) cursor next count keys e fs).1 (
        subst
          (λ n.
            Ends n (
              count_from (pages run) c (suc next) (count + length keys) (record w { faults = fs })))
          (regroup count keys rest) (count_from-Ends (count + length keys) run fs))

  -- Whatever calls fail, the loop ends within its fuel: with the number of keys that the whole scan
  -- returns, or with the failure of a call; and only the plan of faults is used up.
  pub count_admitted-Ends : Ends (length (p.redis.scan_ends c w.redis).0) (count_admitted c w)
  unfolding count_admitted
  count_admitted-Ends =
      subst (λ n. Ends n (count_admitted c w)) (add.zero (length (p.redis.scan_ends c w.redis).0))
        (count_from-Ends 0 (p.redis.scan_ends c w.redis).1 w.faults)

module _ {p : Platform} (c : ℕ) (w : World p) where
  count_from_total :
      {cursor : ℕ} {keys : List ℕ} (count : ℕ)
      (run : Scans (p.redis.scan_admitted c w.redis) cursor keys)
      → count_from (pages run) c cursor count (calm w) ≡ (ok (count + length keys), calm w)
  count_from_total count (last cursor {keys} e) = (count_end c w cursor count keys e []).0
  count_from_total count (more cursor next {keys} {rest} e run) =
      (count_step c w (pages run) cursor next count keys e []).0
      ∙ count_from_total (count + length keys) run
      ∙ ap (λ (n : ℕ). (ok n, calm w)) (regroup count keys rest)

  pub count_admitted_total :
      count_admitted c (calm w) ≡ (ok (length (p.redis.scan_ends c w.redis).0), calm w)
  unfolding count_admitted
  count_admitted_total =
      count_from_total 0 (p.redis.scan_ends c w.redis).1
      ∙ ap (λ (n : ℕ). (ok n, calm w)) (add.zero (length (p.redis.scan_ends c w.redis).0))

contains-length : (u : ℕ) (xs : List ℕ) → contains u xs ≡ true → 0 < length xs
contains-length u (x ∷ xs) h = omega arith
contains-length u [] h = cc

first_contained : (xs : List ℕ) → 0 < length xs → (u : ℕ) × (contains u xs ≡ true)
first_contained [] h = absurd (omega arith)
first_contained (x ∷ xs) h = (x, ground arith)

module _ (p : Platform) (c : ℕ) (s : p.redis.Store) where
  -- an admitted user makes the count positive
  pub admitted-counted :
      (u : ℕ) → is_some (p.redis.get (admitted c u) s) ≡ true → 0 < length (p.redis.scan_ends c s).0
  admitted-counted u h =
      contains-length u (p.redis.scan_ends c s).0 ((p.redis.scan_ends c s).2 u ∙ h)

  pub uncounted-vacant :
      ltb 0 (length (p.redis.scan_ends c s).0) ≡ false
      → (u : ℕ) → is_some (p.redis.get (admitted c u) s) ≡ false
  uncounted-vacant z u = elim (Bool-cases (is_some (p.redis.get (admitted c u) s))) [
    | inl e ↦ absurd (ground (arith, admitted-counted u e))
    | inr e ↦ e
  ]

  pub counted-admitted :
      0 < length (p.redis.scan_ends c s).0
      → (u : ℕ) × (is_some (p.redis.get (admitted c u) s) ≡ true)
  counted-admitted h =
      let (u, e) = first_contained (p.redis.scan_ends c s).0 h in
      (u, sym ((p.redis.scan_ends c s).2 u) ∙ e)

  pub vacant-uncounted :
      ((u : ℕ) → is_some (p.redis.get (admitted c u) s) ≡ false)
      → length (p.redis.scan_ends c s).0 ≡ 0
  vacant-uncounted free = elim (Bool-cases (ltb 0 (length (p.redis.scan_ends c s).0))) [
    | inl e ↦
        let (u, held) = counted-admitted (ground arith) in absurd (ground (arith, free u, held))
    | inr e ↦ ground arith
  ]
