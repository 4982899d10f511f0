-- ===== src/Buffers/Best.antt =====
-- `locate` gives the first of the offsets at which the most bytes agree.
use uv_k5_v3_emulator.Common.{
  ℕ, zero, suc, ◌+◌, ◌-◌, ◌≤◌, ◌<◌, ◌≡◌, ◌≢◌, inl, inr, refl, ap, sym, ◌∙◌, arith, Option, none,
  some, ltb, ◌==◌, length, Bool-cases,
}
use uv_k5_v3_emulator.Common.Words.{Bytes}
use uv_k5_v3_emulator.Buffers.{score, better, locate_from, locate, placed, sram_base}

module _ (sram gram : Bytes) where
  -- The first of the best scores at the offsets below `lo`.
  abbrev pub IsBest : ℕ → Option (ℕ × ℕ) → Type 0
  IsBest lo none = (o : ℕ) → o < lo → score sram o gram ≡ none
  IsBest lo (some (best_at, best)) =
      (best_at < lo)
      × (score sram best_at gram ≡ some best)
      × ((o v : ℕ) → o < lo → score sram o gram ≡ some v → v ≤ best)
      × ((o v : ℕ) → o < best_at → score sram o gram ≡ some v → v < best)

  IsBest-better :
      (lo : ℕ) (value : Option ℕ) (found : Option (ℕ × ℕ))
      → score sram lo gram ≡ value
      → IsBest lo found
      → IsBest (lo + 1) (better lo value found)
  unfolding better
  IsBest-better lo none none e h = λ o p. elim (Bool-cases (o == lo)) [
    | inl same ↦ let at : o ≡ lo = ground (arith, same) in rw at e
    | inr other ↦ h o (ground (arith, other))
  ]
  IsBest-better lo none (some (at, best)) e h =
      let (low, scored, most, first) = h in
      (
        omega (arith, low),
        scored,
        λ o v p q. elim (Bool-cases (o == lo)) [
          | inl same ↦
              let here : o ≡ lo = ground (arith, same) in
              let q' : score sram lo gram ≡ some v = ap (λ i. score sram i gram) (sym here) ∙ q in
              absurd (ground (arith, e, q'))
          | inr other ↦ most o v (ground (arith, other)) q
        ],
        first,
      )
  IsBest-better lo (some value) none e h = (
    omega arith,
    e,
    λ o v p q. elim (Bool-cases (o == lo)) [
      | inl same ↦
          let here : o ≡ lo = ground (arith, same) in
          let q' : score sram lo gram ≡ some v = ap (λ i. score sram i gram) (sym here) ∙ q in
          ground (arith, e, q')
      | inr other ↦ let q' = h o (ground (arith, other)) in absurd (ground (arith, q, q'))
    ],
    λ o v p q. let q' = h o p in absurd (ground (arith, q, q')),
  )
  IsBest-better lo (some value) (some (at, best)) e h =
      let (low, scored, most, first) = h in
      elim (Bool-cases (ltb best value)) [
        | inl more ↦
            let above : best < value = ground (arith, more) in
            rw more (
              omega arith,
              e,
              λ o v p q. elim (Bool-cases (o == lo)) [
                | inl same ↦
                    let here : o ≡ lo = ground (arith, same) in
                    let q' : score sram lo gram ≡ some v =
                      ap (λ i. score sram i gram) (sym here) ∙ q in
                    ground (arith, e, q')
                | inr other ↦
                    let bound = most o v (ground (arith, other)) q in omega (arith, bound, above)
              ],
              λ o v p q. let bound = most o v p q in omega (arith, bound, above),
            )
        | inr less ↦
            let below : value ≤ best = ground (arith, less) in
            rw less (
              omega (arith, low),
              scored,
              λ o v p q. elim (Bool-cases (o == lo)) [
                | inl same ↦
                    let here : o ≡ lo = ground (arith, same) in
                    let q' : score sram lo gram ≡ some v =
                      ap (λ i. score sram i gram) (sym here) ∙ q in
                    let at_lo : value ≡ v = ground (arith, e, q') in omega (arith, below, at_lo)
                | inr other ↦ most o v (ground (arith, other)) q
              ],
              first,
            )
      ]

  IsBest-locate_from :
      (n lo : ℕ) (found : Option (ℕ × ℕ))
      → IsBest lo found
      → IsBest (lo + n) (locate_from n lo sram gram found)
  unfolding locate_from
  IsBest-locate_from zero lo found h = let same : lo ≡ lo + 0 = omega arith in rw (← same) h
  IsBest-locate_from (suc n) lo found h =
      let same : lo + 1 + n ≡ lo + suc n = omega arith in
      rw (← same)
        (IsBest-locate_from n (lo + 1) _ (IsBest-better lo (score sram lo gram) found refl h))

  some_score : (o : ℕ) → o + 1024 ≤ length sram → score sram o gram ≢ none
  unfolding score
  some_score o h = ground arith

  found_place :
      (found : Option (ℕ × ℕ)) (lo : ℕ)
      → IsBest lo found
      → 0 < lo
      → 1024 ≤ length sram
      → (best_at best : ℕ) × (placed found ≡ placed (some (best_at, best)))
        × IsBest lo (some (best_at, best))
  found_place none lo h some_lo long = absurd (some_score 0 (omega arith) (h 0 some_lo))
  found_place (some (best_at, best)) lo h some_lo long = (best_at, best, refl, h)

  -- In a memory that has room for the buffers, `locate` gives the addresses of the frame and, 896
  -- bytes behind it, of the status line, at the offset with the highest score of all that fit, the
  -- first of them where several have it. In a smaller memory it finds nothing.
  pub locate_lem :
      (1024 ≤ length sram
        → (best_at best : ℕ) × (locate sram gram ≡ record {
          frame = some (sram_base + best_at);
          status = some (sram_base + best_at + 896);
          best = best;
          total = 1024;
        })
          × IsBest (length sram + 1 - 1024) (some (best_at, best)))
      × (length sram < 1024
          → locate sram gram ≡ record { frame = none; status = none; best = 0; total = 1024 })
  unfolding locate
  locate_lem = (
    λ long.
        let n = length sram + 1 - 1024 in
        let searched = IsBest-locate_from n 0 none (λ o p. absurd (omega arith)) in
        let same : 0 + n ≡ n = omega arith in
        found_place (locate_from n 0 sram gram none) n (rw same at searched) (omega arith) long,
    λ short.
        let none_left : length sram + 1 - 1024 ≡ 0 = omega arith in
        rw none_left (unfold locate_from in refl),
  )
