-- ===== src/Quant/Crucible/Windows.antt =====
-- internal/quant/crucible.go: how many windows there are, and what each holds.
use trandingnok.Base.{
  ℕ, ◌*◌, ◌^◌, ◌≤◌, ◌<◌, ◌≡◌, refl, inl, inr, true, false, some, List, [], ◌∷◌, map, arith, leb,
  Bool-cases, length, take, drop, All, ℤ, pos, negsuc, pos_part, neg_part, ◌-ℤ◌, ◌≤ℤ◌, leb_ℤ,
  wrap64,
}
use trandingnok.Float.{Float64, lit}
use trandingnok.Quant.Data.{Bar, last_bar}
use trandingnok.Quant.Crucible.{
  CrucibleWindow, WindowSpec, ms_per_day, find_first_idx, eval_start, window_of, windows_of,
  window_specs, build_crucible_windows,
}

-- Times that no subtraction of a window's length takes out of an `int64`.
abbrev pub InRange : ℤ → Type 0
InRange t = (pos_part t < 2 ^ 62) × (neg_part t < 2 ^ 62)

wrap64_lem : (t : ℤ) → pos_part t < 2 ^ 63 → neg_part t ≤ 2 ^ 63 → wrap64 t ≡ t
unfolding wrap64
wrap64_lem (pos n) h k = ground arith
wrap64_lem (negsuc n) h k = ground arith

-- The time a number of days earlier.
abbrev pub days_before : ℤ → ℕ → ℤ
days_before t days = t -ℤ pos (days * ms_per_day)

days_before_lem :
    (t : ℤ) (days : ℕ)
    → InRange t
    → days ≤ 100000
    → (wrap64 (days_before t days) ≡ days_before t days) × (days_before t days ≤ℤ t)
unfolding ◌-ℤ◌
days_before_lem t days h d =
    (wrap64_lem (days_before t days) (ground arith) (ground arith), ground arith)

InRange-between :
    (first t last : ℤ) → InRange first → InRange last → first ≤ℤ t → t ≤ℤ last → InRange t
InRange-between first t last f l h k = ground arith

reaches : {m n : ℕ} → m < n → leb n m ≡ false
reaches h = ground arith

module _ {R : Type 0} where
  find_first_idx-lt :
      (b : Bar R) (bars : List (Bar R)) (target : ℤ)
      → leb_ℤ target (last_bar b bars).open_time ≡ true
      → find_first_idx (b ∷ bars) target < length (b ∷ bars)
  unfolding find_first_idx last_bar
  find_first_idx-lt b [] target h = rw h (omega arith)
  find_first_idx-lt b (c ∷ bars) target h = ground (arith, find_first_idx-lt c bars target h)

  -- The bars before the index lie before the time.
  find_first_idx-take :
      (bars : List (Bar R)) (target : ℤ)
      → All (λ b. leb_ℤ target b.open_time ≡ false) (take (find_first_idx bars target) bars)
  unfolding find_first_idx
  find_first_idx-take [] target = tt
  find_first_idx-take (b ∷ bars) target = elim (Bool-cases (leb_ℤ target b.open_time)) [
    | inl here ↦ rw here tt
    | inr later ↦ rw later (later, find_first_idx-take bars target)
  ]

eval_start_lem :
    (first last : ℤ) (days : ℕ)
    → InRange last
    → first ≤ℤ last
    → days ≤ 100000
    → (first ≤ℤ eval_start first last days) × (eval_start first last days ≤ℤ last)
unfolding eval_start
eval_start_lem first last days h le d =
    let (e, down) = days_before_lem last days h d in
    elim (Bool-cases (leb_ℤ (wrap64 (last -ℤ pos (days * ms_per_day))) first)) [
      | inl early ↦ rw early (ground arith)
      | inr late ↦ rw late (rw e (ground (arith, rw e at late)))
    ]

module _ {R : Type 0} (b : Bar R) (bars : List (Bar R)) (warmup_days : ℕ) where
  -- What a window holds of a series: its evaluation starts within the series, its bars are the
  -- series without a first part, that part lies more than the warm-up before the start, and the
  -- last bar is kept.
  pub record Covers (w : CrucibleWindow R) : Type 0 where
    pub skipped : ℕ
    pub not_before : b.open_time ≤ℤ w.eval_start_ms
    pub not_after : w.eval_start_ms ≤ℤ (last_bar b bars).open_time
    pub suffix : w.bars ≡ drop skipped (b ∷ bars)
    pub nonempty : skipped < length (b ∷ bars)
    pub warm :
        All
          (λ c. leb_ℤ (days_before w.eval_start_ms warmup_days) c.open_time ≡ false)
          (take skipped (b ∷ bars))

  module _ (lo : InRange b.open_time) (hi : InRange (last_bar b bars).open_time)
      (le : b.open_time ≤ℤ (last_bar b bars).open_time) (warmup : warmup_days ≤ 100000) where
    window_of_lem :
        (s : WindowSpec R)
        → s.days ≤ 100000
        → (w : CrucibleWindow R) × (window_of b bars warmup_days s ≡ some w)
          × (w.label ≡ s.label)
          × (w.weight ≡ s.weight)
          × Covers w
    unfolding window_of
    window_of_lem s d =
        let last = (last_bar b bars).open_time in
        let start = eval_start b.open_time last s.days in
        let (not_before, not_after) = eval_start_lem b.open_time last s.days hi le d in
        let in_range = InRange-between b.open_time start last lo hi not_before not_after in
        let (e, down) = days_before_lem start warmup_days in_range warmup in
        let idx = find_first_idx (b ∷ bars) (days_before start warmup_days) in
        let reach = find_first_idx-lt b bars start (ground arith) in
        let early = find_first_idx-lt b bars (days_before start warmup_days) (ground arith) in
        let w : CrucibleWindow R = record {
          label = s.label;
          weight = s.weight;
          bars = drop idx (b ∷ bars);
          eval_start_ms = start;
        } in
        (
          w,
          rw (reaches reach) (rw e),
          refl,
          refl,
          record {
            skipped = idx;
            not_before = not_before;
            not_after = not_after;
            suffix = refl;
            nonempty = early;
            warm = find_first_idx-take (b ∷ bars) (days_before start warmup_days);
          },
        )

    windows_of_step :
        (s : WindowSpec R) (specs : List (WindowSpec R)) (w : CrucibleWindow R)
        → window_of b bars warmup_days s ≡ some w
        → windows_of b bars warmup_days (s ∷ specs) ≡ w ∷ windows_of b bars warmup_days specs
    unfolding windows_of
    windows_of_step s specs w found = rw (found, windows_of)

    -- Every window is found, in the order of the specifications.
    windows_of_lem :
        (specs : List (WindowSpec R))
        → All (λ s. s.days ≤ 100000) specs
        → let ws = windows_of b bars warmup_days specs in
          (map (λ w. w.label) ws ≡ map (λ s. s.label) specs)
          × (map (λ w. w.weight) ws ≡ map (λ s. s.weight) specs)
          × All Covers ws
    unfolding windows_of
    windows_of_lem [] d = (refl, refl, tt)
    windows_of_lem (s ∷ specs) (d, ds) =
        let (w, found, label, weight, covers) = window_of_lem s d in
        let (labels, weights, rest) = windows_of_lem specs ds in
        rw (windows_of_step s specs w found)
          (rw (label, labels), rw (weight, weights), (covers, rest))

module _ {R : Type 0} ⦃f : Float64 R⦄ where
  -- A series whose last bar is not before its first, at times below 2 ^ 62 ms in size, gives the
  -- four windows from short to long with their weights. Each starts its evaluation within the
  -- series and keeps every bar from the warm-up on: what it leaves out is a first part that lies
  -- more than the warm-up before that start, and never the last bar.
  pub build_crucible_windows-Covers :
      (b : Bar R) (bars : List (Bar R)) (warmup_days : ℕ)
      → InRange b.open_time
      → InRange (last_bar b bars).open_time
      → b.open_time ≤ℤ (last_bar b bars).open_time
      → warmup_days ≤ 100000
      → let ws = build_crucible_windows (b ∷ bars) warmup_days in
        (map (λ w. w.label) ws ≡ "6m" ∷ "2y" ∷ "5y" ∷ "full" ∷ [])
        × (map (λ w. w.weight) ws ≡ lit 10 2 ∷ lit 20 2 ∷ lit 30 2 ∷ lit 40 2 ∷ [])
        × All (Covers b bars warmup_days) ws
  unfolding build_crucible_windows
  build_crucible_windows-Covers b bars warmup_days lo hi le w =
      windows_of_lem b bars warmup_days lo hi le w window_specs (omega arith)
