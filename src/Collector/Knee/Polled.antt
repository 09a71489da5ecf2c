-- ===== src/Collector/Knee/Polled.antt =====
-- internal/collector/knee.go: resourceWindows, and where it cuts the polled series.
use flowbench.Base.{
  ℕ, zero, suc, ◌/◌, ◌-◌, ◌<◌, ◌≤◌, ◌⊎◌, ◌++◌, ◌&&◌, take, drop, ltb_ℤ, Bool-cases, inl, inr, ℤ,
  List, [], ◌∷◌, none, some, some_inj, ◌||◌, Bool, true, false, ltb, length, ◌≡◌, refl, sym, ap,
  ◌∙◌, arith, Float64,
}
use mathlib.Core.Path.{subst}
use flowbench.Executor.Iteration.Steps.{if_cases}
use flowbench.Collector.Knee.{
  PolledSample, Windows, resource_windows, polls_before, split_polls, window_use, windows_of,
}

impossible : true ≡ false → ⊥
impossible h = cc

module _ (fl : Float64) (seconds : ℤ → fl.F) where
  abbrev pub all_before : ℤ → List (PolledSample fl) → Bool
  all_before at [] = true
  all_before at (s ∷ ss) = ltb_ℤ s.at at && all_before at ss

  abbrev pub starts_before : ℤ → List (PolledSample fl) → Bool
  starts_before at [] = false
  starts_before at (s ∷ ss) = ltb_ℤ s.at at

  -- Where a series is cut in two: at the knee, the polls before it on the one side and the first of the
  -- others not before it; or in its middle, where the knee would leave a side with fewer than two.
  pub data IsCut (at : ℤ) (pre post : List (PolledSample fl)) : Type 0 where
    at_knee : all_before at pre ≡ true → starts_before at post ≡ false → IsCut at pre post
    in_middle :
        length pre ≡ length (pre ++ post) / 2
        → (polls_before fl at (pre ++ post) < 2)
          ⊎ (length (pre ++ post) - polls_before fl at (pre ++ post) < 2)
        → IsCut at pre post

  -- The windows are of two parts of the series, cut so, of at least two polls each.
  abbrev pub Polled : List (PolledSample fl) → ℤ → Windows fl → Type 0
  Polled series at w =
      (a : PolledSample fl) × (b : PolledSample fl) × (pre : List (PolledSample fl))
      × (c : PolledSample fl) × (d : PolledSample fl) × (post : List (PolledSample fl)) × (series
          ≡ (a ∷ b ∷ pre) ++ (c ∷ d ∷ post))
      × IsCut at (a ∷ b ∷ pre) (c ∷ d ∷ post)
      × (w.before ≡ window_use fl seconds a (b ∷ pre))
      × (w.after ≡ window_use fl seconds c (d ∷ post))

  take-drop : (n : ℕ) (ss : List (PolledSample fl)) → take n ss ++ drop n ss ≡ ss
  take-drop zero ss = refl
  take-drop (suc n) [] = refl
  take-drop (suc n) (s ∷ ss) = ap (λ t. s ∷ t) (take-drop n ss)

  length-take_within :
      (n : ℕ) (ss : List (PolledSample fl)) → n ≤ length ss → length (take n ss) ≡ n
  length-take_within zero ss h = refl
  length-take_within (suc n) [] h = absurd (omega (arith, h))
  length-take_within (suc n) (s ∷ ss) h = ap suc (length-take_within n ss (omega (arith, h)))

  -- The polls before the knee, and the first that is not.
  take-polls_before :
      (at : ℤ) (ss : List (PolledSample fl))
      → (all_before at (take (polls_before fl at ss) ss) ≡ true)
        × (starts_before at (drop (polls_before fl at ss) ss) ≡ false)
  take-polls_before at [] = (refl, refl)
  take-polls_before at (s ∷ ss) =
      let n = polls_before fl at ss in
      let (low, high) = take-polls_before at ss in
      elim (Bool-cases (ltb_ℤ s.at at)) [
        | inl early ↦
            if_cases
              (λ m.
                (all_before at (take m (s ∷ ss)) ≡ true)
                × (starts_before at (drop m (s ∷ ss)) ≡ false))
              (ltb_ℤ s.at at) (λ e. (ap (λ b. b && all_before at (take n ss)) e ∙ low, high))
              (λ e. absurd (impossible (sym early ∙ e)))
        | inr late ↦
            if_cases
              (λ m.
                (all_before at (take m (s ∷ ss)) ≡ true)
                × (starts_before at (drop m (s ∷ ss)) ≡ false))
              (ltb_ℤ s.at at) (λ e. absurd (impossible (sym e ∙ late))) (λ e. (refl, e))
      ]

  half-le : (n : ℕ) → n / 2 ≤ n
  half-le n = omega arith

  few_side : (n m : ℕ) → ltb n 2 || ltb m 2 ≡ true → (n < 2) ⊎ (m < 2)
  few_side n m h = elim (Bool-cases (ltb n 2)) [
    | inl few ↦ inl (ground (arith, few))
    | inr enough ↦ inr (ground (arith, h, enough))
  ]

  split-IsCut :
      (at : ℤ) (ss : List (PolledSample fl)) (n : ℕ)
      → n ≡ split_polls fl seconds (polls_before fl at ss) (length ss)
      → IsCut at (take n ss) (drop n ss)
  split-IsCut at ss n e =
      subst (λ m. IsCut at (take m ss) (drop m ss)) (sym e)
        (if_cases (λ m. IsCut at (take m ss) (drop m ss))
          (ltb (polls_before fl at ss) 2 || ltb (length ss - polls_before fl at ss) 2)
          (λ few.
            in_middle
              (length-take_within (length ss / 2) ss (half-le (length ss))
                ∙ ap (λ t. length t / 2) (sym (take-drop (length ss / 2) ss)))
              (subst (λ t. (polls_before fl at t < 2) ⊎ (length t - polls_before fl at t < 2))
                (sym (take-drop (length ss / 2) ss)) (few_side _ _ few)))
          (λ enough. let (low, high) = take-polls_before at ss in at_knee low high))

  windows-Polled :
      (at : ℤ) (series xs ys : List (PolledSample fl)) (w : Windows fl)
      → series ≡ xs ++ ys
      → IsCut at xs ys
      → windows_of fl seconds xs ys ≡ some w
      → Polled series at w
  unfolding window_use
  windows-Polled at series [] ys w e cut h = cc
  windows-Polled at series (a ∷ []) ys w e cut h = cc
  windows-Polled at series (a ∷ b ∷ pre) [] w e cut h = cc
  windows-Polled at series (a ∷ b ∷ pre) (c ∷ []) w e cut h = cc
  windows-Polled at series (a ∷ b ∷ pre) (c ∷ d ∷ post) w e cut h = (
    a,
    b,
    pre,
    c,
    d,
    post,
    e,
    cut,
    sym (ap (λ (v : Windows fl). v.before) (some_inj h)),
    sym (ap (λ (v : Windows fl). v.after) (some_inj h)),
  )

  pub resource-Polled :
      (series : List (PolledSample fl)) (at : ℤ) (w : Windows fl)
      → resource_windows fl seconds series at ≡ some w
      → Polled series at w
  unfolding resource_windows
  resource-Polled series at w =
      let n = split_polls fl seconds (polls_before fl at series) (length series) in
      if_cases (λ x. x ≡ some w → Polled series at w) (ltb (length series) 3)
        (λ few. λ h. no_windows h)
        (λ enough. λ h.
          windows-Polled at series (take n series) (drop n series) w (sym (take-drop n series))
            (split-IsCut at series n refl) h)
    where
      no_windows : none ≡ some w → Polled series at w
      no_windows h = cc
