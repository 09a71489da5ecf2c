-- ===== src/Collector/Samples/Thinning.antt =====
-- internal/collector/samples.go: how many successes a stride picks.
use flowbench.Base.{
  ℕ, zero, suc, ◌+◌, ◌-◌, ◌*◌, ◌/◌, ◌%◌, ◌≤◌, ◌<◌, ◌≡◌, refl, ◌==◌, if◌then◌else◌, arith,
  Bool-cases, inl, inr, ap, ◌∙◌, sym, true, false,
}
use native.Mathlib.Nat.{
  div-add-mod', mod-lt, add-zero, add-suc, zero-add, mul_comm, suc-add, suc-mul, mul-le-mul_right,
}
use mathlib.Core.Path.{subst}
use native.Mathlib.Decide.{dec_lt}

-- The multiples of `s` below `n`.
pub multiples : ℕ → ℕ → ℕ
multiples s zero = 0
multiples s (suc n) = let rest = multiples s n in if n % s == 0 then suc rest else rest

-- What the loop picks among `k` successes from the one counted `seen`.
unfoldable pub picks : ℕ → ℕ → ℕ → ℕ
picks s seen zero = 0
picks s seen (suc k) = let rest = picks s (suc seen) k in if seen % s == 0 then suc rest else rest

picks-multiples : (s seen k : ℕ) → picks s seen k + multiples s seen ≡ multiples s (seen + k)
unfolding picks multiples
picks-multiples s seen zero = rw (zero-add, add-zero)
picks-multiples s seen (suc k) =
    let ih : picks s (suc seen) k + multiples s (suc seen) ≡ multiples s (suc (seen + k)) =
      picks-multiples s (suc seen) k ∙ ap (multiples s) (suc-add seen k) in
    rw add-suc (ground (arith, ih))

multiple_between : (s n m q : ℕ) → n ≡ q * s → n ≤ m * s → m * s < n + s → m ≡ q
multiple_between s n m q e lo hi = elim (dec_lt m q) [
  | yes below ↦ absurd (omega (arith, mul-le-mul_right s below))
  | no above ↦ elim (dec_lt q m) [
    | yes over ↦ absurd (omega (arith, mul-le-mul_right s over))
    | no equal ↦ omega arith
  ]
]

multiples_bounds : (s n : ℕ) → 0 < s → (n ≤ multiples s n * s) × (multiples s n * s < n + s)
unfolding multiples
multiples_bounds s zero h = omega arith
multiples_bounds s (suc n) h = elim (Bool-cases (n % s == 0)) [
  | inl here ↦
      let m = multiples_bounds s n h in
      let whole : n ≡ n / s * s = at_multiple here in
      let same = multiple_between s n (multiples s n) (n / s) whole m.0 m.1 in
      let found : multiples s n * s ≡ n = ap (λ x. x * s) same ∙ sym whole in
      rw here (omega (arith, found, suc-mul (multiples s n) s))
  | inr other ↦ let m = multiples_bounds s n h in rw other (passed m.0 other, omega (arith, m.1))
]
  where
    at_multiple : (n % s == 0) ≡ true → n ≡ n / s * s
    at_multiple here = let rest : n % s ≡ 0 = ground arith in omega (arith, div-add-mod' n s, rest)

    passed : n ≤ multiples s n * s → (n % s == 0) ≡ false → suc n ≤ multiples s n * s
    passed lo other = elim (dec_lt n (multiples s n * s)) [
      | yes below ↦ below
      | no stuck ↦
          let e : n ≡ multiples s n * s = omega arith in
          let q =
            multiple_between s (n / s * s) (multiples s n) (n / s) refl
              (omega (arith, div-add-mod' n s)) (omega (arith, div-add-mod' n s, mod-lt n h)) in
          let whole : n / s * s ≡ multiples s n * s = ap (λ x. x * s) (sym q) in
          let rest : n % s ≡ 0 = omega (arith, div-add-mod' n s, whole) in absurd (ground arith)
    ]

-- The stride that the code computes from a positive budget picks at most that many successes.
pub picks_within : (b k : ℕ) → 0 < b → b < k → picks ((k + b - 1) / b) 0 k ≤ b
picks_within b k h over =
    let st = (k + b - 1) / b in
    let covers : k ≤ st * b = omega (arith, div-add-mod' (k + b - 1) b, mod-lt (k + b - 1) h) in
    let st_pos : 0 < st = positive st covers in
    let all : picks st 0 k ≡ multiples st k = all_picks st k in
    elim (dec_lt b (picks st 0 k)) [
      | yes many ↦ absurd (
          omega (
            arith,
            subst (λ p. suc b * st ≤ p * st) all (mul-le-mul_right st many),
            (multiples_bounds st k st_pos).1,
            suc-mul b st,
            mul_comm b st,
            covers,
          ))
      | no few ↦ omega arith
    ]
  where
    positive : (st : ℕ) → k ≤ st * b → 0 < st
    positive zero c = absurd (omega (arith, c))
    positive (suc st) c = omega arith

    all_picks : (st k : ℕ) → picks st 0 k ≡ multiples st k
    all_picks st k =
        unfold multiples in
        (sym (add-zero _) ∙ picks-multiples st 0 k ∙ ap (multiples st) (zero-add k))
