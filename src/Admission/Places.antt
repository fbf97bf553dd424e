-- ===== src/Admission/Places.antt =====
-- The places of a controller are counted exactly (src/resource-control.js).
use syncio.Base.{
  ℕ, zero, suc, ◌-◌, ◌≤◌, ◌≡◌, refl, sym, ap, ◌∙◌, Bool, true, false, Bool-cases, inl, inr, none,
  some, List, [], ◌∷◌, ◌++◌, ok, arith, leb, leb→gt, length, if◌then◌else◌, ok-injective,
  require-eq-ok, type_error, ◌&&◌, max_safe_integer,
}
use syncio.Admission.{
  Controller, make_controller, enter, is_held, set_released, release, Step, enters, releases,
  run_steps,
}

-- The entries that are still to be released.
abbrev pub held : List Bool → ℕ
held [] = 0
held (true ∷ flags) = held flags
held (false ∷ flags) = suc (held flags)

pub record IsCounted (c : Controller) : Type 0 where
  pub counted : c.active ≡ held c.released
  pub bounded : c.active ≤ c.max_concurrent

held-append : (flags : List Bool) → held (flags ++ false ∷ []) ≡ suc (held flags)
held-append [] = refl
held-append (true ∷ flags) = held-append flags
held-append (false ∷ flags) = ap suc (held-append flags)

held-set_released :
    (n : ℕ) (flags : List Bool)
    → is_held n flags ≡ true
    → held flags ≡ suc (held (set_released n flags))
unfolding is_held set_released
held-set_released n [] h = cc
held-set_released zero (true ∷ flags) h = cc
held-set_released zero (false ∷ flags) h = refl
held-set_released (suc n) (true ∷ flags) h = held-set_released n flags h
held-set_released (suc n) (false ∷ flags) h = ap suc (held-set_released n flags h)

is_held-set_released : (n : ℕ) (flags : List Bool) → is_held n (set_released n flags) ≡ false
unfolding is_held set_released
is_held-set_released zero [] = refl
is_held-set_released (suc n) [] = refl
is_held-set_released zero (flag ∷ flags) = refl
is_held-set_released (suc n) (flag ∷ flags) = is_held-set_released n flags

enter-IsCounted : (c : Controller) → IsCounted c → IsCounted (enter c).1
unfolding enter
enter-IsCounted c inv = elim (Bool-cases (leb c.max_concurrent c.active)) [
  | inl full ↦ rw (full, enter) inv
  | inr free ↦
      rw (free, enter)
        (record {
          counted = omega (arith, inv.counted, held-append c.released);
          bounded = omega (arith, leb→gt c.max_concurrent c.active free);
        })
]

release-IsCounted : (n : ℕ) (c : Controller) → IsCounted c → IsCounted (release n c)
unfolding release
release-IsCounted n c inv = elim (Bool-cases (is_held n c.released)) [
  | inr free ↦ rw (free, release) inv
  | inl taken ↦
      rw (taken, release)
        (record {
          counted = omega (arith, inv.counted, held-set_released n c.released taken);
          bounded = omega (arith, inv.bounded);
        })
]

run_steps-from : (steps : List Step) (c : Controller) → IsCounted c → IsCounted (run_steps steps c)
unfolding run_steps
run_steps-from [] c inv = inv
run_steps-from (enters ∷ steps) c inv = run_steps-from steps (enter c).1 (enter-IsCounted c inv)
run_steps-from (releases n ∷ steps) c inv =
    run_steps-from steps (release n c) (release-IsCounted n c inv)

-- Whatever entries and releases a new controller has seen, the number of its active places is the
-- number of entries that are still to be released, and it is at most the maximum.
pub run_steps-IsCounted :
    (steps : List Step) (max_concurrent : ℕ) (c : Controller)
    → make_controller max_concurrent ≡ ok c
    → IsCounted (run_steps steps c)
unfolding make_controller
run_steps-IsCounted steps max_concurrent c h =
    let (_, made) =
      require-eq-ok (leb 1 max_concurrent && leb max_concurrent max_safe_integer) type_error _ h in
    run_steps-from steps c
      (rw (← ok-injective made) (record { counted = refl; bounded = omega arith }))

release-free : (n : ℕ) (c : Controller) → is_held n c.released ≡ false → release n c ≡ c
unfolding release
release-free n c free = rw (free, release)

release-release : (n : ℕ) (c : Controller) → release n (release n c) ≡ release n c
unfolding release
release-release n c = elim (Bool-cases (is_held n c.released)) [
  | inr free ↦ ap (release n) (release-free n c free)
  | inl taken ↦
      let after : Controller = record c {
        active = c.active - 1;
        released = set_released n c.released;
      } in
      let once : release n c ≡ after = rw (taken, release) in
      ap (release n) once ∙ release-free n after (is_held-set_released n c.released) ∙ sym once
]

-- While the places are counted, an entry succeeds exactly if fewer than the maximum are held, and
-- releasing an entry twice is releasing it once.
pub enter-release :
    (c : Controller) (n : ℕ)
    → IsCounted c
    → ((enter c).0
        ≡ (if leb c.max_concurrent (held c.released) then none else some (length c.released)))
      × (release n (release n c) ≡ release n c)
unfolding enter
enter-release c n inv = (
  elim (Bool-cases (leb c.max_concurrent c.active)) [
    | inl full ↦ rw (← inv.counted, full, enter)
    | inr free ↦ rw (← inv.counted, free, enter)
  ],
  release-release n c,
)
