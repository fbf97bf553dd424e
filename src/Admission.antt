-- ===== src/Admission.antt =====
-- src/resource-control.js: ConcurrencyAdmissionController. `enter` gives a function that releases the
-- place; it remembers whether it was called. Here it is the number of the entry, and `released` has the
-- flag of each entry, oldest first.
pub mod Places
pub mod Examples
use syncio.Base.{
  ℕ, zero, suc, ◌+◌, ◌-◌, Bool, true, false, Option, none, some, List, [], ◌∷◌, ◌++◌, Result, ok,
  type_error, require, ◌>>◌, leb, length, ◌&&◌, if◌then◌else◌, max_safe_integer,
}

pub record Controller : Type 0 where
  pub max_concurrent : ℕ
  pub active : ℕ
  pub released : List Bool

unfoldable pub make_controller : ℕ → Result Controller
make_controller max_concurrent = do
  require (leb 1 max_concurrent && leb max_concurrent max_safe_integer) type_error
  ok (record { max_concurrent = max_concurrent; active = 0; released = [] })

unfoldable pub enter : Controller → Option ℕ × Controller
enter c = if leb c.max_concurrent c.active then (none, c) else (
  some (length c.released),
  record c { active = c.active + 1; released = c.released ++ false ∷ [] },
)

-- Whether an entry is still to be released; there is no function for a number that was not given.
unfoldable pub is_held : ℕ → List Bool → Bool
is_held n [] = false
is_held zero (flag ∷ flags) = elim flag [ true ↦ false | false ↦ true ]
is_held (suc n) (flag ∷ flags) = is_held n flags

unfoldable pub set_released : ℕ → List Bool → List Bool
set_released n [] = []
set_released zero (flag ∷ flags) = true ∷ flags
set_released (suc n) (flag ∷ flags) = flag ∷ set_released n flags

-- `Math.max(0, active - 1)` is the difference on ℕ.
unfoldable pub release : ℕ → Controller → Controller
release n c =
    if is_held n c.released
    then record c { active = c.active - 1; released = set_released n c.released }
    else c

pub data Step : Type 0 where
  enters : Step
  releases : ℕ → Step

unfoldable pub run_steps : List Step → Controller → Controller
run_steps [] c = c
run_steps (enters ∷ steps) c = run_steps steps (enter c).1
run_steps (releases n ∷ steps) c = run_steps steps (release n c)
