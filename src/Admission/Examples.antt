-- ===== src/Admission/Examples.antt =====
-- Entries and releases of a small controller, and witnesses (src/resource-control.js).
use syncio.Base.{◌≡◌, refl, true, false, List, [], ◌∷◌, ok}
use syncio.Admission.{
  Controller, make_controller, enter, release, is_held, set_released, Step, enters, releases,
  run_steps,
}
use syncio.Admission.Places.{IsCounted, run_steps-IsCounted}

abbrev two_places : Controller
two_places = record { max_concurrent = 2; active = 0; released = [] }

-- A third entry is refused, and a second release of the first entry gives no place back.
abbrev busy_steps : List Step
busy_steps = enters ∷ enters ∷ enters ∷ releases 0 ∷ releases 0 ∷ enters ∷ []

busy_run :
    run_steps busy_steps two_places
    ≡ record { max_concurrent = 2; active = 2; released = true ∷ false ∷ false ∷ [] }
unfolding run_steps enter release is_held set_released
busy_run = refl

two_places_made : make_controller 2 ≡ ok two_places
unfolding make_controller
two_places_made = refl

run_steps-IsCounted_example : IsCounted (run_steps busy_steps two_places)
run_steps-IsCounted_example = run_steps-IsCounted busy_steps 2 two_places two_places_made
