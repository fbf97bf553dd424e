-- ===== src/Control/Texts.antt =====
-- src/control-plane.js: the tests of texts in createAccount and createProject.
use Prim.Native.Char.{code}
use syncio.Base.{
  ℕ, String, Bool, true, false, not, ◌&&◌, ◌||◌, List, [], ◌∷◌, leb, eqb, ◌==◌, all, if◌then◌else◌,
}

-- \s, which is also what `trim` takes off.
abbrev pub is_space : ℕ → Bool
is_space c =
    leb 9 c && leb c 13
    || eqb c 32
    || eqb c 160
    || eqb c 5760
    || leb 8192 c && leb c 8202
    || eqb c 8232
    || eqb c 8233
    || eqb c 8239
    || eqb c 8287
    || eqb c 12288
    || eqb c 65279

-- `s.trim()`
unfoldable pub trim_start : String → String
trim_start String.[] = String.[]
trim_start (String.◌∷◌ c s) =
    let rest = trim_start s in if is_space (code c) then rest else String.◌∷◌ c s

unfoldable pub trim_end : String → String
trim_end String.[] = String.[]
trim_end (String.◌∷◌ c s) =
    let rest = trim_end s in if is_space (code c) && rest == "" then "" else String.◌∷◌ c rest

unfoldable pub trim : String → String
unfolding trim_start trim_end
trim s = trim_end (trim_start s)

-- /^\S+@\S+\.\S+$/: with no space anywhere, an `@` that is not first, and a dot behind it that is
-- neither next to it nor last.
abbrev is_last : List ℕ → Bool
is_last [] = true
is_last (c ∷ cs) = false

unfoldable pub dot_in : List ℕ → Bool
dot_in [] = false
dot_in (c ∷ cs) = eqb c b'.' && not (is_last cs) || dot_in cs

abbrev pub dot_behind : List ℕ → Bool
dot_behind [] = false
dot_behind (c ∷ cs) = dot_in cs

unfoldable pub at_in : List ℕ → Bool
unfolding dot_in
at_in [] = false
at_in (c ∷ cs) = eqb c b'@' && dot_behind cs || at_in cs

unfoldable pub is_email : List ℕ → Bool
unfolding at_in
is_email [] = false
is_email (c ∷ cs) = all (λ d. not (is_space d)) (c ∷ cs) && at_in cs
