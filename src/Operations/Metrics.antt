-- ===== src/Operations/Metrics.antt =====
-- src/operations.js: MetricsRegistry. A number is the bit pattern of its double; `add`, the order
-- and the position of a percentile, `Math.floor((length - 1) * p)`, are the platform's.
use syncio.Base.{
  ℕ, ◌-◌, ◌≤◌, ◌≡◌, refl, String, Bool, not, ◌&&◌, Option, none, some, List, [], ◌∷◌, ◌++◌, Result,
  ok, err, type_error, ◌>>=◌, length, min, suc, zero, arith, ◌==◌, if◌then◌else◌,
}
use syncio.Base.Maps.{Map, get, put}
use syncio.Json.{Value, num, str, is_finite}

pub record MetricsRegistry : Type 0 where
  pub counters : Map ℕ
  pub gauges : Map ℕ
  pub histograms : Map (List ℕ)

pub record Doubles : Type 0 where
  pub add : ℕ → ℕ → ℕ
  pub at_most : ℕ → ℕ → Bool
  pub position : ℕ → ℕ → ℕ

-- assertMetric
unfoldable pub assert_metric : Value → Value → Result (String × ℕ)
unfolding is_finite
assert_metric (str name) (num bits) =
    if not (name == "") && is_finite bits then ok (name, bits) else err type_error
assert_metric _ _ = err type_error

abbrev pub value_or {ℓ} : {A : Type ℓ} → A → Option A → A
value_or fallback none = fallback
value_or fallback (some v) = v

unfoldable pub nth : ℕ → List ℕ → Option ℕ
nth n [] = none
nth zero (x ∷ xs) = some x
nth (suc n) (x ∷ xs) = nth n xs

module _ (doubles : Doubles) where
  unfoldable pub inc : Value → Value → MetricsRegistry → Result MetricsRegistry
  unfolding assert_metric
  inc name value m = do
    (key, bits) ← assert_metric name value
    ok (record m {
      counters = put key (doubles.add (value_or 0 (get key m.counters)) bits) m.counters;
    })

  unfoldable pub gauge : Value → Value → MetricsRegistry → Result MetricsRegistry
  unfolding assert_metric
  gauge name value m = do
    (key, bits) ← assert_metric name value
    ok (record m { gauges = put key bits m.gauges })

  unfoldable pub observe : Value → Value → MetricsRegistry → Result MetricsRegistry
  unfolding assert_metric
  observe name value m = do
    (key, bits) ← assert_metric name value
    ok (record m {
      histograms = put key (value_or [] (get key m.histograms) ++ bits ∷ []) m.histograms;
    })

  unfoldable pub place_number : ℕ → List ℕ → List ℕ
  place_number x [] = x ∷ []
  place_number x (y ∷ ys) =
      let rest = place_number x ys in if doubles.at_most x y then x ∷ y ∷ ys else y ∷ rest

  unfoldable pub sort_numbers : List ℕ → List ℕ
  unfolding place_number
  sort_numbers [] = []
  sort_numbers (x ∷ xs) = place_number x (sort_numbers xs)

  -- `none` is null.
  unfoldable pub percentile : List ℕ → ℕ → Option ℕ
  unfolding nth
  percentile sorted p =
      nth (min (length sorted - 1) (doubles.position (length sorted - 1) p)) sorted

  -- What `snapshot` says of a histogram, with .5, .95 and .99 as doubles.
  pub record Summary : Type 0 where
    pub count : ℕ
    pub sum : ℕ
    pub p50 : Option ℕ
    pub p95 : Option ℕ
    pub p99 : Option ℕ

  unfoldable pub sum_of : ℕ → List ℕ → ℕ
  sum_of total [] = total
  sum_of total (x ∷ xs) = sum_of (doubles.add total x) xs

  unfoldable pub summarize : List ℕ → Summary
  unfolding percentile sort_numbers sum_of
  summarize values =
      let sorted = sort_numbers values in
      record {
        count = length values;
        sum = sum_of 0 values;
        p50 = percentile sorted 0x3FE0000000000000;
        p95 = percentile sorted 0x3FEE666666666666;
        p99 = percentile sorted 0x3FEFAE147AE147AE;
      }

  unfoldable pub histograms_snapshot : Map (List ℕ) → Map Summary
  unfolding summarize
  histograms_snapshot [] = []
  histograms_snapshot ((name, values) ∷ m) = (name, summarize values) ∷ histograms_snapshot m

  nth-within : (n : ℕ) (x : ℕ) (xs : List ℕ) → n ≤ length xs → (v : ℕ) × (nth n (x ∷ xs) ≡ some v)
  unfolding nth
  nth-within zero x xs h = (x, refl)
  nth-within (suc n) x [] h = absurd (omega arith)
  nth-within (suc n) x (y ∷ ys) h = nth-within n y ys (omega arith)

  -- A percentile of a list that is not empty is an element of it, wherever the platform places it.
  pub percentile-some : (x : ℕ) (xs : List ℕ) (p : ℕ) → (v : ℕ) × (percentile (x ∷ xs) p ≡ some v)
  unfolding percentile
  percentile-some x xs p =
      nth-within (min (length (x ∷ xs) - 1) (doubles.position (length (x ∷ xs) - 1) p)) x xs
        (omega arith)
