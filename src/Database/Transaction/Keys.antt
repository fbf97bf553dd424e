-- ===== src/Database/Transaction/Keys.antt =====
-- The keys that diffCollections visits are those of either side.
use syncio.Base.{
  ◌≡◌, ◌≢◌, ◌⊎◌, ◌↔◌, String, Bool, true, false, inl, inr, Bool-cases, Option-cases, none, some,
  List, [], ◌∷◌, ◌++◌, arith, ◌==◌, eq_iff, if◌then◌else◌,
}
use syncio.Base.Maps.{Map, get, keys}
use syncio.Database.Transaction.{without, unique, place, sort, all_keys, text_before}

abbrev pub Within : String → List String → Type 0
Within k [] = ⊥
Within k (x ∷ xs) = (x ≡ k) ⊎ Within k xs

Within-append :
    (k : String) (xs ys : List String) → Within k (xs ++ ys) ↔ (Within k xs ⊎ Within k ys)
Within-append k [] ys = (inr, λ h. elim h [ inl a ↦ absurd a | inr b ↦ b ])
Within-append k (x ∷ xs) ys =
    let ih = Within-append k xs ys in
    (
      λ h. elim h [
        | inl e ↦ inl (inl e)
        | inr r ↦ elim (ih.0 r) [ inl a ↦ inl (inr a) | inr b ↦ inr b ]
      ],
      λ h. elim h [
        | inl a ↦ elim a [ inl e ↦ inl e | inr r ↦ inr (ih.1 (inl r)) ]
        | inr b ↦ inr (ih.1 (inr b))
      ],
    )

Within-without : (k x : String) (xs : List String) → x ≢ k → Within k xs → Within k (without x xs)
unfolding without
Within-without k x [] ne h = h
Within-without k x (y ∷ ys) ne h =
    ground (arith, eq_iff x y, λ (w : Within k ys). Within-without k x ys ne w)

without-Within : (k x : String) (xs : List String) → Within k (without x xs) → Within k xs
unfolding without
without-Within k x [] h = h
without-Within k x (y ∷ ys) h = ground (arith, without-Within k x ys)

Within-unique : (k : String) (xs : List String) → Within k xs → Within k (unique xs)
unfolding unique
Within-unique k [] h = h
Within-unique k (x ∷ xs) h = elim (Bool-cases (x == k)) [
  | inl same ↦ inl ((eq_iff x k).0 same)
  | inr other ↦
      let ne : x ≢ k = λ e. ground (arith, eq_iff x k) in
      inr (
        Within-without k x (unique xs) ne
          (elim h [ inl e ↦ absurd (ne e) | inr r ↦ Within-unique k xs r ]))
]

unique-Within : (k : String) (xs : List String) → Within k (unique xs) → Within k xs
unfolding unique
unique-Within k [] h = h
unique-Within k (x ∷ xs) h = elim h [
  | inl e ↦ inl e
  | inr r ↦ inr (unique-Within k xs (without-Within k x (unique xs) r))
]

Within-place : (k x : String) (xs : List String) → Within k (place x xs) ↔ ((x ≡ k) ⊎ Within k xs)
unfolding place
Within-place k x [] = (λ h. h, λ h. h)
Within-place k x (y ∷ ys) = choose (Within-place k x ys) (text_before y x)
  where
    choose :
        Within k (place x ys) ↔ ((x ≡ k) ⊎ Within k ys)
        → (b : Bool)
        → Within k (if b then y ∷ place x ys else x ∷ y ∷ ys) ↔ ((x ≡ k) ⊎ Within k (y ∷ ys))
    choose ih true = (
      λ h. elim h [
        | inl e ↦ inr (inl e)
        | inr r ↦ elim (ih.0 r) [ inl e ↦ inl e | inr w ↦ inr (inr w) ]
      ],
      λ h. elim h [
        | inl e ↦ inr (ih.1 (inl e))
        | inr r ↦ elim r [ inl e ↦ inl e | inr w ↦ inr (ih.1 (inr w)) ]
      ],
    )
    choose ih false = (λ h. h, λ h. h)

Within-sort : (k : String) (xs : List String) → Within k (sort xs) ↔ Within k xs
unfolding sort
Within-sort k [] = (λ h. h, λ h. h)
Within-sort k (x ∷ xs) =
    let ih = Within-sort k xs in
    let at = Within-place k x (sort xs) in
    (
      λ h. elim (at.0 h) [ inl e ↦ inl e | inr r ↦ inr (ih.0 r) ],
      λ h. elim h [ inl e ↦ at.1 (inl e) | inr r ↦ at.1 (inr (ih.1 r)) ],
    )

module _ {ℓ} {V : Type ℓ} where
  Within-keys : (k : String) (m : Map V) {v : V} → get k m ≡ some v → Within k (keys m)
  unfolding get
  Within-keys k [] h = cc
  Within-keys k ((j, w) ∷ m) h = elim (Bool-cases (j == k)) [
    | inl same ↦ inl ((eq_iff j k).0 same)
    | inr other ↦ inr (Within-keys k m (rw other at h))
  ]

  keys-Within : (k : String) (m : Map V) → Within k (keys m) → get k m ≢ none
  unfolding get
  keys-Within k [] h = absurd h
  keys-Within k ((j, w) ∷ m) h = λ e. elim (Bool-cases (j == k)) [
    | inl same ↦ cc (rw same at e)
    | inr other ↦ elim h [
      | inl p ↦ ground (arith, eq_iff j k)
      | inr r ↦ keys-Within k m r (rw other at e)
    ]
  ]

  present : (k : String) (m : Map V) → get k m ≢ none → Within k (keys m)
  present k m h = elim (Option-cases (get k m)) [
    | inl e ↦ absurd (h e)
    | inr (v, e) ↦ Within-keys k m e
  ]

  -- A key of either side is visited, and what is visited is a key of either side.
  pub Within-all_keys :
      (k : String) (a b : Map V) → (get k a ≢ none) ⊎ (get k b ≢ none) → Within k (all_keys a b)
  unfolding all_keys
  Within-all_keys k a b h = (Within-sort k (unique (keys a ++ keys b))).1 (
      Within-unique k (keys a ++ keys b) (
        (Within-append k (keys a) (keys b)).1
          (elim h [ inl l ↦ inl (present k a l) | inr r ↦ inr (present k b r) ])))

  pub all_keys-Within :
      (k : String) (a b : Map V) → Within k (all_keys a b) → (get k a ≢ none) ⊎ (get k b ≢ none)
  unfolding all_keys
  all_keys-Within k a b h =
      elim ((Within-append k (keys a) (keys b)).0
        (unique-Within k (keys a ++ keys b) ((Within-sort k (unique (keys a ++ keys b))).0 h))) [
          | inl l ↦ inl (keys-Within k a l)
          | inr r ↦ inr (keys-Within k b r)
        ]
