-- ===== src/Wal/Chain.antt =====
-- Logs whose entries continue one another (src/wal.js: append, listAfter, compactThrough).
use syncio.Base.{ℕ, ◌≤◌, ◌<◌, ◌≡◌, refl, List, [], ◌∷◌, ◌++◌, arith}
use syncio.Wal.{Entry, list_after}

-- The entries continue one another, from the sequence `base` on.
abbrev pub Chain : ℕ → List Entry → Type 0
Chain base [] = Unit
Chain base (e ∷ es) =
    (e.base_sequence ≡ base) × (base < e.result_sequence) × Chain e.result_sequence es

-- The sequence behind the last entry.
abbrev pub chain_end : ℕ → List Entry → ℕ
chain_end base [] = base
chain_end base (e ∷ es) = chain_end e.result_sequence es

pub Chain-append :
    (base : ℕ) (es : List Entry) (e : Entry)
    → Chain base es
    → e.base_sequence ≡ chain_end base es
    → e.base_sequence < e.result_sequence
    → Chain base (es ++ e ∷ [])
Chain-append base [] e h at grows = (at, omega arith, tt)
Chain-append base (d ∷ es) e h at grows =
    (h.0, h.1, Chain-append d.result_sequence es e h.2 at grows)

pub chain_end-append :
    (base : ℕ) (es : List Entry) (e : Entry) → chain_end base (es ++ e ∷ []) ≡ e.result_sequence
chain_end-append base [] e = refl
chain_end-append base (d ∷ es) e = chain_end-append d.result_sequence es e

pub le-chain_end : (base : ℕ) (es : List Entry) → Chain base es → base ≤ chain_end base es
le-chain_end base [] h = omega arith
le-chain_end base (e ∷ es) h = omega (arith, le-chain_end e.result_sequence es h.2)

-- Entries that all lie behind the cursor are all listed.
pub list_after-all :
    (sequence base : ℕ) (es : List Entry)
    → sequence ≤ base
    → Chain base es
    → list_after sequence es ≡ es
unfolding list_after
list_after-all sequence base [] le h = refl
list_after-all sequence base (e ∷ es) le h =
    ground (arith, h.1, list_after-all sequence e.result_sequence es (omega (arith, h.1)) h.2)

-- A cursor at the end of the log lists nothing.
pub list_after-end :
    (base : ℕ) (es : List Entry)
    → Chain base es
    → (sequence : ℕ) → chain_end base es ≤ sequence
    → list_after sequence es ≡ []
unfolding list_after
list_after-end base [] h sequence le = refl
list_after-end base (e ∷ es) h sequence le = ground (
  arith,
  list_after-end e.result_sequence es h.2 sequence le,
  le-chain_end e.result_sequence es h.2,
)
