-- ===== src/Replication/Feed.antt =====
-- Who is fed a command, and which replicas stay.
use crimson_cache.Base.{ℕ, ◌+◌, ◌≢◌, List, [], ◌∷◌, All, map}
use crimson_cache.CString.{Bytes}
use crimson_cache.Replication.{Fed, Replica, Write, complete, would_block, broken, feed_each}

-- The descriptors of a list, of those that a write reached, and of those that it broke for.
abbrev pub fds : List Replica → List ℕ
fds rs = map (λ r. r.fd) rs

abbrev pub reached : (ℕ → Write) → List Replica → List ℕ
reached outcome [] = []
reached outcome (r ∷ rs) = elim (outcome 0) [
  | complete ↦ r.fd ∷ reached (λ k. outcome (k + 1)) rs
  | would_block ↦ reached (λ k. outcome (k + 1)) rs
  | broken ↦ reached (λ k. outcome (k + 1)) rs
]

abbrev pub lost : (ℕ → Write) → List Replica → List ℕ
lost outcome [] = []
lost outcome (r ∷ rs) = elim (outcome 0) [
  | complete ↦ lost (λ k. outcome (k + 1)) rs
  | would_block ↦ lost (λ k. outcome (k + 1)) rs
  | broken ↦ r.fd ∷ lost (λ k. outcome (k + 1)) rs
]

abbrev pub stayed : (ℕ → Write) → List Replica → List ℕ
stayed outcome [] = []
stayed outcome (r ∷ rs) = elim (outcome 0) [
  | complete ↦ r.fd ∷ stayed (λ k. outcome (k + 1)) rs
  | would_block ↦ r.fd ∷ stayed (λ k. outcome (k + 1)) rs
  | broken ↦ stayed (λ k. outcome (k + 1)) rs
]

abbrev feed : (ℕ → Write) → (ℕ → ℕ) → Bytes → List Replica → ℕ → List ℕ → Fed
feed = feed_each

-- The outcomes or times of the replicas behind the first.
abbrev shift {ℓ} : {A : Type ℓ} → (ℕ → A) → ℕ → A
shift f k = f (k + 1)

-- No two of the numbers are the same.
abbrev pub AreApart : List ℕ → Type 0
AreApart [] = Unit
AreApart (n ∷ ns) = All (λ m. n ≢ m) ns × AreApart ns
