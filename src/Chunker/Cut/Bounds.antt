-- ===== src/Chunker/Cut/Bounds.antt =====
-- Where a cut point can lie.
use mapache.Prelude.{
  ℕ, ◌+◌, ◌≤◌, ◌<◌, ◌≡◌, refl, min, some, List, [], ◌∷◌, leb, length, take, drop, length-take,
  length-drop, Bool-cases, Option-cases, inl, inr, arith,
}
use mapache.Chunker.Config.{Chunker}
use mapache.Chunker.Cut.{even_floor, cut}
use mapache.Chunker.Cut.Reference.{IsWellFormed, roll, mask_at, first_hit, hit_from, reference_cut}
use mapache.Chunker.Cut.Correct.{cut-reference_cut}

module _ (c : Chunker) (mask : ℕ → ℕ) where
  first_hit_bounds :
      (fp n : ℕ) (bs : List ℕ) {r : ℕ}
      → first_hit c mask fp n bs ≡ some r
      → (n ≤ r) × (r < n + length bs)
  unfolding first_hit
  first_hit_bounds fp n [] e = absurd (cc)
  first_hit_bounds fp n (b ∷ bs) {r} e =
      ground (arith, first_hit_bounds (roll c fp b) (n + 1) bs {r = r})

  hit_from_bounds :
      (n : ℕ) (bs : List ℕ) {r : ℕ} → hit_from c mask n bs ≡ some r → (n ≤ r) × (r ≤ n + length bs)
  unfolding hit_from
  hit_from_bounds n [] e = absurd (cc)
  hit_from_bounds n (b ∷ bs) {r} e = ground (
    arith,
    first_hit_bounds (roll c 0 b) (n + 1) bs {r = r},
    first_hit_bounds 0 n (b ∷ bs) {r = r},
  )

-- A short input is one chunk; a longer one is cut at or behind the minimum size, within the input
-- and the maximum size.
abbrev pub InBounds : Chunker → List ℕ → ℕ → Type 0
InBounds c bytes r =
    (length bytes ≤ c.min_size → r ≡ length bytes)
    × (c.min_size < length bytes → (c.min_size ≤ r) × (r ≤ length bytes) × (r ≤ c.max_size))

pub reference_cut-InBounds :
    (c : Chunker) (bytes : List ℕ) → IsWellFormed c → InBounds c bytes (reference_cut c bytes)
unfolding reference_cut
reference_cut-InBounds c bytes w = elim (Bool-cases (leb (length bytes) c.min_size)) [
  | inl short ↦ rw short (λ h. refl, λ h. absurd (ground arith))
  | inr long ↦
      let limit = min (length bytes) c.max_size in
      let mask = mask_at c (even_floor (min c.normal_size limit)) in
      let rest = drop c.min_size (take (even_floor limit) bytes) in
      let len = length-take (even_floor limit) bytes in
      let len' = length-drop c.min_size (take (even_floor limit) bytes) in
      let lt : c.min_size < length bytes = ground arith in
      rw long (elim (Option-cases (hit_from c mask c.min_size rest)) [
        | inl missed ↦ rw missed (
          λ h. absurd (omega arith),
          λ h. (omega (arith, w.min_normal, w.normal_max), omega arith, omega arith),
        )
        | inr (r, e) ↦
            let b = hit_from_bounds c mask c.min_size rest e in
            rw e (
              λ h. absurd (omega arith),
              λ h. (
                b.0,
                omega (arith, b.1, len, len'),
                omega (arith, w.min_normal, w.normal_max, b.1, len, len'),
              ),
            )
      ])
]

-- For a chunker as `Chunker::new` builds it, `cut` returns a cut point on every input. It is the
-- length of an input of at most `min_size` bytes; for a longer one it is at least `min_size`, at
-- most the input's length and at most `max_size`.
pub cut_bounds :
    (c : Chunker) (bytes : List ℕ)
    → IsWellFormed c
    → (r : ℕ) × (cut c bytes ≡ some r) × InBounds c bytes r
cut_bounds c bytes w =
    (reference_cut c bytes, cut-reference_cut c bytes w, reference_cut-InBounds c bytes w)
