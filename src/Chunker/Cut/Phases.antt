-- ===== src/Chunker/Cut/Phases.antt =====
-- One round of two bytes takes the hash and the judgments of two single bytes, and so does a phase.
use mapache.Prelude.{
  ℕ, zero, suc, ◌+◌, ◌*◌, ◌%◌, ◌^◌, ◌≤◌, ◌<◌, ◌≡◌, refl, ap, ◌∙◌, sym, subst, bit_and, true, List,
  [], ◌∷◌, map, some, ltb, ◌==◌, length, drop, drop_at, get_elem?, get_or, Bool-cases, inl, inr,
  if◌then◌else◌, arith,
}
use mapache.Prelude.Bits.{bit_and_shl_one}
use mapache.Chunker.Config.{Chunker, shl_one}
use mapache.Chunker.Cut.{gear_of, gear_ls_of, wrapping_add, Search, hit, through, fault, phase}
use mapache.Chunker.Cut.Reference.{IsWellFormed, roll, first_hit}

get_or-map_shl : (xs : List ℕ) (i : ℕ) → get_or (map shl_one xs) i 0 ≡ shl_one (get_or xs i 0)
get_or-map_shl [] i = refl
get_or-map_shl (x ∷ xs) zero = refl
get_or-map_shl (x ∷ xs) (suc i) = get_or-map_shl xs i

module _ (c : Chunker) (w : IsWellFormed c) where
  -- The fingerprint after the first byte of a round is the rolled one, doubled.
  first_fp : (fp b : ℕ) → wrapping_add (fp * 4 % 2 ^ 64) (gear_ls_of c b) ≡ roll c fp b * 2 % 2 ^ 64
  first_fp fp b =
      let e : gear_ls_of c b ≡ shl_one (gear_of c b) =
        ap (λ (t : List ℕ). get_or t b 0) w.doubled_gear ∙ get_or-map_shl c.gear b in
      omega (arith, e)

  second_fp : (x b : ℕ) → wrapping_add (x * 2 % 2 ^ 64) (gear_of c b) ≡ roll c x b
  second_fp x b = omega arith

  first_judgment :
      (x m : ℕ) → m < 2 ^ 63 → (bit_and (x * 2 % 2 ^ 64) (m * 2) == 0) ≡ (bit_and x m == 0)
  first_judgment x m h = rw (bit_and_shl_one x m h) (ground arith)

  -- A round at `n` that does not stop, over the two bytes that it reads.
  phase_round :
      (fuel : ℕ) (slice : List ℕ) (mask mask_ls stop fp n b0 b1 : ℕ)
      → mask < 2 ^ 63
      → mask_ls ≡ mask * 2
      → ltb n stop ≡ true
      → get_elem? slice n ≡ some b0
      → get_elem? slice (n + 1) ≡ some b1
      → phase c (suc fuel) slice mask mask_ls stop fp n ≡ (
          if bit_and (roll c fp b0) mask == 0
          then hit n
          else if bit_and (roll c (roll c fp b0) b1) mask == 0
          then hit (n + 1)
          else phase c fuel slice mask mask_ls stop (roll c (roll c fp b0) b1) (n + 2))
  unfolding phase
  phase_round fuel slice mask mask_ls stop fp n b0 b1 fits doubled more e0 e1 = rw (
    more,
    e0,
    e1,
    doubled,
    first_fp fp b0,
    first_judgment (roll c fp b0) mask fits,
    second_fp (roll c fp b0) b1,
  )

  first_hit_two :
      (judge : ℕ → ℕ) (slice : List ℕ) (mask fp n b0 b1 : ℕ)
      → judge n ≡ mask
      → judge (n + 1) ≡ mask
      → drop n slice ≡ b0 ∷ drop (n + 1) slice
      → drop (n + 1) slice ≡ b1 ∷ drop (n + 1 + 1) slice
      → first_hit c judge fp n (drop n slice) ≡ (
          if bit_and (roll c fp b0) mask == 0
          then some n
          else if bit_and (roll c (roll c fp b0) b1) mask == 0
          then some (n + 1)
          else first_hit c judge (roll c (roll c fp b0) b1) (n + 2) (drop (n + 2) slice))
  unfolding first_hit
  first_hit_two judge slice mask fp n b0 b1 j0 j1 d0 d1 =
      let two : n + 1 + 1 ≡ n + 2 = omega arith in rw (d0, d1, j0, j1, two)

  module _ (judge : ℕ → ℕ) (slice : List ℕ) where
    -- How the end of a search agrees with the search by single bytes from `n` on.
    abbrev pub Agrees : ℕ → ℕ → ℕ → Search → Type 0
    Agrees stop fp n (hit r) = first_hit c judge fp n (drop n slice) ≡ some r
    Agrees stop fp n (through fp' n') =
        (first_hit c judge fp n (drop n slice) ≡ first_hit c judge fp' n' (drop n' slice))
        × (n' % 2 ≡ 0)
        × (n ≤ n')
        × (stop ≤ n')
    Agrees stop fp n fault = ⊥

    -- The end of the rest of a phase is the end of the phase.
    Agrees-later :
        (stop fp n fp' n' : ℕ) (s : Search)
        → first_hit c judge fp n (drop n slice) ≡ first_hit c judge fp' n' (drop n' slice)
        → n ≤ n'
        → Agrees stop fp' n' s
        → Agrees stop fp n s
    Agrees-later stop fp n fp' n' (hit r) e le h = e ∙ h
    Agrees-later stop fp n fp' n' (through fp2 n2) e le h = (e ∙ h.0, h.1, omega arith, h.3)
    Agrees-later stop fp n fp' n' fault e le h = h

    module _ (mask mask_ls stop : ℕ) (fits : mask < 2 ^ 63) (doubled : mask_ls ≡ mask * 2)
        (inside : stop ≤ length slice) (even : stop % 2 ≡ 0) where
      -- A phase with enough fuel reads inside of the slice, and it ends as single bytes would.
      pub phase-Agrees :
          (fuel fp n : ℕ)
          → ((i : ℕ) → n ≤ i → i < stop → judge i ≡ mask)
          → n % 2 ≡ 0
          → 0 < fuel
          → stop < n + fuel
          → Agrees stop fp n (phase c fuel slice mask mask_ls stop fp n)
      phase-Agrees zero fp n same parity some_fuel enough = absurd (omega arith)
      phase-Agrees (suc fuel) fp n same parity some_fuel enough = elim (Bool-cases (ltb n stop)) [
        | inl more ↦
            let lt : n + 1 < stop = ground arith in
            let (b0, e0, d0) = drop_at n slice (omega arith) in
            let (b1, e1, d1) = drop_at (n + 1) slice (omega arith) in
            let step =
              phase_round fuel slice mask mask_ls stop fp n b0 b1 fits doubled more e0 e1 in
            let two =
              first_hit_two judge slice mask fp n b0 b1 (same n (omega arith) (omega arith))
                (same (n + 1) (omega arith) (omega arith)) d0 d1 in
            let fp' = roll c (roll c fp b0) b1 in
            let rest =
              phase-Agrees fuel fp' (n + 2) (λ i le h. same i (omega arith) h) (omega arith)
                (omega arith) (omega arith) in
            subst (Agrees stop fp n) (sym step)
              (elim (Bool-cases (bit_and (roll c fp b0) mask == 0)) [
                | inl j ↦ rw j (rw j at two)
                | inr j ↦ rw j (elim (Bool-cases (bit_and fp' mask == 0)) [
                  | inl k ↦ rw k (rw (j, k) at two)
                  | inr k ↦
                      rw k
                        (Agrees-later stop fp n fp' (n + 2) _ (rw (j, k) at two) (omega arith) rest)
                ])
              ])
        | inr stopped ↦ unfold phase in rw stopped (refl, parity, omega arith, ground arith)
      ]
