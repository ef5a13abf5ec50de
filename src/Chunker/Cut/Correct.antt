-- ===== src/Chunker/Cut/Correct.antt =====
-- `Chunker::cut` never panics, and it finds the cut point of the search by single bytes.
use mapache.Prelude.{
  ℕ, suc, ◌+◌, ◌%◌, ◌≤◌, ◌<◌, ◌≡◌, ◌∙◌, sym, ap, min, bit_and, true, false, List, some, leb, ltb,
  ◌==◌, length, take, drop, drop_at, drop_of_length-le, length-take, get_elem?, if◌then◌else◌,
  Bool-cases, inl, inr, le-cases, arith,
}
use mathlib.Core.Option
use mapache.Chunker.Config.{Chunker}
use mapache.Chunker.Cut.{
  even_floor, Search, hit, through, fault, phase, align, finish, and_then, search_cut, cut,
}
use mapache.Chunker.Cut.Reference.{IsWellFormed, roll, mask_at, first_hit, hit_from, reference_cut}
use mapache.Chunker.Cut.Phases.{Agrees, phase-Agrees}

module _ (c : Chunker) (w : IsWellFormed c) (slice : List ℕ) (mid end limit : ℕ) where
  abbrev Ends : Search → ℕ → ℕ → Type 0
  Ends s fp n =
      finish c limit s
      ≡ some (Option.get_or (first_hit c (mask_at c mid) fp n (drop n slice)) limit)

  second_phase : Search → Search
  second_phase s =
      and_then c s (λ fp n. phase c (suc (length slice)) slice c.mask_l c.mask_l_ls end fp n)

  module _ (whole : end ≡ length slice) (mid_end : mid ≤ end) (even_mid : mid % 2 ≡ 0)
      (even_end : end % 2 ≡ 0) where
    end_of_search :
        (fp n : ℕ) (s : Search) → Agrees c w (mask_at c mid) slice end fp n s → Ends s fp n
    unfolding finish first_hit
    end_of_search fp n (hit r) h = rw h
    end_of_search fp n (through fp' n') h =
        rw (h.0, drop_of_length-le n' slice (omega (arith, h.3, whole)))
    end_of_search fp n fault h = absurd h

    end_of_first_phase :
        (fp n : ℕ) (s : Search)
        → Agrees c w (mask_at c mid) slice mid fp n s
        → Ends (second_phase s) fp n
    unfolding and_then second_phase
    end_of_first_phase fp n (hit r) h = unfold finish in rw h
    end_of_first_phase fp n (through fp' n') h =
        let later =
          phase-Agrees c w (mask_at c mid) slice c.mask_l c.mask_l_ls end w.large_mask
            w.doubled_large (omega arith) even_end (suc (length slice)) fp' n'
            (λ i le lt. ground (arith, h.3)) h.1 (omega arith) (omega arith) in
        end_of_search fp' n' _ later ∙ ap (λ o. some (Option.get_or o limit)) (sym h.0)
    end_of_first_phase fp n fault h = absurd h

    both_phases :
        (fp n : ℕ)
        → n % 2 ≡ 0
        → Ends
            (second_phase (phase c (suc (length slice)) slice c.mask_s c.mask_s_ls mid fp n))
            fp
            n
    both_phases fp n parity = end_of_first_phase fp n _ (
        phase-Agrees c w (mask_at c mid) slice c.mask_s c.mask_s_ls mid w.small_mask w.doubled_small
          (omega arith) even_mid (suc (length slice)) fp n (λ i le lt. ground arith) parity
          (omega arith) (omega arith))

    -- Past the end nothing is searched, whatever the parity.
    nothing_left :
        (n : ℕ)
        → end ≤ n
        → second_phase (phase c (suc (length slice)) slice c.mask_s c.mask_s_ls mid 0 n)
          ≡ through 0 n
    unfolding phase and_then second_phase
    nothing_left n h =
        let low : ltb n mid ≡ false = ground arith in
        let high : ltb n end ≡ false = ground arith in rw (low, high)

    after_align :
        (n fp m : ℕ)
        → align c slice end n ≡ through fp m
        → search_cut c slice mid end n
          ≡ second_phase (phase c (suc (length slice)) slice c.mask_s c.mask_s_ls mid fp m)
    unfolding second_phase search_cut
    after_align n fp m e = rw (e, and_then)

    align_past : (n : ℕ) → end ≤ n → align c slice end n ≡ through 0 n
    unfolding align
    align_past n h = let e : ltb n end ≡ false = ground arith in rw e

    align_even : (n : ℕ) → n % 2 ≡ 0 → align c slice end n ≡ through 0 n
    unfolding align
    align_even n h = let e : (n % 2 == 1) ≡ false = ground arith in ground arith

    align_odd :
        (n b : ℕ)
        → n < end
        → n % 2 ≡ 1
        → get_elem? slice n ≡ some b
        → align c slice end n ≡ (
            if bit_and (roll c 0 b) c.mask_s == 0
            then hit (n + 1)
            else through (roll c 0 b) (n + 1))
    unfolding align
    align_odd n b h odd e =
        let e1 : ltb n end ≡ true = ground arith in
        let e2 : (n % 2 == 1) ≡ true = ground arith in rw (e1, e2, e)

    search_past :
        (n : ℕ)
        → end ≤ n
        → finish c limit (search_cut c slice mid end n)
          ≡ some (Option.get_or (hit_from c (mask_at c mid) n (drop n slice)) limit)
    search_past n past =
        let e = after_align n 0 n (align_past n past) ∙ nothing_left n past in
        let d = drop_of_length-le n slice (omega (arith, whole)) in
        unfold finish hit_from in rw (e, d)

    search_odd :
        (n : ℕ)
        → n < end
        → n % 2 ≡ 1
        → finish c limit (search_cut c slice mid end n)
          ≡ some (Option.get_or (hit_from c (mask_at c mid) n (drop n slice)) limit)
    search_odd n within odd =
        let (b, e, d) = drop_at n slice (omega (arith, whole)) in
        let odd' : (n % 2 == 1) ≡ true = ground arith in
        let aligned = align_odd n b within odd e in
        elim (Bool-cases (bit_and (roll c 0 b) c.mask_s == 0)) [
          | inl j ↦ unfold search_cut hit_from and_then finish in rw (aligned, d, odd', j)
          | inr j ↦
              let e' = after_align n (roll c 0 b) (n + 1) (rw j at aligned) in
              unfold hit_from in
              rw (e', d, odd', j) (both_phases (roll c 0 b) (n + 1) (omega arith))
        ]

    search_even :
        (n : ℕ)
        → n < end
        → n % 2 ≡ 0
        → finish c limit (search_cut c slice mid end n)
          ≡ some (Option.get_or (hit_from c (mask_at c mid) n (drop n slice)) limit)
    search_even n within even =
        let (b, e, d) = drop_at n slice (omega (arith, whole)) in
        let even' : (n % 2 == 1) ≡ false = ground arith in
        let e' = after_align n 0 n (align_even n even) in
        unfold hit_from in rw (e', d, even') (rw d at (both_phases 0 n even))

    search_cut-hit_from :
        (n : ℕ)
        → finish c limit (search_cut c slice mid end n)
          ≡ some (Option.get_or (hit_from c (mask_at c mid) n (drop n slice)) limit)
    search_cut-hit_from n = elim (le-cases end n) [
      | inl past ↦ search_past n past
      | inr within ↦ elim (Bool-cases (n % 2 == 0)) [
        | inl even ↦ search_even n within (ground arith)
        | inr odd ↦ search_odd n within (ground arith)
      ]
    ]

-- For a chunker as `Chunker::new` builds it, `cut` returns on every input (no read leaves the slice,
-- no loop goes on), and it returns the cut point of the search that rolls one byte at a time over
-- the plain Gear table.
pub cut-reference_cut :
    (c : Chunker) (bytes : List ℕ) → IsWellFormed c → cut c bytes ≡ some (reference_cut c bytes)
unfolding cut reference_cut
cut-reference_cut c bytes w = elim (Bool-cases (leb (length bytes) c.min_size)) [
  | inl short ↦ rw short
  | inr long ↦
      let limit = min (length bytes) c.max_size in
      let lt : c.min_size < length bytes = ground arith in
      let start : min c.min_size limit ≡ c.min_size = omega (arith, w.min_normal, w.normal_max) in
      rw (long) (
        rw (start) (
          search_cut-hit_from c w (take (even_floor limit) bytes)
            (even_floor (min c.normal_size limit)) (even_floor limit) limit
            (omega (arith, length-take (even_floor limit) bytes)) (omega arith) (omega arith)
            (omega arith) c.min_size))
]
