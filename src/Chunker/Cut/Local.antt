-- ===== src/Chunker/Cut/Local.antt =====
-- A cut point does not depend on what lies behind the first `max_size` bytes.
use mapache.Prelude.{
  ℕ, ◌≤◌, ◌≡◌, sym, ◌∙◌, ap, min, false, List, [], ◌++◌, some, leb, length, take, drop,
  length-append, length-take, take-append, drop_of_length-le, Bool-cases, inl, inr, le-cases,
  append-nil, arith,
}
use mathlib.Core.Option
use mapache.Chunker.Config.{Chunker}
use mapache.Chunker.Cut.{even_floor, cut}
use mapache.Chunker.Cut.Reference.{IsWellFormed, mask_at, hit_from, reference_cut}
use mapache.Chunker.Cut.Correct.{cut-reference_cut}

module _ (c : Chunker) (w : IsWellFormed c) (xs : List ℕ) (full : c.max_size ≤ length xs) where
  -- `reference_cut` behind its first test, on inputs that reach the maximum size.
  long_cut :
      (ys : List ℕ)
      → leb (length (xs ++ ys)) c.min_size ≡ false
      → reference_cut c (xs ++ ys)
        ≡ Option.get_or
            (hit_from c
              (mask_at c (even_floor (min c.normal_size c.max_size)))
              c.min_size
              (drop c.min_size (take (even_floor c.max_size) xs)))
            c.max_size
  unfolding reference_cut
  long_cut ys long =
      let limit : min (length (xs ++ ys)) c.max_size ≡ c.max_size =
        omega (arith, length-append xs ys) in
      let same = take-append (even_floor c.max_size) xs ys (omega arith) in rw (long, limit, same)

  -- Where the sizes coincide nothing is searched.
  tight_cut : (ys : List ℕ) → length xs ≤ c.min_size → reference_cut c (xs ++ ys) ≡ c.max_size
  tight_cut ys tight = elim (Bool-cases (leb (length (xs ++ ys)) c.min_size)) [
    | inl short ↦
        unfold reference_cut in
        rw short (ground (arith, w.min_normal, w.normal_max, length-append xs ys))
    | inr long ↦
        let none_left =
          drop_of_length-le c.min_size (take (even_floor c.max_size) xs)
            (omega (arith, length-take (even_floor c.max_size) xs)) in
        unfold hit_from in long_cut ys long ∙ (rw none_left)
  ]

  pub reference_cut-append : (ys : List ℕ) → reference_cut c (xs ++ ys) ≡ reference_cut c xs
  reference_cut-append ys = elim (le-cases (length xs) c.min_size) [
    | inl tight ↦
        tight_cut ys tight ∙ sym (ap (reference_cut c) (sym (append-nil xs)) ∙ tight_cut [] tight)
    | inr loose ↦
        long_cut ys (ground (arith, length-append xs ys))
        ∙ sym (
            ap (reference_cut c) (sym (append-nil xs))
            ∙ long_cut [] (ground (arith, length-append xs [])))
  ]

-- For a chunker as `Chunker::new` builds it, bytes appended to an input of at least `max_size` bytes
-- do not move the cut point.
pub cut-append :
    (c : Chunker) (xs ys : List ℕ)
    → IsWellFormed c
    → c.max_size ≤ length xs
    → cut c (xs ++ ys) ≡ cut c xs
cut-append c xs ys w full =
    cut-reference_cut c (xs ++ ys) w
    ∙ ap some (reference_cut-append c w xs full ys)
    ∙ sym (cut-reference_cut c xs w)
