-- ===== src/Chunker/Stream/Next.antt =====
-- One call of `next`, against the bytes that the stream has still to deliver.
use mapache.Prelude.{
  ℕ, ◌+◌, ◌-◌, ◌≤◌, ◌<◌, ◌≡◌, ◌≢◌, refl, sym, ◌∙◌, ap, min, Bool, true, false, List, [], ◌∷◌, ◌++◌,
  leb, ltb, length, take, drop, length-append, length-drop, append-nil, take-append, drop-append,
  take_of_length-le, Bool-cases, inl, inr, ◌⊎◌, le-cases, arith,
}
use mapache.Chunker.Config.{Chunker}
use mapache.Chunker.Cut.{cut}
use mapache.Chunker.Cut.Reference.{IsWellFormed, reference_cut}
use mapache.Chunker.Cut.Correct.{cut-reference_cut}
use mapache.Chunker.Cut.Bounds.{reference_cut-InBounds}
use mapache.Chunker.Cut.Local.{reference_cut-append}
use mapache.Chunker.Reader.{Reader}
use mapache.Chunker.Stream.{
  Item, chunk, end_of_stream, io_error, panicked, ChunkStream, Fill, filled, broken, stuck, drain,
  cut_off, emit, next_of, next, is_empty,
}
use mapache.Chunker.Stream.Filling.{pending, Unmoved, SourceFails, FillSpec, fill-FillSpec}

module _ (r : Reader) (c : Chunker) where
  -- The state after a chunk of `n` bytes.
  pub record Advanced (n : ℕ) (a b : ChunkStream r) : Type 0 where
    pub rest : pending r b ≡ drop n (pending r a)
    pub counted : b.global_offset ≡ a.global_offset + n
    pub bounded : length b.buffer ≤ c.max_size
    pub calm : r.patience b.source ≤ r.patience a.source

  -- What a call of `next` does with the pending bytes of `a`: nothing is left exactly at the end of
  -- the stream, an error loses nothing, and a chunk is cut off where `cut` cuts the pending bytes.
  abbrev pub Delivers : ChunkStream r → Item → ChunkStream r → Type 0
  Delivers a (chunk k) b =
      (pending r a ≢ [])
      × (k ≡ record {
        offset = a.global_offset;
        size = reference_cut c (pending r a);
        payload = take (reference_cut c (pending r a)) (pending r a);
      })
      × Advanced (reference_cut c (pending r a)) a b
  Delivers a end_of_stream b = (pending r a ≡ []) × Unmoved r c.max_size a b
  Delivers a io_error b = Unmoved r c.max_size a b × SourceFails r
  Delivers a panicked b = ⊥

  module _ (w : IsWellFormed c) where
    -- A chunk of the buffer's first `n` bytes, where `cut` cuts the pending bytes there.
    drain-Delivers :
        (a st : ChunkStream r) (n : ℕ)
        → Unmoved r c.max_size a st
        → n ≤ length st.buffer
        → 0 < n
        → reference_cut c (pending r a) ≡ n
        → Delivers a (drain r n st).0 (drain r n st).1
    unfolding drain
    drain-Delivers a st n u le pos e =
        let later = r.content st.source in
        let payload' : take n st.buffer ≡ take (reference_cut c (pending r a)) (pending r a) =
          sym (take-append n st.buffer later le)
          ∙ ap (take n) u.same_pending
          ∙ ap (λ k. take k (pending r a)) (sym e) in
        let rest' : drop n st.buffer ++ later ≡ drop (reference_cut c (pending r a)) (pending r a) =
          sym (drop-append n st.buffer later le)
          ∙ ap (drop n) u.same_pending
          ∙ ap (λ k. drop k (pending r a)) (sym e) in
        (
          λ none_left.
              omega (arith, ap length (u.same_pending ∙ none_left), length-append st.buffer later),
          λ i. record { offset = u.same_offset i; size = sym e i; payload = payload' i },
          record {
            rest = rest';
            counted = omega (arith, u.same_offset, e);
            bounded = omega (arith, length-drop n st.buffer, u.bounded);
            calm = u.calm;
          },
        )

    cut_range :
        (bytes : List ℕ)
        → c.min_size ≤ length bytes
        → (0 < reference_cut c bytes) × (reference_cut c bytes ≤ length bytes)
    cut_range bytes h =
        let (short, long) = reference_cut-InBounds c bytes w in
        elim (le-cases (length bytes) c.min_size) [
          | inl le ↦ (omega (arith, short le, w.min_bound), omega (arith, short le))
          | inr lt ↦ let (lower, upper, _) = long lt in (omega (arith, lower, w.min_bound), upper)
        ]

    -- A buffer that is not short is cut where the pending bytes are.
    cut_off-Delivers :
        (a st : ChunkStream r) (eof : Bool)
        → Unmoved r c.max_size a st
        → c.min_size ≤ length st.buffer
        → reference_cut c (pending r a) ≡ reference_cut c st.buffer
        → let out = cut_off r (cut c (take (min (length st.buffer) c.max_size) st.buffer)) eof st in
          Delivers a out.0 out.1
    cut_off-Delivers a st eof u long same =
        let all' =
          take_of_length-le (min (length st.buffer) c.max_size) st.buffer
            (omega (arith, u.bounded)) in
        let (pos, le) = cut_range st.buffer long in
        let found : ltb 0 (reference_cut c st.buffer) ≡ true = ground (arith, pos) in
        rw (all', cut-reference_cut c st.buffer w)
          (unfold cut_off in
            rw found (drain-Delivers a st (reference_cut c st.buffer) u le pos same))

    is_empty-cases :
        (xs : List ℕ)
        → ((xs ≡ []) × (is_empty xs ≡ true)) ⊎ ((0 < length xs) × (is_empty xs ≡ false))
    is_empty-cases [] = inl (refl, refl)
    is_empty-cases (x ∷ xs) = inr (omega arith, refl)

    -- The end of the input is reached: the buffer is all that is pending.
    emit_at_end :
        (a st : ChunkStream r)
        → Unmoved r c.max_size a st
        → st.buffer ≡ pending r a
        → Delivers a (emit r c true st).0 (emit r c true st).1
    unfolding emit
    emit_at_end a st u whole = elim (is_empty-cases st.buffer) [
      | inl (none_left, e) ↦ rw e (sym whole ∙ none_left, u)
      | inr (some_left, e) ↦ rw e (elim (Bool-cases (leb c.min_size (length st.buffer))) [
        | inl long ↦
            rw long (cut_off-Delivers a st true u (ground arith) (ap (reference_cut c) (sym whole)))
        | inr short ↦
            let (tiny, _) = reference_cut-InBounds c st.buffer w in
            rw short (
              drain-Delivers a st (length st.buffer) u (omega arith) some_left
                (ap (reference_cut c) (sym whole) ∙ tiny (ground arith)))
      ])
    ]

    emit-Delivers :
        (a st : ChunkStream r) (eof : Bool)
        → FillSpec r c.max_size a (filled eof st)
        → Delivers a (emit r c eof st).0 (emit r c eof st).1
    emit-Delivers a st true (u, ended) =
        emit_at_end a st u
          (sym (append-nil st.buffer) ∙ ap (λ t. st.buffer ++ t) (sym ended) ∙ u.same_pending)
    emit-Delivers a st false (u, full) =
        let long : leb c.min_size (length st.buffer) ≡ true =
          ground (arith, full, w.min_normal, w.normal_max) in
        unfold emit in
        rw long (
          cut_off-Delivers a st false u (ground arith) (
            ap (reference_cut c) (sym u.same_pending)
            ∙ reference_cut-append c w st.buffer full (r.content st.source)))

    next_of-Delivers :
        (a : ChunkStream r) (f : Fill r)
        → FillSpec r c.max_size a f
        → Delivers a (next_of r c f).0 (next_of r c f).1
    unfolding next_of
    next_of-Delivers a (filled true st) h = emit-Delivers a st true h
    next_of-Delivers a (filled false st) h = emit-Delivers a st false h
    next_of-Delivers a (broken st) h = h
    next_of-Delivers a (stuck st) h = h

    -- With a chunker as `Chunker::new` builds it, a buffer within `max_size` and fuel for the
    -- missing bytes and the interruptions to come, `next` does not panic. It ends exactly when
    -- nothing is pending; an error comes only from a source that fails, and loses no byte; otherwise it delivers a chunk at the
    -- current offset, which is the pending bytes up to where `cut` cuts them, and goes on behind it.
    pub next-Delivers :
        (fuel : ℕ) (st : ChunkStream r)
        → length st.buffer ≤ c.max_size
        → r.patience st.source + (c.max_size - length st.buffer) < fuel
        → Delivers st (next r fuel c st).0 (next r fuel c st).1
    next-Delivers fuel st bounded enough =
        unfold next in next_of-Delivers st _ (fill-FillSpec r fuel c.max_size st bounded enough)
