-- ===== src/Chunker/Stream/Filling.antt =====
-- The read loop of `next`: it loses no byte, and it stops with a full buffer or at the end of input.
use mapache.Prelude.{
  ℕ, zero, suc, ◌+◌, ◌-◌, ◌≤◌, ◌<◌, ◌≡◌, refl, sym, ◌∙◌, ap, true, false, List, [], ◌∷◌, ◌++◌, ltb,
  length, length-append, append_assoc, Bool-cases, inl, inr, arith,
}
use mapache.Chunker.Reader.{Reader, ReadResult, got, interrupted, failed}
use mapache.Chunker.Stream.{ChunkStream, Fill, filled, broken, stuck, absorb, fill}

module _ (r : Reader) where
  -- The bytes that the stream has still to deliver.
  abbrev pub pending : ChunkStream r → List ℕ
  pending st = st.buffer ++ r.content st.source

  -- Nothing has been delivered between two states.
  pub record Unmoved (max_size : ℕ) (a b : ChunkStream r) : Type 0 where
    pub same_pending : pending b ≡ pending a
    pub same_offset : b.global_offset ≡ a.global_offset
    pub bounded : length b.buffer ≤ max_size
    pub calm : r.patience b.source ≤ r.patience a.source

  -- Some call of `read` fails.
  abbrev pub SourceFails : Type 0
  SourceFails = (s : r.State) × (n : ℕ) × ((r.read s n).0 ≡ failed)

  abbrev pub FillSpec : ℕ → ChunkStream r → Fill r → Type 0
  FillSpec max_size st (filled true st') = Unmoved max_size st st' × (r.content st'.source ≡ [])
  FillSpec max_size st (filled false st') = Unmoved max_size st st' × (max_size ≤ length st'.buffer)
  FillSpec max_size st (broken st') = Unmoved max_size st st' × SourceFails
  FillSpec max_size st (stuck st') = ⊥

  Unmoved-trans :
      (max_size : ℕ) (a b c : ChunkStream r)
      → Unmoved max_size a b
      → Unmoved max_size b c
      → Unmoved max_size a c
  Unmoved-trans max_size a b c p q = record {
    same_pending = q.same_pending ∙ p.same_pending;
    same_offset = q.same_offset ∙ p.same_offset;
    bounded = q.bounded;
    calm = omega (arith, p.calm, q.calm);
  }

  FillSpec-later :
      (max_size : ℕ) (a b : ChunkStream r) (f : Fill r)
      → Unmoved max_size a b
      → FillSpec max_size b f
      → FillSpec max_size a f
  FillSpec-later max_size a b (filled true st) p h = (Unmoved-trans max_size a b st p h.0, h.1)
  FillSpec-later max_size a b (filled false st) p h = (Unmoved-trans max_size a b st p h.0, h.1)
  FillSpec-later max_size a b (broken st) p h = (Unmoved-trans max_size a b st p h.0, h.1)
  FillSpec-later max_size a b (stuck st) p h = h

  module _ (max_size : ℕ) (st : ChunkStream r) (room : length st.buffer < max_size)
      (continue : ChunkStream r → Fill r)
      (later : (st' : ChunkStream r)
        → length st'.buffer ≤ max_size
        → r.patience st'.source + (max_size - length st'.buffer)
          < r.patience st.source + (max_size - length st.buffer)
        → FillSpec max_size st' (continue st')) where
    absorb-FillSpec :
        (result : ReadResult)
        → (r.read st.source (max_size - length st.buffer)).0 ≡ result
        → FillSpec max_size st
            (absorb r result (r.read st.source (max_size - length st.buffer)).1 st continue)
    unfolding absorb
    absorb-FillSpec (got []) e =
        let (whole, _, calm) = r.read_got st.source (max_size - length st.buffer) [] e in
        let nothing = r.read_end st.source (max_size - length st.buffer) (omega arith) e in
        (
          record {
            same_pending = ap (λ t. st.buffer ++ t) (sym whole);
            same_offset = refl;
            bounded = omega arith;
            calm = calm;
          },
          sym whole ∙ nothing,
        )
    absorb-FillSpec (got (b ∷ bs)) e =
        let (whole, few, calm) = r.read_got st.source (max_size - length st.buffer) (b ∷ bs) e in
        let longer = length-append st.buffer (b ∷ bs) in
        FillSpec-later max_size st _ _
          (record {
            same_pending = append_assoc st.buffer (b ∷ bs) _ ∙ ap (λ t. st.buffer ++ t) (sym whole);
            same_offset = refl;
            bounded = omega (arith, longer, few);
            calm = calm;
          })
          (later _ (omega (arith, longer, few)) (omega (arith, longer, few, calm)))
    absorb-FillSpec interrupted e =
        let (same, calm) = r.read_interrupted st.source (max_size - length st.buffer) e in
        FillSpec-later max_size st _ _
          (record {
            same_pending = ap (λ t. st.buffer ++ t) same;
            same_offset = refl;
            bounded = omega arith;
            calm = omega (arith, calm);
          })
          (later _ (omega arith) (omega (arith, calm)))
    absorb-FillSpec failed e =
        let (same, calm) = r.read_failed st.source (max_size - length st.buffer) e in
        (
          record {
            same_pending = ap (λ t. st.buffer ++ t) same;
            same_offset = refl;
            bounded = omega arith;
            calm = calm;
          },
          (st.source, max_size - length st.buffer, e),
        )

  -- One more round than the bytes that are missing and the interruptions that may come is enough.
  pub fill-FillSpec :
      (fuel max_size : ℕ) (st : ChunkStream r)
      → length st.buffer ≤ max_size
      → r.patience st.source + (max_size - length st.buffer) < fuel
      → FillSpec max_size st (fill r fuel max_size st)
  unfolding fill
  fill-FillSpec zero max_size st b enough = absurd (omega arith)
  fill-FillSpec (suc fuel) max_size st b enough =
      elim (Bool-cases (ltb (length st.buffer) max_size)) [
        | inl room ↦
            let read =
              absorb-FillSpec max_size st (ground arith) (fill r fuel max_size)
                (λ st' b' less. fill-FillSpec fuel max_size st' b' (omega arith)) _ refl in
            rw room read
        | inr whole ↦ rw whole (
          record { same_pending = refl; same_offset = refl; bounded = b; calm = omega arith },
          ground arith,
        )
      ]
