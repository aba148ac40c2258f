-- ===== src/Vectors/Faiss/Coherent.antt =====
-- The ids of a collection of backends/vector/faiss.py, and the vectors of its index.
use mathlib.Core.List.{Memᴰ}
use cache_seek.Prelude.{
  sym, ◌∙◌, length, if◌then◌else◌, ◌≡◌, ◌≢◌, refl, ℕ, ◌≤◌, ◌<◌, false, Option, none, some, List, [],
  ◌∷◌, Text, bytes_eq, beq_refl, arith, inl, inr, nat_eq, nat_eq_iff, Option-cases,
}
use cache_seek.Dict
use cache_seek.Dict.{Dict, get-put, get-pop, IsDict, put-IsDict, pop-IsDict}
use cache_seek.Vectors.Faiss.Library.{FaissLib, FaissLaws, IndexFamily, elem}
use cache_seek.Vectors.Faiss.{CollectionMeta, empty_meta, add_id, forget}
use cache_seek.Vectors.Faiss.Operations.{claim_id, remove_some}

module _ {I E : Type 0} (lib : FaissLib I E) (laws : FaissLaws lib) (dim : ℕ) where
  -- No two points share an int id, an id that is in use is below the next one, every point of an index
  -- of the dimension `dim` has a vector, and no vector has an id that is still to be given.
  pub record IsCoherent (index : I) (m : CollectionMeta) : Type 0 where
    pub once : IsDict m.id_map
    pub unique :
        (p q : Text) (i : ℕ) → Dict.get m.id_map p ≡ some i → Dict.get m.id_map q ≡ some i → p ≡ q
    pub below : (p : Text) (i : ℕ) → Dict.get m.id_map p ≡ some i → i < m.next_id
    pub present :
        (p : Text) (i : ℕ)
        → Dict.get m.id_map p ≡ some i
        → lib.dimension index ≡ dim
        → laws.vector_of index i ≢ none
    pub unused : (i : ℕ) → m.next_id ≤ i → laws.vector_of index i ≡ none

  pub empty-IsCoherent : (f : IndexFamily) (d : ℕ) → IsCoherent (lib.new_index f d) empty_meta
  unfolding Dict.get
  empty-IsCoherent f d = record {
    once = tt;
    unique = λ p q i h k. ground (arith, h);
    below = λ p i h. ground (arith, h);
    present = λ p i h dims. ground (arith, h);
    unused = λ i h. laws.of_new f d i;
  }

  module _ (index : I) (m : CollectionMeta) (coherent : IsCoherent index m) (p : Text)
      (vec : List E) where
    -- What an upsert adds to.
    abbrev claimed : ℕ × (I × CollectionMeta)
    claimed = claim_id lib (Dict.get m.id_map p) index m p

    abbrev added : I
    added = lib.add_with_ids claimed.1.0 vec claimed.0

    -- The id that an upsert takes is that of the point afterwards, has no vector before the add, and
    -- is below the next one.
    pub claim_id-Free :
        (Dict.get claimed.1.1.id_map p ≡ some claimed.0)
        × (laws.vector_of claimed.1.0 claimed.0 ≡ none)
    unfolding claim_id
    claim_id-Free = elim (Option-cases (Dict.get m.id_map p)) [
      | inl e ↦ rw e (
        ground (arith, get-put m.id_map p p m.next_id, beq_refl p),
        coherent.unused m.next_id (omega arith),
      )
      | inr (i, e) ↦ rw e (e, ground (arith, laws.of_remove index (i ∷ []) i, nat_eq_iff i i))
    ]

    pub dimension-claim_id : lib.dimension claimed.1.0 ≡ lib.dimension index
    unfolding claim_id
    dimension-claim_id = elim (Option-cases (Dict.get m.id_map p)) [
      | inl e ↦ rw e refl
      | inr (i, e) ↦ rw e (laws.dimension_remove index (i ∷ []))
    ]

    dimension-added : lib.dimension added ≡ lib.dimension index
    dimension-added = laws.dimension_add claimed.1.0 vec claimed.0 ∙ dimension-claim_id

    pub added-IsCoherent : length vec ≡ lib.dimension index → IsCoherent added claimed.1.1
    unfolding claim_id
    added-IsCoherent fits = elim (Option-cases (Dict.get m.id_map p)) [
      | inr (i, e) ↦
          let shrunk = lib.remove_ids index (i ∷ []) in
          let shape = laws.dimension_remove index (i ∷ []) in
          let law = λ (j : ℕ). laws.of_add shrunk vec i j (fits ∙ sym shape) in
          let free : laws.vector_of shrunk i ≡ none =
            ground (arith, laws.of_remove index (i ∷ []) i, nat_eq_iff i i) in
          rw e (record {
            once = coherent.once;
            unique = coherent.unique;
            below = coherent.below;
            present = λ q j h dims k. ground (
              arith,
              law j free,
              laws.of_remove index (i ∷ []) j,
              coherent.present q j h (sym dimension-added ∙ dims),
              k,
              nat_eq_iff i j,
              nat_eq_iff j i,
            );
            unused = λ j h. ground (
              arith,
              law j free,
              laws.of_remove index (i ∷ []) j,
              coherent.unused j h,
              coherent.below p i e,
              h,
              nat_eq_iff i j,
            );
          })
      | inl e ↦
          let law = λ (j : ℕ). laws.of_add index vec m.next_id j fits in
          let free = coherent.unused m.next_id (omega arith) in
          let at = λ (q : Text). get-put m.id_map p q m.next_id in
          rw e (record {
            once = put-IsDict m.id_map p m.next_id coherent.once;
            unique = λ q r i h k. ground (
              arith,
              at q,
              at r,
              h,
              k,
              coherent.unique q r i,
              coherent.below q i,
              coherent.below r i,
              bytes_eq.same_iff p q,
              bytes_eq.same_iff p r,
            );
            below = λ q i h. ground (arith, at q, h, coherent.below q i);
            present = λ q i h dims k. ground (
              arith,
              at q,
              h,
              k,
              law i free,
              λ (r : Dict.get m.id_map q ≡ some i).
                  coherent.present q i r (sym dimension-added ∙ dims),
              nat_eq_iff m.next_id i,
            );
            unused =
                λ i h. ground (arith, law i free, h, coherent.unused i, nat_eq_iff m.next_id i);
          })
    ]

    -- What is left where the add raises.
    pub claimed-IsCoherent : lib.dimension index ≢ dim → IsCoherent claimed.1.0 claimed.1.1
    unfolding claim_id
    claimed-IsCoherent other = elim (Option-cases (Dict.get m.id_map p)) [
      | inr (i, e) ↦ rw e (record {
        once = coherent.once;
        unique = coherent.unique;
        below = coherent.below;
        present = λ q j h dims. absurd (other (sym (laws.dimension_remove index (i ∷ [])) ∙ dims));
        unused = λ j h. ground (arith, laws.of_remove index (i ∷ []) j, coherent.unused j h);
      })
      | inl e ↦
          let at = λ (q : Text). get-put m.id_map p q m.next_id in
          rw e (record {
            once = put-IsDict m.id_map p m.next_id coherent.once;
            unique = λ q r i h k. ground (
              arith,
              at q,
              at r,
              h,
              k,
              coherent.unique q r i,
              coherent.below q i,
              coherent.below r i,
              bytes_eq.same_iff p q,
              bytes_eq.same_iff p r,
            );
            below = λ q i h. ground (arith, at q, h, coherent.below q i);
            present = λ q i h dims. absurd (other dims);
            unused = λ i h. coherent.unused i (omega (arith, h));
          })
    ]

  -- What is left of the ids is old.
  forget-old :
      (m : CollectionMeta) (pids : List Text) (q : Text) (i : ℕ)
      → Dict.get (forget m pids).0.id_map q ≡ some i
      → Dict.get m.id_map q ≡ some i
  unfolding forget
  forget-old m [] q i h = h
  forget-old m (pid ∷ pids) q i h =
      let m1 : CollectionMeta = record m {
        id_map = Dict.pop m.id_map pid;
        payload = Dict.pop m.payload pid;
      } in
      ground (arith, forget-old m1 pids q i h, get-pop m.id_map pid q)

  forget-IsDict :
      (m : CollectionMeta) (pids : List Text) → IsDict m.id_map → IsDict (forget m pids).0.id_map
  unfolding forget
  forget-IsDict m [] h = h
  forget-IsDict m (pid ∷ pids) h =
      forget-IsDict (record m { id_map = Dict.pop m.id_map pid; payload = Dict.pop m.payload pid })
        pids (pop-IsDict m.id_map pid h)

  pub forget-gone :
      (m : CollectionMeta) (pids : List Text) (q : Text)
      → Memᴰ q pids
      → Dict.get (forget m pids).0.id_map q ≡ none
  unfolding forget
  forget-gone m [] q at = elim at [ ]
  forget-gone m (pid ∷ pids) q at =
      let m1 : CollectionMeta = record m {
        id_map = Dict.pop m.id_map pid;
        payload = Dict.pop m.payload pid;
      } in
      elim at [
        | Memᴰ.head e ↦ elim (Option-cases (Dict.get (forget m1 pids).0.id_map q)) [
          | inl absent ↦ absent
          | inr (i, found) ↦ ground (
            arith,
            e,
            forget-old m1 pids q i found,
            get-pop m.id_map pid q,
            bytes_eq.same_iff pid q,
          )
        ]
        | Memᴰ.tail rest ↦ forget-gone m1 pids q rest
      ]

  forget-next_id : (m : CollectionMeta) (pids : List Text) → (forget m pids).0.next_id ≡ m.next_id
  unfolding forget
  forget-next_id m [] = refl
  forget-next_id m (pid ∷ pids) =
      forget-next_id (record m { id_map = Dict.pop m.id_map pid; payload = Dict.pop m.payload pid })
        pids

  abbrev Unique : CollectionMeta → Type 0
  Unique m =
      (p q : Text) (i : ℕ) → Dict.get m.id_map p ≡ some i → Dict.get m.id_map q ≡ some i → p ≡ q

  elem-add_id :
      (i : ℕ) (o : Option ℕ) (ids : List ℕ)
      → elem i ids ≡ false
      → ((j : ℕ) → o ≡ some j → nat_eq i j ≡ false)
      → elem i (add_id o ids) ≡ false
  unfolding add_id
  elem-add_id i none ids h k = h
  elem-add_id i (some j) ids h k = ground (arith, h, k j refl)

  -- The id of a point that is left is not removed from the index.
  forget-kept :
      (m : CollectionMeta) (pids : List Text) (q : Text) (i : ℕ)
      → Unique m
      → Dict.get (forget m pids).0.id_map q ≡ some i
      → elem i (forget m pids).1 ≡ false
  unfolding forget
  forget-kept m [] q i unique h = refl
  forget-kept m (pid ∷ pids) q i unique h =
      let m1 : CollectionMeta = record m {
        id_map = Dict.pop m.id_map pid;
        payload = Dict.pop m.payload pid;
      } in
      let law = λ (r : Text). get-pop m.id_map pid r in
      let unique1 : Unique m1 =
        λ r s j a b. unique r s j (ground (arith, a, law r)) (ground (arith, b, law s)) in
      let ih = forget-kept m1 pids q i unique1 h in
      let left = forget-old m1 pids q i h in
      elem-add_id i (Dict.get m.id_map pid) (forget m1 pids).1 ih (λ j e. ground (
        arith,
        left,
        law q,
        e,
        unique pid q j e,
        nat_eq_iff i j,
        bytes_eq.same_iff pid q,
        beq_refl pid,
      ))

  remove_some-law :
      (index : I) (ids : List ℕ) (j : ℕ)
      → laws.vector_of (remove_some lib index ids) j
        ≡ (if elem j ids then none else laws.vector_of index j)
  unfolding remove_some
  remove_some-law index [] j = refl
  remove_some-law index (i ∷ is) j = laws.of_remove index (i ∷ is) j

  dimension-remove_some :
      (index : I) (ids : List ℕ) → lib.dimension (remove_some lib index ids) ≡ lib.dimension index
  unfolding remove_some
  dimension-remove_some index [] = refl
  dimension-remove_some index (i ∷ is) = laws.dimension_remove index (i ∷ is)

  pub forget-IsCoherent :
      (index : I) (m : CollectionMeta) (pids : List Text)
      → IsCoherent index m
      → IsCoherent (remove_some lib index (forget m pids).1) (forget m pids).0
  forget-IsCoherent index m pids coherent =
      let old = forget-old m pids in
      let next = forget-next_id m pids in
      record {
        once = forget-IsDict m pids coherent.once;
        unique = λ p q i h k. coherent.unique p q i (old p i h) (old q i k);
        below = λ p i h. rw next (coherent.below p i (old p i h));
        present = λ p i h dims k. ground (
          arith,
          remove_some-law index (forget m pids).1 i,
          forget-kept m pids p i coherent.unique h,
          coherent.present p i (old p i h)
              (sym (dimension-remove_some index (forget m pids).1) ∙ dims),
          k,
        );
        unused = λ i h.
            ground (arith, remove_some-law index (forget m pids).1 i, next, h, coherent.unused i);
      }
