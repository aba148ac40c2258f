-- ===== src/Stores/LocalFile/Refines.antt =====
-- stores/local_file.py against a dict of byte strings, and a store that is opened again.
use cache_seek.Prelude.{
  ◌≡◌, ◌≢◌, ℕ, refl, sym, ◌∙◌, none, some, [], ◌∷◌, ◌++◌, Bytes, Text, bytes_eq, ◌==◌, codes, arith,
  if◌then◌else◌, inl, inr, beq_refl, ◌⊎◌, Option-cases, Bool-cases,
}
use cache_seek.Dict
use cache_seek.Dict.{Dict, get-put, get-pop, pop-absent}
use cache_seek.Exact.Ingest.{hex}
use cache_seek.Keys.Chain.{NoCollision}
use cache_seek.Stores.LocalFile.Names.{hash_key-injective}
use cache_seek.Stores.LocalFile.{
  LocalFileKvStore, utf8, indexed, save_index, hash_key, put, get, remove, reopen,
}

module _ (digest : Bytes → Bytes) where
  -- Every key of the index stands at its own file name, and the index file is up to date.
  pub record IsIndexed (s : LocalFileKvStore) : Type 0 where
    pub named : (key name : Text) → Dict.get s.index key ≡ some name → name ≡ hash_key digest key
    pub saved : s.saved_index ≡ s.index

  append-cons : (xs ys : Text) (c : ℕ) → xs ++ c ∷ ys ≢ []
  append-cons [] ys c = ground arith
  append-cons (x ∷ xs) ys c = ground arith

  hash_key-nonempty : (key : Text) → hash_key digest key ≢ []
  unfolding hash_key
  hash_key-nonempty key = append-cons (hex (digest (utf8 key))) (codes "bin") 46

  indexed_lem :
      (s : LocalFileKvStore) (key : Text)
      → IsIndexed s
      → ((indexed s key ≡ none) × (Dict.get s.index key ≡ none))
        ⊎ ((indexed s key ≡ some (hash_key digest key))
            × (Dict.get s.index key ≡ some (hash_key digest key)))
  unfolding indexed
  indexed_lem s key w = elim (Option-cases (Dict.get s.index key)) [
    | inl absent ↦ inl (ground (arith, absent))
    | inr (name, known) ↦ inr (ground (arith, known, w.named key name known, hash_key-nonempty key))
  ]

  same_file :
      NoCollision digest
      → (key other : Text) → (hash_key digest key == hash_key digest other) ≡ (key == other)
  same_file nc key other = elim (Bool-cases (key == other)) [
    | inl same ↦ ground (arith, bytes_eq.same_iff key other, beq_refl (hash_key digest key))
    | inr apart ↦ ground (
      arith,
      bytes_eq.same_iff key other,
      hash_key-injective digest key other nc,
      bytes_eq.same_iff (hash_key digest key) (hash_key digest other),
    )
  ]

  -- If SHA-256 does not collide and the index names each key's own file, a read after `put` gives
  -- the new value for the key, and for every other key what it gave before.
  pub get-put_file :
      (s : LocalFileKvStore) (key other : Text) (value : Bytes)
      → NoCollision digest
      → IsIndexed s
      → get (put digest s key value) other ≡ (if key == other then some value else get s other)
  unfolding get put indexed save_index
  get-put_file s key other value nc w =
      let f = get-put s.files (hash_key digest key) (hash_key digest other) value in
      let i = get-put s.index key other (hash_key digest key) in
      let sf = same_file nc key other in
      elim (indexed_lem s key w) [
        | inl (ik, gk) ↦ ground (
          arith,
          ik,
          gk,
          f,
          i,
          sf,
          same_file,
          indexed_lem s other w,
          hash_key-nonempty key,
          bytes_eq.same_iff key other,
        )
        | inr (ik, gk) ↦
            ground (arith, ik, gk, f, sf, indexed_lem s other w, bytes_eq.same_iff key other)
      ]

  -- If SHA-256 does not collide and the index names each key's own file, a read after `remove`,
  -- also of a key that was not there, finds nothing under the key, and under every other key what
  -- it found before.
  pub get-remove_file :
      (s : LocalFileKvStore) (key other : Text)
      → NoCollision digest
      → IsIndexed s
      → get (remove s key) other ≡ (if key == other then none else get s other)
  unfolding get remove indexed save_index
  get-remove_file s key other nc w =
      let f = get-pop s.files (hash_key digest key) (hash_key digest other) in
      let i = get-pop s.index key other in
      let sf = same_file nc key other in
      elim (indexed_lem s key w) [
        | inl (ik, gk) ↦
            ground (arith, ik, gk, i, indexed_lem s other w, bytes_eq.same_iff key other)
        | inr (ik, gk) ↦
            ground (arith, ik, gk, f, i, sf, indexed_lem s other w, bytes_eq.same_iff key other)
      ]

  named_put :
      (s : LocalFileKvStore) (key other name : Text)
      → IsIndexed s
      → Dict.get (Dict.put s.index key (hash_key digest key)) other ≡ some name
      → name ≡ hash_key digest other
  named_put s key other name w h = ground (
    arith,
    h,
    get-put s.index key other (hash_key digest key),
    bytes_eq.same_iff key other,
    w.named other name,
  )

  -- Both write operations keep every key at its own file and the index file up to date.
  pub put-IsIndexed :
      (s : LocalFileKvStore) (key : Text) (value : Bytes)
      → IsIndexed s
      → IsIndexed (put digest s key value)
  unfolding put save_index
  put-IsIndexed s key value w = elim (indexed_lem s key w) [
    | inl (ik, gk) ↦
        rw (ik, put) (record { named = λ other name. named_put s key other name w; saved = refl })
    | inr (ik, gk) ↦ rw (ik, put) (record { named = w.named; saved = refl })
  ]

  named_pop :
      (s : LocalFileKvStore) (key other name : Text)
      → IsIndexed s
      → Dict.get (Dict.pop s.index key) other ≡ some name
      → name ≡ hash_key digest other
  named_pop s key other name w h = ground (arith, h, get-pop s.index key other, w.named other name)

  pub remove-IsIndexed :
      (s : LocalFileKvStore) (key : Text) → IsIndexed s → IsIndexed (remove s key)
  unfolding remove save_index
  remove-IsIndexed s key w = elim (indexed_lem s key w) [
    | inl (ik, gk) ↦
        rw (ik, remove)
          (record {
            named = λ other name. named_pop s key other name w;
            saved = w.saved ∙ sym (pop-absent s.index key gk);
          })
    | inr (ik, gk) ↦
        rw (ik, remove)
          (record { named = λ other name. named_pop s key other name w; saved = refl })
  ]

  -- If the index file is up to date, a store that is opened on the same directory reads the same
  -- value for every key.
  pub get-reopen :
      (s : LocalFileKvStore) (key : Text) → IsIndexed s → get (reopen s) key ≡ get s key
  unfolding get reopen indexed
  get-reopen s key w = rw w.saved
