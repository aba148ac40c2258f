-- ===== src/Exact/Manager/Materialize.antt =====
-- The reference counts in `materialize` of reuse/exact_prefix/manager.py.
use cache_seek.Prelude.{
  ℕ, ◌+◌, ◌-◌, ◌≡◌, refl, ◌∙◌, false, not, ◌&&◌, ◌||◌, List, [], ◌∷◌, length, arith, inl, inr,
  if◌then◌else◌, nat_eq, Bool-cases,
}
use cache_seek.Exact.Types.{Heap, NodeRef, update}
use cache_seek.Exact.Config.{WorldKvConfig}
use cache_seek.Exact.Manager.{
  RollingWindow, set_resume_depth, returned, window_path, any_missing_kv, acquire, release, touch,
  last_n_layers, seed_layers, materialize,
}
use cache_seek.Stores.Tier.{KvTierStore}

-- How often a node stands on a path.
abbrev pub count : NodeRef → List NodeRef → ℕ
count m [] = 0
count m (n ∷ ns) = (if nat_eq n m then 1 else 0) + count m ns

abbrev touched : ℕ → NodeRef → List NodeRef → ℕ → ℕ
touched now m [] t = t
touched now m (n ∷ ns) t = touched now m ns (if nat_eq n m then now else t)

pub acquire_node :
    (ns : List NodeRef) (h : Heap) (m : NodeRef)
    → (acquire ns h).node m ≡ record (h.node m) { ref_count = (h.node m).ref_count + count m ns }
unfolding acquire
acquire_node [] h m = ground arith
acquire_node (n ∷ ns) h m = ground (
  arith,
  acquire_node ns
      (record h {
        node = update h.node n (record (h.node n) { ref_count = (h.node n).ref_count + 1 });
      })
      m,
)

release_node :
    (ns : List NodeRef) (h : Heap) (m : NodeRef)
    → (release ns h).node m ≡ record (h.node m) { ref_count = (h.node m).ref_count - count m ns }
unfolding release
release_node [] h m = ground arith
release_node (n ∷ ns) h m = ground (
  arith,
  release_node ns
      (record h {
        node = update h.node n (record (h.node n) { ref_count = (h.node n).ref_count - 1 });
      })
      m,
)

touch_node :
    (now : ℕ) (ns : List NodeRef) (h : Heap) (m : NodeRef)
    → (touch now ns h).node m
      ≡ record (h.node m) { last_access = touched now m ns (h.node m).last_access }
unfolding touch
touch_node now [] h m = ground arith
touch_node now (n ∷ ns) h m = ground (
  arith,
  touch_node now ns (record h { node = update h.node n (record (h.node n) { last_access = now }) })
      m,
)

-- Everything but the nodes is as before.
pub record SameRest (h h' : Heap) : Type 0 where
  pub next : h'.next ≡ h.next
  pub blob : h'.blob ≡ h.blob
  pub next_blob : h'.next_blob ≡ h.next_blob

pub acquire_rest : (ns : List NodeRef) (h : Heap) → SameRest h (acquire ns h)
unfolding acquire
acquire_rest [] h = record { next = refl; blob = refl; next_blob = refl }
acquire_rest (n ∷ ns) h =
    let r = acquire_rest ns (record h {
      node = update h.node n (record (h.node n) { ref_count = (h.node n).ref_count + 1 });
    }) in
    record { next = r.next; blob = r.blob; next_blob = r.next_blob }

release_rest : (ns : List NodeRef) (h : Heap) → SameRest h (release ns h)
unfolding release
release_rest [] h = record { next = refl; blob = refl; next_blob = refl }
release_rest (n ∷ ns) h =
    let r = release_rest ns (record h {
      node = update h.node n (record (h.node n) { ref_count = (h.node n).ref_count - 1 });
    }) in
    record { next = r.next; blob = r.blob; next_blob = r.next_blob }

touch_rest : (now : ℕ) (ns : List NodeRef) (h : Heap) → SameRest h (touch now ns h)
unfolding touch
touch_rest now [] h = record { next = refl; blob = refl; next_blob = refl }
touch_rest now (n ∷ ns) h =
    let r =
      touch_rest now ns
        (record h { node = update h.node n (record (h.node n) { last_access = now }) }) in
    record { next = r.next; blob = r.blob; next_blob = r.next_blob }

-- The heap changed in access times only.
pub record OnlyTouched (h h' : Heap) : Type 0 where
  pub node : (m : NodeRef) → h'.node m ≡ record (h.node m) { last_access = (h'.node m).last_access }
  pub next : h'.next ≡ h.next
  pub blob : h'.blob ≡ h.blob
  pub next_blob : h'.next_blob ≡ h.next_blob

pub OnlyTouched-refl : (h : Heap) → OnlyTouched h h
OnlyTouched-refl h = record { node = λ m. refl; next = refl; blob = refl; next_blob = refl }

release-acquire : (path : List NodeRef) (h : Heap) → OnlyTouched h (release path (acquire path h))
release-acquire path h =
    let a = acquire_rest path h in
    let r = release_rest path (acquire path h) in
    record {
      node = λ m. ground (arith, acquire_node path h m, release_node path (acquire path h) m);
      next = r.next ∙ a.next;
      blob = r.blob ∙ a.blob;
      next_blob = r.next_blob ∙ a.next_blob;
    }

release-touch-acquire :
    (now : ℕ) (path : List NodeRef) (h : Heap)
    → OnlyTouched h (release path (touch now path (acquire path h)))
release-touch-acquire now path h =
    let a = acquire_rest path h in
    let t = touch_rest now path (acquire path h) in
    let r = release_rest path (touch now path (acquire path h)) in
    record {
      node = λ m. ground (
        arith,
        acquire_node path h m,
        touch_node now path (acquire path h) m,
        release_node path (touch now path (acquire path h)) m,
      );
      next = r.next ∙ t.next ∙ a.next;
      blob = r.blob ∙ t.blob ∙ a.blob;
      next_blob = r.next_blob ∙ t.next_blob ∙ a.next_blob;
    }

module _ {S P L : Type 0} (store : KvTierStore S P L) (window : RollingWindow P)
    (cfg : WorldKvConfig) where
  -- On every way out, an exception of the store or the window included,
  -- `materialize` leaves the forest as it
  -- was but for access times: all reference counts are back.
  pub materialize-OnlyTouched :
      (s : S) (now : ℕ) (h : Heap) (n : NodeRef)
      → OnlyTouched h (materialize store window cfg s now h n).0
  unfolding materialize
  materialize-OnlyTouched s now h n =
      let path = window_path cfg h n in
      elim (Bool-cases (nat_eq (length path) 0 || any_missing_kv h path)) [
        | inl miss ↦ rw miss (OnlyTouched-refl h)
        | inr ready ↦
            let held = acquire path h in
            let depth = (h.node n).depth in
            let seeded =
              seed_layers store window s held path depth [] (last_n_layers held path) 0 in
            elim (Bool-cases (seeded.1 && not (window.raises seeded.0 (set_resume_depth depth)))) [
              | inl done ↦ rw (ready, done) (release-touch-acquire now path h)
              | inr broken ↦ rw (ready, broken) (release-acquire path h)
            ]
      ]

  -- A refusal makes no call of the window.
  pub materialize-false :
      (s : S) (now : ℕ) (h : Heap) (n : NodeRef)
      → (materialize store window cfg s now h n).2 ≡ returned false
      → (materialize store window cfg s now h n).1 ≡ []
  unfolding materialize
  materialize-false s now h n e = ground arith
