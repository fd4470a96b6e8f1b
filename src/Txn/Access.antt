-- ===== src/Txn/Access.antt =====
-- The laws of `Txn::Read`, `Txn::Write` and `Txn::CheckReadWriteSets`.
use cmcs624_fall.Common.{
  ℕ, ◌||◌, true, false, some, List, [], ◌∷◌, ◌≡◌, ◌≢◌, ◌↔◌, inl, inr, refl, arith, ok, died,
  Outcome-cases, In,
}
use cmcs624_fall.Common.Map
use cmcs624_fall.Common.KeySet
use cmcs624_fall.Txn.{
  Txn, incomplete, read_result, read, write, check_overlap, check_read_write_sets,
}

pub read-write :
    (t : Txn) (key j v w : ℕ)
    → t.status ≡ incomplete
    → KeySet.contains key t.writeset ≡ true
    → (t' : Txn) × (write t key v ≡ ok t')
      × (read t' key w ≡ ok (v, true))
      × (j ≢ key → read t' j w ≡ read t j w)
      × (Map.lookup key t'.writes ≡ some v)
      × (j ≢ key → Map.lookup j t'.writes ≡ Map.lookup j t.writes)
      × (KeySet.contains j t.writeset ≡ false → write t j v ≡ died)
      × ((KeySet.contains j t.readset || KeySet.contains j t.writeset) ≡ false → read t j w ≡ died)
      × ((KeySet.contains j t.readset || KeySet.contains j t.writeset) ≡ true
          → read t j w ≡ ok (read_result (Map.lookup j t.reads) w))
unfolding read write
read-write t key j v w inc has = (
  record t { writes = Map.insert key v t.writes; reads = Map.insert key v t.reads },
  ground arith,
  ground (arith, Map.lookup-insert key key v t.reads),
  λ ne. ground (arith, Map.lookup-insert j key v t.reads),
  ground (arith, Map.lookup-insert key key v t.writes),
  λ ne. ground (arith, Map.lookup-insert j key v t.writes),
  λ out. ground arith,
  λ out. ground arith,
  λ declared. ground arith,
)

abbrev pub Disjoint : List ℕ → List ℕ → Type 0
Disjoint readset writeset = (k : ℕ) → In k writeset → KeySet.contains k readset ≡ false

check_overlap_sound : (r w : List ℕ) → check_overlap r w ≡ ok tt → Disjoint r w
unfolding check_overlap
check_overlap_sound r [] h k m = absurd m
check_overlap_sound r (x ∷ w) h k (inl e) = ground arith
check_overlap_sound r (x ∷ w) h k (inr m) = check_overlap_sound r w (ground arith) k m

check_overlap_complete : (r w : List ℕ) → Disjoint r w → check_overlap r w ≡ ok tt
unfolding check_overlap
check_overlap_complete r [] h = refl
check_overlap_complete r (x ∷ w) h =
    ground (arith, h x (inl refl), check_overlap_complete r w (λ k m. h k (inr m)))

-- `CheckReadWriteSets` returns exactly when no key of the write set is in the read set; in every
-- other case it stops the program.
pub check_read_write_sets_lem :
    (t : Txn)
    → ((check_read_write_sets t ≡ ok tt) ↔ Disjoint t.readset t.writeset)
      × ((check_read_write_sets t ≡ died) ↔ (¬ Disjoint t.readset t.writeset))
unfolding check_read_write_sets
check_read_write_sets_lem t = (
  (check_overlap_sound t.readset t.writeset, check_overlap_complete t.readset t.writeset),
  (
    λ e d. cc (check_overlap_complete t.readset t.writeset d),
    λ n. elim (Outcome-cases (check_overlap t.readset t.writeset)) [
      | inl e ↦ e
      | inr (u, e) ↦ absurd (n (check_overlap_sound t.readset t.writeset e))
    ],
  ),
)
