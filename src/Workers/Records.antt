-- ===== src/Workers/Records.antt =====
-- A step of worker `i` keeps what `Inv` says of the records.
use native.Mathlib.Decide.{ℕ_discrete}
use cmcs624_fall.Common.{
  ℕ, ◌+◌, ◌*◌, ◌%◌, ◌^◌, ◌<◌, ◌≡◌, ◌≢◌, sym, ap, ◌∙◌, subst, arith, true, ◌&&◌, [], ◌∷◌, ◌==◌,
  if◌then◌else◌, beq_refl, beq_of_ne, inl, inr, Bool-cases,
}
use cmcs624_fall.Common.Sums.{total, total-change}
use cmcs624_fall.Words.{Bytes, store64-IsBytes, store64-out}
use cmcs624_fall.Database.{field_size, nfields, update}
use cmcs624_fall.Request.{Request}
use cmcs624_fall.Request.Fields.{field, IsGap, field-store64, gap-apart}
use cmcs624_fall.Request.Order.{AllBytes}
use cmcs624_fall.Workers.{
  Stage, locking, writing, loaded, unlocking, finished, Memory, store_field, holds, System,
}
use cmcs624_fall.Workers.Changes.{Wf, FieldChange, adds, leaves}
use cmcs624_fall.Workers.Invariant.{Inv, amount}

-- A store to field `f` of record `k`, seen at any field and at any byte.
stored-field :
    (m : Memory) (r : Request) (k f v j g : ℕ)
    → field ((store_field m r k f v).records j) g
      ≡ (if j == k && g == f then (v + r.updates f) % 2 ^ 64 else field (m.records j) g)
stored-field m r k f v j g = elim (ℕ_discrete j k) [
  | yes e ↦
      rw (e, beq_refl k)
        (field-store64 (m.records k) f ((v + r.updates f) % 2 ^ 64) g (omega arith))
  | no ne ↦ rw (beq_of_ne j k ne)
]

stored-gap :
    (m : Memory) (r : Request) (k f v j o : ℕ)
    → f < nfields
    → IsGap o
    → (store_field m r k f v).records j o ≡ m.records j o
stored-gap m r k f v j o h g = elim (ℕ_discrete j k) [
  | yes e ↦ rw (e, beq_refl k) (store64-out (m.records k) (f * field_size) _ o (gap-apart f o h g))
  | no ne ↦ rw (beq_of_ne j k ne)
]

stored-AllBytes :
    (m : Memory) (r : Request) (k f v : ℕ)
    → AllBytes m.records
    → AllBytes (store_field m r k f v).records
stored-AllBytes m r k f v h j = elim (ℕ_discrete j k) [
  | yes e ↦ rw (e, beq_refl k) (store64-IsBytes (m.records k) (f * field_size) _ (h k))
  | no ne ↦ rw (beq_of_ne j k ne) (h j)
]

-- A worker that does not hold the record that is written keeps its stage well formed.
Wf-apart :
    (r : Request) (records records' : ℕ → Bytes) (q : Stage)
    → ((k : ℕ) → holds r q k ≡ true → records' k ≡ records k)
    → Wf r records q
    → Wf r records' q
Wf-apart r records records' (locking left) h w = w
Wf-apart r records records' (writing left i) h w = w
Wf-apart r records records' (loaded [] i v) h w = w
Wf-apart r records records' (loaded (k ∷ left) i v) h w =
    (w.0, w.1, w.2 ∙ ap (λ b. field b i) (sym (h k w.0.among.0)))
Wf-apart r records records' (unlocking left) h w = w
Wf-apart r records records' finished h w = w

module _ {n : ℕ} {requests : ℕ → Request} {base : ℕ → Bytes} {s : System}
    (inv : Inv n requests base s) (i : ℕ) (lt : i < n) (p' : Stage) where
  abbrev p : Stage
  p = s.stage i

  abbrev r : Request
  r = requests i

  abbrev stage' : ℕ → Stage
  stage' = update s.stage i p'

  pub others-Wf :
      {m' : Memory}
      → FieldChange r s.mem m' p p'
      → (j : ℕ) → j ≢ i
      → Wf (requests j) m'.records (s.stage j)
  others-Wf (adds k f h hold new e a) j ne =
      Wf-apart (requests j) s.mem.records _ (s.stage j)
        (λ x hold'.
          ap (λ g. g x) e
          ∙ rw (beq_of_ne x k (λ y. ne (inv.unique j i x hold' (ap (holds r p) y ∙ hold)))))
        (inv.wf j)
  others-Wf (leaves e a) j ne =
      Wf-apart (requests j) s.mem.records _ (s.stage j) (λ x _. ap (λ g. g x) e) (inv.wf j)

  abbrev summed : (ℕ → Stage) → ℕ → ℕ → ℕ
  summed stage k m = total n (λ j. amount (requests j) (stage j) k m)

  summed-change :
      (k m : ℕ) → summed stage' k m + amount r p k m ≡ summed s.stage k m + amount r p' k m
  summed-change k m =
      total-change n (λ j. amount (requests j) (s.stage j) k m)
        (λ j. amount (requests j) (stage' j) k m) i lt
        (λ j ne. ap (λ q. amount (requests j) q k m) (sym (rw (beq_of_ne j i ne))))
      ∙ ap (λ q. summed s.stage k m + amount r q k m) (rw (beq_refl i))

  pub fields-change :
      {m' : Memory}
      → FieldChange r s.mem m' p p'
      → (k m : ℕ) → m < nfields
      → field (m'.records k) m ≡ (field (base k) m + summed stage' k m) % 2 ^ 64
  fields-change (adds k f h hold new e a) k' m lt' = elim (Bool-cases (k' == k && m == f)) [
    | inl hit ↦
        let same_k : k' ≡ k = ground arith in
        let same_m : m ≡ f = ground arith in
        let fresh : amount r p k f ≡ 0 = rw new in
        let given : amount r p' k f ≡ r.updates f = rw (a k f) (rw (beq_refl k, beq_refl f)) in
        let stored : field ((store_field s.mem r k f (field (s.mem.records k) f)).records k) f
            ≡ (field (s.mem.records k) f + r.updates f) % 2 ^ 64 =
          stored-field s.mem r k f (field (s.mem.records k) f) k f ∙ rw (beq_refl k, beq_refl f) in
        rw (same_k, same_m)
          (omega (
            arith,
            ap (λ x. field (x k) f) e,
            stored,
            inv.fields k f h,
            summed-change k f,
            fresh,
            given,
          ))
    | inr miss ↦
        let stored : field ((store_field s.mem r k f (field (s.mem.records k) f)).records k') m
            ≡ field (s.mem.records k') m =
          stored-field s.mem r k f (field (s.mem.records k) f) k' m ∙ rw miss in
        let kept : amount r p' k' m ≡ amount r p k' m = rw (a k' m) (rw miss) in
        omega
          (arith, ap (λ x. field (x k') m) e, stored, inv.fields k' m lt', summed-change k' m, kept)
  ]
  fields-change (leaves e a) k' m lt' =
      let kept : amount r p' k' m ≡ amount r p k' m = rw (a k' m lt') in
      omega (arith, ap (λ x. field (x k') m) e, inv.fields k' m lt', summed-change k' m, kept)

  pub gaps-change :
      {m' : Memory} → FieldChange r s.mem m' p p' → (k j : ℕ) → IsGap j → m'.records k j ≡ base k j
  gaps-change (adds k f h hold new e a) k' j g =
      ap (λ x. x k' j) e ∙ stored-gap s.mem r k f _ k' j h g ∙ inv.gaps k' j g
  gaps-change (leaves e a) k' j g = ap (λ x. x k' j) e ∙ inv.gaps k' j g

  pub bytes-change : {m' : Memory} → FieldChange r s.mem m' p p' → AllBytes m'.records
  bytes-change (adds k f h hold new e a) =
      subst AllBytes (sym e) (stored-AllBytes s.mem r k f _ inv.bytes)
  bytes-change (leaves e a) = subst AllBytes (sym e) inv.bytes
