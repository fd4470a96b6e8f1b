-- ===== src/Workers/Results.antt =====
-- The records that requests leave when they run at once.
use cmcs624_fall.Common.{
  ℕ, zero, suc, ◌+◌, ◌*◌, ◌%◌, ◌^◌, ◌<◌, ◌≡◌, refl, sym, ap, ◌∙◌, subst, arith, Bool, List, [], ◌∷◌,
  ◌++◌, if◌then◌else◌, inl, inr, Bool-cases,
}
use cmcs624_fall.Common.KeySet
use cmcs624_fall.Common.Sort.{Distinct, contains-sort}
use cmcs624_fall.Common.Sums.{total, total-same}
use cmcs624_fall.Words.{Bytes, load64-lt}
use cmcs624_fall.Database.{field_size, nfields}
use cmcs624_fall.Request.{Request}
use cmcs624_fall.Request.Fields.{field, IsGap, same_record, do_write_lem}
use cmcs624_fall.Request.Sequential.{effect}
use cmcs624_fall.Request.Order.{AllBytes, effect-AllBytes, effects}
use cmcs624_fall.Workers.{finished, System, Reach}
use cmcs624_fall.Workers.Invariant.{Inv, amount}
use cmcs624_fall.Workers.Safety.{Reach-Inv}

-- The requests of the workers below `n`, in order.
unfoldable pub listed : ℕ → (ℕ → Request) → List Request
listed zero requests = []
listed (suc n) requests = listed n requests ++ (requests n ∷ [])

pub effects-append :
    (rs : List Request) (r : Request) (records : ℕ → Bytes)
    → effects (rs ++ (r ∷ [])) records ≡ effect r (effects rs records)
effects-append [] r records = refl
effects-append (q ∷ rs) r records = effects-append rs r (effect q records)

abbrev share : Request → ℕ → ℕ → ℕ
share r k m = if KeySet.contains k r.writeset then r.updates m else 0

module _ (requests : ℕ → Request) (base : ℕ → Bytes) (bytes : AllBytes base) where
  abbrev after : ℕ → ℕ → Bytes
  after n = effects (listed n requests) base

  after-suc : (n : ℕ) → after (suc n) ≡ effect (requests n) (after n)
  unfolding listed
  after-suc n = effects-append (listed n requests) (requests n) base

  after-AllBytes : (n : ℕ) → AllBytes (after n)
  unfolding listed
  after-AllBytes zero = bytes
  after-AllBytes (suc n) =
      subst AllBytes (sym (after-suc n)) (effect-AllBytes (requests n) (after n) (after-AllBytes n))

  after-gap : (n k j : ℕ) → IsGap j → after n k j ≡ base k j
  unfolding listed
  after-gap zero k j g = refl
  after-gap (suc n) k j g =
      ap (λ x. x k j) (after-suc n) ∙ elim (Bool-cases (KeySet.contains k (requests n).writeset)) [
        | inl e ↦ rw e ((do_write_lem (after n k) (requests n).updates).1 j g ∙ after-gap n k j g)
        | inr e ↦ rw e (after-gap n k j g)
      ]

  effect-field :
      (r : Request) (records : ℕ → Bytes) (k m : ℕ)
      → m < nfields
      → AllBytes records
      → field (effect r records k) m ≡ (field (records k) m + share r k m) % 2 ^ 64
  effect-field r records k m lt b = elim (Bool-cases (KeySet.contains k r.writeset)) [
    | inl e ↦ rw e ((do_write_lem (records k) r.updates).0 m lt)
    | inr e ↦ rw e (omega (arith, load64-lt (records k) (m * field_size) (b k)))
  ]

  after-field :
      (n k m : ℕ)
      → m < nfields
      → field (after n k) m ≡ (field (base k) m + total n (λ i. share (requests i) k m)) % 2 ^ 64
  unfolding listed total
  after-field zero k m lt = omega (arith, load64-lt (base k) (m * field_size) (bytes k))
  after-field (suc n) k m lt = omega (
    arith,
    ap (λ x. field (x k) m) (after-suc n),
    effect-field (requests n) (after n) k m lt (after-AllBytes n),
    after-field n k m lt,
  )

-- When every worker is finished, the records are, byte for byte, those that the requests leave when
-- they run one after the other: no update is lost in any interleaving of requests with distinct keys.
pub finished-effects :
    {n : ℕ} {requests : ℕ → Request} {base : ℕ → Bytes} {s : System}
    → ((i : ℕ) → Distinct (requests i).writeset)
    → AllBytes base
    → Reach n requests base s
    → ((i : ℕ) → i < n → s.stage i ≡ finished)
    → (k j : ℕ) → s.mem.records k j ≡ effects (listed n requests) base k j
finished-effects {n} {requests} {base} {s} distinct bytes reached ended k =
    same_record _ _ (inv.bytes k) (after-AllBytes requests base bytes n k)
      (λ m lt.
        inv.fields k m lt
        ∙ ap (λ x. (field (base k) m + x) % 2 ^ 64) (total-same n _ _ (shares m))
        ∙ sym (after-field requests base bytes n k m lt))
      (λ j g. inv.gaps k j g ∙ sym (after-gap requests base bytes n k j g))
  where
    inv : Inv n requests base s
    inv = Reach-Inv distinct bytes reached

    shares : (m i : ℕ) → i < n → amount (requests i) (s.stage i) k m ≡ share (requests i) k m
    shares m i lt =
        ap (λ q. amount (requests i) q k m) (ended i lt)
        ∙ ap (λ (c : Bool). if c then (requests i).updates m else 0)
            (contains-sort k (requests i).writeset)
