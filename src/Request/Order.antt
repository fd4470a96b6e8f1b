-- ===== src/Request/Order.antt =====
-- The order in which requests run.
use mathlib.Core.Path.{fun_ext, ap₂}
use mathlib.Core.List.{Perm, Permᴰ}
use mathlib.Core.Logic.{∥∥₁_elim}
use native.Mathlib.Nat.{ℕ_set}
use cmcs624_fall.Common.{ℕ, ◌≡◌, refl, ap, ◌∙◌, List, [], ◌∷◌, Bool-cases, inl, inr}
use cmcs624_fall.Common.KeySet
use cmcs624_fall.Words.{Bytes, IsBytes}
use cmcs624_fall.Request.{Request}
use cmcs624_fall.Request.Fields.{do_write-IsBytes, do_write_comm}
use cmcs624_fall.Request.Sequential.{effect}

-- Every byte of every record is a byte.
abbrev pub AllBytes : (ℕ → Bytes) → Type 0
AllBytes records = (k : ℕ) → IsBytes (records k)

pub effect-AllBytes :
    (r : Request) (records : ℕ → Bytes) → AllBytes records → AllBytes (effect r records)
effect-AllBytes r records h k = elim (Bool-cases (KeySet.contains k r.writeset)) [
  | inl e ↦ rw e (do_write-IsBytes (records k) r.updates (h k))
  | inr e ↦ rw e (h k)
]

effect_comm :
    (r q : Request) (records : ℕ → Bytes)
    → AllBytes records
    → (k j : ℕ) → effect r (effect q records) k j ≡ effect q (effect r records) k j
effect_comm r q records h k j = elim (Bool-cases (KeySet.contains k r.writeset)) [
  | inl e ↦ elim (Bool-cases (KeySet.contains k q.writeset)) [
    | inl e' ↦ rw (e, e') (do_write_comm (records k) q.updates r.updates (h k) j)
    | inr e' ↦ rw (e, e')
  ]
  | inr e ↦ rw e
]

-- The records after the requests, one after the other.
abbrev pub effects : List Request → (ℕ → Bytes) → ℕ → Bytes
effects [] records = records
effects (r ∷ rs) records = effects rs (effect r records)

effects-Permᴰ :
    {rs qs : List Request}
    → Permᴰ rs qs
    → (records : ℕ → Bytes) → AllBytes records
    → effects rs records ≡ effects qs records
effects-Permᴰ Permᴰ.nil records h = refl
effects-Permᴰ (Permᴰ.cons {a} {b} {l₁} {l₂} e p) records h =
    ap (λ r. effects l₁ (effect r records)) e
    ∙ effects-Permᴰ p (effect b records) (effect-AllBytes b records h)
effects-Permᴰ (Permᴰ.swap {a} {b} {a'} {b'} {l} e e') records h =
    ap (effects l) (fun_ext (λ k. fun_ext (effect_comm b a records h k)))
    ∙ ap₂ (λ r q. effects l (effect r (effect q records))) e e'
effects-Permᴰ (Permᴰ.trans p q) records h = effects-Permᴰ p records h ∙ effects-Permᴰ q records h

-- Whatever the order in which the requests run, every byte of every record ends the same.
pub effects-perm :
    (rs qs : List Request) (records : ℕ → Bytes)
    → Perm rs qs
    → AllBytes records
    → (k j : ℕ) → effects rs records k j ≡ effects qs records k j
effects-perm rs qs records p h k j =
    ∥∥₁_elim p (ℕ_set _ _) (λ d. ap (λ f. f k j) (effects-Permᴰ d records h))
