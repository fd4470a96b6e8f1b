-- ===== src/Words.antt =====
-- Memory as bytes, and the uint64_t that stands at an offset, low byte first. Such loads and stores
-- are how a1/src/request.cc and a1/src/database.cc reach the fields of a record.
use cmcs624_fall.Common.{
  ℕ, zero, suc, ◌+◌, ◌-◌, ◌*◌, ◌/◌, ◌%◌, ◌^◌, ◌≤◌, ◌<◌, ◌≡◌, ◌⊎◌, ◌∙◌, arith, ltb, leb, ◌&&◌,
  if◌then◌else◌,
}

abbrev pub Bytes : Type 0
Bytes = ℕ → ℕ

-- Byte `k` of a number, from the low end.
unfoldable pub byte_of : ℕ → ℕ → ℕ
byte_of v zero = v % 256
byte_of v (suc k) = byte_of (v / 256) k

unfoldable pub load64 : Bytes → ℕ → ℕ
load64 b o =
    b o
    + 256
      * (b (o + 1)
          + 256
            * (b (o + 2)
                + 256
                  * (b (o + 3)
                      + 256
                        * (b (o + 4) + 256 * (b (o + 5) + 256 * (b (o + 6) + 256 * b (o + 7)))))))

unfoldable pub store64 : Bytes → ℕ → ℕ → Bytes
store64 b o v j = if leb o j && ltb j (o + 8) then byte_of v (j - o) else b j

abbrev pub IsBytes : Bytes → Type 0
IsBytes b = (j : ℕ) → b j < 256

byte_of-lt : (v k : ℕ) → byte_of v k < 256
unfolding byte_of
byte_of-lt v zero = omega arith
byte_of-lt v (suc k) = byte_of-lt (v / 256) k

pub store64-IsBytes : (b : Bytes) (o v : ℕ) → IsBytes b → IsBytes (store64 b o v)
unfolding store64
store64-IsBytes b o v h j = ground (arith, byte_of-lt v (j - o), h j)

store64-in : (b : Bytes) (o v k : ℕ) → k < 8 → store64 b o v (o + k) ≡ byte_of v k
unfolding store64
store64-in b o v k h = let e : o + k - o ≡ k = omega arith in rw e (ground arith)

pub store64-out : (b : Bytes) (o v j : ℕ) → (j < o) ⊎ (o + 8 ≤ j) → store64 b o v j ≡ b j
unfolding store64
store64-out b o v j h = ground arith

byte_of_literals :
    (v : ℕ)
    → v < 2 ^ 64
    → byte_of v 0
        + 256
          * (byte_of v 1
              + 256
                * (byte_of v 2
                    + 256
                      * (byte_of v 3
                          + 256
                            * (byte_of v 4
                                + 256 * (byte_of v 5 + 256 * (byte_of v 6 + 256 * byte_of v 7))))))
      ≡ v
unfolding byte_of
byte_of_literals v h = omega arith

store64-first : (b : Bytes) (o v : ℕ) → store64 b o v o ≡ byte_of v 0
unfolding store64
store64-first b o v = let e : o - o ≡ 0 = omega arith in rw e (ground arith)

-- A load gives back the 64-bit number that was stored at its place, whatever the bytes around it.
pub load64-store64 : (b : Bytes) (o v : ℕ) → v < 2 ^ 64 → load64 (store64 b o v) o ≡ v
unfolding load64
load64-store64 b o v h = omega (
  arith,
  byte_of_literals v h,
  store64-first b o v,
  store64-in b o v 1 (omega arith),
  store64-in b o v 2 (omega arith),
  store64-in b o v 3 (omega arith),
  store64-in b o v 4 (omega arith),
  store64-in b o v 5 (omega arith),
  store64-in b o v 6 (omega arith),
  store64-in b o v 7 (omega arith),
)

-- And a store elsewhere does not change it.
pub load64-store64_apart :
    (b : Bytes) (o p v : ℕ) → (p + 8 ≤ o) ⊎ (o + 8 ≤ p) → load64 (store64 b o v) p ≡ load64 b p
unfolding load64
load64-store64_apart b o p v h = omega (
  arith,
  store64-out b o v p (omega arith),
  store64-out b o v (p + 1) (omega arith),
  store64-out b o v (p + 2) (omega arith),
  store64-out b o v (p + 3) (omega arith),
  store64-out b o v (p + 4) (omega arith),
  store64-out b o v (p + 5) (omega arith),
  store64-out b o v (p + 6) (omega arith),
  store64-out b o v (p + 7) (omega arith),
)

byte_of_head : (x y : ℕ) → x < 256 → byte_of (x + 256 * y) 0 ≡ x
unfolding byte_of
byte_of_head x y h = omega arith

byte_of_rest : (x y k : ℕ) → x < 256 → byte_of (x + 256 * y) (suc k) ≡ byte_of y k
unfolding byte_of
byte_of_rest x y k h = let e : (x + 256 * y) / 256 ≡ y = omega arith in rw e

byte_of_last : (x : ℕ) → x < 256 → byte_of x 0 ≡ x
unfolding byte_of
byte_of_last x h = omega arith

-- A load determines the bytes that it reads.
pub byte_of-load64 : (b : Bytes) (o k : ℕ) → IsBytes b → k < 8 → byte_of (load64 b o) k ≡ b (o + k)
unfolding load64
byte_of-load64 b o zero h lt = let e : o + 0 ≡ o = omega arith in rw e (byte_of_head (b o) _ (h o))
byte_of-load64 b o (suc zero) h lt =
    byte_of_rest (b o) _ 0 (h o) ∙ byte_of_head (b (o + 1)) _ (h (o + 1))
byte_of-load64 b o (suc (suc zero)) h lt =
    byte_of_rest (b o) _ 1 (h o)
    ∙ byte_of_rest (b (o + 1)) _ 0 (h (o + 1))
    ∙ byte_of_head (b (o + 2)) _ (h (o + 2))
byte_of-load64 b o (suc (suc (suc zero))) h lt =
    byte_of_rest (b o) _ 2 (h o)
    ∙ byte_of_rest (b (o + 1)) _ 1 (h (o + 1))
    ∙ byte_of_rest (b (o + 2)) _ 0 (h (o + 2))
    ∙ byte_of_head (b (o + 3)) _ (h (o + 3))
byte_of-load64 b o (suc (suc (suc (suc zero)))) h lt =
    byte_of_rest (b o) _ 3 (h o)
    ∙ byte_of_rest (b (o + 1)) _ 2 (h (o + 1))
    ∙ byte_of_rest (b (o + 2)) _ 1 (h (o + 2))
    ∙ byte_of_rest (b (o + 3)) _ 0 (h (o + 3))
    ∙ byte_of_head (b (o + 4)) _ (h (o + 4))
byte_of-load64 b o (suc (suc (suc (suc (suc zero))))) h lt =
    byte_of_rest (b o) _ 4 (h o)
    ∙ byte_of_rest (b (o + 1)) _ 3 (h (o + 1))
    ∙ byte_of_rest (b (o + 2)) _ 2 (h (o + 2))
    ∙ byte_of_rest (b (o + 3)) _ 1 (h (o + 3))
    ∙ byte_of_rest (b (o + 4)) _ 0 (h (o + 4))
    ∙ byte_of_head (b (o + 5)) _ (h (o + 5))
byte_of-load64 b o (suc (suc (suc (suc (suc (suc zero)))))) h lt =
    byte_of_rest (b o) _ 5 (h o)
    ∙ byte_of_rest (b (o + 1)) _ 4 (h (o + 1))
    ∙ byte_of_rest (b (o + 2)) _ 3 (h (o + 2))
    ∙ byte_of_rest (b (o + 3)) _ 2 (h (o + 3))
    ∙ byte_of_rest (b (o + 4)) _ 1 (h (o + 4))
    ∙ byte_of_rest (b (o + 5)) _ 0 (h (o + 5))
    ∙ byte_of_head (b (o + 6)) _ (h (o + 6))
byte_of-load64 b o (suc (suc (suc (suc (suc (suc (suc zero))))))) h lt =
    byte_of_rest (b o) _ 6 (h o)
    ∙ byte_of_rest (b (o + 1)) _ 5 (h (o + 1))
    ∙ byte_of_rest (b (o + 2)) _ 4 (h (o + 2))
    ∙ byte_of_rest (b (o + 3)) _ 3 (h (o + 3))
    ∙ byte_of_rest (b (o + 4)) _ 2 (h (o + 4))
    ∙ byte_of_rest (b (o + 5)) _ 1 (h (o + 5))
    ∙ byte_of_rest (b (o + 6)) _ 0 (h (o + 6))
    ∙ byte_of_last (b (o + 7)) (h (o + 7))
byte_of-load64 b o (suc (suc (suc (suc (suc (suc (suc (suc k)))))))) h lt = absurd (omega arith)

pub load64-lt : (b : Bytes) (o : ℕ) → IsBytes b → load64 b o < 2 ^ 64
unfolding load64
load64-lt b o h =
    omega (arith, h o, h (o + 1), h (o + 2), h (o + 3), h (o + 4), h (o + 5), h (o + 6), h (o + 7))
