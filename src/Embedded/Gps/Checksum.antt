-- ===== src/Embedded/Gps/Checksum.antt =====
-- crates/themql-embedded/src/sensors/neo6m.rs: the sentences that `validate_checksum` accepts.
use the_mql.Base.{
  ℕ, suc, ◌+◌, ◌*◌, ◌%◌, ◌≤◌, ◌<◌, true, false, Option, none, some, List, [], ◌∷◌, ◌++◌, length,
  length-append, ltb, ◌==◌, ◌≡◌, ◌≢◌, ◌↔◌, subst, refl, sym, ap, ◌∙◌, All, arith, Bool-cases, inl,
  inr, ◌⊎◌,
}
use the_mql.Base.Slices.{take_prefix}
use the_mql.Embedded.Gps.{
  find_byte, hex_val, index, xor_all, digits_agree, check_from, validate_checksum,
}
use Prim.Native.Nat.{bit_or}

-- A sentence with its parts: the body between `$` and the first `*`, two hexadecimal digits for the
-- exclusive or of the body's bytes, and what comes after them, at least one byte.
pub record IsChecked (sentence : List ℕ) : Type 0 where
  pub body : List ℕ
  pub h : ℕ
  pub l : ℕ
  pub r : ℕ
  pub rest : List ℕ
  pub hi : ℕ
  pub lo : ℕ
  pub parts : sentence ≡ b'$' ∷ body ++ b'*' ∷ h ∷ l ∷ r ∷ rest
  pub no_star : All (λ b. b ≢ b'*') body
  pub high : hex_val h ≡ some hi
  pub low : hex_val l ≡ some lo
  pub agreed : xor_all 0 body ≡ bit_or (hi * 16 % 256) lo
  pub long : 6 ≤ length sentence

-- The search finds nothing, or the first of the bytes.
find_byte-cases :
    (s : List ℕ) (b : ℕ)
    → (find_byte s b ≡ none)
      ⊎ ((p : List ℕ) × (q : List ℕ) × (s ≡ p ++ b ∷ q)
          × (find_byte s b ≡ some (length p))
          × All (λ c. c ≢ b) p)
unfolding find_byte
find_byte-cases [] b = inl refl
find_byte-cases (c ∷ s) b = elim (Bool-cases (c == b)) [
  | inl e ↦ let same : c ≡ b = ground arith in inr ([], s, ap (λ d. d ∷ s) same, rw e refl, tt)
  | inr e ↦
      let other : c ≢ b = ground arith in
      elim (find_byte-cases s b) [
        | inl n ↦ inl (rw (e, n) refl)
        | inr f ↦ inr (c ∷ f.0, f.1, ap (◌∷◌ c) f.2, rw (e, f.3) refl, (other, f.4))
      ]
]

find_byte-append :
    (p q : List ℕ) (b : ℕ) → All (λ c. c ≢ b) p → find_byte (p ++ b ∷ q) b ≡ some (length p)
unfolding find_byte
find_byte-append [] q b h = ground arith
find_byte-append (c ∷ p) q b h = ground (arith, h.0, find_byte-append p q b h.1)

index_past : (k : ℕ) (xs ys : List ℕ) → index (xs ++ ys) (length xs + k) ≡ index ys k
index_past k [] ys = ap (index ys) (omega arith)
index_past k (x ∷ xs) ys =
    let shift : length (x ∷ xs) + k ≡ suc (length xs + k) = omega arith in
    ap (index (x ∷ xs ++ ys)) shift ∙ index_past k xs ys

-- What the check computes when the star stands after the body and three bytes follow it.
check_at :
    (c : ℕ) (body : List ℕ) (h l r : ℕ) (rest : List ℕ)
    → check_from (c ∷ body ++ b'*' ∷ h ∷ l ∷ r ∷ rest) (some (length (c ∷ body)))
      ≡ some (digits_agree (xor_all 0 body) (hex_val h) (hex_val l))
check_at c body h l r rest =
    let tail = b'*' ∷ h ∷ l ∷ r ∷ rest in
    let room : ltb (length (c ∷ body ++ tail)) (length (c ∷ body) + 4) ≡ false =
      ground (arith, length-append (c ∷ body) tail) in
    rw (room, index_past 1 (c ∷ body) tail, index_past 2 (c ∷ body) tail, take_prefix body tail)
      refl

-- With fewer bytes the sentence is refused.
check_short : (p q : List ℕ) → length q < 4 → check_from (p ++ q) (some (length p)) ≡ some false
check_short p q h =
    let room : ltb (length (p ++ q)) (length p + 4) ≡ true = ground (arith, length-append p q) in
    rw room refl

digits_agree_iff :
    (checksum : ℕ) (a b : Option ℕ)
    → digits_agree checksum a b ≡ true
    → (hi : ℕ) × (lo : ℕ) × (a ≡ some hi) × (b ≡ some lo) × (checksum ≡ bit_or (hi * 16 % 256) lo)
digits_agree_iff checksum (some hi) (some lo) h = (hi, lo, refl, refl, ground arith)
digits_agree_iff checksum (some hi) none h = cc
digits_agree_iff checksum none b h = cc

-- The parts of a sentence whose check succeeded, from where the star is.
parts_of :
    (p q : List ℕ)
    → All (λ b. b ≢ b'*') p
    → index (p ++ b'*' ∷ q) 0 ≡ some b'$'
    → check_from (p ++ b'*' ∷ q) (some (length p)) ≡ some true
    → 6 ≤ length (p ++ b'*' ∷ q)
    → IsChecked (p ++ b'*' ∷ q)
parts_of [] q w d e n = absurd (ground (arith, d))
parts_of (c ∷ body) [] w d e n = absurd (cc (check_short (c ∷ body) (b'*' ∷ []) (omega arith), e))
parts_of (c ∷ body) (h ∷ []) w d e n =
    absurd (cc (check_short (c ∷ body) (b'*' ∷ h ∷ []) (omega arith), e))
parts_of (c ∷ body) (h ∷ l ∷ []) w d e n =
    absurd (cc (check_short (c ∷ body) (b'*' ∷ h ∷ l ∷ []) (omega arith), e))
parts_of (c ∷ body) (h ∷ l ∷ r ∷ rest) w d e n =
    let (hi, lo, high, low, sum) =
      digits_agree_iff (xor_all 0 body) (hex_val h) (hex_val l)
        (cc (check_at c body h l r rest, e)) in
    let dollar : c ≡ b'$' = cc d in
    record {
      body = body;
      h = h;
      l = l;
      r = r;
      rest = rest;
      hi = hi;
      lo = lo;
      parts = ap (λ x. x ∷ body ++ b'*' ∷ h ∷ l ∷ r ∷ rest) dollar;
      no_star = w.1;
      high = high;
      low = low;
      agreed = sum;
      long = n;
    }

validate-IsChecked : (s : List ℕ) → validate_checksum s ≡ some true → IsChecked s
unfolding validate_checksum
validate-IsChecked [] e = cc
validate-IsChecked (c ∷ s) e = elim (Bool-cases (ltb (length (c ∷ s)) 6)) [
  | inl short ↦ absurd (cc (rw short at e))
  | inr long ↦ elim (Bool-cases (c == b'$')) [
    | inr other ↦ absurd (cc (rw (long, other) at e))
    | inl dollar ↦ elim (find_byte-cases (c ∷ s) b'*') [
      | inl missing ↦ absurd (cc (rw (long, dollar, missing) at e))
      | inr (p, q, split, at, fresh) ↦
          let first : some c ≡ some b'$' = ap some (ground arith) in
          subst IsChecked (sym split) (
            parts_of p q fresh (ap (λ t. index t 0) (sym split) ∙ first)
              (ap (λ t. check_from t (some (length p))) (sym split) ∙ rw (long, dollar, at) at e)
              (ground (arith, ap length split)))
    ]
  ]
]

checked_parts :
    (body : List ℕ) (h l r : ℕ) (rest : List ℕ) (hi lo : ℕ)
    → All (λ b. b ≢ b'*') body
    → hex_val h ≡ some hi
    → hex_val l ≡ some lo
    → xor_all 0 body ≡ bit_or (hi * 16 % 256) lo
    → 6 ≤ length (b'$' ∷ body ++ b'*' ∷ h ∷ l ∷ r ∷ rest)
    → validate_checksum (b'$' ∷ body ++ b'*' ∷ h ∷ l ∷ r ∷ rest) ≡ some true
unfolding validate_checksum
checked_parts body h l r rest hi lo fresh high low sum long =
    let whole = b'$' ∷ body ++ b'*' ∷ h ∷ l ∷ r ∷ rest in
    let enough : ltb (length whole) 6 ≡ false = ground arith in
    let found = find_byte-append (b'$' ∷ body) (h ∷ l ∷ r ∷ rest) b'*' ((λ x. cc), fresh) in
    let same : (xor_all 0 body == bit_or (hi * 16 % 256) lo) ≡ true = ground (arith, sum) in
    rw (enough, found, check_at b'$' body h l r rest, high, low, same) refl

-- `validate_checksum` accepts exactly the sentences of at least six bytes that are a `$`, a body
-- without a star, a star, two hexadecimal digits and at least one byte more, where the digits are the
-- exclusive or of the bytes of the body.
pub validate_checksum_iff :
    (sentence : List ℕ) → (validate_checksum sentence ≡ some true) ↔ IsChecked sentence
validate_checksum_iff sentence = (
  validate-IsChecked sentence,
  (λ k.
      ap validate_checksum k.parts
      ∙ checked_parts k.body k.h k.l k.r k.rest k.hi k.lo k.no_star k.high k.low k.agreed
          (ground (arith, ap length k.parts, k.long))),
)
