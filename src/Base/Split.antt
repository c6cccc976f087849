-- ===== src/Base/Split.antt =====
-- The laws of `split` and `join` on one separator, and what a text's guards against leading,
-- trailing and doubled separators say about its parts.
use Prim.Native.Nat.{ℕ}
use mathlib.Core.Path.{◌≡◌, refl, ap, ◌∙◌}
use mathlib.Core.Logic.{◌≢◌}
use mathlib.Core.Bool.{false}
use mathlib.Core.List.{List, [], ◌∷◌, ◌++◌, tail, append-nil}
use native.Mathlib.Omega.{arith}
use native.Mathlib.Decide.{ℕ_discrete}
use the_mql.Base.Lists.{All}
use the_mql.Base.Text.{
  Text, starts_with, contains, starts_with_char, ends_with_char, push_head, split, join, Without,
}

pub split-ne-nil : (s : Text) (sep : ℕ) → split s sep ≢ []
unfolding split
split-ne-nil [] sep = ground arith
split-ne-nil (c ∷ s) sep = ground arith

-- The two clauses of `split`, by whether the first character is the separator.
split-sep : (s : Text) {c sep : ℕ} → c ≡ sep → split (c ∷ s) sep ≡ [] ∷ split s sep
unfolding split
split-sep s e = ground arith

split-other : (s : Text) {c sep : ℕ} → c ≢ sep → split (c ∷ s) sep ≡ push_head c (split s sep)
unfolding split
split-other s e = ground arith

join-push_head :
    (c : ℕ) (xs : List Text) (sep : ℕ) → xs ≢ [] → join (push_head c xs) sep ≡ c ∷ join xs sep
unfolding join
join-push_head c [] sep h = absurd (h refl)
join-push_head c (p ∷ []) sep h = refl
join-push_head c (p ∷ q ∷ ps) sep h = refl

join-nil-cons : (xs : List Text) (sep : ℕ) → xs ≢ [] → join ([] ∷ xs) sep ≡ sep ∷ join xs sep
unfolding join
join-nil-cons [] sep h = absurd (h refl)
join-nil-cons (p ∷ ps) sep h = refl

-- Joining the parts of a text gives the text back.
pub join-split : (s : Text) (sep : ℕ) → join (split s sep) sep ≡ s
unfolding split
join-split [] sep = unfold join in refl
join-split (c ∷ s) sep = ground (
  arith,
  join-split s sep,
  split-ne-nil s sep,
  join-push_head c (split s sep) sep,
  join-nil-cons (split s sep) sep,
)

split_of_Without : (s : Text) (sep : ℕ) → Without sep s → split s sep ≡ s ∷ []
unfolding split
split_of_Without [] sep h = refl
split_of_Without (c ∷ s) sep h = ground (arith, split_of_Without s sep h.1, h.0)

pub split-append :
    (s t : Text) (sep : ℕ) → Without sep s → split (s ++ sep ∷ t) sep ≡ s ∷ split t sep
unfolding split
split-append [] t sep h = ground arith
split-append (c ∷ s) t sep h = ground (arith, split-append s t sep h.1, h.0)

-- Splitting gives back the parts that were joined, if none of them holds the separator.
pub split-join :
    (ps : List Text) (sep : ℕ) → ps ≢ [] → All (Without sep) ps → split (join ps sep) sep ≡ ps
unfolding join
split-join [] sep h w = absurd (h refl)
split-join (p ∷ []) sep h w = split_of_Without p sep w.0
split-join (p ∷ q ∷ ps) sep h w =
    split-append p (join (q ∷ ps) sep) sep w.0 ∙ ap (◌∷◌ p) (split-join (q ∷ ps) sep (λ e. cc) w.1)

-- The text has no leading, trailing or doubled separator, and is not empty.
pub record IsTidy (sep : ℕ) (s : Text) : Type 0 where
  pub some_text : s ≢ []
  pub lead : starts_with_char s sep ≡ false
  pub trail : ends_with_char s sep ≡ false
  pub double : contains s (sep ∷ sep ∷ []) ≡ false

abbrev pub IsFull : Text → Type 0
IsFull p = p ≢ []

push_head-IsFull : (c : ℕ) (xs : List Text) → All IsFull (tail xs) → All IsFull (push_head c xs)
push_head-IsFull c [] h = ((λ e. cc), tt)
push_head-IsFull c (p ∷ ps) h = ((λ e. cc), h)

tail-push_head-IsFull :
    (c : ℕ) (xs : List Text) → All IsFull (tail xs) → All IsFull (tail (push_head c xs))
tail-push_head-IsFull c [] h = tt
tail-push_head-IsFull c (p ∷ ps) h = h

tail-IsFull : (c : ℕ) (xs : List Text) → All IsFull (tail (push_head c xs)) → All IsFull (tail xs)
tail-IsFull c [] h = tt
tail-IsFull c (p ∷ ps) h = h

-- A text that does not begin with the separator has a first part that is not empty.
head_part :
    (s : Text) (sep : ℕ)
    → s ≢ []
    → starts_with_char s sep ≡ false
    → All IsFull (tail (split s sep))
    → All IsFull (split s sep)
unfolding starts_with_char
head_part [] sep n l h = absurd (n refl)
head_part (c ∷ s) sep n l h =
    let other : c ≢ sep = ground arith in
    rw (split-other s other) (
      push_head-IsFull c (split s sep)
        (tail-IsFull c (split s sep) (rw (split-other s other) at h)))

tail_parts :
    (s : Text) (sep : ℕ)
    → ends_with_char s sep ≡ false
    → contains s (sep ∷ sep ∷ []) ≡ false
    → All IsFull (tail (split s sep))
unfolding ends_with_char contains starts_with_char
tail_parts [] sep e d = unfold split in tt
tail_parts (c ∷ []) sep e d = unfold split in ground arith
tail_parts (c ∷ c' ∷ s) sep e d =
    let rest : All IsFull (tail (split (c' ∷ s) sep)) = tail_parts (c' ∷ s) sep e (ground arith) in
    elim (ℕ_discrete c sep) [
      | yes p ↦ rw (split-sep (c' ∷ s) p) (head_part (c' ∷ s) sep (λ e. cc) (ground arith) rest)
      | no p ↦ rw (split-other (c' ∷ s) p) (tail-push_head-IsFull c (split (c' ∷ s) sep) rest)
    ]

-- The parts of a tidy text are not empty.
pub split-IsFull : (s : Text) (sep : ℕ) → IsTidy sep s → All IsFull (split s sep)
split-IsFull s sep t = head_part s sep t.some_text t.lead (tail_parts s sep t.trail t.double)

contains_of_Without : (s : Text) (sep : ℕ) → Without sep s → contains s (sep ∷ sep ∷ []) ≡ false
unfolding contains starts_with
contains_of_Without [] sep w = refl
contains_of_Without (c ∷ s) sep w = ground (arith, contains_of_Without s sep w.1, w.0)

contains-append :
    (s t : Text) (sep : ℕ)
    → Without sep s
    → starts_with_char t sep ≡ false
    → contains t (sep ∷ sep ∷ []) ≡ false
    → contains (s ++ sep ∷ t) (sep ∷ sep ∷ []) ≡ false
unfolding contains starts_with starts_with_char
contains-append [] [] sep w l h = ground arith
contains-append [] (c ∷ t) sep w l h = ground arith
contains-append (c ∷ s) t sep w l h = ground (arith, contains-append s t sep w.1 l h, w.0)

ends_of_Without : (s : Text) (sep : ℕ) → Without sep s → ends_with_char s sep ≡ false
unfolding ends_with_char
ends_of_Without [] sep w = refl
ends_of_Without (c ∷ []) sep w = ground (arith, w.0)
ends_of_Without (c ∷ c' ∷ s) sep w = ends_of_Without (c' ∷ s) sep w.1

ends-append :
    (s t : Text) (sep : ℕ) → t ≢ [] → ends_with_char (s ++ sep ∷ t) sep ≡ ends_with_char t sep
unfolding ends_with_char
ends-append [] [] sep h = absurd (h refl)
ends-append [] (c ∷ t) sep h = refl
ends-append (d ∷ []) t sep h = ends-append [] t sep h
ends-append (d ∷ d' ∷ s) t sep h = ends-append (d' ∷ s) t sep h

starts_of_Without :
    (s t : Text) (sep : ℕ) → s ≢ [] → Without sep s → starts_with_char (s ++ t) sep ≡ false
unfolding starts_with_char
starts_of_Without [] t sep n w = absurd (n refl)
starts_of_Without (c ∷ s) t sep n w = ground (arith, w.0)

append-ne-nil : (s t : Text) → s ≢ [] → s ++ t ≢ []
append-ne-nil [] t n = absurd (n refl)
append-ne-nil (c ∷ s) t n = λ e. cc

-- Joining parts that are not empty and do not hold the separator gives a tidy text.
pub join-IsTidy :
    (ps : List Text) (sep : ℕ)
    → ps ≢ []
    → All IsFull ps
    → All (Without sep) ps
    → IsTidy sep (join ps sep)
unfolding join
join-IsTidy [] sep n f w = absurd (n refl)
join-IsTidy (p ∷ []) sep n f w = record {
  some_text = f.0;
  lead = rw append-nil at (starts_of_Without p [] sep f.0 w.0);
  trail = ends_of_Without p sep w.0;
  double = contains_of_Without p sep w.0;
}
join-IsTidy (p ∷ q ∷ ps) sep n f w =
    let rest : IsTidy sep (join (q ∷ ps) sep) = join-IsTidy (q ∷ ps) sep (λ e. cc) f.1 w.1 in
    record {
      some_text = append-ne-nil p _ f.0;
      lead = starts_of_Without p _ sep f.0 w.0;
      trail = ends-append p _ sep rest.some_text ∙ rest.trail;
      double = contains-append p _ sep w.0 rest.lead rest.double;
    }

Without-push_head :
    (c : ℕ) (xs : List Text) (sep : ℕ)
    → c ≢ sep
    → All (Without sep) xs
    → All (Without sep) (push_head c xs)
Without-push_head c [] sep n w = ((n, tt), tt)
Without-push_head c (p ∷ ps) sep n w = ((n, w.0), w.1)

-- No part of a split text holds the separator.
pub split-Without : (s : Text) (sep : ℕ) → All (Without sep) (split s sep)
split-Without [] sep = unfold split in (tt, tt)
split-Without (c ∷ s) sep = elim (ℕ_discrete c sep) [
  | yes p ↦ rw (split-sep s p) (tt, split-Without s sep)
  | no p ↦ rw (split-other s p) (Without-push_head c (split s sep) sep p (split-Without s sep))
]

-- The parts of a text hold no character that the text does not hold.
pub split-keeps : (s : Text) (d sep : ℕ) → Without d s → All (Without d) (split s sep)
split-keeps [] d sep w = unfold split in (tt, tt)
split-keeps (c ∷ s) d sep w = elim (ℕ_discrete c sep) [
  | yes p ↦ rw (split-sep s p) (tt, split-keeps s d sep w.1)
  | no p ↦ rw (split-other s p) (Without-push_head c (split s sep) d w.0 (split-keeps s d sep w.1))
]
