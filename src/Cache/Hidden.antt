-- ===== src/Cache/Hidden.antt =====
-- crates/themql-cache/src/lib.rs: the entries of the fourth tier, and the queries of the storage.
use the_mql.Base.{ℕ, true, false, ok, ◌≡◌, refl, subst, ◌≢◌, arith, All, Result-cases, inl, inr}
use the_mql.Cache.Tiered.{storage_key_for}
use the_mql.Core.Pattern.{SubjectPattern}
use the_mql.Core.Subject.{Subject, parse_subject, is_segment_char}
use the_mql.Core.Subject.Charset.{IsSegmentChar, is_segment_char_iff}
use the_mql.Core.Subject.Grammar.{parse_subject-eq-ok}
use the_mql.Core.Subject.Printed.{subject_text-All}
use the_mql.QueryEngine.Key.{CacheKey}
use the_mql.Storage.Sled.{key_matches, subject_from_storage_key}

abbrev NoColon : ℕ → Type 0
NoColon c = c ≢ b':'

char-NoColon : (c : ℕ) → IsSegmentChar c → NoColon c
unfolding is_segment_char
char-NoColon c h = let char : is_segment_char c ≡ true = (is_segment_char_iff c).1 h in ground arith

-- The key of a cached entry in the storage is no subject, since it has a colon.
storage_key_for-no_subject :
    (key : CacheKey) (subject : Subject) → parse_subject (storage_key_for key).text ≡ ok subject → ⊥
unfolding storage_key_for
storage_key_for-no_subject key subject h =
    let (w, e) = parse_subject-eq-ok (storage_key_for key).text subject h in
    let none_of : All NoColon (storage_key_for key).text =
      subst (All NoColon) e (subject_text-All NoColon char-NoColon (omega arith) subject w) in
    none_of.1.1.1.1.1.0 refl

-- The storage key that the cache derives for an entry does not pass the test of a pattern query,
-- whatever the pattern and the key of the entry.
pub key_matches-storage_key_for :
    (pattern : SubjectPattern) (key : CacheKey) → key_matches pattern (storage_key_for key) ≡ false
unfolding key_matches
key_matches-storage_key_for pattern key =
    elim (Result-cases (parse_subject (storage_key_for key).text)) [
      | inl (subject, h) ↦ absurd (storage_key_for-no_subject key subject h)
      | inr (e, h) ↦ rw (key_matches, subject_from_storage_key, h)
    ]
