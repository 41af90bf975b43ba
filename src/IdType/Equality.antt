-- ===== src/IdType/Equality.antt =====
-- operator== of IdType compares what the identifiers decode to, if one holds bytes and the other
-- text, and the texts if both hold text.
use cppgraphqlgen.Base.{
  ◌≡◌, ◌≢◌, ◌↔◌, Bool, ap, sym, ◌∙◌, refl, true, false, arith, Bool-cases, inl, inr,
}
use cppgraphqlgen.Base.Text.{
  Bytes, bytes_eq, bytes_eq_iff, bytes_eq_refl, lex_compare_self, lex_compare-equal,
}
use cppgraphqlgen.Base.Outcome.{Outcome, ok, throw, undefined_behaviour, ok-injective}
use cppgraphqlgen.Base64.{from_base64}
use cppgraphqlgen.Base64.Compare.{Comparison, equal_to}
use cppgraphqlgen.Base64.Compare.RunsPast.{runs_past, from_base64-runs_past}
use cppgraphqlgen.Base64.Compare.Reference.{compare_base64-eq-decode_and_compare}
use cppgraphqlgen.Base64.Compare.Partial.{decided, decode_and_compare}
use cppgraphqlgen.IdType.{
  IdType, byte_data, opaque_string, id_eq, id_eq_bytes, id_eq_string, is_equal_to, compared,
}

-- The comparison of bytes with the outcome of decoding.
decided-equal :
    (a : Bytes) (r : Outcome Bytes) → (is_equal_to (decided equal_to a r) ≡ true) ↔ (r ≡ ok a)
decided-equal a (ok c) =
    (λ h. rw (lex_compare-equal a c (ground arith)), λ e. rw (ok-injective e, lex_compare_self a))
decided-equal a (throw e) = (λ h. cc, λ h. cc)

module _ (test : Comparison → Bool) (a b : Bytes) where
  pub compared-past : runs_past a b ≡ true → compared test a b ≡ throw undefined_behaviour
  compared-past e = rw (compare_base64-eq-decode_and_compare, e) refl

  pub compared-within :
      runs_past a b ≡ false → compared test a b ≡ ok (test (decode_and_compare a b))
  compared-within e = rw (compare_base64-eq-decode_and_compare, e) refl

pub compared-decodes : (a b : Bytes) → (compared is_equal_to a b ≡ ok true) ↔ (from_base64 b ≡ ok a)
compared-decodes a b = (
  λ h. elim (Bool-cases (runs_past a b)) [
    | inl e ↦ let past = compared-past is_equal_to a b e in cc
    | inr e ↦
        (decided-equal a (from_base64 b)).0
          (ok-injective (sym (compared-within is_equal_to a b e) ∙ h))
  ],
  λ h.
      compared-within is_equal_to a b (from_base64-runs_past a b h)
      ∙ ap ok ((decided-equal a (from_base64 b)).1 h),
)

-- Comparing an identifier of bytes with one of text, in either order, returns that they are equal
-- exactly when the text decodes to the bytes; comparing two identifiers of one kind returns, and
-- says that they are equal exactly when they hold the same.
pub id_eq_iff :
    (a b : Bytes)
    → ((id_eq (byte_data a) (opaque_string b) ≡ ok true) ↔ (from_base64 b ≡ ok a))
      × ((id_eq (opaque_string b) (byte_data a) ≡ ok true) ↔ (from_base64 b ≡ ok a))
      × ((equal : Bool) × (id_eq (byte_data a) (byte_data b) ≡ ok equal)
          × ((equal ≡ true) ↔ (a ≡ b)))
      × ((equal : Bool) × (id_eq (opaque_string a) (opaque_string b) ≡ ok equal)
          × ((equal ≡ true) ↔ (a ≡ b)))
unfolding id_eq
id_eq_iff a b = (
  compared-decodes a b,
  compared-decodes a b,
  (bytes_eq a b, refl, bytes_eq_iff a b),
  (bytes_eq a b, refl, bytes_eq_iff a b),
)

-- The comparisons with plain bytes and with a plain string are those with an IdType made of them.
pub id_eq_bytes-string :
    (x : IdType) (rhs : Bytes)
    → (id_eq_bytes x rhs ≡ id_eq x (byte_data rhs))
      × (id_eq_string x rhs ≡ id_eq x (opaque_string rhs))
unfolding id_eq id_eq_bytes id_eq_string
id_eq_bytes-string (byte_data a) rhs = (refl, refl)
id_eq_bytes-string (opaque_string a) rhs = (refl, refl)

pub id_eq_refl : (x : IdType) → id_eq x x ≡ ok true
unfolding id_eq
id_eq_refl (byte_data a) = ap ok (bytes_eq_refl a)
id_eq_refl (opaque_string a) = ap ok (bytes_eq_refl a)

-- operator== is not transitive: bytes equal each of two different texts that decode to them, and
-- the texts are not equal.
pub id_eq_not_trans :
    (a b c : Bytes)
    → from_base64 a ≡ ok b
    → from_base64 c ≡ ok b
    → a ≢ c
    → (id_eq (opaque_string a) (byte_data b) ≡ ok true)
      × (id_eq (byte_data b) (opaque_string c) ≡ ok true)
      × (id_eq (opaque_string a) (opaque_string c) ≡ ok false)
unfolding id_eq
id_eq_not_trans a b c h k n = (
  (compared-decodes b a).1 h,
  (compared-decodes b c).1 k,
  elim (Bool-cases (bytes_eq a c)) [
    | inl e ↦ absurd (n ((bytes_eq_iff a c).0 e))
    | inr e ↦ ap ok e
  ],
)
