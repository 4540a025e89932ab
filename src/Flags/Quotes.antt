-- ===== src/Flags/Quotes.antt =====
-- internal/flags/evaluator.go: the quotes around a value.
use Prim.Native.Nat.{◌-◌}
use Prim.Native.Char.{len_utf8, char}
use Prim.Native.String.{[], ◌∷◌, ◌++◌, len, slice}
use Prim.Native.String.append
use Prim.Native.String.len
use Prim.Native.String.slice
use native.Mathlib.Nat.{add-sub_cancel_left}
use text.Mathlib.TextBridge.{IsSuffix}
use text.Mathlib.TextPositions.{
  slice_all, len-append, slice-append_left, slice-append_middle, slice-append_right,
}
use text.Mathlib.TextLemmas.{append_assoc as text_assoc, tail-eq_of_cons-eq}
use text.Mathlib.TextEquality.{slice-prefix}
use deploy_sentry.Base.{
  leb→le, ◌&&◌, Bool-cases, string_eq, eq_iff, ◌==◌, ◌≤◌, ◌≢◌, leb, ℕ, zero, suc, ◌+◌, String, ◌≡◌,
  refl, sym, ap, ◌∙◌, ◌⊎◌, inl, inr, Bool, true, false, arith,
}
use deploy_sentry.Flags.Evaluation.{strip_quotes}

-- A text between quotes.
abbrev pub quoted : String → String
quoted body = "\"" ++ (body ++ "\"")

-- What `slice` takes from a position to the end is a suffix.
slice-IsSuffix : (s : String) (k : ℕ) → IsSuffix (slice s k (len s)) s
slice-IsSuffix [] k = ([], append.nil _ ∙ slice.nil k (len []))
slice-IsSuffix (c ∷ s) zero = ([], append.nil _ ∙ slice_all (c ∷ s))
slice-IsSuffix (c ∷ s) (suc k) =
    let (u, e) = slice-IsSuffix s (suc k - len_utf8 c) in
    let same : slice (c ∷ s) (suc k) (len (c ∷ s)) ≡ slice s (suc k - len_utf8 c) (len s) =
      ap (slice (c ∷ s) (suc k)) (len.cons c s)
      ∙ slice.cons-suc c s k (len_utf8 c + len s)
      ∙ ap (slice s (suc k - len_utf8 c)) (add-sub_cancel_left (len_utf8 c) (len s)) in
    (c ∷ u, append.cons c u _ ∙ ap (λ v. c ∷ (u ++ v)) same ∙ ap (λ v. c ∷ v) e)

len-quoted : (body : String) → len (quoted body) ≡ 2 + len body
len-quoted body =
    let outer : len (quoted body) ≡ 1 + len (body ++ "\"") = len-append "\"" (body ++ "\"") in
    let inner : len (body ++ "\"") ≡ len body + 1 = len-append body "\"" in
    omega (arith, outer, inner)

-- The two tests of `strip_quotes` and the text it takes, of a text between quotes.
head-quoted : (body : String) → slice (quoted body) 0 1 ≡ "\""
head-quoted body = slice-append_left "\"" (body ++ "\"")

last-quoted :
    (body : String) → slice (quoted body) (len (quoted body) - 1) (len (quoted body)) ≡ "\""
last-quoted body =
    let before : len ("\"" ++ body) ≡ len (quoted body) - 1 =
      omega (arith, len-append "\"" body, len-quoted body) in
    let whole : len ("\"" ++ body) + 1 ≡ len (quoted body) =
      omega (arith, len-append "\"" body, len-quoted body) in
    ap (λ k. slice (quoted body) (len (quoted body) - 1) k) (sym whole)
    ∙ ap (λ k. slice (quoted body) k (len ("\"" ++ body) + 1)) (sym before)
    ∙ ap (λ t. slice t (len ("\"" ++ body)) (len ("\"" ++ body) + 1))
        (sym (text_assoc "\"" body "\""))
    ∙ slice-append_right ("\"" ++ body) "\""

middle-quoted : (body : String) → slice (quoted body) 1 (len (quoted body) - 1) ≡ body
middle-quoted body =
    let to : len (quoted body) - 1 ≡ 1 + len body = omega (arith, len-quoted body) in
    ap (slice (quoted body) 1) to ∙ slice-append_middle "\"" body "\""

abbrev in_quotes : String → Bool
in_quotes raw =
    leb 2 (len raw) && slice raw 0 1 == "\"" && slice raw (len raw - 1) (len raw) == "\""

in_quotes-quoted : (body : String) → in_quotes (quoted body) ≡ true
in_quotes-quoted body =
    let long : leb 2 (len (quoted body)) ≡ true = ground (arith, len-quoted body) in
    let head : (slice (quoted body) 0 1 == "\"") ≡ true =
      (eq_iff (slice (quoted body) 0 1) "\"").1 (head-quoted body) in
    let last : (slice (quoted body) (len (quoted body) - 1) (len (quoted body)) == "\"") ≡ true =
      (eq_iff (slice (quoted body) (len (quoted body) - 1) (len (quoted body))) "\"").1
        (last-quoted body) in
    rw (long, head, last) refl

strip_quotes-quoted : (body : String) → strip_quotes (quoted body) ≡ body
unfolding strip_quotes
strip_quotes-quoted body = rw (in_quotes-quoted body) (middle-quoted body)

-- A text of at least two bytes that begins and ends with a quote is between quotes.
quoted-ends :
    (raw : String)
    → 2 ≤ len raw
    → slice raw 0 1 ≡ "\""
    → slice raw (len raw - 1) (len raw) ≡ "\""
    → (body : String) × (raw ≡ quoted body)
quoted-ends raw long head last =
    let (r, after_first) = slice-prefix raw 1 in
    let (u, before_last) = slice-IsSuffix raw (len raw - 1) in
    let first : char 34 tt ∷ r ≡ raw =
      sym (ap (λ v. char 34 tt ∷ v) (append.nil r))
      ∙ sym (append.cons (char 34 tt) [] r)
      ∙ ap (λ q. q ++ r) (sym head)
      ∙ after_first in
    let split : u ++ "\"" ≡ raw = ap (λ q. u ++ q) (sym last) ∙ before_last in
    by_start u r first split
  where
    too_short : len raw ≡ 1 → ⊥
    too_short short = omega (arith, short, long)

    by_start :
        (u r : String)
        → char 34 tt ∷ r ≡ raw
        → u ++ "\"" ≡ raw
        → (body : String) × (raw ≡ quoted body)
    by_start [] r first split =
        let short : len raw ≡ 1 = ap len (sym split ∙ append.nil "\"") in elim (too_short short) [ ]
    by_start (c ∷ u) r first split =
        let same : r ≡ u ++ "\"" = tail-eq_of_cons-eq (first ∙ sym split ∙ append.cons c u "\"") in
        (
          u,
          sym first
              ∙ ap (λ v. char 34 tt ∷ v) same
              ∙ sym (ap (λ v. char 34 tt ∷ v) (append.nil (u ++ "\"")))
              ∙ sym (append.cons (char 34 tt) [] (u ++ "\"")),
        )

-- The text between the quotes, or the whole text when it is not between quotes.
abbrev pub Unquoted : String → String → Type 0
Unquoted raw v =
    ((body : String) × (raw ≡ quoted body) × (v ≡ body))
    ⊎ (((body : String) → raw ≢ quoted body) × (v ≡ raw))

pub strip_quotes-Unquoted : (raw : String) → Unquoted raw (strip_quotes raw)
unfolding strip_quotes
strip_quotes-Unquoted raw = elim (Bool-cases (in_quotes raw)) [
  | inl t ↦
      let (body, between) =
        quoted-ends raw (leb→le 2 (len raw) (ground (arith, t)))
          ((eq_iff (slice raw 0 1) "\"").0 (ground (arith, t)))
          ((eq_iff (slice raw (len raw - 1) (len raw)) "\"").0 (ground (arith, t))) in
      inl (body, between, ap strip_quotes between ∙ strip_quotes-quoted body)
  | inr f ↦ inr (
    λ body between.
        let both : true ≡ false = sym (in_quotes-quoted body) ∙ sym (ap in_quotes between) ∙ f in
        ground (arith, both),
    rw f refl,
  )
]
