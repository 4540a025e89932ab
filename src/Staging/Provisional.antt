-- ===== src/Staging/Provisional.antt =====
-- internal/staging/provisional.go. An identifier is the number of its 16 bytes, the first the highest,
-- so that byte 8 starts at 2 ^ 56.
use deploy_sentry.Base.{
  if◌then◌else◌, nat_beq_iff, ◌==◌, nat_eq, string_eq, ℕ, ◌+◌, ◌*◌, ◌/◌, ◌%◌, ◌≤◌, ◌<◌, ◌≡◌, ap,
  ◌∙◌, ◌≢◌, Bool, true, false, not, arith,
}

unfoldable pub byte_8 : ℕ → ℕ
byte_8 u = u / 72057594037927936 % 256

-- `u[8] = b`
unfoldable pub set_byte_8 : ℕ → ℕ → ℕ
set_byte_8 u b =
    u / 18446744073709551616 * 18446744073709551616 + b * 72057594037927936 + u % 72057594037927936

-- `(u[8] & 0x3f) | 0xc0` of the identifier that `uuid.New()` returned.
unfoldable pub new_provisional : ℕ → ℕ
new_provisional u = set_byte_8 u (byte_8 u % 64 + 192)

-- `id[8] & 0xc0 == 0xc0`, and not for `uuid.Nil`.
unfoldable pub is_provisional : ℕ → Bool
is_provisional id = if id == 0 then false else byte_8 id / 64 == 3

-- `false` for the panic.
unfoldable pub must_not_be_provisional : ℕ → Bool
must_not_be_provisional id = not (is_provisional id)

-- An identifier of the RFC 4122 variant: its byte 8 starts with the bits 10.
abbrev pub IsRfc : ℕ → Type 0
IsRfc u = byte_8 u / 64 ≡ 2

-- The identifier of the RFC 4122 variant that a provisional one was made of.
unfoldable pub as_rfc : ℕ → ℕ
as_rfc u = set_byte_8 u (byte_8 u % 64 + 128)

byte_8-set_byte_8 : (u b : ℕ) → b < 256 → byte_8 (set_byte_8 u b) ≡ b
unfolding byte_8 set_byte_8
byte_8-set_byte_8 u b small = high (u / 18446744073709551616) (u % 72057594037927936) (omega arith)
  where
    high :
        (q r : ℕ)
        → r < 72057594037927936
        → (q * 18446744073709551616 + b * 72057594037927936 + r) / 72057594037927936 % 256 ≡ b
    high q r less = omega (arith, small)

set_byte_8-set_byte_8 : (u b c : ℕ) → b < 256 → set_byte_8 (set_byte_8 u b) c ≡ set_byte_8 u c
unfolding set_byte_8
set_byte_8-set_byte_8 u b c small =
    both (u / 18446744073709551616) (u % 72057594037927936) (omega arith)
  where
    both :
        (q r : ℕ)
        → r < 72057594037927936
        → (q * 18446744073709551616 + b * 72057594037927936 + r)
              / 18446744073709551616
              * 18446744073709551616
            + c * 72057594037927936
            + (q * 18446744073709551616 + b * 72057594037927936 + r) % 72057594037927936
          ≡ q * 18446744073709551616 + c * 72057594037927936 + r
    both q r less = omega (arith, small)

set_byte_8-byte_8 : (u : ℕ) → set_byte_8 u (byte_8 u) ≡ u
unfolding byte_8 set_byte_8
set_byte_8-byte_8 u = omega arith

set_byte_8-bound :
    (u b : ℕ)
    → u < 340282366920938463463374607431768211456
    → b < 256
    → set_byte_8 u b < 340282366920938463463374607431768211456
unfolding set_byte_8
set_byte_8-bound u b bound small = omega (arith, bound, small)

set_byte_8-nonzero : (u b : ℕ) → b < 256 → 1 ≤ b → set_byte_8 u b ≢ 0
unfolding set_byte_8
set_byte_8-nonzero u b small some_bits = omega (arith, small, some_bits)

pub is_provisional-new_provisional : (u : ℕ) → is_provisional (new_provisional u) ≡ true
unfolding is_provisional new_provisional
is_provisional-new_provisional u =
    let b : ℕ = byte_8 u % 64 + 192 in
    let small : b < 256 = omega arith in
    let high : b / 64 ≡ 3 = omega arith in
    let full : b ≢ 0 = omega arith in
    ground (
      arith,
      byte_8-set_byte_8 u b small,
      set_byte_8-nonzero u b small (omega arith),
      nat_beq_iff (set_byte_8 u b) 0,
      nat_beq_iff (byte_8 (set_byte_8 u b) / 64) 3,
    )

as_rfc-new_provisional : (u : ℕ) → IsRfc u → as_rfc (new_provisional u) ≡ u
unfolding as_rfc new_provisional
as_rfc-new_provisional u rfc =
    let b : ℕ = byte_8 u % 64 + 192 in
    let small : b < 256 = omega arith in
    let back : b % 64 + 128 ≡ byte_8 u = low (byte_8 u) rfc in
    ap (λ x. set_byte_8 (set_byte_8 u b) (x % 64 + 128)) (byte_8-set_byte_8 u b small)
    ∙ set_byte_8-set_byte_8 u b (b % 64 + 128) small
    ∙ ap (set_byte_8 u) back
    ∙ set_byte_8-byte_8 u
  where
    low : (x : ℕ) → x / 64 ≡ 2 → (x % 64 + 192) % 64 + 128 ≡ x
    low x two = omega (arith, two)

is_provisional-IsRfc : (u : ℕ) → IsRfc u → is_provisional u ≡ false
unfolding is_provisional
is_provisional-IsRfc u rfc = ground (arith, rfc, nat_beq_iff (byte_8 u / 64) 3)

-- A provisional identifier that is made of one of the RFC 4122 variant below 2 ^ 128 is recognized,
-- stays below 2 ^ 128, and gives back the one it was made of, which is not provisional itself.
pub new_provisional_roundtrip :
    (u : ℕ)
    → u < 340282366920938463463374607431768211456
    → IsRfc u
    → (is_provisional (new_provisional u) ≡ true)
      × (new_provisional u < 340282366920938463463374607431768211456)
      × (as_rfc (new_provisional u) ≡ u)
      × (is_provisional u ≡ false)
unfolding new_provisional
new_provisional_roundtrip u bound rfc = (
  is_provisional-new_provisional u,
  set_byte_8-bound u (byte_8 u % 64 + 192) bound (omega arith),
  as_rfc-new_provisional u rfc,
  is_provisional-IsRfc u rfc,
)
