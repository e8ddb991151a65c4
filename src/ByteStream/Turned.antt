-- ===== src/ByteStream/Turned.antt =====
-- A number below M * P, cut at M, and its two parts put together the other way round.
use native.Mathlib.Nat.{
  pow-suc, div-add-mod', add-mul-mod_self_right, mod-eq_of_lt, mul_comm, div-lt_iff_lt-mul,
  add-mul-div_right, div-eq_of_lt, mod-lt,
}
use libcthreads.Common.{ℕ, zero, suc, ◌+◌, ◌*◌, ◌/◌, ◌%◌, ◌^◌, ◌<◌, ◌≡◌, ◌∙◌, ap, sym, subst, arith}

pub pow_add : (k n : ℕ) → 2 ^ (k + n) ≡ 2 ^ k * 2 ^ n
pow_add zero n = subst (λ t. 2 ^ t ≡ 1 * 2 ^ n) {x = n} (omega arith) (omega arith)
pow_add (suc k) n =
    ap (λ t. 2 ^ t) {y = suc (k + n)} (omega arith)
    ∙ grind (arith, pow_add k n, pow-suc 2 (k + n), pow-suc 2 k)

spread : (q r M P : ℕ) → (q * M + r) * P ≡ r * P + q * (M * P)
spread q r M P = grind arith

-- A number below M * P, cut into the part below M and the rest.
module _ (M P x : ℕ) (hm : 0 < M) (hp : 0 < P) (h : x < M * P) where
  pub rest-lt : x / M < P
  rest-lt = (div-lt_iff_lt-mul hm).1 (omega (arith, mul_comm M P))

  pub low-lt : x % M * P + x / M < M * P
  low-lt = grind (arith, rest-lt, mod-lt x hm)

  cut : x * P ≡ x % M * P + x / M * (M * P)
  cut = ap (λ t. t * P) (sym (div-add-mod' x M)) ∙ spread (x / M) (x % M) M P

  pub shifted : x * P % (M * P) ≡ x % M * P
  shifted =
      ap (λ t. t % (M * P)) cut
      ∙ add-mul-mod_self_right (x % M * P) (x / M) (M * P)
      ∙ mod-eq_of_lt (omega (arith, low-lt))

  pub joined : (x * P + x / M) % (M * P) ≡ x % M * P + x / M
  joined =
      ap (λ t. t % (M * P)) (omega (arith, cut))
      ∙ add-mul-mod_self_right (x % M * P + x / M) (x / M) (M * P)
      ∙ mod-eq_of_lt low-lt

  -- Cut at P, the turned number gives back the two parts.
  pub turned-div : (x % M * P + x / M) / P ≡ x % M
  turned-div =
      ap (λ t. t / P) {y = x / M + x % M * P} (omega arith)
      ∙ add-mul-div_right (x / M) (x % M) hp
      ∙ omega (arith, div-eq_of_lt rest-lt)

  pub turned-mod : (x % M * P + x / M) % P ≡ x / M
  turned-mod =
      ap (λ t. t % P) {y = x / M + x % M * P} (omega arith)
      ∙ add-mul-mod_self_right (x / M) (x % M) P
      ∙ mod-eq_of_lt rest-lt

-- The number with its lowest `low` bits moved above the others, `high` in number.
abbrev pub turned : ℕ → ℕ → ℕ → ℕ
turned low high x = x % 2 ^ low * 2 ^ high + x / 2 ^ low
