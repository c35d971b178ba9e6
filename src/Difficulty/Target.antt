-- ===== src/Difficulty/Target.antt =====
-- difficulty.h: `beats_target` and the number that a hash spells.
use pettycoin.Base.{
  ℕ, zero, suc, ◌+◌, ◌-◌, ◌*◌, ◌%◌, ◌^◌, ◌<◌, ◌≤◌, ◌≡◌, ◌↔◌, inl, inr, refl, ap, ◌∙◌, Bool, true,
  false, not, ◌&&◌, ◌||◌, none, some, [], ◌∷◌, arith, bit_or, ltb, ◌==◌, if◌then◌else◌, ltb→lt,
  lt→ltb, ltb→ge, ge→ltb, Bool-cases, length, get_or, take, drop, All, shl, shr, Bytes, IsByte,
  bit_or-shl, bit_and-mask,
}
use native.Mathlib.Nat.{pow-suc, mul-le-mul_right}
use pettycoin.Difficulty.{decode_difficulty, all_zero, beats_target}

-- The number that the bytes spell, the lowest first.
unfoldable pub le_value : Bytes → ℕ
le_value [] = 0
le_value (b ∷ bs) = b + 256 * le_value bs

-- 256 ^ k, in the form in which the shifts of the code have it.
pub pow_bytes : (k : ℕ) → 2 ^ (k * 8) ≡ 256 ^ k
pow_bytes zero = refl
pow_bytes (suc k) =
    let more : suc k * 8 ≡ suc (suc (suc (suc (suc (suc (suc (suc (k * 8)))))))) = omega arith in
    rw more (simp pow-suc (omega (arith, pow_bytes k)))

-- The low `k` bytes are less than the unit of the others.
le_value_split :
    (k : ℕ) (sha : Bytes)
    → All IsByte sha
    → k ≤ length sha
    → (le_value sha ≡ le_value (take k sha) + le_value (drop k sha) * 256 ^ k)
      × (le_value (take k sha) < 256 ^ k)
unfolding le_value
le_value_split zero sha h room = (omega arith, omega arith)
le_value_split (suc k) [] h room = absurd (omega arith)
le_value_split (suc k) (b ∷ bs) h room =
    let (sum, small) = le_value_split k bs h.1 (omega arith) in
    let unit : le_value (drop k bs) * 256 ^ suc k ≡ 256 * (le_value (drop k bs) * 256 ^ k) =
      omega (arith, ap (λ (u : ℕ). le_value (drop k bs) * u) (pow-suc 256 k)) in
    (omega arith, omega (arith, pow-suc 256 k, h.0))

-- The three bytes from `k` on, and what is behind them.
drop_three :
    (k : ℕ) (sha : Bytes)
    → k + 3 ≤ length sha
    → drop k sha
      ≡ get_or sha k 0
        ∷ get_or sha (suc k) 0
        ∷ get_or sha (suc (suc k)) 0
        ∷ drop (suc (suc (suc k))) sha
drop_three k [] room = absurd (omega arith)
drop_three zero (a ∷ []) room = absurd (omega arith)
drop_three zero (a ∷ b ∷ []) room = absurd (omega arith)
drop_three zero (a ∷ b ∷ d ∷ sha) room = refl
drop_three (suc k) (b ∷ bs) room = drop_three k bs (omega arith)

get_or_byte : (sha : Bytes) (i : ℕ) → All IsByte sha → get_or sha i 0 < 256
get_or_byte [] i h = omega arith
get_or_byte (b ∷ bs) zero h = h.0
get_or_byte (b ∷ bs) (suc i) h = get_or_byte bs i h.1

all_zero-le_value : (bs : Bytes) → (all_zero bs ≡ true) ↔ (le_value bs ≡ 0)
unfolding all_zero le_value
all_zero-le_value [] = (λ _. refl, λ _. refl)
all_zero-le_value (b ∷ bs) =
    (λ h. ground (arith, (all_zero-le_value bs).0), λ h. ground (arith, (all_zero-le_value bs).1))

join_three :
    (a b d : ℕ)
    → a < 256
    → b < 256
    → bit_or (bit_or (shl d 16) (shl b 8)) a ≡ a + 256 * b + 65536 * d
join_three a b d ha hb =
    let inner : bit_or (d * 65536) (b * 256) ≡ d * 65536 + b * 256 =
      bit_or-shl 16 d (b * 256) (omega arith) in
    let outer : bit_or ((d * 256 + b) * 256) a ≡ (d * 256 + b) * 256 + a =
      bit_or-shl 8 (d * 256 + b) a (omega arith) in
    let same : d * 65536 + b * 256 ≡ (d * 256 + b) * 256 = omega arith in
    rw (inner, same, outer) (omega arith)

-- A number of `k` low digits below another, both scaled by their unit.
scaled_lt : (low a m unit : ℕ) → low < unit → (low + a * unit < m * unit) ↔ (a < m)
scaled_lt low a m unit small = (down, up)
  where
    down : low + a * unit < m * unit → a < m
    down h = elim (Bool-cases (ltb a m)) [
      | inl lt ↦ ltb→lt a m lt
      | inr ge ↦ absurd (omega (arith, mul-le-mul_right unit (ltb→ge a m ge)))
    ]

    up : a < m → low + a * unit < m * unit
    up h = omega (arith, mul-le-mul_right unit h)

-- The comparison of the whole numbers, by the parts that the code compares.
compare_parts :
    (value low a high m unit : ℕ)
    → value ≡ low + (a + 16777216 * high) * unit
    → low < unit
    → m < 16777216
    → ltb value (m * unit) ≡ (ltb a m && (high == 0))
compare_parts value low a high m unit e small fits =
    let (down, up) = scaled_lt low (a + 16777216 * high) m unit small in
    elim (Bool-cases (ltb (a + 16777216 * high) m)) [
      | inl lt ↦
          let below : value < m * unit = rw e (up (ltb→lt (a + 16777216 * high) m lt)) in
          rw (lt→ltb value (m * unit) below) (ground arith)
      | inr ge ↦
          let above : ¬ (value < m * unit) = λ h. absurd (ground (arith, down (rw e at h))) in
          rw (ge→ltb value (m * unit) (omega arith)) (ground arith)
    ]

pub target_is :
    (difficulty k : ℕ)
    → shr difficulty 24 ≡ k + 3
    → decode_difficulty difficulty ≡ some (difficulty % 2 ^ 24 * 256 ^ k)
unfolding decode_difficulty
target_is difficulty k e =
    let three : k + 3 - 3 ≡ k = omega arith in
    rw (e, ge→ltb (k + 3) 3 (omega arith), three, bit_and-mask 24 difficulty, pow_bytes k)

-- The ladder of `beats_target`, at an exponent in range.
answer :
    (exp : ℕ) (rest : Bytes) (less : Bool)
    → 3 ≤ exp
    → exp ≤ 32
    → (if ltb 32 exp || ltb exp 3
        then none
        else if not (all_zero rest)
        then some false
        else some less)
      ≡ some (less && (le_value rest == 0))
answer exp rest less low high =
    rw (ge→ltb 32 exp high, ge→ltb exp 3 low)
      (elim (Bool-cases (all_zero rest)) [
        | inl zeros ↦ rw (zeros, (all_zero-le_value rest).0 zeros) (ground arith)
        | inr more ↦ rw more (ground (arith, (all_zero-le_value rest).1))
      ])

beats_at :
    (sha : Bytes) (difficulty k : ℕ)
    → All IsByte sha
    → length sha ≡ 32
    → k ≤ 29
    → shr difficulty 24 ≡ k + 3
    → beats_target sha difficulty ≡ some (ltb (le_value sha) (difficulty % 2 ^ 24 * 256 ^ k))
unfolding beats_target le_value
beats_at sha difficulty k h len small e =
    let a = get_or sha k 0 in
    let b = get_or sha (suc k) 0 in
    let d = get_or sha (suc (suc k)) 0 in
    let rest = drop (suc (suc (suc k))) sha in
    let (sum, low) = le_value_split k sha h (omega arith) in
    let three : le_value (drop k sha) ≡ a + 256 * b + 65536 * d + 16777216 * le_value rest =
      rw (drop_three k sha (omega arith)) (omega arith) in
    let whole : le_value sha
        ≡ le_value (take k sha) + (a + 256 * b + 65536 * d + 16777216 * le_value rest) * 256 ^ k =
      sum ∙ ap (λ (v : ℕ). le_value (take k sha) + v * 256 ^ k) three in
    let e0 : k + 3 ≡ suc (suc (suc k)) = omega arith in
    let e1 : suc (suc (suc k)) - 1 ≡ suc (suc k) = omega arith in
    let e2 : suc (suc (suc k)) - 2 ≡ suc k = omega arith in
    let e3 : suc (suc (suc k)) - 3 ≡ k = omega arith in
    rw
      (
        compare_parts (le_value sha) (le_value (take k sha)) (a + 256 * b + 65536 * d)
            (le_value rest) (difficulty % 2 ^ 24) (256 ^ k) whole low (omega arith),
        e,
        e0,
        e1,
        e2,
        e3,
        join_three a b d (get_or_byte sha k h) (get_or_byte sha (suc k) h),
        bit_and-mask 24 difficulty,
      )
      (answer (suc (suc (suc k))) rest (ltb (a + 256 * b + 65536 * d) (difficulty % 2 ^ 24))
        (omega arith) (omega arith))

-- For a hash of 32 bytes and a difficulty with an exponent from 3 to 32, the code answers, and says that
-- the hash beats the target exactly if the little-endian number that the hash spells is below the target
-- of `decode_difficulty`.
pub beats_target-decode :
    (sha : Bytes) (difficulty : ℕ)
    → All IsByte sha
    → length sha ≡ 32
    → 3 ≤ shr difficulty 24
    → shr difficulty 24 ≤ 32
    → (target : ℕ) × (decode_difficulty difficulty ≡ some target)
      × (beats_target sha difficulty ≡ some (ltb (le_value sha) target))
unfolding beats_target
beats_target-decode sha difficulty h len low high =
    let k = shr difficulty 24 - 3 in
    let e : shr difficulty 24 ≡ k + 3 = omega arith in
    (_, target_is difficulty k e, beats_at sha difficulty k h len (omega arith) e)
