-- ===== src/Workflow/Bytes.antt =====
-- Go strings as lists of bytes, with the functions of `strings` and `unicode/utf8` that
-- backend-worker/internal/workflow calls.
use code_intelegence.Base.{
  ℕ, zero, suc, ◌+◌, ◌≤◌, ◌<◌, ◌≡◌, refl, Bool, true, false, not, ◌&&◌, Option, none, some, List,
  [], ◌∷◌, arith, leb, ltb, eqb, if◌then◌else◌, length, Option-cases, inl, inr, take, drop,
}

abbrev pub Bytes : Type 0
Bytes = List ℕ

-- s[n], for n < len(s)
unfoldable pub get : ℕ → Bytes → ℕ
get n [] = 0
get zero (b ∷ s) = b
get (suc n) (b ∷ s) = get n s

-- strings.LastIndex of a text of one byte
unfoldable pub last_index : ℕ → Bytes → Option ℕ
last_index c [] = none
last_index c (b ∷ s) = elim (last_index c s) [
  | some i ↦ some (suc i)
  | none ↦ if eqb b c then some 0 else none
]

-- strings.Count of a text of one byte
unfoldable pub count : ℕ → Bytes → ℕ
count c [] = 0
count c (b ∷ s) = (if eqb b c then 1 else 0) + count c s

-- b'\n'
abbrev pub newline : ℕ
newline = 10

-- utf8.RuneStart: b & 0xC0 != 0x80
abbrev pub rune_start : ℕ → Bool
rune_start b = not (leb 128 b && ltb b 192)

-- The first byte of a rune: how many bytes follow, and the bounds of the first of them.
abbrev pub lead : ℕ → Option (ℕ × ℕ × ℕ)
lead b =
    if ltb b 128
    then some (0, 128, 191)
    else if ltb b 194
    then none
    else if ltb b 224
    then some (1, 128, 191)
    else if eqb b 224
    then some (2, 160, 191)
    else if eqb b 237
    then some (2, 128, 159)
    else if ltb b 240
    then some (2, 128, 191)
    else if eqb b 240
    then some (3, 144, 191)
    else if ltb b 244
    then some (3, 128, 191)
    else if eqb b 244
    then some (3, 128, 143)
    else none

-- utf8.Valid, with the bytes that the rune read last still lacks.
unfoldable pub valid_from : ℕ → ℕ → ℕ → Bytes → Bool
valid_from zero lo hi [] = true
valid_from (suc n) lo hi [] = false
valid_from zero lo hi (b ∷ s) = elim (lead b) [
  | none ↦ false
  | some (n, lo, hi) ↦ valid_from n lo hi s
]
valid_from (suc n) lo hi (b ∷ s) = leb lo b && (leb b hi && valid_from n 128 191 s)

-- The bounds of a byte that follows lie in the range of the bytes that do.
pub lead_bounds : (b n lo hi : ℕ) → lead b ≡ some (n, lo, hi) → (n ≤ 3) × (128 ≤ lo) × (hi < 192)
lead_bounds b n lo hi h = ground arith

unfoldable pub valid : Bytes → Bool
unfolding valid_from
valid s = valid_from 0 128 191 s

pub get-take : (i n : ℕ) (s : Bytes) → i < n → get i (take n s) ≡ get i s
unfolding get take
get-take i zero s h = absurd (omega arith)
get-take i (suc n) [] h = refl
get-take zero (suc n) (b ∷ s) h = refl
get-take (suc i) (suc n) (b ∷ s) h = get-take i n s (omega arith)

-- The index found lies in the text, and the byte is there.
pub get-last_index :
    (c : ℕ) (s : Bytes) (i : ℕ) → last_index c s ≡ some i → (i < length s) × (get i s ≡ c)
unfolding get last_index
get-last_index c [] i h = cc
get-last_index c (b ∷ s) zero h = ground (arith, get-last_index c s)
get-last_index c (b ∷ s) (suc i) h = ground (arith, get-last_index c s i)

-- A byte below 0x80 ends a rune: what follows it starts a new one.
pub valid_from-drop-suc :
    (n lo hi i : ℕ) (s : Bytes)
    → 128 ≤ lo
    → i < length s
    → get i s < 128
    → valid_from n lo hi s ≡ true
    → valid (drop (suc i) s) ≡ true
unfolding valid valid_from drop get
valid_from-drop-suc n lo hi i [] p q r v = absurd (omega arith)
valid_from-drop-suc zero lo hi zero (b ∷ s) p q r v = ground arith
valid_from-drop-suc zero lo hi (suc i) (b ∷ s) p q r v = elim (Option-cases (lead b)) [
  | inl none_read ↦ absurd (ground arith)
  | inr ((n, lo', hi'), read) ↦
      let bounds = lead_bounds b n lo' hi' read in
      valid_from-drop-suc n lo' hi' i s bounds.1 (omega arith) r (ground arith)
]
valid_from-drop-suc (suc n) lo hi zero (b ∷ s) p q r v = absurd (ground arith)
valid_from-drop-suc (suc n) lo hi (suc i) (b ∷ s) p q r v =
    valid_from-drop-suc n 128 191 i s (omega arith) (omega arith) r (ground arith)

-- A rune may start only where no byte is lacking.
pub valid_from-drop :
    (n lo hi i : ℕ) (s : Bytes)
    → 128 ≤ lo
    → hi < 192
    → i < length s
    → rune_start (get i s) ≡ true
    → valid_from n lo hi s ≡ true
    → valid (drop i s) ≡ true
unfolding valid valid_from drop get
valid_from-drop n lo hi i [] p q l r v = absurd (omega arith)
valid_from-drop zero lo hi zero (b ∷ s) p q l r v = v
valid_from-drop zero lo hi (suc i) (b ∷ s) p q l r v = elim (Option-cases (lead b)) [
  | inl none_read ↦ absurd (ground arith)
  | inr ((n, lo', hi'), read) ↦
      let bounds = lead_bounds b n lo' hi' read in
      valid_from-drop n lo' hi' i s bounds.1 bounds.2 (omega arith) r (ground arith)
]
valid_from-drop (suc n) lo hi zero (b ∷ s) p q l r v = absurd (ground arith)
valid_from-drop (suc n) lo hi (suc i) (b ∷ s) p q l r v =
    valid_from-drop n 128 191 i s (omega arith) (omega arith) (omega arith) r (ground arith)
