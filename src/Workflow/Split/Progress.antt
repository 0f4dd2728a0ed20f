-- ===== src/Workflow/Split/Progress.antt =====
-- The end that the splitting loop chooses: within the limit, not 0, and at the start of a rune.
use code_intelegence.Base.{
  ℕ, zero, suc, ◌≤◌, ◌<◌, ◌≡◌, refl, ◌⊎◌, inl, inr, true, false, some, [], ◌∷◌, arith, leb, length,
  Bool-cases, Option-cases, take, drop, length-take,
}
use code_intelegence.Workflow.Bytes.{
  Bytes, get, last_index, newline, rune_start, lead, lead_bounds, valid_from, valid, get-take,
  get-last_index, valid_from-drop-suc, valid_from-drop,
}
use code_intelegence.Workflow.Split.{back_off, chunk_end}

-- Once the bytes that a rune lacks are read, the next one starts a rune.
rune_start-valid_from :
    (n lo hi : ℕ) (s : Bytes)
    → n < length s
    → valid_from n lo hi s ≡ true
    → rune_start (get n s) ≡ true
unfolding valid_from get
rune_start-valid_from n lo hi [] h v = absurd (omega arith)
rune_start-valid_from zero lo hi (b ∷ s) h v = ground arith
rune_start-valid_from (suc n) lo hi (b ∷ s) h v =
    rune_start-valid_from n 128 191 s (omega arith) (ground arith)

back_off_le : (e : ℕ) (s : Bytes) → back_off e s ≤ e
unfolding back_off
back_off_le zero s = omega arith
back_off_le (suc e) s = ground (arith, back_off_le e s)

-- A rune that starts at j stops the loop at j or before.
back_off_ge : (j e : ℕ) (s : Bytes) → j ≤ e → rune_start (get j s) ≡ true → j ≤ back_off e s
unfolding back_off
back_off_ge j zero s h r = h
back_off_ge j (suc e) s h r = elim (Bool-cases (leb j e)) [
  | inl below ↦ ground (arith, back_off_ge j e s)
  | inr above ↦ let same : suc e ≡ j = ground arith in rw same (ground arith)
]

valid-drop_ascii :
    (i : ℕ) (s : Bytes)
    → i < length s
    → get i s < 128
    → valid s ≡ true
    → valid (drop (suc i) s) ≡ true
valid-drop_ascii i s l r v = valid_from-drop-suc 0 128 191 i s (omega arith) l r (unfold valid in v)

valid-drop_rune :
    (i : ℕ) (s : Bytes)
    → i < length s
    → rune_start (get i s) ≡ true
    → valid s ≡ true
    → valid (drop i s) ≡ true
valid-drop_rune i s l r v =
    valid_from-drop 0 128 191 i s (omega arith) (omega arith) l r (unfold valid in v)

valid-drop_all : (s : Bytes) → valid (drop (length s) s) ≡ true
unfolding valid valid_from drop
valid-drop_all [] = refl
valid-drop_all (b ∷ s) = valid-drop_all s

back_off-boundary :
    (e : ℕ) (s : Bytes) → e < length s → valid s ≡ true → valid (drop (back_off e s) s) ≡ true
unfolding back_off
back_off-boundary zero s h v = unfold drop in v
back_off-boundary (suc e) s h v =
    ground (arith, valid-drop_ascii e s, valid-drop_rune (suc e) s, back_off-boundary e s)

first_rune :
    (s : Bytes)
    → 4 < length s
    → valid s ≡ true
    → (j : ℕ) × (0 < j) × (j ≤ 4) × (rune_start (get j s) ≡ true)
unfolding valid valid_from get
first_rune [] h v = absurd (omega arith)
first_rune (b ∷ s) h v = elim (Option-cases (lead b)) [
  | inl none_read ↦ absurd (ground arith)
  | inr ((n, lo, hi), read) ↦
      let bounds = lead_bounds b n lo hi read in
      (
        suc n,
        omega arith,
        omega arith,
        rune_start-valid_from n lo hi s (omega arith) (ground arith),
      )
]

-- The newline that is found, in the text itself.
pub newline_found :
    (max i : ℕ) (s : Bytes)
    → max ≤ length s
    → last_index newline (take max s) ≡ some i
    → (i < max) × (get i s ≡ newline)
newline_found max i s h found =
    let (below, byte) = get-last_index newline (take max s) i found in
    let inside : i < max = omega (arith, length-take max s h) in
    (inside, omega (arith, get-take i max s inside))

pub chunk_end_fits : (max : ℕ) (s : Bytes) → length s ≤ max → chunk_end max s ≡ length s
unfolding chunk_end
chunk_end_fits max s h = let all : leb (length s) max ≡ true = ground arith in rw all refl

pub chunk_end_at :
    (max i : ℕ) (s : Bytes)
    → max < length s
    → 0 < i
    → last_index newline (take max s) ≡ some i
    → chunk_end max s ≡ suc i
unfolding chunk_end
chunk_end_at max zero s long pos found = absurd (omega arith)
chunk_end_at max (suc i) s long pos found =
    let not_all : leb (length s) max ≡ false = ground arith in rw (not_all, found) refl

-- The ways in which the end of a piece is chosen.
pub chunk_end-cases :
    (max : ℕ) (s : Bytes)
    → ((length s ≤ max) × (chunk_end max s ≡ length s))
      ⊎ ((max < length s)
          × (((i : ℕ) × (chunk_end max s ≡ suc i) × (i < max) × (get i s ≡ newline))
              ⊎ (chunk_end max s ≡ back_off max s)))
unfolding chunk_end
chunk_end-cases max s = elim (Bool-cases (leb (length s) max)) [
  | inl fits ↦ inl (ground arith, rw fits refl)
  | inr long ↦ rw long (
      inr (
        ground arith,
        elim (Option-cases (last_index newline (take max s))) [
          | inl missing ↦ rw missing (inr refl)
          | inr (zero, found) ↦ rw found (inr refl)
          | inr (suc i, found) ↦
              let at = newline_found max (suc i) s (ground arith) found in
              rw found (inl (suc i, refl, at.0, at.1))
        ],
      ))
]

pub chunk_end_le : (max : ℕ) (s : Bytes) → (chunk_end max s ≤ max) × (chunk_end max s ≤ length s)
chunk_end_le max s = ground (arith, chunk_end-cases max s, back_off_le max s)

pub chunk_end_pos :
    (max : ℕ) (s : Bytes) → 4 ≤ max → 0 < length s → valid s ≡ true → 0 < chunk_end max s
chunk_end_pos max s m h v = elim (chunk_end-cases max s) [
  | inl fits ↦ omega (arith, fits.1)
  | inr (long, inl (i, e, below, at)) ↦ omega (arith, e)
  | inr (long, inr e) ↦
      let (j, pos, few, starts) = first_rune s (omega arith) v in
      omega (arith, e, back_off_ge j max s (omega arith) starts)
]

pub valid-drop : (max : ℕ) (s : Bytes) → valid s ≡ true → valid (drop (chunk_end max s) s) ≡ true
valid-drop max s v = elim (chunk_end-cases max s) [
  | inl (h, e) ↦ rw e (valid-drop_all s)
  | inr (long, inl (i, e, below, at)) ↦
      rw e (valid-drop_ascii i s (omega arith) (omega (arith, at)) v)
  | inr (long, inr e) ↦ rw e (back_off-boundary max s long v)
]
