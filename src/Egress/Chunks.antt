-- ===== src/Egress/Chunks.antt =====
-- `chunk_text` ends, keeps every character but newlines at its cuts, and respects the limit.
use overwatch_harness.Prelude.{
  ℕ, zero, suc, ◌≤◌, ◌<◌, some, List, [], ◌∷◌, ◌++◌, All, ltb, leb, ◌==◌, length, take, drop,
  take-append-drop, length-take-le, length-drop, if◌then◌else◌, ◌≡◌, refl, sym, arith, Bool-cases,
  Option-cases, append-nil, inl, inr,
}
use overwatch_harness.Text.{Text, lstrip_newlines, is_blank}
use overwatch_harness.Egress.{rfind_newline, cut_at, split_rest, chunk_text}

abbrev pub Newlines : Text → Type 0
Newlines = All (λ c. c ≡ b'\n')

-- The pieces spell the text, with nothing but newlines between them and behind the last one.
abbrev pub Spells : Text → List Text → Type 0
Spells s [] = s ≡ []
Spells s (p ∷ ps) =
    (gap : Text) × (rest : Text) × (s ≡ p ++ (gap ++ rest)) × Newlines gap × Spells rest ps

stripped : Text → Text
stripped [] = []
stripped (c ∷ s) = if c == b'\n' then c ∷ stripped s else []

stripped-append : (s : Text) → s ≡ stripped s ++ lstrip_newlines s
unfolding stripped lstrip_newlines
stripped-append [] = refl
stripped-append (c ∷ s) = ground (arith, stripped-append s)

stripped-Newlines : (s : Text) → Newlines (stripped s)
unfolding stripped
stripped-Newlines [] = tt
stripped-Newlines (c ∷ s) = ground (arith, stripped-Newlines s)

length-lstrip-le : (s : Text) → length (lstrip_newlines s) ≤ length s
unfolding lstrip_newlines
length-lstrip-le [] = omega arith
length-lstrip-le (c ∷ s) = ground (arith, length-lstrip-le s)

rfind_newline-lt : (n : ℕ) (s : Text) {i : ℕ} → rfind_newline n s ≡ some i → i < n
unfolding rfind_newline
rfind_newline-lt zero s h = cc
rfind_newline-lt (suc n) [] h = cc
rfind_newline-lt (suc n) (c ∷ s) {i} h = elim (Option-cases (rfind_newline n s)) [
  | inl e ↦ ground arith
  | inr (j, e) ↦ ground (arith, rfind_newline-lt n s {i = j} e)
]

-- A cut at 0 is before a newline, so that the strip behind it makes progress.
rfind_newline-zero : (n : ℕ) (s : Text) → rfind_newline n s ≡ some 0 → (t : Text) × (s ≡ b'\n' ∷ t)
unfolding rfind_newline
rfind_newline-zero zero s h = cc
rfind_newline-zero (suc n) [] h = cc
rfind_newline-zero (suc n) (c ∷ s) h = (s, ground arith)

cut_at-le : (max_chunk : ℕ) (s : Text) → cut_at max_chunk s ≤ max_chunk
unfolding cut_at
cut_at-le max_chunk s = elim (Option-cases (rfind_newline max_chunk s)) [
  | inl e ↦ ground arith
  | inr (i, e) ↦ ground (arith, rfind_newline-lt max_chunk s {i = i} e)
]

cut_at-zero :
    (max_chunk : ℕ) (s : Text)
    → 1 ≤ max_chunk
    → cut_at max_chunk s ≡ 0
    → (t : Text) × (s ≡ b'\n' ∷ t)
unfolding cut_at
cut_at-zero max_chunk s pos h = elim (Option-cases (rfind_newline max_chunk s)) [
  | inl e ↦ absurd (ground arith)
  | inr (i, e) ↦ rfind_newline-zero max_chunk s (ground arith)
]

length-lstrip-lt : (s t : Text) → s ≡ b'\n' ∷ t → length (lstrip_newlines s) < length s
length-lstrip-lt s t e = rw e (
    let shorter : length (lstrip_newlines t) ≤ length t = length-lstrip-le t in
    unfold lstrip_newlines in omega (arith, shorter))

-- Each round of the loop leaves less to do.
progress :
    (max_chunk : ℕ) (s : Text)
    → 1 ≤ max_chunk
    → max_chunk < length s
    → length (lstrip_newlines (drop (cut_at max_chunk s) s)) < length s
progress max_chunk s pos long = elim (Bool-cases (cut_at max_chunk s == 0)) [
  | inl zero_cut ↦
      let none_cut : cut_at max_chunk s ≡ 0 = ground arith in
      let (t, e) = cut_at-zero max_chunk s pos none_cut in rw none_cut (length-lstrip-lt s t e)
  | inr some_cut ↦
      let cut : ℕ = cut_at max_chunk s in
      let positive : 1 ≤ cut_at max_chunk s = ground arith in
      omega (
        arith,
        positive,
        length-lstrip-le (drop (cut_at max_chunk s) s),
        length-drop {0} (cut_at max_chunk s) s,
      )
]

-- What is claimed of the pieces of a text.
abbrev pub Pieces : ℕ → Text → List Text → Type 0
Pieces max_chunk s out = Spells s out × All (λ c. length c ≤ max_chunk) out

Spells-cons :
    (n : ℕ) (s : Text) (out : List Text)
    → Spells (lstrip_newlines (drop n s)) out
    → Spells s (take n s ∷ out)
Spells-cons n s out spelt = (
  stripped (drop n s),
  lstrip_newlines (drop n s),
  rw (← stripped-append (drop n s)) (sym (take-append-drop n s)),
  stripped-Newlines (drop n s),
  spelt,
)

-- One text that fits.
Pieces-one : (max_chunk : ℕ) (s : Text) → length s ≤ max_chunk → Pieces max_chunk s (s ∷ [])
Pieces-one max_chunk s h = (([], [], sym (append-nil s), tt, refl), (h, tt))

last_piece :
    (max_chunk : ℕ) (s : Text)
    → length s ≤ max_chunk
    → (out : List Text) × ((if is_blank s then some [] else some (s ∷ [])) ≡ some out)
      × Pieces max_chunk s out
last_piece max_chunk [] h = ([], refl, (refl, tt))
last_piece max_chunk (c ∷ s) h = ((c ∷ s) ∷ [], refl, Pieces-one max_chunk (c ∷ s) h)

split_rest_total :
    (fuel max_chunk : ℕ) (s : Text)
    → 1 ≤ max_chunk
    → length s < fuel
    → (out : List Text) × (split_rest fuel max_chunk s ≡ some out) × Pieces max_chunk s out
unfolding split_rest
split_rest_total zero max_chunk s pos h = absurd (omega arith)
split_rest_total (suc fuel) max_chunk s pos h = elim (Bool-cases (ltb max_chunk (length s))) [
  | inl long ↦
      let n : ℕ = cut_at max_chunk s in
      let shorter : length (lstrip_newlines (drop (cut_at max_chunk s) s)) < length s =
        progress max_chunk s pos (ground arith) in
      let (out, e, pieces) =
        split_rest_total fuel max_chunk (lstrip_newlines (drop (cut_at max_chunk s) s)) pos
          (omega arith) in
      (
        take (cut_at max_chunk s) s ∷ out,
        rw (long, e),
        (
          Spells-cons (cut_at max_chunk s) s out pieces.0,
          (
            omega (arith, length-take-le {0} (cut_at max_chunk s) s, cut_at-le max_chunk s),
            pieces.1,
          ),
        ),
      )
  | inr short ↦ rw short (last_piece max_chunk s (ground arith))
]

-- For every text and every limit of at least 1, `chunk_text` ends with a list of chunks, of which
-- none is longer than the limit, and which spell the text: each stands in it in order, and nothing
-- but newlines stands between two of them and behind the last one.
pub chunk_text_lossless :
    (max_chunk : ℕ) (body : Text)
    → 1 ≤ max_chunk
    → (out : List Text) × (chunk_text max_chunk body ≡ some out)
      × (Spells body out × All (λ c. length c ≤ max_chunk) out)
unfolding chunk_text
chunk_text_lossless max_chunk body pos = elim (Bool-cases (leb (length body) max_chunk)) [
  | inl short ↦ (body ∷ [], rw short, Pieces-one max_chunk body (ground arith))
  | inr long ↦ rw long (split_rest_total (suc (length body)) max_chunk body pos (omega arith))
]
