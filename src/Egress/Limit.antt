-- ===== src/Egress/Limit.antt =====
-- The sends of a reply keep to Telegram's limit of 4096 characters, markers included.
use overwatch_harness.Prelude.{
  ℕ, zero, suc, ◌+◌, ◌^◌, ◌≤◌, ◌<◌, Option, none, some, List, [], ◌∷◌, ◌++◌, All, All-map, length,
  length-append, ltb, leb, ◌≡◌, refl, arith, Bool-cases, inl, inr,
}
use overwatch_harness.Text.{Text, codes, str}
use overwatch_harness.Text.Int.{ℤ}
use overwatch_harness.Text.Decimal.{length-str-le}
use overwatch_harness.Egress.{
  push, split_rest, chunk_text, marker, mark_from, with_part_marker, max_chunk_default, Outgoing,
  thread, reply_body, outgoing,
}
use overwatch_harness.Egress.Chunks.{chunk_text_lossless}

length-push :
    (n : ℕ) (chunk : Text) (r : Option (List Text)) {out : List Text}
    → ((rest : List Text) → r ≡ some rest → length rest ≤ n)
    → push chunk r ≡ some out
    → length out ≤ suc n
length-push n chunk none h e = cc
length-push n chunk (some rest) {out} h e = ground (arith, h rest refl)

length-split_rest :
    (fuel max_chunk : ℕ) (s : Text) (out : List Text)
    → split_rest fuel max_chunk s ≡ some out
    → length out ≤ fuel
unfolding split_rest
length-split_rest zero max_chunk s out e = cc
length-split_rest (suc fuel) max_chunk s out e = elim (Bool-cases (ltb max_chunk (length s))) [
  | inl long ↦ length-push fuel _ _ {out = out} (length-split_rest fuel max_chunk _) (rw long at e)
  | inr short ↦ ground arith
]

length-chunk_text :
    (max_chunk : ℕ) (body : Text) (out : List Text)
    → chunk_text max_chunk body ≡ some out
    → length out ≤ suc (length body)
unfolding chunk_text
length-chunk_text max_chunk body out e = elim (Bool-cases (leb (length body) max_chunk)) [
  | inl short ↦ ground arith
  | inr long ↦ length-split_rest (suc (length body)) max_chunk body out (rw long at e)
]

-- A marker with numbers of at most 101 digits.
length-marker : (i n : ℕ) → i < 10 ^ 101 → n < 10 ^ 101 → length (marker i n) ≤ 212
length-marker i n hi hn =
    let a : length (str i) ≤ 101 = length-str-le 100 i hi in
    let b : length (str n) ≤ 101 = length-str-le 100 n hn in
    omega (
      arith,
      length-append {0} (str i) (codes "/" ++ (str n ++ codes ")")),
      length-append {0} (str n) (codes ")"),
      a,
      b,
    )

length-mark_from :
    (i n : ℕ) (cs : List Text)
    → i + length cs ≤ suc n
    → n < 10 ^ 101
    → All (λ c. length c ≤ max_chunk_default) cs
    → All (λ c. length c ≤ 4096) (mark_from i n cs)
unfolding mark_from
length-mark_from i n [] h big fits = tt
length-mark_from i n (c ∷ cs) h big fits = (
  omega (arith, length-append {0} c (marker i n), length-marker i n (omega arith) big, fits.0),
  length-mark_from (suc i) n cs (omega arith) big fits.1,
)

length-with_part_marker :
    (cs : List Text)
    → length cs < 10 ^ 101
    → All (λ c. length c ≤ max_chunk_default) cs
    → All (λ c. length c ≤ 4096) (with_part_marker cs)
unfolding with_part_marker
length-with_part_marker cs big fits = elim (Bool-cases (leb (length cs) 1)) [
  | inl one ↦ rw one (
      All-map (λ c. length c ≤ max_chunk_default) (λ c. length c ≤ 4096) cs (λ c h. omega arith)
        fits)
  | inr more ↦ rw more (length-mark_from 1 (length cs) cs (omega arith) big fits)
]

All-thread :
    (chat : ℤ) (reply_to : Option ℕ) (cs : List Text)
    → All (λ c. length c ≤ 4096) cs
    → All (λ (o : Outgoing). length o.text ≤ 4096) (thread chat reply_to cs)
unfolding thread
All-thread chat reply_to [] h = tt
All-thread chat reply_to (c ∷ cs) h = (h.0, All-thread chat none cs h.1)

-- No message that `send_reply` hands to the bot is longer than Telegram's 4096 characters, with
-- prefix and part marker counted, if prefix and text together have fewer than 10 ^ 100 characters.
pub outgoing_within_limit :
    (chat : ℤ) (text : Text) (reply_to : Option ℕ) (engagement : ℕ) (session : Option ℕ)
    (mode : Text)
    → length (reply_body text engagement session mode) < 10 ^ 100
    → All
        (λ (o : Outgoing). length o.text ≤ 4096)
        (outgoing chat text reply_to engagement session mode)
unfolding outgoing
outgoing_within_limit chat text reply_to engagement session mode small =
    let body : Text = reply_body text engagement session mode in
    let (out, e, pieces) =
      chunk_text_lossless max_chunk_default (reply_body text engagement session mode)
        (omega arith) in
    rw e (
      All-thread chat reply_to (with_part_marker out) (
        length-with_part_marker out (omega (arith, length-chunk_text max_chunk_default body out e))
          pieces.1))
