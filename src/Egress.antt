-- ===== src/Egress.antt =====
-- src/harness/egress/telegram.py: the text of a reply, in chunks that Telegram accepts. What the
-- bot does with a send is the bot's; the messages handed to it are the list that `outgoing` gives.
pub mod Chunks
pub mod Limit
use overwatch_harness.Prelude.{
  ℕ, zero, suc, ◌+◌, ◌/◌, Bool, Option, none, some, List, [], ◌∷◌, ◌++◌, ltb, leb, ◌==◌, length,
  take, drop, if◌then◌else◌,
}
use overwatch_harness.Text.{Text, codes, lstrip_newlines, str, is_blank}
use overwatch_harness.Text.Int.{ℤ}

-- `_MAX_CHUNK`
abbrev pub max_chunk_default : ℕ
max_chunk_default = 3800

abbrev pub session_label : Option ℕ → Text
session_label none = codes "—"
session_label (some k) = codes "s" ++ str k

unfoldable pub format_prefix : ℕ → Option ℕ → Text → Text
format_prefix engagement_id session_id mode =
    codes "[engagement #"
    ++ (str engagement_id
        ++ (codes " · session "
            ++ (session_label session_id ++ (codes " · " ++ (mode ++ codes "]\n")))))

-- `s.rfind("\n", 0, n)`, with none for -1
unfoldable pub rfind_newline : ℕ → Text → Option ℕ
rfind_newline zero s = none
rfind_newline (suc n) [] = none
rfind_newline (suc n) (c ∷ s) = elim (rfind_newline n s) [
  | some i ↦ some (suc i)
  | none ↦ if c == b'\n' then some 0 else none
]

-- Where the loop of `chunk_text` cuts.
unfoldable pub cut_at : ℕ → Text → ℕ
unfolding rfind_newline
cut_at max_chunk remaining = elim (rfind_newline max_chunk remaining) [
  | none ↦ max_chunk
  | some i ↦ if ltb i (max_chunk / 2) then max_chunk else i
]

abbrev pub push : Text → Option (List Text) → Option (List Text)
push chunk none = none
push chunk (some out) = some (chunk ∷ out)

-- The loop of `chunk_text` and the append behind it; none if the fuel runs out.
unfoldable pub split_rest : ℕ → ℕ → Text → Option (List Text)
unfolding cut_at lstrip_newlines
split_rest zero max_chunk remaining = none
split_rest (suc fuel) max_chunk remaining =
    let cut = cut_at max_chunk remaining in
    let rest = split_rest fuel max_chunk (lstrip_newlines (drop cut remaining)) in
    if ltb max_chunk (length remaining)
    then push (take cut remaining) rest
    else if is_blank remaining
    then some []
    else some (remaining ∷ [])

-- `chunk_text`, with one round of fuel for each character and one for the end.
unfoldable pub chunk_text : ℕ → Text → Option (List Text)
unfolding split_rest
chunk_text max_chunk body =
    if leb (length body) max_chunk
    then some (body ∷ [])
    else split_rest (suc (length body)) max_chunk body

abbrev pub marker : ℕ → ℕ → Text
marker i n = codes "\n\n(part " ++ (str i ++ (codes "/" ++ (str n ++ codes ")")))

-- The chunks from number `i` on, each with its marker.
unfoldable pub mark_from : ℕ → ℕ → List Text → List Text
mark_from i n [] = []
mark_from i n (c ∷ cs) = (c ++ marker i n) ∷ mark_from (suc i) n cs

unfoldable pub with_part_marker : List Text → List Text
unfolding mark_from
with_part_marker chunks =
    if leb (length chunks) 1 then chunks else mark_from 1 (length chunks) chunks

-- What the bot is asked to send.
pub record Outgoing : Type 0 where
  pub chat_id : ℤ
  pub text : Text
  pub reply_to_message_id : Option ℕ

-- Only the first chunk is threaded.
unfoldable pub thread : ℤ → Option ℕ → List Text → List Outgoing
thread chat_id reply_to [] = []
thread chat_id reply_to (c ∷ cs) =
    (record { chat_id = chat_id; text = c; reply_to_message_id = reply_to })
    ∷ thread chat_id none cs

-- `text or "(empty reply)"`
abbrev pub or_empty : Text → Text
or_empty [] = codes "(empty reply)"
or_empty (c ∷ t) = c ∷ t

abbrev pub reply_body : Text → ℕ → Option ℕ → Text → Text
reply_body text engagement_id session_id mode =
    format_prefix engagement_id session_id mode ++ or_empty text

abbrev pub marked : Option (List Text) → List Text
marked none = []
marked (some chunks) = with_part_marker chunks

-- The sends of `send_reply`, in order.
unfoldable pub outgoing : ℤ → Text → Option ℕ → ℕ → Option ℕ → Text → List Outgoing
unfolding format_prefix chunk_text with_part_marker thread
outgoing chat_id text reply_to engagement_id session_id mode =
    thread chat_id reply_to
      (marked (chunk_text max_chunk_default (reply_body text engagement_id session_id mode)))
