-- ===== src/Ledger/Pending.antt =====
-- `list_pending_on_startup` of src/harness/db.py.
use mathlib.Core.List.{Perm, reverse, reverse_perm, perm_middle, reverse-cons}
use mathlib.Core.List.Perm
use overwatch_harness.Prelude.{
  Bool, true, false, not, List, [], ◌∷◌, ◌++◌, All, All-append, select, ◌≡◌, ◌⊎◌, refl, inl, inr,
  Bool-cases,
}
use overwatch_harness.Prelude.Sorting.{Ascending, sort_by-perm, sort_by-All, sort_by-Ascending}
use overwatch_harness.Models.{Message, MessageStatus, received, classifying}
use overwatch_harness.Ledger.Db.{Db}
use overwatch_harness.Ledger.Messages.{is_pending, list_pending_on_startup}

-- A message that was not routed yet.
abbrev pub Waiting : Message → Type 0
Waiting m = (m.status ≡ received) ⊎ (m.status ≡ classifying)

-- A message that was routed, or has come to an end.
abbrev pub Past : Message → Type 0
Past m = Waiting m → ⊥

pending-Waiting : (m : Message) → is_pending m ≡ true → Waiting m
pending-Waiting m h = go m.status h
  where
    go :
        (s : MessageStatus)
        → (elim s [ received ↦ true | classifying ↦ true | _ ↦ false ]) ≡ true
        → (s ≡ received) ⊎ (s ≡ classifying)
    go MessageStatus.received h = inl refl
    go MessageStatus.classifying h = inr refl
    go MessageStatus.routed h = absurd cc
    go MessageStatus.failed h = absurd cc
    go MessageStatus.dead_letter h = absurd cc
    go MessageStatus.done h = absurd cc

other-Past : (m : Message) → is_pending m ≡ false → Past m
other-Past m h (inl arrived) = let wrong : true ≡ false = rw arrived at h in absurd cc
other-Past m h (inr begun) = let wrong : true ≡ false = rw begun at h in absurd cc

-- The rest of the table.
abbrev others : Message → Bool
others m = not (is_pending m)

select-Waiting : (ms : List Message) → All Waiting (select is_pending ms)
select-Waiting [] = tt
select-Waiting (m ∷ ms) = elim (Bool-cases (is_pending m)) [
  | inl hit ↦ rw hit (pending-Waiting m hit, select-Waiting ms)
  | inr miss ↦ rw miss (select-Waiting ms)
]

select-Past : (ms : List Message) → All Past (select others ms)
select-Past [] = tt
select-Past (m ∷ ms) = elim (Bool-cases (is_pending m)) [
  | inl hit ↦ rw hit (select-Past ms)
  | inr miss ↦ rw miss (other-Past m miss, select-Past ms)
]

split-perm : (ms : List Message) → Perm (select is_pending ms ++ select others ms) ms
split-perm [] = Perm.rfl
split-perm (m ∷ ms) = elim (Bool-cases (is_pending m)) [
  | inl hit ↦ rw hit (Perm.cons m (split-perm ms))
  | inr miss ↦ rw miss (
      Perm.trans (perm_middle (select is_pending ms) (select others ms))
        (Perm.cons m (split-perm ms)))
]

reverse-Waiting : (ms : List Message) → All Waiting ms → All Waiting (reverse ms)
reverse-Waiting [] h = tt
reverse-Waiting (m ∷ ms) h =
    rw (reverse-cons m ms)
      (All-append Waiting (reverse ms) (m ∷ []) (reverse-Waiting ms h.1) (h.0, tt))

-- The table is, up to the order of its rows, what `list_pending_on_startup` returns and a rest. The
-- status of each message that it returns is received or classifying, and that of no message of the
-- rest is. It returns them in the order of their arrival times.
pub pending_on_startup :
    (db : Db)
    → (rest : List Message) × Perm (list_pending_on_startup db ++ rest) db.messages
      × All Waiting (list_pending_on_startup db)
      × All Past rest
      × Ascending (λ (m : Message). m.received_at) (list_pending_on_startup db)
unfolding list_pending_on_startup
pending_on_startup db =
    let found = select is_pending db.messages in
    let rest = select others db.messages in
    (
      rest,
      Perm.trans (Perm.append_right rest (Perm.trans (sort_by-perm _ _) (reverse_perm found)))
          (split-perm db.messages),
      sort_by-All (λ m. m.received_at) Waiting (reverse found)
          (reverse-Waiting found (select-Waiting db.messages)),
      select-Past db.messages,
      sort_by-Ascending (λ m. m.received_at) (reverse found),
    )
