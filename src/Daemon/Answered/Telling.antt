-- ===== src/Daemon/Answered/Telling.antt =====
-- Actions that have told a chat something when they return.
use overwatch_harness.Prelude.{
  ℕ, true, Option, none, some, List, [], ◌∷◌, ◌++◌, append_assoc, sym, ◌≡◌, refl, inl, inr, arith,
  Bool-cases, leb, ltb, length,
}
use overwatch_harness.Text.{Text}
use overwatch_harness.Text.Int.{ℤ}
use overwatch_harness.Exec.{Result, ok, err, outside_error, continue}
use overwatch_harness.Egress.{
  Outgoing, chunk_text, split_rest, push, with_part_marker, mark_from, thread, outgoing,
  max_chunk_default, reply_body,
}
use overwatch_harness.Egress.Chunks.{chunk_text_lossless}
use overwatch_harness.Daemon.{World, Outside, Action, ◌>>=◌, send_all}
use overwatch_harness.Daemon.Keeps.{anything, Within, Keeps, Steps, SpawnSteps, Keeps-send_all}
use overwatch_harness.Daemon.Addressed.{Sends, Sends-steps, Sends-spawns}

-- A list that is not empty.
abbrev Some : {A : Type 0} → List A → Type 0
Some [] = ⊥
Some (x ∷ xs) = Unit

Some-push :
    (chunk : Text) (r : Option (List Text)) (out : List Text) → push chunk r ≡ some out → Some out
Some-push chunk none out e = absurd cc
Some-push chunk (some rest) out e = let same : chunk ∷ rest ≡ out = cc in rw (sym same) tt

Some-chunk_text :
    (max_chunk : ℕ) (body : Text) (out : List Text)
    → chunk_text max_chunk body ≡ some out
    → Some out
unfolding chunk_text split_rest
Some-chunk_text max_chunk body out e = elim (Bool-cases (leb (length body) max_chunk)) [
  | inl short ↦
      let one : some (body ∷ []) ≡ some out = rw short at e in
      let same : body ∷ [] ≡ out = cc in rw (sym same) tt
  | inr long ↦
      let more : ltb max_chunk (length body) ≡ true = ground (arith, long) in
      Some-push _ _ out (rw (long, more) at e)
]

Some-with_part_marker : (chunks : List Text) → Some chunks → Some (with_part_marker chunks)
unfolding with_part_marker mark_from
Some-with_part_marker [] h = h
Some-with_part_marker (c ∷ cs) h = elim (Bool-cases (leb (length (c ∷ cs)) 1)) [
  | inl one ↦ rw one tt
  | inr many ↦ rw many tt
]

-- A reply is at least one message, and the first goes to the chat.
abbrev pub FirstTo : ℤ → List Outgoing → Type 0
FirstTo chat [] = ⊥
FirstTo chat (o ∷ os) = o.chat_id ≡ chat

FirstTo-thread :
    (chat : ℤ) (reply_to : Option ℕ) (cs : List Text)
    → Some cs
    → FirstTo chat (thread chat reply_to cs)
unfolding thread
FirstTo-thread chat reply_to [] h = h
FirstTo-thread chat reply_to (c ∷ cs) h = refl

pub FirstTo-outgoing :
    (chat : ℤ) (text : Text) (reply_to : Option ℕ) (e : ℕ) (k : Option ℕ) (mode : Text)
    → FirstTo chat (outgoing chat text reply_to e k mode)
unfolding outgoing
FirstTo-outgoing chat text reply_to e k mode =
    let (out, cut, spelled) =
      chunk_text_lossless max_chunk_default (reply_body text e k mode) (omega arith) in
    rw cut (
      FirstTo-thread chat reply_to (with_part_marker out) (
        Some-with_part_marker out
          (Some-chunk_text max_chunk_default (reply_body text e k mode) out cut)))

-- The bot has taken a message to this chat in between.
pub record Told (chat : ℤ) (w w' : World) : Type 0 where
  pub before : List Outgoing
  pub message : Outgoing
  pub after : List Outgoing
  pub sent : w'.sent ≡ w.sent ++ (before ++ message ∷ after)
  pub to : message.chat_id ≡ chat

abbrev pub Goes : World → World → Type 0
Goes = Sends (λ o. Unit)

Told-later : (chat : ℤ) (a b c : World) → Goes a b → Told chat b c → Told chat a c
Told-later chat a b c g t = record {
  before = g.more ++ t.before;
  message = t.message;
  after = t.after;
  sent = rw (t.sent, g.sent, append_assoc, append_assoc) refl;
  to = t.to;
}

Told-earlier : (chat : ℤ) (a b c : World) → Told chat a b → Goes b c → Told chat a c
Told-earlier chat a b c t g = record {
  before = t.before;
  message = t.message;
  after = t.after ++ g.more;
  sent = rw (g.sent, t.sent, append_assoc, append_assoc) refl;
  to = t.to;
}

-- An action that has told the chat something, if it does not raise.
pub record Replies (chat : ℤ) (m : Action (Unit {0})) : Type 0 where
  pub at : (w : World) → (m w).0 ≡ ok tt → Told chat w (m w).1

module _ (chat : ℤ) where
  Replies-continue :
      {A : Type 0} (r : Result A) (f : A → Action (Unit {0}))
      → ((a : A) → Replies chat (f a))
      → Replies chat (continue r f)
  Replies-continue (ok a) f each = each a
  Replies-continue (err e) f each = record { at = λ w fits. absurd cc }

  -- A reply behind other parts.
  pub Replies-bind :
      {A : Type 0} (m : Action A) (f : A → Action (Unit {0}))
      → Keeps Goes m
      → ((a : A) → Replies chat (f a))
      → Replies chat (m >>= f)
  unfolding ◌>>=◌
  Replies-bind m f goes each = record {
    at = λ w fits.
        Told-later chat w (m w).1 _ (goes.at w) ((Replies-continue (m w).0 f each).at (m w).1 fits);
  }

  after_reply :
      (r : Result (Unit {0})) (f : Unit {0} → Action (Unit {0})) (a w : World)
      → (r ≡ ok tt → Told chat a w)
      → ((u : Unit {0}) → Keeps Goes (f u))
      → (continue r f w).0 ≡ ok tt
      → Told chat a (continue r f w).1
  after_reply (ok u) f a w told goes fits =
      Told-earlier chat a w (f u w).1 (told refl) ((goes u).at w)
  after_reply (err e) f a w told goes fits = absurd cc

  -- A reply before other parts.
  pub Replies-then :
      (m : Action (Unit {0})) (f : Unit {0} → Action (Unit {0}))
      → Replies chat m
      → ((u : Unit {0}) → Keeps Goes (f u))
      → Replies chat (m >>= f)
  unfolding ◌>>=◌
  Replies-then m f told goes = record {
    at = λ w fits. after_reply (m w).0 f w (m w).1 (told.at w) goes fits;
  }

pub sending_steps : Steps anything Goes
sending_steps = Sends-steps (λ o. Unit) anything (λ o to. tt)

pub sending_spawns : SpawnSteps anything Goes
sending_spawns = Sends-spawns (λ o. Unit) anything

pub Replies-send_all :
    (out : Outside) (chat : ℤ) (os : List Outgoing)
    → FirstTo chat os
    → Replies chat (send_all out os)
unfolding send_all
Replies-send_all out chat [] to = absurd to
Replies-send_all out chat (o ∷ os) to = record {
  at = λ w fits. elim (Bool-cases (out.delivers w.sent o)) [
    | inl taken ↦
        let rest : Goes (record w { sent = w.sent ++ o ∷ [] })
            (send_all out os (record w { sent = w.sent ++ o ∷ [] })).1 =
          (Keeps-send_all sending_steps out os (everywhere os)).at
            (record w { sent = w.sent ++ o ∷ [] }) in
        let first : Told chat w (record w { sent = w.sent ++ o ∷ [] }) = record {
          before = [];
          message = o;
          after = [];
          sent = refl;
          to = to;
        } in
        rw taken (
          Told-earlier chat w (record w { sent = w.sent ++ o ∷ [] })
            (send_all out os (record w { sent = w.sent ++ o ∷ [] })).1 first rest)
    | inr lost ↦ absurd (let no : err outside_error ≡ ok (tt {0}) = rw lost at fits in cc)
  ];
}
  where
    everywhere : (ps : List Outgoing) → Within anything ps
    everywhere [] = tt
    everywhere (p ∷ ps) = (tt, everywhere ps)
