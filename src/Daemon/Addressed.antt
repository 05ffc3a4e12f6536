-- ===== src/Daemon/Addressed.antt =====
-- To whom the daemon writes.
use overwatch_harness.Prelude.{
  ℕ, Bool, true, Option, none, some, List, [], ◌∷◌, ◌++◌, append_assoc, append-nil, All, All-map,
  ◌≡◌, ◌⊎◌, inl, inr, refl, ap, Bool-cases,
}
use overwatch_harness.Text.{Text}
use overwatch_harness.Text.Int.{ℤ}
use overwatch_harness.Config.{HarnessSettings}
use overwatch_harness.Egress.{Outgoing}
use overwatch_harness.Daemon.{World, Outside}
use overwatch_harness.Daemon.Ingress.{TelegramMessage, allowed, refusal_note, on_message}
use overwatch_harness.Daemon.Gate.{outsider_refused}
use overwatch_harness.Daemon.Keeps.{anything, Scope, Steps, SpawnSteps}
use overwatch_harness.Daemon.Keeps.Spawns.{Keeps-run_spawn}
use overwatch_harness.Daemon.Keeps.Updates.{Keeps-on_message}
use overwatch_harness.Daemon.System.{Turn, arrives, beats, serve, turn}

-- What was sent in between is of this kind.
pub record Sends (P : Outgoing → Type 0) (w w' : World) : Type 0 where
  pub more : List Outgoing
  pub sent : w'.sent ≡ w.sent ++ more
  pub each : All P more

All-++ : (P : Outgoing → Type 0) (os ps : List Outgoing) → All P os → All P ps → All P (os ++ ps)
All-++ P [] ps h k = k
All-++ P (o ∷ os) ps h k = (h.0, All-++ P os ps h.1 k)

module _ (P : Outgoing → Type 0) where
  pub Sends-none : (w w' : World) → w'.sent ≡ w.sent → Sends P w w'
  Sends-none w w' e = record { more = []; sent = rw (e, append-nil) refl; each = tt }

  Sends-then : (a b c : World) → Sends P a b → Sends P b c → Sends P a c
  Sends-then a b c p q = record {
    more = p.more ++ q.more;
    sent = rw (q.sent, p.sent, append_assoc) refl;
    each = All-++ P p.more q.more p.each q.each;
  }

  -- The sends of the handlers, where those to the chats in scope are of this kind.
  pub Sends-steps : (S : Scope) → ((o : Outgoing) → S.chat o.chat_id → P o) → Steps S (Sends P)
  Sends-steps S fits = record {
    same = λ w. Sends-none w w refl;
    trans = Sends-then;
    plain = λ x p w. Sends-none w _ refl;
    clock = λ w. Sends-none w _ refl;
    send = λ o to w. record { more = o ∷ []; sent = refl; each = (fits o to, tt) };
  }

  pub Sends-spawns : (S : Scope) → SpawnSteps S (Sends P)
  Sends-spawns S = record {
    spawning = λ x p w. Sends-none w _ refl;
    throttle = λ reason w. Sends-none w _ refl;
    comment = λ c w. Sends-none w _ refl;
  }

  Sends-imp :
      (Q : Outgoing → Type 0)
      → ((o : Outgoing) → P o → Q o)
      → (w w' : World) → Sends P w w'
      → Sends Q w w'
  Sends-imp Q imp w w' s = record {
    more = s.more;
    sent = s.sent;
    each = All-map P Q s.more imp s.each;
  }

-- A message for this chat, which is no more than the refusal where the chat is not on the list.
abbrev pub Answers : List ℤ → Option ℤ → Outgoing → Type 0
Answers allowlist chat o =
    (chat ≡ some o.chat_id) × ((allowed o.chat_id allowlist ≡ true) ⊎ (o ≡ refusal_note o.chat_id))

module _ (out : Outside) (settings : HarnessSettings) (binary : Text) (plane : Bool)
    (allowlist : List ℤ) where
  on_message-to :
      (P : Outgoing → Type 0) (chat : Option ℤ) (msg : Option TelegramMessage)
      → ((o : Outgoing) → chat ≡ some o.chat_id → P o)
      → (w : World)
      → Sends P w
          (on_message out settings binary plane allowlist
            (record { effective_message = msg; effective_chat = chat })
            w).1
  on_message-to P chat msg fits w =
      let S : Scope = record anything { chat = λ c. chat ≡ some c } in
      let steps = Sends-steps P S fits in
      (Keeps-on_message steps (λ k. tt) (λ k. tt) tt out settings binary plane
          (λ m o d v to healthy.
            (Keeps-run_spawn steps (Sends-spawns P S) out settings binary plane m o d tt to tt
                (λ k. tt)).at
              v)
          allowlist (record { effective_message = msg; effective_chat = chat }) (λ c at. at)).at
        w

  on_message-Answers :
      (chat : Option ℤ) (msg : Option TelegramMessage) (w : World)
      → Sends
          (Answers allowlist chat)
          w
          (on_message out settings binary plane allowlist
            (record { effective_message = msg; effective_chat = chat })
            w).1
  on_message-Answers none msg w =
      on_message-to (Answers allowlist none) none msg (λ o h. absurd cc) w
  on_message-Answers (some c) msg w = elim (Bool-cases (allowed c allowlist)) [
    | inl may ↦
        on_message-to (Answers allowlist (some c)) (some c) msg
          (λ o h. (h, inl (let same : c ≡ o.chat_id = cc in rw same at may))) w
    | inr stranger ↦
        refused (outsider_refused out settings binary plane allowlist c msg w stranger).1
  ]
    where
      refused :
          {w' : World}
          → (w' ≡ w) ⊎ (w' ≡ record w { sent = w.sent ++ refusal_note c ∷ [] })
          → Sends (Answers allowlist (some c)) w w'
      refused {w'} (inl same) =
          Sends-none (Answers allowlist (some c)) w w' (ap (λ (v : World). v.sent) same)
      refused {w'} (inr told) = record {
        more = refusal_note c ∷ [];
        sent = ap (λ (v : World). v.sent) told;
        each = ((refl, inr refl), tt);
      }

-- One of the turns is an update from this chat.
abbrev pub Asked : ℤ → List Turn → Type 0
Asked chat [] = ⊥
Asked chat (arrives u ∷ ts) = (u.effective_chat ≡ some chat) ⊎ Asked chat ts
Asked chat (beats n ∷ ts) = Asked chat ts

abbrev pub Proper : List ℤ → List Turn → Outgoing → Type 0
Proper allowlist ts o =
    Asked o.chat_id ts × ((allowed o.chat_id allowlist ≡ true) ⊎ (o ≡ refusal_note o.chat_id))

-- Whatever the updates and heartbeats are, and whatever the bot, the claude process and the clock
-- do, each message that the daemon sends in that time goes to the chat of one of these updates,
-- and to a chat that is not on the allowlist it sends the fixed refusal and nothing else.
pub only_askers_answered :
    (out : Outside) (settings : HarnessSettings) (binary : Text) (plane : Bool) (allowlist : List ℤ)
    (pid : ℕ) (ts : List Turn) (w : World)
    → Sends (Proper allowlist ts) w (serve out settings binary plane allowlist pid ts w)
unfolding serve
only_askers_answered out settings binary plane allowlist pid [] w =
    Sends-none (Proper allowlist []) w w refl
only_askers_answered out settings binary plane allowlist pid (arrives u ∷ ts) w =
    let v = turn out settings binary plane allowlist pid (arrives u) w in
    Sends-then (Proper allowlist (arrives u ∷ ts)) w v _
      (Sends-imp (Answers allowlist u.effective_chat) (Proper allowlist (arrives u ∷ ts))
        (λ o h. (inl h.0, h.1)) w v
        (on_message-Answers out settings binary plane allowlist u.effective_chat u.effective_message
          w))
      (Sends-imp (Proper allowlist ts) (Proper allowlist (arrives u ∷ ts)) (λ o h. (inr h.0, h.1)) v
        _ (only_askers_answered out settings binary plane allowlist pid ts v))
only_askers_answered out settings binary plane allowlist pid (beats n ∷ ts) w =
    let v = turn out settings binary plane allowlist pid (beats n) w in
    Sends-then (Proper allowlist (beats n ∷ ts)) w v _
      (Sends-none (Proper allowlist (beats n ∷ ts)) w v refl)
      (only_askers_answered out settings binary plane allowlist pid ts v)
