-- ===== src/Daemon/Keeps.antt =====
-- Relations between the state before and after a coroutine: if each primitive step keeps one, so
-- does the handling of a message.
pub mod Effects
pub mod Handlers
pub mod Spawns
pub mod Updates
use overwatch_harness.Prelude.{
  ℕ, All, suc, Bool, true, false, Option, List, ◌∷◌, [], ◌++◌, ◌≡◌, refl, if◌then◌else◌,
}
use overwatch_harness.Exec.{Result, Error, ok, err, outside_error, continue}
use overwatch_harness.Text.{Text}
use overwatch_harness.Text.Int.{ℤ}
use overwatch_harness.Ledger.Db.{Db}
use overwatch_harness.Ledger.Sound.Run.{Write, write}
use overwatch_harness.Machine.{transition, quota_throttled}
use overwatch_harness.Egress.{Outgoing}
use overwatch_harness.Daemon.{World, Outside, Action, ◌>>=◌, now, send_all}

-- The rows that a coroutine may rewrite, by their keys, the chats that it may write to, and whether
-- it may add operators, engagements and messages.
pub record Scope : Type 1 where
  pub message : ℕ → Type 0
  pub engagement : ℕ → Type 0
  pub session : ℕ → Type 0
  pub chat : ℤ → Type 0
  pub adding : Type 0

abbrev pub anything : Scope
anything = record {
  message = λ k. Unit;
  engagement = λ k. Unit;
  session = λ k. Unit;
  chat = λ c. Unit;
  adding = Unit;
}

-- The calls of the ledger outside the spawn path, within a scope.
pub data Plain (S : Scope) : Write → Type 0 where
  upsert : (k : _) (u : _) (n : _) (t : _) → S.adding → Plain S (Write.upsert k u n t)
  open_engagement : (o : _) (s : _) (t : _) → S.adding → Plain S (Write.open_engagement o s t)
  close_engagement : (k : _) (t : _) → S.engagement k → Plain S (Write.close_engagement k t)
  arrive : (i : _) (t : _) → S.adding → Plain S (Write.arrive i t)
  set_status : (k : _) (s : _) (c : _) → S.message k → Plain S (Write.set_status k s c)

-- The calls on the spawn path, within a scope.
pub data Spawning (S : Scope) : Write → Type 0 where
  open_session :
      (e : _) (p : _) (s : _) (t : _) → S.engagement e → Spawning S (Write.open_session e p s t)
  attach : (k : _) (t : _) → S.session k → Spawning S (Write.attach k t)
  finalize :
      (k : _) (s : _) (c : _) (r : _) (d : _) (q : _) (t : _)
      → S.session k
      → Spawning S (Write.finalize k s c r d q t)

abbrev pub written : Write → World → World
written x w = record w { db = write x w.db }

pub record Steps (S : Scope) (R : World → World → Type 0) : Type 0 where
  pub same : (w : World) → R w w
  pub trans : (a b c : World) → R a b → R b c → R a c
  pub plain : (x : Write) → Plain S x → (w : World) → R w (written x w)
  pub clock : (w : World) → R w (record w { reads = suc w.reads })
  pub send :
      (o : Outgoing) → S.chat o.chat_id → (w : World) → R w (record w { sent = w.sent ++ o ∷ [] })

pub record SpawnSteps (S : Scope) (R : World → World → Type 0) : Type 0 where
  pub spawning : (x : Write) → Spawning S x → (w : World) → R w (written x w)
  pub throttle :
      (reason : Option Text) (w : World)
      → R w (record w { machine = transition quota_throttled reason w.machine })
  pub comment : (c : Text × Text) (w : World) → R w (record w { comments = w.comments ++ c ∷ [] })

pub record Keeps {A : Type 0} (R : World → World → Type 0) (m : Action A) : Type 0 where
  pub at : (w : World) → R w (m w).1

abbrev pub Within : Scope → List Outgoing → Type 0
Within S = All (λ o. S.chat o.chat_id)

module _ {S : Scope} {R : World → World → Type 0} (steps : Steps S R) where
  pub Keeps-continue :
      {A B : Type 0} (r : Result A) (f : A → Action B)
      → ((a : A) → Keeps R (f a))
      → Keeps R (continue r f)
  Keeps-continue (ok a) f k = k a
  Keeps-continue (err e) f k = record { at = λ w. steps.same w }

  pub Keeps-bind :
      {A B : Type 0} (m : Action A) (f : A → Action B)
      → Keeps R m
      → ((a : A) → Keeps R (f a))
      → Keeps R (m >>= f)
  unfolding ◌>>=◌
  Keeps-bind m f km kf = record {
    at = λ w.
        steps.trans w (m w).1 ((m >>= f) w).1 (km.at w) ((Keeps-continue (m w).0 f kf).at (m w).1);
  }

  pub Keeps-now : (out : Outside) → Keeps R (now out)
  unfolding now
  Keeps-now out = record { at = λ w. steps.clock w }

  pub Keeps-send_all :
      (out : Outside) (os : List Outgoing) → Within S os → Keeps R (send_all out os)
  unfolding send_all
  Keeps-send_all out [] inside = record { at = λ w. steps.same w }
  Keeps-send_all out (o ∷ os) inside =
      let rest : Keeps R (send_all out os) = Keeps-send_all out os inside.1 in
      record { at = λ w. either w (out.delivers w.sent o) rest }
    where
      either :
          (w : World) (b : Bool)
          → Keeps R (send_all out os)
          → R w
              (if b
                then send_all out os (record w { sent = w.sent ++ o ∷ [] })
                else (err outside_error, w)).1
      either w true k =
          steps.trans w (record w { sent = w.sent ++ o ∷ [] })
            (send_all out os (record w { sent = w.sent ++ o ∷ [] })).1 (steps.send o inside.0 w)
            (k.at (record w { sent = w.sent ++ o ∷ [] }))
      either w false k = steps.same w
