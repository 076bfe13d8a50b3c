-- ===== src/Engine/Worker/Replies.antt =====
-- src/engine/mod.rs: what a worker answers, and when it retires.
use clackd.Base.{
  ℕ, ◌≡◌, ◌≢◌, refl, ap, sym, ◌∙◌, List, [], ◌∷◌, ◌++◌, append_assoc, append-nil, map, Bool, true,
  false, arith, if◌then◌else◌, Bool-cases, inl, inr, suc, String, ◌⊎◌,
}
use mathlib.Core.List.{map-append}
use clackd.Error.{Result-cases, disconnected, permission_denied}
use clackd.Hal.{KeyboardDriver}
use clackd.Engine.{
  WorkerOp, get_keycode, set_keycode, commit, get_macro, set_macro, get_lighting, set_lighting,
  reply_of, Outcome, value, failed, driver,
}
use clackd.Engine.Worker.{
  is_fatal_driver_error, is_value, Reply, keycode, done, bytes, Event, received, closed, expired,
  Worker, answer, layout_updated, after_set, on_set_keycode, on_commit, on_call, on_op,
  debounced_commit, on_expired, on_closed, retire, live_turn, turn, run_device_worker,
}

-- A result is a disconnection or a refused permission.
abbrev IsFatal {ℓ} : {A : Type ℓ} → Outcome A → Type ℓ
IsFatal {A} r =
    (r ≡ failed (driver disconnected))
    ⊎ ((path : String) × (r ≡ failed (driver (permission_denied path))))

abbrev IsFatalReply : Reply → Type 0
IsFatalReply (keycode r) = IsFatal r
IsFatalReply (done r) = IsFatal r
IsFatalReply (bytes r) = IsFatal r

fatal {ℓ} :
    {A : Type ℓ} (r : Outcome A)
    → ((is_fatal_driver_error r ≡ true) × IsFatal r)
      ⊎ ((is_fatal_driver_error r ≡ false) × ¬ IsFatal r)
unfolding is_fatal_driver_error
fatal (value a) = inr (refl, λ h. elim h [ inl e ↦ cc | inr (path, e) ↦ cc ])
fatal (failed (driver disconnected)) = inl (refl, inl refl)
fatal (failed (driver (permission_denied path))) = inl (refl, inr (path, refl))
fatal (failed e) = inr (ground arith, λ h. elim h [ inl k ↦ cc | inr (path, k) ↦ cc ])

abbrev is_fatal_reply : Reply → Bool
is_fatal_reply (keycode r) = is_fatal_driver_error r
is_fatal_reply (done r) = is_fatal_driver_error r
is_fatal_reply (bytes r) = is_fatal_driver_error r

fatal_reply :
    (r : Reply)
    → ((is_fatal_reply r ≡ true) × IsFatalReply r) ⊎ ((is_fatal_reply r ≡ false) × ¬ IsFatalReply r)
fatal_reply (keycode r) = fatal r
fatal_reply (done r) = fatal r
fatal_reply (bytes r) = fatal r

if-true {ℓ} : {A : Type ℓ} (x y : A) (b : Bool) → b ≡ true → (if b then x else y) ≡ x
if-true x y true h = refl
if-true x y false h = cc

if-false {ℓ} : {A : Type ℓ} (x y : A) (b : Bool) → b ≡ false → (if b then x else y) ≡ y
if-false x y true h = cc
if-false x y false h = refl

-- The reply senders of the operations, in the order in which they come.
abbrev senders : List (ℕ × Event) → List ℕ
senders [] = []
senders ((now, received op) ∷ es) = reply_of op ∷ senders es
senders ((now, closed) ∷ es) = senders es
senders ((now, expired) ∷ es) = senders es

ids_snoc :
    (rs : List (ℕ × Reply)) (i : ℕ) (r : Reply) (first : List ℕ)
    → map (λ x. x.0) (rs ++ ((i, r) ∷ [])) ++ first ≡ map (λ x. x.0) rs ++ (i ∷ first)
ids_snoc rs i r first = simp (map-append, append_assoc)

not_both : (b : Bool) → b ≡ false → b ≢ true
not_both b h k = cc

module _ (D : KeyboardDriver) where
  -- One reply, and the worker goes on exactly when the reply is not fatal.
  abbrev pub Answers : Worker D → WorkerOp → Worker D → Type 0
  Answers w op w' =
      (r : Reply) × (w'.replies ≡ w.replies ++ ((reply_of op, r) ∷ []))
      × (IsFatalReply r → (w'.running ≡ false) × (w'.notices ≡ suc w.notices))
      × (¬ IsFatalReply r → (w'.running ≡ true) × (w'.notices ≡ w.notices))

  retire-Answers :
      (op : WorkerOp) (r : Reply) (w w' : Worker D) (b : Bool)
      → b ≡ is_fatal_reply r
      → w'.replies ≡ w.replies ++ ((reply_of op, r) ∷ [])
      → w'.running ≡ true
      → w'.notices ≡ w.notices
      → Answers w op (retire D (b, w'))
  unfolding retire
  retire-Answers op r w w' b e k h n = elim (fatal_reply r) [
    | inl (t, is) ↦
        rw (e ∙ t, retire) (r, k, (λ _. (refl, ap (λ m. suc m) n)), λ safe. absurd (safe is))
    | inr (t, safe) ↦ rw (e ∙ t, retire) (r, k, (λ is. absurd (safe is)), λ _. (h, n))
  ]

  -- What an operation does before the worker may retire.
  Performs : Worker D → WorkerOp → Bool × Worker D → Type 0
  Performs w op (b, w') =
      (r : Reply) × (b ≡ is_fatal_reply r)
      × (w'.replies ≡ w.replies ++ ((reply_of op, r) ∷ []))
      × (w'.running ≡ w.running)
      × (w'.notices ≡ w.notices)

  after_set-keeps :
      (now : ℕ) (w : Worker D)
      → let w' = after_set D now w in
        (w'.replies ≡ w.replies) × (w'.running ≡ w.running) × (w'.notices ≡ w.notices)
  unfolding after_set layout_updated
  after_set-keeps now w = elim (Bool-cases (D.emits_layout_event_per_set w.device)) [
    | inl e ↦ rw e (refl, refl, refl)
    | inr e ↦ rw e (refl, refl, refl)
  ]

  set-Performs :
      (now l r c kc reply : ℕ) (w : Worker D)
      → Performs w (set_keycode l r c kc reply) (on_set_keycode D now l r c kc reply w)
  unfolding Performs on_set_keycode answer
  set-Performs now l r c kc reply w = elim (Result-cases (D.set_keycode now l r c kc w.device).0) [
    | inl (u, e) ↦
        let w' = answer D reply (done (value u)) (D.set_keycode now l r c kc w.device).1 w in
        let (sent, live, n) = after_set-keeps now w' in
        rw (e, is_value) (done (value u), refl, sent, live, n)
    | inr (x, e) ↦ rw (e, is_value) (done (failed (driver x)), refl, refl, refl, refl)
  ]

  commit-Performs :
      (now reply : ℕ) (w : Worker D) → Performs w (commit reply) (on_commit D now reply w)
  unfolding Performs on_commit answer layout_updated
  commit-Performs now reply w = elim (Result-cases (D.commit_to_nvram now w.device).0) [
    | inl (u, e) ↦ rw (e, is_value) (done (value u), refl, refl, refl, refl)
    | inr (x, e) ↦ rw (e, is_value) (done (failed (driver x)), refl, refl, refl, refl)
  ]

  op-Performs : (now : ℕ) (op : WorkerOp) (w : Worker D) → Performs w op (on_op D now op w)
  unfolding Performs on_op on_call answer
  op-Performs now (get_keycode l r c reply) w = (keycode _, refl, refl, refl, refl)
  op-Performs now (set_keycode l r c kc reply) w = set-Performs now l r c kc reply w
  op-Performs now (commit reply) w = commit-Performs now reply w
  op-Performs now (get_macro o n reply) w = (bytes _, refl, refl, refl, refl)
  op-Performs now (set_macro o bs reply) w = (done _, refl, refl, refl, refl)
  op-Performs now (get_lighting c v reply) w = (bytes _, refl, refl, refl, refl)
  op-Performs now (set_lighting c v bs reply) w = (done _, refl, refl, refl, refl)

  pub turn-live :
      (now : ℕ) (e : Event) (w : Worker D) → w.running ≡ true → turn D now e w ≡ live_turn D now e w
  unfolding turn
  turn-live now e w h = if-true _ _ w.running h

  pub turn-stopped : (now : ℕ) (e : Event) (w : Worker D) → w.running ≡ false → turn D now e w ≡ w
  unfolding turn
  turn-stopped now e w h = if-false _ _ w.running h

  -- A running worker that receives an operation sends exactly one reply, on the operation's own
  -- sender; it retires, and reports it, exactly when that reply is a disconnection or a refused
  -- permission.
  pub turn-Answers :
      (now : ℕ) (op : WorkerOp) (w : Worker D)
      → w.running ≡ true
      → Answers w op (turn D now (received op) w)
  unfolding live_turn Performs
  turn-Answers now op w h =
      let (r, b, k, live, n) = op-Performs now op w in
      rw (turn-live now (received op) w h)
        (retire-Answers op r w (on_op D now op w).1 (on_op D now op w).0 b k (live ∙ h) n)

  -- What a run answers: the first operations, in order, and all of them while the worker runs.
  abbrev pub AnswersFirst : List ℕ → Worker D → Worker D → Type 0
  AnswersFirst sent w w' =
      (first : List ℕ) × (rest : List ℕ) × (sent ≡ first ++ rest)
      × (map (λ x. x.0) w'.replies ≡ map (λ x. x.0) w.replies ++ first)
      × (w'.running ≡ true → rest ≡ [])

  quiet :
      (now : ℕ) (w : Worker D)
      → ((turn D now closed w).replies ≡ w.replies) × ((turn D now expired w).replies ≡ w.replies)
  unfolding turn live_turn on_closed on_expired debounced_commit retire layout_updated
  quiet now w = ground arith

  run-stopped :
      (es : List (ℕ × Event)) (w : Worker D) → w.running ≡ false → run_device_worker D es w ≡ w
  unfolding run_device_worker
  run-stopped [] w h = refl
  run-stopped ((now, e) ∷ es) w h =
      ap (run_device_worker D es) (turn-stopped now e w h) ∙ run-stopped es w h

  live-AnswersFirst :
      (now : ℕ) (e : Event) (es : List (ℕ × Event)) (w w' : Worker D)
      → w.running ≡ true
      → AnswersFirst (senders es) (turn D now e w) w'
      → AnswersFirst (senders ((now, e) ∷ es)) w w'
  live-AnswersFirst now (received op) es w w' h (first, rest, all, sent, live) =
      let (r, k, run, n) = turn-Answers now op w h in
      (
        reply_of op ∷ first,
        rest,
        ap (λ xs. reply_of op ∷ xs) all,
        sent ∙ ap (λ xs. map (λ x. x.0) xs ++ first) k ∙ ids_snoc w.replies (reply_of op) r first,
        live,
      )
  live-AnswersFirst now closed es w w' h (first, rest, all, sent, live) =
      (first, rest, all, sent ∙ ap (λ xs. map (λ x. x.0) xs ++ first) (quiet now w).0, live)
  live-AnswersFirst now expired es w w' h (first, rest, all, sent, live) =
      (first, rest, all, sent ∙ ap (λ xs. map (λ x. x.0) xs ++ first) (quiet now w).1, live)

  -- While a worker runs, every operation that it receives is answered, once and in order, on its own
  -- sender; when it stops, the operations behind are left unanswered.
  pub run-AnswersFirst :
      (es : List (ℕ × Event)) (w : Worker D)
      → AnswersFirst (senders es) w (run_device_worker D es w)
  unfolding run_device_worker
  run-AnswersFirst [] w = ([], [], refl, sym (append-nil _), λ h. refl)
  run-AnswersFirst ((now, e) ∷ es) w = elim (Bool-cases w.running) [
    | inl h ↦
        live-AnswersFirst now e es w (run_device_worker D es (turn D now e w)) h
          (run-AnswersFirst es (turn D now e w))
    | inr h ↦
        let kept = run-stopped ((now, e) ∷ es) w h in
        (
          [],
          senders ((now, e) ∷ es),
          refl,
          rw kept (sym (append-nil _)),
          λ r. absurd (not_both w.running h (sym (ap (λ x. x.running) kept) ∙ r)),
        )
  ]
