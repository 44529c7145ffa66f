-- ===== src/Daemon/Handlers/Output/Follow.antt =====
-- What the stream of a followed log carries (message_handler/log.rs).
use pueue.Base.{
  ℕ, String, ◌≡◌, ◌≢◌, ◌↔◌, refl, true, false, Option, none, some, List, [], ◌∷◌, ◌++◌, get,
  nat_ord, text_ord, ◌==◌, ==→eq, eq→==, inl, inr, Bool-cases, Option-cases, ap, subst, ◌∙◌, sym,
  append-nil, arith,
}
use pueue.Task.{Task, is_running}
use pueue.Message.{Response}
use pueue.Daemon.Handlers.Output.{Look, streamed, and_then, follow_round, follow_rounds}

-- The task exists and has a process.
abbrev pub Runs : Option Task → Type 0
Runs o = (task : Task) × (o ≡ some task) × (is_running task ≡ true)

-- The task exists and has no process.
abbrev pub Ended : Option Task → Type 0
Ended o = (task : Task) × (o ≡ some task) × (is_running task ≡ false)

-- The file exists and could be read.
abbrev pub Reads : Look → String → Type 0
Reads look text = (look.exists ≡ true) × (look.text ≡ some text)

-- The messages carry the texts in order, one each, except for the empty ones.
pub data Carries (task_id : ℕ) : List Response → List String → Type 0 where
  carries_none : Carries task_id [] []
  carries_text :
      (text : String) (ms : List Response) (texts : List String)
      → text ≢ ""
      → Carries task_id ms texts
      → Carries task_id (Response.stream ((task_id, text) ∷ []) ∷ ms) (text ∷ texts)
  skips_empty :
      (text : String) (ms : List Response) (texts : List String)
      → text ≡ ""
      → Carries task_id ms texts
      → Carries task_id ms (text ∷ texts)

-- The texts that are read while the task runs, and the last one, at a look at which it has ended.
-- What comes later is not looked at.
pub data Follows (task_id : ℕ) : List Look → List String → Type 0 where
  ends_at :
      (look : Look) (later : List Look) (text : String)
      → Reads look text
      → Ended (get task_id look.tasks)
      → Follows task_id (look ∷ later) (text ∷ [])
  goes_on_at :
      (look : Look) (looks : List Look) (text : String) (texts : List String)
      → Reads look text
      → Runs (get task_id look.tasks)
      → Follows task_id looks texts
      → Follows task_id (look ∷ looks) (text ∷ texts)

streamed-Carries :
    (task_id : ℕ) (text : String) (ms : List Response) (texts : List String)
    → Carries task_id ms texts
    → Carries task_id (streamed task_id text ++ ms) (text ∷ texts)
streamed-Carries task_id text ms texts c = elim (Bool-cases (text == "")) [
  | inl no_text ↦ rw no_text (skips_empty text ms texts (==→eq text "" no_text) c)
  | inr has_text ↦
      rw has_text
        (carries_text text ms texts (λ e. absurd (ground (arith, has_text, eq→== text "" e))) c)
]

Carries-streamed :
    (task_id : ℕ) (text : String) (ms : List Response) (texts : List String)
    → Carries task_id ms (text ∷ texts)
    → (ms' : List Response) × (ms ≡ streamed task_id text ++ ms') × Carries task_id ms' texts
Carries-streamed task_id _ _ _ (carries_text text ms texts has_text c) =
    elim (Bool-cases (text == "")) [
      | inl no_text ↦ absurd (has_text (==→eq text "" no_text))
      | inr e ↦ (ms, rw e refl, c)
    ]
Carries-streamed task_id _ _ _ (skips_empty text ms texts no_text c) =
    (ms, rw (eq→== text "" no_text) refl, c)

round_running :
    (task_id : ℕ) (look : Look) (text : String)
    → Reads look text
    → Runs (get task_id look.tasks)
    → follow_round task_id look ≡ (streamed task_id text, none)
unfolding follow_round
round_running task_id look text (e, t) (task, found, running) = rw (e, t, found, running)

round_ended :
    (task_id : ℕ) (look : Look) (text : String)
    → Reads look text
    → Ended (get task_id look.tasks)
    → follow_round task_id look ≡ (streamed task_id text, some Response.close)
unfolding follow_round
round_ended task_id look text (e, t) (task, found, stopped) = rw (e, t, found, stopped)

-- What a round has seen that sends these messages and gives this answer.
data Seen (task_id : ℕ) (look : Look) : List Response → Option Response → Type 0 where
  seen_running :
      (text : String)
      → Reads look text
      → Runs (get task_id look.tasks)
      → Seen task_id look (streamed task_id text) none
  seen_ended :
      (text : String)
      → Reads look text
      → Ended (get task_id look.tasks)
      → Seen task_id look (streamed task_id text) (some Response.close)
  seen_trouble :
      (ms : List Response) (answer : Response)
      → answer ≢ Response.close
      → Seen task_id look ms (some answer)

follow_round-Seen :
    (task_id : ℕ) (look : Look)
    → Seen task_id look (follow_round task_id look).0 (follow_round task_id look).1
unfolding follow_round
follow_round-Seen task_id look = elim (Bool-cases look.exists) [
  | inr gone ↦ rw gone (seen_trouble [] _ (λ e. cc e))
  | inl there ↦ elim (Option-cases look.text) [
    | inl unread ↦ rw (there, unread) (seen_trouble [] _ (λ e. cc e))
    | inr (text, read) ↦ elim (Option-cases (get task_id look.tasks)) [
      | inl missing ↦ rw (there, read, missing) (seen_trouble (streamed task_id text) _ (λ e. cc e))
      | inr (task, found) ↦ elim (Bool-cases (is_running task)) [
        | inl running ↦
            subst (λ (p : List Response × Option Response). Seen task_id look p.0 p.1)
              (sym (round_running task_id look text (there, read) (task, found, running)))
              (seen_running text (there, read) (task, found, running))
        | inr stopped ↦
            subst (λ (p : List Response × Option Response). Seen task_id look p.0 p.1)
              (sym (round_ended task_id look text (there, read) (task, found, stopped)))
              (seen_ended text (there, read) (task, found, stopped))
      ]
    ]
  ]
]

closed-Carries :
    (task_id : ℕ) (looks : List Look) (ms : List Response)
    → follow_rounds task_id looks ≡ (ms, some Response.close)
    → (texts : List String) × Follows task_id looks texts × Carries task_id ms texts
unfolding follow_rounds
closed-Carries task_id [] ms e = absurd (cc e)
closed-Carries task_id (look ∷ looks) ms e =
    of (follow_round-Seen task_id look) (λ ms' e'. closed-Carries task_id looks ms' e') e
  where
    of :
        {first : List Response} {answer : Option Response}
        → Seen task_id look first answer
        → ((ms' : List Response)
            → follow_rounds task_id looks ≡ (ms', some Response.close)
            → (texts : List String) × Follows task_id looks texts × Carries task_id ms' texts)
        → and_then (first, answer) (follow_rounds task_id looks) ≡ (ms, some Response.close)
        → (texts : List String) × Follows task_id (look ∷ looks) texts × Carries task_id ms texts
    of (seen_running text reads runs) later e' =
        let (texts, more, c) = later (follow_rounds task_id looks).0 (ground arith) in
        (
          text ∷ texts,
          goes_on_at look looks text texts reads runs more,
          subst (λ l. Carries task_id l (text ∷ texts))
              (ap (λ (x : List Response × Option Response). x.0) e')
              (streamed-Carries task_id text (follow_rounds task_id looks).0 texts c),
        )
    of (seen_ended text reads ended) later e' = (
      text ∷ [],
      ends_at look looks text reads ended,
      subst (λ l. Carries task_id l (text ∷ []))
          (append-nil (streamed task_id text)
            ∙ ap (λ (x : List Response × Option Response). x.0) e')
          (streamed-Carries task_id text [] [] carries_none),
    )
    of (seen_trouble first answer other) later e' = absurd (other (ground arith))

Carries-none : (task_id : ℕ) (ms : List Response) → Carries task_id ms [] → ms ≡ []
Carries-none task_id _ carries_none = refl

Carries-closed :
    (task_id : ℕ) (looks : List Look) (ms : List Response) (texts : List String)
    → Follows task_id looks texts
    → Carries task_id ms texts
    → follow_rounds task_id looks ≡ (ms, some Response.close)
unfolding follow_rounds
Carries-closed task_id _ ms _ (ends_at look later text reads e) c =
    let (ms', same, rest) = Carries-streamed task_id text ms [] c in
    rw (round_ended task_id look text reads e, same, Carries-none task_id ms' rest)
      (ap (λ l. (l, some Response.close)) (sym (append-nil (streamed task_id text))))
Carries-closed task_id _ ms _ (goes_on_at look looks text texts reads runs more) c =
    let (ms', same, rest) = Carries-streamed task_id text ms texts c in
    rw
      (
        round_running task_id look text reads runs,
        Carries-closed task_id looks ms' texts more rest,
        same,
      )
      refl

-- The followed stream is closed after some messages exactly if the task has a process at each look
-- up to one at which it exists and has none, the log file exists and can be read at all of them,
-- and the messages carry the texts that were read, in order, each that is not empty in a message
-- of its own.
pub follow_rounds-Carries :
    (task_id : ℕ) (looks : List Look) (ms : List Response)
    → (follow_rounds task_id looks ≡ (ms, some Response.close))
      ↔ ((texts : List String) × Follows task_id looks texts × Carries task_id ms texts)
follow_rounds-Carries task_id looks ms =
    (closed-Carries task_id looks ms, λ h. Carries-closed task_id looks ms h.0 h.1 h.2)
