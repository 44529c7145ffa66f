-- ===== src/Daemon/Handlers/Output.antt =====
-- message_handler/send.rs and message_handler/log.rs. What the followed log shows at each look is an
-- argument, since other handlers and the task handler run between two looks.
pub mod Follow
use pueue.Base.{
  ℕ, String, Bool, true, false, not, ◌||◌, Option, none, some, List, [], ◌∷◌, ◌++◌, OrdMap, keys,
  get, insert, is_empty, length, head?, ◌⊎◌, inl, inr, ◌==◌, nat_ord, text_ord, if◌then◌else◌,
}
use pueue.Task.{Task, is_running, is_done}
use pueue.State.{State, Tasks, task_ids_in_group}
use pueue.Message.{
  TaskSelection, SendRequest, LogRequest, StreamRequest, TaskLogResponse, Response, lit, num, ids,
}
use pueue.Daemon.Os.{Os, Trace, Outcome, sent_input}
use pueue.Daemon.Workers.{get_child}
use pueue.Daemon.Internal.{InternalState, log_effect}
use pueue.Daemon.LogFile.{Sought, whole, at, seek_to_last_lines, remaining}

unfoldable pub send : Os → InternalState → SendRequest → InternalState × Response
send os s message = elim (get_child s.children message.task_id) [
  | none ↦ (s, Response.failure (lit "You can only send input to a running process." ∷ []))
  | some child ↦
      if os.input_succeeds s.trace child message.input
      then (
        log_effect (sent_input child message.input) s,
        Response.success (lit "Message is being send to the process." ∷ []),
      )
      else (s, Response.failure (lit "Failed to send input to task " ∷ num message.task_id ∷ []))
]

-- `output_complete` is the answer of `seek_to_last_lines`.
abbrev pub is_whole : Sought → Bool
is_whole whole = true
is_whole _ = false

-- `read_and_compress_log_file` of pueue_lib/src/log.rs; `left_at` is where the reader from the back
-- leaves the cursor.
unfoldable pub read_and_compress_log_file :
    Os → Trace → (left_at : ℕ) → ℕ → Option ℕ → Option (List ℕ × Bool)
unfolding seek_to_last_lines
read_and_compress_log_file os trace left_at task_id none = elim (os.log_content trace task_id) [
  | none ↦ none
  | some content ↦ some (os.compress content, true)
]
read_and_compress_log_file os trace left_at task_id (some lines) =
    elim (os.log_content trace task_id) [
      | none ↦ none
      | some content ↦
          let sought = seek_to_last_lines content lines in
          some (os.compress (remaining left_at content sought), is_whole sought)
    ]

abbrev pub task_log : Task → Option (List ℕ) → Bool → TaskLogResponse
task_log task output output_complete = record {
  task = task;
  output = output;
  output_complete = output_complete;
}

abbrev pub selected_tasks : State → TaskSelection → List ℕ
selected_tasks s TaskSelection.all = keys s.tasks
selected_tasks s (TaskSelection.task_ids task_ids) = task_ids
selected_tasks s (TaskSelection.group group) = task_ids_in_group s group

-- The log of a task that exists; `none` stands for a log file that cannot be read.
unfoldable pub log_of : Os → Trace → ℕ → LogRequest → ℕ → Task → Option TaskLogResponse
unfolding read_and_compress_log_file
log_of os trace left_at message task_id task =
    if message.send_logs
    then (elim (read_and_compress_log_file os trace left_at task_id message.lines) [
      | none ↦ none
      | some (output, output_complete) ↦ some (task_log task (some output) output_complete)
    ])
    else some (task_log task none true)

-- The loop over the ids, which skips missing tasks and stops at the first failure.
unfoldable pub get_logs :
    Os → InternalState → ℕ → LogRequest → List ℕ → OrdMap ℕ TaskLogResponse → Response
unfolding log_of
get_logs os s left_at message [] logs = Response.log logs
get_logs os s left_at message (task_id ∷ task_ids) logs =
    let rest = get_logs os s left_at message task_ids in
    elim (get task_id s.tasks) [
      | none ↦ rest logs
      | some task ↦ elim (log_of os s.trace left_at message task_id task) [
        | none ↦ Response.failure (lit "Failed reading process output file" ∷ [])
        | some entry ↦ rest (insert task_id entry logs)
      ]
    ]

unfoldable pub get_log : Os → (left_at : ℕ) → InternalState → LogRequest → Response
unfolding get_logs task_ids_in_group
get_log os left_at s message =
    get_logs os s left_at message (selected_tasks s.inner message.tasks) []

-- The task that is followed, or the answer where none is.
abbrev pub first_of : TaskSelection → Option ℕ
first_of (TaskSelection.task_ids task_ids) = head? task_ids
first_of _ = none

unfoldable pub running_ids : Tasks → List ℕ
running_ids [] = []
running_ids ((id, task) ∷ m) =
    let rest = running_ids m in if is_running task then id ∷ rest else rest

abbrev pub only_running : List ℕ → ℕ ⊎ Response
only_running [] = inr (Response.failure (lit "There are no running tasks." ∷ []))
only_running (id ∷ []) = inl id
only_running (id ∷ id' ∷ rest) = inr (
    Response.failure (
      lit "Multiple tasks are running, please select one of the following: "
      ∷ ids (id ∷ id' ∷ rest)
      ∷ []))

unfoldable pub followed_task : Tasks → StreamRequest → ℕ ⊎ Response
unfolding running_ids
followed_task tasks message = elim (first_of message.tasks) [
  | some id ↦ inl id
  | none ↦ only_running (running_ids tasks)
]

-- A wait for the task to start: `inl` is the answer where it does not exist, `inr` what is seen after
-- the look at which it has started, and `none` a wait that goes on.
unfoldable pub await_start : ℕ → List Tasks → Option (Response ⊎ List Tasks)
await_start task_id [] = none
await_start task_id (tasks ∷ looks) =
    let later = await_start task_id looks in
    elim (get task_id tasks) [
      | none ↦
          some (inl (Response.failure (lit "Pueue: The task to be followed doesn't exist." ∷ [])))
      | some task ↦ if is_running task || is_done task then some (inr looks) else later
    ]

-- What one round of the loop sees: whether the file exists, the text that it read, and the tasks.
pub record Look : Type 0 where
  pub exists : Bool
  pub text : Option String
  pub tasks : Tasks

abbrev pub streamed : ℕ → String → List Response
streamed task_id text = if text == "" then [] else Response.stream ((task_id, text) ∷ []) ∷ []

-- The end of the stream, if a round sees one.
abbrev pub end_of_stream : Option Task → Option Response
end_of_stream none = some (Response.failure (lit "Pueue: The followed task has been removed." ∷ []))
end_of_stream (some task) = if not (is_running task) then some Response.close else none

-- One round: the messages that it sends, and the answer that ends the stream.
unfoldable pub follow_round : ℕ → Look → List Response × Option Response
follow_round task_id look =
    if not look.exists
    then (
      [],
      some
          (Response.success (lit "Pueue: Log file has gone away. Has the task been removed?" ∷ [])),
    )
    else elim look.text [
      | none ↦ ([], some (Response.failure (lit "Pueue Error" ∷ [])))
      | some text ↦ (streamed task_id text, end_of_stream (get task_id look.tasks))
    ]

-- A round, and the later ones where it does not end the stream.
abbrev pub and_then :
    List Response × Option Response
    → List Response × Option Response
    → List Response × Option Response
and_then (messages, some response) later = (messages, some response)
and_then (messages, none) later = (messages ++ later.0, later.1)

-- The messages of the whole stream, and its answer; `none` is a stream that goes on.
unfoldable pub follow_rounds : ℕ → List Look → List Response × Option Response
unfolding follow_round
follow_rounds task_id [] = ([], none)
follow_rounds task_id (look ∷ looks) =
    and_then (follow_round task_id look) (follow_rounds task_id looks)

-- What the client is sent, the last message included; `None` where the stream or the wait goes on.
unfoldable pub follow_log :
    Tasks
    → StreamRequest
    → (starts : List Tasks) → (opened : Bool) → List Look
    → List Response × Option Response
unfolding followed_task await_start follow_rounds
follow_log tasks message starts opened looks = elim (followed_task tasks message) [
  | inr response ↦ ([], some response)
  | inl task_id ↦ elim (await_start task_id starts) [
    | none ↦ ([], none)
    | some (inl response) ↦ ([], some response)
    | some (inr _) ↦
        if not opened
        then (
          [],
          some (
              Response.failure
                (lit "Couldn't find output files for task. Maybe it finished? Try `log`" ∷ [])),
        )
        else follow_rounds task_id looks
  ]
]
